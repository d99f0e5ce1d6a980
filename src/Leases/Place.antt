-- ===== src/Leases/Place.antt =====
-- llmsvc/leases.py: `place`. A pass of its loop reads what the scheduler, the probe and the dispatcher answer
-- in the order of the calls; the waits between the passes and the requests for samples are left out, as are
-- the log and the texts of an error. The store does not change while a pass holds the action lock.
-- The lock before the loop is acquired, and the worker of recoveries answers a hopeless request as before.
use llm_service_manager.Prelude.{
  ℕ, String, Bool, true, false, not, ◌&&◌, ◌||◌, Option, none, some, List, [], ◌∷◌, ◌++◌, ◌⊎◌, inl,
  inr, str_eq,
}
use llm_service_manager.Prelude.Tests.{
  is_true, is_false, is_some, is_none, or_default, opt_nat_eq, if◌then◌else◌,
}
use llm_service_manager.Prelude.Lists.{any, find?}
use llm_service_manager.Prelude.Float.{Float, amount}
use llm_service_manager.Prelude.Result.{Result, ok, err}
use llm_service_manager.State.{StateSnapshot, ModelState, Lease, Blocker, Action, Kind, blocker}
use llm_service_manager.Store.Rows.{IntentStore, RecoveryClaim}
use llm_service_manager.Store.Leases.{create_lease}
use llm_service_manager.Policy.Placement.Plan.{PlacementDecision}
use llm_service_manager.Leases.Probe.{UnitObservation}
use llm_service_manager.Leases.Finish.{disabled}
use llm_service_manager.Leases.Admission.{Admission, Verdict, is_place, recovery_context, decision}
use llm_service_manager.Leases.Victim.{Look, observe_victim}
use llm_service_manager.Leases.Window.{Sample, Window, closed, turn, gives_up}

-- `LeaseError`
pub record Refusal (N : Type 0) : Type 0 where
  pub status : ℕ
  pub error : String
  pub blockers : List (Blocker N)

-- What the dispatcher answers: done, an `ActionDispatchError`, or another exception
pub data Dispatched : Type 0 where
  done : Dispatched
  declined : (reason : String) → Dispatched
  broken : (message : String) → Dispatched

-- What one pass of the loop meets
pub record Pass (N : Type 0) : Type 0 where
  pub before_deadline : Bool
  pub reconciled : Refusal N ⊎ IntentStore N
  pub locked : Bool
  pub admission : Admission N
  pub snapshot : StateSnapshot N
  pub now : N
  pub is_over : Bool
  pub sample : Option (Sample N)
  pub gave_up_late : Bool
  pub inspect : (model : String) → Refusal N ⊎ UnitObservation
  pub admission_again : Admission N
  pub snapshot_again : StateSnapshot N
  pub in_time : Bool
  pub lease_id : String
  pub expires_at : N
  pub unit : String
  pub dispatched : Dispatched
  pub looks : List (Look N)
  pub ended_late : Bool

-- The variables of the loop that the next pass reads
pub record Loop (N : Type 0) : Type 0 where
  pub window : Window N
  pub waiting : Bool
  pub blockers : List (Blocker N)

-- How a pass ends. The answer of `_unplaceable_error` is told apart from the other refusals.
pub data Next (N : Type 0) : Type 0 where
  goes_on : Loop N → Next N
  refuses : Refusal N → Next N
  declines : Refusal N → Next N
  fails : (message : String) → Next N
  grants : Lease N → IntentStore N → Next N

-- The stop that a pass submitted, and how the loop goes on
pub record Turned (N : Type 0) : Type 0 where
  pub submitted : List Action
  pub next : Next N

module _ {N : Type 0} where
  abbrev pub quietly : Next N → Turned N
  quietly next = record { submitted = []; next = next }

  abbrev pub refusal : (status : ℕ) (error : String) → List (Blocker N) → Refusal N
  refusal status error blockers = record { status = status; error = error; blockers = blockers }

  abbrev pub or_blockers : (first second : List (Blocker N)) → List (Blocker N)
  or_blockers [] second = second
  or_blockers (b ∷ bs) second = b ∷ bs

  abbrev pub timed_out : List (Blocker N) → Refusal N
  timed_out blockers = refusal 409 "placement_timeout" blockers

  -- The handler of a `LeaseError`: a timeout names the last blockers if it has none.
  abbrev pub raises : (blockers : List (Blocker N)) → Refusal N → Turned N
  raises blockers r = quietly (
      if str_eq r.error "placement_timeout"
      then Next.refuses (timed_out (or_blockers r.blockers blockers))
      else Next.refuses r)

  abbrev pub first_action : PlacementDecision N → Option Action
  first_action d = elim d.actions [ [] ↦ none | a ∷ _ ↦ some a ]

  abbrev pub action_of : Option (PlacementDecision N) → Option Action
  action_of none = none
  action_of (some d) = first_action d

  abbrev pub is_hopeless : Option (PlacementDecision N) → Bool
  is_hopeless none = false
  is_hopeless (some d) = d.unplaceable && is_none (first_action d)

  abbrev pub has_outstanding : StateSnapshot N → (model : String) → Bool
  has_outstanding s model =
      any (λ (l : Lease N). str_eq l.model model && not (str_eq l.status "released")) s.leases

  abbrev pub account_of : StateSnapshot N → (model : String) → Option (Lease N)
  account_of s model =
      find? (λ (l : Lease N). str_eq l.model model && str_eq l.status "confirmed") s.leases

  -- The account of a victim, which runs under it
  abbrev pub is_identified : Option (Lease N) → UnitObservation → Bool
  is_identified none o = false
  is_identified (some account) o = o.active && str_eq o.lease_id account.lease_id

abbrev pub kind_eq : Kind → Kind → Bool
kind_eq Kind.place Kind.place = true
kind_eq Kind.stop Kind.stop = true
kind_eq Kind.sleep Kind.sleep = true
kind_eq Kind.wake Kind.wake = true
kind_eq _ _ = false

abbrev pub kind_name : Kind → String
kind_name Kind.sleep = "sleep"
kind_name Kind.stop = "stop"
kind_name Kind.wake = "wake"
kind_name Kind.place = "place"

abbrev pub is_stop : Action → Bool
is_stop a = kind_eq a.kind Kind.stop

abbrev pub action_eq : Action → Option Action → Bool
action_eq a none = false
action_eq a (some b) =
    kind_eq a.kind b.kind
    && str_eq a.model b.model
    && str_eq a.reason b.reason
    && opt_nat_eq a.gpu b.gpu

module _ {N : Type 0} ⦃F : Float N⦄ (request : ModelState N) (v : Pass N) where
  abbrev pub waits : Loop N → (blockers : List (Blocker N)) → Turned N
  waits l blockers = quietly (Next.goes_on (record l { waiting = true; blockers = blockers }))

  -- `_enabled`, before what follows it
  abbrev pub when_enabled : Admission N → IntentStore N → List (Blocker N) → Turned N → Turned N
  when_enabled a s blockers next = elim (disabled a.context s) [
    | some (status, error) ↦ raises blockers (refusal status error [])
    | none ↦ next
  ]

  abbrev pub changed : List (Blocker N) → List (Blocker N)
  changed blockers =
      or_blockers blockers (blocker (some request.name) "placement_changed" none ∷ [])

  -- A decision to place has a card and a budget.
  abbrev pub lease_of : (util : N) → PlacementDecision N → Lease N
  lease_of util d = record {
    lease_id = v.lease_id;
    model = request.name;
    gpu = or_default 0 d.gpu;
    util = util;
    expires_at = v.expires_at;
    budget_gb = amount d.budget_gb;
    status = "pending";
  }

  -- The answer of the store; with the claim of a recovery, its error has a name.
  abbrev pub written :
      Lease N
      → List (Blocker N)
      → (claim : Option (RecoveryClaim N)) → Result (IntentStore N)
      → Turned N
  written lease blockers claim (ok s) = quietly (Next.grants lease s)
  written lease blockers none (err message) = quietly (Next.fails message)
  written lease blockers (some _) (err message) =
      raises blockers (refusal 503 "sleeping_recovery_changed" [])

  abbrev pub granted :
      (util : N)
      → IntentStore N
      → PlacementDecision N
      → List (Blocker N)
      → String ⊎ Option (RecoveryClaim N)
      → Turned N
  granted util s d blockers (inl reason) = raises blockers (refusal 503 reason [])
  granted util s d blockers (inr claim) =
      written (lease_of util d) blockers claim (create_lease s (lease_of util d) v.unit false claim)

  abbrev pub unit_reason : UnitObservation → String
  unit_reason o = if is_true o.exists then "unit_exists" else "unit_state_unknown"

  -- The decision that was made again has the same first action.
  abbrev pub placed :
      (util : N)
      → IntentStore N
      → Loop N
      → List (Blocker N)
      → UnitObservation
      → PlacementDecision N
      → Turned N
  placed util s l blockers o d =
      if is_false o.exists && v.in_time
      then granted util s d blockers (recovery_context v.admission_again s request.name)
      else waits l (blocker (some request.name) (unit_reason o) none ∷ [])

  abbrev pub again_placed :
      (util : N)
      → IntentStore N
      → Loop N
      → Action
      → List (Blocker N)
      → UnitObservation
      → Result (Verdict N)
      → Turned N
  again_placed util s l a blockers o (err message) = quietly (Next.fails message)
  again_placed util s l a blockers o (ok (none, again)) = waits l (changed again)
  again_placed util s l a blockers o (ok (some d, again)) =
      if action_eq a (first_action d) then placed util s l blockers o d else waits l (changed again)

  abbrev pub decision_again : IntentStore N → Loop N → Result (Verdict N)
  decision_again s l = decision v.admission_again s v.snapshot_again request l.waiting

  abbrev pub with_place :
      (util : N)
      → IntentStore N
      → Loop N
      → Action
      → List (Blocker N)
      → Refusal N ⊎ UnitObservation
      → Turned N
  with_place util s l a blockers (inl r) = raises blockers r
  with_place util s l a blockers (inr o) =
      when_enabled v.admission_again s blockers
        (again_placed util s l a blockers o (decision_again s l))

  abbrev pub failure_of : Dispatched → Option String
  failure_of (Dispatched.declined reason) = some reason
  failure_of _ = none

  -- What follows the observation of a victim
  abbrev pub after_victim : Loop N → Action → List (Blocker N) → (failure : Option String) → Next N
  after_victim l a blockers failure =
      let outcome = blocker (some a.model) (or_default "exit_unconfirmed" failure) a.gpu ∷ [] in
      if is_some failure || not (observe_victim a none v.looks)
      then (if v.ended_late
          then Next.refuses (timed_out outcome)
          else Next.refuses (
              refusal 503
                (if is_some failure then "placement_action_failed" else "placement_no_progress")
                outcome))
      else Next.goes_on (record l { blockers = blockers })

  -- The stop is submitted once; an exception of another kind escapes.
  abbrev pub submitted : Loop N → Action → List (Blocker N) → Dispatched → Turned N
  submitted l a blockers (Dispatched.broken message) = record {
    submitted = a ∷ [];
    next = Next.fails message;
  }
  submitted l a blockers dispatched = record {
    submitted = a ∷ [];
    next = after_victim l a blockers (failure_of dispatched);
  }

  abbrev pub again_stopped : Loop N → Action → List (Blocker N) → Result (Verdict N) → Turned N
  again_stopped l a blockers (err message) = quietly (Next.fails message)
  again_stopped l a blockers (ok (d, again)) =
      if action_eq a (action_of d)
      then submitted l a blockers v.dispatched
      else waits l (changed again)

  abbrev pub with_victim :
      IntentStore N → Loop N → Action → List (Blocker N) → Refusal N ⊎ UnitObservation → Turned N
  with_victim s l a blockers (inl r) = raises blockers r
  with_victim s l a blockers (inr o) =
      if is_identified (account_of v.snapshot a.model) o
      then when_enabled v.admission_again s blockers
          (again_stopped l a blockers (decision_again s l))
      else raises blockers (
          refusal 503 "placement_action_blocked"
            (blocker (some a.model) "unit_identity_unconfirmed" a.gpu ∷ []))

  abbrev pub no_plan :
      (grace : N) → Loop N → List (Blocker N) → (hopeless : Bool) → Option (Turned N)
  no_plan grace l blockers false = none
  no_plan grace l blockers true =
      if v.is_over
      then some (raises blockers (timed_out blockers))
      else if gives_up grace l.window v.now v.sample
      then some (
          if v.gave_up_late
          then raises blockers (timed_out blockers)
          else quietly (Next.declines (refusal 503 "no_feasible_gpu" blockers)))
      else none

  abbrev pub acted :
      (util : N) → IntentStore N → Loop N → List (Blocker N) → Option Action → Turned N
  acted util s l blockers none = waits l blockers
  acted util s l blockers (some a) =
      if is_place a
      then with_place util s l a blockers (v.inspect request.name)
      else if is_stop a
      then with_victim s l a blockers (v.inspect a.model)
      else raises blockers (
          refusal 503 "placement_action_not_supported"
            (blocker (some a.model) (kind_name a.kind) none ∷ []))

  abbrev pub decided : (util grace : N) → IntentStore N → Loop N → Result (Verdict N) → Turned N
  decided util grace s l (err message) = quietly (Next.fails message)
  decided util grace s l (ok (d, blockers)) = elim (no_plan grace l blockers (is_hopeless d)) [
    | some ends ↦ ends
    | none ↦
        acted util s
          (record l { window = turn l.window (is_hopeless d) v.now v.sample; blockers = blockers })
          blockers (action_of d)
  ]

  abbrev pub reconciled : (util grace : N) → Loop N → Refusal N ⊎ IntentStore N → Turned N
  reconciled util grace l (inl r) = raises l.blockers r
  reconciled util grace l (inr s) =
      if not v.locked
      then raises l.blockers (timed_out [])
      else when_enabled v.admission s l.blockers (
          if has_outstanding v.snapshot request.name
          then raises l.blockers (
              refusal 409 "outstanding_lease"
                (blocker (some request.name) "outstanding_lease" none ∷ []))
          else decided util grace s l (decision v.admission s v.snapshot request l.waiting))

  -- One pass of the loop
  unfoldable pub pass_once : (util grace : N) → Loop N → Turned N
  pass_once util grace l =
      if v.before_deadline
      then reconciled util grace l v.reconciled
      else quietly (Next.refuses (timed_out l.blockers))

-- What `place` submitted, and how it ended
pub record Placed (N : Type 0) : Type 0 where
  pub stops : List Action
  pub ending : Next N

module _ {N : Type 0} ⦃F : Float N⦄ (request : ModelState N) (util grace : N) where
  -- The loop over the passes; behind the last one the deadline is over.
  unfoldable pub place_each : Loop N → List (Pass N) → Placed N
  place_each l [] = record { stops = []; ending = Next.refuses (timed_out l.blockers) }
  place_each l (v ∷ vs) =
      let t = pass_once request v util grace l in
      elim t.next [
        | goes_on l' ↦
            let rest = place_each l' vs in record rest { stops = t.submitted ++ rest.stops }
        | refuses r ↦ record { stops = t.submitted; ending = Next.refuses r }
        | declines r ↦ record { stops = t.submitted; ending = Next.declines r }
        | fails message ↦ record { stops = t.submitted; ending = Next.fails message }
        | grants lease s ↦ record { stops = t.submitted; ending = Next.grants lease s }
      ]

  -- Before the loop: `_enabled` and the recovery of the model, without the handler of the loop
  unfoldable pub place : Admission N → IntentStore N → List (Pass N) → Placed N
  place a s passes = elim (disabled a.context s) [
    | some (status, error) ↦ record { stops = []; ending = Next.refuses (refusal status error []) }
    | none ↦ elim (recovery_context a s request.name) [
      | inl reason ↦ record { stops = []; ending = Next.refuses (refusal 503 reason []) }
      | inr claim ↦ place_each (record { window = closed; waiting = false; blockers = [] }) passes
    ]
  ]
