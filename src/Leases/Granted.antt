-- ===== src/Leases/Granted.antt =====
-- llmsvc/leases.py: what `place` has seen when it grants a lease or stops a model.
use llm_service_manager.Prelude.{
  String, ◌≡◌, refl, sym, subst, false, Option, some, List, [], ◌∷◌, ◌++◌, ◌⊎◌, inl, inr,
}
use mathlib.Core.List.{Memᴰ}
use llm_service_manager.Prelude.Tests.{Option-cases}
use llm_service_manager.Prelude.Lists.{All, All-append, All-map}
use llm_service_manager.Prelude.Float.{Float}
use llm_service_manager.State.{ModelState, Lease, Action}
use llm_service_manager.Store.Rows.{IntentStore, RecoveryClaim, lease_row}
use llm_service_manager.Store.Created.{create_lease-lease_row}
use llm_service_manager.Leases.Finish.{disabled}
use llm_service_manager.Leases.Admission.{Admission, recovery_context}
use llm_service_manager.Leases.Admitted.{IsAdmitted, decision-IsAdmitted}
use llm_service_manager.Leases.Victim.{IsSeen}
use llm_service_manager.Leases.Window.{closed}
use llm_service_manager.Leases.Place.{
  Pass, Loop, Next, Turned, Placed, refusal, pass_once, place_each, place,
}
use llm_service_manager.Leases.Passes.{IsGrant, IsStopped, IsReady, pass_once-IsGood}

module _ {N : Type 0} ⦃F : Float N⦄ (request : ModelState N) where
  -- A pass of the loop explains the stop.
  abbrev pub Stopped : List (Pass N) → Action → Type 0
  Stopped passes a = (v : Pass N) × Memᴰ v passes × IsStopped request v a

module _ {N : Type 0} ⦃F : Float N⦄ where
  -- The effect of the action was seen in two newer rounds.
  abbrev pub Cleared : List (Pass N) → Action → Type 0
  Cleared passes a = (v : Pass N) × Memᴰ v passes × IsSeen a v.looks

  first-Cleared :
      (v : Pass N) (vs : List (Pass N)) (stops : List Action)
      → All (λ a. IsSeen a v.looks) stops
      → All (Cleared (v ∷ vs)) stops
  first-Cleared v vs stops h =
      All-map (λ a. IsSeen a v.looks) (Cleared (v ∷ vs)) stops (λ a e. (v, Memᴰ.head refl, e)) h

  behind-Cleared :
      (v : Pass N) (vs : List (Pass N)) (stops : List Action)
      → All (Cleared vs) stops
      → All (Cleared (v ∷ vs)) stops
  behind-Cleared v vs stops h =
      All-map (Cleared vs) (Cleared (v ∷ vs)) stops
        (λ a e. let (u, there, seen) = e in (u, Memᴰ.tail there, seen)) h

module _ {N : Type 0} ⦃F : Float N⦄ (request : ModelState N) (util : N) where
  -- A pass explains the grant, and all stops before it had their effect.
  abbrev pub Granted : List (Pass N) → (stops : List Action) → Next N → Type 0
  Granted passes stops (Next.grants lease s) =
      ((v : Pass N) × Memᴰ v passes × IsGrant request v util lease s) × All (Cleared passes) stops
  Granted passes stops _ = Unit

  abbrev IsJustified : List (Pass N) → Placed N → Type 0
  IsJustified passes p = All (Stopped request passes) p.stops × Granted passes p.stops p.ending

  behind-Granted :
      (v : Pass N) (vs : List (Pass N)) (before stops : List Action) (n : Next N)
      → All (λ a. IsSeen a v.looks) before
      → Granted vs stops n
      → Granted (v ∷ vs) (before ++ stops) n
  behind-Granted v vs before stops (Next.grants lease s) seen ((u, there, h), cleared) = (
    (u, Memᴰ.tail there, h),
    All-append (Cleared (v ∷ vs)) before stops (first-Cleared v vs before seen)
        (behind-Cleared v vs stops cleared),
  )
  behind-Granted v vs before stops (Next.goes_on l) seen h = tt
  behind-Granted v vs before stops (Next.refuses r) seen h = tt
  behind-Granted v vs before stops (Next.declines r) seen h = tt
  behind-Granted v vs before stops (Next.fails message) seen h = tt

  first-Stopped :
      (v : Pass N) (vs : List (Pass N)) (stops : List Action)
      → All (IsStopped request v) stops
      → All (Stopped request (v ∷ vs)) stops
  first-Stopped v vs stops h =
      All-map (IsStopped request v) (Stopped request (v ∷ vs)) stops (λ a e. (v, Memᴰ.head refl, e))
        h

  -- What a turn makes of the rest of the loop
  abbrev turned : Turned N → (Loop N → Placed N) → Placed N
  turned t k = elim t.next [
    | Next.goes_on l' ↦ let rest = k l' in record rest { stops = t.submitted ++ rest.stops }
    | Next.refuses r ↦ record { stops = t.submitted; ending = Next.refuses r }
    | Next.declines r ↦ record { stops = t.submitted; ending = Next.declines r }
    | Next.fails message ↦ record { stops = t.submitted; ending = Next.fails message }
    | Next.grants lease s ↦ record { stops = t.submitted; ending = Next.grants lease s }
  ]

  turned-IsJustified :
      (v : Pass N) (vs : List (Pass N)) (stops : List Action) (next : Next N)
      (k : Loop N → Placed N)
      → All (IsStopped request v) stops
      → IsReady request v util stops next
      → ((l : Loop N) → IsJustified vs (k l))
      → IsJustified (v ∷ vs) (turned (record { submitted = stops; next = next }) k)
  turned-IsJustified v vs stops (Next.goes_on l) k h ready rest = (
    All-append (Stopped request (v ∷ vs)) stops (k l).stops (first-Stopped v vs stops h) (
        All-map (Stopped request vs) (Stopped request (v ∷ vs)) (k l).stops
          (λ a e. let (u, there, found) = e in (u, Memᴰ.tail there, found)) (rest l).0),
    behind-Granted v vs stops (k l).stops (k l).ending ready (rest l).1,
  )
  turned-IsJustified v vs stops (Next.refuses r) k h ready rest = (first-Stopped v vs stops h, tt)
  turned-IsJustified v vs stops (Next.declines r) k h ready rest = (first-Stopped v vs stops h, tt)
  turned-IsJustified v vs stops (Next.fails message) k h ready rest =
      (first-Stopped v vs stops h, tt)
  turned-IsJustified v vs stops (Next.grants lease s) k h (grant, none_yet) rest = (
    first-Stopped v vs stops h,
    ((v, Memᴰ.head refl, grant), subst (All (Cleared (v ∷ vs))) (sym none_yet) tt),
  )

  -- What a grant rests on, with the admission of its decision and the row in the store
  pub record IsWarranted (v : Pass N) (lease : Lease N) (after : IntentStore N) : Type 0 where
    pub grant : IsGrant request v util lease after
    pub admitted : IsAdmitted v.admission_again grant.store v.snapshot_again request grant.decision_
    pub is_stored : lease_row after lease.lease_id ≡ some (record { lease = lease; unit = v.unit })

  grant-IsWarranted :
      (v : Pass N) (lease : Lease N) (after : IntentStore N)
      → IsGrant request v util lease after
      → IsWarranted v lease after
  grant-IsWarranted v lease after g = record {
    grant = g;
    admitted =
        decision-IsAdmitted v.admission_again g.store v.snapshot_again request g.is_repeated.waiting
          g.decision_ (some g.decision_, g.is_repeated.blockers) g.is_repeated.again refl;
    is_stored = create_lease-lease_row g.store lease v.unit g.claim after g.was_written;
  }

module _ {N : Type 0} ⦃F : Float N⦄ (request : ModelState N) (util grace : N) where
  place_each-IsJustified :
      (passes : List (Pass N)) (l : Loop N)
      → IsJustified request util passes (place_each request util grace l passes)
  unfolding place_each
  place_each-IsJustified [] l = (tt, tt)
  place_each-IsJustified (v ∷ vs) l =
      let t = pass_once request v util grace l in
      let good = pass_once-IsGood request v util grace l in
      turned-IsJustified request util v vs t.submitted t.next
        (λ l'. place_each request util grace l' vs) good.0 good.1 (place_each-IsJustified vs)

  place-IsJustified :
      (a : Admission N) (s : IntentStore N) (passes : List (Pass N))
      → IsJustified request util passes (place request util grace a s passes)
  unfolding place
  place-IsJustified a s passes = elim (Option-cases (disabled a.context s)) [
    | inr ((status, error), e) ↦ rw (e, place) (tt, tt)
    | inl e ↦ rw (e, place) (begun (recovery_context a s request.name))
  ]
    where
      begun :
          (context : String ⊎ Option (RecoveryClaim N))
          → IsJustified request util passes (elim context [
            | inl reason ↦ record { stops = []; ending = Next.refuses (refusal 503 reason []) }
            | inr claim ↦
                place_each request util grace
                  (record { window = closed; waiting = false; blockers = [] })
                  passes
          ])
      begun (inl reason) = (tt, tt)
      begun (inr claim) = place_each-IsJustified passes _

  -- When `place` grants a lease, one pass of its loop held a store in which the controller was enabled and no
  -- lease of the model was open, made the same decision to place it twice, the second one admitted, found its unit
  -- absent before the deadline, and the store that it leaves has the lease, with the card and the budget of
  -- that decision; and the effect of every stop submitted before was seen in two newer rounds.
  pub place-IsWarranted :
      (a : Admission N) (s : IntentStore N) (passes : List (Pass N)) (lease : Lease N)
      (after : IntentStore N)
      → (place request util grace a s passes).ending ≡ Next.grants lease after
      → ((v : Pass N) × Memᴰ v passes × IsWarranted request util v lease after)
        × All (Cleared passes) (place request util grace a s passes).stops
  place-IsWarranted a s passes lease after e =
      let stops = (place request util grace a s passes).stops in
      let ((v, there, g), cleared) =
        subst (Granted request util passes stops) e (place-IsJustified a s passes).1 in
      ((v, there, grant-IsWarranted request util v lease after g), cleared)

  -- Every stop that `place` submits, however it ends, was decided twice in one pass, over a store in which
  -- the controller was enabled, for a model whose unit ran under the identifier of its confirmed lease.
  pub place-IsStopped :
      (a : Admission N) (s : IntentStore N) (passes : List (Pass N))
      → All (Stopped request passes) (place request util grace a s passes).stops
  place-IsStopped a s passes = (place-IsJustified a s passes).0
