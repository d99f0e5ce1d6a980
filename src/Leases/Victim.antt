-- ===== src/Leases/Victim.antt =====
-- llmsvc/leases.py: `_observe_victim`, which confirms the effect of an action in two newer rounds. A look at
-- the published sample is a record; whether the model shows the effect is an answer of the action controller.
use llm_service_manager.Prelude.{
  String, ◌≡◌, refl, Bool, true, false, not, ◌&&◌, Option, none, some, List, [], ◌∷◌, str_eq, arith,
  ◌⊎◌, inl, inr,
}
use mathlib.Core.List.{Memᴰ}
use llm_service_manager.Prelude.Tests.{Bool-cases, if◌then◌else◌}
use llm_service_manager.Prelude.Lists.{any}
use llm_service_manager.Prelude.Float.{Float}
use llm_service_manager.State.{StateSnapshot, Lease, Action, Kind}
use llm_service_manager.Leases.Observed.{Context, is_fresh}
use llm_service_manager.Leases.Admission.{has_confirmed}

pub record Look (N : Type 0) : Type 0 where
  pub in_time : Bool
  pub locked : Bool
  pub context : Context N
  pub snapshot : StateSnapshot N
  pub has_effect : Bool

module _ {N : Type 0} ⦃F : Float N⦄ where
  abbrev pub has_account : StateSnapshot N → (model : String) → Bool
  has_account s model =
      any (λ (l : Lease N). str_eq l.model model && not (str_eq l.status "released")) s.leases

  -- A sleep keeps the confirmed account; anything else releases it.
  abbrev pub account_ok : Action → StateSnapshot N → Bool
  account_ok a s = elim a.kind [
    | Kind.sleep ↦ has_confirmed s a.model
    | _ ↦ not (has_account s a.model)
  ]

  abbrev pub shows : Action → Look N → Bool
  shows a o = is_fresh o.context o.snapshot && account_ok a o.snapshot && o.has_effect

  abbrev pub is_newer : (sampled_at seen_at : Option N) → Bool
  is_newer (some t) (some u) = F.lt u t
  is_newer _ _ = false

  -- The looks until the deadline, and the time of the last one, if it showed the effect
  unfoldable pub observe_victim : Action → (seen_at : Option N) → List (Look N) → Bool
  observe_victim a seen_at [] = false
  observe_victim a seen_at (o ∷ os) =
      let seen = observe_victim a o.snapshot.sampled_at os in
      let unseen = observe_victim a none os in
      if o.in_time && o.locked
      then (if shows a o
          then (if is_newer o.snapshot.sampled_at seen_at then true else seen)
          else unseen)
      else false

  -- Two looks in time, the later one of a newer sample, show the effect.
  pub record IsSeen (a : Action) (looks : List (Look N)) : Type 0 where
    pub earlier : Look N
    pub later : Look N
    pub earlier_there : Memᴰ earlier looks
    pub later_there : Memᴰ later looks
    pub earlier_shows : shows a earlier ≡ true
    pub later_shows : shows a later ≡ true
    pub newer : is_newer later.snapshot.sampled_at earlier.snapshot.sampled_at ≡ true

  behind-IsSeen : (a : Action) (o : Look N) (os : List (Look N)) → IsSeen a os → IsSeen a (o ∷ os)
  behind-IsSeen a o os h = record {
    earlier = h.earlier;
    later = h.later;
    earlier_there = Memᴰ.tail h.earlier_there;
    later_there = Memᴰ.tail h.later_there;
    earlier_shows = h.earlier_shows;
    later_shows = h.later_shows;
    newer = h.newer;
  }

  -- A look that shows the effect in a sample newer than some time
  abbrev IsLate : Action → Option N → List (Look N) → Type 0
  IsLate a seen_at looks =
      (o : Look N) × Memᴰ o looks
      × (shows a o ≡ true)
      × (is_newer o.snapshot.sampled_at seen_at ≡ true)

  without_time : (a : Action) (looks : List (Look N)) → IsLate a none looks → IsSeen a looks
  without_time a looks (o, there, seen, newer) =
      absurd (ground (arith, never o.snapshot.sampled_at, newer))
    where
      never : (t : Option N) → is_newer t none ≡ false
      never none = refl
      never (some t) = refl

  observe_victim-found :
      (a : Action) (seen_at : Option N) (looks : List (Look N))
      → observe_victim a seen_at looks ≡ true
      → IsLate a seen_at looks ⊎ IsSeen a looks
  unfolding observe_victim
  observe_victim-found a seen_at [] e = absurd (ground (arith, e))
  observe_victim-found a seen_at (o ∷ os) e = elim (Bool-cases (o.in_time && o.locked)) [
    | inr late ↦ absurd (ground (arith, late, e))
    | inl held ↦ elim (Bool-cases (shows a o)) [
      | inr hidden ↦ elim (observe_victim-found a none os (ground (arith, held, hidden, e))) [
        | inl late ↦ inr (behind-IsSeen a o os (without_time a os late))
        | inr seen ↦ inr (behind-IsSeen a o os seen)
      ]
      | inl shown ↦ elim (Bool-cases (is_newer o.snapshot.sampled_at seen_at)) [
        | inl newer ↦ inl (o, Memᴰ.head refl, shown, newer)
        | inr old ↦
            elim (observe_victim-found a o.snapshot.sampled_at os
              (ground (arith, held, shown, old, e))) [
                | inl (later, there, later_shows, newer) ↦ inr (record {
                  earlier = o;
                  later = later;
                  earlier_there = Memᴰ.head refl;
                  later_there = Memᴰ.tail there;
                  earlier_shows = shown;
                  later_shows = later_shows;
                  newer = newer;
                })
                | inr seen ↦ inr (behind-IsSeen a o os seen)
              ]
      ]
    ]
  ]

  -- A confirmed effect was seen in two fresh samples, the later one newer than the earlier one.
  pub observe_victim-IsSeen :
      (a : Action) (looks : List (Look N)) → observe_victim a none looks ≡ true → IsSeen a looks
  observe_victim-IsSeen a looks e = elim (observe_victim-found a none looks e) [
    | inl late ↦ without_time a looks late
    | inr seen ↦ seen
  ]
