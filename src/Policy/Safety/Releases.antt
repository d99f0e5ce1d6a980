-- ===== src/Policy/Safety/Releases.antt =====
-- llmsvc/policy/common.py: `stop` and `sleep` keep the projection sound, the evictions that make
-- room for a sleep included.
use llm_service_manager.Prelude.{
  String, ◌≡◌, refl, ◌∙◌, Bool, true, false, not, ◌&&◌, ◌||◌, inl, inr, Option, none, some, List,
  [], ◌∷◌,
}
use llm_service_manager.Prelude.Tests.{Option-cases, if_ind}
use llm_service_manager.Prelude.Lists.{All, All-append, All-select}
use llm_service_manager.Prelude.Text.{Dict, insert, lookup, lookup-insert, values, All-insert}
use text.Mathlib.TextPositions.{eq_refl}
use llm_service_manager.Prelude.Float.{Float}
use llm_service_manager.State.{StateSnapshot, ModelState, Kind, is_asleep}
use llm_service_manager.Policy.Projection.{
  Projection, known_number, protection, memory_known, fits_sleep, stop_model, make_room, admit,
  settle, sleep_model,
}
use llm_service_manager.Policy.Safety.{IsIdle, Origin, IsSafe, IsSound, passed, idle_of}
use llm_service_manager.Policy.Safety.Steps.{IsCandidate, block-IsSound, candidates-IsSound}

sleep-ne-stop : Kind.sleep ≡ Kind.stop → ⊥
sleep-ne-stop e = cc

module _ {N : Type 0} ⦃F : Float N⦄ (s : StateSnapshot N) (exclusions : Dict String)
    (moving : Bool) where
  -- A stop of an idle model is safe, also where it takes the place of a sleep.
  pub stop_model-IsSound :
      (p : Projection N) (m : ModelState N) (reason : String)
      → IsSound s exclusions moving p
      → IsIdle s exclusions m.name
      → Origin s m
      → (moving ≡ false → m.is_default ≡ false)
      → IsSound s exclusions moving (stop_model p m reason)
  unfolding stop_model
  stop_model-IsSound p m reason v idle (o, there, named, same) spared = record {
    same_snapshot = v.same_snapshot;
    same_exclusions = v.same_exclusions;
    rows = v.rows;
    origins = All-insert (Origin s) m.name _ p.models (o, there, named, same) v.origins;
    safe =
        All-append (IsSafe s exclusions moving) _ _
          (All-select (IsSafe s exclusions moving) _ p.actions v.safe)
          (
            record {
              releases = inr refl;
              idle = idle;
              origin = (o, there, named, λ _ h. same ∙ spared h);
            },
            tt,
          );
  }

  abbrev Sound : Projection N → Type 0
  Sound p = IsSound s exclusions moving p

  pub stop_candidate-IsSound :
      (p : Projection N) (m : ModelState N) (reason : String) (relocating : Bool)
      → Sound p
      → (moving ≡ false → relocating ≡ false)
      → IsCandidate s exclusions true relocating m
      → Sound (stop_model p m reason)
  stop_candidate-IsSound p m reason relocating v only c =
      stop_model-IsSound p m reason v c.idle c.origin (λ h. c.spared refl (only h))

  make_room-IsSound :
      (weight : Option N) (ms : List (ModelState N)) (p : Projection N)
      → Sound p
      → All (IsCandidate s exclusions true false) ms
      → Sound (make_room p weight ms)
  unfolding make_room
  make_room-IsSound weight [] p v c = v
  make_room-IsSound weight (m ∷ ms) p v c =
      let p' = stop_model p m "sleep_memory_admission" in
      let v' : Sound p' =
        stop_candidate-IsSound p m "sleep_memory_admission" false v (λ _. refl) c.0 in
      if_ind Sound (fits_sleep p' weight) (λ _. v') (λ _. make_room-IsSound weight ms p' v' c.1)

  admit-IsSound :
      (p : Projection N) (m : ModelState N) (reclaim : Bool) → Sound p → Sound (admit p m reclaim)
  unfolding admit
  admit-IsSound p m reclaim v =
      let sleepers =
        All-select (Origin s) (λ (m : ModelState N). is_asleep m.state) (values p.models)
          v.origins in
      let (v', c) = candidates-IsSound s exclusions moving true none false p _ v sleepers in
      if_ind Sound (not (fits_sleep p m.weights_gb) && reclaim)
        (λ _. make_room-IsSound m.weights_gb _ _ v' c) (λ _. v)

  settle-IsSound :
      (p : Projection N) (m : ModelState N) (reason : String)
      → Sound p
      → IsIdle s exclusions m.name
      → Origin s m
      → Sound (settle p m reason).0
  unfolding settle
  settle-IsSound p m reason v idle (o, there, named, same) =
      if_ind (λ (r : Projection N × Bool). Sound r.0) (not (fits_sleep p m.weights_gb))
        (λ _.
          if_ind (λ (r : Projection N × Bool). Sound r.0) m.is_default
            (λ _. block-IsSound s exclusions moving p m "memory_budget" v)
            (λ spared.
              stop_model-IsSound p m "sleep_memory_admission" v idle (o, there, named, same)
                (λ _. spared)))
        (λ _. record {
          same_snapshot = v.same_snapshot;
          same_exclusions = v.same_exclusions;
          rows = v.rows;
          origins = All-insert (Origin s) m.name _ p.models (o, there, named, same) v.origins;
          safe = All-append (IsSafe s exclusions moving) p.actions _ v.safe (
            record {
              releases = inl refl;
              idle = idle;
              origin = (o, there, named, λ e. absurd (sleep-ne-stop e));
            },
            tt,
          );
        })

  -- A sleep keeps the projection sound on every branch: refused, admitted, or turned into a stop.
  pub sleep_model-IsSound :
      (p : Projection N) (m : ModelState N) (reason : String) (reclaim : Bool)
      → Sound p
      → Origin s m
      → Sound (sleep_model p m reason reclaim).0
  unfolding sleep_model
  sleep_model-IsSound p m reason reclaim v origin =
      elim (Option-cases (protection p m false none false)) [
        | inr (protected, e) ↦
            rw (e, sleep_model) (block-IsSound s exclusions moving p m protected v)
        | inl e ↦
            let idle =
              idle_of s exclusions moving p m v false false (passed p m false none false e) in
            rw (e, sleep_model)
              (if_ind (λ (r : Projection N × Bool). Sound r.0)
                (not (memory_known p) || not (known_number m.weights_gb))
                (λ _. block-IsSound s exclusions moving p m "unknown_memory" v)
                (λ _.
                  settle-IsSound (admit p m reclaim) m reason (admit-IsSound p m reclaim v) idle
                    origin))
      ]

-- After a sleep that went through, the projection holds the model under its name, awake no more.
module _ {N : Type 0} ⦃F : Float N⦄ (m : ModelState N) where
  abbrev pub Refreshed : Projection N × Bool → Type 0
  Refreshed r =
      r.1 ≡ true
      → (now : ModelState N) × (lookup m.name r.0.models ≡ some now)
        × (now.name ≡ m.name)
        × (now.is_default ≡ m.is_default)

  lookup_self :
      (v : ModelState N) (d : Dict (ModelState N)) → lookup m.name (insert m.name v d) ≡ some v
  lookup_self v d = simp (lookup-insert, eq_refl)

  settle-Refreshed : (p : Projection N) (reason : String) → Refreshed (settle p m reason)
  unfolding settle stop_model
  settle-Refreshed p reason =
      if_ind Refreshed (not (fits_sleep p m.weights_gb))
        (λ _.
          if_ind Refreshed m.is_default (λ _ e. cc)
            (λ _ e. (_, lookup_self _ p.models, refl, refl)))
        (λ _ e. (_, lookup_self _ p.models, refl, refl))

  pub sleep_model-Refreshed :
      (p : Projection N) (reason : String) (reclaim : Bool)
      → Refreshed (sleep_model p m reason reclaim)
  unfolding sleep_model
  sleep_model-Refreshed p reason reclaim = elim (Option-cases (protection p m false none false)) [
    | inr (protected, e) ↦ rw (e, sleep_model) (λ f. cc)
    | inl e ↦
        rw (e, sleep_model)
          (if_ind Refreshed (not (memory_known p) || not (known_number m.weights_gb)) (λ _ f. cc)
            (λ _. settle-Refreshed (admit p m reclaim) reason))
  ]
