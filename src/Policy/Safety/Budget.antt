-- ===== src/Policy/Safety/Budget.antt =====
-- llmsvc/policy/common.py: a sleep that goes through keeps the memory of the host within its limits.
use llm_service_manager.Prelude.{
  String, ◌≡◌, refl, subst, ◌∙◌, ◌⊎◌, inl, inr, Bool, true, false, not, ◌&&◌, ◌||◌, Option, none,
  some, List, [], ◌∷◌, ◌++◌, arith,
}
use llm_service_manager.Prelude.Lists.{select}
use llm_service_manager.Prelude.Text.{values}
use llm_service_manager.Prelude.Result.{Result-cases}
use llm_service_manager.Prelude.Tests.{Option-cases, if_ind}
use llm_service_manager.Prelude.Float.{Float, amount}
use llm_service_manager.State.{StateSnapshot, ModelState, Action, Kind, action, is_asleep}
use llm_service_manager.Policy.Projection.{
  Projection, known_number, block, protection, rank, candidates, score, make_room, memory_known,
  fits_sleep, stop_model, admit, settle, sleep_model,
}

module _ {N : Type 0} ⦃F : Float N⦄ where
  -- The estimates after the action keep the floor of the free memory and the budget of the sleepers.
  pub record IsWithin (s : StateSnapshot N) (q : Projection N) : Type 0 where
    pub left : N
    pub held : N
    pub available : q.available ≡ some left
    pub sleeping : q.sleeping ≡ some held
    pub floor : F.le s.memory.host_min_available_gb left ≡ true
    pub budget : F.le held s.memory.budget_gb ≡ true

  -- The projection ends in a stop of the model, which is then no default, or in its sleep within the
  -- limits.
  abbrev pub IsSettled : StateSnapshot N → ModelState N → String → Projection N → Type 0
  IsSettled s m reason q =
      ((rest : List Action) × (q.actions
          ≡ rest ++ action Kind.stop m.name "sleep_memory_admission" m.gpu ∷ [])
        × (m.is_default ≡ false))
      ⊎ ((rest : List Action) × (q.actions ≡ rest ++ action Kind.sleep m.name reason m.gpu ∷ [])
          × IsWithin s q)

  abbrev Settled : StateSnapshot N → ModelState N → String → Projection N × Bool → Type 0
  Settled s m reason (q, done) = done ≡ true → IsSettled s m reason q

  settle-Settled :
      (p : Projection N) (m : ModelState N) (reason : String)
      → Settled p.snapshot m reason (settle p m reason)
  unfolding settle fits_sleep stop_model
  settle-Settled p m reason =
      if_ind (Settled p.snapshot m reason) (not (fits_sleep p m.weights_gb))
        (λ e.
          if_ind (Settled p.snapshot m reason) m.is_default (λ f g. cc) (λ f g. inl (_, refl, f)))
        (λ e g. inr (
          p.actions,
          refl,
          record {
            left = F.minus (amount p.available) (amount m.weights_gb);
            held = F.plus (amount p.sleeping) (amount m.weights_gb);
            available = refl;
            sleeping = refl;
            floor = ground arith;
            budget = ground arith;
          },
        ))

  abbrev SameSnapshot : Projection N → Projection N → Type 0
  SameSnapshot p q = q.snapshot ≡ p.snapshot

  block-snapshot :
      (p : Projection N) (m : ModelState N) (reason : String) → SameSnapshot p (block p m reason)
  unfolding block
  block-snapshot p m reason = refl

  make_room-snapshot :
      (weight : Option N) (ms : List (ModelState N)) (p : Projection N)
      → SameSnapshot p (make_room p weight ms)
  unfolding make_room stop_model
  make_room-snapshot weight [] p = refl
  make_room-snapshot weight (m ∷ ms) p =
      if_ind (SameSnapshot p) (fits_sleep (stop_model p m "sleep_memory_admission") weight)
        (λ _. refl) (λ _. make_room-snapshot weight ms (stop_model p m "sleep_memory_admission"))

  rank-snapshot :
      (ms : List (ModelState N)) (p : Projection N) (stop : Bool) (min_idle : Option N)
      (relocating : Bool)
      → SameSnapshot p (rank p ms stop min_idle relocating).0
  unfolding rank
  rank-snapshot [] p stop min_idle relocating = refl
  rank-snapshot (m ∷ ms) p stop min_idle relocating =
      elim (Option-cases (protection p m stop min_idle relocating)) [
        | inr (reason, e) ↦
            rw (e, rank)
              (rank-snapshot ms (block p m reason) stop min_idle relocating
                ∙ block-snapshot p m reason)
        | inl e ↦ elim (Result-cases (score p m)) [
          | inl (value, f) ↦ rw (e, rank, f) (rank-snapshot ms p stop min_idle relocating)
          | inr (reason, f) ↦
              rw (e, rank, f)
                (rank-snapshot ms (block p m reason) stop min_idle relocating
                  ∙ block-snapshot p m reason)
        ]
      ]

  admit-snapshot :
      (p : Projection N) (m : ModelState N) (reclaim : Bool) → SameSnapshot p (admit p m reclaim)
  unfolding admit candidates
  admit-snapshot p m reclaim =
      let sleepers = select (λ (m : ModelState N). is_asleep m.state) (values p.models) in
      if_ind (SameSnapshot p) (not (fits_sleep p m.weights_gb) && reclaim)
        (λ _. make_room-snapshot m.weights_gb _ _ ∙ rank-snapshot sleepers p true none false)
        (λ _. refl)

  sleep_model_cases :
      (p : Projection N) (m : ModelState N) (reason : String) (reclaim : Bool)
      → Settled p.snapshot m reason (sleep_model p m reason reclaim)
  unfolding sleep_model
  sleep_model_cases p m reason reclaim = elim (Option-cases (protection p m false none false)) [
    | inr (protected, e) ↦ rw (e, sleep_model) (λ f. cc)
    | inl e ↦
        rw (e, sleep_model)
          (if_ind (Settled p.snapshot m reason)
            (not (memory_known p) || not (known_number m.weights_gb)) (λ _ f. cc)
            (λ _.
              subst (λ s. Settled s m reason (settle (admit p m reclaim) m reason))
                (admit-snapshot p m reclaim) (settle-Settled (admit p m reclaim) m reason)))
  ]

  -- A sleep that goes through ends in a stop of a model that is no default, or in a sleep after which
  -- the free memory of the host and the weights of the sleepers keep the limits of the snapshot,
  -- whatever it stopped to make room.
  pub sleep_model-IsSettled :
      (p : Projection N) (m : ModelState N) (reason : String) (reclaim : Bool)
      → (sleep_model p m reason reclaim).1 ≡ true
      → IsSettled p.snapshot m reason (sleep_model p m reason reclaim).0
  sleep_model-IsSettled p m reason reclaim = sleep_model_cases p m reason reclaim
