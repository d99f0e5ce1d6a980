-- ===== src/Policy/Intents/Reload.antt =====
-- llmsvc/policy/intents.py: a reload is admitted only where every model is known, every awake model
-- may sleep, and all of them fit in the memory of the host at once.
use llm_service_manager.Prelude.{
  String, ◌≡◌, ◌≢◌, refl, ap, sym, subst, ◌∙◌, Bool, true, false, not, ◌||◌, Option, none, some,
  List, [], ◌∷◌, map, arith,
}
use llm_service_manager.Prelude.Tests.{not-false, if_ind, if◌then◌else◌}
use llm_service_manager.Prelude.Lists.{All, any, select, is_empty, append-nonempty, occupied}
use llm_service_manager.Prelude.Float.{Float, sum, amount}
use llm_service_manager.State.{StateSnapshot, ModelState, is_awake, is_unknown}
use llm_service_manager.Prelude.Result.{ok, OnOk, OnOk-eq, OnOk-bind}
use llm_service_manager.Policy.Settings.{PolicySettings}
use llm_service_manager.Policy.Projection.{
  Projection, Decision, init, init-eq, fresh, known_number, block, block_unknown, protection,
  fits_sleep, memory_known, result, block-reports, snapshot_blockers,
}
use llm_service_manager.Policy.Intents.{
  no_release, refuse, block_protected, admit_batch, reload_admission,
}

module _ {N : Type 0} ⦃F : Float N⦄ where
  -- A step that would have left a blocker was not taken.
  untaken :
      (b : Bool) (p q : Projection N)
      → q.blockers ≢ []
      → (if b then q else p).blockers ≡ []
      → (b ≡ false) × ((if b then q else p) ≡ p)
  untaken true p q ne h = absurd (ne h)
  untaken false p q ne h = (refl, refl)

  abbrev protect_step : Projection N → ModelState N → Option String → Projection N
  protect_step p m none = p
  protect_step p m (some reason) = block p m reason

  unprotected :
      (o : Option String) (p : Projection N) (m : ModelState N)
      → (protect_step p m o).blockers ≡ []
      → (o ≡ none) × (protect_step p m o ≡ p)
  unprotected none p m h = (refl, refl)
  unprotected (some reason) p m h = absurd (block-reports p m reason h)

  block_unknown-IsClear :
      (ms : List (ModelState N)) (p : Projection N)
      → (block_unknown p ms).blockers ≡ []
      → All (λ m. is_unknown m.state ≡ false) ms × (block_unknown p ms ≡ p)
  unfolding block_unknown
  block_unknown-IsClear [] p h = (tt, refl)
  block_unknown-IsClear (m ∷ ms) p h =
      let blocked = block p m "unknown_model_state" in
      let (known_ms, same) = block_unknown-IsClear ms _ h in
      let (known_m, same_p) =
        untaken (is_unknown m.state) p blocked (block-reports p m "unknown_model_state")
          (ap (λ (q : Projection N). q.blockers) (sym same) ∙ h) in
      ((known_m, known_ms), same ∙ same_p)

  block_protected-IsClear :
      (ms : List (ModelState N)) (p : Projection N)
      → (block_protected p ms).blockers ≡ []
      → All (λ m. protection p m false none false ≡ none) ms × (block_protected p ms ≡ p)
  unfolding block_protected
  block_protected-IsClear [] p h = (tt, refl)
  block_protected-IsClear (m ∷ ms) p h =
      let (free_ms, same) = block_protected-IsClear ms _ h in
      let (free_m, same_p) =
        unprotected (protection p m false none false) p m
          (ap (λ (q : Projection N). q.blockers) (sym same) ∙ h) in
      (
        (free_m, subst (λ q. All (λ m. protection q m false none false ≡ none) ms) same_p free_ms),
        same ∙ same_p,
      )

  admit_batch-IsClear :
      (p : Projection N) (ms : List (ModelState N))
      → (admit_batch p ms).blockers ≡ []
      → (fits_sleep p (some (sum (map (λ (m : ModelState N). amount m.weights_gb) ms))) ≡ true)
        × (any (λ (m : ModelState N). not (known_number m.weights_gb)) ms ≡ false)
        × (admit_batch p ms ≡ p)
  unfolding admit_batch
  admit_batch-IsClear p ms h =
      let inner : Projection N =
        if not (fits_sleep p (some (sum (map (λ (m : ModelState N). amount m.weights_gb) ms))))
        then refuse p "memory_budget"
        else p in
      let (weighed, same) =
        untaken
          (any (λ (m : ModelState N). not (known_number m.weights_gb)) ms || not (memory_known p))
          inner (refuse p "unknown_memory") (append-nonempty p.blockers _) h in
      let (fits, same_p) =
        untaken
          (not (fits_sleep p (some (sum (map (λ (m : ModelState N). amount m.weights_gb) ms))))) p
          (refuse p "memory_budget") (append-nonempty p.blockers _)
          (ap (λ (q : Projection N). q.blockers) (sym same) ∙ h) in
      (not-false _ fits, ground arith, same ∙ same_p)

-- What an admission without a blocker has found
pub record IsAdmissible {N : Type 0} ⦃F : Float N⦄ (s : StateSnapshot N)
    (settings : PolicySettings N) : Type 0 where
  pub clean : snapshot_blockers s ≡ []
  pub all_known : All (λ (m : ModelState N). is_unknown m.state ≡ false) s.models
  pub free :
      All
        (λ m. protection (fresh s settings []) m false none false ≡ none)
        (select (λ (m : ModelState N). is_awake m.state) s.models)
  pub weighed :
      any
        (λ (m : ModelState N). not (known_number m.weights_gb))
        (select (λ (m : ModelState N). is_awake m.state) s.models)
      ≡ false
  pub fits :
      fits_sleep (fresh s settings []) (
        some (
          sum (
            map
              (λ (m : ModelState N). amount m.weights_gb)
              (select (λ (m : ModelState N). is_awake m.state) s.models))))
      ≡ true

module _ {N : Type 0} ⦃F : Float N⦄ (s : StateSnapshot N) (settings : PolicySettings N)
    (d : Decision N) where
  abbrev Admits : Decision N → Type 0
  Admits d = d.blocked_by ≡ [] → (d.actions ≡ []) × IsAdmissible s settings

  fresh_actions : (fresh s settings []).actions ≡ []
  unfolding fresh
  fresh_actions = refl

  fresh_blockers : snapshot_blockers s ≡ (fresh s settings []).blockers
  unfolding fresh
  fresh_blockers = refl

  abbrev awake_models : List (ModelState N)
  awake_models = select (λ (m : ModelState N). is_awake m.state) s.models

  abbrev batch : Projection N → Projection N
  batch p = admit_batch (block_protected (block_unknown p s.models) awake_models) awake_models

  fresh-Admits : Admits (result (batch (fresh s settings [])) no_release none)
  fresh-Admits e =
      let p = fresh s settings [] in
      let checked = block_unknown p s.models in
      let (fits, weighed, same_c) =
        admit_batch-IsClear (block_protected checked awake_models) awake_models e in
      let e_c = ap (λ (q : Projection N). q.blockers) (sym same_c) ∙ e in
      let (free, same_b) = block_protected-IsClear awake_models checked e_c in
      let e_b = ap (λ (q : Projection N). q.blockers) (sym same_b) ∙ e_c in
      let (known, same_a) = block_unknown-IsClear s.models p e_b in
      (
        ap (λ (q : Projection N). q.actions) (same_c ∙ same_b ∙ same_a) ∙ fresh_actions,
        record {
          clean = fresh_blockers ∙ ap (λ (q : Projection N). q.blockers) (sym same_a) ∙ e_b;
          all_known = known;
          free =
              subst (λ q. All (λ m. protection q m false none false ≡ none) awake_models) same_a
                free;
          weighed = weighed;
          fits =
              subst
                (λ q.
                  fits_sleep q
                    (some (sum (map (λ (m : ModelState N). amount m.weights_gb) awake_models)))
                  ≡ true)
                (same_b ∙ same_a) fits;
        },
      )

  -- A reload that is admitted, without a blocker, acts on nothing, and then the snapshot is consistent,
  -- the state of every model is known, no awake model is pinned, serves a request or is otherwise
  -- protected, and the weights of all awake models fit at once in the memory of the host.
  pub reload_admission-IsAdmissible :
      reload_admission s settings ≡ ok d
      → d.blocked_by ≡ []
      → (d.actions ≡ []) × IsAdmissible s settings
  unfolding reload_admission
  reload_admission-IsAdmissible = OnOk-eq Admits _ d (
      OnOk-bind Admits (init s settings []) _ (λ p e.
        if_ind (OnOk Admits) (not (is_empty p.blockers)) (λ b h. absurd (occupied p.blockers b h))
          (λ _.
            subst (λ q. Admits (result (batch q) no_release none)) (init-eq s settings [] p e)
              fresh-Admits)))
