-- ===== src/Policy/Placement/Accounted.antt =====
-- llmsvc/policy/placement.py: `_accounting` misses nobody. A resident model and an outstanding lease
-- have a budget on a card, or a blocker of their name.
use llm_service_manager.Prelude.{
  ℕ, String, ◌≡◌, ◌≢◌, refl, sym, ap, ◌∙◌, ◌⊎◌, inl, inr, Bool, true, false, not, ◌||◌, Option,
  some, List, [], ◌∷◌, ◌++◌, Memᴰ, str_eq, eq_iff,
}
use llm_service_manager.Prelude.Tests.{Option-cases, Bool-cases, if_ind, is_true, ◌==◌}
use llm_service_manager.Prelude.Lists.{All, All-map, All-chosen, select}
use llm_service_manager.Prelude.Text.{Dict, lookup, insert, lookup-insert, by_key, contains}
use text.Mathlib.TextPositions.{eq_refl}
use llm_service_manager.Prelude.Float.{Float}
use llm_service_manager.State.{
  StateSnapshot, ModelState, GpuState, Lease, Blocker, is_resident, is_stopped,
}
use llm_service_manager.Policy.Placement.Accounting.{
  Accounting, gpu_at, card_budget, merge, add, add_model, add_models, add_lease, add_leases,
  no_accounts, reconciled, accounting,
}

Memᴰ-ahead : {A : Type 0} {x : A} (xs ys : List A) → Memᴰ x xs → Memᴰ x (xs ++ ys)
Memᴰ-ahead [] ys m = elim m [ ]
Memᴰ-ahead (x ∷ xs) ys (Memᴰ.head e) = Memᴰ.head e
Memᴰ-ahead (x ∷ xs) ys (Memᴰ.tail m) = Memᴰ.tail (Memᴰ-ahead xs ys m)

Memᴰ-behind : {A : Type 0} {x : A} (xs ys : List A) → Memᴰ x ys → Memᴰ x (xs ++ ys)
Memᴰ-behind [] ys m = m
Memᴰ-behind (x ∷ xs) ys m = Memᴰ.tail (Memᴰ-behind xs ys m)

true-ne-false : true ≢ false
true-ne-false e = cc

closed_status :
    (status other : String)
    → str_eq status other ≡ true
    → contains other ("pending" ∷ "stale" ∷ []) ≡ false
    → contains status ("pending" ∷ "stale" ∷ []) ≡ true
    → ⊥
closed_status status other e closed o =
    let same = (eq_iff status other).0 e in
    true-ne-false (sym o ∙ ap (λ t. contains t ("pending" ∷ "stale" ∷ [])) same ∙ closed)

module _ {N : Type 0} where
  -- A lease that may still take memory
  abbrev pub is_outstanding : Lease N → Bool
  is_outstanding l = contains l.status ("pending" ∷ "stale" ∷ [])

  -- The model has a budget on a card, or there is a blocker of its name.
  abbrev pub IsAccounted : Accounting N → String → Type 0
  IsAccounted acc name =
      ((held : ℕ × N) × (lookup name acc.allocations ≡ some held))
      ⊎ ((b : Blocker N) × Memᴰ b acc.blockers × (b.model ≡ some name))

module _ {N : Type 0} ⦃F : Float N⦄ where
  abbrev Keeps : Accounting N → Accounting N → Type 0
  Keeps acc more = (name : String) → IsAccounted acc name → IsAccounted more name

  insert-finds :
      (k n : String) (v : ℕ × N) (d : Dict (ℕ × N)) (held : ℕ × N)
      → lookup n d ≡ some held
      → (now : ℕ × N) × (lookup n (insert k v d) ≡ some now)
  insert-finds k n v d held h = elim (Bool-cases (str_eq k n)) [
    | inl e ↦ (v, rw (lookup-insert k n v d, e) refl)
    | inr e ↦ (held, rw (lookup-insert k n v d, e) h)
  ]

  insert_self : (k : String) (v : ℕ × N) (d : Dict (ℕ × N)) → lookup k (insert k v d) ≡ some v
  insert_self k v d = simp (lookup-insert, eq_refl)

  uncertain-Keeps :
      (acc : Accounting N) (more : List (Blocker N))
      → Keeps acc (record acc { blockers = acc.blockers ++ more })
  uncertain-Keeps acc more n (inl held) = inl held
  uncertain-Keeps acc more n (inr (b, there, named)) =
      inr (b, Memᴰ-ahead acc.blockers more there, named)

  insert-Keeps :
      (acc : Accounting N) (k : String) (v : ℕ × N)
      → Keeps acc (record acc { allocations = insert k v acc.allocations })
  insert-Keeps acc k v n (inl (held, e)) = inl (insert-finds k n v acc.allocations held e)
  insert-Keeps acc k v n (inr b) = inr b

  reported :
      (acc : Accounting N) (b : Blocker N) (more : List (Blocker N)) (name : String)
      → b.model ≡ some name
      → IsAccounted (record acc { blockers = acc.blockers ++ b ∷ more }) name
  reported acc b more name named =
      inr (b, Memᴰ-behind acc.blockers (b ∷ more) (Memᴰ.head refl), named)

  merge-Keeps :
      (acc : Accounting N) (name : String) (gpu : ℕ) (budget : N)
      → Keeps acc (merge acc name gpu budget)
  unfolding merge
  merge-Keeps acc name gpu budget n k = elim (Option-cases (lookup name acc.allocations)) [
    | inl e ↦ rw (e, merge) (insert-Keeps acc name (gpu, budget) n k)
    | inr ((old_gpu, old_budget), e) ↦
        rw (e, merge)
          (if_ind (λ (more : Accounting N). IsAccounted more n) (not (old_gpu == gpu))
            (λ _. uncertain-Keeps acc _ n k) (λ _. insert-Keeps acc name _ n k))
  ]

  merge-IsAccounted :
      (acc : Accounting N) (name : String) (gpu : ℕ) (budget : N)
      → IsAccounted (merge acc name gpu budget) name
  unfolding merge
  merge-IsAccounted acc name gpu budget = elim (Option-cases (lookup name acc.allocations)) [
    | inl e ↦ rw (e, merge) (inl (_, insert_self name _ acc.allocations))
    | inr ((old_gpu, old_budget), e) ↦
        rw (e, merge)
          (if_ind (λ (more : Accounting N). IsAccounted more name) (not (old_gpu == gpu))
            (λ _. reported acc _ _ name refl) (λ _. inl (_, insert_self name _ acc.allocations)))
  ]

  -- The record is accounted for, and nobody who was is lost.
  abbrev Adds : Accounting N → String → Accounting N → Type 0
  Adds acc name more = IsAccounted more name × Keeps acc more

  add-Adds :
      (gpus : List (GpuState N)) (acc : Accounting N) (gpu : Option ℕ) (budget_gb util : Option N)
      (name : String)
      → Adds acc name (add gpus acc gpu budget_gb util name)
  unfolding add
  add-Adds gpus acc gpu budget_gb util name = elim (Option-cases (gpu_at gpu gpus)) [
    | inl e ↦ rw (e, add) (reported acc _ [] name refl, uncertain-Keeps acc _)
    | inr (g, e) ↦ elim (Option-cases (card_budget g budget_gb util)) [
      | inl f ↦ rw (e, add, f) (reported acc _ [] name refl, uncertain-Keeps acc _)
      | inr (budget, f) ↦
          rw (e, add, f)
            (merge-IsAccounted acc name g.index budget, merge-Keeps acc name g.index budget)
    ]
  ]

  add_model-Adds :
      (gpus : List (GpuState N)) (acc : Accounting N) (m : ModelState N)
      → (is_resident m.state ≡ true → IsAccounted (add_model gpus acc m) m.name)
        × Keeps acc (add_model gpus acc m)
  unfolding add_model
  add_model-Adds gpus acc m =
      let step = add-Adds gpus acc m.gpu m.budget_gb m.util m.name in
      if_ind
        (λ (more : Accounting N).
          (is_resident m.state ≡ true → IsAccounted more m.name) × Keeps acc more)
        (is_resident m.state) (λ _. ((λ _. step.0), step.1))
        (λ away.
          if_ind
            (λ (more : Accounting N).
              (is_resident m.state ≡ true → IsAccounted more m.name) × Keeps acc more)
            (not (is_stopped m.state) || is_true m.unit_active)
            (λ _. ((λ r. cc), uncertain-Keeps acc _)) (λ _. ((λ r. cc), λ n k. k)))

  add_models-Adds :
      (gpus : List (GpuState N)) (ms : List (ModelState N)) (acc : Accounting N)
      → All (λ m. is_resident m.state ≡ true → IsAccounted (add_models gpus acc ms) m.name) ms
        × Keeps acc (add_models gpus acc ms)
  unfolding add_models
  add_models-Adds gpus [] acc = (tt, λ n k. k)
  add_models-Adds gpus (m ∷ ms) acc =
      let (first, keeps) = add_model-Adds gpus acc m in
      let (rest, keeps') = add_models-Adds gpus ms (add_model gpus acc m) in
      ((λ r. keeps' m.name (first r), rest), λ n k. keeps' n (keeps n k))

  abbrev Leased : Accounting N → Lease N → Accounting N → Type 0
  Leased acc l more = (is_outstanding l ≡ true → IsAccounted more l.model) × Keeps acc more

  add_lease-Adds :
      (gpus : List (GpuState N)) (models : Dict (ModelState N)) (acc : Accounting N) (l : Lease N)
      → (is_outstanding l ≡ true → IsAccounted (add_lease gpus models acc l) l.model)
        × Keeps acc (add_lease gpus models acc l)
  unfolding add_lease
  add_lease-Adds gpus models acc l =
      let entry = record acc { leased = l.model ∷ acc.leased } in
      let step = add-Adds gpus entry (some l.gpu) (some l.budget_gb) (some l.util) l.model in
      if_ind (Leased acc l) (str_eq l.status "released")
        (λ e. ((λ o. absurd (closed_status l.status "released" e refl o)), λ n k. k))
        (λ _.
          if_ind (Leased acc l) (str_eq l.status "confirmed")
            (λ e. (
              (λ o. absurd (closed_status l.status "confirmed" e refl o)),
              if_ind (Keeps acc) (reconciled (lookup l.model models)) (λ _ n k. k)
                  (λ _. uncertain-Keeps acc _),
            ))
            (λ _.
              if_ind (Leased acc l) (not (is_outstanding l))
                (λ e. ((λ o. cc), uncertain-Keeps acc _)) (λ _. ((λ _. step.0), step.1))))

  add_leases-Adds :
      (gpus : List (GpuState N)) (models : Dict (ModelState N)) (ls : List (Lease N))
      (acc : Accounting N)
      → All (λ l. is_outstanding l ≡ true → IsAccounted (add_leases gpus models acc ls) l.model) ls
        × Keeps acc (add_leases gpus models acc ls)
  unfolding add_leases
  add_leases-Adds gpus models [] acc = (tt, λ n k. k)
  add_leases-Adds gpus models (l ∷ ls) acc =
      let (first, keeps) = add_lease-Adds gpus models acc l in
      let (rest, keeps') = add_leases-Adds gpus models ls (add_lease gpus models acc l) in
      ((λ r. keeps' l.model (first r), rest), λ n k. keeps' n (keeps n k))

  -- Every resident model of the snapshot and every outstanding lease is accounted for: the accounting
  -- holds a budget on a card under its name, or a blocker of that name.
  pub accounting-IsAccounted :
      (s : StateSnapshot N)
      → All
          (λ m. IsAccounted (accounting s) m.name)
          (select (λ (m : ModelState N). is_resident m.state) s.models)
        × All (λ l. IsAccounted (accounting s) l.model) (select is_outstanding s.leases)
  unfolding accounting
  accounting-IsAccounted s =
      let (of_models, _) = add_models-Adds s.gpus s.models no_accounts in
      let (of_leases, keeps) =
        add_leases-Adds s.gpus (by_key (λ (m : ModelState N). m.name) s.models) s.leases
          (add_models s.gpus no_accounts s.models) in
      (
        All-chosen _ (λ m. is_resident m.state) s.models
            (All-map _ _ s.models (λ m covered r. keeps m.name (covered r)) of_models),
        All-chosen _ is_outstanding s.leases of_leases,
      )
