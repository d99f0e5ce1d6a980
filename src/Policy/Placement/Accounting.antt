-- ===== src/Policy/Placement/Accounting.antt =====
-- llmsvc/policy/placement.py: `_budget` and `_accounting`, what each model holds on its GPU.
use llm_service_manager.Prelude.{
  ℕ, String, Bool, false, not, ◌&&◌, ◌||◌, Option, none, some, List, [], ◌∷◌, ◌++◌, str_eq,
}
use llm_service_manager.Prelude.Tests.{◌==◌, is_true, is_false, if◌then◌else◌}
use llm_service_manager.Prelude.Text.{Dict, by_key, lookup, insert, contains}
use llm_service_manager.Prelude.Float.{Float, max_of, known, amount}
use llm_service_manager.State.{
  StateSnapshot, GpuState, ModelState, Lease, Blocker, is_resident, is_stopped, blocker,
}
use llm_service_manager.Policy.Projection.{known_number}

-- What the loops of `_accounting` write: the GPU and the budget of each model, the models with a
-- lease that is open, and what is not certain.
pub record Accounting (N : Type 0) : Type 0 where
  pub allocations : Dict (ℕ × N)
  pub leased : List String
  pub blockers : List (Blocker N)

infixl 5 ◌>>=◌
abbrev ◌>>=◌ {ℓ κ} : {A : Type ℓ} {B : Type κ} → Option A → (A → Option B) → Option B
none >>= k = none
some a >>= k = k a

module _ {N : Type 0} ⦃F : Float N⦄ where
  abbrev explicit_part : Option N → Option (List N)
  explicit_part none = some []
  explicit_part (some b) = if not (known b) || F.le b (F.of_nat 0) then none else some (b ∷ [])

  abbrev fraction_part : Option N → N → Option (List N)
  fraction_part none total = some []
  fraction_part (some u) total =
      if not (known u) || not (F.lt (F.of_nat 0) u && F.le u (F.of_nat 1))
      then none
      else some (F.times u total ∷ [])

  abbrev largest : List N → Option N
  largest [] = none
  largest (x ∷ []) = some x
  largest (x ∷ y ∷ _) = some (max_of x y)

  -- `_budget(record, total)`: the explicit budget or the fraction, whichever is more; None if
  -- neither is given or one is no valid number.
  unfoldable pub budget_of : (budget_gb util : Option N) → (total : N) → Option N
  budget_of budget_gb util total = do
    explicit ← explicit_part budget_gb
    fraction ← fraction_part util total
    largest (explicit ++ fraction)

  -- `{g.index: g for g in snapshot.gpus}.get(index)`
  unfoldable pub gpu_at : Option ℕ → List (GpuState N) → Option (GpuState N)
  gpu_at none gpus = none
  gpu_at (some index) [] = none
  gpu_at (some index) (g ∷ gs) = elim (gpu_at (some index) gs) [
    | some later ↦ some later
    | none ↦ if g.index == index then some g else none
  ]

  abbrev uncertain : Accounting N → List (Blocker N) → Accounting N
  uncertain acc more = record acc { blockers = acc.blockers ++ more }

  -- A second record of a model: the larger budget on one GPU, or a conflict between two.
  unfoldable pub merge : Accounting N → String → ℕ → N → Accounting N
  merge acc name gpu budget = elim (lookup name acc.allocations) [
    | none ↦ record acc { allocations = insert name (gpu, budget) acc.allocations }
    | some (old_gpu, old_budget) ↦
        if not (old_gpu == gpu)
        then uncertain acc (
            blocker (some name) "conflicting_accounting" (some old_gpu)
            ∷ blocker (some name) "conflicting_accounting" (some gpu)
            ∷ [])
        else record acc {
          allocations = insert name (gpu, max_of budget old_budget) acc.allocations;
        }
  ]

  -- The budget of a record on the card that it names
  unfoldable pub card_budget : GpuState N → (budget_gb util : Option N) → Option N
  card_budget g budget_gb util =
      if known_number g.total_gb then budget_of budget_gb util (amount g.total_gb) else none

  -- The inner function `add` of `_accounting`
  unfoldable pub add :
      List (GpuState N)
      → Accounting N
      → (gpu : Option ℕ) → (budget_gb util : Option N) → String
      → Accounting N
  add gpus acc gpu budget_gb util name = elim (gpu_at gpu gpus) [
    | none ↦ uncertain acc (blocker (some name) "unknown_accounting_gpu" none ∷ [])
    | some g ↦ elim (card_budget g budget_gb util) [
      | none ↦ uncertain acc (blocker (some name) "unknown_budget" gpu ∷ [])
      | some budget ↦ merge acc name g.index budget
    ]
  ]

  unfoldable pub add_model : List (GpuState N) → Accounting N → ModelState N → Accounting N
  add_model gpus acc m =
      if is_resident m.state
      then add gpus acc m.gpu m.budget_gb m.util m.name
      else if not (is_stopped m.state) || is_true m.unit_active
      then uncertain acc (blocker (some m.name) "unknown_model_accounting" m.gpu ∷ [])
      else acc

  unfoldable pub add_models : List (GpuState N) → Accounting N → List (ModelState N) → Accounting N
  add_models gpus acc [] = acc
  add_models gpus acc (m ∷ ms) = add_models gpus (add_model gpus acc m) ms

  -- A confirmed lease is history where the model itself accounts for it.
  abbrev pub reconciled : Option (ModelState N) → Bool
  reconciled none = false
  reconciled (some m) = is_resident m.state || (is_stopped m.state && is_false m.unit_active)

  unfoldable pub add_lease :
      List (GpuState N) → Dict (ModelState N) → Accounting N → Lease N → Accounting N
  add_lease gpus models acc l =
      if str_eq l.status "released"
      then acc
      else if str_eq l.status "confirmed"
      then (if reconciled (lookup l.model models)
          then acc
          else uncertain acc
              (blocker (some l.model) "unreconciled_confirmed_lease" (some l.gpu) ∷ []))
      else if not (contains l.status ("pending" ∷ "stale" ∷ []))
      then uncertain acc (blocker (some l.model) "unknown_lease_status" (some l.gpu) ∷ [])
      else add gpus (record acc { leased = l.model ∷ acc.leased }) (some l.gpu) (some l.budget_gb)
          (some l.util) l.model

  unfoldable pub add_leases :
      List (GpuState N) → Dict (ModelState N) → Accounting N → List (Lease N) → Accounting N
  add_leases gpus models acc [] = acc
  add_leases gpus models acc (l ∷ ls) = add_leases gpus models (add_lease gpus models acc l) ls

  abbrev pub no_accounts : Accounting N
  no_accounts = record { allocations = []; leased = []; blockers = [] }

  -- `_accounting(snapshot)`
  unfoldable pub accounting : StateSnapshot N → Accounting N
  accounting s =
      add_leases s.gpus (by_key (λ (m : ModelState N). m.name) s.models)
        (add_models s.gpus no_accounts s.models) s.leases
