-- ===== src/Policy/Placement/Evictions.antt =====
-- llmsvc/policy/placement.py: the sets of residents whose eviction makes room, and their price.
use llm_service_manager.Prelude.{
  ℕ, zero, suc, String, Bool, true, false, not, ◌&&◌, ◌||◌, Option, none, some, List, [], ◌∷◌, ◌++◌,
  map, str_eq,
}
use llm_service_manager.Prelude.Tests.{ltb, ◌==◌, opt_nat_eq, when, if◌then◌else◌}
use llm_service_manager.Prelude.Lists.{length, select}
use llm_service_manager.Prelude.Sort.{sorted}
use llm_service_manager.Prelude.Text.{lookup, contains, str_lt}
use llm_service_manager.Prelude.Float.{Float, sum}
use llm_service_manager.State.{StateSnapshot, ModelState, is_awake, is_resident}
use llm_service_manager.Prelude.Result.{Result, ok, err}
use llm_service_manager.Policy.Projection.{
  Projection, known_number, block, score, candidates, memory_known,
}
use llm_service_manager.Policy.Placement.Accounting.{Accounting}
use llm_service_manager.Policy.Placement.Cards.{Card}

-- `itertools.combinations(xs, size)`, in its order
unfoldable pub combinations : {A : Type 0} → ℕ → List A → List (List A)
combinations zero xs = [] ∷ []
combinations (suc size) [] = []
combinations (suc size) (x ∷ xs) =
    map (λ c. x ∷ c) (combinations size xs) ++ combinations (suc size) xs

-- `min(xs)` of a list that is not empty, given by its first item: the first one of the least.
unfoldable pub min_by : {A : Type 0} → (A → A → Bool) → A → List A → A
min_by less best [] = best
min_by less best (x ∷ xs) = min_by less (if less x best then x else best) xs

-- One priced eviction: the fields of its key, the card's request budget and the models.
pub record Eviction (N : Type 0) : Type 0 where
  pub cost : N
  pub gpu : ℕ
  pub budget : N
  pub names : List String
  pub selected : List (ModelState N)

-- `a < b` of two tuples of names
unfoldable pub names_lt : List String → List String → Bool
names_lt [] [] = false
names_lt [] (y ∷ ys) = true
names_lt (x ∷ xs) [] = false
names_lt (x ∷ xs) (y ∷ ys) = let rest = names_lt xs ys in if str_eq x y then rest else str_lt x y

module _ {N : Type 0} ⦃F : Float N⦄ where
  -- `key < key`, for `(cost, len(selected), gpu, names)`
  unfoldable pub eviction_lt : Eviction N → Eviction N → Bool
  eviction_lt a b =
      if not (F.eq a.cost b.cost)
      then F.lt a.cost b.cost
      else if not (length a.selected == length b.selected)
      then ltb (length a.selected) (length b.selected)
      else if not (a.gpu == b.gpu)
      then ltb a.gpu b.gpu
      else names_lt a.names b.names

  -- A score of an eligible model, which has one.
  abbrev scored : Result N → N
  scored (ok value) = value
  scored (err _) = F.of_nat 0

  abbrev pub score_of : Projection N → ModelState N → N
  score_of p m = scored (score p m)

  -- The budget that a resident holds; residents of a candidate card have one.
  abbrev holding : Option (ℕ × N) → N
  holding none = F.of_nat 0
  holding (some (gpu, budget)) = budget

  abbrev pub held : Accounting N → ModelState N → N
  held acc m = holding (lookup m.name acc.allocations)

  -- Why a candidate is not priced: an open lease, or unknown memory where it is awake.
  unfoldable pub ineligible : Accounting N → Projection N → ModelState N → Option String
  ineligible acc p m =
      if contains m.name acc.leased
      then some "outstanding_lease"
      else when (is_awake m.state && (not (memory_known p) || not (known_number m.weights_gb)))
          "unknown_memory"

  unfoldable pub eligible :
      Accounting N → Projection N → List (ModelState N) → Projection N × List (ModelState N)
  eligible acc p [] = (p, [])
  eligible acc p (m ∷ ms) = elim (ineligible acc p m) [
    | some reason ↦ eligible acc (block p m reason) ms
    | none ↦ let (p', rest) = eligible acc p ms in (p', m ∷ rest)
  ]

  -- One set: it has to make room, and its price has to be finite.
  unfoldable pub price :
      Accounting N → Projection N → Card N → List (ModelState N) → List (Eviction N)
  price acc p card selected =
      let cost = sum (map (score_of p) selected) in
      if F.lt (F.plus card.available (sum (map (held acc) selected))) card.budget
      then []
      else if F.is_finite cost
      then record {
        cost = cost;
        gpu = card.index;
        budget = card.budget;
        names = sorted str_lt (map (λ (m : ModelState N). m.name) selected);
        selected = selected;
      }
        ∷ []
      else []

  unfoldable pub price_each :
      Accounting N → Projection N → Card N → List (List (ModelState N)) → List (Eviction N)
  price_each acc p card [] = []
  price_each acc p card (c ∷ cs) = price acc p card c ++ price_each acc p card cs

  -- All sets of `from`, `from + 1`, … models, `count` sizes in all
  unfoldable pub price_sizes :
      Accounting N
      → Projection N
      → Card N
      → List (ModelState N)
      → (from count : ℕ) → List (Eviction N)
  price_sizes acc p card models from zero = []
  price_sizes acc p card models from (suc count) =
      price_each acc p card (combinations from models)
      ++ price_sizes acc p card models (suc from) count

  -- `projection.block(model, "occupied_budget")` for each resident
  unfoldable pub block_each : Projection N → List (ModelState N) → Projection N
  block_each p [] = p
  block_each p (m ∷ ms) = block_each (block p m "occupied_budget") ms

  abbrev pub residents : StateSnapshot N → ℕ → List (ModelState N)
  residents s index =
      select (λ (m : ModelState N). opt_nat_eq m.gpu (some index) && is_resident m.state) s.models

  -- One round of the loop over the candidate cards
  unfoldable pub price_card :
      Accounting N
      → (min_idle : Option N) → Projection N
      → Card N
      → Projection N × List (Eviction N)
  price_card acc min_idle p card =
      let there = residents p.snapshot card.index in
      let (p₁, ranked) = candidates p there true min_idle false in
      let (p₂, chosen) = eligible acc p₁ ranked in
      (block_each p₂ there, price_sizes acc p₂ card chosen 1 (length chosen))

  unfoldable pub price_cards :
      Accounting N
      → (min_idle : Option N) → Projection N
      → List (Card N)
      → Projection N × List (Eviction N)
  price_cards acc min_idle p [] = (p, [])
  price_cards acc min_idle p (c ∷ cs) =
      let (p₁, first) = price_card acc min_idle p c in
      let (p₂, rest) = price_cards acc min_idle p₁ cs in (p₂, first ++ rest)
