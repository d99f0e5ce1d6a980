-- ===== src/Policy/Placement/Pricing.antt =====
-- llmsvc/policy/placement.py: what holds of every eviction that is priced.
use llm_service_manager.Prelude.{
  ℕ, zero, suc, String, ◌≡◌, refl, sym, subst, inl, inr, Memᴰ, arith, some, ◌&&◌, true, false,
  Option, List, [], ◌∷◌, map,
}
use llm_service_manager.Prelude.Tests.{Option-cases, if_ind, opt_nat_eq}
use llm_service_manager.Prelude.Lists.{All, All-append, All-select, All-map, All-kept, All-of_mem}
use llm_service_manager.Prelude.Text.{Dict}
use llm_service_manager.Prelude.Float.{Float, sum}
use llm_service_manager.State.{StateSnapshot, ModelState, is_resident}
use llm_service_manager.Policy.Projection.{Projection, block}
use llm_service_manager.Policy.Safety.{Origin, IsSound}
use llm_service_manager.Policy.Safety.Steps.{IsCandidate, block-IsSound, candidates-IsSound}
use llm_service_manager.Policy.Intents.Safety.{models-Origin}
use llm_service_manager.Policy.Placement.Accounting.{Accounting}
use llm_service_manager.Policy.Placement.Cards.{Card}
use llm_service_manager.Policy.Placement.Residents.{IsResident, candidates-All, eligible-All}
use llm_service_manager.Policy.Placement.Evictions.{
  Eviction, combinations, ineligible, eligible, held, score_of, price, price_each, price_sizes,
  block_each, residents, price_card, price_cards,
}

All-prepend :
    {A : Type 0} (P : A → Type 0) (x : A) (cs : List (List A))
    → P x
    → All (All P) cs
    → All (All P) (map (λ c. x ∷ c) cs)
All-prepend P x [] p h = tt
All-prepend P x (c ∷ cs) p h = ((p, h.0), All-prepend P x cs p h.1)

-- The members of a combination are members of the list.
All-combinations :
    {A : Type 0} (P : A → Type 0) (size : ℕ) (xs : List A)
    → All P xs
    → All (All P) (combinations size xs)
unfolding combinations
All-combinations P zero xs h = (tt, tt)
All-combinations P (suc size) [] h = tt
All-combinations P (suc size) (x ∷ xs) h =
    All-append (All P) _ _ (All-prepend P x _ h.0 (All-combinations P size xs h.1))
      (All-combinations P (suc size) xs h.1)

module _ {N : Type 0} ⦃F : Float N⦄ (s : StateSnapshot N) (exclusions : Dict String)
    (acc : Accounting N) (D : Card N → Type 0) where
  abbrev Victim : ModelState N → Type 0
  Victim m = IsCandidate s exclusions true false m

  -- An eviction from an admitted card: its victims may be stopped, and with their budgets the card
  -- has the room that is asked.
  pub record IsPriced (e : Eviction N) : Type 0 where
    pub card : Card N
    pub admitted : D card
    pub same_gpu : card.index ≡ e.gpu
    pub same_budget : card.budget ≡ e.budget
    pub victims : All Victim e.selected
    pub residents : All (IsResident s card.index) e.selected
    pub sufficient : F.lt (F.plus card.available (sum (map (held acc) e.selected))) e.budget ≡ false
    pub finite : F.is_finite e.cost ≡ true

  price-IsPriced :
      (p : Projection N) (c : Card N) (selected : List (ModelState N))
      → D c
      → All Victim selected
      → All (IsResident s c.index) selected
      → All IsPriced (price acc p c selected)
  unfolding price
  price-IsPriced p c selected d v there =
      if_ind (All IsPriced) (F.lt (F.plus c.available (sum (map (held acc) selected))) c.budget)
        (λ _. tt)
        (λ enough.
          if_ind (All IsPriced) (F.is_finite (sum (map (score_of p) selected)))
            (λ finite. (
              record {
                card = c;
                admitted = d;
                same_gpu = refl;
                same_budget = refl;
                victims = v;
                residents = there;
                sufficient = enough;
                finite = finite;
              },
              tt,
            ))
            (λ _. tt))

  price_each-IsPriced :
      (p : Projection N) (c : Card N) (sets : List (List (ModelState N)))
      → D c
      → All (All Victim) sets
      → All (All (IsResident s c.index)) sets
      → All IsPriced (price_each acc p c sets)
  unfolding price_each
  price_each-IsPriced p c [] d v there = tt
  price_each-IsPriced p c (x ∷ xs) d v there =
      All-append IsPriced _ _ (price-IsPriced p c x d v.0 there.0)
        (price_each-IsPriced p c xs d v.1 there.1)

  price_sizes-IsPriced :
      (p : Projection N) (c : Card N) (models : List (ModelState N)) (from count : ℕ)
      → D c
      → All Victim models
      → All (IsResident s c.index) models
      → All IsPriced (price_sizes acc p c models from count)
  unfolding price_sizes
  price_sizes-IsPriced p c models from zero d v there = tt
  price_sizes-IsPriced p c models from (suc count) d v there =
      All-append IsPriced _ _
        (price_each-IsPriced p c _ d (All-combinations Victim from models v)
          (All-combinations (IsResident s c.index) from models there))
        (price_sizes-IsPriced p c models (suc from) count d v there)

  abbrev Sound : Projection N → Type 0
  Sound p = IsSound s exclusions false p

  eligible-IsSound :
      (ms : List (ModelState N)) (p : Projection N)
      → Sound p
      → All Victim ms
      → Sound (eligible acc p ms).0 × All Victim (eligible acc p ms).1
  unfolding eligible
  eligible-IsSound [] p v c = (v, tt)
  eligible-IsSound (m ∷ ms) p v c = elim (Option-cases (ineligible acc p m)) [
    | inr (reason, e) ↦
        rw (e, eligible)
          (eligible-IsSound ms (block p m reason) (block-IsSound s exclusions false p m reason v)
            c.1)
    | inl e ↦ let (v', c') = eligible-IsSound ms p v c.1 in rw (e, eligible) (v', (c.0, c'))
  ]

  block_each-IsSound :
      (ms : List (ModelState N)) (p : Projection N) → Sound p → Sound (block_each p ms)
  unfolding block_each
  block_each-IsSound [] p v = v
  block_each-IsSound (m ∷ ms) p v =
      block_each-IsSound ms _ (block-IsSound s exclusions false p m "occupied_budget" v)

  abbrev Priced : Projection N × List (Eviction N) → Type 0
  Priced r = Sound r.0 × All IsPriced r.1

  residents-IsResident : (index : ℕ) → All (IsResident s index) (residents s index)
  residents-IsResident index =
      All-map _ (IsResident s index) (residents s index)
        (λ m h. record {
          is_sampled = h.0;
          on_card = ground (arith, h.1);
          resident = ground (arith, h.1);
        })
        (All-kept (λ (m : ModelState N). Memᴰ m s.models)
          (λ (m : ModelState N). opt_nat_eq m.gpu (some index) && is_resident m.state) s.models
          (All-of_mem _ s.models (λ m there. there)))

  price_card-IsPriced :
      (min_idle : Option N) (p : Projection N) (c : Card N)
      → Sound p
      → D c
      → Priced (price_card acc min_idle p c)
  unfolding price_card
  price_card-IsPriced min_idle p c v d =
      let there =
        subst (λ t. All (Origin s) (residents t c.index)) (sym v.same_snapshot)
          (All-select (Origin s) _ s.models (models-Origin s)) in
      let (v₁, c₁) = candidates-IsSound s exclusions false true min_idle false p _ v there in
      let (v₂, c₂) = eligible-IsSound _ _ v₁ c₁ in
      let on_card = eligible-All (IsResident s c.index) acc _ _ (
        candidates-All (IsResident s c.index) _ p true min_idle false (
          subst (λ t. All (IsResident s c.index) (residents t c.index)) (sym v.same_snapshot)
            (residents-IsResident c.index))) in
      (block_each-IsSound _ _ v₂, price_sizes-IsPriced _ c _ 1 _ d c₂ on_card)

  -- Every option that the loop over the cards prices is an eviction from one of them.
  pub price_cards-IsPriced :
      (min_idle : Option N) (cards : List (Card N)) (p : Projection N)
      → Sound p
      → All D cards
      → Priced (price_cards acc min_idle p cards)
  unfolding price_cards
  price_cards-IsPriced min_idle [] p v d = (v, tt)
  price_cards-IsPriced min_idle (c ∷ cs) p v d =
      let (v₁, e₁) = price_card-IsPriced min_idle p c v d.0 in
      let (v₂, e₂) = price_cards-IsPriced min_idle cs _ v₁ d.1 in
      (v₂, All-append IsPriced _ _ e₁ e₂)
