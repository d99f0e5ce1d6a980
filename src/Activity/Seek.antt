-- ===== src/Activity/Seek.antt =====
-- llmsvc/activity.py: the loop over the model ids ends, having visited each of them once, in order.
use llm_service_manager.Prelude.{
  ℕ, zero, suc, ◌≤◌, ◌<◌, String, ◌≡◌, refl, sym, ap, ◌∙◌, subst, inl, inr, Bool, true, false, ◌&&◌,
  ◌||◌, Option, none, some, List, [], ◌∷◌, str_eq, eq_iff, arith,
}
use llm_service_manager.Prelude.Tests.{Bool-cases, if_ind}
use llm_service_manager.Prelude.Lists.{length, select, All, All-map}
use llm_service_manager.Prelude.Text.{str_lt, contains}
use llm_service_manager.Prelude.TextOrder.{str_lt_irrefl, str_lt_trans, str_lt_total}
use llm_service_manager.Activity.Summary.{beyond, lesser, min_id, next_id, seek, distinct_ids}

contains-select :
    (p : String → Bool) (x : String) (ids : List String)
    → contains x (select p ids) ≡ (p x && contains x ids)
contains-select p x [] = ground arith
contains-select p x (m ∷ ms) = ground (arith, eq_iff x m, contains-select p x ms)

-- The least id is in the list, and no id is before it.
record IsLeast (m : String) (ids : List String) : Type 0 where
  there : contains m ids ≡ true
  least : (x : String) → contains x ids ≡ true → str_lt x m ≡ false

abbrev IsMin : List String → Option String → Type 0
IsMin ids none = (x : String) → contains x ids ≡ false
IsMin ids (some m) = IsLeast m ids

-- What is not before the least id is not before an id that the least one is not before.
not_before : (a n x : String) → str_lt n a ≡ false → str_lt x n ≡ false → str_lt x a ≡ false
not_before a n x ha hx = elim (Bool-cases (str_lt x a)) [
  | inr e ↦ e
  | inl e ↦ elim (Bool-cases (str_lt n x)) [
    | inl l ↦ absurd (ground (arith, str_lt_trans n x a l e, ha))
    | inr l ↦
        let same = str_lt_total x n hx l in
        absurd (ground (arith, ap (λ s. str_lt s a) same, e, ha))
  ]
]

lesser-IsMin :
    (a : String) (ids : List String) (found : Option String)
    → IsMin ids found
    → IsMin (a ∷ ids) (lesser a found)
lesser-IsMin a ids none h = record {
  there = ground (arith, eq_iff a a);
  least = λ x c.
      let same : x ≡ a = ground (arith, eq_iff x a, h x, c) in
      subst (λ s. str_lt s a ≡ false) (sym same) (str_lt_irrefl a);
}
lesser-IsMin a ids (some n) h =
    if_ind (IsMin (a ∷ ids)) (str_lt n a)
      (λ e. record {
        there = ground (arith, h.there);
        least = λ x c. elim (Bool-cases (str_eq x a)) [
          | inl same ↦
              let eq : x ≡ a = ground (arith, eq_iff x a, same) in
              subst (λ s. str_lt s n ≡ false) (sym eq) (asym n a e)
          | inr differs ↦ h.least x (ground (arith, c, differs))
        ];
      })
      (λ e. record {
        there = ground (arith, eq_iff a a);
        least = λ x c. elim (Bool-cases (str_eq x a)) [
          | inl same ↦
              let eq : x ≡ a = ground (arith, eq_iff x a, same) in
              subst (λ s. str_lt s a ≡ false) (sym eq) (str_lt_irrefl a)
          | inr differs ↦ not_before a n x e (h.least x (ground (arith, c, differs)))
        ];
      })
  where
    asym : (n a : String) → str_lt n a ≡ true → str_lt a n ≡ false
    asym n a e = elim (Bool-cases (str_lt a n)) [
      | inr l ↦ l
      | inl l ↦ absurd (ground (arith, str_lt_trans n a n e l, str_lt_irrefl n))
    ]

min_id-IsMin : (ids : List String) → IsMin ids (min_id ids)
unfolding min_id
min_id-IsMin [] = λ x. refl
min_id-IsMin (a ∷ ids) = lesser-IsMin a ids (min_id ids) (min_id-IsMin ids)

no_more :
    (p q : String → Bool) (ids : List String)
    → ((x : String) → p x ≡ true → q x ≡ true)
    → length (select p ids) ≤ length (select q ids)
no_more p q [] h = omega arith
no_more p q (a ∷ ids) h = ground (arith, no_more p q ids h, h a)

-- A test that holds less often, and not for an item that is there, keeps fewer.
fewer :
    (p q : String → Bool) (m : String) (ids : List String)
    → ((x : String) → p x ≡ true → q x ≡ true)
    → p m ≡ false
    → q m ≡ true
    → contains m ids ≡ true
    → length (select p ids) < length (select q ids)
fewer p q m [] h pm qm c = absurd (ground (arith, c))
fewer p q m (a ∷ ids) h pm qm c = elim (Bool-cases (str_eq m a)) [
  | inl same ↦
      let eq : m ≡ a = ground (arith, eq_iff m a, same) in
      ground (arith, no_more p q ids h, ap p eq, ap q eq, pm, qm)
  | inr differs ↦ ground (arith, fewer p q m ids h pm qm, h a, c, differs)
]

-- Each id is before those behind it.
abbrev pub IsIncreasing : List String → Type 0
IsIncreasing [] = Unit
IsIncreasing (x ∷ xs) = All (λ y. str_lt x y ≡ true) xs × IsIncreasing xs

-- What the loop returns from a bound on: the ids beyond it, each once, in order
record IsRest (ids : List String) (bound : Option String) (out : List String) : Type 0 where
  listed : (x : String) → contains x out ≡ (beyond bound x && contains x ids)
  behind : All (λ y. beyond bound y ≡ true) out
  increasing : IsIncreasing out

beyond_trans :
    (bound : Option String) (m x : String)
    → beyond bound m ≡ true
    → str_lt m x ≡ true
    → beyond bound x ≡ true
beyond_trans none m x over l = refl
beyond_trans (some b) m x over l = str_lt_trans b m x over l

-- Beyond the bound are the least id and what is beyond it.
joins :
    (bound : Option String) (m : String) (ids : List String)
    → IsLeast m (select (beyond bound) ids)
    → beyond bound m ≡ true
    → contains m ids ≡ true
    → (x : String)
    → (str_eq x m || str_lt m x && contains x ids) ≡ (beyond bound x && contains x ids)
joins bound m ids h over known x = elim (Bool-cases (str_eq x m)) [
  | inl same ↦
      let eq : x ≡ m = ground (arith, eq_iff x m, same) in
      let over' : beyond bound x ≡ true = ap (beyond bound) eq ∙ over in
      let known' : contains x ids ≡ true = ap (λ s. contains s ids) eq ∙ known in
      ground (arith, same, over', known')
  | inr differs ↦ elim (Bool-cases (str_lt m x)) [
    | inl l ↦ ground (arith, differs, l, beyond_trans bound m x over l)
    | inr l ↦ elim (Bool-cases (beyond bound x && contains x ids)) [
      | inr none_there ↦ ground (arith, differs, l, none_there)
      | inl there ↦
          let first = h.least x (contains-select (beyond bound) x ids ∙ there) in
          let same = str_lt_total x m first l in absurd (ground (arith, eq_iff x m, same, differs))
    ]
  ]
]

seek-IsRest :
    (fuel : ℕ) (ids : List String) (bound found : Option String)
    → IsMin (select (beyond bound) ids) found
    → length (select (beyond bound) ids) < fuel
    → IsRest ids bound (seek fuel ids found)
unfolding seek
seek-IsRest zero ids bound found h enough = absurd (omega (arith, enough))
seek-IsRest (suc fuel) ids bound none h enough = record {
  listed = λ x. sym (h x) ∙ contains-select (beyond bound) x ids;
  behind = tt;
  increasing = tt;
}
seek-IsRest (suc fuel) ids bound (some m) h enough =
    let found : (beyond bound m && contains m ids) ≡ true =
      sym (contains-select (beyond bound) m ids) ∙ h.there in
    let over : beyond bound m ≡ true = ground (arith, found) in
    let known : contains m ids ≡ true = ground (arith, found) in
    let rest = seek-IsRest fuel ids (some m) (next_id ids (some m)) (min_id-IsMin _) (
      omega (
        arith,
        enough,
        fewer (str_lt m) (beyond bound) m ids (λ x l. beyond_trans bound m x over l)
            (str_lt_irrefl m) over known,
      )) in
    record {
      listed = λ x. ap (λ b. str_eq x m || b) (rest.listed x) ∙ joins bound m ids h over known x;
      behind = (
        over,
        All-map (λ y. str_lt m y ≡ true) (λ y. beyond bound y ≡ true) _
            (λ y l. beyond_trans bound m y over l) rest.behind,
      );
      increasing = (rest.behind, rest.increasing);
    }

-- The loop over the model ids ends within one round more than there are rows, and returns each id of the rows
-- exactly once, in increasing order.
pub distinct_ids-IsEnumeration :
    (ids : List String)
    → ((x : String) → contains x (distinct_ids ids) ≡ contains x ids)
      × IsIncreasing (distinct_ids ids)
distinct_ids-IsEnumeration ids =
    let all =
      seek-IsRest (suc (length ids)) ids none (next_id ids none) (min_id-IsMin _)
        (omega (arith, no_more (beyond none) (beyond none) ids (λ _ h. h), kept ids)) in
    (all.listed, all.increasing)
  where
    kept : (ids : List String) → length (select (beyond none) ids) ≤ length ids
    kept [] = omega arith
    kept (m ∷ ms) = omega (arith, kept ms)
