-- ===== src/Activity/Cover.antt =====
-- llmsvc/activity.py: the loop over the names of models finds each model that has a row, and each summary
-- has a newest row.
use llm_service_manager.Prelude.{
  ℕ, String, ◌≡◌, refl, ap, ◌∙◌, inl, inr, Bool, true, false, ◌&&◌, Option, none, some, List, [],
  ◌∷◌, map, eq_iff, arith,
}
use llm_service_manager.Prelude.Tests.{
  ltb, ◌==◌, ==_iff, Bool-cases, Option-cases, is_none, is_some, if◌then◌else◌,
}
use llm_service_manager.Prelude.Lists.{any, select, All}
use llm_service_manager.Prelude.Text.{contains, opt_str_eq}
use llm_service_manager.Activity.Summary.{
  ActivityRow, Summary, ids_of, max_ts, of_model, until, summary_of, summaries, listed_models,
  distinct_ids, summary_rows,
}
use llm_service_manager.Activity.Seek.{distinct_ids-IsEnumeration}
use llm_service_manager.Activity.Read.{ByModel, get, put, newest, at_time}

pub opt_eq : (a b : Option String) → opt_str_eq a b ≡ true → a ≡ b
opt_eq none none e = refl
opt_eq none (some b) e = absurd (ground (arith, e))
opt_eq (some a) none e = absurd (ground (arith, e))
opt_eq (some a) (some b) e = ap some (ground (arith, eq_iff a b, e))

opt_eq_refl : (a : Option String) → opt_str_eq a a ≡ true
opt_eq_refl none = refl
opt_eq_refl (some a) = ground (arith, eq_iff a a)

module _ {V : Type 0} where
  pub get-put :
      (k j : Option String) (v : V) (d : ByModel V)
      → get j (put k v d) ≡ (if opt_str_eq k j then some v else get j d)
  unfolding get put
  get-put k j v [] = ground arith
  get-put k j v ((i, w) ∷ d) = elim (Bool-cases (opt_str_eq i k)) [
    | inl e ↦ let same = opt_eq i k e in ground (arith, same, ap (λ o. opt_str_eq o j) same, e)
    | inr e ↦ elim (Bool-cases (opt_str_eq k j)) [
      | inl f ↦
          let same = opt_eq k j f in
          ground (arith, e, f, ap (λ o. opt_str_eq i o) same, get-put k j v d)
      | inr f ↦ ground (arith, e, f, get-put k j v d)
    ]
  ]

-- The greatest time of some rows is the time of one of them.
attained :
    (p : ActivityRow → Bool) (rows : List ActivityRow) (t : ℕ)
    → max_ts (select p rows) ≡ some t
    → any (λ r. p r && r.ts_created == t) rows ≡ true
unfolding max_ts
attained p [] t e = absurd (ground (arith, e))
attained p (row ∷ rows) t e = elim (Bool-cases (p row)) [
  | inr f ↦ ground (arith, f, attained p rows t, e)
  | inl f ↦ elim (Option-cases (max_ts (select p rows))) [
    | inl n ↦ ground (arith, f, n, e, ==_iff row.ts_created t)
    | inr (u, n) ↦ ground (arith, f, n, e, attained p rows u n, ==_iff row.ts_created t)
  ]
]

pub newest-found :
    (q : ActivityRow → Bool) (rows : List ActivityRow)
    → any q rows ≡ true
    → (row : ActivityRow) × (newest (select q rows) ≡ some row)
unfolding newest
newest-found q [] e = absurd (ground (arith, e))
newest-found q (row ∷ rows) e = elim (Bool-cases (q row)) [
  | inr f ↦
      let (found, n) = newest-found q rows (ground (arith, e, f)) in (found, ground (arith, f, n))
  | inl f ↦ elim (Option-cases (newest (select q rows))) [
    | inl n ↦ (row, ground (arith, f, n))
    | inr (other, n) ↦ elim (Bool-cases (ltb row.id other.id)) [
      | inl l ↦ (other, ground (arith, f, n, l))
      | inr l ↦ (row, ground (arith, f, n, l))
    ]
  ]
]

-- Whether some model of a list has the key
abbrev listed : Option String → List (Option String) → Bool
listed j ms = any (λ m. opt_str_eq m j) ms

listed-map : (x : String) (ids : List String) → listed (some x) (map some ids) ≡ contains x ids
listed-map x [] = refl
listed-map x (m ∷ ms) = ground (arith, listed-map x ms, eq_iff m x, eq_iff x m)

listed-none : (ids : List String) → listed none (map some ids) ≡ false
listed-none [] = refl
listed-none (m ∷ ms) = listed-none ms

ids_of-contains :
    (x : String) (rows : List ActivityRow) → contains x (ids_of rows) ≡ any (of_model (some x)) rows
ids_of-contains x [] = refl
ids_of-contains x (row ∷ rows) = elim (Option-cases row.model_id) [
  | inl n ↦ ground (arith, n, ids_of-contains x rows)
  | inr (m, n) ↦ ground (arith, n, ids_of-contains x rows, eq_iff m x, eq_iff x m)
]

null-listed :
    (rows : List ActivityRow)
    → any (λ (r : ActivityRow). is_none r.model_id) rows ≡ any (of_model none) rows
null-listed [] = refl
null-listed (row ∷ rows) = elim (Option-cases row.model_id) [
  | inl n ↦ ground (arith, n)
  | inr (m, n) ↦ ground (arith, n, null-listed rows)
]

-- The loop lists every model that has a row.
listed_models-has :
    (rows : List ActivityRow) (j : Option String)
    → listed j (listed_models rows) ≡ any (of_model j) rows
listed_models-has rows none =
    ground (arith, null-listed rows, listed-none (distinct_ids (ids_of rows)))
listed_models-has rows (some x) = ground (
  arith,
  listed-map x (distinct_ids (ids_of rows)),
  (distinct_ids-IsEnumeration (ids_of rows)).0 x,
  ids_of-contains x rows,
)

any_weaken :
    (p q : ActivityRow → Bool) (rows : List ActivityRow)
    → ((r : ActivityRow) → p r ≡ true → q r ≡ true)
    → any p rows ≡ true
    → any q rows ≡ true
any_weaken p q [] h e = e
any_weaken p q (row ∷ rows) h e = elim (Bool-cases (p row)) [
  | inl f ↦ ground (arith, h row f)
  | inr f ↦ ground (arith, e, f, any_weaken p q rows h)
]

module _ (rows : List ActivityRow) (now : ℕ) where
  -- The last use of a model, in one pass over all rows
  abbrev pub last_of : (model_id : Option String) → Option ℕ
  last_of m = max_ts (select (λ r. of_model m r && until now r) rows)

  -- A summary is what the rows of its model say.
  abbrev pub IsOf : Summary → Type 0
  IsOf s =
      (last_of s.model_id ≡ some s.last_used) × (s ≡ summary_of rows now s.model_id s.last_used)

  with_summary-IsOf :
      (m : Option String) (o : Option ℕ) (rest : List Summary)
      → last_of m ≡ o
      → All IsOf rest
      → All IsOf (elim o [ none ↦ rest | some t ↦ summary_of rows now m t ∷ rest ])
  with_summary-IsOf m none rest e h = h
  with_summary-IsOf m (some t) rest e h = ((e, refl), h)

  pub summaries-IsOf : (ms : List (Option String)) → All IsOf (summaries rows now ms)
  unfolding summaries
  summaries-IsOf [] = tt
  summaries-IsOf (m ∷ ms) = with_summary-IsOf m (last_of m) _ refl (summaries-IsOf ms)

  abbrev pub of_key : Option String → Summary → Bool
  of_key j s = opt_str_eq s.model_id j

  summaries-cover :
      (j : Option String) (ms : List (Option String))
      → any (of_key j) (summaries rows now ms) ≡ (listed j ms && is_some (last_of j))
  unfolding summaries
  summaries-cover j [] = refl
  summaries-cover j (m ∷ ms) = elim (Bool-cases (opt_str_eq m j)) [
    | inl e ↦
        let same = ap last_of (opt_eq m j e) in
        elim (Option-cases (last_of j)) [
          | inl n ↦ ground (arith, same ∙ n, n, e, summaries-cover j ms)
          | inr (t, n) ↦ ground (arith, same ∙ n, n, e)
        ]
    | inr e ↦ elim (Option-cases (last_of m)) [
      | inl n ↦ ground (arith, n, e, summaries-cover j ms)
      | inr (t, n) ↦ ground (arith, n, e, summaries-cover j ms)
    ]
  ]

  pub last_of-any : (m : Option String) (t : ℕ) → last_of m ≡ some t → any (at_time m t) rows ≡ true
  last_of-any m t e =
      any_weaken (λ r. (of_model m r && until now r) && r.ts_created == t) (at_time m t) rows
        (λ r h. ground (arith, h)) (attained (λ r. of_model m r && until now r) rows t e)

  -- The models of the summaries are those with a row that is not later than now.
  pub summary_rows-cover :
      (j : Option String) → any (of_key j) (summary_rows rows now) ≡ is_some (last_of j)
  summary_rows-cover j = summaries-cover j (listed_models rows) ∙ (elim (Option-cases (last_of j)) [
    | inl n ↦ ground (arith, n)
    | inr (t, n) ↦ ground (
      arith,
      n,
      listed_models-has rows j,
      any_weaken (at_time j t) (of_model j) rows (λ r h. ground (arith, h)) (last_of-any j t n),
    )
  ])
