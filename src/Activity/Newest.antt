-- ===== src/Activity/Newest.antt =====
-- llmsvc/activity.py: what the queries for the last time, the newest row and the number of rows answer.
use llm_service_manager.Prelude.{
  ℕ, ◌+◌, ◌≤◌, ◌≡◌, refl, subst, inl, inr, Bool, true, false, none, some, List, [], ◌∷◌, Memᴰ,
  arith,
}
use llm_service_manager.Prelude.Tests.{Bool-cases, Option-cases, ltb, if◌then◌else◌}
use llm_service_manager.Prelude.Lists.{All, All-map, length, select}
use llm_service_manager.Activity.Summary.{ActivityRow, max_ts}
use llm_service_manager.Activity.Read.{newest}

-- How many rows pass a test
abbrev pub count : (ActivityRow → Bool) → List ActivityRow → ℕ
count p [] = 0
count p (x ∷ xs) = (if p x then 1 else 0) + count p xs

pub max_ts-none :
    (p : ActivityRow → Bool) (rows : List ActivityRow)
    → max_ts (select p rows) ≡ none
    → All (λ x. p x ≡ false) rows
unfolding max_ts
max_ts-none p [] e = tt
max_ts-none p (x ∷ xs) e = elim (Bool-cases (p x)) [
  | inr f ↦ (f, max_ts-none p xs (ground (arith, f, e)))
  | inl f ↦ elim (Option-cases (max_ts (select p xs))) [
    | inl n ↦ absurd (ground (arith, f, n, e))
    | inr (t, n) ↦ elim (Bool-cases (ltb t x.ts_created)) [
      | inl l ↦ absurd (ground (arith, f, n, l, e))
      | inr l ↦ absurd (ground (arith, f, n, l, e))
    ]
  ]
]

-- The time that a maximum has is no less than that of any row.
pub max_ts-last :
    (p : ActivityRow → Bool) (rows : List ActivityRow) (t : ℕ)
    → max_ts (select p rows) ≡ some t
    → All (λ (x : ActivityRow). p x ≡ true → x.ts_created ≤ t) rows
unfolding max_ts
max_ts-last p [] t e = tt
max_ts-last p (x ∷ xs) t e = elim (Bool-cases (p x)) [
  | inr f ↦ ((λ h. absurd (ground (arith, f, h))), max_ts-last p xs t (ground (arith, f, e)))
  | inl f ↦ elim (Option-cases (max_ts (select p xs))) [
    | inl n ↦ (
      (λ h. ground (arith, f, n, e)),
      All-map (λ (y : ActivityRow). p y ≡ false)
          (λ (y : ActivityRow). p y ≡ true → y.ts_created ≤ t) xs
          (λ y hidden shown. absurd (ground (arith, hidden, shown))) (max_ts-none p xs n),
    )
    | inr (u, n) ↦
        let at_most : u ≤ t = ground (arith, f, n, e) in
        (
          (λ h. ground (arith, f, n, e)),
          All-map (λ (y : ActivityRow). p y ≡ true → y.ts_created ≤ u)
              (λ (y : ActivityRow). p y ≡ true → y.ts_created ≤ t) xs
              (λ y h s. omega (arith, h s, at_most)) (max_ts-last p xs u n),
        )
  ]
]

pub max_ts-until :
    (p : ActivityRow → Bool) (rows : List ActivityRow) (now t : ℕ)
    → ((x : ActivityRow) → p x ≡ true → x.ts_created ≤ now)
    → max_ts (select p rows) ≡ some t
    → t ≤ now
unfolding max_ts
max_ts-until p [] now t h e = absurd (ground (arith, e))
max_ts-until p (x ∷ xs) now t h e = elim (Bool-cases (p x)) [
  | inr f ↦ max_ts-until p xs now t h (ground (arith, f, e))
  | inl f ↦ elim (Option-cases (max_ts (select p xs))) [
    | inl n ↦ ground (arith, f, n, e, h x f)
    | inr (u, n) ↦ ground (arith, f, n, e, h x f, max_ts-until p xs now u h n)
  ]
]

newest-none :
    (q : ActivityRow → Bool) (rows : List ActivityRow)
    → newest (select q rows) ≡ none
    → All (λ x. q x ≡ false) rows
unfolding newest
newest-none q [] e = tt
newest-none q (x ∷ xs) e = elim (Bool-cases (q x)) [
  | inr f ↦ (f, newest-none q xs (ground (arith, f, e)))
  | inl f ↦ elim (Option-cases (newest (select q xs))) [
    | inl n ↦ absurd (ground (arith, f, n, e))
    | inr (other, n) ↦ elim (Bool-cases (ltb x.id other.id)) [
      | inl l ↦ absurd (ground (arith, f, n, l, e))
      | inr l ↦ absurd (ground (arith, f, n, l, e))
    ]
  ]
]

-- What the newest of the rows that pass is
abbrev pub IsBound : (ActivityRow → Bool) → List ActivityRow → ActivityRow → Type 0
IsBound q rows row =
    Memᴰ row rows × (q row ≡ true) × All (λ (x : ActivityRow). q x ≡ true → x.id ≤ row.id) rows

first-IsBound :
    (q : ActivityRow → Bool) (x : ActivityRow) (xs : List ActivityRow)
    → q x ≡ true
    → All (λ (y : ActivityRow). q y ≡ true → y.id ≤ x.id) xs
    → IsBound q (x ∷ xs) x
first-IsBound q x xs f h = (Memᴰ.head refl, f, ((λ _. ground arith), h))

-- The newest row has the greatest number of those that pass.
pub newest-IsBound :
    (q : ActivityRow → Bool) (rows : List ActivityRow) (row : ActivityRow)
    → newest (select q rows) ≡ some row
    → IsBound q rows row
unfolding newest
newest-IsBound q [] row e = absurd (ground (arith, e))
newest-IsBound q (x ∷ xs) row e = elim (Bool-cases (q x)) [
  | inr f ↦
      let (there, passes, bound) = newest-IsBound q xs row (ground (arith, f, e)) in
      (Memᴰ.tail there, passes, ((λ h. absurd (ground (arith, f, h))), bound))
  | inl f ↦ elim (Option-cases (newest (select q xs))) [
    | inl n ↦
        let same : x ≡ row = ground (arith, f, n, e) in
        subst (IsBound q (x ∷ xs)) same (
          first-IsBound q x xs f (
            All-map (λ (y : ActivityRow). q y ≡ false)
              (λ (y : ActivityRow). q y ≡ true → y.id ≤ x.id) xs
              (λ y hidden shown. absurd (ground (arith, hidden, shown))) (newest-none q xs n)))
    | inr (other, n) ↦
        let (there, passes, bound) = newest-IsBound q xs other n in
        elim (Bool-cases (ltb x.id other.id)) [
          | inl l ↦
              let same : other ≡ row = ground (arith, f, n, l, e) in
              subst (IsBound q (x ∷ xs)) same
                (Memᴰ.tail there, passes, ((λ _. ground (arith, l)), bound))
          | inr l ↦
              let same : x ≡ row = ground (arith, f, n, l, e) in
              let above : other.id ≤ x.id = ground (arith, l) in
              subst (IsBound q (x ∷ xs)) same (
                first-IsBound q x xs f (
                  All-map (λ (y : ActivityRow). q y ≡ true → y.id ≤ other.id)
                    (λ (y : ActivityRow). q y ≡ true → y.id ≤ x.id) xs
                    (λ y h shown. omega (arith, h shown, above)) bound))
        ]
  ]
]

pub length-select :
    (p : ActivityRow → Bool) (rows : List ActivityRow) → length (select p rows) ≡ count p rows
length-select p [] = refl
length-select p (x ∷ xs) = elim (Bool-cases (p x)) [
  | inl f ↦ ground (arith, f, length-select p xs)
  | inr f ↦ ground (arith, f, length-select p xs)
]
