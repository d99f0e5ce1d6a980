-- ===== src/Prelude/Sort.antt =====
-- `sorted` of Python: stable, and it only asks whether one item is less than another.
use mathlib.Core.Path.{◌≡◌}
use mathlib.Core.Bool.{Bool, true, false}
use mathlib.Core.Logic.{◌⊎◌, inl, inr}
use mathlib.Core.List.Perm
use mathlib.Core.List.{List, [], ◌∷◌, Perm, Memᴰ}
use native.Mathlib.Omega.{arith}
use llm_service_manager.Prelude.Tests.{Bool-cases, if_ind, if◌then◌else◌}
use llm_service_manager.Prelude.Lists.{All}

module _ {ℓ} {A : Type ℓ} where
  -- Behind the items that are less, before those that are not.
  unfoldable pub insert_sorted : (A → A → Bool) → A → List A → List A
  insert_sorted less x [] = x ∷ []
  insert_sorted less x (y ∷ ys) =
      let rest = insert_sorted less x ys in if less y x then y ∷ rest else x ∷ y ∷ ys

  unfoldable pub sorted : (A → A → Bool) → List A → List A
  unfolding insert_sorted
  sorted less [] = []
  sorted less (x ∷ xs) = insert_sorted less x (sorted less xs)

  insert_sorted-perm :
      (less : A → A → Bool) (x : A) (xs : List A) → Perm (insert_sorted less x xs) (x ∷ xs)
  unfolding insert_sorted
  insert_sorted-perm less x [] = Perm.rfl
  insert_sorted-perm less x (y ∷ ys) = elim (Bool-cases (less y x)) [
    | inl e ↦ rw e (Perm.trans (Perm.cons y (insert_sorted-perm less x ys)) (Perm.swap _ _ _))
    | inr e ↦ rw e Perm.rfl
  ]

  pub sorted-perm : (less : A → A → Bool) (xs : List A) → Perm (sorted less xs) xs
  unfolding sorted
  sorted-perm less [] = Perm.rfl
  sorted-perm less (x ∷ xs) =
      Perm.trans (insert_sorted-perm less x (sorted less xs)) (Perm.cons x (sorted-perm less xs))

module _ {ℓ κ} {A : Type ℓ} (P : A → Type κ) (less : A → A → Bool) where
  All-insert_sorted : (x : A) (xs : List A) → P x → All P xs → All P (insert_sorted less x xs)
  unfolding insert_sorted
  All-insert_sorted x [] p h = (p, tt)
  All-insert_sorted x (y ∷ ys) p h = ground (arith, All-insert_sorted x ys p)

  pub All-sorted : (xs : List A) → All P xs → All P (sorted less xs)
  unfolding sorted
  All-sorted [] h = tt
  All-sorted (x ∷ xs) h = All-insert_sorted x (sorted less xs) h.0 (All-sorted xs h.1)

module _ {ℓ} {A : Type ℓ} (less : A → A → Bool) where
  insert_sorted-Memᴰ : (y x : A) (xs : List A) → Memᴰ x (y ∷ xs) → Memᴰ x (insert_sorted less y xs)
  unfolding insert_sorted
  insert_sorted-Memᴰ y x [] m = m
  insert_sorted-Memᴰ y x (z ∷ xs) (Memᴰ.head e) =
      if_ind (Memᴰ x) (less z y) (λ _. Memᴰ.tail (insert_sorted-Memᴰ y x xs (Memᴰ.head e)))
        (λ _. Memᴰ.head e)
  insert_sorted-Memᴰ y x (z ∷ xs) (Memᴰ.tail (Memᴰ.head e)) =
      if_ind (Memᴰ x) (less z y) (λ _. Memᴰ.head e) (λ _. Memᴰ.tail (Memᴰ.head e))
  insert_sorted-Memᴰ y x (z ∷ xs) (Memᴰ.tail (Memᴰ.tail m)) =
      if_ind (Memᴰ x) (less z y) (λ _. Memᴰ.tail (insert_sorted-Memᴰ y x xs (Memᴰ.tail m)))
        (λ _. Memᴰ.tail (Memᴰ.tail m))

  -- Sorting loses nobody.
  pub sorted-Memᴰ : (x : A) (xs : List A) → Memᴰ x xs → Memᴰ x (sorted less xs)
  unfolding sorted
  sorted-Memᴰ x [] m = m
  sorted-Memᴰ x (y ∷ xs) (Memᴰ.head e) = insert_sorted-Memᴰ y x (sorted less xs) (Memᴰ.head e)
  sorted-Memᴰ x (y ∷ xs) (Memᴰ.tail m) =
      insert_sorted-Memᴰ y x (sorted less xs) (Memᴰ.tail (sorted-Memᴰ x xs m))

-- The items with the flag come last.
abbrev pub IsLast {ℓ} : {A : Type ℓ} → (A → Bool) → List A → Type 0
IsLast flag [] = Unit
IsLast flag (x ∷ xs) = ((flag x ≡ false) ⊎ All (λ y. flag y ≡ true) xs) × IsLast flag xs

module _ {ℓ} {A : Type ℓ} (flag : A → Bool) (less : A → A → Bool)
    (before : (x y : A) → flag x ≡ false → flag y ≡ true → less x y ≡ true)
    (behind : (x y : A) → flag x ≡ true → flag y ≡ false → less x y ≡ false) where
  insert_sorted-IsLast :
      (x : A) (xs : List A) → IsLast flag xs → IsLast flag (insert_sorted less x xs)
  unfolding insert_sorted
  insert_sorted-IsLast x [] h = (inr tt, tt)
  insert_sorted-IsLast x (y ∷ ys) (first, rest) = elim (Bool-cases (flag x)) [
    | inl fx ↦
        if_ind (IsLast flag) (less y x)
          (λ _. (
            elim first [
              | inl fy ↦ inl fy
              | inr all ↦ inr (All-insert_sorted (λ z. flag z ≡ true) less x ys fx all)
            ],
            insert_sorted-IsLast x ys rest,
          ))
          (λ stop. elim (Bool-cases (flag y)) [
            | inl fy ↦ elim first [
              | inl low ↦ absurd (ground (arith, fy, low))
              | inr all ↦ (inr (fy, all), (inr all, rest))
            ]
            | inr fy ↦ absurd (ground (arith, before y x fy fx, stop))
          ])
    | inr fx ↦
        if_ind (IsLast flag) (less y x)
          (λ on. elim (Bool-cases (flag y)) [
            | inl fy ↦ absurd (ground (arith, behind y x fy fx, on))
            | inr fy ↦ (inl fy, insert_sorted-IsLast x ys rest)
          ])
          (λ _. (inl fx, (first, rest)))
  ]

  pub sorted-IsLast : (xs : List A) → IsLast flag (sorted less xs)
  unfolding sorted
  sorted-IsLast [] = tt
  sorted-IsLast (x ∷ xs) = insert_sorted-IsLast x (sorted less xs) (sorted-IsLast xs)

-- No item stands behind one that it is less than.
abbrev pub IsSorted {ℓ} : {A : Type ℓ} → (A → A → Bool) → List A → Type 0
IsSorted less [] = Unit
IsSorted less (x ∷ xs) = All (λ y. less y x ≡ false) xs × IsSorted less xs
