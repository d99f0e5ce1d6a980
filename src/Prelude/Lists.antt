-- ===== src/Prelude/Lists.antt =====
-- Lists under the library's names over the native numbers, the loops `any` and `all`, and the
-- predicate `All` with its rules.
use Prim.Native.Nat.{ℕ, zero, suc, ◌+◌}
use mathlib.Core.Path.{◌≡◌, refl, sym, subst}
use mathlib.Core.Logic.{◌≢◌}
use mathlib.Core.Bool.{Bool, true, false, not, ◌&&◌, ◌||◌}
use mathlib.Core.List.{List, [], ◌∷◌, ◌++◌, map, Memᴰ}
use mathlib.Core.Option.{Option, none, some}
use native.Mathlib.Omega.{arith}
use llm_service_manager.Prelude.Tests.{if_ind, if◌then◌else◌}

module _ {ℓ} {A : Type ℓ} where
  abbrev pub length : List A → ℕ
  length [] = 0
  length (x ∷ xs) = suc (length xs)

  pub length-append : (xs ys : List A) → length (xs ++ ys) ≡ length xs + length ys
  length-append [] ys = omega arith
  length-append (x ∷ xs) ys = omega (arith, length-append xs ys)

  abbrev pub any : (A → Bool) → List A → Bool
  any p [] = false
  any p (x ∷ xs) = p x || any p xs

  abbrev pub all : (A → Bool) → List A → Bool
  all p [] = true
  all p (x ∷ xs) = p x && all p xs

  -- `[x for x in xs if p(x)]`
  abbrev pub select : (A → Bool) → List A → List A
  select p [] = []
  select p (x ∷ xs) = let rest = select p xs in if p x then x ∷ rest else rest

  -- `next((x for x in xs if p(x)), None)`
  abbrev pub find? : (A → Bool) → List A → Option A
  find? p [] = none
  find? p (x ∷ xs) = let rest = find? p xs in if p x then some x else rest

  abbrev pub is_empty : List A → Bool
  is_empty [] = true
  is_empty (x ∷ xs) = false

  abbrev pub take : ℕ → List A → List A
  take zero xs = []
  take (suc n) [] = []
  take (suc n) (x ∷ xs) = x ∷ take n xs

  abbrev pub drop : ℕ → List A → List A
  drop zero xs = xs
  drop (suc n) [] = []
  drop (suc n) (x ∷ xs) = drop n xs

module _ {ℓ κ} {A : Type ℓ} where
  abbrev pub All : (A → Type κ) → List A → Type κ
  All P [] = Unit
  All P (x ∷ xs) = P x × All P xs

module _ {ℓ κ} {A : Type ℓ} (P : A → Type κ) where
  pub All-append : (xs ys : List A) → All P xs → All P ys → All P (xs ++ ys)
  All-append [] ys hx hy = hy
  All-append (x ∷ xs) ys hx hy = (hx.0, All-append xs ys hx.1 hy)

  pub All-behind : (xs ys : List A) → All P (xs ++ ys) → All P ys
  All-behind [] ys h = h
  All-behind (x ∷ xs) ys h = All-behind xs ys h.1

  pub All-mem : (xs : List A) → All P xs → (x : A) → Memᴰ x xs → P x
  All-mem [] h y m = elim m [ ]
  All-mem (x ∷ xs) h y (Memᴰ.head e) = subst P (sym e) h.0
  All-mem (x ∷ xs) h y (Memᴰ.tail m) = All-mem xs h.1 y m

  pub All-of_mem : (xs : List A) → ((x : A) → Memᴰ x xs → P x) → All P xs
  All-of_mem [] h = tt
  All-of_mem (x ∷ xs) h = (h x (Memᴰ.head refl), All-of_mem xs (λ y m. h y (Memᴰ.tail m)))

  -- What a comprehension keeps was in the list.
  pub All-select : (p : A → Bool) (xs : List A) → All P xs → All P (select p xs)
  All-select p [] h = tt
  All-select p (x ∷ xs) h = ground (arith, All-select p xs)

  -- What a comprehension keeps passes the test.
  pub select-All : (p : A → Bool) (xs : List A) → ((x : A) → p x ≡ true → P x) → All P (select p xs)
  select-All p [] h = tt
  select-All p (x ∷ xs) h = ground (arith, select-All p xs h, h x)

  pub All-chosen :
      (p : A → Bool) (xs : List A) → All (λ x. p x ≡ true → P x) xs → All P (select p xs)
  All-chosen p [] h = tt
  All-chosen p (x ∷ xs) h =
      let rest = All-chosen p xs h.1 in if_ind (All P) (p x) (λ e. (h.0 e, rest)) (λ _. rest)

module _ {ℓ} {A : Type ℓ} where
  pub any-false : (p : A → Bool) (xs : List A) → any p xs ≡ false → All (λ x. p x ≡ false) xs
  any-false p [] h = tt
  any-false p (x ∷ xs) h = ground (arith, any-false p xs)

  pub all-true : (p : A → Bool) (xs : List A) → all p xs ≡ true → All (λ x. p x ≡ true) xs
  all-true p [] h = tt
  all-true p (x ∷ xs) h = ground (arith, all-true p xs)

module _ {ℓ κ} {A : Type ℓ} (P : A → Type κ) (p : A → Bool) where
  -- What a comprehension keeps was in the list and passes the test.
  pub All-kept : (xs : List A) → All P xs → All (λ x. P x × (p x ≡ true)) (select p xs)
  All-kept [] h = tt
  All-kept (x ∷ xs) h = ground (arith, All-kept xs)

module _ {ℓ κ μ} {A : Type ℓ} {B : Type μ} where
  pub All-of_map :
      (P : B → Type κ) (f : A → B) (xs : List A) → All (λ x. P (f x)) xs → All P (map f xs)
  All-of_map P f [] h = tt
  All-of_map P f (x ∷ xs) h = (h.0, All-of_map P f xs h.1)

module _ {ℓ κ μ} {A : Type ℓ} (P : A → Type κ) (Q : A → Type μ) where
  pub All-map : (xs : List A) → ((x : A) → P x → Q x) → All P xs → All Q xs
  All-map [] f h = tt
  All-map (x ∷ xs) f h = (f x h.0, All-map xs f h.1)

module _ {ℓ} {A : Type ℓ} where
  pub append-nonempty : (xs : List A) (y : A) → xs ++ y ∷ [] ≢ []
  append-nonempty [] y e = cc
  append-nonempty (x ∷ xs) y e = cc

  pub occupied : (xs : List A) → not (is_empty xs) ≡ true → xs ≢ []
  occupied [] h e = cc
  occupied (x ∷ xs) h e = cc
