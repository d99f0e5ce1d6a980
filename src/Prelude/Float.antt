-- ===== src/Prelude/Float.antt =====
-- Python's `float` is no code of the program: its operations are a parameter, and what a theorem
-- needs of them is a named law. `whole` is one instance, on which the definitions run.
use Prim.Native.Nat.{ℕ, ◌+◌, ◌-◌, ◌*◌, ◌/◌}
use mathlib.Core.Path.{◌≡◌}
use mathlib.Core.Bool.{Bool, true, false, ◌&&◌}
use mathlib.Core.Option.{Option, none, some}
use mathlib.Core.List.{List, [], ◌∷◌}
use native.Mathlib.Omega.{arith}
use llm_service_manager.Prelude.Tests.{ltb, leb, ◌==◌, if◌then◌else◌}

pub record Float (N : Type 0) : Type 0 where
  pub of_nat : ℕ → N
  pub plus : N → N → N
  pub minus : N → N → N
  pub times : N → N → N
  pub over : N → N → N
  pub le : N → N → Bool
  pub lt : N → N → Bool
  pub eq : N → N → Bool
  pub is_finite : N → Bool

module _ {N : Type 0} ⦃F : Float N⦄ where
  -- `max(a, b)`: the first one unless the second is greater
  abbrev pub max_of : N → N → N
  max_of a b = if F.lt a b then b else a

  sum_from : N → List N → N
  sum_from acc [] = acc
  sum_from acc (x ∷ xs) = sum_from (F.plus acc x) xs

  -- `sum(xs)`, which starts from 0
  unfoldable pub sum : List N → N
  unfolding sum_from
  sum xs = sum_from (F.of_nat 0) xs

  -- `known_number` of a value that is a number
  abbrev pub known : N → Bool
  known x = F.is_finite x && F.le (F.of_nat 0) x

  -- A field that a guard has found to be a number. (At None Python would raise TypeError; the
  -- guards keep such a read from happening.)
  abbrev pub amount : Option N → N
  amount none = F.of_nat 0
  amount (some x) = x

-- Facts of IEEE 754 on the order of the floats that are neither NaN nor infinite
pub record OrderLaws {N : Type 0} (F : Float N) : Type 0 where
  pub le_refl : (a : N) → F.is_finite a ≡ true → F.le a a ≡ true
  pub lt_irrefl : (a : N) → F.lt a a ≡ false
  pub le_trans : (a b c : N) → F.le a b ≡ true → F.le b c ≡ true → F.le a c ≡ true

-- Whole numbers, where a difference stops at 0 and a quotient is rounded down.
abbrev pub whole : Float ℕ
whole = record {
  of_nat = λ n. n;
  plus = λ a b. a + b;
  minus = λ a b. a - b;
  times = λ a b. a * b;
  over = λ a b. a / b;
  le = leb;
  lt = ltb;
  eq = ◌==◌;
  is_finite = λ _. true;
}

pub whole-OrderLaws : OrderLaws whole
whole-OrderLaws = record {
  le_refl = λ a h. ground arith;
  lt_irrefl = λ a. ground arith;
  le_trans = λ a b c h k. ground arith;
}
