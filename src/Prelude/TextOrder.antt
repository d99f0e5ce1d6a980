-- ===== src/Prelude/TextOrder.antt =====
-- The order of texts by code points is a strict total order.
use Prim.Native.Nat.{compare, Ordering}
use Prim.Native.Char.{Char, code}
use Prim.Native.String
use Prim.Native.String.{String, then}
use mathlib.Core.Path.{◌≡◌, refl, ap, ◌∙◌}
use mathlib.Core.Bool.{Bool, true, false, ◌&&◌, ◌||◌}
use native.Mathlib.Omega.{arith}
use text.Mathlib.TextEquality.{path_by_compare}
use text.Mathlib.TextPositions.{compare_refl, compare_self}
use llm_service_manager.Prelude.Tests.{◌==◌, ltb}
use llm_service_manager.Prelude.Text.{str_lt}

abbrev is_lt : Ordering → Bool
is_lt o = elim o [ Ordering.lt ↦ true | _ ↦ false ]

abbrev is_same : Ordering → Bool
is_same o = elim o [ Ordering.eq ↦ true | _ ↦ false ]

first_decides : (o r : Ordering) → is_lt (then o r) ≡ (is_lt o || is_same o && is_lt r)
first_decides Ordering.lt r = refl
first_decides Ordering.eq r = refl
first_decides Ordering.gt r = refl

str_lt-cons :
    (c d : Char) (s t : String)
    → str_lt (String.◌∷◌ c s) (String.◌∷◌ d t)
      ≡ (ltb (code c) (code d) || code c == code d && str_lt s t)
str_lt-cons c d s t =
    ap is_lt (String.compare.cons-cons c d s t)
    ∙ first_decides (compare (code c) (code d)) (String.compare s t)

str_lt-nil : (d : Char) (t : String) → str_lt "" (String.◌∷◌ d t) ≡ true
str_lt-nil d t = ap is_lt (String.compare.nil-cons d t)

str_lt-behind : (c : Char) (s : String) → str_lt (String.◌∷◌ c s) "" ≡ false
str_lt-behind c s = ap is_lt (String.compare.cons-nil c s)

pub str_lt_irrefl : (s : String) → str_lt s s ≡ false
str_lt_irrefl s = ap is_lt (compare_refl s)

pub str_lt_trans : (r s t : String) → str_lt r s ≡ true → str_lt s t ≡ true → str_lt r t ≡ true
str_lt_trans String.[] String.[] t h k = k
str_lt_trans String.[] (String.◌∷◌ c s) String.[] h k =
    absurd (ground (arith, str_lt-behind c s, k))
str_lt_trans String.[] (String.◌∷◌ c s) (String.◌∷◌ d t) h k = str_lt-nil d t
str_lt_trans (String.◌∷◌ c r) String.[] t h k = absurd (ground (arith, str_lt-behind c r, h))
str_lt_trans (String.◌∷◌ c r) (String.◌∷◌ d s) String.[] h k =
    absurd (ground (arith, str_lt-behind d s, k))
str_lt_trans (String.◌∷◌ c r) (String.◌∷◌ d s) (String.◌∷◌ e t) h k =
    ground
      (arith, str_lt-cons c e r t, str_lt-cons c d r s, str_lt-cons d e s t, str_lt_trans r s t)

same_order :
    (s t : String) → str_lt s t ≡ false → str_lt t s ≡ false → String.compare s t ≡ Ordering.eq
same_order String.[] String.[] h k = compare_refl ""
same_order String.[] (String.◌∷◌ d t) h k = absurd (ground (arith, str_lt-nil d t, h))
same_order (String.◌∷◌ c s) String.[] h k = absurd (ground (arith, str_lt-nil c s, k))
same_order (String.◌∷◌ c s) (String.◌∷◌ d t) h k =
    let e : code c ≡ code d = ground (arith, str_lt-cons c d s t, str_lt-cons d c t s, h, k) in
    let h' : str_lt s t ≡ false = ground (arith, str_lt-cons c d s t, h, e) in
    let k' : str_lt t s ≡ false = ground (arith, str_lt-cons d c t s, k, e) in
    String.compare.cons-cons c d s t
    ∙ ap (λ n. then (compare n (code d)) (String.compare s t)) e
    ∙ ap (λ o. then o (String.compare s t)) (compare_self (code d))
    ∙ same_order s t h' k'

pub str_lt_total : (s t : String) → str_lt s t ≡ false → str_lt t s ≡ false → s ≡ t
str_lt_total s t h k = path_by_compare s t (same_order s t h k)
