-- ===== src/Prelude/Text.antt =====
-- Texts as Python has them: comparison, `join`, `strip`, and dictionaries whose keys are texts.
use Prim.Native.Nat.{ℕ, Ordering}
use Prim.Native.Char.{code}
use Prim.Native.String
use Prim.Native.String.{String}
use mathlib.Core.Path.{◌≡◌}
use mathlib.Core.Bool.{Bool, true, false, not, ◌&&◌, ◌||◌}
use mathlib.Core.List.{List, [], ◌∷◌}
use mathlib.Core.Option.{Option, none, some}
use native.Mathlib.Omega.{arith}
use text.Mathlib.Text.{◌==◌ as str_eq}
use text.Mathlib.TextEquality.{eq_iff}
use llm_service_manager.Prelude.Tests.{◌==◌, leb, if◌then◌else◌}
use llm_service_manager.Prelude.Lists.{any, All}

-- `s < t`: by code points
abbrev pub str_lt : String → String → Bool
str_lt s t = elim (String.compare s t) [ Ordering.lt ↦ true | _ ↦ false ]

-- The characters that `str.isspace` accepts.
is_space : ℕ → Bool
is_space c =
    leb 9 c && leb c 13
    || leb 28 c && leb c 32
    || c == 133
    || c == 160
    || c == 5760
    || leb 8192 c && leb c 8202
    || c == 8232
    || c == 8233
    || c == 8239
    || c == 8287
    || c == 12288

-- `not s.strip()`
unfoldable pub is_blank : String → Bool
unfolding is_space
is_blank String.[] = true
is_blank (String.◌∷◌ c s) = is_space (code c) && is_blank s

-- `s.lstrip()`
unfoldable pub lstrip : String → String
unfolding is_space
lstrip String.[] = ""
lstrip (String.◌∷◌ c s) = let rest = lstrip s in if is_space (code c) then rest else String.◌∷◌ c s

-- `s.rstrip()`
unfoldable pub rstrip : String → String
rstrip String.[] = ""
rstrip (String.◌∷◌ c s) =
    let rest = rstrip s in if is_blank (String.◌∷◌ c s) then "" else String.◌∷◌ c rest

-- `s.strip()`
abbrev pub strip : String → String
strip s = rstrip (lstrip s)

-- `s.startswith(prefix)`
unfoldable pub starts_with : (prefix : String) → String → Bool
starts_with String.[] s = true
starts_with (String.◌∷◌ c p) String.[] = false
starts_with (String.◌∷◌ c p) (String.◌∷◌ d s) = code c == code d && starts_with p s

-- `sep.join(parts)`
unfoldable pub join : String → List String → String
join sep [] = ""
join sep (s ∷ []) = s
join sep (s ∷ t ∷ rest) = String.◌++◌ s (String.◌++◌ sep (join sep (t ∷ rest)))

-- `text or None`
abbrev pub or_none : String → Option String
or_none s = if str_eq s "" then none else some s

abbrev pub opt_str_eq : Option String → Option String → Bool
opt_str_eq none none = true
opt_str_eq (some a) (some b) = str_eq a b
opt_str_eq _ _ = false

abbrev pub contains : String → List String → Bool
contains s l = any (str_eq s) l

-- `len(set(names)) == len(names)`
unfoldable pub no_repeats : List String → Bool
no_repeats [] = true
no_repeats (s ∷ l) = not (contains s l) && no_repeats l

abbrev pub Dict {ℓ} : Type ℓ → Type ℓ
Dict V = List (String × V)

module _ {ℓ} {V : Type ℓ} where
  unfoldable pub lookup : String → Dict V → Option V
  lookup k [] = none
  lookup k ((j, v) ∷ d) = let rest = lookup k d in if str_eq j k then some v else rest

  -- Writing a key that is there keeps its place; a new key comes last.
  unfoldable pub insert : String → V → Dict V → Dict V
  insert k v [] = (k, v) ∷ []
  insert k v ((j, w) ∷ d) =
      let rest = insert k v d in if str_eq j k then (j, v) ∷ d else (j, w) ∷ rest

  abbrev pub values : Dict V → List V
  values [] = []
  values ((j, v) ∷ d) = v ∷ values d

module _ {ℓ κ} {V : Type ℓ} (P : V → Type κ) where
  pub All-insert :
      (k : String) (v : V) (d : Dict V) → P v → All P (values d) → All P (values (insert k v d))
  unfolding insert
  All-insert k v [] p h = (p, tt)
  All-insert k v ((j, w) ∷ d) p h = ground (arith, All-insert k v d p)

module _ {ℓ} {V : Type ℓ} where
  pub lookup-insert :
      (k j : String) (v : V) (d : Dict V)
      → lookup j (insert k v d) ≡ (if str_eq k j then some v else lookup j d)
  unfolding lookup insert
  lookup-insert k j v [] = ground arith
  lookup-insert k j v ((i, w) ∷ d) =
      ground (arith, eq_iff k j, eq_iff i k, eq_iff i j, lookup-insert k j v d)

module _ {V : Type 0} (key : V → String) where
  fill : Dict V → List V → Dict V
  fill d [] = d
  fill d (x ∷ xs) = fill (insert (key x) x d) xs

  -- `{key(x): x for x in xs}`
  unfoldable pub by_key : List V → Dict V
  unfolding fill
  by_key xs = fill [] xs

module _ {V : Type 0} (P : V → Type 0) (key : V → String) where
  fill-values :
      (d : Dict V) (xs : List V) → All P (values d) → All P xs → All P (values (fill key d xs))
  unfolding fill
  fill-values d [] h k = h
  fill-values d (x ∷ xs) h k =
      fill-values (insert (key x) x d) xs (All-insert P (key x) x d k.0 h) k.1

  pub by_key-values : (xs : List V) → All P xs → All P (values (by_key key xs))
  unfolding by_key
  by_key-values xs k = fill-values [] xs tt k

  abbrev pub Holds : Dict V → Type 0
  Holds d = (name : String) (v : V) → lookup name d ≡ some v → P v × (key v ≡ name)

  pub insert-Holds : (x : V) (d : Dict V) → P x → Holds d → Holds (insert (key x) x d)
  insert-Holds x d p h name v e =
      ground (arith, lookup-insert (key x) name x d, eq_iff (key x) name, h name v, p)

  fill-Holds : (d : Dict V) (xs : List V) → Holds d → All P xs → Holds (fill key d xs)
  unfolding fill
  fill-Holds d [] h k = h
  fill-Holds d (x ∷ xs) h k = fill-Holds (insert (key x) x d) xs (insert-Holds x d k.0 h) k.1

  pub by_key-Holds : (xs : List V) → All P xs → Holds (by_key key xs)
  unfolding by_key lookup
  by_key-Holds xs k = fill-Holds [] xs (λ n w f. cc) k

  -- What is found under a name was in the list, and has that name.
  pub by_key-lookup :
      (xs : List V) (name : String) (v : V)
      → All P xs
      → lookup name (by_key key xs) ≡ some v
      → P v × (key v ≡ name)
  by_key-lookup xs name v k e = by_key-Holds xs k name v e
