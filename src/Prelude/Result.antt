-- ===== src/Prelude/Result.antt =====
-- A function of Python that may raise a `ValueError`, whose message is the value of `err`.
use Prim.Native.String.{String}
use mathlib.Core.Path.{◌≡◌, refl, subst}
use mathlib.Core.Logic.{◌⊎◌, inl, inr}
use mathlib.Core.Bool.{Bool, true, false}

pub data Result {ℓ} (V : Type ℓ) : Type ℓ where
  err : (message : String) → Result V
  ok : (value : V) → Result V

-- A guard raises the error where its condition fails.
abbrev pub guard : (condition : Bool) (message : String) → Result (Unit {0})
guard false message = err message
guard true message = ok tt

infixl 5 ◌>>=◌
abbrev pub ◌>>=◌ {ℓ κ} :
    {V : Type ℓ} {W : Type κ} (first : Result V) (next : V → Result W) → Result W
err message >>= next = err message
ok value >>= next = next value

infixl 5 ◌>>◌
abbrev pub ◌>>◌ {ℓ} : {W : Type ℓ} (first : Result (Unit {0})) (second : Result W) → Result W
first >> second = first >>= λ _. second

pub Result-cases {ℓ} :
    {V : Type ℓ} (r : Result V)
    → ((value : V) × (r ≡ ok value)) ⊎ ((message : String) × (r ≡ err message))
Result-cases (err message) = inr (message, refl)
Result-cases (ok value) = inl (value, refl)

-- What holds of the value, if the code returns.
abbrev pub OnOk {ℓ κ} : {V : Type ℓ} → (V → Type κ) → Result V → Type κ
OnOk P (err message) = Unit
OnOk P (ok value) = P value

module _ {ℓ κ μ} {V : Type ℓ} {W : Type κ} (P : W → Type μ) where
  pub OnOk-bind :
      (first : Result V) (next : V → Result W)
      → ((value : V) → first ≡ ok value → OnOk P (next value))
      → OnOk P (first >>= next)
  OnOk-bind (err message) next h = tt
  OnOk-bind (ok value) next h = h value refl

module _ {ℓ κ} {V : Type ℓ} (P : V → Type κ) where
  pub OnOk-eq : (r : Result V) (value : V) → OnOk P r → r ≡ ok value → P value
  OnOk-eq r value h e = subst (OnOk P) e h

module _ {ℓ κ} {W : Type ℓ} (P : W → Type κ) where
  -- A check that is not needed for the property
  pub skip :
      {V : Type 0} (check : Result V) (next : Result W) → OnOk P next → OnOk P (check >>= λ _. next)
  skip check next h = OnOk-bind P check (λ _. next) (λ _ _. h)

  -- A guard whose condition is needed
  pub under :
      (condition : Bool) (message : String) (next : Result W)
      → (condition ≡ true → OnOk P next)
      → OnOk P (guard condition message >> next)
  under false message next h = tt
  under true message next h = h refl

module _ {ℓ κ} {V : Type ℓ} (P : V → Type κ) where
  pub OnOk-all : (r : Result V) → ((value : V) → P value) → OnOk P r
  OnOk-all (err message) h = tt
  OnOk-all (ok value) h = h value

module _ {κ} (P : Unit {0} → Type κ) where
  -- A guard that ends the checks
  pub last_guard :
      (condition : Bool) (message : String)
      → (condition ≡ true → P tt)
      → OnOk P (guard condition message)
  last_guard false message h = tt
  last_guard true message h = h refl

module _ {ℓ κ μ} {V : Type ℓ} (P : V → Type κ) (Q : V → Type μ) where
  pub OnOk-map : ((value : V) → P value → Q value) → (r : Result V) → OnOk P r → OnOk Q r
  OnOk-map f (err message) h = tt
  OnOk-map f (ok value) h = f value h
