-- ===== src/Store/Intents.antt =====
-- llmsvc/store.py: the pins and reserves of users. A row that has expired stays until it is removed.
use llm_service_manager.Prelude.{
  String, ◌≡◌, refl, Bool, true, false, not, Option, none, some, List, [], ◌∷◌, str_eq, Memᴰ, arith,
}
use llm_service_manager.Prelude.Tests.{if_ind, if◌then◌else◌}
use llm_service_manager.Prelude.Lists.{find?, select}
use llm_service_manager.Prelude.Sort.{sorted, sorted-Memᴰ}
use llm_service_manager.Prelude.Text.{str_lt}
use llm_service_manager.Prelude.Float.{Float}
use llm_service_manager.Prelude.Result.{Result, ok, OnOk-eq, skip, ◌>>◌}
use llm_service_manager.State.{Pin, Reserve}
use llm_service_manager.Store.Rows.{
  IntentStore, bootstrap_guard, writable, unless_dry_run, nonempty, finite_positive,
}

module _ {A : Type 0} (key : A → String) where
  -- `INSERT ... ON CONFLICT(key) DO UPDATE`
  unfoldable pub upsert : A → List A → List A
  upsert x [] = x ∷ []
  upsert x (y ∷ ys) = let rest = upsert x ys in if str_eq (key y) (key x) then x ∷ ys else y ∷ rest

  -- `DELETE ... WHERE key = ?`
  unfoldable pub delete : String → List A → List A
  delete k rows = select (λ y. not (str_eq (key y) k)) rows

  upsert-Memᴰ : (x : A) (ys : List A) → Memᴰ x (upsert x ys)
  unfolding upsert
  upsert-Memᴰ x [] = Memᴰ.head refl
  upsert-Memᴰ x (y ∷ ys) =
      if_ind (Memᴰ x) (str_eq (key y) (key x)) (λ _. Memᴰ.head refl)
        (λ _. Memᴰ.tail (upsert-Memᴰ x ys))

select-Memᴰ {ℓ} :
    {A : Type ℓ} (p : A → Bool) (x : A) (xs : List A)
    → Memᴰ x xs
    → p x ≡ true
    → Memᴰ x (select p xs)
select-Memᴰ p x [] m h = elim m [ ]
select-Memᴰ p x (y ∷ xs) (Memᴰ.head e) h =
    if_ind (Memᴰ x) (p y) (λ _. Memᴰ.head e) (λ n. absurd (ground arith))
select-Memᴰ p x (y ∷ xs) (Memᴰ.tail m) h =
    if_ind (Memᴰ x) (p y) (λ _. Memᴰ.tail (select-Memᴰ p x xs m h)) (λ _. select-Memᴰ p x xs m h)

-- The rows that a read returns are validated one by one.
unfoldable pub each : {A : Type 0} → (A → Result (Unit {0})) → List A → Result (Unit {0})
each check [] = ok tt
each check (x ∷ xs) = let rest = each check xs in check x >> rest

module _ {N : Type 0} where
  abbrev pub pin_model : Pin N → String
  pin_model p = p.model

  abbrev pub reserve_id : Reserve N → String
  reserve_id r = r.id

  abbrev pub pin_lt : Pin N → Pin N → Bool
  pin_lt a b = str_lt a.model b.model

  abbrev pub reserve_lt : Reserve N → Reserve N → Bool
  reserve_lt a b = str_lt a.id b.id

  -- `_write`, with the effect of the statement
  unfoldable pub write : IntentStore N → IntentStore N → Result (IntentStore N)
  write s s' = do writable s; bootstrap_guard s; ok s'

  -- `remove_pin`
  unfoldable pub remove_pin :
      IntentStore N → (model : String) → (dry_run : Bool) → Result (IntentStore N)
  remove_pin s model dry_run = do
    nonempty model "model"
    unless_dry_run dry_run s (write s (record s { pins = delete pin_model model s.pins }))

  -- `remove_reserve`
  unfoldable pub remove_reserve :
      IntentStore N → (id : String) → (dry_run : Bool) → Result (IntentStore N)
  remove_reserve s id dry_run = do
    nonempty id "id"
    unless_dry_run dry_run s (write s (record s { reserves = delete reserve_id id s.reserves }))

module _ {N : Type 0} ⦃F : Float N⦄ where
  -- `validate_pin`
  unfoldable pub validate_pin : Pin N → Result (Unit {0})
  validate_pin p = do nonempty p.model "model"; nonempty p.by "by"; finite_positive p.until "until"

  -- `validate_reserve`
  unfoldable pub validate_reserve : Reserve N → Result (Unit {0})
  validate_reserve r = do
    nonempty r.id "id"
    nonempty r.by "by"
    finite_positive r.size_gb "size_gb"
    finite_positive r.until "until"

  -- `put_pin`
  unfoldable pub put_pin : IntentStore N → Pin N → (dry_run : Bool) → Result (IntentStore N)
  put_pin s pin dry_run = do
    validate_pin pin
    unless_dry_run dry_run s (write s (record s { pins = upsert pin_model pin s.pins }))

  -- `put_reserve`
  unfoldable pub put_reserve : IntentStore N → Reserve N → (dry_run : Bool) → Result (IntentStore N)
  put_reserve s reserve dry_run = do
    validate_reserve reserve
    unless_dry_run dry_run s
        (write s (record s { reserves = upsert reserve_id reserve s.reserves }))

  unfoldable pub validated : Option (Reserve N) → Result (Option (Reserve N))
  unfolding validate_reserve
  validated none = ok none
  validated (some r) = validate_reserve r >> ok (some r)

  -- `reserve`, which also finds an expired one
  unfoldable pub reserve : IntentStore N → (id : String) → Result (Option (Reserve N))
  unfolding validated
  reserve s id = do
    nonempty id "id"
    validated (find? (λ (r : Reserve N). str_eq r.id id) s.reserves)

  abbrev pub active_pins : IntentStore N → (now : N) → List (Pin N)
  active_pins s now = sorted pin_lt (select (λ (p : Pin N). F.lt now p.until) s.pins)

  abbrev pub active_reserves : IntentStore N → (now : N) → List (Reserve N)
  active_reserves s now =
      sorted reserve_lt (select (λ (r : Reserve N). F.lt now r.until) s.reserves)

  -- `active`
  unfoldable pub active : IntentStore N → (now : N) → Result (List (Pin N) × List (Reserve N))
  active s now = do
    finite_positive now "now"
    each validate_pin (active_pins s now)
    each validate_reserve (active_reserves s now)
    ok (active_pins s now, active_reserves s now)

  put_pin-Memᴰ :
      (s s' : IntentStore N) (pin : Pin N) → put_pin s pin false ≡ ok s' → Memᴰ pin s'.pins
  unfolding put_pin write
  put_pin-Memᴰ s s' pin e =
      let Has = λ (s' : IntentStore N). Memᴰ pin s'.pins in
      OnOk-eq Has _ s'
        (skip Has (validate_pin pin) _ (
          skip Has (writable s) _
            (skip Has (bootstrap_guard s) _ (upsert-Memᴰ pin_model pin s.pins))))
        e

  -- A pin that was put is among the active pins of the store at every time before it expires.
  pub put_pin-active :
      (s s' : IntentStore N) (pin : Pin N) (now : N) (intents : List (Pin N) × List (Reserve N))
      → put_pin s pin false ≡ ok s'
      → active s' now ≡ ok intents
      → F.lt now pin.until ≡ true
      → Memᴰ pin intents.0
  unfolding active
  put_pin-active s s' pin now intents e f before =
      let Has = λ (intents : List (Pin N) × List (Reserve N)). Memᴰ pin intents.0 in
      OnOk-eq Has _ intents
        (skip Has (finite_positive now "now") _ (
          skip Has (each validate_pin (active_pins s' now)) _ (
            skip Has (each validate_reserve (active_reserves s' now)) _ (
              sorted-Memᴰ pin_lt pin _ (
                select-Memᴰ (λ (p : Pin N). F.lt now p.until) pin s'.pins (put_pin-Memᴰ s s' pin e)
                  before)))))
        f
