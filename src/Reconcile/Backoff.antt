-- ===== src/Reconcile/Backoff.antt =====
-- llmsvc/reconcile.py: the state of the reconciler and its back-off, which doubles up to one hour. One
-- run reads the clock once.
use llm_service_manager.Prelude.{
  ℕ, zero, suc, ◌-◌, ◌*◌, ◌^◌, ◌≤◌, String, ◌≡◌, refl, sym, ap, ◌∙◌, subst, Bool, false, not,
  Option, none, some, arith,
}
use llm_service_manager.Prelude.Tests.{ltb, if◌then◌else◌}
use llm_service_manager.Prelude.Lists.{select}
use llm_service_manager.Prelude.Text.{Dict, lookup, insert}
use llm_service_manager.Prelude.Float.{Float}

abbrev pub first_backoff_seconds : ℕ
first_backoff_seconds = 60

abbrev pub max_backoff_seconds : ℕ
max_backoff_seconds = 3600

abbrev pub concurrency_backoff_key : String
concurrency_backoff_key = "__concurrency__"

pub record Entry (N : Type 0) : Type 0 where
  pub until : N
  pub reason : Option String
  pub attempts : ℕ

pub record Reconciler (N : Type 0) : Type 0 where
  pub interval_seconds : N
  pub last_submission : Option N
  pub last_scan : Option N
  pub backoff : Dict (Entry N)

abbrev pub smaller : ℕ → ℕ → ℕ
smaller a b = if ltb b a then b else a

-- `min(60 * 2 ** (attempts - 1), 3600)`, of whole seconds
unfoldable pub delay : (attempts : ℕ) → ℕ
delay attempts = smaller (first_backoff_seconds * 2 ^ (attempts - 1)) max_backoff_seconds

module _ {N : Type 0} where
  abbrev pub attempts_of : Option (Entry N) → ℕ
  attempts_of none = 0
  attempts_of (some e) = e.attempts

  -- `del self._backoff[key]` for the keys of a test
  abbrev pub purge : (stale : String → Bool) → Dict (Entry N) → Dict (Entry N)
  purge stale entries = select (λ (e : String × Entry N). not (stale e.0)) entries

module _ {N : Type 0} ⦃F : Float N⦄ where
  abbrev waits : (now : N) → Option (Entry N) → Bool
  waits now none = false
  waits now (some e) = F.lt now e.until

  -- `_in_backoff`
  unfoldable pub in_backoff : Reconciler N → (now : N) → (name : String) → Bool
  in_backoff k now name = waits now (lookup name k.backoff)

  -- `_set_backoff`
  unfoldable pub set_backoff :
      Reconciler N → (now : N) → (name : String) → (reason : Option String) → Reconciler N
  set_backoff k now name reason =
      let attempts = suc (attempts_of (lookup name k.backoff)) in
      record k {
        backoff =
            insert name
              (record {
                until = F.plus now (F.of_nat (delay attempts));
                reason = reason;
                attempts = attempts;
              })
              k.backoff;
      }

pow_step : (n : ℕ) → 2 ^ suc n ≡ 2 * 2 ^ n
pow_step n = omega arith

pow_positive : (n : ℕ) → 1 ≤ 2 ^ n
pow_positive zero = omega arith
pow_positive (suc n) = omega (arith, pow_positive n, pow_step n)

doubled : (x : ℕ) → smaller (60 * (2 * x)) 3600 ≡ smaller (2 * smaller (60 * x) 3600) 3600
doubled x = ground arith

small_enough : (x : ℕ) → 1 ≤ x → (60 ≤ smaller (60 * x) 3600) × (smaller (60 * x) 3600 ≤ 3600)
small_enough x h = ground arith

delay_suc : (n : ℕ) → smaller (60 * 2 ^ (suc n - 1)) 3600 ≡ smaller (60 * 2 ^ n) 3600
delay_suc n = let e : suc n - 1 ≡ n = omega arith in ap (λ m. smaller (60 * 2 ^ m) 3600) e

-- The first failure waits a minute; each further one waits twice as long as the one before, up to an
-- hour, so that every wait lies between the two.
pub delay-doubles :
    (n : ℕ)
    → (delay 1 ≡ first_backoff_seconds)
      × (delay (suc (suc n)) ≡ smaller (2 * delay (suc n)) max_backoff_seconds)
      × (first_backoff_seconds ≤ delay (suc n))
      × (delay (suc n) ≤ max_backoff_seconds)
unfolding delay
delay-doubles n =
    let (low, high) = small_enough (2 ^ n) (pow_positive n) in
    let this = delay_suc n in
    (
      refl,
      delay_suc (suc n)
          ∙ ap (λ x. smaller (60 * x) 3600) (pow_step n)
          ∙ doubled (2 ^ n)
          ∙ ap (λ d. smaller (2 * d) 3600) (sym this),
      subst (λ d. 60 ≤ d) (sym this) low,
      subst (λ d. d ≤ 3600) (sym this) high,
    )
