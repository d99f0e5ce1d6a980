-- ===== src/Policy/Intents/Relief.antt =====
-- llmsvc/policy/intents.py: the loop of `plan_memory_pressure` stops as few sleepers as it can.
use llm_service_manager.Prelude.{
  ℕ, zero, suc, ◌<◌, ◌≡◌, refl, ap, ◌∙◌, ◌⊎◌, inl, inr, true, false, List, [], ◌∷◌, arith,
}
use llm_service_manager.Prelude.Tests.{Bool-cases}
use llm_service_manager.Prelude.Lists.{take}
use llm_service_manager.Prelude.Float.{Float}
use llm_service_manager.State.{ModelState}
use llm_service_manager.Policy.Projection.{Projection, stop_model}
use llm_service_manager.Policy.Intents.{relieve, under_pressure}

module _ {N : Type 0} ⦃F : Float N⦄ where
  -- Every one of the models stopped
  abbrev pub stops : Projection N → List (ModelState N) → Projection N
  stops p [] = p
  stops p (m ∷ ms) = stops (stop_model p m "memory_pressure") ms

  -- The first `count` models are stopped; the pressure stood after every smaller number of stops, and
  -- it is gone or no model is left.
  pub record IsLeast (p : Projection N) (ms : List (ModelState N)) : Type 0 where
    pub count : ℕ
    pub ends : relieve p ms ≡ stops p (take count ms)
    pub needed : (j : ℕ) → 0 < j → j < count → under_pressure (stops p (take j ms)) ≡ true
    pub done : (under_pressure (relieve p ms) ≡ false) ⊎ (take count ms ≡ ms)

  next_needed :
      (p : Projection N) (m : ModelState N) (ms : List (ModelState N)) (count : ℕ)
      → under_pressure (stop_model p m "memory_pressure") ≡ true
      → ((j : ℕ)
          → 0 < j
          → j < count
          → under_pressure (stops (stop_model p m "memory_pressure") (take j ms)) ≡ true)
      → (j : ℕ) → 0 < j
      → j < suc count
      → under_pressure (stops p (take j (m ∷ ms))) ≡ true
  next_needed p m ms count pressed needed zero a b = absurd (omega arith)
  next_needed p m ms count pressed needed (suc zero) a b = pressed
  next_needed p m ms count pressed needed (suc (suc i)) a b =
      needed (suc i) (omega arith) (omega arith)

  IsLeast-next :
      (p : Projection N) (m : ModelState N) (ms : List (ModelState N))
      → under_pressure (stop_model p m "memory_pressure") ≡ true
      → IsLeast (stop_model p m "memory_pressure") ms
      → relieve p (m ∷ ms) ≡ relieve (stop_model p m "memory_pressure") ms
      → IsLeast p (m ∷ ms)
  IsLeast-next p m ms pressed least step = record {
    count = suc least.count;
    ends = step ∙ least.ends;
    needed = next_needed p m ms least.count pressed least.needed;
    done =
        rw step
          (elim least.done [ inl gone ↦ inl gone | inr all_of ↦ inr (ap (λ l. m ∷ l) all_of) ]);
  }

  -- The loop over the sleepers stops the first of them, and no more than it needs: the pressure stood
  -- after every smaller number of stops, and is gone at the end unless every one has been stopped.
  pub relieve-IsLeast : (ms : List (ModelState N)) (p : Projection N) → IsLeast p ms
  unfolding relieve
  relieve-IsLeast [] p = record {
    count = 0;
    ends = refl;
    needed = λ j a b. absurd (omega arith);
    done = inr refl;
  }
  relieve-IsLeast (m ∷ ms) p =
      let p' = stop_model p m "memory_pressure" in
      elim (Bool-cases (under_pressure p')) [
        | inl e ↦ IsLeast-next p m ms e (relieve-IsLeast ms p') (rw e refl)
        | inr e ↦ record {
          count = 1;
          ends = rw e refl;
          needed = λ j a b. absurd (omega arith);
          done = inl (rw e e);
        }
      ]
