-- ===== src/Activity/Sums.antt =====
-- Sums over lists and over the values of dictionaries.
use llm_service_manager.Prelude.{ℕ, ◌+◌, String, ◌≡◌, refl, Bool, none, some, List, [], ◌∷◌, arith}
use llm_service_manager.Prelude.Text.{Dict, lookup, insert, values}
use llm_service_manager.Prelude.Sort.{insert_sorted, sorted}

abbrev pub sum_by : {A : Type 0} → (A → ℕ) → List A → ℕ
sum_by g [] = 0
sum_by g (x ∷ xs) = g x + sum_by g xs

module _ {A : Type 0} (g : A → ℕ) (less : A → A → Bool) where
  sum_by-insert_sorted :
      (x : A) (xs : List A) → sum_by g (insert_sorted less x xs) ≡ g x + sum_by g xs
  unfolding insert_sorted
  sum_by-insert_sorted x [] = refl
  sum_by-insert_sorted x (y ∷ ys) = ground (arith, sum_by-insert_sorted x ys)

  -- Sorting does not change a sum.
  pub sum_by-sorted : (xs : List A) → sum_by g (sorted less xs) ≡ sum_by g xs
  unfolding sorted
  sum_by-sorted [] = refl
  sum_by-sorted (x ∷ xs) = omega (arith, sum_by-insert_sorted x (sorted less xs), sum_by-sorted xs)

module _ {V : Type 0} (g : V → ℕ) where
  -- Writing a key adds what the new value has over the old one.
  pub sum_by-insert_over :
      (k : String) (old new : V) (d : Dict V)
      → lookup k d ≡ some old
      → sum_by g (values (insert k new d)) + g old ≡ sum_by g (values d) + g new
  unfolding lookup insert
  sum_by-insert_over k old new [] h = absurd cc
  sum_by-insert_over k old new ((j, v) ∷ d) h = ground (arith, sum_by-insert_over k old new d)

  pub sum_by-insert_behind :
      (k : String) (new : V) (d : Dict V)
      → lookup k d ≡ none
      → sum_by g (values (insert k new d)) ≡ sum_by g (values d) + g new
  unfolding lookup insert
  sum_by-insert_behind k new [] h = omega arith
  sum_by-insert_behind k new ((j, v) ∷ d) h = ground (arith, sum_by-insert_behind k new d)
