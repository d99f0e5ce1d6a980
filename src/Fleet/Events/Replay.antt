-- ===== src/Fleet/Events/Replay.antt =====
-- llmsvc/fleet/events.py: a client that may resume at its cursor misses nothing. The log keeps the last
-- of all events that were ever emitted, and a cursor that it accepts lies behind none that are gone.
use llm_service_manager.Prelude.{
  ℕ, zero, suc, ◌+◌, ◌-◌, ◌≤◌, ◌<◌, ◌≡◌, refl, ap, sym, subst, ◌∙◌, inl, inr, List, [], ◌∷◌, ◌++◌,
  arith,
}
use llm_service_manager.Prelude.Tests.{Bool-cases, ==_iff, ltb, ◌==◌, if_ind}
use llm_service_manager.Prelude.Lists.{length, length-append, select, drop}
use llm_service_manager.Fleet.Events.{Event, keep_last}

module _ {ℓ} {A : Type ℓ} where
  pub length-drop : (k : ℕ) (xs : List A) → length (drop k xs) ≡ length xs - k
  length-drop zero xs = omega arith
  length-drop (suc k) [] = omega arith
  length-drop (suc k) (x ∷ xs) = omega (arith, length-drop k xs)

  drop-append : (k : ℕ) (xs ys : List A) → k ≤ length xs → drop k (xs ++ ys) ≡ drop k xs ++ ys
  drop-append zero xs ys h = refl
  drop-append (suc k) [] ys h = absurd (omega arith)
  drop-append (suc k) (x ∷ xs) ys h = drop-append k xs ys (omega arith)

  drop-drop : (j k m : ℕ) (xs : List A) → m ≡ j + k → drop j (drop k xs) ≡ drop m xs
  drop-drop j zero m xs h = ap (λ i. drop i xs) (omega arith)
  drop-drop j (suc k) zero xs h = absurd (omega arith)
  drop-drop zero (suc k) (suc m) [] h = refl
  drop-drop (suc j) (suc k) (suc m) [] h = refl
  drop-drop j (suc k) (suc m) (x ∷ xs) h = drop-drop j k m xs (omega arith)

  -- The last items of the last items, with one more, are the last items with one more.
  pub keep_last-append :
      (capacity : ℕ) (xs : List A) (x : A)
      → keep_last capacity (keep_last capacity xs ++ x ∷ []) ≡ keep_last capacity (xs ++ x ∷ [])
  unfolding keep_last
  keep_last-append capacity xs x =
      let k = length xs - capacity in
      let j = length (drop k xs ++ x ∷ []) - capacity in
      ap (drop j) (sym (drop-append k xs (x ∷ []) (omega arith)))
      ∙ drop-drop j k (length (xs ++ x ∷ []) - capacity) (xs ++ x ∷ []) (
          omega (
            arith,
            length-append xs (x ∷ []),
            length-append (drop k xs) (x ∷ []),
            length-drop k xs,
          ))

module _ {T D : Type 0} where
  -- The events are numbered one by one, from this number on.
  abbrev pub IsNumbered : ℕ → List (Event T D) → Type 0
  IsNumbered n [] = Unit
  IsNumbered n (e ∷ es) = (e.id ≡ n) × IsNumbered (suc n) es

  pub append-IsNumbered :
      (n : ℕ) (es : List (Event T D)) (e : Event T D)
      → IsNumbered n es
      → e.id ≡ n + length es
      → IsNumbered n (es ++ e ∷ [])
  append-IsNumbered n [] e h same = (omega arith, tt)
  append-IsNumbered n (x ∷ es) e h same = (h.0, append-IsNumbered (suc n) es e h.1 (omega arith))

  -- No event that is gone comes after the cursor.
  pub select-drop :
      (cursor n k : ℕ) (es : List (Event T D))
      → IsNumbered n es
      → n + k ≤ suc cursor
      → select (λ e. ltb cursor e.id) (drop k es) ≡ select (λ e. ltb cursor e.id) es
  select-drop cursor n zero es h b = refl
  select-drop cursor n (suc k) [] h b = refl
  select-drop cursor n (suc k) (e ∷ es) h b =
      select-drop cursor (suc n) k es h.1 (omega arith) ∙ (let same = h.0 in ground arith)

  select_all :
      (cursor n : ℕ) (es : List (Event T D))
      → IsNumbered n es
      → cursor < n
      → select (λ e. ltb cursor e.id) es ≡ es
  select_all cursor n [] h a = refl
  select_all cursor n (e ∷ es) h a =
      let same = h.0 in
      let rest = select_all cursor (suc n) es h.1 (omega arith) in ground (arith, rest)

  -- The events after a cursor that is not ahead are numbered from the next number on.
  pub select-IsNumbered :
      (cursor n : ℕ) (es : List (Event T D))
      → IsNumbered n es
      → n ≤ suc cursor
      → cursor < n + length es
      → IsNumbered (suc cursor) (select (λ e. ltb cursor e.id) es)
  select-IsNumbered cursor n [] h a b = tt
  select-IsNumbered cursor n (e ∷ es) h a b = elim (Bool-cases (n == suc cursor)) [
    | inl last ↦
        let at = (==_iff n (suc cursor)).0 last in
        subst (IsNumbered (suc cursor)) (sym (select_all cursor n (e ∷ es) h (omega arith)))
          (subst (λ m. IsNumbered m (e ∷ es)) at h)
    | inr more ↦
        let same = h.0 in
        let at_most : n ≤ cursor = ground arith in
        if_ind (IsNumbered (suc cursor)) (ltb cursor e.id) (λ ahead. absurd (ground arith))
          (λ _. select-IsNumbered cursor (suc n) es h.1 (omega arith) (omega arith))
  ]
