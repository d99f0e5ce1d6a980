-- ===== src/Store/Single.antt =====
-- llmsvc/store.py: the keys of the lease table. No two outstanding rows are for one model.
use llm_service_manager.Prelude.{
  String, ◌≡◌, refl, sym, subst, inl, inr, true, false, not, ◌&&◌, ◌||◌, some, List, [], ◌∷◌, ◌++◌,
  str_eq, eq_iff, arith,
}
use llm_service_manager.Prelude.Tests.{Bool-cases, if_ind}
use llm_service_manager.Prelude.Lists.{any, find?, All, All-append, All-map}
use llm_service_manager.Prelude.Result.{ok, guard, OnOk-bind, OnOk-eq}
use llm_service_manager.Store.Rows.{LeaseRow, is_outstanding, has_id, with_status, set_status}
use llm_service_manager.Store.Leases.{insert_row}
use llm_service_manager.Store.Table.{Apart, IsSingle}

module _ {N : Type 0} where
  append-IsSingle :
      (rows : List (LeaseRow N)) (row : LeaseRow N)
      → IsSingle rows
      → All (λ r. Apart r row) rows
      → IsSingle (rows ++ row ∷ [])
  append-IsSingle [] row h k = (tt, tt)
  append-IsSingle (r ∷ rows) row h k =
      (All-append (Apart r) rows (row ∷ []) h.0 (k.0, tt), append-IsSingle rows row h.1 k.1)

  Apart-of_keys :
      (row r : LeaseRow N)
      → has_id row.lease.lease_id r ≡ false
      → (is_outstanding row ≡ true
          → (is_outstanding r && str_eq r.lease.model row.lease.model) ≡ false)
      → Apart r row
  Apart-of_keys row r other free = record {
    ids = λ e. ground (arith, eq_iff r.lease.lease_id row.lease.lease_id);
    models = λ a b e. ground (arith, eq_iff r.lease.model row.lease.model, free b);
  }

  all-Apart :
      (row : LeaseRow N) (rows : List (LeaseRow N))
      → any (has_id row.lease.lease_id) rows ≡ false
      → (is_outstanding row ≡ true
          → any (λ r. is_outstanding r && str_eq r.lease.model row.lease.model) rows ≡ false)
      → All (λ r. Apart r row) rows
  all-Apart row [] other free = tt
  all-Apart row (r ∷ rows) other free = (
    Apart-of_keys row r (ground arith) (λ o. let f = free o in ground arith),
    all-Apart row rows (ground arith) (λ o. let f = free o in ground arith),
  )

  -- What the table holds after an insert
  pub insert_row-IsSingle :
      (rows : List (LeaseRow N)) (row : LeaseRow N) (rows' : List (LeaseRow N))
      → insert_row rows row ≡ ok rows'
      → IsSingle rows
      → (rows' ≡ rows ++ row ∷ []) × IsSingle rows'
  unfolding insert_row
  insert_row-IsSingle rows row rows' e h =
      OnOk-eq (λ (out : List (LeaseRow N)). (out ≡ rows ++ row ∷ []) × IsSingle out) _ rows'
        (OnOk-bind (λ (out : List (LeaseRow N)). (out ≡ rows ++ row ∷ []) × IsSingle out)
          (guard (not (any (has_id row.lease.lease_id) rows)) _) _
          (λ _ g.
            OnOk-bind (λ (out : List (LeaseRow N)). (out ≡ rows ++ row ∷ []) × IsSingle out)
              (guard
                (not (is_outstanding row)
                  || not (any (λ r. is_outstanding r && str_eq r.lease.model row.lease.model) rows))
                _)
              _
              (λ _ k. (
                refl,
                append-IsSingle rows row h (all-Apart row rows (ground arith) (λ o. ground arith)),
              ))))
        e

  module _ (id status : String) where
    -- The write makes no row outstanding that was not.
    abbrev Tame : LeaseRow N → Type 0
    Tame r = is_outstanding (with_status id status r) ≡ true → is_outstanding r ≡ true

    with_status-Apart :
        (a b : LeaseRow N)
        → Tame a
        → Tame b
        → Apart a b
        → Apart (with_status id status a) (with_status id status b)
    with_status-Apart a b s t h = record {
      ids = λ e. h.ids (ground arith);
      models = λ x y e. h.models (s x) (t y) (ground arith);
    }

    all_with_status :
        (r : LeaseRow N) (rows : List (LeaseRow N))
        → Tame r
        → All Tame rows
        → All (Apart r) rows
        → All (Apart (with_status id status r)) (set_status id status rows)
    unfolding set_status
    all_with_status r [] s t h = tt
    all_with_status r (q ∷ rows) s t h =
        (with_status-Apart r q s t.0 h.0, all_with_status r rows s t.1 h.1)

    set_status-IsSingle :
        (rows : List (LeaseRow N))
        → All Tame rows
        → IsSingle rows
        → IsSingle (set_status id status rows)
    unfolding set_status
    set_status-IsSingle [] t h = tt
    set_status-IsSingle (r ∷ rows) t h =
        (all_with_status r rows t.0 t.1 h.0, set_status-IsSingle rows t.1 h.1)

    -- The row with the id is the one that is found.
    Tame-found :
        (row : LeaseRow N) (rows : List (LeaseRow N))
        → find? (has_id id) rows ≡ some row
        → IsSingle rows
        → is_outstanding row ≡ true
        → All Tame rows
    Tame-found row [] e h o = tt
    Tame-found row (r ∷ rows) e h o = elim (Bool-cases (has_id id r)) [
      | inr miss ↦ (λ t. ground arith, Tame-found row rows (ground arith) h.1 o)
      | inl hit ↦
          let same : r ≡ row = ground arith in
          (
            (λ _. subst (λ (x : LeaseRow N). is_outstanding x ≡ true) (sym same) o),
            All-map (Apart r) Tame rows
                (λ q apart. λ t.
                  ground (arith, eq_iff r.lease.lease_id id, eq_iff q.lease.lease_id id, apart.ids))
                h.0,
          )
    ]

    pub move-IsSingle :
        (row : LeaseRow N) (rows : List (LeaseRow N))
        → find? (has_id id) rows ≡ some row
        → is_outstanding row ≡ true
        → IsSingle rows
        → IsSingle (set_status id status rows)
    move-IsSingle row rows e o h = set_status-IsSingle rows (Tame-found row rows e h o) h

  Tame-release : (id : String) (rows : List (LeaseRow N)) → All (Tame id "released") rows
  Tame-release id [] = tt
  Tame-release id (r ∷ rows) = (
    if_ind (λ (x : LeaseRow N). is_outstanding x ≡ true → is_outstanding r ≡ true) (has_id id r)
        (λ _ t. absurd cc) (λ _ t. t),
    Tame-release id rows,
  )

  pub release-IsSingle :
      (id : String) (rows : List (LeaseRow N))
      → IsSingle rows
      → IsSingle (set_status id "released" rows)
  release-IsSingle id rows h = set_status-IsSingle id "released" rows (Tame-release id rows) h
