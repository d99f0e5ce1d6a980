-- ===== src/Activity/Exact.antt =====
-- llmsvc/activity.py: what `read` answers about each model, in terms of all rows.
use llm_service_manager.Prelude.{
  ℕ, ◌+◌, ◌≤◌, ◌<◌, String, ◌≡◌, refl, sym, ap, ◌∙◌, subst, inl, inr, Bool, true, false, ◌&&◌,
  Option, none, some, List, [], ◌∷◌, Memᴰ, arith,
}
use llm_service_manager.Prelude.Tests.{Option-cases, leb, ==_iff, or_default}
use llm_service_manager.Prelude.Lists.{All, All-map, select}
use llm_service_manager.Activity.Source.{Reader}
use llm_service_manager.Activity.Summary.{ActivityRow, of_model, until, since, summary_of}
use llm_service_manager.Activity.Read.{
  get, at_time, origin, source_from_row, Reading, reading, no_origin, Database, has_columns, read,
}
use llm_service_manager.Activity.Cover.{last_of, last_of-any, newest-found}
use llm_service_manager.Activity.Grouped.{origin_of, grouped, read-grouped}
use llm_service_manager.Activity.Newest.{
  count, max_ts-none, max_ts-last, max_ts-until, newest-IsBound, length-select,
}

-- A row of the model in the last seconds
abbrev pub within : (m : Option String) (now seconds : ℕ) → ActivityRow → Bool
within m now seconds x = of_model m x && leb x.ts_created now && leb now (x.ts_created + seconds)

-- What an entry says of the rows: `newest` is the row that it stands for.
pub record IsEntryOf (a : Reader) (columns : List String) (rows : List ActivityRow) (now : ℕ)
    (m : Option String) (r : Reading) : Type 0 where
  pub newest : ActivityRow
  pub is_row : Memᴰ newest rows
  pub of_the_model : of_model m newest ≡ true
  pub at_last_use : newest.ts_created ≡ r.last_used
  pub not_later : r.last_used ≤ now
  pub is_last :
      All
        (λ (x : ActivityRow). of_model m x ≡ true → x.ts_created ≤ now → x.ts_created ≤ r.last_used)
        rows
  pub is_newest :
      All
        (λ (x : ActivityRow). of_model m x ≡ true → x.ts_created ≡ r.last_used → x.id ≤ newest.id)
        rows
  pub in_hour : r.requests_last_hour ≡ count (within m now 3600) rows
  pub in_10m : r.requests_last_10m ≡ count (within m now 600) rows
  pub from_source : (r.source_ip, r.source_container) ≡ source_from_row a (origin columns newest)

-- No entry where the model has no row up to now
abbrev pub IsExact :
    Reader
    → (columns : List String) (rows : List ActivityRow) (now : ℕ) (m : Option String)
    → Option Reading
    → Type 0
IsExact a columns rows now m none =
    All (λ (x : ActivityRow). of_model m x ≡ true → now < x.ts_created) rows
IsExact a columns rows now m (some r) = IsEntryOf a columns rows now m r

-- The rows of the last hour, and those of them of the last 10 minutes
count-within :
    (rows : List ActivityRow) (now seconds : ℕ) (m : Option String)
    → count (λ r. of_model m r && since now seconds r && until now r) rows
      ≡ count (within m now seconds) rows
count-within [] now seconds m = refl
count-within (x ∷ xs) now seconds m = ground (arith, count-within xs now seconds m)

count-nested :
    (rows : List ActivityRow) (now : ℕ) (m : Option String)
    → count (since now 600) (select (λ r. of_model m r && since now 3600 r && until now r) rows)
      ≡ count (within m now 600) rows
count-nested [] now m = refl
count-nested (x ∷ xs) now m = ground (arith, count-nested xs now m)

module _ (a : Reader) (columns : List String) (rows : List ActivityRow) (now : ℕ) where
  -- What `grouped` makes of the time of a model
  abbrev entry_at : Option String → ℕ → Reading
  entry_at m t =
      reading a (or_default no_origin (origin_of columns rows now m t)) (summary_of rows now m t)

  abbrev entry_of : Option String → Option ℕ → Option Reading
  entry_of m o = elim o [ none ↦ none | some t ↦ some (entry_at m t) ]

  entry_at-IsEntryOf :
      (m : Option String) (t : ℕ)
      → last_of rows now m ≡ some t
      → IsEntryOf a columns rows now m (entry_at m t)
  entry_at-IsEntryOf m t n =
      let p : ActivityRow → Bool = λ r. of_model m r && until now r in
      let (row, found) = newest-found (at_time m t) rows (last_of-any rows now m t n) in
      let (there, passes, bound) = newest-IsBound (at_time m t) rows row found in
      let source : source_from_row a (or_default no_origin (origin_of columns rows now m t))
          ≡ source_from_row a (origin columns row) =
        ap
          (λ o.
            source_from_row a
              (or_default no_origin (elim o [ none ↦ none | some r ↦ some (origin columns r) ])))
          found in
      record {
        newest = row;
        is_row = there;
        of_the_model = ground (arith, passes);
        at_last_use = ground (arith, passes, ==_iff row.ts_created t);
        not_later = max_ts-until p rows now t (λ x h. ground (arith, h)) n;
        is_last =
            All-map (λ (x : ActivityRow). p x ≡ true → x.ts_created ≤ t)
              (λ (x : ActivityRow). of_model m x ≡ true → x.ts_created ≤ now → x.ts_created ≤ t)
              rows (λ x h of in_time. h (ground (arith, of, in_time))) (max_ts-last p rows t n);
        is_newest =
            All-map (λ (x : ActivityRow). at_time m t x ≡ true → x.id ≤ row.id)
              (λ (x : ActivityRow). of_model m x ≡ true → x.ts_created ≡ t → x.id ≤ row.id) rows
              (λ x h of at. h (ground (arith, of, ==_iff x.ts_created t, at))) bound;
        in_hour =
            length-select (λ r. of_model m r && since now 3600 r && until now r) rows
            ∙ count-within rows now 3600 m;
        in_10m =
            length-select (since now 600)
              (select (λ r. of_model m r && since now 3600 r && until now r) rows)
            ∙ count-nested rows now m;
        from_source = source;
      }

  grouped-IsExact :
      (m : Option String) → IsExact a columns rows now m (grouped a columns rows now m)
  unfolding grouped
  grouped-IsExact m =
      let p : ActivityRow → Bool = λ r. of_model m r && until now r in
      elim (Option-cases (last_of rows now m)) [
        | inl n ↦
            subst (λ o. IsExact a columns rows now m (entry_of m o)) (sym n)
              (All-map (λ (x : ActivityRow). p x ≡ false)
                (λ (x : ActivityRow). of_model m x ≡ true → now < x.ts_created) rows
                (λ x hidden shown. ground (arith, hidden, shown)) (max_ts-none p rows n))
        | inr (t, n) ↦
            subst (λ o. IsExact a columns rows now m (entry_of m o)) (sym n)
              (entry_at-IsEntryOf m t n)
      ]

-- When the clock is finite, the table has its columns, and the queries answer in time, a read fails for no
-- rows. It has no entry for a model without a row up to now; else the entry has the time of the last row of the
-- model up to now, the numbers of its rows of the last hour and the last 10 minutes up to now, and the source
-- that the row with the greatest number of those of that time gives.
pub read-IsExact :
    (a : Reader) (db : Database) (now : ℕ) (columns : List String) (rows : List ActivityRow)
    → db.now ≡ some now
    → db.columns ≡ inr columns
    → has_columns columns ≡ true
    → db.rows ≡ inr rows
    → db.deadline_expired ≡ false
    → ((read a db).last_error_code ≡ none)
      × ((m : Option String) → IsExact a columns rows now m (get m (read a db).result))
read-IsExact a db now columns rows at_now known has_all there in_time =
    let (fine, entries) = read-grouped a db now columns rows at_now known has_all there in_time in
    (
      fine,
      λ m.
          subst (IsExact a columns rows now m) (sym (entries m))
            (grouped-IsExact a columns rows now m),
    )
