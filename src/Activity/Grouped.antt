-- ===== src/Activity/Grouped.antt =====
-- llmsvc/activity.py: `read` answers for each model as one pass that groups all rows by their model would.
use llm_service_manager.Prelude.{
  ℕ, String, ◌≡◌, refl, sym, ap, ◌∙◌, inl, inr, true, false, Option, none, some, List, [], ◌∷◌,
  arith,
}
use llm_service_manager.Prelude.Tests.{Bool-cases, Option-cases, is_some, or_default, if◌then◌else◌}
use llm_service_manager.Prelude.Lists.{any, All, All-map}
use llm_service_manager.Prelude.Text.{opt_str_eq}
use llm_service_manager.Activity.Source.{Reader}
use llm_service_manager.Activity.Summary.{
  ActivityRow, Summary, summary_of, listed_models, summary_rows,
}
use llm_service_manager.Activity.Read.{
  ByModel, get, put, Origin, at_time, latest, origin, latest_by_model, Reading, reading, no_origin,
  readings, Database, has_columns, read_rows, Answer, read,
}
use llm_service_manager.Activity.Cover.{
  opt_eq, get-put, newest-found, last_of, IsOf, of_key, summaries-IsOf, last_of-any,
  summary_rows-cover,
}

module _ (columns : List String) (rows : List ActivityRow) (now : ℕ) where
  -- Where the newest request of a model's last second came from
  abbrev pub origin_of : (model_id : Option String) (ts : ℕ) → Option Origin
  origin_of m t = elim (latest rows m t) [ none ↦ none | some row ↦ some (origin columns row) ]

  origin_at : (model_id : Option String) → Option Origin
  origin_at m = elim (last_of rows now m) [ none ↦ none | some t ↦ origin_of m t ]

  origin_of-some :
      (m : Option String) (t : ℕ)
      → last_of rows now m ≡ some t
      → (row : ActivityRow) × (latest rows m t ≡ some row)
  origin_of-some m t e = newest-found (at_time m t) rows (last_of-any rows now m t e)

  -- The table of origins has the origin of every model of the summaries.
  Has : List Summary → ByModel Origin → ByModel Origin → Type 0
  Has ss d found =
      (j : Option String)
      → get j found ≡ (if any (of_key rows now j) ss then origin_at j else get j d)

  latest_by_model-Has :
      (ss : List Summary) (d : ByModel Origin)
      → All (IsOf rows now) ss
      → (found : ByModel Origin) × (latest_by_model columns rows ss d ≡ some found) × Has ss d found
  unfolding latest_by_model Has origin_at
  latest_by_model-Has [] d h = (d, refl, λ j. refl)
  latest_by_model-Has (s ∷ ss) d ((last, _), h) =
      let (row, n) = origin_of-some s.model_id s.last_used last in
      let (found, e, has) = latest_by_model-Has ss (put s.model_id (origin columns row) d) h in
      (
        found,
        ground (arith, n, e),
        λ j. elim (Bool-cases (opt_str_eq s.model_id j)) [
          | inr f ↦ ground (arith, has j, get-put s.model_id j (origin columns row) d, f)
          | inl f ↦
              let same = opt_eq s.model_id j f in
              let there : origin_at s.model_id ≡ some (origin columns row) =
                ground (arith, last, n) in
              let there' : origin_at j ≡ some (origin columns row) =
                sym (ap origin_at same) ∙ there in
              ground (arith, has j, get-put s.model_id j (origin columns row) d, f, there')
        ],
      )

module _ (a : Reader) (columns : List String) (rows : List ActivityRow) (now : ℕ) where
  -- The entry of a model, in one pass over all rows
  unfoldable pub grouped : (model_id : Option String) → Option Reading
  grouped m = elim (last_of rows now m) [
    | none ↦ none
    | some t ↦ some (
        reading a (or_default no_origin (origin_of columns rows now m t)) (summary_of rows now m t))
  ]

  IsEntry : ByModel Origin → Summary → Type 0
  IsEntry found s =
      grouped s.model_id ≡ some (reading a (or_default no_origin (get s.model_id found)) s)

  readings-has :
      (found : ByModel Origin) (ss : List Summary) (d : ByModel Reading)
      → All (IsEntry found) ss
      → (j : Option String)
      → get j (readings a found ss d) ≡ (if any (of_key rows now j) ss then grouped j else get j d)
  unfolding readings IsEntry
  readings-has found [] d h j = refl
  readings-has found (s ∷ ss) d (entry, h) j =
      let value = reading a (or_default no_origin (get s.model_id found)) s in
      let rest = readings-has found ss (put s.model_id value d) h j in
      let written = get-put s.model_id j value d in
      elim (Bool-cases (opt_str_eq s.model_id j)) [
        | inr f ↦ ground (arith, rest, written, f)
        | inl f ↦
            let there : grouped j ≡ some value = sym (ap grouped (opt_eq s.model_id j f)) ∙ entry in
            ground (arith, rest, written, f, there)
      ]

  Has-IsEntry :
      (found : ByModel Origin) (s : Summary)
      → Has columns rows now (summary_rows rows now) [] found
      → IsOf rows now s
      → IsEntry found s
  unfolding IsEntry Has grouped origin_at get
  Has-IsEntry found s has (last, same) =
      let there : any (of_key rows now s.model_id) (summary_rows rows now) ≡ true =
        summary_rows-cover rows now s.model_id ∙ ap is_some last in
      let value : get s.model_id found ≡ origin_of columns rows now s.model_id s.last_used =
        ground (arith, has s.model_id, there, last) in
      ap
        (λ o. elim o [
          | none ↦ none
          | some t ↦ some (
              reading a (or_default no_origin (origin_of columns rows now s.model_id t))
                (summary_of rows now s.model_id t))
        ])
        last
      ∙ ap
          (λ o.
            some (reading a (or_default no_origin o) (summary_of rows now s.model_id s.last_used)))
          (sym value)
      ∙ ap (λ t. some (reading a (or_default no_origin (get s.model_id found)) t)) (sym same)

  grouped-covered :
      (m : Option String)
      → (if any (of_key rows now m) (summary_rows rows now) then grouped m else none) ≡ grouped m
  unfolding grouped
  grouped-covered m = elim (Option-cases (last_of rows now m)) [
    | inl n ↦ ground (arith, n, summary_rows-cover rows now m)
    | inr (t, n) ↦ ground (arith, n, summary_rows-cover rows now m)
  ]

  -- Reading the rows of one snapshot does not fail.
  read_rows-grouped :
      (result : ByModel Reading) × (read_rows a columns rows now ≡ inr result)
      × ((m : Option String) → get m result ≡ grouped m)
  unfolding read_rows get
  read_rows-grouped =
      let ss = summary_rows rows now in
      let known = summaries-IsOf rows now (listed_models rows) in
      let (found, e, has) = latest_by_model-Has columns rows now ss [] known in
      (
        readings a found ss [],
        ground (arith, e),
        λ m.
            readings-has found ss []
              (All-map (IsOf rows now) (IsEntry found) ss (λ s h. Has-IsEntry found s has h) known)
              m
            ∙ grouped-covered m,
      )

-- When the clock is finite, the table has its columns, and the queries answer in time, a read fails for no
-- rows, and has for each model exactly the entry that one pass over all rows gives: none where the model has no
-- row up to now, else the last time, the counts, and the source of the newest row of that time.
pub read-grouped :
    (a : Reader) (db : Database) (now : ℕ) (columns : List String) (rows : List ActivityRow)
    → db.now ≡ some now
    → db.columns ≡ inr columns
    → has_columns columns ≡ true
    → db.rows ≡ inr rows
    → db.deadline_expired ≡ false
    → ((read a db).last_error_code ≡ none)
      × ((m : Option String) → get m (read a db).result ≡ grouped a columns rows now m)
unfolding read
read-grouped a db now columns rows at_now known has_all there in_time =
    let (result, e, entries) = read_rows-grouped a columns rows now in
    let out : read a db ≡ record { result = result; last_error_code = none } =
      ground (arith, at_now, known, has_all, there, in_time, e) in
    (
      ap (λ (o : Answer). o.last_error_code) out,
      λ m. ap (λ (o : Answer). get m o.result) out ∙ entries m,
    )
