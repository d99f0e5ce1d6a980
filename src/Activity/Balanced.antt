-- ===== src/Activity/Balanced.antt =====
-- llmsvc/activity.py: the counters of a usage report add up.
use llm_service_manager.Prelude.{
  ℕ, ◌+◌, ◌≤◌, String, ◌≡◌, refl, sym, ap, ◌∙◌, ◌⊎◌, inl, inr, Bool, true, false, not, List, [],
  ◌∷◌, map, arith,
}
use llm_service_manager.Prelude.Tests.{◌==◌, if_ind}
use llm_service_manager.Prelude.Lists.{any, All}
use llm_service_manager.Prelude.Text.{Dict, values}
use llm_service_manager.Prelude.Sort.{All-sorted}
use llm_service_manager.Prelude.Result.{Result, ok, err}
use llm_service_manager.Activity.Source.{Reader}
use llm_service_manager.Activity.Report.{
  UsageRow, By, Entry, Bucket, Tally, SubRow, ReportRow, UsageReport, counts_of, tally_row,
  row_keys, tally_each, sub_before, row_before, sub_row, report_row, report_of, no_tally, reported,
  build_usage_report,
}
use llm_service_manager.Activity.Sums.{sum_by, sum_by-sorted}
use llm_service_manager.Activity.Tallied.{
  Counter, count, count-empty_counts, of_entry, of_bucket, IsFair, IsTallied, tally_row-IsTallied,
}

abbrev pub is_invalid : UsageRow → Bool
is_invalid row = not (row.invalid_tokens == 0)

-- What the rows count
abbrev pub rows_count : List UsageRow → Counter → ℕ
rows_count rows c = sum_by (λ row. count c (counts_of row)) rows

-- A row of a report counts what its breakdown counts.
pub record IsFairRow (r : ReportRow) : Type 0 where
  pub broken_down :
      (c : Counter) → count c r.counts ≡ sum_by (λ (s : SubRow). count c s.counts) r.breakdown
  pub seen_in_order : r.first_seen ≤ r.last_seen

pub record IsBalanced (rows : List UsageRow) (r : UsageReport) : Type 0 where
  pub by_report_row :
      (c : Counter) → count c r.totals ≡ sum_by (λ (x : ReportRow). count c x.counts) r.rows
  pub by_usage_row : (c : Counter) → count c r.totals ≡ rows_count rows c
  pub fair : All IsFairRow r.rows

sum_by-sub_row :
    (c : Counter) (d : Dict Entry)
    → sum_by (λ (s : SubRow). count c s.counts) (map sub_row d) ≡ sum_by (of_entry c) (values d)
sum_by-sub_row c [] = refl
sum_by-sub_row c ((name, e) ∷ d) = omega (arith, sum_by-sub_row c d)

sum_by-report_row :
    (c : Counter) (d : Dict Bucket)
    → sum_by (λ (r : ReportRow). count c r.counts) (map report_row d)
      ≡ sum_by (of_bucket c) (values d)
sum_by-report_row c [] = refl
sum_by-report_row c ((name, b) ∷ d) = omega (arith, sum_by-report_row c d)

report_row-IsFairRow : (name : String) (b : Bucket) → IsFair b → IsFairRow (report_row (name, b))
report_row-IsFairRow name b h = record {
  broken_down = λ c.
      h.broken_down c
      ∙ sym (sum_by-sub_row c b.breakdown)
      ∙ sym (sum_by-sorted (λ (s : SubRow). count c s.counts) sub_before (map sub_row b.breakdown));
  seen_in_order = h.seen_in_order;
}

all-IsFairRow : (d : Dict Bucket) → All IsFair (values d) → All IsFairRow (map report_row d)
all-IsFairRow [] h = tt
all-IsFairRow ((name, b) ∷ d) h = (report_row-IsFairRow name b h.0, all-IsFairRow d h.1)

module _ (a : Reader) (by : By) (file_containers : Dict String) where
  abbrev Read : (read : Counter → ℕ) → List UsageRow → Result Tally → Type 0
  Read read rows found =
      ((t : Tally) × (found ≡ ok t)
        × (any is_invalid rows ≡ false)
        × IsTallied (λ c. read c + rows_count rows c) t)
      ⊎ ((found ≡ err "parse") × (any is_invalid rows ≡ true))

  retally :
      (read read' : Counter → ℕ) (t : Tally)
      → ((c : Counter) → read c ≡ read' c)
      → IsTallied read t
      → IsTallied read' t
  retally read read' t e h = record {
    by_bucket = h.by_bucket;
    by_row = λ c. h.by_row c ∙ e c;
    fair = h.fair;
  }

  tally_each-Read :
      (read : Counter → ℕ) (t : Tally) (rows : List UsageRow)
      → IsTallied read t
      → Read read rows (tally_each a by file_containers t rows)
  unfolding tally_each
  tally_each-Read read t [] h =
      inl (t, refl, refl, retally read (λ c. read c + 0) t (λ c. omega arith) h)
  tally_each-Read read t (row ∷ rows) h =
      let next = tally_row t (row_keys a by file_containers row) (counts_of row) row.ts in
      let read' : Counter → ℕ = λ c. read c + count c (counts_of row) in
      let rest = tally_each-Read read' next rows (tally_row-IsTallied read t _ _ _ h) in
      if_ind (Read read (row ∷ rows)) (is_invalid row) (λ bad. inr (refl, ground (arith, bad)))
        (λ good. elim rest [
          | inl (done, e, valid, tallied) ↦
              inl
                (done, e, ground (arith, good, valid), retally _ _ done (λ c. omega arith) tallied)
          | inr (e, bad) ↦ inr (e, ground (arith, bad))
        ])

  report_of-IsBalanced :
      (rows : List UsageRow) (t : Tally)
      → IsTallied (λ c. 0 + rows_count rows c) t
      → IsBalanced rows (report_of a by file_containers t)
  report_of-IsBalanced rows t h = record {
    by_report_row = λ c.
        h.by_bucket c
        ∙ sym (sum_by-report_row c t.primary)
        ∙ sym (
            sum_by-sorted (λ (r : ReportRow). count c r.counts) (row_before by)
              (map report_row t.primary));
    by_usage_row = λ c. omega (arith, h.by_row c);
    fair = All-sorted IsFairRow (row_before by) _ (all-IsFairRow t.primary h.fair);
  }

  -- A report is built unless a row has tokens that are invalid, when the error is `parse`. In a report each
  -- counter of the totals is the sum over the rows of the query and the sum over the rows of the report; a
  -- row of the report counts the sum of its breakdown, and was first seen no later than it was last seen.
  pub build_usage_report-IsBalanced :
      (rows : List UsageRow)
      → ((r : UsageReport) × (build_usage_report a by file_containers rows ≡ ok r)
          × (any is_invalid rows ≡ false)
          × IsBalanced rows r)
        ⊎ ((build_usage_report a by file_containers rows ≡ err "parse")
            × (any is_invalid rows ≡ true))
  unfolding build_usage_report
  build_usage_report-IsBalanced rows =
      let start : IsTallied (λ _. 0) no_tally = record {
        by_bucket = count-empty_counts;
        by_row = count-empty_counts;
        fair = tt;
      } in
      elim (tally_each-Read (λ _. 0) no_tally rows start) [
        | inl (t, e, valid, tallied) ↦ inl (
          report_of a by file_containers t,
          ap (reported a by file_containers) e,
          valid,
          report_of-IsBalanced rows t tallied,
        )
        | inr (e, bad) ↦ inr (ap (reported a by file_containers) e, bad)
      ]
