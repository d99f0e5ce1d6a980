-- ===== src/Activity/Tallied.antt =====
-- llmsvc/activity.py: what the loop of a usage report keeps true of its counters.
use llm_service_manager.Prelude.{ℕ, ◌+◌, ◌≤◌, String, ◌≡◌, refl, inl, inr, [], ◌∷◌, arith}
use llm_service_manager.Prelude.Tests.{or_default, Option-cases}
use llm_service_manager.Prelude.Lists.{All}
use llm_service_manager.Prelude.Text.{Dict, lookup, insert, values, All-insert}
use llm_service_manager.Activity.Report.{
  Counts, Entry, Bucket, Tally, Keys, empty_counts, accumulate, fresh_bucket, fresh_entry,
  counted_entry, counted, tally_row, smaller, larger,
}
use llm_service_manager.Activity.Sums.{sum_by, sum_by-insert_over, sum_by-insert_behind}

-- The names of `USAGE_REPORT_COUNTS`
pub data Counter : Type 0 where
  requests errors input_tokens output_tokens total_tokens untracked_requests duration_ms : Counter

abbrev pub count : Counter → Counts → ℕ
count Counter.requests counts = counts.requests
count Counter.errors counts = counts.errors
count Counter.input_tokens counts = counts.input_tokens
count Counter.output_tokens counts = counts.output_tokens
count Counter.total_tokens counts = counts.total_tokens
count Counter.untracked_requests counts = counts.untracked_requests
count Counter.duration_ms counts = counts.duration_ms

count-accumulate :
    (c : Counter) (target counts : Counts)
    → count c (accumulate target counts) ≡ count c target + count c counts
count-accumulate Counter.requests target counts = refl
count-accumulate Counter.errors target counts = refl
count-accumulate Counter.input_tokens target counts = refl
count-accumulate Counter.output_tokens target counts = refl
count-accumulate Counter.total_tokens target counts = refl
count-accumulate Counter.untracked_requests target counts = refl
count-accumulate Counter.duration_ms target counts = refl

pub count-empty_counts : (c : Counter) → count c empty_counts ≡ 0
count-empty_counts Counter.requests = refl
count-empty_counts Counter.errors = refl
count-empty_counts Counter.input_tokens = refl
count-empty_counts Counter.output_tokens = refl
count-empty_counts Counter.total_tokens = refl
count-empty_counts Counter.untracked_requests = refl
count-empty_counts Counter.duration_ms = refl

module _ {V : Type 0} where
  -- A dictionary whose value at a key grows by `gain`, from a fresh value that counts nothing
  sum_by-grow :
      (g : V → ℕ) (k : String) (fresh : V) (grow : V → V) (gain : ℕ) (d : Dict V)
      → g fresh ≡ 0
      → ((v : V) → g (grow v) ≡ g v + gain)
      → sum_by g (values (insert k (grow (or_default fresh (lookup k d))) d))
        ≡ sum_by g (values d) + gain
  sum_by-grow g k fresh grow gain d empty grows = elim (Option-cases (lookup k d)) [
    | inl e ↦ rw e (omega (arith, sum_by-insert_behind g k (grow fresh) d e, grows fresh, empty))
    | inr (v, e) ↦ rw e (omega (arith, sum_by-insert_over g k v (grow v) d e, grows v))
  ]

  lookup-All :
      (P : V → Type 0) (k : String) (fresh : V) (d : Dict V)
      → P fresh
      → All P (values d)
      → P (or_default fresh (lookup k d))
  unfolding lookup
  lookup-All P k fresh [] p h = p
  lookup-All P k fresh ((j, v) ∷ d) p h = ground (arith, lookup-All P k fresh d p)

abbrev pub of_entry : Counter → Entry → ℕ
of_entry c e = count c e.counts

abbrev pub of_bucket : Counter → Bucket → ℕ
of_bucket c b = count c b.counts

-- A bucket counts what its breakdown counts, and was first seen no later than last seen.
pub record IsFair (b : Bucket) : Type 0 where
  pub broken_down : (c : Counter) → of_bucket c b ≡ sum_by (of_entry c) (values b.breakdown)
  pub seen_in_order : b.first_seen ≤ b.last_seen

fresh_bucket-IsFair : (kind : String) (seen : ℕ) → IsFair (fresh_bucket kind seen)
fresh_bucket-IsFair kind seen = record {
  broken_down = count-empty_counts;
  seen_in_order = omega arith;
}

ordered : (x y seen : ℕ) → x ≤ y → smaller x seen ≤ larger y seen
ordered x y seen h = ground arith

counted-IsFair :
    (b : Bucket) (keys : Keys) (counts : Counts) (seen : ℕ)
    → IsFair b
    → IsFair (counted b keys counts seen)
counted-IsFair b keys counts seen h = record {
  broken_down = λ c. omega (
    arith,
    count-accumulate c b.counts counts,
    h.broken_down c,
    sum_by-grow (of_entry c) keys.other (fresh_entry keys.other_kind) (λ e. counted_entry e counts)
        (count c counts) b.breakdown (count-empty_counts c)
        (λ e. count-accumulate c e.counts counts),
  );
  seen_in_order = ordered b.first_seen b.last_seen seen h.seen_in_order;
}

-- The totals are the sums over the buckets and over the rows that were read.
pub record IsTallied (read : Counter → ℕ) (t : Tally) : Type 0 where
  pub by_bucket : (c : Counter) → count c t.totals ≡ sum_by (of_bucket c) (values t.primary)
  pub by_row : (c : Counter) → count c t.totals ≡ read c
  pub fair : All IsFair (values t.primary)

pub tally_row-IsTallied :
    (read : Counter → ℕ) (t : Tally) (keys : Keys) (counts : Counts) (seen : ℕ)
    → IsTallied read t
    → IsTallied (λ c. read c + count c counts) (tally_row t keys counts seen)
unfolding tally_row
tally_row-IsTallied read t keys counts seen h = record {
  by_bucket = λ c. omega (
    arith,
    count-accumulate c t.totals counts,
    h.by_bucket c,
    sum_by-grow (of_bucket c) keys.key (fresh_bucket keys.kind seen)
        (λ b. counted b keys counts seen) (count c counts) t.primary (count-empty_counts c)
        (λ b. count-accumulate c b.counts counts),
  );
  by_row = λ c. omega (arith, count-accumulate c t.totals counts, h.by_row c);
  fair =
      All-insert IsFair keys.key _ t.primary
        (counted-IsFair _ keys counts seen (
          lookup-All IsFair keys.key (fresh_bucket keys.kind seen) t.primary
            (fresh_bucket-IsFair keys.kind seen) h.fair))
        h.fair;
}
