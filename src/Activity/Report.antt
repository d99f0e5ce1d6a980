-- ===== src/Activity/Report.antt =====
-- llmsvc/activity.py: `usage_report` from the rows that its query returns.
use llm_service_manager.Prelude.{ℕ, ◌+◌, String, Bool, not, ◌&&◌, ◌||◌, Option, List, [], ◌∷◌, map}
use llm_service_manager.Prelude.Tests.{ltb, ◌==◌, or_default, is_none, if◌then◌else◌}
use llm_service_manager.Prelude.Lists.{length, select}
use llm_service_manager.Prelude.Text.{Dict, lookup, insert, str_lt}
use llm_service_manager.Prelude.Sort.{sorted}
use llm_service_manager.Prelude.Result.{Result, ok, err}
use llm_service_manager.Activity.Source.{Reader, metadata_object, attribution}

-- The counter set of rows, breakdown rows and totals
pub record Counts : Type 0 where
  pub requests : ℕ
  pub errors : ℕ
  pub input_tokens : ℕ
  pub output_tokens : ℕ
  pub total_tokens : ℕ
  pub untracked_requests : ℕ
  pub duration_ms : ℕ

-- A row of the query; a sum over NULLs alone is none. Tokens are naturals, as the query counts those that
-- are not; so are durations. A row without a model, which makes the sort of the names raise a TypeError where
-- there are others, is not modelled.
pub record UsageRow : Type 0 where
  pub model : String
  pub metadata_json : Option String
  pub ts : ℕ
  pub requests : ℕ
  pub input_tokens : Option ℕ
  pub output_tokens : Option ℕ
  pub errors : Option ℕ
  pub untracked_requests : Option ℕ
  pub duration_ms : Option ℕ
  pub invalid_tokens : ℕ

pub data By : Type 0 where
  user model day : By

pub record Entry : Type 0 where
  pub kind : String
  pub counts : Counts

pub record Bucket : Type 0 where
  pub kind : String
  pub counts : Counts
  pub first_seen : ℕ
  pub last_seen : ℕ
  pub breakdown : Dict Entry

pub record Tally : Type 0 where
  pub primary : Dict Bucket
  pub totals : Counts

pub record SubRow : Type 0 where
  pub name : String
  pub kind : String
  pub counts : Counts

pub record ReportRow : Type 0 where
  pub name : String
  pub kind : String
  pub counts : Counts
  pub first_seen : ℕ
  pub last_seen : ℕ
  pub breakdown : List SubRow

-- The members that repeat the arguments are left out.
pub record UsageReport : Type 0 where
  pub map_source : String
  pub mapped_ips : ℕ
  pub rows : List ReportRow
  pub totals : Counts

-- `_empty_counts`
abbrev pub empty_counts : Counts
empty_counts = record {
  requests = 0;
  errors = 0;
  input_tokens = 0;
  output_tokens = 0;
  total_tokens = 0;
  untracked_requests = 0;
  duration_ms = 0;
}

-- `_accumulate`
abbrev pub accumulate : (target counts : Counts) → Counts
accumulate target counts = record {
  requests = target.requests + counts.requests;
  errors = target.errors + counts.errors;
  input_tokens = target.input_tokens + counts.input_tokens;
  output_tokens = target.output_tokens + counts.output_tokens;
  total_tokens = target.total_tokens + counts.total_tokens;
  untracked_requests = target.untracked_requests + counts.untracked_requests;
  duration_ms = target.duration_ms + counts.duration_ms;
}

abbrev pub counts_of : UsageRow → Counts
counts_of row = record {
  requests = row.requests;
  errors = or_default 0 row.errors;
  input_tokens = or_default 0 row.input_tokens;
  output_tokens = or_default 0 row.output_tokens;
  total_tokens = or_default 0 row.input_tokens + or_default 0 row.output_tokens;
  untracked_requests = or_default 0 row.untracked_requests;
  duration_ms = or_default 0 row.duration_ms;
}

abbrev pub smaller : ℕ → ℕ → ℕ
smaller x y = if ltb y x then y else x

abbrev pub larger : ℕ → ℕ → ℕ
larger x y = if ltb x y then y else x

-- The key of a row and of its place in the breakdown, each with its kind
pub record Keys : Type 0 where
  pub key : String
  pub kind : String
  pub other : String
  pub other_kind : String

unfoldable pub keys_of : Reader → By → (source : String × String) → UsageRow → Keys
keys_of a By.user source row = record {
  key = source.0;
  kind = source.1;
  other = row.model;
  other_kind = "model";
}
keys_of a By.model source row = record {
  key = row.model;
  kind = "model";
  other = source.0;
  other_kind = source.1;
}
keys_of a By.day source row = record {
  key = a.local_day row.ts;
  kind = "day";
  other = row.model;
  other_kind = "model";
}

abbrev pub fresh_bucket : (kind : String) → (seen : ℕ) → Bucket
fresh_bucket kind seen = record {
  kind = kind;
  counts = empty_counts;
  first_seen = seen;
  last_seen = seen;
  breakdown = [];
}

abbrev pub fresh_entry : (kind : String) → Entry
fresh_entry kind = record { kind = kind; counts = empty_counts }

abbrev pub counted_entry : Entry → Counts → Entry
counted_entry entry counts = record entry { counts = accumulate entry.counts counts }

abbrev pub counted : Bucket → Keys → Counts → (seen : ℕ) → Bucket
counted bucket keys counts seen = record bucket {
  counts = accumulate bucket.counts counts;
  first_seen = smaller bucket.first_seen seen;
  last_seen = larger bucket.last_seen seen;
  breakdown =
      insert keys.other
        (counted_entry
          (or_default (fresh_entry keys.other_kind) (lookup keys.other bucket.breakdown)) counts)
        bucket.breakdown;
}

unfoldable pub tally_row : Tally → Keys → Counts → (seen : ℕ) → Tally
tally_row t keys counts seen = record {
  primary =
      insert keys.key
        (counted (or_default (fresh_bucket keys.kind seen) (lookup keys.key t.primary)) keys counts
          seen)
        t.primary;
  totals = accumulate t.totals counts;
}

module _ (a : Reader) (by : By) (file_containers : Dict String) where
  abbrev pub row_keys : UsageRow → Keys
  row_keys row =
      let client_ip = lookup "client_ip" (metadata_object a row.metadata_json) in
      keys_of a by (attribution a file_containers client_ip) row

  -- The loop over the rows
  unfoldable pub tally_each : Tally → List UsageRow → Result Tally
  tally_each t [] = ok t
  tally_each t (row ∷ rows) =
      let rest = tally_each (tally_row t (row_keys row) (counts_of row) row.ts) rows in
      if not (row.invalid_tokens == 0) then err "parse" else rest

-- By the number of requests, most first, then by the name
abbrev pub busier : (x y : Counts) (name other : String) → Bool
busier x y name other = ltb y.requests x.requests || x.requests == y.requests && str_lt name other

abbrev pub sub_before : SubRow → SubRow → Bool
sub_before x y = busier x.counts y.counts x.name y.name

abbrev pub row_before : By → ReportRow → ReportRow → Bool
row_before By.day x y = str_lt x.name y.name
row_before By.user x y = busier x.counts y.counts x.name y.name
row_before By.model x y = busier x.counts y.counts x.name y.name

abbrev pub sub_row : String × Entry → SubRow
sub_row (name, entry) = record { name = name; kind = entry.kind; counts = entry.counts }

abbrev pub report_row : String × Bucket → ReportRow
report_row (name, bucket) = record {
  name = name;
  kind = bucket.kind;
  counts = bucket.counts;
  first_seen = bucket.first_seen;
  last_seen = bucket.last_seen;
  breakdown = sorted sub_before (map sub_row bucket.breakdown);
}

abbrev pub map_source : (configured file : Dict String) → String
map_source [] [] = "none"
map_source [] (_ ∷ _) = "file"
map_source (_ ∷ _) [] = "config"
map_source (_ ∷ _) (_ ∷ _) = "config+file"

-- The size of the union of the keys
abbrev pub mapped_ips : (configured file : Dict String) → ℕ
mapped_ips configured file =
    length configured
    + length (select (λ (e : String × String). is_none (lookup e.0 configured)) file)

abbrev pub report_of : Reader → By → (file_containers : Dict String) → Tally → UsageReport
report_of a by file_containers t = record {
  map_source = map_source a.ip_containers file_containers;
  mapped_ips = mapped_ips a.ip_containers file_containers;
  rows = sorted (row_before by) (map report_row t.primary);
  totals = t.totals;
}

abbrev pub no_tally : Tally
no_tally = record { primary = []; totals = empty_counts }

abbrev pub reported :
    Reader → By → (file_containers : Dict String) → Result Tally → Result UsageReport
reported a by file_containers (err reason) = err reason
reported a by file_containers (ok t) = ok (report_of a by file_containers t)

-- `_build_usage_report`
unfoldable pub build_usage_report :
    Reader → By → (file_containers : Dict String) → List UsageRow → Result UsageReport
build_usage_report a by file_containers rows =
    reported a by file_containers (tally_each a by file_containers no_tally rows)
