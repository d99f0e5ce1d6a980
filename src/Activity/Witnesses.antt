-- ===== src/Activity/Witnesses.antt =====
-- A usage report of two users, and the reasons of failures.
use llm_service_manager.Prelude.{
  ℕ, String, ◌≡◌, refl, ◌⊎◌, inr, true, false, Option, none, some, List, [], ◌∷◌, map,
}
use llm_service_manager.Prelude.Lists.{any}
use llm_service_manager.Prelude.Text.{
  lookup, insert, is_blank, lstrip, rstrip, contains, starts_with,
}
use llm_service_manager.Prelude.Sort.{insert_sorted, sorted}
use llm_service_manager.Prelude.Result.{ok, err}
use llm_service_manager.Activity.Errors.{
  Failure, activity_error_reason, error_reasons, activity_error_reason-IsKnown,
}
use llm_service_manager.Activity.Source.{Reader, canonical_ip, metadata_object, attribution}
use llm_service_manager.Activity.Report.{
  UsageRow, By, UsageReport, ReportRow, keys_of, tally_row, tally_each, build_usage_report,
}
use llm_service_manager.Activity.Balanced.{IsBalanced, is_invalid, build_usage_report-IsBalanced}
use llm_service_manager.Activity.Summary.{
  ActivityRow, seek, min_id, distinct_ids, max_ts, summaries,
}
use llm_service_manager.Activity.Read.{
  get, put, metadata_source, metadata_client_ip, source_ip, source_from_row, newest,
  latest_by_model, readings, Database, read_rows, read,
}
use llm_service_manager.Activity.Exact.{IsExact, read-IsExact}
use llm_service_manager.Activity.Seek.{IsIncreasing, distinct_ids-IsEnumeration}

abbrev reader : Reader
reader = record {
  ip_containers = ("10.0.0.2", "alice") ∷ [];
  host_ips = "127.0.0.1" ∷ [];
  ip_address = λ value. some (record { text = value; ipv4_mapped = none });
  json_texts = λ text. some (("client_ip", text) ∷ []);
  local_day = λ _. "2026-01-01";
}

abbrev usage_row : (model client_ip : String) (ts requests input_tokens : ℕ) → UsageRow
usage_row model client_ip ts requests input_tokens = record {
  model = model;
  metadata_json = some client_ip;
  ts = ts;
  requests = requests;
  input_tokens = some input_tokens;
  output_tokens = some 1;
  errors = some 0;
  untracked_requests = none;
  duration_ms = some 20;
  invalid_tokens = 0;
}

abbrev usage_rows : List UsageRow
usage_rows =
    usage_row "small" "127.0.0.1" 50 1 5
    ∷ usage_row "large" "10.0.0.2 " 40 2 7
    ∷ usage_row "small" "10.0.0.2" 60 3 9
    ∷ usage_row "small" "::x" 30 1 1
    ∷ []

abbrev built : UsageReport
built = elim (build_usage_report reader By.user [] usage_rows) [
  | ok r ↦ r
  | err _ ↦ record {
    map_source = "";
    mapped_ips = 0;
    rows = [];
    totals = record {
      requests = 0;
      errors = 0;
      input_tokens = 0;
      output_tokens = 0;
      total_tokens = 0;
      untracked_requests = 0;
      duration_ms = 0;
    };
  }
]

abbrev summary : ReportRow → String × ℕ × ℕ × ℕ
summary r = (r.name, r.counts.requests, r.first_seen, r.last_seen)

-- The container comes first with five requests, at 40 to 60; then the others by their names.
reported_rows :
    map summary built.rows ≡ ("alice", 5, 40, 60) ∷ ("host", 1, 50, 50) ∷ ("ip:::x", 1, 30, 30) ∷ []
unfolding build_usage_report tally_each tally_row keys_of attribution canonical_ip metadata_object
    insert lookup sorted insert_sorted is_blank lstrip rstrip
reported_rows = refl

build_usage_report-IsBalanced_example :
    ((r : UsageReport) × (build_usage_report reader By.user [] usage_rows ≡ ok r)
      × (any is_invalid usage_rows ≡ false)
      × IsBalanced usage_rows r)
    ⊎ ((build_usage_report reader By.user [] usage_rows ≡ err "parse")
        × (any is_invalid usage_rows ≡ true))
build_usage_report-IsBalanced_example = build_usage_report-IsBalanced reader By.user [] usage_rows

activity_error_reason-IsKnown_example :
    (contains
        (activity_error_reason (Failure.sqlite_error "SQLITE_BUSY" "the password is x") false)
        error_reasons
      ≡ true)
    × (activity_error_reason (Failure.sqlite_error "SQLITE_BUSY" "the password is x") true
        ≡ "deadline")
activity_error_reason-IsKnown_example =
    activity_error_reason-IsKnown (Failure.sqlite_error "SQLITE_BUSY" "the password is x") false

abbrev model_ids : List String
model_ids = "small" ∷ "large" ∷ "small" ∷ "medium" ∷ []

in_order : distinct_ids model_ids ≡ "large" ∷ "medium" ∷ "small" ∷ []
unfolding seek min_id
in_order = refl

distinct_ids-IsEnumeration_example :
    ((x : String) → contains x (distinct_ids model_ids) ≡ contains x model_ids)
    × IsIncreasing (distinct_ids model_ids)
distinct_ids-IsEnumeration_example = distinct_ids-IsEnumeration model_ids

abbrev used : (id : ℕ) (model_id : Option String) (ts : ℕ) (src : Option String) → ActivityRow
used id model_id ts src = record {
  id = id;
  model_id = model_id;
  ts_created = ts;
  src = src;
  metadata_json = none;
}

abbrev activity : List ActivityRow
activity =
    used 1 (some "small") 100 (some "10.0.0.9")
    ∷ used 2 (some "large") 4000 (some "10.0.0.2")
    ∷ used 3 none 4000 none
    ∷ used 4 (some "large") 4000 (some "ip: 10.0.0.3")
    ∷ used 5 (some "large") 3300 none
    ∷ used 6 (some "late") 4200 none
    ∷ []

abbrev columns : List String
columns = "id" ∷ "ts_created" ∷ "model_id" ∷ "src" ∷ []

abbrev database : Database
database = record {
  now = some 4100;
  columns = inr columns;
  rows = inr activity;
  deadline_expired = false;
}

-- The newest of two requests of one second tells the source; a model without a request up to now is missing.
read_large :
    get (some "large") (read reader database).result
    ≡ some (record {
      last_used = 4000;
      requests_last_hour = 3;
      requests_last_10m = 2;
      source_ip = some "10.0.0.3";
      source_container = "ip:10.0.0.3";
    })
unfolding read read_rows summaries max_ts seek min_id latest_by_model newest readings get put
    source_from_row source_ip metadata_source metadata_client_ip metadata_object canonical_ip lookup
    is_blank lstrip rstrip starts_with
read_large = refl

read-IsExact_example :
    ((read reader database).last_error_code ≡ none)
    × ((m : Option String)
        → IsExact reader columns activity 4100 m (get m (read reader database).result))
read-IsExact_example = read-IsExact reader database 4100 columns activity refl refl refl refl refl
