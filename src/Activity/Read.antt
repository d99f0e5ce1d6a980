-- ===== src/Activity/Read.antt =====
-- llmsvc/activity.py: `read`, the recent activity of each model with its last source. The rows are those
-- of one snapshot of the table; what the connection and its queries raise are fields.
use llm_service_manager.Prelude.{
  ℕ, zero, suc, String, ◌⊎◌, inl, inr, Bool, not, ◌&&◌, Option, none, some, List, [], ◌∷◌, str_eq,
}
use llm_service_manager.Prelude.Tests.{ltb, ◌==◌, or_default, or_else, if◌then◌else◌}
use llm_service_manager.Prelude.Lists.{is_empty, all, select}
use llm_service_manager.Prelude.Text.{
  Dict, contains, is_blank, lookup, opt_str_eq, starts_with, strip,
}
use llm_service_manager.Activity.Errors.{Failure, activity_error_reason}
use llm_service_manager.Activity.Source.{Reader, canonical_ip, metadata_object}
use llm_service_manager.Activity.Summary.{ActivityRow, Summary, of_model, summary_rows}
use Prim.Native.String

-- A dictionary whose keys are model ids, of which NULL is one
abbrev pub ByModel : Type 0 → Type 0
ByModel V = List (Option String × V)

module _ {V : Type 0} where
  unfoldable pub get : Option String → ByModel V → Option V
  get j [] = none
  get j ((k, v) ∷ d) = let rest = get j d in if opt_str_eq k j then some v else rest

  unfoldable pub put : Option String → V → ByModel V → ByModel V
  put k v [] = (k, v) ∷ []
  put k v ((j, w) ∷ d) =
      let rest = put k v d in if opt_str_eq j k then (j, v) ∷ d else (j, w) ∷ rest

abbrev drop_chars : ℕ → String → String
drop_chars zero s = s
drop_chars (suc n) String.[] = ""
drop_chars (suc n) (String.◌∷◌ c s) = drop_chars n s

-- `isinstance(value, str) and value.strip()`, then the text without its margins
abbrev pub stripped : Option String → Option String
stripped none = none
stripped (some value) = if is_blank value then none else some (strip value)

abbrev first_text : List (Option String) → Option String
first_text [] = none
first_text (value ∷ values) = or_else (stripped value) (first_text values)

abbrev first_key : Dict String → (keys : List String) → Option String
first_key metadata [] = none
first_key metadata (key ∷ keys) = or_else (stripped (lookup key metadata)) (first_key metadata keys)

-- The columns that say where a request came from
abbrev pub Origin : Type 0
Origin = Option String × Option String

module _ (a : Reader) where
  unfoldable pub metadata_source : (metadata_json : Option String) → Option String
  metadata_source metadata_json =
      first_key (metadata_object a metadata_json) ("src" ∷ "source" ∷ "source_ip" ∷ "ip" ∷ [])

  unfoldable pub metadata_client_ip : (metadata_json : Option String) → Option String
  metadata_client_ip metadata_json = stripped (lookup "client_ip" (metadata_object a metadata_json))

  abbrev pub ip_text : (text : String) → String
  ip_text text = if starts_with "ip:" text then strip (drop_chars 3 text) else text

  unfoldable pub source_ip : (value : Option String) → Option String
  source_ip none = none
  source_ip (some value) =
      let text = ip_text (strip value) in if str_eq text "" then none else canonical_ip a text

  abbrev pub container_of : Option String → Option String × String
  container_of none = (none, "unknown")
  container_of (some ip) = (some ip, or_default (String.◌++◌ "ip:" ip) (lookup ip a.ip_containers))

  -- `_source_from_row`
  unfoldable pub source_from_row : Origin → Option String × String
  source_from_row (src, metadata_json) = container_of (
      source_ip
        (first_text (src ∷ metadata_source metadata_json ∷ metadata_client_ip metadata_json ∷ [])))

abbrev pub newer : ActivityRow → Option ActivityRow → Option ActivityRow
newer row none = some row
newer row (some other) = if ltb row.id other.id then some other else some row

-- `ORDER BY id DESC LIMIT 1`
unfoldable pub newest : List ActivityRow → Option ActivityRow
newest [] = none
newest (row ∷ rows) = newer row (newest rows)

abbrev pub at_time : (model_id : Option String) (ts : ℕ) → ActivityRow → Bool
at_time model_id ts row = of_model model_id row && row.ts_created == ts

abbrev pub latest : List ActivityRow → (model_id : Option String) (ts : ℕ) → Option ActivityRow
latest rows model_id ts = newest (select (at_time model_id ts) rows)

-- A column that the table lacks is NULL.
abbrev pub column : (columns : List String) (name : String) → Option String → Option String
column columns name value = if contains name columns then value else none

abbrev pub origin : (columns : List String) → ActivityRow → Origin
origin columns row =
    (column columns "src" row.src, column columns "metadata_json" row.metadata_json)

unfoldable pub latest_by_model :
    (columns : List String)
    → List ActivityRow
    → List Summary
    → ByModel Origin
    → Option (ByModel Origin)
latest_by_model columns rows [] d = some d
latest_by_model columns rows (s ∷ ss) d = elim (latest rows s.model_id s.last_used) [
  | none ↦ none
  | some row ↦ latest_by_model columns rows ss (put s.model_id (origin columns row) d)
]

pub record Reading : Type 0 where
  pub last_used : ℕ
  pub requests_last_hour : ℕ
  pub requests_last_10m : ℕ
  pub source_ip : Option String
  pub source_container : String

abbrev pub reading : Reader → Origin → Summary → Reading
reading a o s =
    let (ip, container) = source_from_row a o in
    record {
      last_used = s.last_used;
      requests_last_hour = s.requests_last_hour;
      requests_last_10m = s.requests_last_10m;
      source_ip = ip;
      source_container = container;
    }

abbrev pub no_origin : Origin
no_origin = (none, none)

unfoldable pub readings : Reader → ByModel Origin → List Summary → ByModel Reading → ByModel Reading
readings a found [] d = d
readings a found (s ∷ ss) d =
    readings a found ss
      (put s.model_id (reading a (or_default no_origin (get s.model_id found)) s) d)

abbrev pub raised : (reason : String) → Failure
raised reason = Failure.activity_error (some reason)

pub record Database : Type 0 where
  pub now : Option ℕ
  pub columns : Failure ⊎ List String
  pub rows : Failure ⊎ List ActivityRow
  pub deadline_expired : Bool

abbrev pub has_columns : List String → Bool
has_columns columns =
    not (is_empty columns) && all (λ c. contains c columns) ("id" ∷ "ts_created" ∷ "model_id" ∷ [])

unfoldable pub read_rows :
    Reader → (columns : List String) → List ActivityRow → (now : ℕ) → Failure ⊎ ByModel Reading
read_rows a columns rows now =
    let ss = summary_rows rows now in
    elim (latest_by_model columns rows ss []) [
      | none ↦ inl (raised "read_failed")
      | some found ↦ inr (readings a found ss [])
    ]

abbrev pub in_time :
    (deadline_expired : Bool) → Failure ⊎ ByModel Reading → Failure ⊎ ByModel Reading
in_time expired (inl failure) = inl failure
in_time expired (inr result) = if expired then inl (raised "deadline") else inr result

abbrev pub read_columns :
    Reader → Database → (now : ℕ) → Failure ⊎ List String → Failure ⊎ ByModel Reading
read_columns a db now (inl failure) = inl failure
read_columns a db now (inr columns) =
    if has_columns columns
    then elim db.rows [
      | inl failure ↦ inl failure
      | inr rows ↦ in_time db.deadline_expired (read_rows a columns rows now)
    ]
    else inl (raised "schema")

abbrev pub attempted : Reader → Database → (now : Option ℕ) → Failure ⊎ ByModel Reading
attempted a db none = inl (raised "parse")
attempted a db (some now) = read_columns a db now db.columns

pub record Answer : Type 0 where
  pub result : ByModel Reading
  pub last_error_code : Option String

-- `_fail`, and no entries
abbrev pub answered : (deadline_expired : Bool) → Failure ⊎ ByModel Reading → Answer
answered expired (inl failure) = record {
  result = [];
  last_error_code = some (activity_error_reason failure expired);
}
answered expired (inr result) = record { result = result; last_error_code = none }

-- `read`
unfoldable pub read : Reader → Database → Answer
read a db = answered db.deadline_expired (attempted a db db.now)
