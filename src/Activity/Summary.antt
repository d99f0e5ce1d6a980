-- ===== src/Activity/Summary.antt =====
-- llmsvc/activity.py: `_summary_rows`, which seeks one model after the other. The queries run on
-- the rows of the table, of which it reads two columns; a time is a natural number of seconds.
use llm_service_manager.Prelude.{
  ℕ, zero, suc, ◌+◌, String, Bool, true, ◌&&◌, Option, none, some, List, [], ◌∷◌, ◌++◌, map,
}
use llm_service_manager.Prelude.Tests.{leb, ltb, is_none, if◌then◌else◌}
use llm_service_manager.Prelude.Lists.{any, length, select}
use llm_service_manager.Prelude.Text.{str_lt, opt_str_eq}

pub record ActivityRow : Type 0 where
  pub id : ℕ
  pub model_id : Option String
  pub ts_created : ℕ
  pub src : Option String
  pub metadata_json : Option String

pub record Summary : Type 0 where
  pub model_id : Option String
  pub last_used : ℕ
  pub requests_last_hour : ℕ
  pub requests_last_10m : ℕ

-- The model ids of the rows that have one
abbrev pub ids_of : List ActivityRow → List String
ids_of [] = []
ids_of (row ∷ rows) = elim row.model_id [ none ↦ ids_of rows | some m ↦ m ∷ ids_of rows ]

-- `WHERE model_id > ?`, and no condition in the first query
abbrev pub beyond : (bound : Option String) → String → Bool
beyond none m = true
beyond (some b) m = str_lt b m

abbrev pub lesser : String → Option String → Option String
lesser m none = some m
lesser m (some n) = if str_lt n m then some n else some m

-- `SELECT MIN(model_id)`
unfoldable pub min_id : List String → Option String
min_id [] = none
min_id (m ∷ ms) = lesser m (min_id ms)

abbrev pub next_id : List String → (bound : Option String) → Option String
next_id ids bound = min_id (select (beyond bound) ids)

-- The loop: each round asks for the least id beyond the one before.
unfoldable pub seek : (fuel : ℕ) → List String → (model_id : Option String) → List String
seek zero ids model_id = []
seek (suc fuel) ids none = []
seek (suc fuel) ids (some m) = m ∷ seek fuel ids (next_id ids (some m))

-- One round more than there are rows
abbrev pub distinct_ids : List String → List String
distinct_ids ids = seek (suc (length ids)) ids (next_id ids none)

abbrev pub listed_models : List ActivityRow → List (Option String)
listed_models rows =
    (if any (λ (r : ActivityRow). is_none r.model_id) rows then none ∷ [] else [])
    ++ map some (distinct_ids (ids_of rows))

abbrev pub later : ℕ → Option ℕ → Option ℕ
later t none = some t
later t (some u) = if ltb u t then some t else some u

-- `SELECT MAX(ts_created)`
unfoldable pub max_ts : List ActivityRow → Option ℕ
max_ts [] = none
max_ts (row ∷ rows) = later row.ts_created (max_ts rows)

abbrev pub of_model : Option String → ActivityRow → Bool
of_model model_id row = opt_str_eq row.model_id model_id

abbrev pub until : (now : ℕ) → ActivityRow → Bool
until now row = leb row.ts_created now

-- `ts_created >= now - seconds`
abbrev pub since : (now seconds : ℕ) → ActivityRow → Bool
since now seconds row = leb now (row.ts_created + seconds)

abbrev pub summary_of :
    List ActivityRow → (now : ℕ) → (model_id : Option String) → (last_used : ℕ) → Summary
summary_of rows now model_id last_used =
    let hour = select (λ r. of_model model_id r && since now 3600 r && until now r) rows in
    record {
      model_id = model_id;
      last_used = last_used;
      requests_last_hour = length hour;
      requests_last_10m = length (select (since now 600) hour);
    }

unfoldable pub summaries : List ActivityRow → (now : ℕ) → List (Option String) → List Summary
summaries rows now [] = []
summaries rows now (m ∷ ms) =
    let rest = summaries rows now ms in
    elim (max_ts (select (λ r. of_model m r && until now r) rows)) [
      | none ↦ rest
      | some last_used ↦ summary_of rows now m last_used ∷ rest
    ]

-- `_summary_rows`
abbrev pub summary_rows : List ActivityRow → (now : ℕ) → List Summary
summary_rows rows now = summaries rows now (listed_models rows)
