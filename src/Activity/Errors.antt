-- ===== src/Activity/Errors.antt =====
-- llmsvc/activity.py: the reason that stands for a failed read.
use llm_service_manager.Prelude.{
  String, ◌≡◌, refl, Bool, true, false, ◌||◌, Option, none, some, List, [], ◌∷◌, str_eq,
}
use llm_service_manager.Prelude.Tests.{if_ind, if◌then◌else◌}
use llm_service_manager.Prelude.Lists.{any}
use llm_service_manager.Prelude.Text.{contains, starts_with}

-- The keys of `_ERROR_MESSAGES`
abbrev pub error_reasons : List String
error_reasons =
    "deadline" ∷ "locked" ∷ "schema" ∷ "parse" ∷ "unavailable" ∷ "corrupt" ∷ "interrupted" ∷ "io"
    ∷ "read_failed" ∷ []

-- An exception by the first of the classes that the code asks for. A `reason` that is no text is none;
-- the message of SQLite is its first 256 characters in lower case, and a name that it lacks is empty.
pub data Failure : Type 0 where
  activity_error : (reason : Option String) → Failure
  sqlite_error : (name message : String) → Failure
  value_error os_error other_error : Failure

abbrev pub known_or_failed : Option String → String
known_or_failed none = "read_failed"
known_or_failed (some reason) = if contains reason error_reasons then reason else "read_failed"

abbrev is_one_of : List String → String → Bool
is_one_of texts s = any (str_eq s) texts

abbrev starts_with_any : (prefixes : List String) → String → Bool
starts_with_any prefixes s = any (λ p. starts_with p s) prefixes

abbrev says_locked : (name message : String) → Bool
says_locked name message =
    starts_with_any ("SQLITE_BUSY" ∷ "SQLITE_LOCKED" ∷ []) name
    || is_one_of
        ("database is locked" ∷ "database table is locked" ∷ "database schema is locked" ∷ [])
        message
    || starts_with_any ("database table is locked:" ∷ "database schema is locked:" ∷ []) message

abbrev says_interrupted : (name message : String) → Bool
says_interrupted name message = str_eq name "SQLITE_INTERRUPT" || str_eq message "interrupted"

abbrev says_corrupt : (name message : String) → Bool
says_corrupt name message =
    starts_with_any ("SQLITE_CORRUPT" ∷ "SQLITE_NOTADB" ∷ []) name
    || is_one_of ("database disk image is malformed" ∷ "file is not a database" ∷ []) message

abbrev says_schema : (name message : String) → Bool
says_schema name message =
    str_eq name "SQLITE_SCHEMA"
    || str_eq message "database schema has changed"
    || starts_with_any ("no such table:" ∷ "no such column:" ∷ []) message

abbrev says_unavailable : (name message : String) → Bool
says_unavailable name message =
    starts_with "SQLITE_CANTOPEN" name || str_eq message "unable to open database file"

abbrev says_io : (name message : String) → Bool
says_io name message = starts_with "SQLITE_IOERR" name || str_eq message "disk i/o error"

abbrev says_parse : (message : String) → Bool
says_parse message = starts_with "could not decode to utf-8" message

unfoldable pub sqlite_reason : (name message : String) → String
sqlite_reason name message =
    if says_locked name message
    then "locked"
    else if says_interrupted name message
    then "interrupted"
    else if says_corrupt name message
    then "corrupt"
    else if says_schema name message
    then "schema"
    else if says_unavailable name message
    then "unavailable"
    else if says_io name message
    then "io"
    else if says_parse message
    then "parse"
    else "read_failed"

unfoldable pub reason_of : Failure → String
reason_of (Failure.activity_error reason) = known_or_failed reason
reason_of (Failure.sqlite_error name message) = sqlite_reason name message
reason_of Failure.value_error = "parse"
reason_of Failure.os_error = "unavailable"
reason_of Failure.other_error = "read_failed"

unfoldable pub activity_error_reason : Failure → (deadline_expired : Bool) → String
activity_error_reason failure deadline_expired =
    if deadline_expired then "deadline" else reason_of failure

abbrev IsKnown : String → Type 0
IsKnown reason = contains reason error_reasons ≡ true

IsKnown-if : (b : Bool) (x y : String) → IsKnown x → IsKnown y → IsKnown (if b then x else y)
IsKnown-if b x y hx hy = if_ind IsKnown b (λ _. hx) (λ _. hy)

sqlite_reason-IsKnown : (name message : String) → IsKnown (sqlite_reason name message)
unfolding sqlite_reason
sqlite_reason-IsKnown name message =
    let parse = IsKnown-if (says_parse message) "parse" "read_failed" refl refl in
    let io = IsKnown-if (says_io name message) "io" _ refl parse in
    let unavailable = IsKnown-if (says_unavailable name message) "unavailable" _ refl io in
    let schema = IsKnown-if (says_schema name message) "schema" _ refl unavailable in
    let corrupt = IsKnown-if (says_corrupt name message) "corrupt" _ refl schema in
    let interrupted = IsKnown-if (says_interrupted name message) "interrupted" _ refl corrupt in
    IsKnown-if (says_locked name message) "locked" _ refl interrupted

reason_of-IsKnown : (failure : Failure) → IsKnown (reason_of failure)
unfolding reason_of
reason_of-IsKnown (Failure.activity_error none) = refl
reason_of-IsKnown (Failure.activity_error (some reason)) =
    if_ind IsKnown (contains reason error_reasons) (λ e. e) (λ _. refl)
reason_of-IsKnown (Failure.sqlite_error name message) = sqlite_reason-IsKnown name message
reason_of-IsKnown Failure.value_error = refl
reason_of-IsKnown Failure.os_error = refl
reason_of-IsKnown Failure.other_error = refl

-- Whatever a read raises, and whatever its text says, the reason that is kept is one of the fixed reasons;
-- once the deadline has expired it is `deadline`.
pub activity_error_reason-IsKnown :
    (failure : Failure) (deadline_expired : Bool)
    → (contains (activity_error_reason failure deadline_expired) error_reasons ≡ true)
      × (activity_error_reason failure true ≡ "deadline")
unfolding activity_error_reason
activity_error_reason-IsKnown failure true = (refl, refl)
activity_error_reason-IsKnown failure false = (reason_of-IsKnown failure, refl)
