-- ===== src/Leases/Probe.antt =====
-- llmsvc/leases.py: `LeaseUnitProbe`, which reads what `systemctl show` prints of a unit. `split` stands
-- for `shlex.split`, which has no result where the text is malformed. The result of the command is none
-- where it could not be run in time.
use llm_service_manager.Prelude.{
  ℕ, zero, suc, String, ◌≡◌, refl, inl, inr, Bool, true, false, not, ◌&&◌, ◌||◌, Option, none, some,
  List, [], ◌∷◌, str_eq, eq_iff, arith,
}
use llm_service_manager.Prelude.Int.{ℤ, pos, negsuc}
use llm_service_manager.Prelude.Tests.{
  ◌==◌, ltb, is_some, or_default, Option-cases, if_ind, if◌then◌else◌,
}
use llm_service_manager.Prelude.Text.{Dict, lookup, insert}
use Prim.Native.Char.{Char, code}

pub record UnitObservation : Type 0 where
  pub exists : Option Bool
  pub exited : Bool
  pub active : Bool
  pub lease_id : String
  pub invocation_id : String
  pub inactive : Bool

-- `UnitObservation()`: nothing is known.
abbrev pub unobserved : UnitObservation
unobserved = record {
  exists = none;
  exited = false;
  active = false;
  lease_id = "";
  invocation_id = "";
  inactive = false;
}

pub record CommandResult : Type 0 where
  pub returncode : ℤ
  pub size : ℕ
  pub lines : List String

abbrev is_zero_code : ℤ → Bool
is_zero_code (pos zero) = true
is_zero_code _ = false

prefixed : Char → Option (String × String) → Option (String × String)
prefixed c none = none
prefixed c (some (key, value)) = some (String.◌∷◌ c key, value)

-- `line.partition("=")`, none without the separator
unfoldable pub partition : String → Option (String × String)
unfolding prefixed
partition String.[] = none
partition (String.◌∷◌ c s) =
    let rest = partition s in if code c == 61 then some ("", s) else prefixed c rest

-- What comes after the prefix
unfoldable pub after_prefix : (prefix text : String) → Option String
after_prefix String.[] text = some text
after_prefix (String.◌∷◌ c p) String.[] = none
after_prefix (String.◌∷◌ c p) (String.◌∷◌ d t) =
    let rest = after_prefix p t in if code c == code d then rest else none

add_line : Option (String × String) → Dict String → Option (Dict String)
add_line none values = none
add_line (some (key, value)) values =
    if is_some (lookup key values) then none else some (insert key value values)

-- The properties, unless a line has no separator or names a property again
unfoldable pub parse_lines : List String → Dict String → Option (Dict String)
unfolding add_line
parse_lines [] values = some values
parse_lines (line ∷ lines) values = elim (add_line (partition line) values) [
  | none ↦ none
  | some more ↦ parse_lines lines more
]

abbrev pub has : Dict String → (key value : String) → Bool
has values key value = elim (lookup key values) [ none ↦ false | some v ↦ str_eq v value ]

-- `values.get("ActiveState") in ("inactive", "failed")`
abbrev pub is_inactive : Dict String → Bool
is_inactive values = has values "ActiveState" "inactive" || has values "ActiveState" "failed"

-- No process and no control group
abbrev pub is_empty_unit : Dict String → Bool
is_empty_unit values = has values "MainPID" "0" && has values "ControlGroup" ""

unfoldable pub lease_tokens : List String → List String
lease_tokens [] = []
lease_tokens (item ∷ items) =
    let rest = lease_tokens items in
    elim (after_prefix "LLMSVC_LEASE_ID=" item) [ none ↦ rest | some token ↦ token ∷ rest ]

abbrev pub only_token : List String → String
only_token (token ∷ []) = token
only_token _ = ""

has-lookup :
    (values : Dict String) (key value : String)
    → has values key value ≡ true
    → lookup key values ≡ some value
has-lookup values key value h = elim (Option-cases (lookup key values)) [
  | inl e ↦ absurd (ground arith)
  | inr (v, e) ↦ ground (arith, eq_iff v value)
]

-- The unit has no process, no control group, and is inactive, failed or not found.
pub record IsGone (values : Dict String) : Type 0 where
  pub no_process : lookup "MainPID" values ≡ some "0"
  pub no_group : lookup "ControlGroup" values ≡ some ""
  pub stopped : is_inactive values ≡ true

IsGone-of :
    (values : Dict String) → (is_inactive values && is_empty_unit values) ≡ true → IsGone values
IsGone-of values h = record {
  no_process = has-lookup values "MainPID" "0" (ground arith);
  no_group = has-lookup values "ControlGroup" "" (ground arith);
  stopped = ground arith;
}

zero_code : (code : ℤ) → is_zero_code code ≡ true → code ≡ pos 0
zero_code (pos zero) h = refl
zero_code (pos (suc n)) h = absurd (ground (arith, h))
zero_code (negsuc n) h = absurd (ground (arith, h))

module _ (split : String → Option (List String)) where
  unfoldable pub observe_loaded : Dict String → UnitObservation
  observe_loaded values = elim (split (or_default "" (lookup "Environment" values))) [
    | none ↦ unobserved
    | some environment ↦ record {
      exists = some true;
      exited = is_inactive values && is_empty_unit values;
      active = has values "ActiveState" "active";
      lease_id = only_token (lease_tokens environment);
      invocation_id = or_default "" (lookup "InvocationID" values);
      inactive = is_inactive values;
    }
  ]

  unfoldable pub observe : Dict String → UnitObservation
  observe values =
      if has values "LoadState" "not-found"
      then (if has values "ActiveState" "inactive" && is_empty_unit values
          then record unobserved { exists = some false; exited = true }
          else unobserved)
      else if has values "LoadState" "loaded"
      then observe_loaded values
      else unobserved

  -- `LeaseUnitProbe.__call__`
  unfoldable pub probe : (in_time : Bool) → Option CommandResult → UnitObservation
  probe false result = unobserved
  probe true none = unobserved
  probe true (some r) =
      if not (is_zero_code r.returncode) || ltb 65536 r.size
      then unobserved
      else elim (parse_lines r.lines []) [ none ↦ unobserved | some values ↦ observe values ]

  observe-IsGone : (values : Dict String) → (observe values).exited ≡ true → IsGone values
  unfolding observe observe_loaded
  observe-IsGone values =
      if_ind Gone (has values "LoadState" "not-found")
        (λ _.
          if_ind Gone (has values "ActiveState" "inactive" && is_empty_unit values)
            (λ e _. IsGone-of values (ground arith)) (λ _ h. absurd cc))
        (λ _.
          if_ind Gone (has values "LoadState" "loaded")
            (λ _. elim (Option-cases (split (or_default "" (lookup "Environment" values)))) [
              | inl e ↦ rw (e, observe_loaded) (λ h. absurd cc)
              | inr (environment, e) ↦ rw (e, observe_loaded) (λ h. IsGone-of values h)
            ])
            (λ _ h. absurd cc))
    where
      Gone : UnitObservation → Type 0
      Gone o = o.exited ≡ true → IsGone values

  -- A unit is reported to have exited only if, in time, the command succeeded and printed at most 65536 bytes of well-formed properties
  -- by which the unit is inactive or failed and has neither a main process nor a control group.
  pub probe-IsGone :
      (in_time : Bool) (result : Option CommandResult)
      → (probe in_time result).exited ≡ true
      → (r : CommandResult) × (values : Dict String) × (in_time ≡ true)
        × (result ≡ some r)
        × (r.returncode ≡ pos 0)
        × (ltb 65536 r.size ≡ false)
        × (parse_lines r.lines [] ≡ some values)
        × IsGone values
  unfolding probe
  probe-IsGone false result = λ h. absurd cc
  probe-IsGone true none = λ h. absurd cc
  probe-IsGone true (some r) =
      if_ind Reported (not (is_zero_code r.returncode) || ltb 65536 r.size) (λ _ h. absurd cc)
        (λ good. elim (Option-cases (parse_lines r.lines [])) [
          | inl e ↦ rw (e, probe) (λ h. absurd cc)
          | inr (values, e) ↦
              rw (e, probe)
                (λ h. (
                  r,
                  values,
                  refl,
                  refl,
                  zero_code r.returncode (ground (arith, good)),
                  ground (arith, good),
                  e,
                  observe-IsGone values h,
                ))
        ])
    where
      Reported : UnitObservation → Type 0
      Reported o =
          o.exited ≡ true
          → (r' : CommandResult) × (values : Dict String) × (true ≡ true)
            × (some r ≡ some r')
            × (r'.returncode ≡ pos 0)
            × (ltb 65536 r'.size ≡ false)
            × (parse_lines r'.lines [] ≡ some values)
            × IsGone values
