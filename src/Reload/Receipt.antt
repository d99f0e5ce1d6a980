-- ===== src/Reload/Receipt.antt =====
-- llmsvc/reload.py: the receipt of an interrupted transaction and the proofs that settle it; with the
-- identity of an instance from llmsvc/reload_witness.py.
use llm_service_manager.Prelude.{
  ℕ, suc, String, Bool, true, false, not, ◌&&◌, ◌||◌, Option, none, some, str_eq,
}
use llm_service_manager.Prelude.Tests.{ltb, leb, ◌==◌, is_none, if◌then◌else◌}
use llm_service_manager.Prelude.Result.{Result, ok, err, guard, ◌>>=◌, ◌>>◌}
use Prim.Native.Char.{Char, code}

pub record InstanceIdentity : Type 0 where
  pub pid : ℕ
  pub start_ticks : String

pub record CandidateBinding : Type 0 where
  pub endpoint : String
  pub generation : String
  pub instance_identity : InstanceIdentity
  pub candidate_sha256 : String

pub record MaintenanceDescriptor : Type 0 where
  pub transaction_id : String
  pub base_sha256 : String
  pub old_scope_sha256 : String

-- The parsed marker
pub record Receipt : Type 0 where
  pub sha256 : String
  pub maintenance : Option MaintenanceDescriptor
  pub witness_binding : Option CandidateBinding

pub record RecoveryProof : Type 0 where
  pub marker_sha256 : String
  pub generation_confirmed : Bool
  pub instance_confirmed : Bool
  pub settlement_confirmed : Bool
  pub cleanup_confirmed : Bool
  pub instance_identity : Option InstanceIdentity

pub record InstanceTransitionProof : Type 0 where
  pub marker_sha256 : String
  pub old_instance : InstanceIdentity
  pub new_instance : InstanceIdentity
  pub old_scope_sha256 : String
  pub new_scope_sha256 : String
  pub current_sha256 : String
  pub generation_confirmed : Bool
  pub instance_confirmed : Bool
  pub settlement_confirmed : Bool
  pub cleanup_confirmed : Bool
  pub backends_confirmed : Bool
  pub exclusion_confirmed : Bool
  pub restored_base : Bool
  pub attempt_instance : Option InstanceIdentity
  pub attempt_settled : Bool

-- What the verifier returns; `other` is an object of neither class.
pub data Proof : Type 0 where
  recovery : RecoveryProof → Proof
  transition : InstanceTransitionProof → Proof
  other : Proof

is_decimal : Char → Bool
is_decimal c = leb 48 (code c) && leb (code c) 57

is_hex : Char → Bool
unfolding is_decimal
is_hex c = is_decimal c || leb 97 (code c) && leb (code c) 102

all_chars : (Char → Bool) → String → Bool
all_chars test String.[] = true
all_chars test (String.◌∷◌ c s) = test c && all_chars test s

size : String → ℕ
size String.[] = 0
size (String.◌∷◌ c s) = suc (size s)

-- `[0-9a-f]{64}`
unfoldable pub is_digest : String → Bool
unfolding is_hex is_decimal all_chars size
is_digest s = size s == 64 && all_chars is_hex s

-- `value.lstrip("0")`
unfoldable pub lstrip_zeros : String → String
lstrip_zeros String.[] = ""
lstrip_zeros (String.◌∷◌ c s) =
    let rest = lstrip_zeros s in if code c == 48 then rest else String.◌∷◌ c s

-- `_valid_instance`
unfoldable pub valid_instance : InstanceIdentity → Bool
unfolding all_chars is_decimal
valid_instance i =
    ltb 0 i.pid && not (str_eq i.start_ticks "") && all_chars is_decimal i.start_ticks

abbrev pub instance_eq : InstanceIdentity → InstanceIdentity → Bool
instance_eq a b = a.pid == b.pid && str_eq a.start_ticks b.start_ticks

abbrev pub opt_instance_eq : Option InstanceIdentity → InstanceIdentity → Bool
opt_instance_eq none b = false
opt_instance_eq (some a) b = instance_eq a b

-- The same process, whatever zeros lead its start time
abbrev pub same_process : InstanceIdentity → InstanceIdentity → Bool
same_process a b =
    a.pid == b.pid && str_eq (lstrip_zeros a.start_ticks) (lstrip_zeros b.start_ticks)

abbrev pub valid_attempt : Option InstanceIdentity → Bool
valid_attempt none = true
valid_attempt (some i) = valid_instance i

abbrev pub all_confirmed : RecoveryProof → Bool
all_confirmed p =
    p.generation_confirmed && p.instance_confirmed && p.settlement_confirmed && p.cleanup_confirmed

abbrev pub transition_confirmed : InstanceTransitionProof → Bool
transition_confirmed p =
    p.generation_confirmed && p.instance_confirmed && p.settlement_confirmed && p.cleanup_confirmed
    && p.backends_confirmed && p.exclusion_confirmed

abbrev pub bound_instance : Option CandidateBinding → Option InstanceIdentity → Bool
bound_instance none found = true
bound_instance (some b) found = opt_instance_eq found b.instance_identity

abbrev pub is_base : Option MaintenanceDescriptor → (digest : String) → Bool
is_base none digest = false
is_base (some d) digest = str_eq digest d.base_sha256

abbrev pub are_instances : InstanceTransitionProof → Bool
are_instances p =
    valid_instance p.old_instance
    && valid_instance p.new_instance
    && not (same_process p.old_instance p.new_instance)
    && valid_attempt p.attempt_instance

module _ (sha256 : String → String) where
  unfoldable pub confirm_recovery : Receipt → (raw : String) → RecoveryProof → Result String
  confirm_recovery r raw p = do
    guard (str_eq p.marker_sha256 (sha256 raw) && all_confirmed p)
        "adoption and cleanup not confirmed"
    guard (bound_instance r.witness_binding p.instance_identity) "recovery instance not confirmed"
    ok r.sha256

  -- `_check_recovery_source`
  unfoldable pub check_recovery_source : Receipt → (content : String) → Result (Unit {0})
  check_recovery_source r content =
      guard (str_eq (sha256 content) r.sha256 || is_base r.maintenance (sha256 content))
        "adoption and cleanup not confirmed"

  -- The digest that the configuration must have after the transition
  abbrev pub expected_digest :
      Receipt → MaintenanceDescriptor → InstanceTransitionProof → Result String
  expected_digest r d p =
      if p.restored_base
      then (guard p.attempt_settled "rollback attempt settlement not confirmed" >> ok d.base_sha256)
      else (guard (is_none p.attempt_instance && not p.attempt_settled)
            "rollback evidence on a normal transition"
          >> ok r.sha256)

  abbrev pub is_transition :
      (raw : String) → MaintenanceDescriptor → CandidateBinding → InstanceTransitionProof → Bool
  is_transition raw d b p =
      str_eq p.marker_sha256 (sha256 raw)
      && transition_confirmed p
      && instance_eq p.old_instance b.instance_identity
      && not (instance_eq p.new_instance p.old_instance)
      && str_eq p.old_scope_sha256 d.old_scope_sha256

  unfoldable pub confirm_binding :
      Receipt
      → (raw : String) → MaintenanceDescriptor
      → CandidateBinding
      → InstanceTransitionProof
      → Result String
  confirm_binding r raw d b p = do
    guard (is_transition raw d b p) "instance transition not confirmed"
    guard (are_instances p) "invalid transition instance"
    guard (is_digest p.new_scope_sha256 && is_digest p.current_sha256)
        "invalid transition scope or digest"
    expected ← expected_digest r d p
    guard (str_eq p.current_sha256 expected) "transition source digest not confirmed"
    ok expected

  -- `_confirm_transition`; a receipt with maintenance has a binding, or the lookup fails. The endpoint, the
  -- generation and the digest of the binding are those of the receipt, which its parser has checked.
  unfoldable pub confirm_transition :
      Receipt → (raw : String) → MaintenanceDescriptor → Proof → Result String
  confirm_transition r raw d (Proof.transition p) = elim r.witness_binding [
    | none ↦ err "KeyError"
    | some b ↦ confirm_binding r raw d b p
  ]
  confirm_transition r raw d (Proof.recovery p) = err "instance transition not confirmed"
  confirm_transition r raw d Proof.other = err "instance transition not confirmed"

  -- `_confirm_proof`: the digest that the configuration must have
  abbrev pub confirm_by :
      Receipt → (raw : String) → Option MaintenanceDescriptor → Proof → Result String
  confirm_by r raw (some d) p = confirm_transition r raw d p
  confirm_by r raw none (Proof.recovery p) = confirm_recovery r raw p
  confirm_by r raw none (Proof.transition p) = err "adoption and cleanup not confirmed"
  confirm_by r raw none Proof.other = err "adoption and cleanup not confirmed"

  abbrev pub confirm_proof : Receipt → (raw : String) → Proof → Result String
  confirm_proof r raw p = confirm_by r raw r.maintenance p
