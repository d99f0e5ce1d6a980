-- ===== src/Policy/Projection/Defs.antt =====
-- llmsvc/policy/common.py: the results of a policy and the fields of `Projection`.
use llm_service_manager.Prelude.{ℕ, String, Bool, true, false, ◌&&◌, Option, none, some, List}
use llm_service_manager.Prelude.Int.{ℤ, pos, negsuc}
use llm_service_manager.Prelude.Tests.{◌==◌, opt_nat_eq}
use llm_service_manager.Prelude.Text.{Dict, opt_str_eq}
use llm_service_manager.Prelude.Float.{Float, amount}
use llm_service_manager.Prelude.{str_eq}
use llm_service_manager.State.{StateSnapshot, ModelState, Activity, Blocker, Action}
use llm_service_manager.Policy.Settings.{PolicySettings}

pub record Decision (N : Type 0) : Type 0 where
  pub actions : List Action
  pub blocked_by : List (Blocker N)
  pub estimated_freed_gb : N
  pub gpu : Option ℕ

-- `exclusions` is the dictionary of the constructor, where None is the empty one.
pub record Projection (N : Type 0) : Type 0 where
  pub exclusions : Dict String
  pub snapshot : StateSnapshot N
  pub settings : PolicySettings N
  pub models : Dict (ModelState N)
  pub activity : Dict (Activity N)
  pub actions : List Action
  pub blockers : List (Blocker N)
  pub available : Option N
  pub sleeping : Option N

-- `a == b` of two optional integers
abbrev opt_int_eq : Option ℤ → Option ℤ → Bool
opt_int_eq none none = true
opt_int_eq (some (pos a)) (some (pos b)) = a == b
opt_int_eq (some (negsuc a)) (some (negsuc b)) = a == b
opt_int_eq _ _ = false

module _ {N : Type 0} ⦃F : Float N⦄ where
  -- The time of the snapshot, which `snapshot_blockers` has found to be known.
  abbrev pub sampled : StateSnapshot N → N
  sampled s = amount s.sampled_at

  abbrev opt_float_eq : Option N → Option N → Bool
  opt_float_eq none none = true
  opt_float_eq (some a) (some b) = F.eq a b
  opt_float_eq _ _ = false

  -- Equality of two `Blocker`s, field by field
  unfoldable pub blocker_eq : Blocker N → Blocker N → Bool
  blocker_eq a b =
      opt_str_eq a.model b.model
      && str_eq a.reason b.reason
      && opt_nat_eq a.gpu b.gpu
      && opt_str_eq a.user b.user
      && opt_int_eq a.in_flight b.in_flight
      && opt_float_eq a.external_gb b.external_gb
