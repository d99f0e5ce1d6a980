-- ===== src/Activity/Source.antt =====
-- llmsvc/activity.py: to whom a request is attributed; and `canonical_ip` of llmsvc/fleet/config.py.
use llm_service_manager.Prelude.{ℕ, String, Option, none, some, List, [], str_eq}
use llm_service_manager.Prelude.Tests.{or_default, or_else, if◌then◌else◌}
use llm_service_manager.Prelude.Text.{Dict, lookup, contains, is_blank, strip}
use Prim.Native.String

-- An address as `ipaddress` prints it, with the IPv4 address that it maps
pub record IpAddress : Type 0 where
  pub text : String
  pub ipv4_mapped : Option String

-- `ip_address` reads an address; `json_texts` gives the texts among the members of a JSON object, and
-- none for a text that is no JSON object; `local_day` is the date of a time in the zone.
pub record Reader : Type 0 where
  pub ip_containers : Dict String
  pub host_ips : List String
  pub ip_address : String → Option IpAddress
  pub json_texts : String → Option (Dict String)
  pub local_day : ℕ → String

module _ (a : Reader) where
  unfoldable pub canonical_ip : String → Option String
  canonical_ip value = elim (a.ip_address value) [
    | none ↦ none
    | some address ↦ some (or_default address.text address.ipv4_mapped)
  ]

  -- `_metadata_object`
  unfoldable pub metadata_object : Option String → Dict String
  metadata_object none = []
  metadata_object (some text) = if str_eq text "" then [] else or_default [] (a.json_texts text)

  attributed : (file_containers : Dict String) → Option String → String × String
  attributed file_containers none = ("unattributed", "unattributed")
  attributed file_containers (some ip) =
      if contains ip a.host_ips
      then ("host", "host")
      else elim (or_else (lookup ip a.ip_containers) (lookup ip file_containers)) [
        | some container ↦ (container, "container")
        | none ↦ (String.◌++◌ "ip:" ip, "ip")
      ]

  -- `_attribution`: the user and its kind
  unfoldable pub attribution : (file_containers : Dict String) → Option String → String × String
  unfolding attributed
  attribution file_containers none = ("unattributed", "unattributed")
  attribution file_containers (some client_ip) =
      if is_blank client_ip
      then ("unattributed", "unattributed")
      else attributed file_containers (canonical_ip (strip client_ip))
