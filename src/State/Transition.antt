-- ===== src/State/Transition.antt =====
-- llmsvc/state.py: the phase in which a model's weights live, and the name of a command's transition.
-- States and phases are texts here, as a state may be one that the table does not know.
use Prim.Native.String
use llm_service_manager.Prelude.{String, Option, none, some, str_eq}
use llm_service_manager.Prelude.Tests.{if◌then◌else◌}

unfoldable pub observed_phase : Option String → Option String
observed_phase none = none
observed_phase (some state) =
    if str_eq state "awake"
    then some "GPU"
    else if str_eq state "sleeping"
    then some "MEM"
    else if str_eq state "stopped"
    then some "SSD"
    else none

abbrev name_from : Option String → String → Option String
name_from none target = none
name_from (some start) target =
    if str_eq start target then none else some (String.◌++◌ start (String.◌++◌ "to" target))

unfoldable pub transition_name : Option String → String → Option String
unfolding observed_phase
transition_name start_state target = name_from (observed_phase start_state) target
