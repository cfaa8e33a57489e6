-- ===== src/Protocol/Run.antt =====
-- crates/idr-protocol/src/human_centered/runtime.rs: the states of an interaction run.
use idr.Base.{Bool, true, false, not, deny}
use idr.Protocol.Error.{Checked, invalid_transition}

pub data RunState : Type 0 where
  pending running waiting_input waiting_authorization waiting_dependency : RunState
  succeeded rejected failed cancelled timed_out invalidated : RunState

unfoldable pub is_terminal : RunState → Bool
is_terminal succeeded = true
is_terminal rejected = true
is_terminal failed = true
is_terminal cancelled = true
is_terminal timed_out = true
is_terminal invalidated = true
is_terminal _ = false

-- The ways in which a run is refused or stopped from outside.
abbrev is_stop : RunState → Bool
is_stop rejected = true
is_stop cancelled = true
is_stop timed_out = true
is_stop invalidated = true
is_stop _ = false

abbrev from_pending : RunState → Bool
from_pending running = true
from_pending next = is_stop next

abbrev from_running : RunState → Bool
from_running waiting_input = true
from_running waiting_authorization = true
from_running waiting_dependency = true
from_running succeeded = true
from_running failed = true
from_running next = is_stop next

abbrev from_waiting : RunState → Bool
from_waiting running = true
from_waiting failed = true
from_waiting next = is_stop next

unfoldable pub may_transition_to : RunState → RunState → Bool
may_transition_to pending next = from_pending next
may_transition_to running next = from_running next
may_transition_to waiting_input next = from_waiting next
may_transition_to waiting_authorization next = from_waiting next
may_transition_to waiting_dependency next = from_waiting next
may_transition_to _ next = false

unfoldable pub validate_interaction_run_transition : RunState → RunState → Checked (Unit {0})
unfolding may_transition_to
validate_interaction_run_transition current next =
    deny (not (may_transition_to current next)) invalid_transition
