-- ===== src/Protocol/Turn.antt =====
-- crates/idr-protocol/src/human_centered/turn.rs: `TurnCoordinationPlanV1`.
pub mod Graph
pub mod Acyclic
pub mod Rules
pub mod Selected
use idr.Base.{
  ℕ, Bool, true, false, ◌||◌, ◌&&◌, not, ◌==◌, ◌!=◌, List, [], ◌∷◌, ◌++◌, is_empty, any, contains,
  Option, ok, err, deny, ◌>>◌, ◌>>=◌, try_each, Text, sort_dedup, Eq, ◌differs◌, ◌agrees◌,
}
use idr.Protocol.Error.{
  Checked, contract_kind_mismatch, invalid_contract, invalid_dependency, digest_mismatch,
}
use idr.Protocol.Reference.{Reference}
use idr.Protocol.Id.{ContractKind, turn_coordination, response, action, kind_eq}
use idr.Protocol.Digest.{Codec, contract_digest, check_digest}
use idr.Protocol.ContractRef
use idr.Protocol.ContractRef.{ContractRef, contract_ref_eq, contract_ref_ord}
use idr.Protocol.Collections.{validate_required_text}
use idr.Protocol.Metadata
use idr.Protocol.Metadata.{Metadata}
use idr.Protocol.Guards.{
  CoordinationMode, respond_only, act_then_respond, respond_then_act, respond_then_confirm_then_act,
  parallel, acknowledge_then_run, stream_progress_then_final,
}
use Graph.{Edge, dependency_path_exists}
use Acyclic.{dependency_graph_is_acyclic}

unfoldable pub CoordinationMode-discrete : Discrete CoordinationMode
CoordinationMode-discrete = hlevel

instance abbrev pub mode_eq : Eq CoordinationMode
mode_eq = record { dec = CoordinationMode-discrete }

pub data GateKind : Type 0 where
  user_authorization user_input policy_approval human_approver dependency : GateKind

unfoldable pub GateKind-discrete : Discrete GateKind
GateKind-discrete = hlevel

instance abbrev pub gate_kind_eq : Eq GateKind
gate_kind_eq = record { dec = GateKind-discrete }

pub record Gate : Type 0 where
  pub gate_kind : GateKind
  pub required_before : ContractRef
  pub policy_ref : Option Reference

pub data FailurePolicy : Type 0 where
  report_only report_and_offer_recovery compensate_then_report escalate : FailurePolicy

pub data ProgressPolicy : Type 0 where
  silent acknowledge_only stream_status : ProgressPolicy

pub record Plan : Type 0 where
  pub metadata : Metadata
  pub mode : CoordinationMode
  pub response_refs : List ContractRef
  pub action_refs : List ContractRef
  pub dependencies : List Edge
  pub gates : List Gate
  pub failure_policy : FailurePolicy
  pub progress_policy : ProgressPolicy
  pub rationale : Text
  pub record_digest : Text

abbrev pub DigestInput : Type 0
DigestInput =
    Metadata
    × CoordinationMode
    × List ContractRef
    × List ContractRef
    × List Edge
    × List Gate
    × FailurePolicy
    × ProgressPolicy
    × Text

abbrev pub digest_input : Plan → DigestInput
digest_input p = (
  p.metadata, p.mode, p.response_refs, p.action_refs, p.dependencies, p.gates, p.failure_policy,
  p.progress_policy, p.rationale,
)

-- `known_refs`, a `BTreeSet`
abbrev pub known_refs : Plan → List ContractRef
known_refs p = sort_dedup (p.response_refs ++ p.action_refs)

abbrev pub is_confirmation_mode : Plan → Bool
is_confirmation_mode p = p.mode == respond_then_confirm_then_act

abbrev pub has_authorization_gate : Plan → Bool
has_authorization_gate p = any (λ (g : Gate). g.gate_kind == user_authorization) p.gates

-- The tests on modes, kinds and the presence of a gate.
unfoldable pub check_shape : Plan → Checked (Unit {0})
check_shape p = do
  deny
      (is_empty p.response_refs
        || any (λ (r : ContractRef). r.kind != response) p.response_refs
        || any (λ (r : ContractRef). r.kind != action) p.action_refs)
      invalid_contract
  deny ((p.mode != respond_only) agrees is_empty p.action_refs) invalid_contract
  deny (is_confirmation_mode p differs has_authorization_gate p) invalid_contract

unfoldable pub check_edge : List ContractRef → Edge → Checked (Unit {0})
check_edge known e = do
  ContractRef.validate e.before
  ContractRef.validate e.after
  deny (e.before == e.after || not (contains known e.before) || not (contains known e.after))
      invalid_dependency

unfoldable pub check_gate : List ContractRef → Gate → Checked (Unit {0})
check_gate known g = do
  ContractRef.validate g.required_before
  deny (not (contains known g.required_before)) invalid_dependency
  deny (g.gate_kind == user_authorization && g.required_before.kind != action) invalid_dependency

-- An action that no authorization gate stands before.
abbrev pub is_ungated : Plan → ContractRef → Bool
is_ungated p a =
    not (any (λ (g : Gate). g.gate_kind == user_authorization && g.required_before == a) p.gates)

abbrev pub is_response_first : CoordinationMode → Bool
is_response_first respond_then_act = true
is_response_first respond_then_confirm_then_act = true
is_response_first acknowledge_then_run = true
is_response_first _ = false

-- No response leads to the action; no action leads to the response.
unfoldable pub is_unannounced : Plan → ContractRef → Bool
is_unannounced p a = not (any (λ r. dependency_path_exists r a p.dependencies) p.response_refs)

unfoldable pub is_unfounded : Plan → ContractRef → Bool
is_unfounded p r = not (any (λ a. dependency_path_exists a r p.dependencies) p.action_refs)

unfoldable pub check_order : Plan → Checked (Unit {0})
check_order p = do
  deny (is_confirmation_mode p && any (is_ungated p) p.action_refs) invalid_dependency
  deny (is_response_first p.mode && any (is_unannounced p) p.action_refs) invalid_dependency
  deny (p.mode == act_then_respond && any (is_unfounded p) p.response_refs) invalid_dependency

-- `TurnCoordinationPlanV1::validate`
unfoldable pub validate : Codec → Plan → Checked (Unit {0})
validate codec p = do
  Metadata.validate p.metadata
  deny (p.metadata.contract_kind != turn_coordination) contract_kind_mismatch
  validate_required_text p.rationale
  check_shape p
  deny (any (λ r. not (contains p.metadata.dependency_refs r)) (known_refs p)) invalid_dependency
  try_each (check_edge (known_refs p)) p.dependencies
  deny (not (dependency_graph_is_acyclic (known_refs p) p.dependencies)) invalid_dependency
  try_each (check_gate (known_refs p)) p.gates
  check_order p
  check_digest codec "turn-coordination-plan-v1" (digest_input p) p.record_digest digest_mismatch

-- `TurnCoordinationPlanV1::issue`: its arguments are the fields of `value`, whose digest is not
-- yet set.
unfoldable pub issue : Codec → Plan → Checked Plan
issue codec value = do
  digest ← contract_digest codec "turn-coordination-plan-v1" (digest_input value)
  validate codec (record value { record_digest = digest })
  ok (record value { record_digest = digest })

-- `TurnCoordinationPlanV1::record_ref`
unfoldable pub record_ref : Codec → Plan → Checked ContractRef
record_ref codec p = do
  validate codec p
  ContractRef.new turn_coordination p.metadata.contract_id p.metadata.revision p.record_digest
