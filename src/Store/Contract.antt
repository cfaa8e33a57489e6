-- ===== src/Store/Contract.antt =====
-- crates/idr-store/src/file_store.rs: `HumanCenteredContractSnapshotV1`, a contract of any kind.
use idr.Base.{ok, err, Bool, false, ◌==◌}
use idr.Protocol.Error.{Checked}
use idr.Protocol.Digest.{Codec}
use idr.Protocol.ContractRef.{ContractRef, contract_ref_eq}
use idr.Protocol.Metadata.{Metadata}
use idr.Protocol.Intent
use idr.Protocol.Intent.{IntentContract}
use idr.Protocol.Decision
use idr.Protocol.Decision.{DecisionContract}
use idr.Protocol.Turn
use idr.Protocol.Turn.{Plan}
use idr.Protocol.Response
use idr.Protocol.Response.{ResponseContract}
use idr.Protocol.Action
use idr.Protocol.Action.{ActionContract}
use idr.Protocol.Receipt
use idr.Protocol.Receipt.{ExecutionReceipt}
use idr.Protocol.Outcome
use idr.Protocol.Outcome.{OutcomeRecord}
use idr.Protocol.HumanModel
use idr.Protocol.HumanModel.{Assertion}

pub data ContractSnapshot : Type 0 where
  intent : IntentContract → ContractSnapshot
  decision : DecisionContract → ContractSnapshot
  turn_coordination : Plan → ContractSnapshot
  response : ResponseContract → ContractSnapshot
  action : ActionContract → ContractSnapshot
  execution_receipt : ExecutionReceipt → ContractSnapshot
  outcome : OutcomeRecord → ContractSnapshot
  human_model_assertion : Assertion → ContractSnapshot

-- `HumanCenteredContractSnapshotV1::validate`
unfoldable pub validate : Codec → ContractSnapshot → Checked (Unit {0})
validate codec (intent value) = Intent.validate codec value
validate codec (decision value) = Decision.validate codec value
validate codec (turn_coordination value) = Turn.validate codec value
validate codec (response value) = Response.validate codec value
validate codec (action value) = Action.validate codec value
validate codec (execution_receipt value) = Receipt.validate codec value
validate codec (outcome value) = Outcome.validate codec value
validate codec (human_model_assertion value) = HumanModel.validate codec value

-- `HumanCenteredContractSnapshotV1::record_ref`
unfoldable pub record_ref : Codec → ContractSnapshot → Checked ContractRef
record_ref codec (intent value) = Intent.record_ref codec value
record_ref codec (decision value) = Decision.record_ref codec value
record_ref codec (turn_coordination value) = Turn.record_ref codec value
record_ref codec (response value) = Response.record_ref codec value
record_ref codec (action value) = Action.record_ref codec value
record_ref codec (execution_receipt value) = Receipt.record_ref codec value
record_ref codec (outcome value) = Outcome.record_ref codec value
record_ref codec (human_model_assertion value) = HumanModel.record_ref codec value

-- `HumanCenteredContractSnapshotV1::metadata`
abbrev pub metadata : ContractSnapshot → Metadata
metadata (intent value) = value.metadata
metadata (decision value) = value.metadata
metadata (turn_coordination value) = value.metadata
metadata (response value) = value.metadata
metadata (action value) = value.metadata
metadata (execution_receipt value) = value.metadata
metadata (outcome value) = value.metadata
metadata (human_model_assertion value) = value.metadata

-- `record.record_ref().ok().as_ref() == Some(reference)`
unfoldable pub is_named : Codec → ContractRef → ContractSnapshot → Bool
is_named codec reference c = elim (record_ref codec c) [ ok r ↦ r == reference | err _ ↦ false ]
