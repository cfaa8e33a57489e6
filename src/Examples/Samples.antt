-- ===== src/Examples/Samples.antt =====
-- A digest function, identifiers, references and metadata for the examples.
use idr.Base.{ℕ, zero, suc, ◌<◌, List, [], ◌∷◌, none, some, Text, repeat, true, false}
use idr.Base.Bytes.{IsText}
use idr.Protocol.Reference.{Reference, AuthorityContext}
use idr.Protocol.Id.{Identifier, ContractKind, action, decision, response, turn_coordination, high}
use idr.Protocol.Digest.{Codec}
use idr.Protocol.ContractRef.{ContractRef}
use idr.Protocol.Metadata.{Metadata, Draft}
use idr.Protocol.Json.{object, end}
use idr.Protocol.Action.{ActionContract, ActionDraft, AuthorizationState}
use idr.Protocol.Authorization.{ExactActionAuthorization, approve, AdmissionFacts}
use idr.Protocol.Guards.{CoordinationMode, respond_then_confirm_then_act, act_then_respond}
use idr.Protocol.TrustRoot.{Ed25519}
use idr.Protocol.Turn.Graph.{Edge}
use idr.Protocol.Turn.{Plan, Gate, user_authorization, report_only, silent}

abbrev pub zeros : Text
zeros = repeat 64 b'0'

-- Every value has the empty serialisation, and every digest is 64 zeros.
abbrev pub blank_codec : Codec
blank_codec = record { to_vec = λ v. some []; sha256_hex = λ bytes. zeros }

abbrev pub id : ℕ → Identifier
id n = record { uuid = n }

abbrev pub name : ℕ → Reference
name c = record { text = c ∷ [] }

abbrev pub context : AuthorityContext
context = record {
  subject_ref = name b's';
  actor_ref = name b'a';
  caller_ref = name b'c';
  tenant_ref = name b't';
  scope_ref = name b'o';
  purpose_ref = name b'p';
  operation_ref = name b'x';
}

abbrev pub ref : ContractKind → ℕ → ContractRef
ref kind n = record { kind = kind; contract_id = id n; revision = 1; record_digest = zeros }

abbrev pub metadata : ContractKind → ℕ → List ContractRef → Metadata
metadata kind n dependencies = record {
  contract_kind = kind;
  contract_id = id n;
  run_id = id 1;
  turn_id = id 2;
  revision = 1;
  predecessor_ref = none;
  authority_context = context;
  evidence_refs = [];
  dependency_refs = dependencies;
  policy_revision_ref = name b'r';
  valid_until = 100;
  schema_version = 1;
}

abbrev pub draft : Draft
draft = record {
  run_id = id 1;
  turn_id = id 2;
  authority_context = context;
  evidence_refs = name b'f' ∷ name b'e' ∷ name b'f' ∷ [];
  dependency_refs = [];
  policy_revision_ref = name b'r';
  valid_until = 100;
}

-- An action of high impact that waits for its authorization.
abbrev pub transfer : ActionContract
transfer = record {
  metadata = metadata action 7 (ref decision 9 ∷ []);
  decision_ref = some (ref decision 9);
  operation_ref = name b'x';
  parameters = object end;
  parameter_digest = zeros;
  preconditions = [];
  required_authority_refs = [];
  authorization_state = AuthorizationState.pending;
  impact_level = high;
  reversible = false;
  idempotency_key = b'k' ∷ [];
  verification_requirements = (b'v' ∷ []) ∷ [];
  compensation_operations = [];
  record_digest = zeros;
}

abbrev pub transfer_draft : ActionDraft
transfer_draft = record {
  metadata = transfer.metadata;
  decision_ref = transfer.decision_ref;
  operation_ref = transfer.operation_ref;
  parameters = transfer.parameters;
  preconditions = [];
  required_authority_refs = [];
  authorization_state = transfer.authorization_state;
  impact_level = high;
  reversible = false;
  idempotency_key = transfer.idempotency_key;
  verification_requirements = transfer.verification_requirements;
  compensation_operations = [];
}

-- An authorization of that action from time 5 to time 50.
abbrev pub approval : ExactActionAuthorization
approval = record {
  authorization_id = 3;
  action_ref = ref action 7;
  parameter_digest = zeros;
  actor_ref = name b'a';
  decision = approve;
  scope_ref = name b'o';
  authority_context_digest = zeros;
  issued_at = 5;
  expires_at = 50;
  schema_version = 1;
}

abbrev pub favourable : AdmissionFacts
favourable = record {
  capability_registered = true;
  capability_enabled = true;
  actor_authority_valid = true;
  agent_authority_valid = true;
  parameters_valid = true;
  preconditions_satisfied = true;
  policy_allows = true;
  verification_available = true;
  compensation_available_if_required = true;
  dependencies_current = true;
}

abbrev pub plan : CoordinationMode → List Edge → List Gate → Plan
plan mode edges gates = record {
  metadata = metadata turn_coordination 20 (ref response 5 ∷ ref action 7 ∷ []);
  mode = mode;
  response_refs = ref response 5 ∷ [];
  action_refs = ref action 7 ∷ [];
  dependencies = edges;
  gates = gates;
  failure_policy = report_only;
  progress_policy = silent;
  rationale = b'w' ∷ [];
  record_digest = zeros;
}

abbrev pub announces : Edge
announces = record { before = ref response 5; after = ref action 7 }

abbrev pub reports : Edge
reports = record { before = ref action 7; after = ref response 5 }

-- A response, a confirmation and then an action.
abbrev pub confirming : Plan
confirming = plan respond_then_confirm_then_act (announces ∷ []) (
    record { gate_kind = user_authorization; required_before = ref action 7; policy_ref = none }
    ∷ [])

-- An action and then a response.
abbrev pub reporting : Plan
reporting = plan act_then_respond (reports ∷ []) []

-- A UUID printed as itself, in front of 35 zeros.
abbrev pub printed : ℕ → List ℕ
printed u = u ∷ repeat 35 0

-- Every key is a key, and every signature verifies.
abbrev pub trusting : Ed25519
trusting = record {
  is_key = λ bytes. true;
  verifies = λ key message signature. true;
  hyphenated = printed;
}

pub repeat-IsText : (n c : ℕ) → c < 0x110000 → IsText (repeat n c)
repeat-IsText zero c h = tt
repeat-IsText (suc n) c h = (h, repeat-IsText n c h)
