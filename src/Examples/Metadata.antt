-- ===== src/Examples/Metadata.antt =====
-- The theorems on metadata, canonical collections and payloads at concrete inputs.
use idr.Base.{
  ℕ, ◌≡◌, ◌≢◌, ◌≤◌, ◌+◌, ◌↔◌, refl, ok, err, [], ◌∷◌, some, none, arith, List, Elem, All,
  StrictlySorted, length, is_blank, Option, inl, true,
}
use idr.Base
use idr.Protocol.Error.{revision_overflow}
use idr.Protocol.Reference
use idr.Protocol.Reference.{Reference}
use idr.Protocol.Id.{action, Identifier-discrete, ContractKind-discrete}
use idr.Protocol.ContractRef
use idr.Protocol.ContractRef.{ContractRef, max_safe_wire_integer, contract_ref_ord}
use idr.Protocol.Collections.{canonical_references, canonical_contract_references, reference_ord}
use idr.Protocol.Json.{
  Value, object, array, null, cons, nil, end, field, validate_json_payload, max_bytes, max_nodes,
  max_depth,
}
use idr.Protocol.Json.Limits.{validate_json_payload-ok_iff, size, depth}
use idr.Protocol.Metadata
use idr.Protocol.Metadata.{Metadata, initial, successor}
use idr.Protocol.Metadata.Lineage.{first, next, ref_of, successor-ne_overflow, History-revision}
use idr.Examples.Samples.{zeros, id, name, context, draft}

-- The first and the second revision that the draft gives.
abbrev revision_of : ℕ → Option ContractRef → Metadata
revision_of n previous = record {
  contract_kind = action;
  contract_id = id 7;
  run_id = id 1;
  turn_id = id 2;
  revision = n;
  predecessor_ref = previous;
  authority_context = context;
  evidence_refs = name b'e' ∷ name b'f' ∷ [];
  dependency_refs = [];
  policy_revision_ref = name b'r';
  valid_until = 100;
  schema_version = 1;
}

abbrev one : Metadata
one = revision_of 1 none

abbrev two : Metadata
two = revision_of 2 (some (ref_of one zeros))

begins : initial (id 7) action draft ≡ ok one
unfolding initial canonical_references Base.any Base.sort_dedup is_blank Base.ℕ_discrete
    canonical_contract_references Base.try_each Metadata.validate Metadata.malformed
    Reference.validate Base.Text-discrete Base.len Base.has_control Metadata.check_lineage
begins = refl

continues_second : successor action (ref_of one zeros) draft ≡ ok two
unfolding successor ContractRef.validate Base.ℕ_discrete idr.Protocol.Digest.valid_digest
    ContractKind-discrete canonical_references Base.any Base.sort_dedup is_blank
    canonical_contract_references Base.try_each Metadata.validate Metadata.malformed
    Reference.validate Base.Text-discrete Base.has_control Metadata.check_lineage Base.all
    Base.dedup Base.sort Base.len Base.trim ContractRef.cmp Identifier-discrete Metadata.build
    Metadata.check_dependency Metadata.continues Reference.new Reference.refused
continues_second = refl

two_valid : Metadata.validate two ≡ ok tt
unfolding Metadata.validate Metadata.malformed Base.ℕ_discrete is_blank Reference.validate
    Base.try_each Base.Text-discrete Base.len Base.has_control Metadata.check_lineage
    Metadata.continues ContractKind-discrete Identifier-discrete ContractRef.validate
    idr.Protocol.Digest.valid_digest
two_valid = refl

abbrev payload : Value
payload = object (field (b'a' ∷ []) (array (cons null (cons null nil))) end)

payload_valid : validate_json_payload (λ v. some (b'x' ∷ [])) payload ≡ ok tt
unfolding validate_json_payload idr.Protocol.Json.walk
payload_valid = refl

successor-ne_overflow_example : successor action (ref_of one zeros) draft ≢ err revision_overflow
successor-ne_overflow_example = successor-ne_overflow action (ref_of one zeros) draft

History-revision_example :
    (two.revision ≡ 2)
    × (two.contract_id ≡ id 7)
    × (two.contract_kind ≡ action)
    × (Metadata.validate two ≡ ok tt)
    × (2 ≤ max_safe_wire_integer)
History-revision_example =
    History-revision (next one 1 zeros draft two (first draft one begins) continues_second)

validate_json_payload-ok_iff_example :
    (bytes : List ℕ) × (some (b'x' ∷ []) ≡ some bytes)
    × (length bytes ≤ max_bytes)
    × (size payload ≤ max_nodes)
    × (depth payload ≤ max_depth)
validate_json_payload-ok_iff_example =
    (validate_json_payload-ok_iff (λ v. some (b'x' ∷ [])) payload).0 payload_valid
