-- ===== src/Protocol/Receipt/Validity.antt =====
-- What `ExecutionReceiptV1::validate` demands of each state, and what its digest binds.
use idr.Base.{
  ℕ, ◌≤◌, ◌<◌, ◌≡◌, ◌⊎◌, sym, ap, ◌∙◌, false, true, ok, arith, is_some, is_empty, Elem, contains,
  contains_iff, text_eq,
}
use idr.Protocol.Error.{digest_mismatch}
use idr.Protocol.Id.{action, execution_receipt}
use idr.Protocol.Digest.{Codec, contract_digest, check_digest, check_digest-ok_iff}
use idr.Protocol.ContractRef.{contract_ref_eq}
use idr.Protocol.Action
use idr.Protocol.Action.{ActionContract}
use idr.Protocol.Metadata
use idr.Protocol.Receipt.{
  ExecutionReceipt, ReceiptDraft, succeeded, failed, rejected, digest_input, result_digest,
  check_result, malformed, misreported, validate, seal, issue, option_text_eq,
}

-- What a valid receipt says.
pub record Reports (codec : Codec) (r : ExecutionReceipt) : Type 0 where
  pub metadata_valid : Metadata.validate r.metadata ≡ ok tt
  pub is_receipt : r.metadata.contract_kind ≡ execution_receipt
  pub of_action : r.action_ref.kind ≡ action
  pub depends : Elem r.action_ref r.metadata.dependency_refs
  pub attempted : 0 < r.attempt
  pub ordered : (0 < r.started_at) × (r.started_at ≤ r.completed_at)
  pub payload_sealed : result_digest codec r.result_payload ≡ ok r.result_payload_digest
  pub success :
      r.state ≡ succeeded
      → (is_some r.result_payload ≡ true)
        × (is_empty r.verification_results ≡ false)
        × (is_empty r.error_codes ≡ true)
  pub failure : (r.state ≡ failed) ⊎ (r.state ≡ rejected) → is_empty r.error_codes ≡ false
  pub sealed : contract_digest codec "execution-receipt-v1" (digest_input r) ≡ ok r.record_digest

malformed-contains :
    (r : ExecutionReceipt)
    → malformed r ≡ false
    → contains r.metadata.dependency_refs r.action_ref ≡ true
unfolding malformed
malformed-contains r h = ground arith

misreported-false :
    (r : ExecutionReceipt)
    → misreported r.state r ≡ false
    → (r.state ≡ succeeded
        → (is_some r.result_payload ≡ true)
          × (is_empty r.verification_results ≡ false)
          × (is_empty r.error_codes ≡ true))
      × ((r.state ≡ failed) ⊎ (r.state ≡ rejected) → is_empty r.error_codes ≡ false)
misreported-false r h = ((λ e. ground arith), λ e. ground arith)

check_result-ok :
    (codec : Codec) (r : ExecutionReceipt)
    → check_result codec r ≡ ok tt
    → result_digest codec r.result_payload ≡ ok r.result_payload_digest
unfolding check_result
check_result-ok codec r h = ground arith

receipt-parts :
    (codec : Codec) (r : ExecutionReceipt)
    → validate codec r ≡ ok tt
    → (Metadata.validate r.metadata ≡ ok tt)
      × (r.metadata.contract_kind ≡ execution_receipt)
      × (malformed r ≡ false)
      × (check_result codec r ≡ ok tt)
      × (misreported r.state r ≡ false)
      × (check_digest codec "execution-receipt-v1" (digest_input r) r.record_digest digest_mismatch
          ≡ ok tt)
unfolding validate
receipt-parts codec r h = ground arith

malformed-times :
    (r : ExecutionReceipt)
    → malformed r ≡ false
    → (r.action_ref.kind ≡ action)
      × (0 < r.attempt)
      × (0 < r.started_at)
      × (r.started_at ≤ r.completed_at)
unfolding malformed
malformed-times r h = ground arith

-- A valid receipt is one of an action that it depends on, with at least one attempt and its times
-- in order; a success has a payload, a verification and no error, a failure or rejection has an
-- error, and the digests of the payload and of the receipt are those of their contents.
pub validate-Reports :
    (codec : Codec) (r : ExecutionReceipt) → validate codec r ≡ ok tt → Reports codec r
validate-Reports codec r h =
    let (metadata_valid, is_receipt, formed, result, reported, digest) = receipt-parts codec r h in
    let (of_action, attempted, started, ordered) = malformed-times r formed in
    let (success, failure) = misreported-false r reported in
    record {
      metadata_valid = metadata_valid;
      is_receipt = is_receipt;
      of_action = of_action;
      depends =
          (contains_iff r.metadata.dependency_refs r.action_ref).0 (malformed-contains r formed);
      attempted = attempted;
      ordered = (started, ordered);
      payload_sealed = check_result-ok codec r result;
      success = success;
      failure = failure;
      sealed =
          (check_digest-ok_iff codec "execution-receipt-v1" (digest_input r) r.record_digest
              digest_mismatch).0
            digest;
    }

-- An issued receipt is valid, names the action's record, repeats its idempotency key and parameter
-- digest, and has the state, times and results that it was given.
pub issue_receipt-ok :
    (codec : Codec) (minted : ℕ) (a : ActionContract) (d : ReceiptDraft) (r : ExecutionReceipt)
    → issue codec minted a d ≡ ok r
    → (validate codec r ≡ ok tt)
      × (Action.record_ref codec a ≡ ok r.action_ref)
      × (r.idempotency_key ≡ a.idempotency_key)
      × (r.request_parameter_digest ≡ a.parameter_digest)
      × (r.execution_id ≡ minted)
      × (r.state ≡ d.state)
      × (r.started_at ≡ d.started_at)
      × (r.completed_at ≡ d.completed_at)
      × (r.result_payload ≡ d.result_payload)
unfolding issue seal
issue_receipt-ok codec minted a d r h = ground arith

digest_input-injective :
    (r s : ExecutionReceipt)
    → digest_input r ≡ digest_input s
    → r.record_digest ≡ s.record_digest
    → r ≡ s
digest_input-injective r s e d = ground arith

-- Two valid receipts with the same digest are the same, where the digest does not collide on them.
pub receipt-binds :
    (codec : Codec) (r s : ExecutionReceipt)
    → validate codec r ≡ ok tt
    → validate codec s ≡ ok tt
    → r.record_digest ≡ s.record_digest
    → (contract_digest codec "execution-receipt-v1" (digest_input r)
          ≡ contract_digest codec "execution-receipt-v1" (digest_input s)
        → digest_input r ≡ digest_input s)
    → r ≡ s
receipt-binds codec r s h k e distinct =
    let x : _ = (validate-Reports codec r h).sealed in
    let y : _ = (validate-Reports codec s k).sealed in
    digest_input-injective r s (distinct (x ∙ ap ok e ∙ sym y)) e
