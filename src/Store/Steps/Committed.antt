-- ===== src/Store/Steps/Committed.antt =====
-- A commit of crates/idr-store/src/file_store.rs and the attempts in flight.
use idr.Base.{
  ◌≡◌, ◌≢◌, inl, inr, sym, ap, subst, ◌∙◌, true, List, ◌∷◌, ◌++◌, [], Elem, find, find-some,
  find-none, Option, none, some, ok, arith, Bool-cases, Option-cases, Result-cases, contains,
  contains_iff,
}
use idr.Protocol.Id.{kind_eq, id_eq}
use idr.Protocol.Digest.{Codec}
use idr.Protocol.ContractRef.{ContractRef, contract_ref_eq, contract_ref_ord}
use idr.Store.Contract.{ContractSnapshot}
use idr.Store.Snapshot.{Snapshot, same_contract, pointer_to, is_current}
use idr.Store.Invalidation.{
  invalidate_dependents, replace_pointer, reconcile_invalidated_execution_reservations,
}
use idr.Store.Receipts.{apply_execution_receipt_transition}
use idr.Store.Commit.{ReceiptProof, supersede, settle, commit_candidate}
use idr.Store.Commit.Pointers.{OnePointer, replace_pointer-Elem, replace_pointer-OnePointer}
use idr.Store.Steps.InFlight.{Flies, KeepsCurrent}
use idr.Store.Steps.Withdrawn.{invalidate-Flies, settle-Settles}

module _ (codec : Codec) where
  -- The parts of a commit: the invalidation, the settled receipt and the new pointer.
  pub record Parts (s s' : Snapshot) (c : ContractSnapshot) (reference : ContractRef)
      (proof : Option ReceiptProof) : Type 0 where
    pub superseded : Snapshot
    pub is_superseded : supersede codec s (pointer_to s.current_pointers reference) ≡ ok superseded
    pub receipted : Snapshot
    pub is_settled :
        settle (record superseded { records = superseded.records ++ c ∷ [] }) c reference proof
        ≡ ok receipted
    pub is_end : s' ≡ record receipted {
      current_pointers = replace_pointer receipted.current_pointers reference;
    }

  pub commit-Parts :
      (s s' : Snapshot) (c : ContractSnapshot) (reference : ContractRef)
      (proof : Option ReceiptProof)
      → commit_candidate codec c proof reference s ≡ ok s'
      → Parts s s' c reference proof
  unfolding commit_candidate
  commit-Parts s s' c reference proof h =
      elim (Result-cases (supersede codec s (pointer_to s.current_pointers reference))) [
        | inr (x, e) ↦ absurd (ground arith)
        | inl (u, e) ↦
            elim (Result-cases
              (settle (record u { records = u.records ++ c ∷ [] }) c reference proof)) [
                | inr (x, k) ↦ absurd (ground arith)
                | inl (w, k) ↦ record {
                  superseded = u;
                  is_superseded = e;
                  receipted = w;
                  is_settled = k;
                  is_end = ground arith;
                }
              ]
      ]

  -- What flies after the invalidation is current, and not the superseded pointer.
  supersede-Flies :
      (s u : Snapshot) (o : Option ContractRef) (a : ContractRef)
      → KeepsCurrent s
      → supersede codec s o ≡ ok u
      → Flies u.execution_reservations a
      → Flies s.execution_reservations a
        × (is_current u a ≡ true)
        × (o ≢ some a)
        × (u.current_pointers ≡ s.current_pointers)
  supersede-Flies s u none a k h f =
      let e : u ≡ s = ground arith in
      let f' = subst (λ (x : Snapshot). Flies x.execution_reservations a) e f in
      (
        f',
        subst (λ (x : Snapshot). is_current x a ≡ true) (sym e) (k.current a f'),
        (λ x. cc),
        ap (λ (x : Snapshot). x.current_pointers) e,
      )
  supersede-Flies s u (some p) a k h f =
      let (f', current, apart, pointers) = invalidate-Flies codec s u p a h f in
      (
        f',
        current,
        (λ e.
            let same : p ≡ a = ground arith in
            apart (ap (λ (x : ContractRef). x.kind) same ∙ k.is_action a f') (sym same)),
        pointers,
      )

  -- A pointer that the commit does not supersede stays.
  stays :
      (pointers : List ContractRef) (reference a : ContractRef)
      → OnePointer pointers
      → Elem a pointers
      → pointer_to pointers reference ≢ some a
      → Elem a (replace_pointer pointers reference)
  unfolding pointer_to
  stays pointers reference a one m apart = elim (Bool-cases (same_contract a reference)) [
    | inr other ↦ (replace_pointer-Elem pointers reference a).1 (inl (m, other))
    | inl same ↦ elim (Option-cases (find (λ pointer. same_contract pointer reference) pointers)) [
      | inl e ↦
          absurd
            (ground (arith, find-none (λ pointer. same_contract pointer reference) a pointers e m))
      | inr (p, e) ↦ absurd (
          ground
            (arith, find-some (λ pointer. same_contract pointer reference) p pointers e, one a p m))
    ]
  ]

  still_current :
      (s s' u w : Snapshot) (reference a : ContractRef)
      → KeepsCurrent s
      → w.current_pointers ≡ u.current_pointers
      → w.invalidated_refs ≡ u.invalidated_refs
      → u.current_pointers ≡ s.current_pointers
      → is_current u a ≡ true
      → pointer_to s.current_pointers reference ≢ some a
      → s' ≡ record w { current_pointers = replace_pointer w.current_pointers reference }
      → is_current s' a ≡ true
  unfolding is_current
  still_current s s' u w reference a k e1 e2 e3 current apart e4 =
      let was : Elem a s.current_pointers =
        subst (Elem a) e3 ((contains_iff u.current_pointers a).0 (ground arith)) in
      let here : Elem a (replace_pointer s.current_pointers reference) =
        stays s.current_pointers reference a k.one was apart in
      let ptrs : s'.current_pointers ≡ replace_pointer s.current_pointers reference =
        ap (λ (x : Snapshot). x.current_pointers) e4
        ∙ ap (λ (l : List ContractRef). replace_pointer l reference) (e1 ∙ e3) in
      let inv : s'.invalidated_refs ≡ u.invalidated_refs =
        ap (λ (x : Snapshot). x.invalidated_refs) e4 ∙ e2 in
      let is_in : contains s'.current_pointers a ≡ true =
        (contains_iff s'.current_pointers a).1 (subst (Elem a) (sym ptrs) here) in
      let is_out : contains s'.invalidated_refs a ≡ contains u.invalidated_refs a =
        ap (λ (l : List ContractRef). contains l a) inv in
      ground arith

  settle-pointers :
      (s u : Snapshot) (c : ContractSnapshot) (reference : ContractRef)
      (proof : Option ReceiptProof)
      → settle s c reference proof ≡ ok u
      → u.current_pointers ≡ s.current_pointers
  unfolding apply_execution_receipt_transition
  settle-pointers s u (ContractSnapshot.execution_receipt r) reference none h = cc
  settle-pointers s u (ContractSnapshot.execution_receipt r) reference (some p) h = ground arith
  settle-pointers s u (ContractSnapshot.intent _) reference proof h = ground arith
  settle-pointers s u (ContractSnapshot.decision _) reference proof h = ground arith
  settle-pointers s u (ContractSnapshot.turn_coordination _) reference proof h = ground arith
  settle-pointers s u (ContractSnapshot.response _) reference proof h = ground arith
  settle-pointers s u (ContractSnapshot.action _) reference proof h = ground arith
  settle-pointers s u (ContractSnapshot.outcome _) reference proof h = ground arith
  settle-pointers s u (ContractSnapshot.human_model_assertion _) reference proof h = ground arith

  supersede-pointers :
      (s u : Snapshot) (o : Option ContractRef)
      → supersede codec s o ≡ ok u
      → u.current_pointers ≡ s.current_pointers
  unfolding invalidate_dependents reconcile_invalidated_execution_reservations
  supersede-pointers s u none h = ground arith
  supersede-pointers s u (some p) h = ground arith

  pub commit-KeepsCurrent :
      (s s' : Snapshot) (c : ContractSnapshot) (reference : ContractRef)
      (proof : Option ReceiptProof)
      → KeepsCurrent s
      → commit_candidate codec c proof reference s ≡ ok s'
      → KeepsCurrent s'
  commit-KeepsCurrent s s' c reference proof k h =
      let parts = commit-Parts s s' c reference proof h in
      let u = parts.superseded in
      let w = parts.receipted in
      let recorded : Snapshot = record u { records = u.records ++ c ∷ [] } in
      let o = pointer_to s.current_pointers reference in
      let chain : (a : ContractRef)
          → Flies s'.execution_reservations a
          → Flies s.execution_reservations a × (is_current s' a ≡ true) =
        λ a f.
          let (g, ptrs, inv) =
            settle-Settles recorded w c reference a proof parts.is_settled
              (subst (λ (x : Snapshot). Flies x.execution_reservations a) parts.is_end f) in
          let (f', current, apart, ptrs') = supersede-Flies s u o a k parts.is_superseded g in
          (f', still_current s s' u w reference a k ptrs inv ptrs' current apart parts.is_end) in
      record {
        one =
            subst OnePointer
              (ap (λ (l : List ContractRef). replace_pointer l reference)
                  (sym (
                    settle-pointers recorded w c reference proof parts.is_settled
                    ∙ supersede-pointers s u o parts.is_superseded))
                ∙ ap (λ (x : Snapshot). x.current_pointers) (sym parts.is_end))
              (replace_pointer-OnePointer s.current_pointers reference k.one);
        is_action = λ a f. k.is_action a (chain a f).0;
        current = λ a f. (chain a f).1;
      }
