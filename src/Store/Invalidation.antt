-- ===== src/Store/Invalidation.antt =====
-- crates/idr-store/src/file_store.rs: what a superseded revision invalidates.
pub mod Spread
pub mod Closure
use idr.Base.{
  ℕ, zero, suc, ◌+◌, Bool, true, false, ◌||◌, not, ◌==◌, ◌!=◌, if◌then◌else◌, List, [], ◌∷◌, ◌++◌,
  length, map, map_last, filter, contains, Option, none, some, ok, err, ◌>>=◌, sort, sort_dedup,
}
use idr.Base.BTree.{add}
use idr.Protocol.Id.{kind_eq, action}
use idr.Protocol.Digest.{Codec}
use idr.Protocol.ContractRef.{ContractRef, contract_ref_eq, contract_ref_ord}
use idr.Store.Error.{Stored, corrupt_snapshot}
use idr.Store.Contract.{ContractSnapshot, metadata}
use idr.Store.Snapshot.{
  ReservationStatus, permit_issued, delivered, dispatched, cancelled, reconciliation_required,
  Attempt, Reservation, Snapshot, same_contract, record_of, is_current,
}

-- What becomes of an attempt whose action is gone: what was not dispatched is cancelled.
abbrev pub abandoned : ReservationStatus → ReservationStatus
abandoned permit_issued = cancelled
abandoned delivered = cancelled
abandoned dispatched = reconciliation_required
abandoned status = status

abbrev pub abandon : Reservation → Reservation
abandon r = record r {
  attempts = map_last (λ (a : Attempt). record a { status = abandoned a.status }) r.attempts;
}

-- `invalidate_execution_reservation`
unfoldable pub invalidate_execution_reservation : ContractRef → List Reservation → List Reservation
invalidate_execution_reservation stale reservations =
    if stale.kind != action
    then reservations
    else map (λ (r : Reservation). if r.action_ref != stale then r else abandon r) reservations

-- `reconcile_invalidated_execution_reservations`
unfoldable pub reconcile_invalidated_execution_reservations : Snapshot → Snapshot
reconcile_invalidated_execution_reservations s = record s {
  execution_reservations =
      map (λ (r : Reservation). if is_current s r.action_ref then r else abandon r)
        s.execution_reservations;
}

module _ (codec : Codec) (records : List ContractSnapshot) where
  -- The body of the loop over the pointers: the invalidated references and the queue.
  unfoldable pub visit_pointer :
      ContractRef
      → ContractRef
      → List ContractRef × List ContractRef
      → Stored (List ContractRef × List ContractRef)
  visit_pointer stale pointer (invalidated, queue) =
      if same_contract pointer stale || contains invalidated pointer
      then ok (invalidated, queue)
      else elim (record_of codec records pointer) [
        | none ↦ err corrupt_snapshot
        | some c ↦
            if contains (metadata c).dependency_refs stale
            then ok (invalidated ++ pointer ∷ [], queue ++ pointer ∷ [])
            else ok (invalidated, queue)
      ]

  unfoldable pub visit_pointers :
      ContractRef
      → List ContractRef
      → List ContractRef × List ContractRef
      → Stored (List ContractRef × List ContractRef)
  visit_pointers stale [] state = ok state
  visit_pointers stale (pointer ∷ pointers) state =
      visit_pointer stale pointer state >>= λ state'. visit_pointers stale pointers state'

  -- The `while` loop over the queue, on fuel: the invalidated references, or an early error.
  unfoldable pub invalidate_loop :
      List ContractRef
      → ℕ
      → List ContractRef
      → List ContractRef
      → List ContractRef
      → Option (Stored (List ContractRef))
  invalidate_loop pointers zero queue visited invalidated = none
  invalidate_loop pointers (suc fuel) [] visited invalidated = some (ok invalidated)
  invalidate_loop pointers (suc fuel) (stale ∷ queue) visited invalidated =
      let (is_new, visited') = add stale visited in
      let skipped = invalidate_loop pointers fuel queue visited invalidated in
      let searched : Option (Stored (List ContractRef)) =
        elim (visit_pointers stale pointers (invalidated, queue)) [
          | err e ↦ some (err e)
          | ok (invalidated', queue') ↦ invalidate_loop pointers fuel queue' visited' invalidated'
        ] in
      elim is_new [ false ↦ skipped | true ↦ searched ]

-- A round for the first reference, for each pointer, and one that finds the queue empty.
abbrev pub invalidate_fuel : List ContractRef → ℕ
invalidate_fuel pointers = length pointers + 2

abbrev pub finished : Option (Stored (List ContractRef)) → Stored (List ContractRef)
finished none = err corrupt_snapshot
finished (some r) = r

-- `invalidate_dependents`
unfoldable pub invalidate_dependents : Codec → Snapshot → ContractRef → Stored Snapshot
invalidate_dependents codec s stale = do
  invalidated ← finished (
      invalidate_loop codec s.records s.current_pointers (invalidate_fuel s.current_pointers)
        (stale ∷ []) [] s.invalidated_refs)
  ok (
      reconcile_invalidated_execution_reservations (record s {
        invalidated_refs = sort_dedup invalidated;
        execution_reservations = invalidate_execution_reservation stale s.execution_reservations;
      }))

-- `replace_pointer`
unfoldable pub replace_pointer : List ContractRef → ContractRef → List ContractRef
replace_pointer pointers next =
    sort (filter (λ current. not (same_contract current next)) pointers ++ next ∷ [])
