-- ===== src/Lib.antt =====
-- IDR, the Human-Centered Intent & Decision Runtime: a model of its contracts and of its
-- orchestration, translated from the Rust sources, with theorems on what they accept and do.
--
-- The program turns input into contracts (intent, decision, turn plan, response, action, receipt,
-- outcome), each an immutable record under metadata that name its run, its turn, its revision and
-- what it depends on, and sealed by a digest of its contents. A guard decides on each step from
-- facts alone, an action is admitted only under an authorization for exactly that action, signed
-- proofs are checked against pinned keys, an execution needs a permit that such a proof names and
-- gives a receipt that its provider signs, and an orchestrator moves the steps of a run through their
-- states. A contract is made by `issue`, which computes the digest and calls `validate`; whoever
-- receives a contract calls `validate` again, and refers to it by `record_ref`. The file store keeps
-- the history of the contracts of every run, the current revision of each, what a superseded revision
-- invalidates, and the reservations under which actions are executed.
--
-- Files and sources:
-- Base: what the program uses of Rust (Result and `?`, strings, byte strings, sorting, integers).
-- Protocol/Reference: crates/idr-protocol/src/lib.rs, `ReferenceV1`, `AuthorityContextV1`.
-- Protocol/{Error,Id,Digest,ContractRef,Collections,Json,Metadata}:
--     crates/idr-protocol/src/human_centered/common.rs.
-- Protocol/Guards: human_centered/guards.rs. Protocol/Run: human_centered/runtime.rs.
-- Protocol/Turn (Graph: `dependency_path_exists`, Acyclic: `dependency_graph_is_acyclic`):
--     human_centered/turn.rs.
-- Protocol/Action and Protocol/Authorization: human_centered/action.rs.
-- Protocol/{Hex,Proof,TrustRoot}: human_centered/trust.rs.
-- Protocol/Permit and Protocol/Receipt (Attested: its verification): human_centered/execution.rs.
-- Protocol/Input, Protocol/Decision, Protocol/Outcome: human_centered/{input,decision,outcome}.rs.
-- Protocol/Response (Rendered: renderings and their admission): human_centered/response.rs.
-- Protocol/Intent and Protocol/HumanModel: human_centered/{intent,human_model}.rs.
-- Store: crates/idr-store/src/file_store.rs. Contract, Snapshot: the stored data. Consistency:
--     `validate_cross_object_consistency`. Invalidation, History, Sealing: `invalidate_dependents`,
--     `replay_history`, `seal_next_snapshot`. Validity: `validate_snapshot`. Anchors, Machine, Files:
--     the two files and what the file system does to them. Commit, Reserve, Receipts, Permits: what the
--     operations compute from the loaded snapshot. Operations: the methods of the store. Steps: the
--     transitions of the stored snapshot (Fates: the attempts in flight behind a commit). Accepted:
--     what a valid snapshot says of its reservations. Files/Recovery: what a load reads after a write
--     that was cut off. Operations/{Leaves,Idle,Sequels,Refined}: the methods, their files included, against
--     the transitions.
-- Runtime/Orchestrator: crates/idr-runtime/src/orchestrator.rs.
-- Examples: concrete inputs, and the theorems at them.
--
-- Names are the source's without the prefix `HumanCentered`, `Production` or the name of the turn or
-- step machinery, and without the suffix V1; a method is a function of its module (`Action.issue` is
-- `ActionContractV1::issue`). A part of a long function is a definition of its own, under the name
-- of what it checks. `Checked A` is `Result<A, HumanCenteredProtocolError>`; `deny test error` is
-- `if test { return Err(error) }`. A `||` whose later side has a `?` is two such guards in a row.
--
-- A text is the list of its Unicode scalar values, `len` counts its UTF-8 bytes. An integer is a
-- natural number, its width written out where a sum may leave it (`checked_add`). A set is the
-- strictly sorted list of its elements, a map an association list in key order. A `&mut self` method
-- returns the record that it leaves, on an error too.
--
-- Code that is not in the repository is a parameter: serialisation and SHA-256 (`Codec`), the fields
-- of a UUID (`UuidFormat`), Ed25519 and the printed UUID (`Ed25519`). What the program mints (a random
-- UUID) or reads (the clock) is an argument.
--
-- The store's methods are functions `Store → Result × Store` over the cached snapshot, the snapshot
-- file, the anchor file and a list of faults that says how each call of the file system ends: in
-- success, or in an error, which for a write comes after any number of bytes. Directories, the lock,
-- syncs and the temporary file are calls that leave both files. serde_json's forms of the two files
-- are the parameter `Format`, the clock and the minted UUID are arguments, and the path has a parent.
-- What a map of the store holds under keys is a list of its values, from which the keys are read.
--
-- Loops without a bound in the source run on fuel. The walk over a payload has fuel for 10,001
-- rounds, one more than the node limit lets pass, and its theorem shows that it is enough. The path
-- search has a round for each edge and two more, which suffices since a node is expanded once; its
-- theorem decides the existence of a path, so it covers that the fuel does not run out. The
-- acyclicity check has a round for each node and each edge and two more. An invalidation has a round
-- for each current pointer and two more: a pointer enters the queue once, when it is invalidated, and
-- its theorem shows that this suffices.
--
-- Not modelled: the trust chain and the PostgreSQL authority with its SQL, the canonical JSON of
-- production.rs, the legacy shadow runtime, the system clock of the store, the TypeScript and Python
-- packages, and serde's derived code.
pub mod Base
pub mod Protocol
pub mod Runtime
pub mod Store
mod Examples
