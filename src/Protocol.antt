-- ===== src/Protocol.antt =====
-- The protocol layer: crates/idr-protocol/src (lib.rs and human_centered).
pub mod Reference
pub mod Error
pub mod Id
pub mod Digest
pub mod ContractRef
pub mod Collections
pub mod Json
pub mod Metadata
pub mod Guards
pub mod Run
pub mod Action
pub mod Authorization
pub mod Turn
pub mod Hex
pub mod Proof
pub mod TrustRoot
pub mod Permit
pub mod Receipt
pub mod Outcome
pub mod Input
pub mod Decision
pub mod Response
pub mod Intent
pub mod HumanModel
