-- ===== src/Examples.antt =====
-- Concrete inputs, and the main theorems applied to them.
mod Samples
mod Actions
mod Metadata
mod Turns
mod Steps
mod Proofs
mod Permits
mod Receipts
mod Decisions
mod Responses
mod Intents
mod Stored
mod Stores
mod Recovery
