-- ===== src/Verify.antt =====
-- continuity_receipt/verify.py. Each pass is a child module; `Main` composes them.
pub mod Report
pub mod Depth
pub mod Body
pub mod Chain
pub mod Shape
pub mod Settlement
pub mod Resolve
pub mod Agreement
pub mod Authority
pub mod Redactions
pub mod Attestations
pub mod Revoked
pub mod Anchors
pub mod Main
pub mod Accepted
pub mod Soundness
pub mod Crash
pub mod Evidence
pub mod Passes
