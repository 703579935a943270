-- ===== src/Attest.antt =====
-- The operator's attestations (packages/backend/signing-layer/src/attestationStore.ts and
-- terminalAttestation.ts).
pub mod Store
pub mod Terminal
pub mod SingleWrite
pub mod Refines
pub mod Race
pub mod Reports
