-- ===== src/Merkle.antt =====
-- The append-only Poseidon tree (packages/backend/proof-relay/src/merkleTree.ts and merkle.ts).
-- The hash of two children is the parameter `hash`, for poseidon2 of poseidon-lite.
pub mod Reference
pub mod Cache
pub mod Mirror
pub mod Paths
pub mod OnTheFly
pub mod Layers
pub mod Agreement
pub mod Sync
pub mod SyncEnds
pub mod Ingest
pub mod Honest
