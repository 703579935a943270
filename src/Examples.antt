-- ===== src/Examples.antt =====
-- Runs of the definitions at concrete inputs, and the theorems at them.
mod MerkleRuns
mod SigningRuns
mod TrackerRuns
mod FrontendRuns
mod DeskRuns
mod SettlementRuns
mod RecoveryRuns
mod RegistryRuns
mod IndexRuns
mod SourceRuns
mod LedgerRuns
