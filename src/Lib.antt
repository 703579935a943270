-- ===== src/Lib.antt =====
-- Polyshield: the parts of its TypeScript that decide about money. A user deposits into a Vault and
-- holds notes in a commitment tree; a bet spends a note, the operator's signing layer trades it on the
-- order book of Polymarket and attests how it ended, and the user is credited by that attestation.
--
-- Parts and files; paths are from the root of the repository.
--
-- Merkle: the commitment tree of packages/backend/proof-relay/src. Merkle/Cache is CachedMerkleTree of
--   merkleTree.ts (Tree is its fields; append, proof_for, load_from_db are the methods), Merkle/Sync
--   its sync, catchUp and start, Merkle/OnTheFly is computeMerkleProof of merkle.ts. Merkle/Reference
--   describes the tree by itself (subtree) with the check that a verifier makes (climb). Merkle/Mirror
--   says what it is for the cache to be the tree over a list of leaves; Merkle/Paths, Merkle/Layers,
--   Merkle/Agreement, Merkle/Ingest, Merkle/Honest and Merkle/SyncEnds hold the proofs.
-- LogScan: the paging of eth_getLogs (getLogsChunked of merkle.ts, queryFilterChunked of
--   packages/backend/signing-layer/src/logScan.ts) and the retries of RetryingJsonRpcProvider.
-- EventIndex: eventIndex.ts of the proof relay: the table of the Vault's events and its sync
--   (EventIndex), the look-ups (EventIndex/Reads), and the proofs (EventIndex/Records).
-- Attest: packages/backend/signing-layer/src/attestationStore.ts (Attest/Store, its tables as lists
--   of rows, which Attest/Refines compares with a book of outcomes and sales) and terminalAttestation.ts (Attest/Terminal).
-- Signing: nonceManager.ts (Signing/Nonce), jitFunding.ts and bufferManager.ts (Signing/Funding),
--   tokenBinding.ts (Signing/TokenBinding), and of orderBuilder.ts the cost of a fill and the recovery
--   of a market submission (Signing/MarketOrders), in packages/backend/signing-layer/src.
-- Tracker: wsFillTracker.ts of the same folder: the registry of resting orders (Tracker), the cancel
--   and reconcile paths (Tracker/Cancel), the restart (Tracker/Resume) and
--   runs of any sequence of entry points (Tracker/Steps). It calls Attest/Terminal, which writes to Attest/Store.
-- Desk: the signing layer as one state, packages/backend/signing-layer/src: the attestations with the
--   tracker, the other tables, the memory of the listener and the breaker (Desk; circuitBreaker.ts,
--   limitOrderStore.ts, trackedMarkets.ts), the BUY orders of orderBuilder.ts (Desk/Submit) and its
--   closes (Desk/Sell), eventListener.ts (Desk/Listener, Desk/Scan), and the routes of autoSettlement.ts
--   (Desk/Routes). Desk/Source is vaultEventSource.ts, which the listener reads, with the routes of
--   packages/backend/proof-relay/src/api.ts that serve EventIndex to it. Desk/Runs is any sequence of records, requests, messages and restarts. Desk/Once,
--   Desk/Outcomes, Desk/Closes, Desk/Gaps and Desk/Scan/Coverage hold the proofs.
-- Settlement: settlementResolver.ts and redemptionPipeline.ts of the same folder: the poll of the tracked
--   markets (Settlement) and the pipeline from resolveMarket to the acknowledgement
--   (Settlement/Redemption); proofs in Settlement/Progress, Settlement/Lost, Settlement/Redemption/Bounds.
-- Registry: marketRegistry.ts of the same folder: the rows of the markets, their two syncs and look-ups.
--   Registry/Binding joins them with Signing/TokenBinding.
-- Frontend: packages/frontend/src/lib: betClassify.ts (Frontend/Receipts), computeOrderPreview of
--   pricing.ts (Frontend/Preview), selectNotesForAmount and the views of the wallet of notes.ts
--   (Frontend/Selection), and of the same file the replay that recovers the notes from the events of the
--   Vault (Frontend/Recovery), which Frontend/Recovery/Roundtrip compares with what a wallet does
--   (Frontend/Recovery/Wallet). Frontend/Ledger is the writers of the notes and of the activity of notes.ts,
--   Ledger/Flows, Ledger/Refunds and Ledger/Spends are the flows that call them: settlePosition.ts,
--   finalizeClose.ts, finalizePartial.ts, cancelAndReclaim.ts, consolidate.ts, and the submissions of
--   packages/frontend/src/components/app/BetModal.tsx and the withdraw and deposit pages of
--   packages/frontend/src/app/app; Ledger/Runs is any sequence of them, Ledger/Books its
--   books, and Ledger/Lineage the notes that the credits of its open positions can land on.
--   Frontend/Portfolio is accountState.ts: what it shows of a bet, and the profit and loss, which
--   Portfolio/Ready and Portfolio/Basis join with the flows.
-- Common holds the shared names; Examples runs the definitions and applies the theorems.
--
-- Bounds and fuel. Leaf indices are natural numbers; the 32-bit operators of merkleTree.ts agree with
-- them below 2 ^ 31, which the theorems about its contents ask for. page has as fuel the number of blocks
-- and the span, which each round lowers; scan_windows of Merkle/Sync has one
-- more than the target block, and those of Desk/Scan and EventIndex one more than the blocks of their range. Amounts are
-- natural numbers scaled by 1e6, as the uint64 values of the contracts; those of the CLOB are given as
-- the integers that the code rounds them to.
--
-- Parameters: the Poseidon hash, the signer, the ABI decoder, the replies of the RPC and of the CLOB,
-- the token, Vault and executor on the chain (Signing/Funding.Chain, with the effects that are
-- relied on in IsLawful), and in Frontend/Ledger the commitments and nullifiers of a wallet's notes.
--
-- Not modelled: rendering, the other HTTP routes, sockets and timers, logging, the relayer, the market
-- catalog, the floating-point sizing of orders, the provers of the frontend and the storage of its
-- notes, the contracts and the circuits.
pub mod Common
pub mod Merkle
pub mod Attest
pub mod EventIndex
pub mod LogScan
pub mod Signing
pub mod Tracker
pub mod Desk
pub mod Settlement
pub mod Registry
pub mod Frontend
pub mod Examples
