-- ===== src/Frontend.antt =====
-- packages/frontend/src/lib: the numbers and the choices that the frontend shows and spends by.
pub mod Receipts
pub mod Preview
pub mod Selection
pub mod Recovery
pub mod Ledger
pub mod Portfolio
