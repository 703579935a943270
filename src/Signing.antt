-- ===== src/Signing.antt =====
-- The signing layer (packages/backend/signing-layer/src).
pub mod Nonce
pub mod Funding
pub mod TokenBinding
pub mod MarketOrders
