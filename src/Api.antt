-- ===== src/Api.antt =====
-- The HTTP handlers (internal/api) over the storage and the payment client.
pub mod Http
pub mod Pricing
pub mod Gateway
pub mod Quote
pub mod Purchase
pub mod Withdraw
pub mod Settlement
pub mod Webhook
pub mod Products
pub mod Addresses
pub mod Status
pub mod Internal
pub mod Quota
pub mod Proxy
pub mod Wallet
pub mod Config
pub mod Lnurlp
pub mod Auth
pub mod Admin
pub mod Tenants
