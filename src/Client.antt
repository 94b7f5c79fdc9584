-- ===== src/Client.antt =====
-- The clients and checks below the handlers: the payment client (internal/btcpay/client.go), the
-- wallet client (internal/nwc/client.go), the authentication of requests (internal/auth/nip98.go)
-- and the encryption of secrets (internal/crypto/aes.go).
pub mod Btcpay
pub mod Crypto
pub mod Nip98
pub mod Nwc
