-- ===== src/Lib.antt =====
-- cloistr-address: names at a domain, bought over Lightning and served as NIP-05 and Lightning
-- Addresses. This library models its storage, its HTTP handlers and its clients.
--
-- The parts, and the files that model them:
--   - Base: shared types, tests, scans of tables, Go's string operations, signed amounts.
--   - Db (internal/storage over database/sql, db/migrations, db/test_schema.sql): Tables has the rows,
--     Schema the unique indexes, Exec the statements and transactions, Triple the rules to prove
--     what a transaction keeps, Calm those to prove that it succeeds. A `World` holds the database, the time, and which statements fail;
--     a theorem about every world covers a failure at every statement. A failed statement aborts
--     its transaction, and the COMMIT of an aborted transaction fails.
--   - Store (internal/storage/postgres.go, admin.go): Credits has the balances, their history and
--     the withdrawals; Addresses has lookups (Rows), AtomicRegisterAddress (Register),
--     TransferAddress and AdminTransferAddress (Transfer) and the admin's operations (Admin);
--     Catalog has prices, products and quota grants; Identity has users, automatic addresses and
--     Lightning configurations; Reserved has reserved names and the update of tiers, Quotas the
--     limits that admins set, Usage (quota_usage.go, with the functions effective_quota and
--     check_quota of db/migrations/010_up.sql and 007_up.sql) the usage of a quota, Admins the role,
--     the lookups and the log, and Tenants (tenant.go) the tenants and their members.
--   - Api (internal/api): one function for each handler, past the parsing of its JSON. Pricing,
--     Quote, Purchase, Withdraw, Settlement, Products, Webhook, Status (purchase_status.go and
--     nip05.go), Addresses and Config (management.go and ensure_address.go), Internal and
--     Quota (internal.go), Tenants (tenant.go).
--     Lnurlp, with Proxy for the provider and Wallet for a connected wallet, has lnurlp.go. Auth has
--     the middleware of admin.go, Admin its handlers, Admin.Lookups those that only read. A long
--     handler is cut where it branches on an error; the parts are named for what they do. Http has
--     the replies: a struct, or an object written in place.
--   - Client: Btcpay (internal/btcpay/client.go) has the retries of CreateInvoice, Nip98
--     (internal/auth/nip98.go) the validation of a request, Nwc (internal/nwc/client.go) the
--     connection URIs and the request of an invoice, Crypto (internal/crypto/aes.go) hexadecimal
--     keys and the encryption of secrets.
--   - Tests: the theorems at concrete states.
-- Handlers call the storage, and the storage is the only state that they share; BTCPay is the
-- record Gateway for a handler, and the record Network for the client. A payment to a name runs
-- Lnurlp, Wallet, Crypto for the stored secret, and Nwc; an admin request runs Auth, which calls
-- Nip98, and then a handler of Admin.
--
-- Bounds and fuel: balances and prices are natural numbers with the ranges of BIGINT and INTEGER
-- written out where a statement is refused beyond them. The loop of CreateInvoice runs on fuel 10,
-- and the code's own maxInvoiceAttempts ends it before that. The amount of an invoice is a float64,
-- a mantissa and an exponent, truncated to an int64. An amount of LNURL is read into the range of
-- int64, and a byte of a key modulo 256.
--
-- Parameters: get_username_price() and LOWER of the database, the name rules and the name generator of
-- cloistr-common, the answers of BTCPay, the signature and JSON checks of a webhook, base64, nostr
-- signatures and letter folding in NIP-98, SHA-256, AES-GCM, random bytes, NIP-44 and NIP-04, the
-- relay of a wallet, the HTTP client, package url and JSON in LNURL-pay, fmt's %d, relays of an
-- address, the order of the database's texts, the limits of quota_types, strconv.ParseInt.
--
-- Not modelled: parsing of requests, logs, metrics, the updated_at columns, audit payloads and the
-- list of the log, the forwarding of the admin's domains, the
-- command line tool, configuration, servers, the formats of pubkeys
-- in tables other than pubkey_credits.
pub mod Base
pub mod Db
pub mod Store
pub mod Api
pub mod Client
pub mod Tests
