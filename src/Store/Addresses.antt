-- ===== src/Store/Addresses.antt =====
-- Addresses and who owned them (internal/storage/postgres.go, admin.go): lookups, registration,
-- transfer and the admin operations. New rows stand first in a table.
pub mod Rows
pub mod Holds
pub mod Register
pub mod Transfer
pub mod Admin
