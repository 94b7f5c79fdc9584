-- ===== src/Store.antt =====
-- The storage component (internal/storage): its operations on the tables.
pub mod Credits
pub mod Addresses
pub mod Catalog
pub mod Identity
pub mod Reserved
pub mod Quotas
pub mod Admins
pub mod Tenants
pub mod Usage
