-- ===== src/Store.antt =====
-- api/internal/store/store.go over the schema of api/migrations: the tables, the operations of
-- `Store` and what they keep.
pub mod Result
pub mod Schema
pub mod Queries
pub mod Enroll
pub mod Complete
pub mod Spec
pub mod Dashboard
pub mod Catalog
pub mod Connect
pub mod Compliance
pub mod Invariant
