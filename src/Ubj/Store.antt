-- ===== src/Ubj/Store.antt =====
-- The store actions of src/ubj/store/: statements over an SQLite database.
pub mod Sql
pub mod Bind
pub mod Actions
pub mod Blob
