-- ===== src/Ubj.antt =====
-- The UBJ values of src/ubj/value.cpp: dynamic values, objects and arrays.
pub mod Key
pub mod Value
pub mod Object
pub mod Store
pub mod Table
pub mod Fixture
pub mod Format
