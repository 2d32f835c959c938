-- ===== src/Crypto.antt =====
-- The cryptographic layer of src/crypto/.
pub mod SecMem
pub mod Aes
