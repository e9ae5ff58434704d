-- ===== src/Crypt.antt =====
-- Addresses (crypt/types): their text form, and what is read back from it.
pub mod Base32
pub mod Address
