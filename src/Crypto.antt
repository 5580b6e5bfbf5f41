-- ===== src/Crypto.antt =====
-- src/goblin/crypto: the identity of an object.
pub mod Digest
pub mod Sha256
