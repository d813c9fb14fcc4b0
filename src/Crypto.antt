-- ===== src/Crypto.antt =====
-- src/crypto: records, their signatures and encryption, the keys of a minute, and the publisher.
pub mod Primitives
pub mod Record
pub mod Encrypted
pub mod Keys
pub mod Dedup
pub mod Publisher
