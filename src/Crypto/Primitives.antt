-- ===== src/Crypto/Primitives.antt =====
-- The libraries that src/crypto calls: sha2, ed25519-dalek, ed25519-dalek-hpke and postcard.
-- A signing key is its 32-byte seed, a verifying key its 32 bytes.
use distributed_topic_tracke.Prelude.{ℕ, ◌≡◌, Bool, true, Option, some, Bytes, length}

pub record Primitives : Type 0 where
  -- `Sha512::new().update(m).finalize()`
  pub sha512 : Bytes → Bytes
  -- `SigningKey::from_bytes(seed).verifying_key().to_bytes()`
  pub verifying_key : Bytes → Bytes
  -- `SigningKey::from_bytes(seed).sign(m).to_bytes()`
  pub sign : Bytes → Bytes → Bytes
  -- Whether `VerifyingKey::from_bytes(key)` is `Ok`.
  pub key_is_valid : Bytes → Bool
  -- Whether `key.verify_strict(m, signature)` is `Ok`.
  pub verify_strict : Bytes → Bytes → Bytes → Bool
  -- `key.encrypt(m)`; the number stands for the random choices of the call.
  pub hpke_encrypt : Bytes → Bytes → ℕ → Option Bytes
  -- `key.decrypt(c)`
  pub hpke_decrypt : Bytes → Bytes → Option Bytes

-- What the libraries document: output sizes, and that what a key signs or seals its pair accepts.
pub record Laws (P : Primitives) : Type 0 where
  pub sha512_length : (m : Bytes) → length (P.sha512 m) ≡ 64
  pub verifying_key_length : (k : Bytes) → length k ≡ 32 → length (P.verifying_key k) ≡ 32
  pub verifying_key_valid : (k : Bytes) → length k ≡ 32 → P.key_is_valid (P.verifying_key k) ≡ true
  pub sign_length : (k m : Bytes) → length (P.sign k m) ≡ 64
  pub verify_sign :
      (k m : Bytes) → length k ≡ 32 → P.verify_strict (P.verifying_key k) m (P.sign k m) ≡ true
  pub decrypt_encrypt :
      (k m c : Bytes) (n : ℕ)
      → length k ≡ 32
      → P.hpke_encrypt (P.verifying_key k) m n ≡ some c
      → P.hpke_decrypt k c ≡ some m
  -- A sealed 32-byte key takes 88 bytes.
  pub encrypt_key_length :
      (k m c : Bytes) (n : ℕ) → length m ≡ 32 → P.hpke_encrypt k m n ≡ some c → length c ≡ 88

-- `postcard::to_allocvec` and `postcard::from_bytes` at one type.
pub record Postcard (A : Type 0) : Type 0 where
  pub to_allocvec : A → Option Bytes
  pub from_bytes : Bytes → Option A

-- Postcard reads back what it wrote.
pub record PostcardLaws {A : Type 0} (C : Postcard A) : Type 0 where
  pub from_bytes-to_allocvec :
      (a : A) (bs : Bytes) → C.to_allocvec a ≡ some bs → C.from_bytes bs ≡ some a
