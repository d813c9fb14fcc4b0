-- ===== src/Crypto/Keys.antt =====
-- src/crypto/keys.rs and `TopicId` of src/crypto/record.rs: what is derived from a topic and a minute.
-- A `Sha512` output is an array of 64 bytes, so its slice `[..32]` and the conversion cannot fail.
pub mod Separation
use distributed_topic_tracke.Prelude.{
  ℕ, ◌++◌, Option, some, none, [], ◌∷◌, Bytes, to_le_bytes, to_be_bytes, take,
}
use distributed_topic_tracke.Crypto.Primitives.{Primitives}

-- `TopicId([u8; 32])`
pub record TopicId : Type 0 where
  pub hash : Bytes

-- `trait SecretRotation` and `RotationHandle`: the method `derive`.
pub record RotationHandle : Type 0 where
  pub derive : Bytes → ℕ → Bytes → Bytes

-- `b"salt"`
abbrev pub salt_prefix : Bytes
salt_prefix = b's' ∷ b'a' ∷ b'l' ∷ b't' ∷ []

module _ ⦃P : Primitives⦄ where
  -- `Sha512(m)[..32]`
  unfoldable pub hash32 : Bytes → Bytes
  hash32 m = take 32 (P.sha512 m)

  -- `TopicId::new`
  unfoldable pub topic_id : Bytes → TopicId
  topic_id topic_name = record { hash = hash32 topic_name }

  -- `DefaultSecretRotation::derive`
  unfoldable pub default_derive : Bytes → ℕ → Bytes → Bytes
  default_derive topic_hash unix_minute initial_secret_hash =
      hash32 (topic_hash ++ (to_be_bytes 8 unix_minute ++ initial_secret_hash))

  -- `RotationHandle::default`
  unfoldable pub default_rotation : RotationHandle
  default_rotation = record { derive = default_derive }

  -- `signing_keypair`
  unfoldable pub signing_keypair : TopicId → ℕ → Bytes
  signing_keypair topic unix_minute = hash32 (topic.hash ++ to_le_bytes 8 unix_minute)

  -- `salt`
  unfoldable pub salt : TopicId → ℕ → Bytes
  salt topic unix_minute = hash32 (salt_prefix ++ (topic.hash ++ to_le_bytes 8 unix_minute))

  -- `self.secret_rotation.clone().unwrap_or_default()`
  unfoldable pub rotation_or_default : Option RotationHandle → RotationHandle
  rotation_or_default none = default_rotation
  rotation_or_default (some rotation) = rotation

-- `encryption_keypair`
unfoldable pub encryption_keypair : TopicId → RotationHandle → Bytes → ℕ → Bytes
encryption_keypair topic rotation initial_secret_hash unix_minute =
    rotation.derive topic.hash unix_minute initial_secret_hash
