-- ===== src/Crypto/Encrypted.antt =====
-- src/crypto/record.rs: `EncryptedRecord`, and `Record::encrypt`.
pub mod Codec
pub mod Seal
use distributed_topic_tracke.Prelude.{
  ℕ, ◌+◌, ◌%◌, ◌^◌, ◌++◌, Option, some, none, Bytes, to_le_bytes, from_le_bytes, split_at, try_into,
  length, ltb, leb, ◌==◌, not, Result, ok, err, panic, guard, ok_or, expect, ◌>>=◌, ◌>>◌,
  if◌then◌else◌, buffer_too_short, length_overflow, length_exceeds_maximum, length_mismatch,
  exceeds_maximum_size, decryption_failed,
}
use distributed_topic_tracke.Crypto.Primitives.{Primitives}
use distributed_topic_tracke.Crypto.Record.{
  Record, to_bytes as record_bytes, from_bytes as record_from_bytes,
}

pub record EncryptedRecord : Type 0 where
  pub encrypted_record : Bytes
  pub encrypted_decryption_key : Bytes

-- `EncryptedRecord::MAX_SIZE`
abbrev pub max_size : ℕ
max_size = 2048

-- `ENCRYPTED_KEY_LENGTH`
abbrev pub encrypted_key_length : ℕ
encrypted_key_length = 88

-- `u32::checked_add`
unfoldable pub checked_add_u32 : ℕ → ℕ → Option ℕ
checked_add_u32 a b = if ltb (a + b) (2 ^ 32) then some (a + b) else none

-- `EncryptedRecord::to_bytes`; the `as u32` cast wraps.
unfoldable pub to_bytes : EncryptedRecord → Result Bytes
to_bytes e =
    let encrypted_record_len = length e.encrypted_record % 2 ^ 32 in
    let buf =
      to_le_bytes 4 encrypted_record_len ++ (e.encrypted_record ++ e.encrypted_decryption_key) in
    if ltb max_size (length buf) then err exceeds_maximum_size else ok buf

-- `EncryptedRecord::from_bytes`
unfoldable pub from_bytes : Bytes → Result EncryptedRecord
unfolding checked_add_u32
from_bytes buf = do
  guard (not (ltb (length buf) 4)) buffer_too_short
  (len_bytes, payload) ← split_at 4 buf
  len_array ← try_into 4 len_bytes
  let encrypted_record_len = from_le_bytes len_array
  expected ← ok_or (checked_add_u32 encrypted_record_len encrypted_key_length) length_overflow
  guard (not (ltb max_size encrypted_record_len)) length_exceeds_maximum
  guard (length payload == expected) length_mismatch
  (encrypted_record, encrypted_decryption_key) ← split_at encrypted_record_len payload
  ok (record {
    encrypted_record = encrypted_record;
    encrypted_decryption_key = encrypted_decryption_key;
  })

-- The random choices of one `encrypt`: the one-time key, and those of the two `encrypt` calls.
pub record Entropy : Type 0 where
  pub one_time_key : Bytes
  pub data_choice : ℕ
  pub key_choice : ℕ

module _ ⦃P : Primitives⦄ where
  -- `Record::encrypt`; a failed encryption panics.
  unfoldable pub encrypt : Record → Bytes → Entropy → Result EncryptedRecord
  encrypt r encryption_key entropy = do
    data_enc ←
        expect (
          P.hpke_encrypt (P.verifying_key entropy.one_time_key) (record_bytes r)
            entropy.data_choice)
    key_enc ←
        expect
          (P.hpke_encrypt (P.verifying_key encryption_key) entropy.one_time_key entropy.key_choice)
    ok (record { encrypted_record = data_enc; encrypted_decryption_key = key_enc })

  -- `EncryptedRecord::decrypt`
  unfoldable pub decrypt : EncryptedRecord → Bytes → Result Record
  decrypt e decryption_key = do
    key_bytes ← ok_or (P.hpke_decrypt decryption_key e.encrypted_decryption_key) decryption_failed
    one_time_key ← try_into 32 key_bytes
    decrypted ← ok_or (P.hpke_decrypt one_time_key e.encrypted_record) decryption_failed
    record_from_bytes decrypted
