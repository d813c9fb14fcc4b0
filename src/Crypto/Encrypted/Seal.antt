-- ===== src/Crypto/Encrypted/Seal.antt =====
-- `Record::encrypt` and `EncryptedRecord::decrypt`.
use distributed_topic_tracke.Prelude.{◌≡◌, some, Bytes, length, try_into-ok, ok, arith}
use distributed_topic_tracke.Crypto.Primitives.{Primitives, Laws}
use distributed_topic_tracke.Crypto.Record.{Record, IsRecord, to_bytes as record_bytes}
use distributed_topic_tracke.Crypto.Record.Codec
use distributed_topic_tracke.Crypto.Encrypted.{EncryptedRecord, Entropy, encrypt, decrypt}

module _ ⦃P : Primitives⦄ where
  encrypt-eq-ok :
      (r : Record) (key : Bytes) (entropy : Entropy) {e : EncryptedRecord}
      → encrypt r key entropy ≡ ok e
      → (P.hpke_encrypt (P.verifying_key entropy.one_time_key) (record_bytes r) entropy.data_choice
          ≡ some e.encrypted_record)
        × (P.hpke_encrypt (P.verifying_key key) entropy.one_time_key entropy.key_choice
            ≡ some e.encrypted_decryption_key)
  unfolding encrypt
  encrypt-eq-ok r key entropy h = ground arith

  -- Who holds the encryption key decrypts an encrypted record to the record itself, and the sealed
  -- one-time key has the 88 bytes that the wire form sets aside for it.
  pub decrypt-encrypt :
      (r : Record) (key : Bytes) (entropy : Entropy) (e : EncryptedRecord)
      → Laws P
      → IsRecord r
      → length key ≡ 32
      → length entropy.one_time_key ≡ 32
      → encrypt r key entropy ≡ ok e
      → (decrypt e key ≡ ok r) × (length e.encrypted_decryption_key ≡ 88)
  decrypt-encrypt r key entropy e laws v hk ho h =
      let (sealed_data, sealed_key) = encrypt-eq-ok r key entropy h in
      (
        unfold decrypt in
            rw
              (
                laws.decrypt_encrypt key entropy.one_time_key e.encrypted_decryption_key _ hk
                    sealed_key,
                try_into-ok 32 entropy.one_time_key ho,
                laws.decrypt_encrypt entropy.one_time_key (record_bytes r) e.encrypted_record _ ho
                    sealed_data,
              )
              (Codec.from_bytes-to_bytes r v),
        laws.encrypt_key_length (P.verifying_key key) entropy.one_time_key
            e.encrypted_decryption_key _ ho sealed_key,
      )
