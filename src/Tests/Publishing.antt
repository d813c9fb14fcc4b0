-- ===== src/Tests/Publishing.antt =====
-- Runs of the sealed records, the keys and the publisher, and their theorems at concrete inputs.
use distributed_topic_tracke.Prelude.{
  ℕ, ◌≡◌, ◌≤◌, ◌⊎◌, inr, refl, [], ◌∷◌, ◌++◌, arith, Bytes, length, replicate, ok, err,
  exceeds_maximum_size, ltb, if◌then◌else◌, to_le_bytes,
}
use distributed_topic_tracke.Crypto.Record.{to_bytes as record_to_bytes}
use distributed_topic_tracke.Crypto.Encrypted.{
  EncryptedRecord, Entropy, encrypt, decrypt, to_bytes, from_bytes,
}
use distributed_topic_tracke.Crypto.Encrypted.Codec.{
  from_bytes-to_bytes_sealed, to_bytes-from_bytes_sealed,
}
use distributed_topic_tracke.Crypto.Encrypted.Seal.{decrypt-encrypt}
use distributed_topic_tracke.Crypto.Keys.{TopicId, hash32, signing_keypair}
use distributed_topic_tracke.Crypto.Keys.Separation.{Collision, slot_separation}
use distributed_topic_tracke.Tests.Toy.{toy, toy-Laws, key_of}
use distributed_topic_tracke.Tests.Crypto.{note, note-IsRecord, note_bytes}

abbrev pub entropy : Entropy
entropy = record { one_time_key = key_of 4; data_choice = 0; key_choice = 1 }

-- The note, sealed for the key `key_of 9`.
abbrev pub sealed_note : EncryptedRecord
sealed_note = record {
  encrypted_record = note_bytes ++ (key_of 4 ++ replicate 24 0);
  encrypted_decryption_key = key_of 4 ++ (key_of 9 ++ replicate 24 0);
}

pub encrypt-note : encrypt note (key_of 9) entropy ≡ ok sealed_note
unfolding encrypt record_to_bytes to_le_bytes
encrypt-note = refl

abbrev pub sealed_bytes : Bytes
sealed_bytes =
    (194 ∷ 0 ∷ 0 ∷ 0 ∷ []) ++ (sealed_note.encrypted_record ++ sealed_note.encrypted_decryption_key)

pub write_sealed : to_bytes sealed_note ≡ ok sealed_bytes
unfolding to_bytes to_le_bytes
write_sealed = refl

decrypt-encrypt_example :
    (decrypt sealed_note (key_of 9) ≡ ok note) × (length sealed_note.encrypted_decryption_key ≡ 88)
decrypt-encrypt_example =
    decrypt-encrypt note (key_of 9) entropy sealed_note toy-Laws note-IsRecord refl refl
      encrypt-note

to_bytes-from_bytes_sealed_example :
    (length sealed_bytes ≤ 2140)
    × (to_bytes sealed_note
        ≡ (if ltb 2048 (length sealed_bytes) then err exceeds_maximum_size else ok sealed_bytes))
to_bytes-from_bytes_sealed_example =
    to_bytes-from_bytes_sealed sealed_bytes sealed_note (omega arith) read_sealed
  where
    read_sealed : from_bytes sealed_bytes ≡ ok sealed_note
    read_sealed = from_bytes-to_bytes_sealed sealed_note sealed_bytes refl write_sealed

abbrev pub topic : TopicId
topic = record { hash = key_of 9 }

-- The stand-in keeps the first bytes of its input, so that the slots of two minutes collide.
slot_separation_example : ((key_of 9 ≡ key_of 9) × (◌≡◌ {A = ℕ} 300 301)) ⊎ Collision
unfolding signing_keypair hash32 to_le_bytes
slot_separation_example =
    slot_separation topic topic 300 301 refl refl (omega arith) (omega arith) (inr refl)
