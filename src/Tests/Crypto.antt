-- ===== src/Tests/Crypto.antt =====
-- Runs of src/crypto and its theorems at concrete inputs, with the stand-in for the libraries.
use distributed_topic_tracke.Prelude.{
  ℕ, ◌+◌, ◌^◌, ◌≤◌, ◌<◌, ◌≡◌, ◌≢◌, ◌⊎◌, inl, inr, refl, Bool, true, false, Option, some, none, List,
  [], ◌∷◌, ◌++◌, arith, Bytes, IsByte, All, Mem, length, replicate, Result, ok, err,
  buffer_too_short, exceeds_maximum_size, ℤ, pos, i64_max, ltb, leb, if◌then◌else◌, bytes_eq,
  to_le_bytes, from_le_bytes, split_at, try_into, to_be_bytes,
}
use distributed_topic_tracke.Crypto.Record.{
  Record, IsRecord, to_bytes, from_bytes, sign, verify, signature_data, from_arbitrary,
  split_at_end,
}
use distributed_topic_tracke.Crypto.Record.Codec.{from_bytes-to_bytes, to_bytes-from_bytes}
use distributed_topic_tracke.Crypto.Record.Signing.{verify_iff}
use distributed_topic_tracke.Tests.Toy.{toy, raw, key_of}

-- A record of minute 300 that the node with the key `key_of 1` signs for the topic `key_of 9`.
abbrev pub note : Record
note = record {
  topic = key_of 9;
  unix_minute = 300;
  pub_key = key_of 1;
  content = record { bytes = 7 ∷ 8 ∷ [] };
  signature = key_of 1 ++ key_of 9;
}

pub note-IsRecord : IsRecord note
note-IsRecord = omega arith

pub sign_note : sign raw (key_of 9) 300 (7 ∷ 8 ∷ []) (key_of 1) ≡ ok note
unfolding sign from_arbitrary signature_data to_le_bytes
sign_note = refl

verify-note : verify note (key_of 9) 301 ≡ err distributed_topic_tracke.Prelude.minute_mismatch
unfolding verify
verify-note = refl

abbrev pub note_bytes : Bytes
note_bytes =
    key_of 9
    ++ ((44 ∷ 1 ∷ 0 ∷ 0 ∷ 0 ∷ 0 ∷ 0 ∷ 0 ∷ [])
        ++ (key_of 1 ++ ((7 ∷ 8 ∷ []) ++ (key_of 1 ++ key_of 9))))

read_note : from_bytes note_bytes ≡ ok note
unfolding from_bytes split_at try_into split_at_end from_le_bytes
read_note = refl

from_bytes-to_bytes_example : from_bytes (to_bytes note) ≡ ok note
from_bytes-to_bytes_example = from_bytes-to_bytes note note-IsRecord

to_bytes-from_bytes_example : (to_bytes note ≡ note_bytes) × IsRecord note
to_bytes-from_bytes_example = to_bytes-from_bytes note_bytes note (omega arith) read_note

verify_iff_example : verify note (key_of 9) 300 ≡ ok tt
unfolding signature_data to_le_bytes
verify_iff_example = (verify_iff note (key_of 9) 300 note-IsRecord).1 (refl, refl, refl, refl)
