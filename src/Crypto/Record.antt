-- ===== src/Crypto/Record.antt =====
-- src/crypto/record.rs: `Record`, `RecordContent`, and the functions on one record.
pub mod Codec
pub mod Signing
use distributed_topic_tracke.Prelude.{
  ℕ, ◌+◌, ◌-◌, ◌^◌, ◌<◌, ◌≡◌, Bool, true, false, Option, none, some, List, [], ◌∷◌, ◌++◌, Bytes,
  to_le_bytes, from_le_bytes, split_at, try_into, bytes_eq, length, take, ltb, ◌==◌, not, Result,
  ok, err, panic, Error, guard, ok_or, ◌>>=◌, ◌>>◌, if◌then◌else◌, buffer_too_short,
  buffer_not_empty, topic_mismatch, minute_mismatch, bad_key, bad_signature, serialize_failed,
  deserialize_failed,
}
use distributed_topic_tracke.Crypto.Primitives.{Primitives, Postcard}

-- `RecordContent(pub Vec<u8>)`
pub record RecordContent : Type 0 where
  pub bytes : Bytes

pub record Record : Type 0 where
  pub topic : Bytes
  pub unix_minute : ℕ
  pub pub_key : Bytes
  pub content : RecordContent
  pub signature : Bytes

-- The sizes that the Rust types of the fields give.
pub record IsRecord (r : Record) : Type 0 where
  pub topic_size : length r.topic ≡ 32
  pub minute_fits : r.unix_minute < 256 ^ 8
  pub key_size : length r.pub_key ≡ 32
  pub signature_size : length r.signature ≡ 64

-- `RecordContent::to`
unfoldable pub content_to : {A : Type 0} → Postcard A → RecordContent → Result A
content_to C c = ok_or (C.from_bytes c.bytes) deserialize_failed

-- `RecordContent::from_arbitrary`
unfoldable pub from_arbitrary : {A : Type 0} → Postcard A → A → Result RecordContent
from_arbitrary C a = do
  bytes ← ok_or (C.to_allocvec a) serialize_failed
  ok (record { bytes = bytes })

-- `Record::to_bytes`
unfoldable pub to_bytes : Record → Bytes
to_bytes r =
    r.topic ++ (to_le_bytes 8 r.unix_minute ++ (r.pub_key ++ (r.content.bytes ++ r.signature)))

-- The slice `buf[..buf.len() - n]`, and `buf.split_at(buf.len() - n)`: both panic on a short buffer.
unfoldable pub but_last : ℕ → Bytes → Result Bytes
but_last n buf = if ltb (length buf) n then panic else ok (take (length buf - n) buf)

unfoldable pub split_at_end : ℕ → Bytes → Result (Bytes × Bytes)
split_at_end n buf = if ltb (length buf) n then panic else split_at (length buf - n) buf

is_empty : Bytes → Bool
is_empty [] = true
is_empty (b ∷ bs) = false

-- `Record::from_bytes`
unfoldable pub from_bytes : Bytes → Result Record
unfolding is_empty
from_bytes buf = do
  guard (not (ltb (length buf) (32 + 8 + 32 + 64))) buffer_too_short
  (topic, buf₁) ← split_at 32 buf
  (unix_minute, buf₂) ← split_at 8 buf₁
  (pub_key, buf₃) ← split_at 32 buf₂
  (record_content, buf₄) ← split_at_end 64 buf₃
  (signature, buf₅) ← split_at 64 buf₄
  guard (is_empty buf₅) buffer_not_empty
  topic' ← try_into 32 topic
  minute' ← try_into 8 unix_minute
  key' ← try_into 32 pub_key
  signature' ← try_into 64 signature
  ok (record {
    topic = topic';
    unix_minute = from_le_bytes minute';
    pub_key = key';
    content = record { bytes = record_content };
    signature = signature';
  })

-- `Record::content`
unfoldable pub content : {A : Type 0} → Postcard A → Record → Result A
unfolding content_to
content C r = content_to C r.content

module _ ⦃P : Primitives⦄ where
  -- What `Record::sign` signs: the topic, the minute, the public key and the content.
  unfoldable pub signature_data : Bytes → ℕ → Bytes → RecordContent → Bytes
  signature_data topic unix_minute pub_key record_content =
      topic ++ (to_le_bytes 8 unix_minute ++ (pub_key ++ record_content.bytes))

  -- `Record::sign`
  unfoldable pub sign : {A : Type 0} → Postcard A → Bytes → ℕ → A → Bytes → Result Record
  unfolding signature_data
  sign C topic unix_minute record_content signing_key = do
    content ← from_arbitrary C record_content
    let key = P.verifying_key signing_key
    ok (record {
      topic = topic;
      unix_minute = unix_minute;
      pub_key = key;
      content = content;
      signature = P.sign signing_key (signature_data topic unix_minute key content);
    })

  -- `Record::verify`
  unfoldable pub verify : Record → Bytes → ℕ → Result (Unit {0})
  verify r actual_topic actual_unix_minute = do
    guard (bytes_eq r.topic actual_topic) topic_mismatch
    guard (r.unix_minute == actual_unix_minute) minute_mismatch
    signed ← but_last 64 (to_bytes r)
    guard (P.key_is_valid r.pub_key) bad_key
    guard (P.verify_strict r.pub_key signed r.signature) bad_signature
