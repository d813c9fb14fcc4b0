-- ===== src/Crypto/Publisher/Delivery.antt =====
-- What one node publishes another node of the same topic and secret accepts.
use distributed_topic_tracke.Prelude.{
  ℕ, ◌^◌, ◌<◌, ◌≡◌, ◌≢◌, sym, ap, subst, ◌∙◌, false, some, Bytes, bytes_eq, bytes_eq_iff, length,
  ok, arith,
}
use distributed_topic_tracke.Crypto.Primitives.{Primitives, Laws, Postcard, PostcardLaws}
use distributed_topic_tracke.Crypto.Record.{Record, IsRecord, verify, content}
use distributed_topic_tracke.Crypto.Record.Signing.{verify-sign, sign-pub_key}
use distributed_topic_tracke.Crypto.Encrypted.{EncryptedRecord, Entropy, encrypt, to_bytes}
use distributed_topic_tracke.Crypto.Encrypted.Codec.{from_bytes-to_bytes_sealed}
use distributed_topic_tracke.Crypto.Encrypted.Seal.{decrypt-encrypt}
use distributed_topic_tracke.Crypto.Keys.{TopicId, rotation_or_default}
use distributed_topic_tracke.Crypto.Dedup.{opened, accepted, to_option}
use distributed_topic_tracke.Dht.{MutableItem}
use distributed_topic_tracke.Crypto.Publisher.{RecordPublisher, new_record, minute_key}

-- What `RecordPublisher::new` establishes from keys and topics of the right sizes.
pub record IsPublisher ⦃P : Primitives⦄ (p : RecordPublisher) : Type 0 where
  pub own_key : p.pub_key ≡ P.verifying_key p.signing_key
  pub key_size : length p.signing_key ≡ 32
  pub topic_size : length p.topic_id.hash ≡ 32

-- Two nodes of one topic that share the secret and the way in which it rotates, whether they name the
-- default rotation or leave it out.
pub record SameTopic ⦃P : Primitives⦄ (p q : RecordPublisher) : Type 0 where
  pub topic : p.topic_id ≡ q.topic_id
  pub rotation : rotation_or_default p.secret_rotation ≡ rotation_or_default q.secret_rotation
  pub secret : p.initial_secret_hash ≡ q.initial_secret_hash

module _ ⦃P : Primitives⦄ where
  minute_key-SameTopic :
      (p q : RecordPublisher) (unix_minute : ℕ)
      → SameTopic p q
      → minute_key p unix_minute ≡ minute_key q unix_minute
  unfolding minute_key
  minute_key-SameTopic p q unix_minute same = rw (same.topic, same.rotation, same.secret)

  opened-encrypt :
      (r : Record) (key : Bytes) (entropy : Entropy) (e : EncryptedRecord) (topic : Bytes)
      (unix_minute : ℕ) (item : MutableItem)
      → Laws P
      → IsRecord r
      → length key ≡ 32
      → length entropy.one_time_key ≡ 32
      → encrypt r key entropy ≡ ok e
      → to_bytes e ≡ ok item.value
      → verify r topic unix_minute ≡ ok tt
      → opened key topic unix_minute item ≡ ok r
  unfolding opened
  opened-encrypt r key entropy e topic unix_minute item laws v hk ho sealed written verified =
      let (back, size) = decrypt-encrypt r key entropy e laws v hk ho sealed in
      rw (from_bytes-to_bytes_sealed e item.value size written, back, verified)

  accepted-opened :
      (key topic : Bytes) (unix_minute : ℕ) (own_key : Bytes) (item : MutableItem) (r : Record)
      → opened key topic unix_minute item ≡ ok r
      → own_key ≢ r.pub_key
      → accepted key topic unix_minute own_key item ≡ some r
  unfolding accepted to_option
  accepted-opened key topic unix_minute own_key item r o other =
      let different : bytes_eq r.pub_key own_key ≡ false =
        ground (arith, bytes_eq_iff r.pub_key own_key) in
      ground arith

  -- A record that node `p` signs for a minute, encrypts with the minute's key and serialises is
  -- accepted by every node `q` of the same topic, secret and rotation whose own public key is
  -- another one, and its content reads back as what was signed, provided that the minute's key and
  -- the one-time key have 32 bytes.
  pub accepted-published :
      {A : Type 0} (C : Postcard A) (p q : RecordPublisher) (unix_minute : ℕ) (a : A) (r : Record)
      (entropy : Entropy) (e : EncryptedRecord) (item : MutableItem)
      → Laws P
      → PostcardLaws C
      → IsPublisher p
      → SameTopic p q
      → unix_minute < 256 ^ 8
      → length (minute_key p unix_minute) ≡ 32
      → length entropy.one_time_key ≡ 32
      → q.pub_key ≢ p.pub_key
      → new_record C p unix_minute a ≡ ok r
      → encrypt r (minute_key p unix_minute) entropy ≡ ok e
      → to_bytes e ≡ ok item.value
      → (accepted (minute_key q unix_minute) q.topic_id.hash unix_minute q.pub_key item ≡ some r)
        × (content C r ≡ ok a)
  unfolding new_record
  accepted-published C p q unix_minute a r entropy e item laws codec v same hm hk ho other signed
        sealed written =
      let topic = p.topic_id.hash in
      let (sized, verified, read) =
        verify-sign C topic unix_minute a p.signing_key r laws codec v.topic_size hm v.key_size
          signed in
      let o =
        opened-encrypt r (minute_key p unix_minute) entropy e topic unix_minute item laws sized hk
          ho sealed written verified in
      let foreign : q.pub_key ≢ r.pub_key = λ eq.
        other (eq ∙ sign-pub_key C topic unix_minute a p.signing_key r signed ∙ sym v.own_key) in
      (
        subst (λ t. accepted (minute_key q unix_minute) t unix_minute q.pub_key item ≡ some r)
            (ap (λ (t : TopicId). t.hash) same.topic)
            (subst (λ k. accepted k topic unix_minute q.pub_key item ≡ some r)
              (minute_key-SameTopic p q unix_minute same)
              (accepted-opened (minute_key p unix_minute) topic unix_minute q.pub_key item r o
                foreign)),
        read,
      )
