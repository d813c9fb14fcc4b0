-- ===== src/Gossip/Bootstrap/Publishing.antt =====
-- What the bootstrap publishes, and who accepts it.
use distributed_topic_tracke.Prelude.{
  ℕ, ◌^◌, ◌<◌, ◌≡◌, ◌≢◌, refl, sym, subst, inl, inr, Bool, none, some, List, Bytes, length, Result,
  ok, err, panic, Mem, All, All-Mem, Bool-cases,
}
use distributed_topic_tracke.Crypto.Primitives.{Primitives, Laws, Postcard, PostcardLaws}
use distributed_topic_tracke.Crypto.Record.{Record, sign, content}
use distributed_topic_tracke.Crypto.Record.Signing.{sign-unix_minute}
use distributed_topic_tracke.Crypto.Encrypted.{Entropy, EncryptedRecord, encrypt, to_bytes}
use distributed_topic_tracke.Crypto.Dedup.{accepted}
use distributed_topic_tracke.Crypto.Publisher.{RecordPublisher, minute_key, new_record}
use distributed_topic_tracke.Crypto.Publisher.Delivery.{IsPublisher, SameTopic, accepted-published}
use distributed_topic_tracke.Dht.{MutableItem}
use distributed_topic_tracke.Gossip.Content.{GossipRecordContent}
use distributed_topic_tracke.Gossip.Rounds.{
  BootstrapActor, Publication, Loop, Round, publish_signed,
}
use distributed_topic_tracke.Gossip.Bootstrap.{announce, start, run, empty_content}
use distributed_topic_tracke.Gossip.Bootstrap.Moves.{
  IsOwn, Move, publishes, passes, asks, rests, connects, leaves,
}
use distributed_topic_tracke.Gossip.Bootstrap.Trace.{IsOrderly, run-Trace, Trace-Keeps}

module _ ⦃P : Primitives⦄ (C : Postcard GossipRecordContent) (is_endpoint : Bytes → Bool)
    (b : BootstrapActor) where
  -- The node signed the announced record, without content.
  abbrev pub AnnouncesOwn : Publication → Type 0
  AnnouncesOwn p = (unix_minute : ℕ) × IsOwn C is_endpoint b unix_minute p.announced

  Move-AnnouncesOwn :
      (r : Round) (s t : Loop)
      → Move C is_endpoint b r s t
      → All AnnouncesOwn s.publications
      → All AnnouncesOwn t.publications
  Move-AnnouncesOwn r s t (publishes a cached own new e) h = rw e ((r.now, own), h)
  Move-AnnouncesOwn r s t (passes new e) h = rw e h
  Move-AnnouncesOwn r s t (asks key other e) h = rw e h
  Move-AnnouncesOwn r s t (rests d e) h = rw e h
  Move-AnnouncesOwn r s t (connects j e) h = rw e h
  Move-AnnouncesOwn r s t (leaves w e) h = rw e h

  publish_signed-AnnouncesOwn :
      (x : Result Record) (now : ℕ) (s : Loop)
      → sign C b.record_publisher.topic_id.hash now empty_content b.record_publisher.signing_key ≡ x
      → All AnnouncesOwn s.publications
      → All AnnouncesOwn (publish_signed x none s).publications
  unfolding publish_signed
  publish_signed-AnnouncesOwn (ok a) now s e h = ((now, e), h)
  publish_signed-AnnouncesOwn (err x) now s e h = h
  publish_signed-AnnouncesOwn panic now s e h = h

  start-AnnouncesOwn : (now : ℕ) → All AnnouncesOwn (start C is_endpoint b now).publications
  unfolding start announce
  start-AnnouncesOwn now = elim (Bool-cases b.config.publish_record_on_startup) [
    | inl publishing ↦ rw publishing (publish_signed-AnnouncesOwn _ now _ refl tt)
    | inr silent ↦ rw silent tt
  ]

  pub run-AnnouncesOwn :
      (now : ℕ) (rs : List Round)
      → All IsOrderly rs
      → All AnnouncesOwn (run C is_endpoint b rs (start C is_endpoint b now)).publications
  run-AnnouncesOwn now rs ordered =
      Trace-Keeps C is_endpoint b (λ s. All AnnouncesOwn s.publications)
        (λ r s t h. Move-AnnouncesOwn r s t) (run-Trace C is_endpoint b rs _ ordered)
        (start-AnnouncesOwn now)

  -- Each record that a bootstrap publishes, once it is encrypted with the key of its minute and
  -- serialised, is accepted by every node `q` of the same topic, secret and rotation whose own public
  -- key is another one, and its content reads back as the empty one. This holds whatever the rounds
  -- meet, if they iterate over keys in an order that adds none, and provided that the minute fits a
  -- 64-bit integer and that the minute's key and the one-time key have 32 bytes.
  pub bootstrap-accepted :
      (now : ℕ) (rs : List Round) (p : Publication) (q : RecordPublisher) (entropy : Entropy)
      (e : EncryptedRecord) (item : MutableItem)
      → Laws P
      → PostcardLaws C
      → All IsOrderly rs
      → Mem p (run C is_endpoint b rs (start C is_endpoint b now)).publications
      → IsPublisher b.record_publisher
      → SameTopic b.record_publisher q
      → p.announced.unix_minute < 256 ^ 8
      → length (minute_key b.record_publisher p.announced.unix_minute) ≡ 32
      → length entropy.one_time_key ≡ 32
      → q.pub_key ≢ b.record_publisher.pub_key
      → encrypt p.announced (minute_key b.record_publisher p.announced.unix_minute) entropy ≡ ok e
      → to_bytes e ≡ ok item.value
      → (accepted
            (minute_key q p.announced.unix_minute)
            q.topic_id.hash
            p.announced.unix_minute
            q.pub_key
            item
          ≡ some p.announced)
        × (content C p.announced ≡ ok empty_content)
  bootstrap-accepted now rs p q entropy e item laws codec ordered there v same hm hk ho other sealed
        written =
      let (m, own) = All-Mem AnnouncesOwn _ (run-AnnouncesOwn now rs ordered) there in
      let at_m : p.announced.unix_minute ≡ m =
        sign-unix_minute C _ m empty_content _ p.announced own in
      accepted-published C b.record_publisher q p.announced.unix_minute empty_content p.announced
        entropy e item laws codec v same hm hk ho other
        (unfold new_record in subst (λ n. IsOwn C is_endpoint b n p.announced) (sym at_m) own)
        sealed written
