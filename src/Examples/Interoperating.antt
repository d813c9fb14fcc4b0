-- ===== src/Examples/Interoperating.antt =====
-- Which of the examples can talk to each other.
use distributed_topic_tracke.Prelude.{
  ℕ, ◌+◌, ◌^◌, ◌<◌, ◌≡◌, ◌≢◌, refl, sym, ap, ◌∙◌, ◌++◌, some, Bytes, length, arith, ok, to_be_bytes,
  length-append, length-to_be_bytes,
}
use distributed_topic_tracke.Crypto.Primitives.{Primitives, Laws, Postcard, PostcardLaws}
use distributed_topic_tracke.Crypto.Keys.{
  TopicId, topic_id, hash32, rotation_or_default, default_rotation, default_derive,
  encryption_keypair,
}
use distributed_topic_tracke.Crypto.Keys.Separation.{Collision, length-hash32, different_sizes}
use distributed_topic_tracke.Crypto.Record.{Record, content}
use distributed_topic_tracke.Crypto.Encrypted.{EncryptedRecord, Entropy, encrypt, to_bytes}
use distributed_topic_tracke.Crypto.Dedup.{accepted}
use distributed_topic_tracke.Dht.{MutableItem}
use distributed_topic_tracke.Crypto.Publisher.{
  RecordPublisher, new, builder, build, new_record, minute_key,
}
use distributed_topic_tracke.Crypto.Publisher.Delivery.{IsPublisher, SameTopic, accepted-published}
use distributed_topic_tracke.Examples.{
  topic_name, initial_secret, rotation_text, my_secret_rotation, simple, chat, chat_no_wait,
  e2e_test, full_config, without_mergers, rotating,
}

-- The examples that rotate the secret in the default way, whether they name it or not.
pub data Example : Type 0 where
  with_defaults chatting chatting_at_once testing configured unmerged : Example

module _ ⦃P : Primitives⦄ where
  unfoldable pub publisher_of : Example → Bytes → RecordPublisher
  publisher_of with_defaults key = simple key
  publisher_of chatting key = chat key
  publisher_of chatting_at_once key = chat_no_wait key
  publisher_of testing key = e2e_test key
  publisher_of configured key = full_config key
  publisher_of unmerged key = without_mergers key

  -- What the publishers of all these examples have in common.
  record IsExample (key : Bytes) (p : RecordPublisher) : Type 0 where
    topic : p.topic_id ≡ topic_id topic_name
    rotation : rotation_or_default p.secret_rotation ≡ default_rotation
    secret : p.initial_secret_hash ≡ hash32 initial_secret
    signs : p.signing_key ≡ key
    own : p.pub_key ≡ P.verifying_key key

  publisher_of-IsExample : (x : Example) (key : Bytes) → IsExample key (publisher_of x key)
  unfolding publisher_of simple chat chat_no_wait e2e_test full_config without_mergers new builder
      build rotation_or_default distributed_topic_tracke.Crypto.Publisher.config
      distributed_topic_tracke.Crypto.Publisher.secret_rotation
  publisher_of-IsExample with_defaults key = record {
    topic = refl;
    rotation = refl;
    secret = refl;
    signs = refl;
    own = refl;
  }
  publisher_of-IsExample chatting key = record {
    topic = refl;
    rotation = refl;
    secret = refl;
    signs = refl;
    own = refl;
  }
  publisher_of-IsExample chatting_at_once key = record {
    topic = refl;
    rotation = refl;
    secret = refl;
    signs = refl;
    own = refl;
  }
  publisher_of-IsExample testing key = record {
    topic = refl;
    rotation = refl;
    secret = refl;
    signs = refl;
    own = refl;
  }
  publisher_of-IsExample configured key = record {
    topic = refl;
    rotation = refl;
    secret = refl;
    signs = refl;
    own = refl;
  }
  publisher_of-IsExample unmerged key = record {
    topic = refl;
    rotation = refl;
    secret = refl;
    signs = refl;
    own = refl;
  }

  topic_size : Laws P → length (topic_id topic_name).hash ≡ 32
  unfolding topic_id
  topic_size laws = length-hash32 topic_name laws

  publisher_of-IsPublisher :
      (x : Example) (key : Bytes) → Laws P → length key ≡ 32 → IsPublisher (publisher_of x key)
  publisher_of-IsPublisher x key laws size =
      let e = publisher_of-IsExample x key in
      record {
        own_key = e.own ∙ ap P.verifying_key (sym e.signs);
        key_size = ap length e.signs ∙ size;
        topic_size = ap (λ (t : TopicId). length t.hash) e.topic ∙ topic_size laws;
      }

  examples-SameTopic :
      (x y : Example) (j k : Bytes) → SameTopic (publisher_of x j) (publisher_of y k)
  examples-SameTopic x y j k =
      let e = publisher_of-IsExample x j in
      let f = publisher_of-IsExample y k in
      record {
        topic = e.topic ∙ sym f.topic;
        rotation = e.rotation ∙ sym f.rotation;
        secret = e.secret ∙ sym f.secret;
      }

  length-minute_key :
      (x : Example) (key : Bytes) (m : ℕ) → Laws P → length (minute_key (publisher_of x key) m) ≡ 32
  unfolding minute_key encryption_keypair default_rotation default_derive
  length-minute_key x key m laws =
      let e = publisher_of-IsExample x key in rw (e.rotation) (length-hash32 _ laws)

  -- Any two of the examples that do not bring a rotation of their own can read each other: what one
  -- publishes for a minute the other accepts and reads back, if their public keys differ and the
  -- signing key, the one-time key and the minute are of the right sizes.
  pub examples_interoperate :
      {A : Type 0} (C : Postcard A) (x y : Example) (j k : Bytes) (unix_minute : ℕ) (a : A)
      (r : Record) (entropy : Entropy) (e : EncryptedRecord) (item : MutableItem)
      → Laws P
      → PostcardLaws C
      → length j ≡ 32
      → unix_minute < 256 ^ 8
      → length entropy.one_time_key ≡ 32
      → P.verifying_key k ≢ P.verifying_key j
      → new_record C (publisher_of x j) unix_minute a ≡ ok r
      → encrypt r (minute_key (publisher_of x j) unix_minute) entropy ≡ ok e
      → to_bytes e ≡ ok item.value
      → (accepted
            (minute_key (publisher_of y k) unix_minute)
            (publisher_of y k).topic_id.hash
            unix_minute
            (publisher_of y k).pub_key
            item
          ≡ some r)
        × (content C r ≡ ok a)
  examples_interoperate C x y j k unix_minute a r entropy e item laws codec size minute once other
        signed sealed written =
      let f = publisher_of-IsExample x j in
      let g = publisher_of-IsExample y k in
      accepted-published C (publisher_of x j) (publisher_of y k) unix_minute a r entropy e item laws
        codec (publisher_of-IsPublisher x j laws size) (examples-SameTopic x y j k) minute
        (length-minute_key x j unix_minute laws) once (λ same. other (sym g.own ∙ same ∙ f.own))
        signed sealed written

  length-derivation :
      (m : ℕ) (u : Bytes)
      → Laws P
      → length ((topic_id topic_name).hash ++ (to_be_bytes 8 m ++ u)) ≡ 40 + length u
  length-derivation m u laws = omega (
    arith,
    topic_size laws,
    length-append (topic_id topic_name).hash (to_be_bytes 8 m ++ u),
    length-append (to_be_bytes 8 m) u,
    length-to_be_bytes 8 m,
  )

  -- The example that brings its own rotation shares no encryption key with any other example, at
  -- whatever minutes, unless the truncated SHA-512 has a collision.
  pub rotating-Collision :
      (x : Example) (j k : Bytes) (m n : ℕ)
      → Laws P
      → minute_key (rotating j) m ≡ minute_key (publisher_of x k) n
      → Collision
  unfolding minute_key rotating my_secret_rotation encryption_keypair default_rotation
      default_derive new rotation_or_default
  rotating-Collision x j k m n laws same =
      let f = publisher_of-IsExample x k in
      let secret = hash32 initial_secret in
      let secret_size = length-hash32 initial_secret laws in
      different_sizes _ _ (40 + (32 + length rotation_text)) (40 + 32)
        (length-derivation m (secret ++ rotation_text) laws
          ∙ omega (arith, length-append secret rotation_text, secret_size))
        (length-derivation n secret laws ∙ omega (arith, secret_size)) (omega arith)
        (same ∙ rw (f.topic, f.rotation, f.secret) refl)
