-- ===== src/Examples.antt =====
-- examples: what each example passes on to the library. The rest of an example is glue around iroh.
pub mod Interoperating
use distributed_topic_tracke.Prelude.{
  ℕ, ◌++◌, true, false, none, some, List, [], ◌∷◌, Bytes, to_be_bytes,
}
use distributed_topic_tracke.Config.Duration.{from_secs, from_millis}
use distributed_topic_tracke.Config as Top
use distributed_topic_tracke.Config.{Config}
use distributed_topic_tracke.Config.Dht
use distributed_topic_tracke.Config.Bootstrapping
use distributed_topic_tracke.Config.Publishing
use distributed_topic_tracke.Config.Bubble
use distributed_topic_tracke.Config.Overlap
use distributed_topic_tracke.Config.Merge
use distributed_topic_tracke.Config.Timeouts
use distributed_topic_tracke.Crypto.Primitives.{Primitives}
use distributed_topic_tracke.Crypto.Keys.{
  TopicId, topic_id, hash32, RotationHandle, default_rotation,
}
use distributed_topic_tracke.Crypto.Publisher.{
  RecordPublisher, new, builder, config, secret_rotation, build,
}

-- `config_builder` of examples/full_config.rs
unfoldable pub config_builder : Config
config_builder = Top.build (
    Top.run
      (Top.set_dht_config
          (Dht.run
            (Dht.set_retries 3
              ∷ Dht.set_base_retry_interval (from_secs 5)
              ∷ Dht.set_max_retry_jitter (from_secs 10)
              ∷ Dht.set_get_timeout (from_secs 10)
              ∷ Dht.set_put_timeout (from_secs 10)
              ∷ [])
            Dht.builder).config
        ∷ Top.set_bootstrap_config
            (Bootstrapping.run
              (Bootstrapping.set_max_bootstrap_records 5
                ∷ Bootstrapping.set_publish_record_on_startup true
                ∷ Bootstrapping.set_check_older_records_first_on_startup false
                ∷ Bootstrapping.set_discovery_poll_interval (from_millis 2000)
                ∷ Bootstrapping.set_no_peers_retry_interval (from_millis 1500)
                ∷ Bootstrapping.set_per_peer_join_settle_time (from_millis 100)
                ∷ Bootstrapping.set_join_confirmation_wait_time (from_millis 500)
                ∷ [])
              Bootstrapping.builder).config
        ∷ Top.set_max_join_peer_count 4
        ∷ Top.set_publisher_config (
            Publishing.build (
              Publishing.run
                (Publishing.set_initial_delay (from_secs 10)
                  ∷ Publishing.set_base_interval (from_secs 10)
                  ∷ Publishing.set_max_jitter (from_secs 50)
                  ∷ [])
                Publishing.builder))
        ∷ Top.set_merge_config
            (Merge.run
              (Merge.set_bubble_merge (
                  Bubble.build (
                    Bubble.run
                      (Bubble.set_min_neighbors 4
                        ∷ Bubble.set_initial_interval (from_secs 30)
                        ∷ Bubble.set_base_interval (from_secs 60)
                        ∷ Bubble.set_max_jitter (from_secs 120)
                        ∷ Bubble.set_fail_topic_creation_on_merge_startup_failure true
                        ∷ Bubble.set_max_join_peers 2
                        ∷ [])
                      Bubble.builder))
                ∷ Merge.set_message_overlap_merge (
                    Overlap.build (
                      Overlap.run
                        (Overlap.set_initial_interval (from_secs 30)
                          ∷ Overlap.set_base_interval (from_secs 60)
                          ∷ Overlap.set_max_jitter (from_secs 120)
                          ∷ Overlap.set_fail_topic_creation_on_merge_startup_failure true
                          ∷ Overlap.set_max_join_peers 2
                          ∷ [])
                        Overlap.builder))
                ∷ [])
              Merge.builder).config
        ∷ Top.set_timeouts
            (Timeouts.run
              (Timeouts.set_join_peer_timeout (from_secs 5)
                ∷ Timeouts.set_broadcast_neighbors_timeout (from_secs 5)
                ∷ Timeouts.set_broadcast_timeout (from_secs 5)
                ∷ [])
              Timeouts.builder).config
        ∷ [])
      Top.builder)

-- `"my-iroh-gossip-topic"`
abbrev pub topic_name : Bytes
topic_name =
    b'm' ∷ b'y' ∷ b'-' ∷ b'i' ∷ b'r' ∷ b'o' ∷ b'h' ∷ b'-' ∷ b'g' ∷ b'o' ∷ b's' ∷ b's' ∷ b'i' ∷ b'p'
    ∷ b'-' ∷ b't' ∷ b'o' ∷ b'p' ∷ b'i' ∷ b'c' ∷ []

-- `b"my-initial-secret"`
abbrev pub initial_secret : Bytes
initial_secret =
    b'm' ∷ b'y' ∷ b'-' ∷ b'i' ∷ b'n' ∷ b'i' ∷ b't' ∷ b'i' ∷ b'a' ∷ b'l' ∷ b'-' ∷ b's' ∷ b'e' ∷ b'c'
    ∷ b'r' ∷ b'e' ∷ b't' ∷ []

-- The text that the rotation of examples/secret_rotation.rs ends with.
abbrev pub rotation_text : Bytes
rotation_text =
    b'a' ∷ b's' ∷ b' ' ∷ b'l' ∷ b'o' ∷ b'n' ∷ b'g' ∷ b' ' ∷ b'a' ∷ b's' ∷ b' ' ∷ b'y' ∷ b'o' ∷ b'u'
    ∷ b' ' ∷ b'r' ∷ b'e' ∷ b't' ∷ b'u' ∷ b'r' ∷ b'n' ∷ b' ' ∷ b'3' ∷ b'2' ∷ b' ' ∷ b'b' ∷ b'y'
    ∷ b't' ∷ b'e' ∷ b's' ∷ b' ' ∷ b't' ∷ b'h' ∷ b'i' ∷ b's' ∷ b' ' ∷ b'i' ∷ b's' ∷ b' ' ∷ b'a'
    ∷ b' ' ∷ b'v' ∷ b'a' ∷ b'l' ∷ b'i' ∷ b'd' ∷ b' ' ∷ b's' ∷ b'e' ∷ b'c' ∷ b'r' ∷ b'e' ∷ b't'
    ∷ b' ' ∷ b'r' ∷ b'o' ∷ b't' ∷ b'a' ∷ b't' ∷ b'i' ∷ b'o' ∷ b'n' ∷ b' ' ∷ b'f' ∷ b'u' ∷ b'n'
    ∷ b'c' ∷ b't' ∷ b'i' ∷ b'o' ∷ b'n' ∷ []

module _ ⦃P : Primitives⦄ where
  -- `MySecretRotation`
  unfoldable pub my_secret_rotation : RotationHandle
  my_secret_rotation = record {
    derive = λ topic_hash unix_minute initial_secret_hash.
        hash32
          (topic_hash ++ (to_be_bytes 8 unix_minute ++ (initial_secret_hash ++ rotation_text)));
  }

  -- The publisher of records of each example, from its signing key.
  unfoldable pub simple : Bytes → RecordPublisher
  simple signing_key = new (topic_id topic_name) signing_key none initial_secret Top.default

  unfoldable pub chat : Bytes → RecordPublisher
  chat signing_key = new (topic_id topic_name) signing_key none initial_secret (
      Top.build (
        Top.run
          (Top.set_bootstrap_config
              (Bootstrapping.run (Bootstrapping.set_check_older_records_first_on_startup false ∷ [])
                Bootstrapping.builder).config
            ∷ [])
          Top.builder))

  unfoldable pub chat_no_wait : Bytes → RecordPublisher
  chat_no_wait signing_key = new (topic_id topic_name) signing_key none initial_secret Top.default

  unfoldable pub e2e_test : Bytes → RecordPublisher
  e2e_test signing_key = new (topic_id topic_name) signing_key none initial_secret Top.default

  unfoldable pub full_config : Bytes → RecordPublisher
  full_config signing_key = build (
      secret_rotation default_rotation
        (config config_builder (builder (topic_id topic_name) signing_key initial_secret)))

  unfoldable pub without_mergers : Bytes → RecordPublisher
  without_mergers signing_key = new (topic_id topic_name) signing_key none initial_secret (
      Top.build (
        Top.run
          (Top.set_merge_config
              (Merge.run
                (Merge.set_bubble_merge Bubble.disabled
                  ∷ Merge.set_message_overlap_merge Overlap.disabled
                  ∷ [])
                Merge.builder).config
            ∷ [])
          Top.builder))

  unfoldable pub rotating : Bytes → RecordPublisher
  rotating signing_key =
      new (topic_id topic_name) signing_key (some my_secret_rotation) initial_secret Top.default
