-- ===== src/Tests/Network.antt =====
-- Runs of src/dht.rs and of a publication, and their theorems at concrete inputs.
use distributed_topic_tracke.Prelude.{
  ℕ, ◌<◌, ◌≡◌, refl, ◌⊎◌, true, some, none, List, [], ◌∷◌, ◌++◌, arith, length, replicate, ok, err,
  pos, if◌then◌else◌, ◌==◌, Bytes, dht_put_failed,
}
use distributed_topic_tracke.Config.Dht.{default as dht_default}
use distributed_topic_tracke.Config.{default as config_default}
use distributed_topic_tracke.Dht.{
  Oracle, DhtActor, stored, failed, timed_out, is_stored, new, put_mutable,
}
use distributed_topic_tracke.Dht.Retry.{stored_within, tries, put_mutable_lem}
use distributed_topic_tracke.Crypto.Record.{Record}
use distributed_topic_tracke.Crypto.Publisher.{
  RecordPublisher, Cuts, never, known_records, publish_record_cached_records,
}
use distributed_topic_tracke.Crypto.Publisher.Capacity.{Sent, publish_puts}
use distributed_topic_tracke.Tests.Toy.{toy, key_of}
use distributed_topic_tracke.Tests.Crypto.{note}
use distributed_topic_tracke.Tests.Publishing.{topic, entropy}

-- The first put fails, the second times out, all later ones are stored.
abbrev pub world : Oracle
world = record {
  builds = λ n. true;
  put_outcome = λ n. if n == 0 then failed else (if n == 1 then timed_out else stored);
  random = λ n. n;
  found = λ key salt seq. some [];
}

abbrev pub fresh : DhtActor
fresh = new dht_default

abbrev value : Bytes
value = 1 ∷ 2 ∷ []

third_time : (put_mutable world (key_of 9) none value (pos 1) fresh).0 ≡ ok tt
unfolding put_mutable new dht_default is_stored
third_time = refl

put_mutable_lem_example :
    ((put_mutable world (key_of 9) none value (pos 1) fresh).0
      ≡ (if stored_within world 4 0 then ok tt else err dht_put_failed))
    × ((put_mutable world (key_of 9) none value (pos 1) fresh).1.puts
        ≡ replicate
            (tries world 4 0)
            (record { signing_key = key_of 9; value = value; seq = pos 1; salt = none })
          ++ [])
unfolding new dht_default
put_mutable_lem_example =
    put_mutable_lem world (key_of 9) value none (pos 1) fresh (λ n. refl) (omega arith)

-- The node that wrote the note, and one that shares its topic and secret.
abbrev pub node : ℕ → RecordPublisher
node n = record {
  config = config_default;
  topic_id = topic;
  pub_key = key_of n;
  signing_key = key_of n;
  secret_rotation = none;
  initial_secret_hash = key_of 9;
}

abbrev pub uncut : Cuts
uncut = record { inner_get = never; outer_get = never; outer_put = never }

publish_puts_example :
    (k : ℕ) × Sent world
      (node 1)
      note
      fresh
      k
      (publish_record_cached_records world (node 1) note none uncut entropy fresh).1
    × ((k ≡ 0)
        ⊎ ((records : List Record) × ((known_records world (node 1) note none uncut fresh).0
              ≡ ok records)
            × (length records < (node 1).config.bootstrap_config.max_bootstrap_records)))
publish_puts_example = publish_puts world (node 1) note none uncut entropy fresh
