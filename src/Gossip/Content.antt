-- ===== src/Gossip/Content.antt =====
-- src/gossip/mod.rs, `GossipRecordContent`, and src/gossip/topic/publisher.rs, which fills it from what
-- the receiver knows. Keys and hashes are arrays of 32 bytes already, so no conversion drops one.
pub mod Slots
pub mod Life
use distributed_topic_tracke.Prelude.{
  ℕ, ◌-◌, Bool, not, Option, none, List, ◌++◌, Bytes, bytes_eq, length, take, replicate, Result,
}
use distributed_topic_tracke.Crypto.Primitives.{Primitives, Postcard}
use distributed_topic_tracke.Crypto.Encrypted.{Entropy}
use distributed_topic_tracke.Crypto.Publisher.{
  RecordPublisher, Cuts, lift, new_record, publish_record,
}
use distributed_topic_tracke.Dht.{Oracle, M, ◌>>=◌, ◌>>◌, continue}
use distributed_topic_tracke.Gossip.Receiver.{max_message_hashes}

-- `MAX_RECORD_PEERS` of src/lib.rs
abbrev pub max_record_peers : ℕ
max_record_peers = 5

pub record GossipRecordContent : Type 0 where
  pub active_peers : List Bytes
  pub last_message_hashes : List Bytes

-- `[0; 32]`
abbrev pub zero_key : Bytes
zero_key = replicate 32 0

-- `key != [0; 32]`
abbrev pub is_set : Bytes → Bool
is_set key = not (bytes_eq key zero_key)

-- `take(n)`, and `copy_from_slice` into an array of `n` zero entries.
unfoldable pub slots : ℕ → List Bytes → List Bytes
slots n keys = let filled = take n keys in filled ++ replicate (n - length filled) zero_key

-- The content that `PublisherActor::publish` builds.
unfoldable pub record_content : List Bytes → List Bytes → GossipRecordContent
unfolding slots
record_content neighbors hashes = record {
  active_peers = slots max_record_peers neighbors;
  last_message_hashes = slots max_message_hashes hashes;
}

module _ ⦃P : Primitives⦄ (o : Oracle) (C : Postcard GossipRecordContent)
    (p : RecordPublisher) where
  -- `PublisherActor::publish`, from the receiver's answers.
  unfoldable pub publish :
      ℕ → Result (List Bytes) → Result (List Bytes) → Cuts → Entropy → M (Unit {0})
  publish unix_minute neighbors last_message_hashes cuts entropy = do
    active ← lift neighbors
    hashes ← lift last_message_hashes
    r ← lift (new_record C p unix_minute (record_content active hashes))
    publish_record o p r cuts entropy
