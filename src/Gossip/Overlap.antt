-- ===== src/Gossip/Overlap.antt =====
-- src/gossip/merge/message_overlap.rs: `MessageOverlapMergeActor::merge`.
pub mod Split
pub mod Published
pub mod Life
pub mod Healing
use distributed_topic_tracke.Prelude.{
  ℕ, Bool, true, false, not, ◌&&◌, ◌||◌, Option, some, none, List, [], ◌∷◌, ◌++◌, Bytes, bytes_eq,
  Result, ok, err, panic, if◌then◌else◌, select_by, flat_map, contains, unique,
}
use distributed_topic_tracke.Crypto.Primitives.{Primitives, Postcard}
use distributed_topic_tracke.Crypto.Record.{Record, content}
use distributed_topic_tracke.Crypto.Publisher.{RecordPublisher, Cut, lift}
use distributed_topic_tracke.Dht.{Oracle, DhtActor, M, pure, ◌>>=◌, ◌>>◌, continue}
use distributed_topic_tracke.Gossip.Content.{GossipRecordContent, is_set}
use distributed_topic_tracke.Gossip.Merge.{is_empty, two_minutes, unless_empty, finish}
use distributed_topic_tracke.Gossip.Sender.{Outcome, Request}

-- `iter().all(test)`
unfoldable pub every {ℓ} : {A : Type ℓ} → (A → Bool) → List A → Bool
every test [] = true
every test (x ∷ xs) = test x && every test xs

-- The hashes of a content that are set.
unfoldable pub remote_hashes : GossipRecordContent → List Bytes
remote_hashes c = select_by is_set c.last_message_hashes

-- The filter on a record, from what its content reads as and the node's own hashes.
unfoldable pub is_apart : List Bytes → Result GossipRecordContent → Bool
is_apart local_hashes (ok c) =
    not (is_empty (remote_hashes c)) && every (λ h. not (contains h local_hashes)) (remote_hashes c)
is_apart local_hashes (err e) = false
is_apart local_hashes panic = false

-- `is_endpoint` says whether `EndpointId::from_bytes` of iroh is `Ok`.
module _ (C : Postcard GossipRecordContent) (is_endpoint : Bytes → Bool) (own_key : Bytes) where
  unfoldable pub is_other : Bytes → Bool
  is_other key = is_endpoint key && not (bytes_eq key own_key)

  unfoldable pub peers_of_content : Result GossipRecordContent → List Bytes
  peers_of_content (ok c) = select_by (λ key. is_set key && is_other key) c.active_peers
  peers_of_content (err e) = []
  peers_of_content panic = []

  -- The keys that one record names: its own, and those of its active peers.
  unfoldable pub named : Record → List Bytes
  named r = (if is_other r.pub_key then r.pub_key ∷ [] else []) ++ peers_of_content (content C r)

  -- `pub_keys`
  unfoldable pub pub_keys : List Bytes → List Record → List Bytes
  pub_keys active_neighbors peers_to_join =
      unique (select_by (λ key. not (contains key active_neighbors)) (flat_map named peers_to_join))

module _ ⦃P : Primitives⦄ (o : Oracle) (p : RecordPublisher) (C : Postcard GossipRecordContent)
    (is_endpoint : Bytes → Bool) where
  -- The records whose hashes are all foreign.
  unfoldable pub peers_to_join : List Bytes → List Record → List Record
  peers_to_join local_hashes records = select_by (λ r. is_apart local_hashes (content C r)) records

  -- The keys in those records, without the neighbours.
  unfoldable pub strangers_in : List Record → Result (List Bytes) → M (Option (List Bytes))
  strangers_in chosen neighbors = do
    active_neighbors ← lift neighbors
    pure (unless_empty (pub_keys C is_endpoint p.pub_key active_neighbors chosen))

  -- `merge` up to its request: the keys to join, if there are any.
  unfoldable pub keys_to_join :
      ℕ → Cut → Cut → Result (List Bytes) → Result (List Bytes) → M (Option (List Bytes))
  keys_to_join unix_minute cut_previous cut_current hashes neighbors = do
    records ← two_minutes o p unix_minute cut_previous cut_current
    local_hashes ← lift hashes
    if is_empty local_hashes || is_empty (peers_to_join local_hashes records)
        then pure none
        else strangers_in (peers_to_join local_hashes records) neighbors

  -- `MessageOverlapMergeActor::merge`, from the receiver's answers, the shuffle and the outcome of the
  -- request: the requests that it sends, its result, and the DHT actor after it.
  unfoldable pub merge :
      ℕ
      → ℕ
      → Cut
      → Cut
      → Result (List Bytes)
      → Result (List Bytes)
      → (List Bytes → List Bytes)
      → Outcome
      → DhtActor
      → (List Request × Result (Unit {0})) × DhtActor
  merge max_join_peers unix_minute cut_previous cut_current hashes neighbors shuffle outcome s =
      let r = keys_to_join unix_minute cut_previous cut_current hashes neighbors s in
      (finish shuffle max_join_peers outcome r.0, r.1)
