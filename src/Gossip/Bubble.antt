-- ===== src/Gossip/Bubble.antt =====
-- src/gossip/merge/bubble.rs: `BubbleMergeActor::merge`.
pub mod Peers
pub mod Life
pub mod Meeting
use distributed_topic_tracke.Prelude.{
  ℕ, Bool, true, false, not, ◌&&◌, ◌||◌, Option, some, none, List, [], ◌∷◌, ◌++◌, Bytes, bytes_eq,
  ltb, length, Result, ok, err, panic, if◌then◌else◌, select_by, flat_map, contains, unique,
}
use distributed_topic_tracke.Crypto.Primitives.{Primitives, Postcard}
use distributed_topic_tracke.Crypto.Record.{Record, content}
use distributed_topic_tracke.Crypto.Publisher.{RecordPublisher, Cut, lift}
use distributed_topic_tracke.Dht.{Oracle, DhtActor, M, pure, ◌>>=◌, ◌>>◌, continue}
use distributed_topic_tracke.Gossip.Content.{GossipRecordContent, zero_key}
use distributed_topic_tracke.Gossip.Merge.{is_empty, two_minutes, unless_empty, finish}
use distributed_topic_tracke.Gossip.Sender.{Outcome, Request}

-- `is_endpoint` says whether `EndpointId::from_bytes` of iroh is `Ok`.
module _ (C : Postcard GossipRecordContent) (is_endpoint : Bytes → Bool) (own_key : Bytes)
    (neighbors : List Bytes) where
  -- The `filter_map` on an active peer of a record.
  unfoldable pub is_candidate : Record → Bytes → Bool
  is_candidate r active_peer =
      not (
        bytes_eq active_peer zero_key
        || (contains active_peer neighbors
            || (bytes_eq active_peer r.pub_key || bytes_eq active_peer own_key)))
      && is_endpoint active_peer

  unfoldable pub peers_of_content : Record → Result GossipRecordContent → List Bytes
  peers_of_content r (ok c) = select_by (is_candidate r) c.active_peers
  peers_of_content r (err e) = []
  peers_of_content r panic = []

  -- The key of the record itself.
  unfoldable pub author : Record → List Bytes
  author r =
      if is_endpoint r.pub_key
        && (not (bytes_eq r.pub_key own_key) && not (contains r.pub_key neighbors))
      then r.pub_key ∷ []
      else []

  -- `pub_keys`
  unfoldable pub pub_keys : List Record → List Bytes
  pub_keys records = unique (flat_map (λ r. peers_of_content r (content C r) ++ author r) records)

module _ ⦃P : Primitives⦄ (o : Oracle) (p : RecordPublisher) (C : Postcard GossipRecordContent)
    (is_endpoint : Bytes → Bool) (max_join_peers min_neighbors : ℕ) where
  -- `merge` up to its request: the keys to join, if there are any.
  unfoldable pub keys_to_join : ℕ → Cut → Cut → Result (List Bytes) → M (Option (List Bytes))
  keys_to_join unix_minute cut_previous cut_current answer = do
    records ← two_minutes o p unix_minute cut_previous cut_current
    neighbors ← lift answer
    pure (
        if ltb (length neighbors) min_neighbors && not (is_empty records)
        then unless_empty (pub_keys C is_endpoint p.pub_key neighbors records)
        else none)

  -- `BubbleMergeActor::merge`, from the receiver's answer, the shuffle and the outcome of the request:
  -- the requests that it sends, its result, and the DHT actor after it.
  unfoldable pub merge :
      ℕ
      → Cut
      → Cut
      → Result (List Bytes)
      → (List Bytes → List Bytes)
      → Outcome
      → DhtActor
      → (List Request × Result (Unit {0})) × DhtActor
  merge unix_minute cut_previous cut_current answer shuffle outcome s =
      let r = keys_to_join unix_minute cut_previous cut_current answer s in
      (finish shuffle max_join_peers outcome r.0, r.1)
