-- ===== src/Gossip/Overlap/Healing.antt =====
-- A split topic is joined again: the overlap merge of one node and the published content of another.
use distributed_topic_tracke.Prelude.{
  ℕ, ◌≡◌, refl, ap, inl, Bool, true, ◌∙◌, false, not, ◌&&◌, some, List, [], ◌∷◌, Bytes, bytes_eq,
  bytes_eq_iff, Result, ok, if◌then◌else◌, Mem, All, All-take, Mem-append_left, select_by-Mem,
  flat_map-Mem, contains, unique-Mem, arith, take,
}
use distributed_topic_tracke.Crypto.Primitives.{Primitives, Postcard}
use distributed_topic_tracke.Crypto.Record.{Record, content}
use distributed_topic_tracke.Crypto.Publisher.{RecordPublisher, Cut}
use distributed_topic_tracke.Crypto.Publisher.Capacity.{continue-ok}
use distributed_topic_tracke.Dht.{Oracle, DhtActor}
use distributed_topic_tracke.Gossip.Content.{GossipRecordContent, record_content}
use distributed_topic_tracke.Gossip.Content.Slots.{IsKey}
use distributed_topic_tracke.Gossip.Merge.{is_empty, two_minutes, finish}
use distributed_topic_tracke.Gossip.Merge.Joining.{not_empty, unless_empty-Mem}
use distributed_topic_tracke.Gossip.Sender.{Outcome, joining, join_peers, chosen_peers}
use distributed_topic_tracke.Gossip.Bubble.Peers.{IsStranger}
use distributed_topic_tracke.Gossip.Overlap.{
  every, is_apart, is_other, peers_of_content, named, pub_keys, peers_to_join, keys_to_join, merge,
  strangers_in,
}
use distributed_topic_tracke.Gossip.Overlap.Published.{is_apart-record_content}

-- Hashes of which none is among the given ones.
abbrev pub AreForeign : List Bytes → List Bytes → Type 0
AreForeign local_hashes hashes = All (λ h. contains h local_hashes ≡ false) hashes

every-AreForeign :
    (local_hashes hashes : List Bytes)
    → AreForeign local_hashes hashes
    → every (λ h. not (contains h local_hashes)) hashes ≡ true
unfolding every
every-AreForeign local_hashes [] h = refl
every-AreForeign local_hashes (x ∷ xs) h = rw (h.0, every-AreForeign local_hashes xs h.1) refl

some_foreign :
    (local_hashes hashes : List Bytes)
    → is_empty hashes ≡ false
    → AreForeign local_hashes hashes
    → (not (is_empty (take 5 hashes)) && every (λ h. not (contains h local_hashes)) (take 5 hashes))
      ≡ true
some_foreign local_hashes [] h foreign = cc
some_foreign local_hashes (x ∷ xs) h foreign =
    every-AreForeign local_hashes (take 5 (x ∷ xs)) (All-take _ 5 (x ∷ xs) foreign)

module _ ⦃P : Primitives⦄ (o : Oracle) (p : RecordPublisher) (C : Postcard GossipRecordContent)
    (is_endpoint : Bytes → Bool) where
  author-named :
      (neighbors : List Bytes) (r : Record)
      → IsStranger is_endpoint p.pub_key neighbors r.pub_key
      → Mem r.pub_key (named C is_endpoint p.pub_key r)
  unfolding named is_other
  author-named neighbors r h =
      let test : bytes_eq r.pub_key p.pub_key ≡ false =
        ground (arith, h.other, bytes_eq_iff r.pub_key p.pub_key) in
      Mem-append_left r.pub_key
        (if is_other C is_endpoint p.pub_key r.pub_key then r.pub_key ∷ [] else [])
        (peers_of_content C is_endpoint p.pub_key (content C r)) (rw (h.valid, test) (inl refl))

  author-pub_keys :
      (neighbors : List Bytes) (chosen : List Record) (r : Record)
      → Mem r chosen
      → IsStranger is_endpoint p.pub_key neighbors r.pub_key
      → Mem r.pub_key (pub_keys C is_endpoint p.pub_key neighbors chosen)
  unfolding pub_keys
  author-pub_keys neighbors chosen r m h = unique-Mem r.pub_key _ (
      select_by-Mem (λ k. not (contains k neighbors)) r.pub_key _
        (flat_map-Mem (named C is_endpoint p.pub_key) r.pub_key r chosen m
          (author-named neighbors r h))
        (rw (h.unknown) refl))

  module _ (unix_minute : ℕ) (cut_previous cut_current : Cut) (hashes answer : Result (List Bytes))
      (max_join_peers : ℕ) (shuffle : List Bytes → List Bytes) (outcome : Outcome)
      (s : DhtActor) where
    pub overlap_merge_complete :
        (records : List Record) (local_hashes neighbors : List Bytes) (r : Record)
        → (two_minutes o p unix_minute cut_previous cut_current s).0 ≡ ok records
        → hashes ≡ ok local_hashes
        → answer ≡ ok neighbors
        → is_empty local_hashes ≡ false
        → Mem r records
        → is_apart local_hashes (content C r) ≡ true
        → IsStranger is_endpoint p.pub_key neighbors r.pub_key
        → (keys : List Bytes) × Mem r.pub_key keys
          × ((merge o p C is_endpoint max_join_peers unix_minute cut_previous cut_current hashes
                answer shuffle outcome s).0.0
              ≡ joining (chosen_peers shuffle keys (some max_join_peers)) ∷ [])
    unfolding merge
    overlap_merge_complete records local_hashes neighbors r fetched own answered heard m apart
          stranger =
        let chosen = peers_to_join o p C is_endpoint local_hashes records in
        let there : Mem r chosen =
          unfold peers_to_join in
          select_by-Mem (λ x. is_apart local_hashes (content C x)) r records m apart in
        let keys = pub_keys C is_endpoint p.pub_key neighbors chosen in
        let k : Mem r.pub_key keys = author-pub_keys neighbors chosen r there stranger in
        let wanted : (keys_to_join o p C is_endpoint unix_minute cut_previous cut_current hashes
              answer s).0
            ≡ ok (some keys) =
          unfold keys_to_join strangers_in in
          rw
            (
              continue-ok (two_minutes o p unix_minute cut_previous cut_current s) _ fetched,
              own,
              heard,
              not_empty r chosen there,
              answered,
            )
            (ap ok (unless_empty-Mem r.pub_key keys k)) in
        (keys, k, rw wanted (unfold finish join_peers in refl))

    -- Let a node that has heard messages fetch both minutes' records, one of them by another node
    -- that it may join. If that record holds the content that a publisher writes for its neighbours
    -- and its last message hashes, and that node has heard messages, of whose hashes the first node
    -- has none, then the first node's overlap merge sends one request to join, for a choice among
    -- keys that include the other node's. None of the neighbours and hashes may be zero.
    pub overlap_merge_heals :
        (records : List Record) (local_hashes neighbors : List Bytes) (r : Record)
        (their_neighbors their_hashes : List Bytes)
        → (two_minutes o p unix_minute cut_previous cut_current s).0 ≡ ok records
        → hashes ≡ ok local_hashes
        → answer ≡ ok neighbors
        → is_empty local_hashes ≡ false
        → Mem r records
        → content C r ≡ ok (record_content their_neighbors their_hashes)
        → All IsKey their_neighbors
        → All IsKey their_hashes
        → is_empty their_hashes ≡ false
        → AreForeign local_hashes their_hashes
        → IsStranger is_endpoint p.pub_key neighbors r.pub_key
        → (keys : List Bytes) × Mem r.pub_key keys
          × ((merge o p C is_endpoint max_join_peers unix_minute cut_previous cut_current hashes
                answer shuffle outcome s).0.0
              ≡ joining (chosen_peers shuffle keys (some max_join_peers)) ∷ [])
    overlap_merge_heals records local_hashes neighbors r their_neighbors their_hashes fetched own
          answered heard m reads n h some_heard foreign stranger =
        let apart : is_apart local_hashes (content C r) ≡ true = rw reads (
          is_apart-record_content their_neighbors their_hashes local_hashes n h
          ∙ some_foreign local_hashes their_hashes some_heard foreign) in
        overlap_merge_complete records local_hashes neighbors r fetched own answered heard m apart
          stranger
