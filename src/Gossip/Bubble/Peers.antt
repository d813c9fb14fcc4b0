-- ===== src/Gossip/Bubble/Peers.antt =====
-- Whom a bubble merge joins, and when.
use distributed_topic_tracke.Prelude.{
  ℕ, ◌<◌, ◌≡◌, ◌≢◌, refl, sym, ap, subst, inl, inr, Bool, true, false, not, ◌&&◌, some, List, [],
  ◌∷◌, Bytes, bytes_eq, bytes_eq_iff, ltb, lt→ltb, length, Result, ok, err, panic, ok-eq, Mem,
  All-Mem, All-of_Mem, Mem-append_cases, Mem-append_right, Mem-select_by, Mem-flat_map,
  flat_map-Mem, contains, Mem-unique, unique-Mem, arith, Mem-if, &&-eq-true, ltb→lt,
}
use distributed_topic_tracke.Crypto.Primitives.{Primitives, Postcard}
use distributed_topic_tracke.Crypto.Record.{Record, content}
use distributed_topic_tracke.Crypto.Publisher.{RecordPublisher, Cut}
use distributed_topic_tracke.Crypto.Publisher.Capacity.{continue-ok, continue-eq-ok}
use distributed_topic_tracke.Dht.{Oracle, DhtActor}
use distributed_topic_tracke.Gossip.Content.{GossipRecordContent}
use distributed_topic_tracke.Gossip.Merge.{two_minutes, finish}
use distributed_topic_tracke.Gossip.Merge.Joining.{
  not_empty, Joins, finish-Joins, unless_empty-some, unless_empty-Mem, if-eq-some,
}
use distributed_topic_tracke.Gossip.Sender.{Outcome, Request, joining, chosen_peers, join_peers}
use distributed_topic_tracke.Gossip.Bubble.{
  is_candidate, peers_of_content, author, pub_keys, keys_to_join, merge,
}

-- A key that may be joined: a valid one, not the node's own, and not of a neighbour.
pub record IsStranger (is_endpoint : Bytes → Bool) (own_key : Bytes) (neighbors : List Bytes)
    (key : Bytes) : Type 0 where
  pub valid : is_endpoint key ≡ true
  pub other : key ≢ own_key
  pub unknown : contains key neighbors ≡ false

module _ (C : Postcard GossipRecordContent) (is_endpoint : Bytes → Bool) (own_key : Bytes)
    (neighbors : List Bytes) where
  abbrev Stranger : Bytes → Type 0
  Stranger = IsStranger is_endpoint own_key neighbors

  candidate-IsStranger :
      (r : Record) (key : Bytes)
      → is_candidate C is_endpoint own_key neighbors r key ≡ true
      → Stranger key
  unfolding is_candidate
  candidate-IsStranger r key h = record {
    valid = ground arith;
    other = ground (arith, bytes_eq_iff key own_key);
    unknown = ground arith;
  }

  may_join : Record → Bool
  may_join r =
      is_endpoint r.pub_key
      && (not (bytes_eq r.pub_key own_key) && not (contains r.pub_key neighbors))

  may_join-IsStranger : (r : Record) → may_join r ≡ true → Stranger r.pub_key
  unfolding may_join
  may_join-IsStranger r h = record {
    valid = ground arith;
    other = ground (arith, bytes_eq_iff r.pub_key own_key);
    unknown = ground arith;
  }

  author-IsStranger :
      (r : Record) (key : Bytes) → Mem key (author C is_endpoint own_key neighbors r) → Stranger key
  unfolding author may_join
  author-IsStranger r key m =
      let (h, e) = Mem-if (may_join r) key r.pub_key m in
      subst Stranger (sym e) (may_join-IsStranger r h)

  content-IsStranger :
      (r : Record) (c : Result GossipRecordContent) (key : Bytes)
      → Mem key (peers_of_content C is_endpoint own_key neighbors r c)
      → Stranger key
  unfolding peers_of_content
  content-IsStranger r (ok c) key m =
      candidate-IsStranger r key
        (Mem-select_by (is_candidate C is_endpoint own_key neighbors r) key c.active_peers m).1
  content-IsStranger r (err e) key m = absurd m
  content-IsStranger r panic key m = absurd m

  pub_keys-IsStranger :
      (records : List Record) (key : Bytes)
      → Mem key (pub_keys C is_endpoint own_key neighbors records)
      → Stranger key
  unfolding pub_keys
  pub_keys-IsStranger records key m =
      let (r, there, n) = Mem-flat_map _ key records (Mem-unique key _ m) in
      elim (Mem-append_cases key (peers_of_content C is_endpoint own_key neighbors r (content C r))
        _ n) [
          | inl peer ↦ content-IsStranger r (content C r) key peer
          | inr own ↦ author-IsStranger r key own
        ]

  author-pub_keys :
      (records : List Record) (r : Record)
      → Mem r records
      → Stranger r.pub_key
      → Mem r.pub_key (pub_keys C is_endpoint own_key neighbors records)
  unfolding pub_keys author
  author-pub_keys records r m h =
      let test : bytes_eq r.pub_key own_key ≡ false =
        ground (arith, h.other, bytes_eq_iff r.pub_key own_key) in
      unique-Mem r.pub_key _ (
        flat_map-Mem _ r.pub_key r records m (
          Mem-append_right r.pub_key
            (peers_of_content C is_endpoint own_key neighbors r (content C r)) _
            (rw (h.valid, test, h.unknown) (inl refl))))

module _ ⦃P : Primitives⦄ (o : Oracle) (p : RecordPublisher) (C : Postcard GossipRecordContent)
    (is_endpoint : Bytes → Bool) (max_join_peers min_neighbors : ℕ) (unix_minute : ℕ)
    (cut_previous cut_current : Cut) (answer : Result (List Bytes)) where
  -- What must hold for a merge to join the keys that it found.
  keys_to_join-eq-some :
      (s : DhtActor) (found : List Bytes)
      → (keys_to_join o p C is_endpoint max_join_peers min_neighbors unix_minute cut_previous
          cut_current answer s).0
        ≡ ok (some found)
      → (records : List Record) × (neighbors : List Bytes) × (answer ≡ ok neighbors)
        × (length neighbors < min_neighbors)
        × (pub_keys C is_endpoint p.pub_key neighbors records ≡ found)
  unfolding keys_to_join
  keys_to_join-eq-some s found h =
      let (records, e, rest) =
        continue-eq-ok (two_minutes o p unix_minute cut_previous cut_current s) _ h in
      let (neighbors, a, last) = continue-eq-ok (answer, _) _ rest in
      let (test, some_keys) = if-eq-some _ _ (ok-eq _ _ last) in
      (
        records,
        neighbors,
        a,
        ltb→lt _ _ (&&-eq-true (ltb (length neighbors) min_neighbors) _ test).0,
        unless_empty-some _ found some_keys,
      )

  module _ (shuffle : List Bytes → List Bytes) (outcome : Outcome) (s : DhtActor) where
    -- If the shuffle adds no keys, a bubble merge asks to join only when the node has fewer
    -- neighbours than the minimum, and then for no more keys than the maximum, each of which is
    -- valid, is not the node's own and is not the key of a neighbour.
    pub bubble_merge_sound :
        (q : Request)
        → ((keys : List Bytes) (k : Bytes) → Mem k (shuffle keys) → Mem k keys)
        → Mem q
            (merge o p C is_endpoint max_join_peers min_neighbors unix_minute cut_previous
              cut_current answer shuffle outcome s).0.0
        → (neighbors : List Bytes) × (answer ≡ ok neighbors)
          × (length neighbors < min_neighbors)
          × Joins max_join_peers (IsStranger is_endpoint p.pub_key neighbors) q
    unfolding merge
    bubble_merge_sound q shuffled m =
        let (found, e, joins) = finish-Joins shuffle shuffled max_join_peers outcome _ q m in
        let (keys, sent, few, there) = joins in
        let (records, neighbors, a, small, same) = keys_to_join-eq-some s found e in
        (
          neighbors,
          a,
          small,
          (
            keys,
            sent,
            few,
            All-of_Mem (IsStranger is_endpoint p.pub_key neighbors) keys (λ k n.
                pub_keys-IsStranger C is_endpoint p.pub_key neighbors records k
                  (subst (Mem k) (sym same) (All-Mem (λ x. Mem x found) keys there n))),
          ),
        )

    -- If both minutes' records are fetched, the node has fewer neighbours than the minimum and one
    -- of the records is of a node that it may join, then a bubble merge sends one request to join,
    -- for a choice among keys that include that node's.
    pub bubble_merge_complete :
        (records : List Record) (neighbors : List Bytes) (r : Record)
        → (two_minutes o p unix_minute cut_previous cut_current s).0 ≡ ok records
        → answer ≡ ok neighbors
        → length neighbors < min_neighbors
        → Mem r records
        → IsStranger is_endpoint p.pub_key neighbors r.pub_key
        → (keys : List Bytes) × Mem r.pub_key keys
          × ((merge o p C is_endpoint max_join_peers min_neighbors unix_minute cut_previous
                cut_current answer shuffle outcome s).0.0
              ≡ joining (chosen_peers shuffle keys (some max_join_peers)) ∷ [])
    unfolding merge
    bubble_merge_complete records neighbors r fetched a small m stranger =
        let keys = pub_keys C is_endpoint p.pub_key neighbors records in
        let there : Mem r.pub_key keys =
          author-pub_keys C is_endpoint p.pub_key neighbors records r m stranger in
        let wanted : (keys_to_join o p C is_endpoint max_join_peers min_neighbors unix_minute
              cut_previous cut_current answer s).0
            ≡ ok (some keys) =
          unfold keys_to_join in
          rw
            (
              continue-ok (two_minutes o p unix_minute cut_previous cut_current s) _ fetched,
              a,
              lt→ltb (length neighbors) min_neighbors small,
              not_empty r records m,
            )
            (ap ok (unless_empty-Mem r.pub_key keys there)) in
        (keys, there, rw wanted (unfold finish join_peers in refl))
