-- ===== src/Gossip/Overlap/Split.antt =====
-- Whom an overlap merge joins, and why.
use distributed_topic_tracke.Prelude.{
  ℕ, ◌≡◌, ◌≢◌, refl, sym, subst, ◌⊎◌, inl, inr, Bool, true, false, not, ◌&&◌, ◌||◌, Option, some,
  none, List, [], ◌∷◌, Bytes, bytes_eq_iff, Result, ok, err, panic, ok-eq, if◌then◌else◌, Mem, All,
  All-Mem, All-of_Mem, Mem-append_cases, Mem-select_by, Mem-flat_map, contains, Mem-unique, arith,
  Mem-if, &&-eq-true, not-eq-true,
}
use distributed_topic_tracke.Crypto.Primitives.{Primitives, Postcard}
use distributed_topic_tracke.Crypto.Record.{Record, content}
use distributed_topic_tracke.Crypto.Publisher.{RecordPublisher, Cut}
use distributed_topic_tracke.Crypto.Publisher.Capacity.{continue-eq-ok}
use distributed_topic_tracke.Dht.{Oracle, DhtActor, M, pure}
use distributed_topic_tracke.Gossip.Content.{GossipRecordContent, is_set}
use distributed_topic_tracke.Gossip.Merge.{is_empty, two_minutes}
use distributed_topic_tracke.Gossip.Merge.Joining.{Joins, finish-Joins, unless_empty-some}
use distributed_topic_tracke.Gossip.Sender.{Outcome, Request}
use distributed_topic_tracke.Gossip.Overlap.{
  every, remote_hashes, is_apart, is_other, peers_of_content, named, pub_keys, peers_to_join,
  keys_to_join, merge, strangers_in,
}

-- A record that has heard messages, none of which is among the given ones.
pub record IsApart (C : Postcard GossipRecordContent) (local_hashes : List Bytes) (r : Record)
    : Type 0 where
  pub read : GossipRecordContent
  pub reads : content C r ≡ ok read
  pub heard : is_empty (remote_hashes read) ≡ false
  pub foreign : All (λ h. contains h local_hashes ≡ false) (remote_hashes read)

-- Why a key is joined: it is valid, not the node's own nor a neighbour's, and it stands in a record
-- that is apart, as the key of the record itself or among its active peers.
pub record IsBeyond (C : Postcard GossipRecordContent) (is_endpoint : Bytes → Bool)
    (own_key : Bytes) (neighbors local_hashes : List Bytes) (records : List Record) (key : Bytes)
    : Type 0 where
  pub valid : is_endpoint key ≡ true
  pub other : key ≢ own_key
  pub unknown : contains key neighbors ≡ false
  pub source : Record
  pub fetched : Mem source records
  pub apart : IsApart C local_hashes source
  pub named_there : (key ≡ source.pub_key) ⊎ Mem key apart.read.active_peers

every-All :
    {A : Type 0} (test : A → Bool) (xs : List A)
    → every test xs ≡ true
    → All (λ x. test x ≡ true) xs
unfolding every
every-All test [] h = tt
every-All test (x ∷ xs) h =
    let (first, rest) = &&-eq-true (test x) (every test xs) h in (first, every-All test xs rest)

All-not :
    {A : Type 0} (test : A → Bool) (xs : List A)
    → All (λ x. not (test x) ≡ true) xs
    → All (λ x. test x ≡ false) xs
All-not test [] h = tt
All-not test (x ∷ xs) h = (ground arith, All-not test xs h.1)

module _ (C : Postcard GossipRecordContent) (local_hashes : List Bytes) (r : Record) where
  is_apart-IsApart :
      (c : Result GossipRecordContent)
      → content C r ≡ c
      → is_apart local_hashes c ≡ true
      → IsApart C local_hashes r
  unfolding is_apart
  is_apart-IsApart (ok c) e h =
      let (heard, foreign) = &&-eq-true (not (is_empty (remote_hashes c))) _ h in
      record {
        read = c;
        reads = e;
        heard = ground arith;
        foreign =
            All-not (λ k. contains k local_hashes) (remote_hashes c)
              (every-All _ (remote_hashes c) foreign);
      }
  is_apart-IsApart (err x) e h = cc
  is_apart-IsApart panic e h = cc

module _ (C : Postcard GossipRecordContent) (is_endpoint : Bytes → Bool) (own_key : Bytes) where
  other_lem :
      (key : Bytes)
      → is_other C is_endpoint own_key key ≡ true
      → (is_endpoint key ≡ true) × (key ≢ own_key)
  unfolding is_other
  other_lem key h = (ground arith, ground (arith, bytes_eq_iff key own_key))

  -- A key that a record names.
  named_lem :
      (r : Record) (c : GossipRecordContent) (key : Bytes)
      → content C r ≡ ok c
      → Mem key (named C is_endpoint own_key r)
      → (is_other C is_endpoint own_key key ≡ true) × ((key ≡ r.pub_key) ⊎ Mem key c.active_peers)
  unfolding named peers_of_content
  named_lem r c key e m =
      elim (Mem-append_cases key _ (peers_of_content C is_endpoint own_key (content C r)) m) [
        | inl own ↦
            let (h, same) = Mem-if (is_other C is_endpoint own_key r.pub_key) key r.pub_key own in
            (subst (λ k. is_other C is_endpoint own_key k ≡ true) (sym same) h, inl same)
        | inr peer ↦
            let (there, test) =
              Mem-select_by (λ k. is_set k && is_other C is_endpoint own_key k) key c.active_peers
                (subst (λ x. Mem key (peers_of_content C is_endpoint own_key x)) e peer) in
            ((&&-eq-true (is_set key) _ test).1, inr there)
      ]

unless_none :
    {A : Type 0} (b : Bool) (m : M (Option A)) (s : DhtActor) {a : A}
    → ((if b then pure none else m) s).0 ≡ ok (some a)
    → (b ≡ false) × ((m s).0 ≡ ok (some a))
unless_none true m s h = cc
unless_none false m s h = (refl, h)

module _ ⦃P : Primitives⦄ (o : Oracle) (p : RecordPublisher) (C : Postcard GossipRecordContent)
    (is_endpoint : Bytes → Bool) where
  pub_keys-IsBeyond :
      (neighbors local_hashes : List Bytes) (records : List Record) (key : Bytes)
      → Mem key (
          pub_keys C is_endpoint p.pub_key neighbors
            (peers_to_join o p C is_endpoint local_hashes records))
      → IsBeyond C is_endpoint p.pub_key neighbors local_hashes records key
  unfolding pub_keys peers_to_join
  pub_keys-IsBeyond neighbors local_hashes records key m =
      let (there, unknown) =
        Mem-select_by (λ k. not (contains k neighbors)) key _ (Mem-unique key _ m) in
      let (r, chosen, n) = Mem-flat_map (named C is_endpoint p.pub_key) key _ there in
      let (fetched, test) =
        Mem-select_by (λ x. is_apart local_hashes (content C x)) r records chosen in
      let apart = is_apart-IsApart C local_hashes r (content C r) refl test in
      let (other, stands) = named_lem C is_endpoint p.pub_key r apart.read key apart.reads n in
      let (valid, foreign) = other_lem C is_endpoint p.pub_key key other in
      record {
        valid = valid;
        other = foreign;
        unknown = not-eq-true (contains key neighbors) unknown;
        source = r;
        fetched = fetched;
        apart = apart;
        named_there = stands;
      }

  module _ (unix_minute : ℕ) (cut_previous cut_current : Cut)
      (hashes answer : Result (List Bytes)) where
    -- What must hold for a merge to join the keys that it found.
    keys_to_join-eq-some :
        (s : DhtActor) (found : List Bytes)
        → (keys_to_join o p C is_endpoint unix_minute cut_previous cut_current hashes answer s).0
          ≡ ok (some found)
        → (records : List Record) × (local_hashes : List Bytes) × (neighbors : List Bytes)
          × ((two_minutes o p unix_minute cut_previous cut_current s).0 ≡ ok records)
          × (hashes ≡ ok local_hashes)
          × (answer ≡ ok neighbors)
          × (pub_keys C is_endpoint p.pub_key neighbors
                (peers_to_join o p C is_endpoint local_hashes records)
              ≡ found)
    unfolding keys_to_join strangers_in
    keys_to_join-eq-some s found h =
        let (records, e, rest) =
          continue-eq-ok (two_minutes o p unix_minute cut_previous cut_current s) _ h in
        let (local_hashes, l, more) = continue-eq-ok (hashes, _) _ rest in
        let t = (two_minutes o p unix_minute cut_previous cut_current s).1 in
        let chosen = peers_to_join o p C is_endpoint local_hashes records in
        let (test, others) =
          unless_none (is_empty local_hashes || is_empty chosen)
            (strangers_in o p C is_endpoint chosen answer) t more in
        let (neighbors, a, last) = continue-eq-ok (answer, t) _ others in
        (records, local_hashes, neighbors, e, l, a, unless_empty-some _ found (ok-eq _ _ last))

    -- If the shuffle adds no keys, an overlap merge asks to join no more keys than the maximum, and
    -- each of them is valid, is not the node's own nor a neighbour's, and stands in a record of the
    -- two minutes that names message hashes of which the node itself has none.
    pub overlap_merge_sound :
        (max_join_peers : ℕ) (shuffle : List Bytes → List Bytes) (outcome : Outcome) (s : DhtActor)
        (q : Request)
        → ((keys : List Bytes) (k : Bytes) → Mem k (shuffle keys) → Mem k keys)
        → Mem q
            (merge o p C is_endpoint max_join_peers unix_minute cut_previous cut_current hashes
              answer shuffle outcome s).0.0
        → (records : List Record) × (local_hashes : List Bytes) × (neighbors : List Bytes)
          × ((two_minutes o p unix_minute cut_previous cut_current s).0 ≡ ok records)
          × (hashes ≡ ok local_hashes)
          × (answer ≡ ok neighbors)
          × Joins max_join_peers (IsBeyond C is_endpoint p.pub_key neighbors local_hashes records) q
    unfolding merge
    overlap_merge_sound max_join_peers shuffle outcome s q shuffled m =
        let (found, e, joins) = finish-Joins shuffle shuffled max_join_peers outcome _ q m in
        let (keys, sent, few, there) = joins in
        let (records, local_hashes, neighbors, fetched, l, a, same) =
          keys_to_join-eq-some s found e in
        (
          records,
          local_hashes,
          neighbors,
          fetched,
          l,
          a,
          (
            keys,
            sent,
            few,
            All-of_Mem (IsBeyond C is_endpoint p.pub_key neighbors local_hashes records) keys
                (λ k n.
                  pub_keys-IsBeyond neighbors local_hashes records k
                    (subst (Mem k) (sym same) (All-Mem (λ x. Mem x found) keys there n))),
          ),
        )
