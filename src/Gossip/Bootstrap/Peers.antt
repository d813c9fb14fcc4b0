-- ===== src/Gossip/Bootstrap/Peers.antt =====
-- The keys that a round of the bootstrap may ask are valid and not the node's own.
use distributed_topic_tracke.Prelude.{
  ℕ, ◌≡◌, ◌≢◌, refl, sym, subst, inl, inr, Bool, List, [], ◌∷◌, ◌++◌, Bytes, bytes_eq_iff, Result,
  ok, err, panic, unwrap_or, arith, Mem, Mem-append_cases, Mem-select_by, Mem-flat_map, Mem-unique,
}
use distributed_topic_tracke.Crypto.Primitives.{Primitives, Postcard}
use distributed_topic_tracke.Crypto.Record.{Record, content}
use distributed_topic_tracke.Crypto.Publisher.{get_records}
use distributed_topic_tracke.Crypto.Publisher.Fetch.{get_records_sound}
use distributed_topic_tracke.Gossip.Content.{GossipRecordContent}
use distributed_topic_tracke.Gossip.Rounds.{BootstrapActor, Fetch}
use distributed_topic_tracke.Gossip.Bootstrap.{fetch, peers_of_content, bootstrap_nodes}
use distributed_topic_tracke.Gossip.Bootstrap.Moves.{IsOther}

unwrap_or-Mem :
    {A : Type 0} (x : Result (List A)) (a : A)
    → Mem a (unwrap_or x [])
    → (l : List A) × (x ≡ ok l) × Mem a l
unwrap_or-Mem (ok l) a m = (l, refl, m)
unwrap_or-Mem (err e) a m = absurd m
unwrap_or-Mem panic a m = absurd m

module _ ⦃P : Primitives⦄ (C : Postcard GossipRecordContent) (is_endpoint : Bytes → Bool)
    (b : BootstrapActor) where
  abbrev pub IsStrange : Bytes → Type 0
  IsStrange = IsOther is_endpoint b.record_publisher.pub_key

  fetch-other :
      (f : Fetch) (unix_minute : ℕ) (x : Record)
      → Mem x (fetch C is_endpoint b f unix_minute)
      → x.pub_key ≢ b.record_publisher.pub_key
  unfolding fetch
  fetch-other f unix_minute x m =
      let answer = (get_records f.world b.record_publisher unix_minute f.cut f.actor).0 in
      let (records, e, there) = unwrap_or-Mem answer x m in
      let (items, item, found, stands, opens, verifies, other) =
        get_records_sound f.world b.record_publisher unix_minute f.cut f.actor records x e there in
      other

  pub fetches-other :
      (f g : Fetch) (m n : ℕ) (x : Record)
      → Mem x (fetch C is_endpoint b f m ++ fetch C is_endpoint b g n)
      → x.pub_key ≢ b.record_publisher.pub_key
  fetches-other f g m n x h =
      elim (Mem-append_cases x (fetch C is_endpoint b f m) (fetch C is_endpoint b g n) h) [
        | inl old ↦ fetch-other f m x old
        | inr new ↦ fetch-other g n x new
      ]

  peer-other :
      (c : Result GossipRecordContent) (key : Bytes)
      → Mem key (peers_of_content C is_endpoint b c)
      → key ≢ b.record_publisher.pub_key
  unfolding peers_of_content
  peer-other (ok c) key m =
      let (there, test) = Mem-select_by _ key c.active_peers m in
      ground (arith, bytes_eq_iff key b.record_publisher.pub_key)
  peer-other (err e) key m = absurd m
  peer-other panic key m = absurd m

  pub bootstrap_nodes-IsOther :
      (records : List Record)
      → ((x : Record) → Mem x records → x.pub_key ≢ b.record_publisher.pub_key)
      → (key : Bytes) → Mem key (bootstrap_nodes C is_endpoint b records)
      → IsStrange key
  unfolding bootstrap_nodes
  bootstrap_nodes-IsOther records others key m =
      let (named, valid) = Mem-select_by is_endpoint key _ (Mem-unique key _ m) in
      let (x, there, n) = Mem-flat_map _ key records named in
      record { valid = valid; other = named_other x (others x there) key n }
    where
      named_other :
          (x : Record)
          → x.pub_key ≢ b.record_publisher.pub_key
          → (key : Bytes) → Mem key (x.pub_key ∷ peers_of_content C is_endpoint b (content C x))
          → key ≢ b.record_publisher.pub_key
      named_other x h key (inl e) = subst (λ k. k ≢ b.record_publisher.pub_key) (sym e) h
      named_other x h key (inr m) = peer-other (content C x) key m
