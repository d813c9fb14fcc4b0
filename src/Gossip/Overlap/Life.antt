-- ===== src/Gossip/Overlap/Life.antt =====
-- src/gossip/merge/message_overlap.rs: `merge` as the work of `run`, and all that a merger ever sends.
use distributed_topic_tracke.Prelude.{ℕ, suc, ◌≡◌, Bool, List, Bytes, Result, ok, length, All, Mem}
use distributed_topic_tracke.Crypto.Primitives.{Primitives, Postcard}
use distributed_topic_tracke.Crypto.Record.{Record}
use distributed_topic_tracke.Crypto.Publisher.{RecordPublisher}
use distributed_topic_tracke.Gossip.Content.{GossipRecordContent}
use distributed_topic_tracke.Gossip.Sender.{Request}
use distributed_topic_tracke.Gossip.Merge.{two_minutes}
use distributed_topic_tracke.Gossip.Merge.Joining.{Joins}
use distributed_topic_tracke.Gossip.Merge.Life.{
  Merger, Meets, logged, IsShuffle, IsLog, length-finish, logged-IsLog, life, life-IsLog,
}
use distributed_topic_tracke.Gossip.Overlap.{merge}
use distributed_topic_tracke.Gossip.Overlap.Split.{IsBeyond, overlap_merge_sound}
use distributed_topic_tracke.Gossip.Ticker.Spacing.{IsSpaced}
use distributed_topic_tracke.Gossip.Working.{Turn}
use distributed_topic_tracke.Gossip.Working.Ticks.{jobs}

module _ ⦃P : Primitives⦄ (p : RecordPublisher) (C : Postcard GossipRecordContent)
    (is_endpoint : Bytes → Bool) (max_join_peers : ℕ) where
  -- The work of a tick.
  unfoldable pub overlap_work : Meets → Merger → Result (Unit {0}) × Merger
  overlap_work j m =
      logged
        (merge j.world p C is_endpoint max_join_peers j.unix_minute j.cut_previous j.cut_current
          j.hashes j.neighbors j.shuffle j.outcome j.actor)
        m

  -- A request for nodes beyond a split: what the merge fetched and what the receiver answered show
  -- each key to be in a record whose message hashes are all foreign.
  abbrev pub IsSoundOverlap : List Meets → Request → Type 0
  IsSoundOverlap js q =
      (j : Meets) × Mem j js
      × (records : List Record) × (local_hashes : List Bytes) × (neighbors : List Bytes)
      × ((two_minutes j.world p j.unix_minute j.cut_previous j.cut_current j.actor).0 ≡ ok records)
      × (j.hashes ≡ ok local_hashes)
      × (j.neighbors ≡ ok neighbors)
      × Joins max_join_peers (IsBeyond C is_endpoint p.pub_key neighbors local_hashes records) q

  overlap_work-IsLog :
      (js : List Meets) (n : ℕ) (j : Meets) (m : Merger)
      → IsShuffle j
      → Mem j js
      → IsLog (IsSoundOverlap js) n m
      → IsLog (IsSoundOverlap js) (suc n) (overlap_work j m).1
  unfolding overlap_work
  overlap_work-IsLog js n j m shuffled there log =
      logged-IsLog (IsSoundOverlap js) n _ m
        (unfold merge in length-finish j.shuffle max_join_peers j.outcome _)
        (λ q sent.
          let (records, local_hashes, neighbors, fetched, own, answered, joins) =
            overlap_merge_sound j.world p C is_endpoint j.unix_minute j.cut_previous j.cut_current
              j.hashes j.neighbors max_join_peers j.shuffle j.outcome j.actor q shuffled sent in
          (j, there, records, local_hashes, neighbors, fetched, own, answered, joins))
        log

  -- In the whole life of an overlap merger, whatever wakes it and whatever it meets, it sends no
  -- more requests than it had ticks, the ticks lie at least a second apart, and each request asks for no
  -- more keys than the maximum; each key is valid, is neither the node's own nor a neighbour's, and
  -- stands in a fetched record that names message hashes of which the node itself has none. The
  -- shuffles must add no keys.
  pub overlap_life_sound :
      (now initial_interval base_interval max_jitter : ℕ) (turns : List (Turn Meets))
      → All (λ t. IsShuffle t.1) turns
      → let w = life overlap_work now initial_interval base_interval max_jitter turns in
        ((next : ℕ) × IsSpaced next w.ticker.ticks)
        × IsLog (IsSoundOverlap (jobs turns)) (length w.ticker.ticks) w.state
  overlap_life_sound = life-IsLog overlap_work IsSoundOverlap overlap_work-IsLog
