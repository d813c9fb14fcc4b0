-- ===== src/Gossip/Bubble/Life.antt =====
-- src/gossip/merge/bubble.rs: `merge` as the work of `run`, and all that a merger ever sends.
use distributed_topic_tracke.Prelude.{
  ℕ, suc, ◌<◌, ◌≡◌, Bool, List, Bytes, Result, ok, length, All, Mem,
}
use distributed_topic_tracke.Crypto.Primitives.{Primitives, Postcard}
use distributed_topic_tracke.Crypto.Publisher.{RecordPublisher}
use distributed_topic_tracke.Gossip.Content.{GossipRecordContent}
use distributed_topic_tracke.Gossip.Sender.{Request}
use distributed_topic_tracke.Gossip.Merge.Joining.{Joins}
use distributed_topic_tracke.Gossip.Merge.Life.{
  Merger, Meets, logged, IsShuffle, IsLog, length-finish, logged-IsLog, life, life-IsLog,
}
use distributed_topic_tracke.Gossip.Bubble.{merge}
use distributed_topic_tracke.Gossip.Bubble.Peers.{IsStranger, bubble_merge_sound}
use distributed_topic_tracke.Gossip.Ticker.Spacing.{IsSpaced}
use distributed_topic_tracke.Gossip.Working.{Turn}
use distributed_topic_tracke.Gossip.Working.Ticks.{jobs}

module _ ⦃P : Primitives⦄ (p : RecordPublisher) (C : Postcard GossipRecordContent)
    (is_endpoint : Bytes → Bool) (max_join_peers min_neighbors : ℕ) where
  -- The work of a tick.
  unfoldable pub bubble_work : Meets → Merger → Result (Unit {0}) × Merger
  bubble_work j m =
      logged
        (merge j.world p C is_endpoint max_join_peers min_neighbors j.unix_minute j.cut_previous
          j.cut_current j.neighbors j.shuffle j.outcome j.actor)
        m

  -- A request for strangers, from a merge that found the node with too few neighbours.
  abbrev pub IsSoundBubble : List Meets → Request → Type 0
  IsSoundBubble js q =
      (j : Meets) × Mem j js
      × (neighbors : List Bytes) × (j.neighbors ≡ ok neighbors)
      × (length neighbors < min_neighbors)
      × Joins max_join_peers (IsStranger is_endpoint p.pub_key neighbors) q

  bubble_work-IsLog :
      (js : List Meets) (n : ℕ) (j : Meets) (m : Merger)
      → IsShuffle j
      → Mem j js
      → IsLog (IsSoundBubble js) n m
      → IsLog (IsSoundBubble js) (suc n) (bubble_work j m).1
  unfolding bubble_work
  bubble_work-IsLog js n j m shuffled there log =
      logged-IsLog (IsSoundBubble js) n _ m
        (unfold merge in length-finish j.shuffle max_join_peers j.outcome _)
        (λ q sent.
          let (neighbors, answered, few, joins) =
            bubble_merge_sound j.world p C is_endpoint max_join_peers min_neighbors j.unix_minute
              j.cut_previous j.cut_current j.neighbors j.shuffle j.outcome j.actor q shuffled
              sent in
          (j, there, neighbors, answered, few, joins))
        log

  -- In the whole life of a bubble merger, whatever wakes it and whatever it meets, it sends no
  -- more requests than it had ticks, the ticks lie at least a second apart, and each request asks for no
  -- more keys than the maximum, at a time when the node has fewer neighbours than the minimum; each
  -- key is valid and is neither the node's own nor one of those neighbours'. The shuffles must add
  -- no keys.
  pub bubble_life_sound :
      (now initial_interval base_interval max_jitter : ℕ) (turns : List (Turn Meets))
      → All (λ t. IsShuffle t.1) turns
      → let w = life bubble_work now initial_interval base_interval max_jitter turns in
        ((next : ℕ) × IsSpaced next w.ticker.ticks)
        × IsLog (IsSoundBubble (jobs turns)) (length w.ticker.ticks) w.state
  bubble_life_sound = life-IsLog bubble_work IsSoundBubble bubble_work-IsLog
