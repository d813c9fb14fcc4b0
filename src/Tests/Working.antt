-- ===== src/Tests/Working.antt =====
-- The mergers of a created topic at work, at a concrete input.
use distributed_topic_tracke.Prelude.{◌≡◌, refl, false, some, ok, List, [], ◌∷◌, All}
use distributed_topic_tracke.Config.{default as config_default}
use distributed_topic_tracke.Config.Publishing.{default as publisher_default}
use distributed_topic_tracke.Config.Merge.{default as merge_default}
use distributed_topic_tracke.Config.Bubble.{
  BubbleMergeConfig, BubbleMergeConfigInner, default as bubble_default,
  default_inner as bubble_inner,
}
use distributed_topic_tracke.Config.Overlap.{
  MessageOverlapMergeConfig, MessageOverlapMergeConfigInner, default as overlap_default,
  default_inner as overlap_inner,
}
use distributed_topic_tracke.Gossip.Ticker.{new as new_ticker}
use distributed_topic_tracke.Gossip.Topic.{
  BubbleMerge, MessageOverlapMerge, new_bubble_merge, new_message_overlap_merge, spawn_workers,
}
use distributed_topic_tracke.Gossip.Topic.Lifetime.{
  Topic, new, finish, fresh, or_drop, has_joined, spawn_or_cancel,
}
use distributed_topic_tracke.Gossip.Topic.Working.{BubbleLives, OverlapLives, topic_merges_soundly}
use distributed_topic_tracke.Tests.Toy.{toy}
use distributed_topic_tracke.Tests.Network.{node}
use distributed_topic_tracke.Tests.Merging.{brief, any_key}
use distributed_topic_tracke.Tests.Topics.{granted}
use distributed_topic_tracke.Tests.Living.{meeting}
use distributed_topic_tracke.Gossip.Ticker.{clock, cancelled}
use distributed_topic_tracke.Gossip.Working.{Turn}
use distributed_topic_tracke.Gossip.Merge.Life.{Meets, IsShuffle}

-- The topic that a creation leaves whose calls run at the times 5, 6 and 7.
abbrev working : Topic
working = record {
  actor = record {
    record_publisher = node 2;
    publisher = some (new_ticker 5 10_000_000_000 10_000_000_000 50_000_000_000);
    bubble_merge = some (new_bubble_merge 6 bubble_inner);
    message_overlap_merge = some (new_message_overlap_merge 7 overlap_inner);
  };
  is_cancelled = false;
  topics = 1;
  senders = 0;
  receivers = 0;
}

-- A tick after half a minute, a wake that comes too early, a second tick and the end.
abbrev turns : List (Turn Meets)
turns =
    (clock 30_000_000_007 5 9, meeting)
    ∷ (clock 30_000_000_100 1 0, meeting)
    ∷ (clock 200_000_000_000 1 7, meeting)
    ∷ (cancelled, meeting)
    ∷ []

turns-IsShuffle : All (λ t. IsShuffle t.1) turns
turns-IsShuffle = ((λ keys k m. m), ((λ keys k m. m), ((λ keys k m. m), ((λ keys k m. m), tt))))

created_working : new (node 2) false granted ≡ (ok tt, some working)
unfolding new finish fresh or_drop has_joined spawn_or_cancel spawn_workers config_default
    distributed_topic_tracke.Gossip.Receiver.joined publisher_default merge_default bubble_default
    overlap_default
created_working = refl

topic_merges_soundly_example :
    ((w : BubbleMerge)
      → working.actor.bubble_merge ≡ some w
      → (d : BubbleMergeConfigInner) × ((node 2).config.merge_config.bubble_merge
          ≡ BubbleMergeConfig.enabled d)
        × BubbleLives (node 2) brief any_key granted.calls.bubble_merging d turns w)
    × ((w : MessageOverlapMerge)
        → working.actor.message_overlap_merge ≡ some w
        → (d : MessageOverlapMergeConfigInner) × ((node 2).config.merge_config.message_overlap_merge
            ≡ MessageOverlapMergeConfig.enabled d)
          × OverlapLives (node 2) brief any_key granted.calls.overlap_merging d turns w)
topic_merges_soundly_example =
    topic_merges_soundly (node 2) brief any_key granted working turns created_working
      turns-IsShuffle
