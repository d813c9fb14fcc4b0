-- ===== src/Gossip/Topic.antt =====
-- src/gossip/topic/topic.rs: the actor of a topic, which starts the workers, `Topic::new`, and the
-- handles that keep the actor alive.
pub mod Lifetime
pub mod Plans
pub mod Blocks
pub mod Workers
pub mod Success
pub mod Creation
pub mod Task
pub mod Uses
pub mod Subscribing
pub mod Working
pub mod Joining
use distributed_topic_tracke.Prelude.{
  ℕ, Bool, true, false, ◌&&◌, Option, some, none, Result, ok, err, panic, if◌then◌else◌, Error,
  workers_cancelled, topic_dropped, publisher_failed, bubble_merge_failed, message_overlap_failed,
}
use distributed_topic_tracke.Config.{Config}
use distributed_topic_tracke.Config.Publishing.{PublisherConfig, PublisherConfigInner}
use distributed_topic_tracke.Config.Bubble.{BubbleMergeConfig, BubbleMergeConfigInner}
use distributed_topic_tracke.Config.Overlap.{
  MessageOverlapMergeConfig, MessageOverlapMergeConfigInner,
}
use distributed_topic_tracke.Crypto.Publisher.{RecordPublisher}
use distributed_topic_tracke.Gossip.Ticker.{Ticker, new as new_ticker}

-- `BubbleMergeActor`, without its handles.
pub record BubbleMerge : Type 0 where
  pub ticker : Ticker
  pub max_join_peers : ℕ
  pub min_neighbors : ℕ

-- `MessageOverlapMergeActor`, without its handles.
pub record MessageOverlapMerge : Type 0 where
  pub ticker : Ticker
  pub max_join_peers : ℕ

-- `TopicActor`, without the bootstrap; the cancellation token is shared, and stands in `Topic`.
pub record TopicActor : Type 0 where
  pub record_publisher : RecordPublisher
  pub publisher : Option Ticker
  pub bubble_merge : Option BubbleMerge
  pub message_overlap_merge : Option MessageOverlapMerge

-- The `match` on a worker that was made, or not because the bootstrap did not hand out what it needs.
unfoldable pub started :
    Bool → Bool → Error → TopicActor → TopicActor → Result (Unit {0}) × TopicActor
started true fails reason made a = (ok tt, made)
started false fails reason made a = (if fails then err reason else ok tt, a)

-- `TopicActor::start_publishing`, at a time; whether the bootstrap hands out a receiver.
unfoldable pub start_publishing :
    PublisherConfig → ℕ → Bool → TopicActor → Result (Unit {0}) × TopicActor
unfolding started
start_publishing (PublisherConfig.enabled c) now receiver a =
    started receiver c.fail_topic_creation_on_publishing_startup_failure publisher_failed
      (record a { publisher = some (new_ticker now c.initial_delay c.base_interval c.max_jitter) })
      a
start_publishing PublisherConfig.disabled now receiver a = (ok tt, a)

-- The worker that `start_bubble_merge` makes.
unfoldable pub new_bubble_merge : ℕ → BubbleMergeConfigInner → BubbleMerge
new_bubble_merge now c = record {
  ticker = new_ticker now c.initial_interval c.base_interval c.max_jitter;
  max_join_peers = c.max_join_peers;
  min_neighbors = c.min_neighbors;
}

-- `TopicActor::start_bubble_merge`: whether the bootstrap hands out a sender, and a receiver.
unfoldable pub start_bubble_merge :
    BubbleMergeConfig → ℕ → Bool → Bool → TopicActor → Result (Unit {0}) × TopicActor
unfolding started new_bubble_merge
start_bubble_merge (BubbleMergeConfig.enabled c) now sender receiver a =
    started (sender && receiver) c.fail_topic_creation_on_merge_startup_failure bubble_merge_failed
      (record a { bubble_merge = some (new_bubble_merge now c) }) a
start_bubble_merge BubbleMergeConfig.disabled now sender receiver a = (ok tt, a)

-- The worker that `start_message_overlap_merge` makes.
unfoldable pub new_message_overlap_merge : ℕ → MessageOverlapMergeConfigInner → MessageOverlapMerge
new_message_overlap_merge now c = record {
  ticker = new_ticker now c.initial_interval c.base_interval c.max_jitter;
  max_join_peers = c.max_join_peers;
}

-- `TopicActor::start_message_overlap_merge`
unfoldable pub start_message_overlap_merge :
    MessageOverlapMergeConfig → ℕ → Bool → Bool → TopicActor → Result (Unit {0}) × TopicActor
unfolding started new_message_overlap_merge
start_message_overlap_merge (MessageOverlapMergeConfig.enabled c) now sender receiver a =
    started (sender && receiver) c.fail_topic_creation_on_merge_startup_failure
      message_overlap_failed
      (record a { message_overlap_merge = some (new_message_overlap_merge now c) }) a
start_message_overlap_merge MessageOverlapMergeConfig.disabled now sender receiver a = (ok tt, a)

-- What a call through the weak handle meets: no actor is left, or the actor does not answer, or it
-- runs the operation at a time, and the bootstrap hands out a sender, and a receiver, or does not.
pub data Call : Type 0 where
  gone stopped : Call
  served : ℕ → Bool → Bool → Call

-- `match api.upgrade() { Some(api) => api.call(..), None => .. }`
unfoldable pub called :
    Call
    → Error
    → (ℕ → Bool → Bool → TopicActor → Result (Unit {0}) × TopicActor)
    → TopicActor
    → Result (Unit {0}) × TopicActor
called gone reason start a = (err topic_dropped, a)
called stopped reason start a = (err reason, a)
called (served now sender receiver) reason start a = start now sender receiver a

-- `matches!(.., Enabled(_))`
unfoldable pub publishes : PublisherConfig → Bool
publishes (PublisherConfig.enabled c) = true
publishes PublisherConfig.disabled = false

unfoldable pub merges_bubbles : BubbleMergeConfig → Bool
merges_bubbles (BubbleMergeConfig.enabled c) = true
merges_bubbles BubbleMergeConfig.disabled = false

unfoldable pub merges_overlaps : MessageOverlapMergeConfig → Bool
merges_overlaps (MessageOverlapMergeConfig.enabled c) = true
merges_overlaps MessageOverlapMergeConfig.disabled = false

-- One block of `spawn_workers`, and the rest of it unless the block returns.
unfoldable pub then_start :
    Result (Unit {0}) × TopicActor
    → (TopicActor → Result (Unit {0}) × TopicActor)
    → Result (Unit {0}) × TopicActor
then_start (ok done, a) rest = rest a
then_start (err e, a) rest = (err e, a)
then_start (panic, a) rest = (panic, a)

-- The block of `spawn_workers` for each kind of worker, from the configuration that it checks.
unfoldable pub spawn_publisher :
    PublisherConfig → Call → TopicActor → Result (Unit {0}) × TopicActor
unfolding called publishes start_publishing
spawn_publisher c call a =
    if publishes c
    then called call publisher_failed
        (λ now sender receiver a.
          start_publishing a.record_publisher.config.publisher_config now receiver a)
        a
    else (ok tt, a)

unfoldable pub spawn_bubble_merge :
    BubbleMergeConfig → Call → TopicActor → Result (Unit {0}) × TopicActor
unfolding called merges_bubbles start_bubble_merge
spawn_bubble_merge c call a =
    if merges_bubbles c
    then called call bubble_merge_failed
        (λ now sender receiver a.
          start_bubble_merge a.record_publisher.config.merge_config.bubble_merge now sender receiver
            a)
        a
    else (ok tt, a)

unfoldable pub spawn_message_overlap_merge :
    MessageOverlapMergeConfig → Call → TopicActor → Result (Unit {0}) × TopicActor
unfolding called merges_overlaps start_message_overlap_merge
spawn_message_overlap_merge c call a =
    if merges_overlaps c
    then called call message_overlap_failed
        (λ now sender receiver a.
          start_message_overlap_merge a.record_publisher.config.merge_config.message_overlap_merge
            now sender receiver a)
        a
    else (ok tt, a)

-- What the three calls of `spawn_workers` meet.
pub record Calls : Type 0 where
  pub publishing : Call
  pub bubble_merging : Call
  pub overlap_merging : Call

-- `spawn_workers`, from whether the token is cancelled.
unfoldable pub spawn_workers : Config → Bool → Calls → TopicActor → Result (Unit {0}) × TopicActor
unfolding then_start spawn_publisher spawn_bubble_merge spawn_message_overlap_merge
spawn_workers config true calls a = (err workers_cancelled, a)
spawn_workers config false calls a =
    then_start
      (then_start (spawn_publisher config.publisher_config calls.publishing a)
        (spawn_bubble_merge config.merge_config.bubble_merge calls.bubble_merging))
      (spawn_message_overlap_merge config.merge_config.message_overlap_merge calls.overlap_merging)
