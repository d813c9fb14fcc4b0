-- ===== src/Gossip/Topic/Plans.antt =====
-- What the configuration plans for each worker of a topic, and how a worker fares when it is started.
use distributed_topic_tracke.Prelude.{
  ℕ, ◌+◌, ◌≡◌, Bool, true, false, ◌&&◌, Option, some, none, Result, ok, [], leb, if◌then◌else◌,
}
use distributed_topic_tracke.Config.Duration.{Duration, from_secs}
use distributed_topic_tracke.Config.Publishing.{PublisherConfig}
use distributed_topic_tracke.Config.Bubble.{BubbleMergeConfig}
use distributed_topic_tracke.Config.Overlap.{MessageOverlapMergeConfig}
use distributed_topic_tracke.Gossip.Ticker.{Ticker}
use distributed_topic_tracke.Gossip.Topic.{
  BubbleMerge, MessageOverlapMerge, TopicActor, Call, gone, stopped, served, Calls,
}

-- A worker that the configuration enables: how it is made at a time, and whether failing to make it
-- is an error.
pub record Plan (W : Type 0) : Type 0 where
  pub make : ℕ → W
  pub fails : Bool

-- The loop of a worker that is made at a time, with a base interval of one second or more.
abbrev planned_ticker : ℕ → Duration → Duration → Duration → Ticker
planned_ticker now initial_interval base_interval max_jitter = record {
  base_interval = if leb (from_secs 1) base_interval then base_interval else from_secs 1;
  max_jitter = max_jitter;
  deadline = now + initial_interval;
  ticks = [];
  running = true;
}

abbrev pub publisher_plan : PublisherConfig → Option (Plan Ticker)
publisher_plan (PublisherConfig.enabled c) = some (record {
  make = λ now. planned_ticker now c.initial_delay c.base_interval c.max_jitter;
  fails = c.fail_topic_creation_on_publishing_startup_failure;
})
publisher_plan PublisherConfig.disabled = none

abbrev pub bubble_plan : BubbleMergeConfig → Option (Plan BubbleMerge)
bubble_plan (BubbleMergeConfig.enabled c) = some (record {
  make = λ now. record {
    ticker = planned_ticker now c.initial_interval c.base_interval c.max_jitter;
    max_join_peers = c.max_join_peers;
    min_neighbors = c.min_neighbors;
  };
  fails = c.fail_topic_creation_on_merge_startup_failure;
})
bubble_plan BubbleMergeConfig.disabled = none

abbrev pub overlap_plan : MessageOverlapMergeConfig → Option (Plan MessageOverlapMerge)
overlap_plan (MessageOverlapMergeConfig.enabled c) = some (record {
  make = λ now. record {
    ticker = planned_ticker now c.initial_interval c.base_interval c.max_jitter;
    max_join_peers = c.max_join_peers;
  };
  fails = c.fail_topic_creation_on_merge_startup_failure;
})
overlap_plan MessageOverlapMergeConfig.disabled = none

-- When a call ran, and whether the bootstrap handed out what the worker needs.
abbrev pub reply : (Bool → Bool → Bool) → Call → Option (ℕ × Bool)
reply needs gone = none
reply needs stopped = none
reply needs (served now sender receiver) = some (now, needs sender receiver)

-- How a worker fares that is no obstacle, from its plan and the reply, and what the actor holds
-- before and after.
pub data Fares {W : Type 0}
    : Option (Plan W) → Option (ℕ × Bool) → Option W → Option W → Type 0 where
  off : {r : Option (ℕ × Bool)} {o : Option W} → Fares none r o o
  up :
      {p : Plan W} {now : ℕ} {o : Option W}
      → Fares (some p) (some (now, true)) o (some (p.make now))
  tolerated :
      {p : Plan W} {now : ℕ} {o : Option W}
      → p.fails ≡ false
      → Fares (some p) (some (now, false)) o o

-- All three workers fare well, by the configuration of the actor.
pub record AreStarted (calls : Calls) (a t : TopicActor) : Type 0 where
  pub same : t.record_publisher ≡ a.record_publisher
  pub publishing :
      Fares
        (publisher_plan a.record_publisher.config.publisher_config)
        (reply (λ sender receiver. receiver) calls.publishing)
        a.publisher
        t.publisher
  pub bubble_merging :
      Fares
        (bubble_plan a.record_publisher.config.merge_config.bubble_merge)
        (reply (λ sender receiver. sender && receiver) calls.bubble_merging)
        a.bubble_merge
        t.bubble_merge
  pub overlap_merging :
      Fares
        (overlap_plan a.record_publisher.config.merge_config.message_overlap_merge)
        (reply (λ sender receiver. sender && receiver) calls.overlap_merging)
        a.message_overlap_merge
        t.message_overlap_merge

-- What the block for the publisher leaves, if it does not return an error.
abbrev pub PublisherBlock : Option (Plan Ticker) → Call → TopicActor → TopicActor → Type 0
PublisherBlock plan call a t =
    (t.record_publisher ≡ a.record_publisher)
    × (t.bubble_merge ≡ a.bubble_merge)
    × (t.message_overlap_merge ≡ a.message_overlap_merge)
    × Fares plan (reply (λ sender receiver. receiver) call) a.publisher t.publisher

abbrev pub BubbleBlock : Option (Plan BubbleMerge) → Call → TopicActor → TopicActor → Type 0
BubbleBlock plan call a t =
    (t.record_publisher ≡ a.record_publisher)
    × (t.publisher ≡ a.publisher)
    × (t.message_overlap_merge ≡ a.message_overlap_merge)
    × Fares plan (reply (λ sender receiver. sender && receiver) call) a.bubble_merge t.bubble_merge

abbrev pub OverlapBlock :
    Option (Plan MessageOverlapMerge) → Call → TopicActor → TopicActor → Type 0
OverlapBlock plan call a t =
    (t.record_publisher ≡ a.record_publisher)
    × (t.publisher ≡ a.publisher)
    × (t.bubble_merge ≡ a.bubble_merge)
    × Fares plan (reply (λ sender receiver. sender && receiver) call) a.message_overlap_merge
        t.message_overlap_merge

-- The state that an operation leaves, if it does not return an error, has a property.
abbrev pub Leaves : Result (Unit {0}) × TopicActor → (TopicActor → Type 0) → Type 0
Leaves done Holds = done.0 ≡ ok tt → Holds done.1
