-- ===== src/Gossip/Topic/Success.antt =====
-- Spawning the workers succeeds if nothing is in its way.
use distributed_topic_tracke.Prelude.{
  ℕ, ◌≡◌, refl, Bool, true, false, Result, ok, err, panic, if◌then◌else◌,
}
use distributed_topic_tracke.Config.Publishing.{PublisherConfig}
use distributed_topic_tracke.Config.Bubble.{BubbleMergeConfig}
use distributed_topic_tracke.Config.Overlap.{MessageOverlapMergeConfig}
use distributed_topic_tracke.Gossip.Topic.{
  TopicActor, served, Calls, started, then_start, called, publishes, merges_bubbles,
  merges_overlaps, start_publishing, start_bubble_merge, start_message_overlap_merge,
  spawn_publisher, spawn_bubble_merge, spawn_message_overlap_merge, spawn_workers,
}
use distributed_topic_tracke.Gossip.Topic.Plans.{AreStarted}
use distributed_topic_tracke.Gossip.Topic.Workers.{spawn_workers-AreStarted}

-- Each call reaches the actor, at some time, and the bootstrap hands out what it is asked for.
abbrev pub all_served : ℕ → ℕ → ℕ → Calls
all_served i j k = record {
  publishing = served i true true;
  bubble_merging = served j true true;
  overlap_merging = served k true true;
}

-- An operation that returns no error.
abbrev Succeeds : Result (Unit {0}) × TopicActor → Type 0
Succeeds done = done.0 ≡ ok tt

wanted-Succeeds :
    (wanted : Bool) (done : Result (Unit {0}) × TopicActor) (a : TopicActor)
    → Succeeds done
    → Succeeds (if wanted then done else (ok tt, a))
wanted-Succeeds true done a h = h
wanted-Succeeds false done a h = refl

then_start-Succeeds :
    (x : Result (Unit {0}) × TopicActor) (rest : TopicActor → Result (Unit {0}) × TopicActor)
    → Succeeds x
    → ((t : TopicActor) → Succeeds (rest t))
    → Succeeds (then_start x rest)
unfolding then_start
then_start-Succeeds (ok done, a) rest h f = f a
then_start-Succeeds (err e, a) rest h f = cc
then_start-Succeeds (panic, a) rest h f = cc

start_publishing-Succeeds :
    (c : PublisherConfig) (now : ℕ) (a : TopicActor) → Succeeds (start_publishing c now true a)
unfolding start_publishing started
start_publishing-Succeeds (PublisherConfig.enabled c) now a = refl
start_publishing-Succeeds PublisherConfig.disabled now a = refl

start_bubble_merge-Succeeds :
    (c : BubbleMergeConfig) (now : ℕ) (a : TopicActor)
    → Succeeds (start_bubble_merge c now true true a)
unfolding start_bubble_merge started
start_bubble_merge-Succeeds (BubbleMergeConfig.enabled c) now a = refl
start_bubble_merge-Succeeds BubbleMergeConfig.disabled now a = refl

start_message_overlap_merge-Succeeds :
    (c : MessageOverlapMergeConfig) (now : ℕ) (a : TopicActor)
    → Succeeds (start_message_overlap_merge c now true true a)
unfolding start_message_overlap_merge started
start_message_overlap_merge-Succeeds (MessageOverlapMergeConfig.enabled c) now a = refl
start_message_overlap_merge-Succeeds MessageOverlapMergeConfig.disabled now a = refl

-- If the token is not cancelled, every call reaches the actor, and the bootstrap hands out what the
-- workers need, then spawning them succeeds, and every worker that the configuration enables runs
-- with the settings of the configuration.
pub spawn_workers_succeeds :
    (i j k : ℕ) (a : TopicActor)
    → let done = spawn_workers a.record_publisher.config false (all_served i j k) a in
      (done.0 ≡ ok tt) × AreStarted (all_served i j k) a done.1
spawn_workers_succeeds i j k a =
    let c = a.record_publisher.config in
    let spawned : Succeeds (spawn_workers c false (all_served i j k) a) =
      unfold spawn_workers spawn_publisher spawn_bubble_merge spawn_message_overlap_merge called in
      then_start-Succeeds _ _
        (then_start-Succeeds _ _
          (wanted-Succeeds (publishes c.publisher_config) _ a (start_publishing-Succeeds _ i a))
          (λ t.
            wanted-Succeeds (merges_bubbles c.merge_config.bubble_merge) _ t
              (start_bubble_merge-Succeeds _ j t)))
        (λ t.
          wanted-Succeeds (merges_overlaps c.merge_config.message_overlap_merge) _ t
            (start_message_overlap_merge-Succeeds _ k t)) in
    (spawned, (spawn_workers-AreStarted false (all_served i j k) a spawned).1)
