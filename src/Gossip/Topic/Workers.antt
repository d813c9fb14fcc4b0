-- ===== src/Gossip/Topic/Workers.antt =====
-- Which workers a topic runs once they have been spawned.
use distributed_topic_tracke.Prelude.{◌≡◌, refl, ap, ◌∙◌, Bool, true, false, ◌&&◌, ok}
use distributed_topic_tracke.Crypto.Publisher.{RecordPublisher}
use distributed_topic_tracke.Gossip.Topic.{TopicActor, Calls, spawn_workers}
use distributed_topic_tracke.Gossip.Topic.Plans.{
  publisher_plan, bubble_plan, reply, Fares, AreStarted, PublisherBlock,
}
use distributed_topic_tracke.Gossip.Topic.Blocks.{
  then_start-Leaves, from-Fares, spawn_publisher-Leaves, spawn_bubble_merge-Leaves,
  spawn_message_overlap_merge-Leaves,
}

-- What the first two blocks do, for the whole.
abbrev Publishing : Calls → TopicActor → TopicActor → Type 0
Publishing calls a t =
    Fares (publisher_plan a.record_publisher.config.publisher_config)
      (reply (λ sender receiver. receiver) calls.publishing) a.publisher t.publisher

abbrev Bubbling : Calls → TopicActor → TopicActor → Type 0
Bubbling calls a t =
    Fares (bubble_plan a.record_publisher.config.merge_config.bubble_merge)
      (reply (λ sender receiver. sender && receiver) calls.bubble_merging) a.bubble_merge
      t.bubble_merge

abbrev TwoStarted : Calls → TopicActor → TopicActor → Type 0
TwoStarted calls a t =
    (t.record_publisher ≡ a.record_publisher)
    × (t.message_overlap_merge ≡ a.message_overlap_merge)
    × Publishing calls a t
    × Bubbling calls a t

-- If spawning the workers succeeds, the token was not cancelled, and each worker that the
-- configuration enables was called: it now runs, with the settings of the configuration, if the
-- bootstrap handed out what it needs, and otherwise its failure is tolerated by the configuration and
-- the actor holds for it what it held before, as it does for a worker that is disabled.
pub spawn_workers-AreStarted :
    (is_cancelled : Bool) (calls : Calls) (a : TopicActor)
    → let done = spawn_workers a.record_publisher.config is_cancelled calls a in
      done.0 ≡ ok tt → (is_cancelled ≡ false) × AreStarted calls a done.1
unfolding spawn_workers
spawn_workers-AreStarted true calls a h = cc
spawn_workers-AreStarted false calls a h = (
  refl,
  then_start-Leaves _ _ (TwoStarted calls a) (AreStarted calls a)
      (then_start-Leaves _ _ (PublisherBlock _ calls.publishing a) (TwoStarted calls a)
        (spawn_publisher-Leaves calls.publishing a _ refl)
        (λ t (same, b, o, f) done.
          let (same', p, o', f') =
            spawn_bubble_merge-Leaves calls.bubble_merging t _
              (ap (λ (r : RecordPublisher). r.config.merge_config.bubble_merge) same) done in
          (same' ∙ same, o' ∙ o, rw p f, from-Fares b f')))
      (λ t (same, o, f, g) done.
        let (same', p, b, f') =
          spawn_message_overlap_merge-Leaves calls.overlap_merging t _
            (ap (λ (r : RecordPublisher). r.config.merge_config.message_overlap_merge) same) done in
        record {
          same = same' ∙ same;
          publishing = rw p f;
          bubble_merging = rw b g;
          overlap_merging = from-Fares o f';
        })
      h,
)
