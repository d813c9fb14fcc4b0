-- ===== src/Gossip/Topic/Blocks.antt =====
-- What each block of `spawn_workers` does, if it returns no error.
use distributed_topic_tracke.Prelude.{
  ℕ, ◌≡◌, refl, subst, Bool, true, false, ◌&&◌, Option, some, Result, ok, err, panic, Error,
  if◌then◌else◌,
}
use distributed_topic_tracke.Config.Publishing.{PublisherConfig}
use distributed_topic_tracke.Config.Bubble.{BubbleMergeConfig}
use distributed_topic_tracke.Config.Overlap.{MessageOverlapMergeConfig}
use distributed_topic_tracke.Gossip.Ticker.{Ticker, new as new_ticker}
use distributed_topic_tracke.Gossip.Topic.{
  BubbleMerge, MessageOverlapMerge, TopicActor, Call, gone, stopped, served, started, then_start,
  called, publishes, merges_bubbles, merges_overlaps, start_publishing, start_bubble_merge,
  start_message_overlap_merge, spawn_publisher, spawn_bubble_merge, spawn_message_overlap_merge,
  new_bubble_merge, new_message_overlap_merge,
}
use distributed_topic_tracke.Gossip.Topic.Plans.{
  Plan, publisher_plan, bubble_plan, overlap_plan, Fares, off, up, tolerated, PublisherBlock,
  BubbleBlock, OverlapBlock, Leaves,
}

started-Leaves :
    (handed fails : Bool) (reason : Error) (made a : TopicActor) (Holds : TopicActor → Type 0)
    → (handed ≡ true → Holds made)
    → (handed ≡ false → fails ≡ false → Holds a)
    → Leaves (started handed fails reason made a) Holds
unfolding started
started-Leaves true fails reason made a Holds f g h = f refl
started-Leaves false false reason made a Holds f g h = g refl refl
started-Leaves false true reason made a Holds f g h = cc

up-Fares :
    {W : Type 0} (p : Plan W) (now : ℕ) (handed : Bool) (o : Option W)
    → handed ≡ true
    → Fares (some p) (some (now, handed)) o (some (p.make now))
up-Fares p now true o h = up
up-Fares p now false o h = cc

tolerated-Fares :
    {W : Type 0} (p : Plan W) (now : ℕ) (handed : Bool) (o : Option W)
    → handed ≡ false
    → p.fails ≡ false
    → Fares (some p) (some (now, handed)) o o
tolerated-Fares p now false o h f = tolerated f
tolerated-Fares p now true o h f = cc

-- What the actor held before may be named otherwise.
pub from-Fares :
    {W : Type 0} {plan : Option (Plan W)} {r : Option (ℕ × Bool)} {o q after : Option W}
    → o ≡ q
    → Fares plan r o after
    → Fares plan r q after
from-Fares {plan} {r} {after} e f = subst (λ o. Fares plan r o after) e f

-- A block checks whether its worker is wanted before it calls.
wanted-Leaves :
    (wanted : Bool) (done : Result (Unit {0}) × TopicActor) (a : TopicActor)
    (Holds : TopicActor → Type 0)
    → (wanted ≡ false → Holds a)
    → Leaves done Holds
    → Leaves (if wanted then done else (ok tt, a)) Holds
wanted-Leaves true done a Holds f g = g
wanted-Leaves false done a Holds f g = λ h. f refl

pub then_start-Leaves :
    (x : Result (Unit {0}) × TopicActor) (rest : TopicActor → Result (Unit {0}) × TopicActor)
    (Holds Ends : TopicActor → Type 0)
    → Leaves x Holds
    → ((t : TopicActor) → Holds t → Leaves (rest t) Ends)
    → Leaves (then_start x rest) Ends
unfolding then_start
then_start-Leaves (ok done, a) rest Holds Ends f g h = g a (f refl) h
then_start-Leaves (err e, a) rest Holds Ends f g h = cc
then_start-Leaves (panic, a) rest Holds Ends f g h = cc

called-Leaves :
    (call : Call) (reason : Error)
    (start : ℕ → Bool → Bool → TopicActor → Result (Unit {0}) × TopicActor) (a : TopicActor)
    (Holds : Call → TopicActor → Type 0)
    → ((now : ℕ) (sender receiver : Bool)
        → Leaves (start now sender receiver a) (Holds (served now sender receiver)))
    → Leaves (called call reason start a) (Holds call)
unfolding called
called-Leaves gone reason start a Holds f h = cc
called-Leaves stopped reason start a Holds f h = cc
called-Leaves (served now sender receiver) reason start a Holds f h = f now sender receiver h

start_publishing-Leaves :
    (c : PublisherConfig) (now : ℕ) (sender receiver : Bool) (a : TopicActor)
    → Leaves
        (start_publishing c now receiver a)
        (PublisherBlock (publisher_plan c) (served now sender receiver) a)
unfolding start_publishing new_ticker
start_publishing-Leaves (PublisherConfig.enabled c) now sender receiver a =
    started-Leaves (receiver) _ _ _ a
      (PublisherBlock (publisher_plan (PublisherConfig.enabled c)) (served now sender receiver) a)
      (λ e. (refl, refl, refl, up-Fares _ now (receiver) _ e))
      (λ e f. (refl, refl, refl, tolerated-Fares _ now (receiver) _ e f))
start_publishing-Leaves PublisherConfig.disabled now sender receiver a =
    λ h. (refl, refl, refl, off)

publishes-Fares :
    (c : PublisherConfig) (r : Option (ℕ × Bool)) (o : Option Ticker)
    → publishes c ≡ false
    → Fares (publisher_plan c) r o o
unfolding publishes
publishes-Fares (PublisherConfig.enabled c) r o h = cc
publishes-Fares PublisherConfig.disabled r o h = off

pub spawn_publisher-Leaves :
    (call : Call) (a : TopicActor) (c : PublisherConfig)
    → a.record_publisher.config.publisher_config ≡ c
    → Leaves (spawn_publisher c call a) (PublisherBlock (publisher_plan c) call a)
spawn_publisher-Leaves call a c same =
    let c' = a.record_publisher.config.publisher_config in
    subst (λ c. Leaves (spawn_publisher c call a) (PublisherBlock (publisher_plan c) call a)) same
      (unfold spawn_publisher in
        wanted-Leaves (publishes c') _ a (PublisherBlock (publisher_plan c') call a)
          (λ e. (refl, refl, refl, publishes-Fares c' _ _ e))
          (called-Leaves call _ _ a (λ call. PublisherBlock (publisher_plan c') call a)
            (λ now sender receiver. start_publishing-Leaves c' now sender receiver a)))

start_bubble_merge-Leaves :
    (c : BubbleMergeConfig) (now : ℕ) (sender receiver : Bool) (a : TopicActor)
    → Leaves
        (start_bubble_merge c now sender receiver a)
        (BubbleBlock (bubble_plan c) (served now sender receiver) a)
unfolding start_bubble_merge new_bubble_merge new_ticker
start_bubble_merge-Leaves (BubbleMergeConfig.enabled c) now sender receiver a =
    started-Leaves (sender && receiver) _ _ _ a
      (BubbleBlock (bubble_plan (BubbleMergeConfig.enabled c)) (served now sender receiver) a)
      (λ e. (refl, refl, refl, up-Fares _ now (sender && receiver) _ e))
      (λ e f. (refl, refl, refl, tolerated-Fares _ now (sender && receiver) _ e f))
start_bubble_merge-Leaves BubbleMergeConfig.disabled now sender receiver a =
    λ h. (refl, refl, refl, off)

merges_bubbles-Fares :
    (c : BubbleMergeConfig) (r : Option (ℕ × Bool)) (o : Option BubbleMerge)
    → merges_bubbles c ≡ false
    → Fares (bubble_plan c) r o o
unfolding merges_bubbles
merges_bubbles-Fares (BubbleMergeConfig.enabled c) r o h = cc
merges_bubbles-Fares BubbleMergeConfig.disabled r o h = off

pub spawn_bubble_merge-Leaves :
    (call : Call) (a : TopicActor) (c : BubbleMergeConfig)
    → a.record_publisher.config.merge_config.bubble_merge ≡ c
    → Leaves (spawn_bubble_merge c call a) (BubbleBlock (bubble_plan c) call a)
spawn_bubble_merge-Leaves call a c same =
    let c' = a.record_publisher.config.merge_config.bubble_merge in
    subst (λ c. Leaves (spawn_bubble_merge c call a) (BubbleBlock (bubble_plan c) call a)) same
      (unfold spawn_bubble_merge in
        wanted-Leaves (merges_bubbles c') _ a (BubbleBlock (bubble_plan c') call a)
          (λ e. (refl, refl, refl, merges_bubbles-Fares c' _ _ e))
          (called-Leaves call _ _ a (λ call. BubbleBlock (bubble_plan c') call a)
            (λ now sender receiver. start_bubble_merge-Leaves c' now sender receiver a)))

start_message_overlap_merge-Leaves :
    (c : MessageOverlapMergeConfig) (now : ℕ) (sender receiver : Bool) (a : TopicActor)
    → Leaves
        (start_message_overlap_merge c now sender receiver a)
        (OverlapBlock (overlap_plan c) (served now sender receiver) a)
unfolding start_message_overlap_merge new_message_overlap_merge new_ticker
start_message_overlap_merge-Leaves (MessageOverlapMergeConfig.enabled c) now sender receiver a =
    started-Leaves (sender && receiver) _ _ _ a
      (OverlapBlock (overlap_plan (MessageOverlapMergeConfig.enabled c))
        (served now sender receiver) a)
      (λ e. (refl, refl, refl, up-Fares _ now (sender && receiver) _ e))
      (λ e f. (refl, refl, refl, tolerated-Fares _ now (sender && receiver) _ e f))
start_message_overlap_merge-Leaves MessageOverlapMergeConfig.disabled now sender receiver a =
    λ h. (refl, refl, refl, off)

merges_overlaps-Fares :
    (c : MessageOverlapMergeConfig) (r : Option (ℕ × Bool)) (o : Option MessageOverlapMerge)
    → merges_overlaps c ≡ false
    → Fares (overlap_plan c) r o o
unfolding merges_overlaps
merges_overlaps-Fares (MessageOverlapMergeConfig.enabled c) r o h = cc
merges_overlaps-Fares MessageOverlapMergeConfig.disabled r o h = off

pub spawn_message_overlap_merge-Leaves :
    (call : Call) (a : TopicActor) (c : MessageOverlapMergeConfig)
    → a.record_publisher.config.merge_config.message_overlap_merge ≡ c
    → Leaves (spawn_message_overlap_merge c call a) (OverlapBlock (overlap_plan c) call a)
spawn_message_overlap_merge-Leaves call a c same =
    let c' = a.record_publisher.config.merge_config.message_overlap_merge in
    subst
      (λ c. Leaves (spawn_message_overlap_merge c call a) (OverlapBlock (overlap_plan c) call a))
      same
      (unfold spawn_message_overlap_merge in
        wanted-Leaves (merges_overlaps c') _ a (OverlapBlock (overlap_plan c') call a)
          (λ e. (refl, refl, refl, merges_overlaps-Fares c' _ _ e))
          (called-Leaves call _ _ a (λ call. OverlapBlock (overlap_plan c') call a)
            (λ now sender receiver. start_message_overlap_merge-Leaves c' now sender receiver a)))
