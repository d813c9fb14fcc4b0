-- ===== src/Gossip/Topic/Working.antt =====
-- The workers of a topic at work: `Topic::new`, the configuration, and the lives of the three
-- periodic actors together.
use distributed_topic_tracke.Prelude.{
  ℕ, ◌+◌, ◌≡◌, refl, ap, sym, subst, ◌∙◌, Bool, true, false, ◌&&◌, Option, some, none, List, [],
  Bytes, Result, ok, length, All,
}
use distributed_topic_tracke.Config.Duration.{Duration}
use distributed_topic_tracke.Config.Bubble.{BubbleMergeConfig, BubbleMergeConfigInner}
use distributed_topic_tracke.Config.Overlap.{
  MessageOverlapMergeConfig, MessageOverlapMergeConfigInner,
}
use distributed_topic_tracke.Crypto.Primitives.{Primitives, Postcard}
use distributed_topic_tracke.Crypto.Publisher.{RecordPublisher}
use distributed_topic_tracke.Gossip.Content.{GossipRecordContent}
use distributed_topic_tracke.Gossip.Ticker.{new as new_ticker}
use distributed_topic_tracke.Gossip.Ticker.Spacing.{IsSpaced}
use distributed_topic_tracke.Gossip.Ticker.Pacing.{IsPaced}
use distributed_topic_tracke.Gossip.Working.{Worker, Turn, spawn, run}
use distributed_topic_tracke.Gossip.Working.Ticks.{jobs, run-IsPaced_work}
use distributed_topic_tracke.Gossip.Merge.Life.{Merger, Meets, IsShuffle, IsLog, life}
use distributed_topic_tracke.Gossip.Bubble.Life.{bubble_work, IsSoundBubble, bubble_life_sound}
use distributed_topic_tracke.Gossip.Overlap.Life.{overlap_work, IsSoundOverlap, overlap_life_sound}
use distributed_topic_tracke.Gossip.Sender.{Request}
use distributed_topic_tracke.Gossip.Topic.{
  BubbleMerge, MessageOverlapMerge, Call, gone, stopped, served, new_bubble_merge,
  new_message_overlap_merge,
}
use distributed_topic_tracke.Gossip.Topic.Plans.{
  Plan, Fares, off, up, tolerated, AreStarted, reply, bubble_plan, overlap_plan,
}
use distributed_topic_tracke.Gossip.Topic.Lifetime.{Topic, Creation, new, fresh}
use distributed_topic_tracke.Gossip.Topic.Creation.{
  IsCreation, unborn, shut, synchronous, new-IsCreation,
}

some-eq : {A : Type 0} (a b : A) → some a ≡ some b → a ≡ b
some-eq a b h = cc

-- A worker that was not there before was made by its plan, when its call ran.
made :
    {W : Type 0} (p : Option (Plan W)) (r : Option (ℕ × Bool)) (o : Option W) (w : W)
    → o ≡ some w
    → Fares p r none o
    → (q : Plan W) × (now : ℕ) × (r ≡ some (now, true)) × (p ≡ some q) × (w ≡ q.make now)
made p r o w h off = cc
made p r o w h (up {p = q} {now = now}) =
    let same : w ≡ q.make now = cc in (q, now, refl, refl, same)
made p r o w h (tolerated x) = cc

-- A call that was given all that a merger needs.
reply-served :
    (c : Call) (now : ℕ)
    → reply (λ sender receiver. sender && receiver) c ≡ some (now, true)
    → c ≡ served now true true
reply-served gone now h = cc
reply-served stopped now h = cc
reply-served (served i true true) now h =
    let same : i ≡ now = cc in ap (λ n. served n true true) same
reply-served (served i true false) now h = cc
reply-served (served i false receiver) now h = cc

IsCreation-AreStarted :
    (record_publisher : RecordPublisher) (m : Creation) (done : Result (Unit {0}) × Option Topic)
    (t : Topic)
    → IsCreation record_publisher m false done
    → done.0 ≡ ok tt
    → done.1 ≡ some t
    → AreStarted m.calls (fresh record_publisher).actor t.actor
IsCreation-AreStarted record_publisher m (x, none) t (unborn bad) h e = absurd (bad h)
IsCreation-AreStarted record_publisher m (x, some u) t (shut bad s) h e = absurd (bad h)
IsCreation-AreStarted record_publisher m (x, some u) t (synchronous j on k started) h e =
    let same : u ≡ t = cc in
    subst (λ (v : Topic). AreStarted m.calls (fresh record_publisher).actor v.actor) same started

created-AreStarted :
    (record_publisher : RecordPublisher) (m : Creation) (t : Topic)
    → new record_publisher false m ≡ (ok tt, some t)
    → AreStarted m.calls (fresh record_publisher).actor t.actor
created-AreStarted record_publisher m t e =
    IsCreation-AreStarted record_publisher m (new record_publisher false m) t
      (new-IsCreation record_publisher false m) (ap (λ d. d.0) e) (ap (λ d. d.1) e)

-- What a plan that stands in a configuration was made from.
planned_bubble :
    (c : BubbleMergeConfig) (q : Plan BubbleMerge)
    → bubble_plan c ≡ some q
    → (d : BubbleMergeConfigInner) × (c ≡ BubbleMergeConfig.enabled d)
      × ((now : ℕ) → q.make now ≡ new_bubble_merge now d)
unfolding new_bubble_merge new_ticker
planned_bubble (BubbleMergeConfig.enabled d) q h =
    (d, refl, λ now. ap (λ (x : Plan BubbleMerge). x.make now) (sym (some-eq _ q h)))
planned_bubble BubbleMergeConfig.disabled q h = cc

planned_overlap :
    (c : MessageOverlapMergeConfig) (q : Plan MessageOverlapMerge)
    → overlap_plan c ≡ some q
    → (d : MessageOverlapMergeConfigInner) × (c ≡ MessageOverlapMergeConfig.enabled d)
      × ((now : ℕ) → q.make now ≡ new_message_overlap_merge now d)
unfolding new_message_overlap_merge new_ticker
planned_overlap (MessageOverlapMergeConfig.enabled d) q h =
    (d, refl, λ now. ap (λ (x : Plan MessageOverlapMerge). x.make now) (sym (some-eq _ q h)))
planned_overlap MessageOverlapMergeConfig.disabled q h = cc

module _ ⦃P : Primitives⦄ (p : RecordPublisher) (C : Postcard GossipRecordContent)
    (is_endpoint : Bytes → Bool) where
  -- `BubbleMergeActor::run` of a worker.
  unfoldable pub run_bubble_merge : BubbleMerge → List (Turn Meets) → Worker Merger
  run_bubble_merge w turns =
      run (bubble_work p C is_endpoint w.max_join_peers w.min_neighbors) turns
        (record { ticker = w.ticker; state = record { requests = [] } })

  -- `MessageOverlapMergeActor::run` of a worker.
  unfoldable pub run_message_overlap_merge : MessageOverlapMerge → List (Turn Meets) → Worker Merger
  run_message_overlap_merge w turns =
      run (overlap_work p C is_endpoint w.max_join_peers) turns
        (record { ticker = w.ticker; state = record { requests = [] } })

  -- A merger that was started at a time, and since then has kept to its intervals, and sent sound
  -- requests only, and no more than ticks.
  abbrev pub HasLived : Call → Duration → Duration → (Request → Type 0) → Worker Merger → Type 0
  HasLived call initial_interval base_interval Sound w =
      ((now next : ℕ) × (call ≡ served now true true)
        × IsPaced (now + initial_interval) base_interval next w.ticker.ticks)
      × ((next : ℕ) × IsSpaced next w.ticker.ticks)
      × IsLog Sound (length w.ticker.ticks) w.state

  -- The life of the bubble merger that a call starts, by the configuration, and that of the overlap
  -- merger.
  abbrev pub BubbleLives : Call → BubbleMergeConfigInner → List (Turn Meets) → BubbleMerge → Type 0
  BubbleLives call d turns w =
      HasLived call d.initial_interval d.base_interval
        (IsSoundBubble p C is_endpoint d.max_join_peers d.min_neighbors (jobs turns))
        (run_bubble_merge w turns)

  abbrev pub OverlapLives :
      Call → MessageOverlapMergeConfigInner → List (Turn Meets) → MessageOverlapMerge → Type 0
  OverlapLives call d turns w =
      HasLived call d.initial_interval d.base_interval
        (IsSoundOverlap p C is_endpoint d.max_join_peers (jobs turns))
        (run_message_overlap_merge w turns)

  topic_bubble_merge :
      (m : Creation) (t : Topic) (w : BubbleMerge) (turns : List (Turn Meets))
      → new p false m ≡ (ok tt, some t)
      → t.actor.bubble_merge ≡ some w
      → All (λ u. IsShuffle u.1) turns
      → (d : BubbleMergeConfigInner) × (p.config.merge_config.bubble_merge
          ≡ BubbleMergeConfig.enabled d)
        × BubbleLives m.calls.bubble_merging d turns w
  unfolding fresh
  topic_bubble_merge m t w turns e h shuffled =
      let started = created-AreStarted p m t e in
      let (q, now, replied, plan, w_made) = made _ _ _ w h started.bubble_merging in
      let (d, on, makes) = planned_bubble p.config.merge_config.bubble_merge q plan in
      let work = bubble_work p C is_endpoint d.max_join_peers d.min_neighbors in
      let sound =
        bubble_life_sound p C is_endpoint d.max_join_peers d.min_neighbors now d.initial_interval
          d.base_interval d.max_jitter turns shuffled in
      let (next, paced) =
        run-IsPaced_work work now d.initial_interval d.base_interval d.max_jitter
          (record { requests = [] }) turns in
      (
        d,
        on,
        subst (BubbleLives m.calls.bubble_merging d turns) (sym (w_made ∙ makes now)) (
            unfold run_bubble_merge new_bubble_merge life spawn in
            (
              (now, next, reply-served m.calls.bubble_merging now replied, paced),
              sound.0,
              sound.1,
            )),
      )

  topic_overlap_merge :
      (m : Creation) (t : Topic) (w : MessageOverlapMerge) (turns : List (Turn Meets))
      → new p false m ≡ (ok tt, some t)
      → t.actor.message_overlap_merge ≡ some w
      → All (λ u. IsShuffle u.1) turns
      → (d : MessageOverlapMergeConfigInner) × (p.config.merge_config.message_overlap_merge
          ≡ MessageOverlapMergeConfig.enabled d)
        × OverlapLives m.calls.overlap_merging d turns w
  unfolding fresh
  topic_overlap_merge m t w turns e h shuffled =
      let started = created-AreStarted p m t e in
      let (q, now, replied, plan, w_made) = made _ _ _ w h started.overlap_merging in
      let (d, on, makes) = planned_overlap p.config.merge_config.message_overlap_merge q plan in
      let work = overlap_work p C is_endpoint d.max_join_peers in
      let sound =
        overlap_life_sound p C is_endpoint d.max_join_peers now d.initial_interval d.base_interval
          d.max_jitter turns shuffled in
      let (next, paced) =
        run-IsPaced_work work now d.initial_interval d.base_interval d.max_jitter
          (record { requests = [] }) turns in
      (
        d,
        on,
        subst (OverlapLives m.calls.overlap_merging d turns) (sym (w_made ∙ makes now)) (
            unfold run_message_overlap_merge new_message_overlap_merge life spawn in
            (
              (now, next, reply-served m.calls.overlap_merging now replied, paced),
              sound.0,
              sound.1,
            )),
      )

  -- Each merger that a topic runs once its creation in the waiting mode has succeeded is one that the
  -- configuration enables, and the following holds of its whole life, whatever wakes it and whatever
  -- it meets. Its first tick comes no sooner than the configured `initial_interval` after the call
  -- that started it, its ticks lie the configured `base_interval` or more apart, and a second or
  -- more. It sends no more requests than it had ticks, each for no more keys than `max_join_peers`;
  -- a bubble merger sends one only when the node has fewer neighbours than `min_neighbors`, and only
  -- for strangers, and an overlap merger only for nodes beyond a split. The shuffles must add no keys.
  pub topic_merges_soundly :
      (m : Creation) (t : Topic) (turns : List (Turn Meets))
      → new p false m ≡ (ok tt, some t)
      → All (λ u. IsShuffle u.1) turns
      → ((w : BubbleMerge)
          → t.actor.bubble_merge ≡ some w
          → (d : BubbleMergeConfigInner) × (p.config.merge_config.bubble_merge
              ≡ BubbleMergeConfig.enabled d)
            × BubbleLives m.calls.bubble_merging d turns w)
        × ((w : MessageOverlapMerge)
            → t.actor.message_overlap_merge ≡ some w
            → (d : MessageOverlapMergeConfigInner) × (p.config.merge_config.message_overlap_merge
                ≡ MessageOverlapMergeConfig.enabled d)
              × OverlapLives m.calls.overlap_merging d turns w)
  topic_merges_soundly m t turns e shuffled = (
    (λ w h. topic_bubble_merge m t w turns e h shuffled),
    (λ w h. topic_overlap_merge m t w turns e h shuffled),
  )
