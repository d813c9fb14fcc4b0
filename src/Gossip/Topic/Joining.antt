-- ===== src/Gossip/Topic/Joining.antt =====
-- The bootstrap and the workers of a topic together: `Topic::new` in the asynchronous mode, from the
-- rounds of the bootstrap to the workers.
use distributed_topic_tracke.Prelude.{
  ℕ, ◌≡◌, refl, sym, subst, ◌∙◌, Bool, true, false, Option, none, some, List, ◌∷◌, ◌++◌, Bytes,
  Result, ok, err, panic,
}
use distributed_topic_tracke.Crypto.Primitives.{Primitives, Postcard}
use distributed_topic_tracke.Gossip.Content.{GossipRecordContent}
use distributed_topic_tracke.Gossip.Rounds.{BootstrapActor, Loop, Round}
use distributed_topic_tracke.Gossip.Bootstrap.{run, result}
use distributed_topic_tracke.Gossip.Bootstrap.Ending.{bootstrap_succeeds}
use distributed_topic_tracke.Gossip.Topic.{TopicActor, Calls, spawn_workers}
use distributed_topic_tracke.Gossip.Topic.Plans.{AreStarted}
use distributed_topic_tracke.Gossip.Topic.Success.{all_served, spawn_workers_succeeds}
use distributed_topic_tracke.Gossip.Topic.Lifetime.{
  Topic, wait_for_bootstrap, background_after, background, spawn_or_cancel, or_cancel,
}

spawned_lem :
    (t : Topic) (done : Result (Unit {0}) × TopicActor)
    → done.0 ≡ ok tt
    → ((or_cancel t done).1.is_cancelled ≡ t.is_cancelled) × ((or_cancel t done).1.actor ≡ done.1)
unfolding or_cancel
spawned_lem t (ok unit, a) h = (refl, refl)
spawned_lem t (err e, a) h = cc
spawned_lem t (panic, a) h = cc

-- The topic is uncancelled, and its workers run.
abbrev IsWorking : Calls → Topic → Topic → Type 0
IsWorking calls t u = (u.is_cancelled ≡ false) × AreStarted calls t.actor u.actor

or_cancel-IsWorking :
    (i j k : ℕ) (t : Topic) (is_cancelled : Bool)
    → t.is_cancelled ≡ false
    → is_cancelled ≡ false
    → IsWorking
        (all_served i j k)
        t
        (or_cancel t
          (spawn_workers t.actor.record_publisher.config is_cancelled (all_served i j k) t.actor)).1
or_cancel-IsWorking i j k t true on e = cc
or_cancel-IsWorking i j k t false on e =
    let (good, started) = spawn_workers_succeeds i j k t.actor in
    let (still, same) = spawned_lem t _ good in
    (still ∙ on, subst (AreStarted (all_served i j k) t.actor) (sym same) started)

told_lem :
    (i j k : ℕ) (t : Topic) (o : Option (Result (Unit {0})))
    → t.is_cancelled ≡ false
    → o ≡ some (ok tt)
    → IsWorking (all_served i j k) t (background true o (all_served i j k) t)
unfolding background wait_for_bootstrap background_after spawn_or_cancel
told_lem i j k t none on e = cc
told_lem i j k t (some (ok unit)) on e = or_cancel-IsWorking i j k t t.is_cancelled on on
told_lem i j k t (some (err x)) on e = cc
told_lem i j k t (some panic) on e = cc

module _ ⦃P : Primitives⦄ (C : Postcard GossipRecordContent) (is_endpoint : Bytes → Bool)
    (b : BootstrapActor) where
  -- If a bootstrap gets to a round that is not cancelled and whose first check finds the node joined,
  -- the token of the topic is not cancelled by then, every call reaches the actor, and the bootstrap
  -- hands out what the workers need, then the asynchronous task of the creation leaves the token
  -- uncancelled and every worker that the configuration enables running with its settings.
  pub joined_workers :
      (pre : List Round) (r : Round) (post : List Round) (s : Loop) (i j k : ℕ) (t : Topic)
      → (run C is_endpoint b pre s).running ≡ true
      → r.is_cancelled ≡ false
      → r.is_joined_first ≡ ok true
      → t.is_cancelled ≡ false
      → let u =
          background true
            (result (run C is_endpoint b (pre ++ (r ∷ post)) s))
            (all_served i j k)
            t in
        (u.is_cancelled ≡ false) × AreStarted (all_served i j k) t.actor u.actor
  joined_workers pre r post s i j k t going uncut joined on =
      told_lem i j k t _ on (bootstrap_succeeds C is_endpoint b pre r post s going uncut joined)
