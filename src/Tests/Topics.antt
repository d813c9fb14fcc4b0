-- ===== src/Tests/Topics.antt =====
-- Topics at concrete inputs.
use distributed_topic_tracke.Prelude.{
  ◌≡◌, ◌↔◌, ◌⊎◌, refl, true, false, some, none, [], ◌∷◌, ◌++◌, arith, ok, err, bootstrap_failed,
}
use distributed_topic_tracke.Gossip.Bootstrap.{run, result}
use distributed_topic_tracke.Gossip.Receiver.{got}
use distributed_topic_tracke.Gossip.Topic.{Calls, spawn_workers}
use distributed_topic_tracke.Gossip.Topic.Plans.{AreStarted}
use distributed_topic_tracke.Gossip.Topic.Workers.{spawn_workers-AreStarted}
use distributed_topic_tracke.Gossip.Topic.Success.{all_served, spawn_workers_succeeds}
use distributed_topic_tracke.Gossip.Topic.Lifetime.{
  Topic, Creation, holders, background, fresh, new, finish, drop_topic, drop_sender, release,
  cancel, gossip_sender,
}
use distributed_topic_tracke.Gossip.Topic.Creation.{IsCreation, new-IsCreation}
use distributed_topic_tracke.Gossip.Topic.Uses.{
  Life, born, lives, task, gets_sender, drops_topic, drops_sender, is_shut_down, new-Life_IsHeld,
  new-Life_IsReleased,
}
use distributed_topic_tracke.Gossip.Topic.Task.{IsTask, background-IsTask}
use distributed_topic_tracke.Gossip.Topic.Joining.{joined_workers}
use distributed_topic_tracke.Tests.Toy.{toy}
use distributed_topic_tracke.Tests.Network.{node}
use distributed_topic_tracke.Tests.Merging.{brief, any_key}
use distributed_topic_tracke.Tests.Bootstrapping.{booting, lonely, joined, looping, lonely_round}

abbrev pub calls : Calls
calls = all_served 5 6 7

abbrev born_topic : Topic
born_topic = record {
  actor = record {
    record_publisher = node 2;
    publisher = none;
    bubble_merge = none;
    message_overlap_merge = none;
  };
  is_cancelled = false;
  topics = 1;
  senders = 0;
  receivers = 0;
}

spawn_workers-AreStarted_example :
    (false ≡ false)
    × AreStarted calls born_topic.actor
        (spawn_workers born_topic.actor.record_publisher.config false calls born_topic.actor).1
spawn_workers-AreStarted_example =
    spawn_workers-AreStarted false calls born_topic.actor
      (spawn_workers_succeeds 5 6 7 born_topic.actor).0

-- A creation to which everything is granted.
abbrev pub granted : Creation
granted = record {
  subscribes = true;
  bootstraps = true;
  receiver = true;
  is_joined = ok false;
  join_event = got (some tt);
  is_cancelled = false;
  calls = calls;
}

new-IsCreation_example : IsCreation (node 2) granted false (new (node 2) false granted)
new-IsCreation_example = new-IsCreation (node 2) false granted

created : new (node 2) true granted ≡ (ok tt, some born_topic)
unfolding new finish fresh
created = refl

-- The topic is dropped while a sender of it is held, and then the sender.
abbrev sending : Topic
sending = record born_topic { senders = 1 }

abbrev kept_by_sender : Topic
kept_by_sender = record born_topic { topics = 0; senders = 1 }

abbrev abandoned : Topic
abandoned = record born_topic { topics = 0; is_cancelled = true }

kept_by_sender-Life : Life born_topic kept_by_sender
unfolding gossip_sender drop_topic release holders
kept_by_sender-Life =
    lives (lives born (gets_sender born_topic true (omega arith)))
      (drops_topic sending (omega arith))

abandoned-Life : Life born_topic abandoned
unfolding drop_sender release holders cancel
abandoned-Life = lives kept_by_sender-Life (drops_sender kept_by_sender (omega arith))

new-Life_IsHeld_example :
    (abandoned.is_cancelled ≡ true)
    ↔ ((holders abandoned ≡ 0) ⊎ (is_shut_down abandoned-Life ≡ true))
new-Life_IsHeld_example =
    new-Life_IsHeld (node 2) true granted born_topic abandoned abandoned-Life created

-- The bootstrap fails before the sender is dropped.
abbrev failing : Topic
failing = background true (some (err bootstrap_failed)) calls kept_by_sender

new-Life_IsReleased_example :
    (holders failing ≡ 0 → failing.is_cancelled ≡ true)
    × (kept_by_sender.is_cancelled ≡ true → failing.is_cancelled ≡ true)
new-Life_IsReleased_example =
    new-Life_IsReleased (node 2) true granted born_topic kept_by_sender failing created
      kept_by_sender-Life (task true (some (err bootstrap_failed)) calls born)

background-IsTask_example :
    IsTask true (some (ok tt)) calls born_topic (background true (some (ok tt)) calls born_topic)
background-IsTask_example = background-IsTask true (some (ok tt)) calls born_topic

joined_workers_example :
    ((background true
        (result (run brief any_key booting ((lonely ∷ []) ++ (joined ∷ [])) looping))
        calls
        born_topic).is_cancelled
      ≡ false)
    × AreStarted calls born_topic.actor
        (background true
          (result (run brief any_key booting ((lonely ∷ []) ++ (joined ∷ [])) looping))
          calls
          born_topic).actor
joined_workers_example =
    joined_workers brief any_key booting (lonely ∷ []) joined [] looping 5 6 7 born_topic
      lonely_round refl refl refl
