-- ===== src/Gossip/Topic/Lifetime.antt =====
-- src/gossip/topic/topic.rs: `Topic::new`, the task that it starts, and the values that keep the
-- topic's actor alive. `Topic` holds the actor's handle; a sender or a receiver got from it holds
-- a `Topic`. When no such value is left, the actor is dropped, which cancels the token.
use distributed_topic_tracke.Prelude.{
  ℕ, suc, ◌+◌, ◌-◌, Bool, true, false, Option, some, none, Result, ok, err, panic, ◌==◌,
  if◌then◌else◌, bootstrap_failed, request_failed,
}
use distributed_topic_tracke.Crypto.Publisher.{RecordPublisher}
use distributed_topic_tracke.Gossip.Receiver.{Recv, Answer, answer, refused, joined}
use distributed_topic_tracke.Gossip.Topic.{TopicActor, Calls, spawn_workers}

-- The actor, the token, and how many values of each type the caller holds.
pub record Topic : Type 0 where
  pub actor : TopicActor
  pub is_cancelled : Bool
  pub topics : ℕ
  pub senders : ℕ
  pub receivers : ℕ

-- How many values keep the actor alive.
unfoldable pub holders : Topic → ℕ
holders t = t.topics + t.senders + t.receivers

unfoldable pub cancel : Topic → Topic
cancel t = record t { is_cancelled = true }

-- What dropping a value does after it: `Drop` of `TopicActor` if it was the last one.
unfoldable pub release : Topic → Topic
unfolding holders cancel
release t = if holders t == 0 then cancel t else t

unfoldable pub drop_topic : Topic → Topic
unfolding release
drop_topic t = release (record t { topics = t.topics - 1 })

unfoldable pub drop_sender : Topic → Topic
unfolding release
drop_sender t = release (record t { senders = t.senders - 1 })

unfoldable pub drop_receiver : Topic → Topic
unfolding release
drop_receiver t = release (record t { receivers = t.receivers - 1 })

-- `Topic::gossip_sender`, from whether the actor and the bootstrap answer.
unfoldable pub gossip_sender : Bool → Topic → Result (Unit {0}) × Topic
gossip_sender true t = (ok tt, record t { senders = suc t.senders })
gossip_sender false t = (err request_failed, t)

-- `Topic::gossip_receiver`
unfoldable pub gossip_receiver : Bool → Topic → Result (Unit {0}) × Topic
gossip_receiver true t = (ok tt, record t { receivers = suc t.receivers })
gossip_receiver false t = (err request_failed, t)

-- A sender that was got is dropped again if no receiver is.
unfoldable pub split_after : Result (Unit {0}) → Bool → Topic → Result (Unit {0}) × Topic
unfolding gossip_receiver drop_sender
split_after (ok got) receiver t =
    let done = gossip_receiver receiver t in if receiver then done else (done.0, drop_sender done.1)
split_after (err e) receiver t = (err e, t)
split_after panic receiver t = (panic, t)

-- `Topic::split`
unfoldable pub split : Bool → Bool → Topic → Result (Unit {0}) × Topic
unfolding gossip_sender split_after
split sender receiver t = let got = gossip_sender sender t in split_after got.0 receiver got.1

-- `Topic::record_creator`
unfoldable pub record_creator : Bool → Topic → Result RecordPublisher
record_creator answers t = if answers then ok t.actor.record_publisher else err request_failed

-- `wait_for_bootstrap`, from what the channel delivers; `none` if it closes.
unfoldable pub wait_for_bootstrap : Option (Result (Unit {0})) → Topic → Result (Unit {0}) × Topic
unfolding cancel
wait_for_bootstrap (some (ok done)) t = (ok tt, t)
wait_for_bootstrap (some (err e)) t = (err bootstrap_failed, cancel t)
wait_for_bootstrap (some panic) t = (err bootstrap_failed, cancel t)
wait_for_bootstrap none t = (err bootstrap_failed, cancel t)

-- What follows `spawn_workers(..)` in both places: the cancellation if it failed.
unfoldable pub or_cancel : Topic → Result (Unit {0}) × TopicActor → Result (Unit {0}) × Topic
unfolding cancel
or_cancel t (ok spawned, a) = (ok tt, record t { actor = a })
or_cancel t (err e, a) = (err e, cancel (record t { actor = a }))
or_cancel t (panic, a) = (panic, cancel (record t { actor = a }))

unfoldable pub spawn_or_cancel : Calls → Topic → Result (Unit {0}) × Topic
unfolding or_cancel spawn_workers
spawn_or_cancel calls t =
    or_cancel t (spawn_workers t.actor.record_publisher.config t.is_cancelled calls t.actor)

-- The task that `new` starts, in the two modes; a task that waits for the bootstrap returns early
-- if that fails.
unfoldable pub background_after : Result (Unit {0}) → Bool → Calls → Topic → Topic
unfolding spawn_or_cancel
background_after (ok done) async_bootstrap calls t =
    if async_bootstrap then (spawn_or_cancel calls t).1 else t
background_after (err e) async_bootstrap calls t = t
background_after panic async_bootstrap calls t = t

unfoldable pub background : Bool → Option (Result (Unit {0})) → Calls → Topic → Topic
unfolding wait_for_bootstrap background_after
background async_bootstrap bootstrap_done calls t =
    let waited = wait_for_bootstrap bootstrap_done t in
    background_after waited.0 async_bootstrap calls waited.1

-- What `new` meets: whether iroh-gossip subscribes, the bootstrap starts, and it hands out a receiver;
-- what that one is told when it waits to be joined; whether the token is cancelled by the time that
-- `new` would start the workers or, in the asynchronous mode, returns; and the calls that start the
-- workers. A later cancellation follows the creation.
pub record Creation : Type 0 where
  pub subscribes : Bool
  pub bootstraps : Bool
  pub receiver : Bool
  pub is_joined : Result Bool
  pub join_event : Recv (Option (Unit {0}))
  pub is_cancelled : Bool
  pub calls : Calls

-- `joined().await?` of the receiver, as `GossipReceiver` answers it.
unfoldable pub awaits : Answer (Unit {0}) → Bool
awaits (answer joined) = true
awaits (refused e) = false

unfoldable pub has_joined : Creation → Bool
unfolding awaits
has_joined m = awaits (joined m.is_joined m.join_event)

-- The topic once its actor runs; `api` counts as the handle that `new` will return.
unfoldable pub fresh : RecordPublisher → Topic
fresh record_publisher = record {
  actor = record {
    record_publisher = record_publisher;
    publisher = none;
    bubble_merge = none;
    message_overlap_merge = none;
  };
  is_cancelled = false;
  topics = 1;
  senders = 0;
  receivers = 0;
}

-- An early return drops `api`.
unfoldable pub or_drop : Result (Unit {0}) × Topic → Result (Unit {0}) × Topic
unfolding drop_topic
or_drop (ok done, t) = (ok tt, t)
or_drop (err e, t) = (err e, drop_topic t)
or_drop (panic, t) = (panic, drop_topic t)

-- `Topic::new` from the mode on.
unfoldable pub finish : Bool → Creation → Topic → Result (Unit {0}) × Topic
unfolding spawn_or_cancel or_drop has_joined
finish true m t = (ok tt, record t { is_cancelled = m.is_cancelled })
finish false m t =
    let t' : Topic = record t { is_cancelled = m.is_cancelled } in
    or_drop (
      if m.receiver
      then (if has_joined m then spawn_or_cancel m.calls t' else (err request_failed, t'))
      else (err request_failed, t'))

-- `Topic::new`: the result, and the topic that the tasks it started refer to, if it got that far.
unfoldable pub new : RecordPublisher → Bool → Creation → Result (Unit {0}) × Option Topic
unfolding fresh finish or_drop
new record_publisher async_bootstrap m =
    if m.subscribes
    then (if m.bootstraps
        then (let done = finish async_bootstrap m (fresh record_publisher) in (done.0, some done.1))
        else (let done = or_drop (err request_failed, fresh record_publisher) in
            (done.0, some done.1)))
    else (err request_failed, none)
