-- ===== src/Gossip/Topic/Creation.antt =====
-- What a call of `Topic::new` leaves behind.
use distributed_topic_tracke.Prelude.{
  ◌≡◌, ◌≢◌, refl, subst, ◌∙◌, Bool, true, false, Option, none, some, Result, ok, err, panic, Error,
  if◌then◌else◌, arith, request_failed,
}
use distributed_topic_tracke.Crypto.Publisher.{RecordPublisher}
use distributed_topic_tracke.Gossip.Topic.{TopicActor, Calls}
use distributed_topic_tracke.Gossip.Topic.Plans.{AreStarted}
use distributed_topic_tracke.Gossip.Topic.Workers.{spawn_workers-AreStarted}
use distributed_topic_tracke.Gossip.Topic.Lifetime.{
  Topic, Creation, holders, cancel, release, drop_topic, or_cancel, or_drop, spawn_or_cancel, fresh,
  has_joined, finish, new,
}

-- A topic whose creation failed: nothing keeps its actor alive, and its token is cancelled.
abbrev pub IsShut : Topic → Type 0
IsShut t = (holders t ≡ 0) × (t.is_cancelled ≡ true)

-- The ways in which `new` may end.
pub data IsCreation (record_publisher : RecordPublisher) (m : Creation)
    : Bool → Result (Unit {0}) × Option Topic → Type 0 where
  unborn :
      {b : Bool} {x : Result (Unit {0})} → x ≢ ok tt → IsCreation record_publisher m b (x, none)
  shut :
      {b : Bool} {x : Result (Unit {0})} {t : Topic}
      → x ≢ ok tt
      → IsShut t
      → IsCreation record_publisher m b (x, some t)
  asynchronous :
      IsCreation record_publisher m true
        (ok tt, some (record (fresh record_publisher) { is_cancelled = m.is_cancelled }))
  synchronous :
      {t : Topic}
      → has_joined m ≡ true
      → t.is_cancelled ≡ false
      → t.topics ≡ 1
      → AreStarted m.calls (fresh record_publisher).actor t.actor
      → IsCreation record_publisher m false (ok tt, some t)

-- Spawning workers for a topic: they have been started, or the topic is cancelled. Who holds it does
-- not change.
pub data IsSpawned (calls : Calls) (t : Topic) : Result (Unit {0}) × Topic → Type 0 where
  spawned :
      {u : Topic}
      → t.is_cancelled ≡ false
      → u.is_cancelled ≡ false
      → u.topics ≡ t.topics
      → u.senders ≡ t.senders
      → u.receivers ≡ t.receivers
      → AreStarted calls t.actor u.actor
      → IsSpawned calls t (ok tt, u)
  unspawned :
      {x : Result (Unit {0})} {u : Topic}
      → x ≢ ok tt
      → u.is_cancelled ≡ true
      → u.topics ≡ t.topics
      → u.senders ≡ t.senders
      → u.receivers ≡ t.receivers
      → IsSpawned calls t (x, u)

or_cancel-IsSpawned :
    (calls : Calls) (t : Topic) (done : Result (Unit {0}) × TopicActor)
    → (done.0 ≡ ok tt → (t.is_cancelled ≡ false) × AreStarted calls t.actor done.1)
    → IsSpawned calls t (or_cancel t done)
unfolding or_cancel cancel
or_cancel-IsSpawned calls t (ok done, a) f =
    let (on, started) = f refl in spawned on on refl refl refl started
or_cancel-IsSpawned calls t (err e, a) f = unspawned (λ h. cc) refl refl refl refl
or_cancel-IsSpawned calls t (panic, a) f = unspawned (λ h. cc) refl refl refl refl

pub spawn_or_cancel-IsSpawned :
    (calls : Calls) (t : Topic) → IsSpawned calls t (spawn_or_cancel calls t)
unfolding spawn_or_cancel
spawn_or_cancel-IsSpawned calls t =
    or_cancel-IsSpawned calls t _ (spawn_workers-AreStarted t.is_cancelled calls t.actor)

drop_topic-IsShut :
    (t : Topic) → t.topics ≡ 1 → t.senders ≡ 0 → t.receivers ≡ 0 → IsShut (drop_topic t)
unfolding drop_topic release holders cancel
drop_topic-IsShut t i j k = ground arith

-- The topic of an early return.
or_drop-IsCreation :
    (record_publisher : RecordPublisher) (m : Creation) (b : Bool) (t : Topic) (e : Error)
    → t.topics ≡ 1
    → t.senders ≡ 0
    → t.receivers ≡ 0
    → IsCreation record_publisher m b ((or_drop (err e, t)).0, some (or_drop (err e, t)).1)
unfolding or_drop
or_drop-IsCreation record_publisher m b t e i j k = shut (λ h. cc) (drop_topic-IsShut t i j k)

-- The end of the synchronous mode, from what spawning the workers did.
or_drop-synchronous :
    (record_publisher : RecordPublisher) (m : Creation) (t : Topic)
    (done : Result (Unit {0}) × Topic)
    → t.actor ≡ (fresh record_publisher).actor
    → t.topics ≡ 1
    → t.senders ≡ 0
    → t.receivers ≡ 0
    → has_joined m ≡ true
    → IsSpawned m.calls t done
    → IsCreation record_publisher m false ((or_drop done).0, some (or_drop done).1)
unfolding or_drop
or_drop-synchronous record_publisher m t (x, u) a i j k joined (spawned on still i' j' k' started) =
    synchronous {t = u} joined still (i' ∙ i) (subst (λ a. AreStarted m.calls a u.actor) a started)
or_drop-synchronous record_publisher m t (ok unit, u) a i j k joined (unspawned bad off i' j' k') =
    absurd (bad refl)
or_drop-synchronous record_publisher m t (err e, u) a i j k joined (unspawned bad off i' j' k') =
    shut bad (drop_topic-IsShut u (i' ∙ i) (j' ∙ j) (k' ∙ k))
or_drop-synchronous record_publisher m t (panic, u) a i j k joined (unspawned bad off i' j' k') =
    shut bad (drop_topic-IsShut u (i' ∙ i) (j' ∙ j) (k' ∙ k))

if_holds :
    {A : Type 0} (Holds : A → Type 0) (x : Bool) (a b : A)
    → (x ≡ true → Holds a)
    → Holds b
    → Holds (if x then a else b)
if_holds Holds true a b f h = f refl
if_holds Holds false a b f h = h

finish-IsCreation :
    (record_publisher : RecordPublisher) (b : Bool) (m : Creation)
    → let done = finish b m (fresh record_publisher) in
      IsCreation record_publisher m b (done.0, some done.1)
unfolding finish
finish-IsCreation record_publisher true m = asynchronous
finish-IsCreation record_publisher false m =
    let t : Topic = record (fresh record_publisher) { is_cancelled = m.is_cancelled } in
    let Holds : Result (Unit {0}) × Topic → Type 0 =
      λ done. IsCreation record_publisher m false ((or_drop done).0, some (or_drop done).1) in
    let early : Holds (err request_failed, t) =
      unfold fresh in or_drop-IsCreation record_publisher m false t request_failed refl refl refl in
    if_holds Holds m.receiver _ _
      (λ given.
        if_holds Holds (has_joined m) (spawn_or_cancel m.calls t) (err request_failed, t)
          (λ joined.
            unfold fresh in
            or_drop-synchronous record_publisher m t (spawn_or_cancel m.calls t) refl refl refl refl
              joined (spawn_or_cancel-IsSpawned m.calls t))
          early)
      early

-- A call of `new` ends in one of four ways. It fails before there is an actor; or it fails later,
-- and then nothing keeps the actor alive and the token is cancelled; or it succeeds in the
-- asynchronous mode, with one handle and no worker yet; or it succeeds in the synchronous mode, and
-- then the node has joined, the token is not cancelled, there is one handle, and the workers have
-- been started as the configuration says.
pub new-IsCreation :
    (record_publisher : RecordPublisher) (async_bootstrap : Bool) (m : Creation)
    → IsCreation record_publisher m async_bootstrap (new record_publisher async_bootstrap m)
unfolding new
new-IsCreation record_publisher b m =
    let Holds : Result (Unit {0}) × Option Topic → Type 0 = IsCreation record_publisher m b in
    if_holds Holds m.subscribes _ _
      (λ subscribed.
        if_holds Holds m.bootstraps _ _ (λ begun. finish-IsCreation record_publisher b m)
          (unfold fresh in
            or_drop-IsCreation record_publisher m b (fresh record_publisher) request_failed refl
              refl refl))
      (unborn (λ h. cc))
