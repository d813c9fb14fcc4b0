-- ===== src/Gossip/Topic/Uses.antt =====
-- What callers do with a topic, its senders and its receivers, interleaved with the task that `new`
-- starts, and when the token is cancelled.
use distributed_topic_tracke.Prelude.{
  suc, ◌<◌, ◌≡◌, refl, sym, ap, subst, ◌∙◌, ◌↔◌, ◌⊎◌, Bool, true, false, not, ◌&&◌, ◌||◌, Option,
  none, some, Result, ok, err, panic, arith,
}
use distributed_topic_tracke.Crypto.Publisher.{RecordPublisher}
use distributed_topic_tracke.Gossip.Topic.{TopicActor, Calls, spawn_workers}
use distributed_topic_tracke.Gossip.Topic.Lifetime.{
  Topic, Creation, holders, cancel, release, drop_topic, drop_sender, drop_receiver, gossip_sender,
  gossip_receiver, split_after, split, background, fresh, new, or_cancel, wait_for_bootstrap,
  background_after, spawn_or_cancel,
}
use distributed_topic_tracke.Gossip.Topic.Creation.{
  IsCreation, unborn, shut, asynchronous, synchronous, new-IsCreation,
}
use distributed_topic_tracke.Gossip.Topic.Task.{background-IsTask}

-- One use, of a value that its caller holds.
pub data Use : Topic → Topic → Type 0 where
  clones_topic : (t : Topic) → 0 < t.topics → Use t (record t { topics = suc t.topics })
  clones_sender : (t : Topic) → 0 < t.senders → Use t (record t { senders = suc t.senders })
  clones_receiver : (t : Topic) → 0 < t.receivers → Use t (record t { receivers = suc t.receivers })
  gets_sender : (t : Topic) (answers : Bool) → 0 < t.topics → Use t (gossip_sender answers t).1
  gets_receiver : (t : Topic) (answers : Bool) → 0 < t.topics → Use t (gossip_receiver answers t).1
  splits : (t : Topic) (sender receiver : Bool) → 0 < t.topics → Use t (split sender receiver t).1
  drops_topic : (t : Topic) → 0 < t.topics → Use t (drop_topic t)
  drops_sender : (t : Topic) → 0 < t.senders → Use t (drop_sender t)
  drops_receiver : (t : Topic) → 0 < t.receivers → Use t (drop_receiver t)

-- Uses, with the task of `new`, and the end of the loop of a receiver whose event stream ends or fails,
-- which cancels the token, at any point between them.
pub data Life (s : Topic) : Topic → Type 0 where
  born : Life s s
  lives : {t u : Topic} → Life s t → Use t u → Life s u
  task :
      {t : Topic} (async_bootstrap : Bool) (bootstrap_done : Option (Result (Unit {0})))
      (calls : Calls)
      → Life s t
      → Life s (background async_bootstrap bootstrap_done calls t)
  stream_ends : {t : Topic} → Life s t → Life s (cancel t)

abbrev is_ok : Result (Unit {0}) → Bool
is_ok (ok done) = true
is_ok (err e) = false
is_ok panic = false

-- Whether the task of `new` finds a reason to cancel the token: the bootstrap failed, or spawning the
-- workers did.
unfoldable pub task_cancels : Bool → Option (Result (Unit {0})) → Calls → Topic → Bool
task_cancels async_bootstrap none calls t = true
task_cancels async_bootstrap (some (err e)) calls t = true
task_cancels async_bootstrap (some panic) calls t = true
task_cancels async_bootstrap (some (ok done)) calls t =
    async_bootstrap
    && not (is_ok (spawn_workers t.actor.record_publisher.config t.is_cancelled calls t.actor).0)

-- Whether anything but a drop has cancelled the token: something before the life began, the task, or
-- the end of an event stream.
unfoldable pub is_shut_down : {s t : Topic} → Life s t → Bool
unfolding task_cancels
is_shut_down {s} born = s.is_cancelled
is_shut_down (lives l step) = is_shut_down l
is_shut_down (task {t = t} async_bootstrap bootstrap_done calls l) =
    let before = is_shut_down l in before || task_cancels async_bootstrap bootstrap_done calls t
is_shut_down (stream_ends l) = true

-- The token is cancelled exactly when no value is held any more or something else has cancelled it.
abbrev IsHeldUnless : Bool → Topic → Type 0
IsHeldUnless ended t = (t.is_cancelled ≡ true) ↔ ((holders t ≡ 0) ⊎ (ended ≡ true))

Use-IsHeldUnless :
    (ended : Bool) {s t : Topic} → Use s t → IsHeldUnless ended s → IsHeldUnless ended t
unfolding holders gossip_sender gossip_receiver
Use-IsHeldUnless ended (clones_topic t n) h = ground arith
Use-IsHeldUnless ended (clones_sender t n) h = ground arith
Use-IsHeldUnless ended (clones_receiver t n) h = ground arith
Use-IsHeldUnless ended (gets_sender t true n) h = ground arith
Use-IsHeldUnless ended (gets_sender t false n) h = h
Use-IsHeldUnless ended (gets_receiver t true n) h = ground arith
Use-IsHeldUnless ended (gets_receiver t false n) h = h
Use-IsHeldUnless ended (splits t false r n) h = unfold split split_after in h
Use-IsHeldUnless ended (splits t true true n) h = unfold split split_after in ground arith
Use-IsHeldUnless ended (splits t true false n) h =
    unfold split split_after drop_sender release cancel in ground arith
Use-IsHeldUnless ended (drops_topic t n) h = unfold drop_topic release cancel in ground arith
Use-IsHeldUnless ended (drops_sender t n) h = unfold drop_sender release cancel in ground arith
Use-IsHeldUnless ended (drops_receiver t n) h = unfold drop_receiver release cancel in ground arith

-- The task cancels the token where it finds a reason, and nowhere else.
or_cancel-is_cancelled :
    (t : Topic) (done : Result (Unit {0}) × TopicActor)
    → (or_cancel t done).1.is_cancelled ≡ (t.is_cancelled || not (is_ok done.0))
unfolding or_cancel cancel
or_cancel-is_cancelled t (ok u, a) = ground arith
or_cancel-is_cancelled t (err e, a) = ground arith
or_cancel-is_cancelled t (panic, a) = ground arith

background-is_cancelled :
    (b : Bool) (o : Option (Result (Unit {0}))) (calls : Calls) (t : Topic)
    → (background b o calls t).is_cancelled ≡ (t.is_cancelled || task_cancels b o calls t)
unfolding background wait_for_bootstrap background_after cancel task_cancels spawn_or_cancel
background-is_cancelled b none calls t = ground arith
background-is_cancelled b (some (err e)) calls t = ground arith
background-is_cancelled b (some panic) calls t = ground arith
background-is_cancelled true (some (ok done)) calls t = or_cancel-is_cancelled t _
background-is_cancelled false (some (ok done)) calls t = ground arith

task-IsHeldUnless :
    (ended : Bool) (b : Bool) (o : Option (Result (Unit {0}))) (calls : Calls) (t : Topic)
    → IsHeldUnless ended t
    → IsHeldUnless (ended || task_cancels b o calls t) (background b o calls t)
unfolding task_cancels holders
task-IsHeldUnless ended b o calls t h =
    rw (background-is_cancelled b o calls t, (background-IsTask b o calls t).held) (ground arith)

some-eq : {A : Type 0} {a b : A} → some a ≡ some b → a ≡ b
some-eq h = cc

created-held :
    (record_publisher : RecordPublisher) (m : Creation) (b : Bool)
    (done : Result (Unit {0}) × Option Topic) (s : Topic)
    → IsCreation record_publisher m b done
    → done ≡ (ok tt, some s)
    → 0 < s.topics
created-held record_publisher m b _ s (unborn bad) e = absurd (bad (ap (λ d. d.0) e))
created-held record_publisher m b _ s (shut bad h) e = absurd (bad (ap (λ d. d.0) e))
created-held record_publisher m b _ s asynchronous e =
    subst (λ (t : Topic). 0 < t.topics) (some-eq (ap (λ d. d.1) e)) (unfold fresh in ground arith)
created-held record_publisher m b _ s (synchronous {t} joined on one started) e =
    subst (λ (t : Topic). 0 < t.topics) (some-eq (ap (λ d. d.1) e)) (ground arith)

-- A topic that was just created is held.
new-held :
    (record_publisher : RecordPublisher) (b : Bool) (m : Creation) (s : Topic)
    → new record_publisher b m ≡ (ok tt, some s)
    → 0 < s.topics
new-held record_publisher b m s =
    created-held record_publisher m b _ s (new-IsCreation record_publisher b m)

held-IsHeldUnless : (t : Topic) → 0 < t.topics → IsHeldUnless t.is_cancelled t
unfolding holders
held-IsHeldUnless t some_topic = ground arith

-- At every point of the life of a topic whose creation has succeeded, whatever its callers, the task
-- of its creation and the receiver do and in which order they do it, the token is cancelled exactly
-- when no topic, no sender and no receiver is held any more, or it was cancelled when the creation
-- returned, or the task has met a failure of the bootstrap or of the start of the workers, or the
-- event stream of the receiver has ended.
pub new-Life_IsHeld :
    (record_publisher : RecordPublisher) (async_bootstrap : Bool) (m : Creation) (s t : Topic)
    (life : Life s t)
    → new record_publisher async_bootstrap m ≡ (ok tt, some s)
    → (t.is_cancelled ≡ true) ↔ ((holders t ≡ 0) ⊎ (is_shut_down life ≡ true))
unfolding is_shut_down
new-Life_IsHeld record_publisher b m s t life made =
    after life (held-IsHeldUnless s (new-held record_publisher b m s made))
  where
    after :
        {u : Topic} (l : Life s u) → IsHeldUnless s.is_cancelled s → IsHeldUnless (is_shut_down l) u
    after born h = h
    after (lives l step) h = Use-IsHeldUnless (is_shut_down l) step (after l h)
    after (task {t = z} b o calls l) h = task-IsHeldUnless (is_shut_down l) b o calls z (after l h)
    after (stream_ends l) h = unfold cancel in ground arith

-- The token of a topic that nothing keeps alive is cancelled.
abbrev IsReleased : Topic → Type 0
IsReleased t = holders t ≡ 0 → t.is_cancelled ≡ true

held-IsReleased : (t : Topic) → 0 < t.topics → IsReleased t
unfolding holders
held-IsReleased t some_topic none_left = let impossible : ⊥ = omega arith in absurd impossible

Use-IsReleased : {s t : Topic} → Use s t → IsReleased s → IsReleased t
unfolding holders gossip_sender gossip_receiver
Use-IsReleased (clones_topic t n) h = ground arith
Use-IsReleased (clones_sender t n) h = ground arith
Use-IsReleased (clones_receiver t n) h = ground arith
Use-IsReleased (gets_sender t true n) h = ground arith
Use-IsReleased (gets_sender t false n) h = h
Use-IsReleased (gets_receiver t true n) h = ground arith
Use-IsReleased (gets_receiver t false n) h = h
Use-IsReleased (splits t false r n) h = unfold split split_after in h
Use-IsReleased (splits t true true n) h = unfold split split_after in ground arith
Use-IsReleased (splits t true false n) h =
    unfold split split_after drop_sender release cancel in ground arith
Use-IsReleased (drops_topic t n) h = unfold drop_topic release cancel in ground arith
Use-IsReleased (drops_sender t n) h = unfold drop_sender release cancel in ground arith
Use-IsReleased (drops_receiver t n) h = unfold drop_receiver release cancel in ground arith

Use-is_cancelled : {s t : Topic} → Use s t → s.is_cancelled ≡ true → t.is_cancelled ≡ true
unfolding gossip_sender gossip_receiver
Use-is_cancelled (clones_topic t n) h = h
Use-is_cancelled (clones_sender t n) h = h
Use-is_cancelled (clones_receiver t n) h = h
Use-is_cancelled (gets_sender t true n) h = h
Use-is_cancelled (gets_sender t false n) h = h
Use-is_cancelled (gets_receiver t true n) h = h
Use-is_cancelled (gets_receiver t false n) h = h
Use-is_cancelled (splits t false r n) h = unfold split split_after in h
Use-is_cancelled (splits t true true n) h = unfold split split_after in h
Use-is_cancelled (splits t true false n) h =
    unfold split split_after drop_sender release cancel in ground arith
Use-is_cancelled (drops_topic t n) h = unfold drop_topic release cancel in ground arith
Use-is_cancelled (drops_sender t n) h = unfold drop_sender release cancel in ground arith
Use-is_cancelled (drops_receiver t n) h = unfold drop_receiver release cancel in ground arith

-- At every point of the life of a topic, whatever its callers, the task and the receiver do and in
-- which order they do it: if nothing is held any more, the token is cancelled; and a token that was cancelled
-- at an earlier point still is.
pub new-Life_IsReleased :
    (record_publisher : RecordPublisher) (async_bootstrap : Bool) (m : Creation) (s t u : Topic)
    → new record_publisher async_bootstrap m ≡ (ok tt, some s)
    → Life s t
    → Life t u
    → (holders u ≡ 0 → u.is_cancelled ≡ true) × (t.is_cancelled ≡ true → u.is_cancelled ≡ true)
new-Life_IsReleased record_publisher b m s t u made first second =
    (released second (released first begun), kept second)
  where
    begun : IsReleased s
    begun = held-IsReleased s (new-held record_publisher b m s made)

    released : {x y : Topic} → Life x y → IsReleased x → IsReleased y
    released born h = h
    released (lives l step) h = Use-IsReleased step (released l h)
    released (task {t = z} b o calls l) h =
        let done = background-IsTask b o calls z in
        λ none_left. done.kept (released l h (sym done.held ∙ none_left))
    released (stream_ends l) h = λ none_left. unfold cancel in refl

    kept : {x y : Topic} → Life x y → x.is_cancelled ≡ true → y.is_cancelled ≡ true
    kept born h = h
    kept (lives l step) h = Use-is_cancelled step (kept l h)
    kept (task {t = z} b o calls l) h = (background-IsTask b o calls z).kept (kept l h)
    kept (stream_ends l) h = unfold cancel in refl
