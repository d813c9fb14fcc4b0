-- ===== src/Gossip/Receiver/Handles/Ending.antt =====
-- What a task that listens to a handle takes, from the inputs of the actor to the end of the loop.
use distributed_topic_tracke.Prelude.{
  ℕ, zero, suc, ◌≤◌, ◌≡◌, ◌≢◌, refl, ap, ◌∙◌, Bool, true, false, Option, none, some, List, [], ◌∷◌,
  ◌++◌, append-nil, length, arith, Result, ok, err, panic,
}
use distributed_topic_tracke.Crypto.Primitives.{Primitives}
use distributed_topic_tracke.Gossip.Receiver.{
  Event, refused, closed, recv_closed, got, next, joined, from_recv, Input, event, handles_dropped,
  stream_ended, stream_failed, cancelled, run, new,
}
use distributed_topic_tracke.Gossip.Receiver.Shutdown.{told, send_all, run-send_all}
use distributed_topic_tracke.Gossip.Receiver.Handles.{
  Broadcast, BroadcastLaws, GossipReceiver, clone, next_event, listen_turn, listen, wait_joined,
}

-- The events that come before the loop of the actor ends.
unfoldable pub arrived : List Input → List Event
arrived [] = []
arrived (event e ∷ is) = e ∷ arrived is
arrived (handles_dropped ∷ is) = []
arrived (stream_ended ∷ is) = []
arrived (stream_failed ∷ is) = []
arrived (cancelled ∷ is) = []

send_all-send_all :
    {A : Type 0} (xs ys zs : List A) → send_all (send_all xs ys) zs ≡ send_all ys (xs ++ zs)
unfolding send_all
send_all-send_all [] ys zs = refl
send_all-send_all (x ∷ xs) ys zs = send_all-send_all xs (x ∷ ys) zs

-- The log of what was sent, read from its oldest message on.
oldest_first : {A : Type 0} (xs : List A) → send_all (send_all xs []) [] ≡ xs
unfolding send_all
oldest_first xs = send_all-send_all xs [] [] ∙ append-nil xs

module _ (B : Broadcast Event) (J : Broadcast (Unit {0})) (L : BroadcastLaws B) where
  -- A subscription that has missed nothing, to a channel without senders that retains these messages.
  record Retains (messages : List (Option Event)) (r : B.Receiver) : Type 0 where
    pub over : B.is_closed r ≡ true
    pub kept_up : B.missed r ≡ 0
    pub left : B.retained r ≡ messages

  next-Retains :
      (a : Option Event) (more : List (Option Event)) (r : B.Receiver)
      → Retains (a ∷ more) r
      → ((B.recv r).0 ≡ got a) × Retains more (B.recv r).1
  next-Retains a more r h =
      let (given, left) = L.gives_oldest r a more h.kept_up h.left in
      (
        given,
        record {
          over = L.stays_closed r h.over;
          kept_up = L.misses_none r h.kept_up h.over;
          left = left;
        },
      )

  -- One turn of the loop, by what the subscription gives.
  listen-got :
      (fuel : ℕ) (h : GossipReceiver B J) (e : Event) (events : List Event)
      → (B.recv h.next_channel_receiver).0 ≡ got (some e)
      → listen B J fuel (next_event B J h).1 ≡ some (events, closed)
      → listen B J (suc fuel) h ≡ some (e ∷ events, closed)
  unfolding listen listen_turn next_event next from_recv
  listen-got fuel h e events given rest = rw (given, rest) refl

  listen-end :
      (fuel : ℕ) (h : GossipReceiver B J)
      → (B.recv h.next_channel_receiver).0 ≡ got none
      → listen B J (suc fuel) h ≡ some ([], closed)
  unfolding listen listen_turn next_event next from_recv
  listen-end fuel h given = rw given refl

  listen-closed :
      (fuel : ℕ) (h : GossipReceiver B J)
      → (B.recv h.next_channel_receiver).0 ≡ recv_closed
      → listen B J (suc fuel) h ≡ some ([], closed)
  unfolding listen listen_turn next_event next from_recv
  listen-closed fuel h given = rw given refl

  listen-Retains :
      (is : List Input) (fuel : ℕ) (h : GossipReceiver B J)
      → length is ≤ fuel
      → Retains (told is) h.next_channel_receiver
      → listen B J (suc fuel) h ≡ some (arrived is, closed)
  unfolding told arrived
  listen-Retains [] fuel h enough q = listen-closed fuel h (L.ends _ q.kept_up q.over q.left)
  listen-Retains (event e ∷ is) zero h enough q =
      let impossible : ⊥ = omega arith in absurd impossible
  listen-Retains (event e ∷ is) (suc fuel) h enough q =
      let (given, later) = next-Retains (some e) (told is) h.next_channel_receiver q in
      listen-got (suc fuel) h e (arrived is) given
        (listen-Retains is fuel (next_event B J h).1 (omega arith) (unfold next_event in later))
  listen-Retains (handles_dropped ∷ is) fuel h enough q =
      listen-closed fuel h (L.ends _ q.kept_up q.over q.left)
  listen-Retains (stream_ended ∷ is) fuel h enough q =
      listen-end fuel h (next-Retains none [] _ q).0
  listen-Retains (stream_failed ∷ is) fuel h enough q =
      listen-end fuel h (next-Retains none [] _ q).0
  listen-Retains (cancelled ∷ is) fuel h enough q = listen-end fuel h (next-Retains none [] _ q).0

  listen-clone :
      (fuel : ℕ) (h : GossipReceiver B J)
      → B.upgrades h.next_channel_sender ≡ false
      → listen B J (suc fuel) (clone B J h) ≡ some ([], closed)
  unfolding clone
  listen-clone fuel h gone = listen-closed fuel (clone B J h) (rw gone L.abandoned_is_empty)

  wait_joined-clone :
      (LJ : BroadcastLaws J) (is_joined : Result Bool) (h : GossipReceiver B J)
      → J.upgrades h.join_channel_sender ≡ false
      → is_joined ≢ ok true
      → (wait_joined B J is_joined (clone B J h)).0 ≡ refused closed
  unfolding wait_joined clone joined from_recv
  wait_joined-clone LJ (ok true) h gone other = absurd (other refl)
  wait_joined-clone LJ (ok false) h gone other = rw (gone, LJ.abandoned_is_empty) refl
  wait_joined-clone LJ (err e) h gone other = refl
  wait_joined-clone LJ panic h gone other = refl

  -- Let a handle have subscribed before the first message of the actor and have missed none, so that
  -- its channel still retains what the actor has sent, let all senders of both channels be dropped,
  -- and let the weak senders of the handle upgrade no more. Then the listening loop of the examples
  -- ends within one turn more than the actor had inputs: it takes every event that arrived before
  -- the actor's own loop ended, in order, and is told that the channel is closed. On a clone that is
  -- made now, the loop takes no event and is told that the channel is closed, and so is `joined`
  -- unless the actor answers that it has joined.
  pub listen_lem :
      ⦃P : Primitives⦄ (LJ : BroadcastLaws J) (is : List Input) (fuel : ℕ) (is_joined : Result Bool)
      (h : GossipReceiver B J)
      → B.missed h.next_channel_receiver ≡ 0
      → B.retained h.next_channel_receiver ≡ send_all (run is new).next_channel []
      → B.is_closed h.next_channel_receiver ≡ true
      → B.upgrades h.next_channel_sender ≡ false
      → J.upgrades h.join_channel_sender ≡ false
      → is_joined ≢ ok true
      → length is ≤ fuel
      → (listen B J (suc fuel) h ≡ some (arrived is, closed))
        × (listen B J (suc fuel) (clone B J h) ≡ some ([], closed))
        × ((wait_joined B J is_joined (clone B J h)).0 ≡ refused closed)
  listen_lem LJ is fuel is_joined h kept_up all over gone left other enough =
      let sent = (run-send_all is).0 in
      (
        listen-Retains is fuel h enough (record {
          over = over;
          kept_up = kept_up;
          left = all ∙ ap (λ log. send_all log []) sent ∙ oldest_first (told is);
        }),
        listen-clone fuel h gone,
        wait_joined-clone LJ is_joined h left other,
      )
