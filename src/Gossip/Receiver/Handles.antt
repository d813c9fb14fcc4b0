-- ===== src/Gossip/Receiver/Handles.antt =====
-- src/gossip/receiver.rs, examples/e2e_test.rs: `GossipReceiver`, a handle with subscriptions to the two broadcast channels
-- of the actor, and what handles give once the actor has shut down. The channels are those of tokio,
-- and a parameter.
pub mod Ending
use distributed_topic_tracke.Prelude.{
  ℕ, zero, suc, ◌<◌, ◌≡◌, ◌⊎◌, Bool, true, false, Option, none, some, List, [], ◌∷◌, Result, ok,
  err, panic, if◌then◌else◌,
}
use distributed_topic_tracke.Gossip.Receiver.{
  Event, Recv, recv_closed, got, Answer, answer, refused, ChannelError, closed, next, joined,
}

-- `tokio::sync::broadcast`, as far as a receiver uses it: weak senders, subscriptions, and what a
-- `recv` that returns gives.
pub record Broadcast (A : Type 0) : Type 1 where
  pub WeakSender : Type 0
  pub Receiver : Type 0
  pub upgrades : WeakSender → Bool
  pub subscribe : WeakSender → Receiver
  -- The receiver of a new channel whose sender is dropped.
  pub abandoned : Receiver
  pub recv : Receiver → Recv (Option A) × Receiver
  -- Whether all senders of the channel are dropped.
  pub is_closed : Receiver → Bool
  -- The values that the channel retains for a receiver, the oldest first, and how many that it has not
  -- received were overwritten.
  pub retained : Receiver → List (Option A)
  pub missed : Receiver → ℕ

-- What the documentation of tokio promises of a receiver that has not missed values: it receives the
-- retained ones in order, and when there are none left and all senders are dropped, it is told so.
pub record BroadcastLaws {A : Type 0} (B : Broadcast A) : Type 0 where
  pub abandoned_is_empty : (B.recv B.abandoned).0 ≡ recv_closed
  pub stays_closed : (r : B.Receiver) → B.is_closed r ≡ true → B.is_closed (B.recv r).1 ≡ true
  pub misses_none :
      (r : B.Receiver) → B.missed r ≡ 0 → B.is_closed r ≡ true → B.missed (B.recv r).1 ≡ 0
  pub gives_oldest :
      (r : B.Receiver) (a : Option A) (more : List (Option A))
      → B.missed r ≡ 0
      → B.retained r ≡ a ∷ more
      → ((B.recv r).0 ≡ got a) × (B.retained (B.recv r).1 ≡ more)
  pub ends :
      (r : B.Receiver)
      → B.missed r ≡ 0
      → B.is_closed r ≡ true
      → B.retained r ≡ []
      → (B.recv r).0 ≡ recv_closed

-- A turn of `while let Ok(event) = gossip_receiver.next().await { .. }`, with the turns after it.
unfoldable pub listen_turn :
    Answer Event → Option (List Event × ChannelError) → Option (List Event × ChannelError)
listen_turn (answer e) none = none
listen_turn (answer e) (some (events, c)) = some (e ∷ events, c)
listen_turn (refused c) rest = some ([], c)

module _ (B : Broadcast Event) (J : Broadcast (Unit {0})) where
  -- The handle, without the actor and the topic that it keeps alive.
  pub record GossipReceiver : Type 0 where
    pub next_channel_sender : B.WeakSender
    pub next_channel_receiver : B.Receiver
    pub join_channel_sender : J.WeakSender
    pub join_channel_receiver : J.Receiver

  -- `Clone for GossipReceiver`
  unfoldable pub clone : GossipReceiver → GossipReceiver
  clone h = record h {
    next_channel_receiver =
        if B.upgrades h.next_channel_sender then B.subscribe h.next_channel_sender else B.abandoned;
    join_channel_receiver =
        if J.upgrades h.join_channel_sender then J.subscribe h.join_channel_sender else J.abandoned;
  }

  -- `GossipReceiver::next`
  unfoldable pub next_event : GossipReceiver → Answer Event × GossipReceiver
  next_event h =
      let taken = B.recv h.next_channel_receiver in
      (next taken.0, record h { next_channel_receiver = taken.1 })

  -- `GossipReceiver::joined`, from the answer of `is_joined`.
  unfoldable pub wait_joined : Result Bool → GossipReceiver → Answer (Unit {0}) × GossipReceiver
  wait_joined (ok true) h = (answer tt, h)
  wait_joined (ok false) h =
      let taken = J.recv h.join_channel_receiver in
      (joined (ok false) taken.0, record h { join_channel_receiver = taken.1 })
  wait_joined (err e) h = (refused closed, h)
  wait_joined panic h = (refused closed, h)

  -- The listening task of the examples: the events that it takes, and why it ends.
  unfoldable pub listen : ℕ → GossipReceiver → Option (List Event × ChannelError)
  unfolding next_event listen_turn
  listen zero h = none
  listen (suc fuel) h =
      let turn = next_event h in let rest = listen fuel turn.1 in listen_turn turn.0 rest
