-- ===== src/Gossip/Receiver.antt =====
-- src/gossip/receiver.rs: the actor that collects gossip events, and the two waiting methods.
-- The events of iroh-gossip and the answers of tokio's broadcast channels are inputs.
pub mod History
pub mod Shutdown
pub mod Handles
use distributed_topic_tracke.Prelude.{
  ℕ, suc, Bool, true, false, Option, some, none, List, [], ◌∷◌, ◌++◌, Bytes, length, ◌==◌,
  if◌then◌else◌, Result, ok, err, panic,
}
use distributed_topic_tracke.Crypto.Primitives.{Primitives}
use distributed_topic_tracke.Crypto.Keys.{hash32}

-- `MAX_MESSAGE_HASHES` of src/lib.rs
abbrev pub max_message_hashes : ℕ
max_message_hashes = 5

-- `iroh_gossip::api::Event`
pub data Event : Type 0 where
  received : Bytes → Event
  neighbor_up neighbor_down : Bytes → Event
  lagged : Event

-- `GossipReceiverActor`, with the logs of the two broadcast channels, the latest first, and whether
-- its loop still runs.
pub record ReceiverActor : Type 0 where
  pub last_message_hashes : List Bytes
  pub token_cancelled : Bool
  pub next_channel : List (Option Event)
  pub join_channel : List (Option (Unit {0}))
  pub running : Bool

-- `GossipReceiver::new`: the actor that it spawns.
unfoldable pub new : ReceiverActor
new = record {
  last_message_hashes = [];
  token_cancelled = false;
  next_channel = [];
  join_channel = [];
  running = true;
}

-- A round of the `select!`: all handles dropped, an item of the gossip stream, or cancellation. The
-- calls of the other methods only read the actor.
pub data Input : Type 0 where
  handles_dropped stream_ended stream_failed cancelled : Input
  event : Event → Input

unfoldable pub pop_front : List Bytes → List Bytes
pop_front [] = []
pop_front (h ∷ hs) = hs

-- `if len == MAX_MESSAGE_HASHES { pop_front() }; push_back(lmh)`
unfoldable pub push_hash : Bytes → List Bytes → List Bytes
unfolding pop_front
push_hash h hs = (if length hs == max_message_hashes then pop_front hs else hs) ++ (h ∷ [])

module _ ⦃P : Primitives⦄ where
  -- The `match` on an event.
  unfoldable pub on_event : Event → ReceiverActor → ReceiverActor
  on_event (received content) s = record s {
    last_message_hashes = push_hash (hash32 content) s.last_message_hashes;
    join_channel = some tt ∷ s.join_channel;
  }
  on_event (neighbor_up key) s = record s { join_channel = some tt ∷ s.join_channel }
  on_event (neighbor_down key) s = s
  on_event lagged s = s

  -- One round of `GossipReceiverActor::run`.
  unfoldable pub round : Input → ReceiverActor → ReceiverActor
  unfolding on_event
  round handles_dropped s = record s { running = false }
  round stream_ended s = record s {
    join_channel = none ∷ s.join_channel;
    next_channel = none ∷ s.next_channel;
    token_cancelled = true;
    running = false;
  }
  round stream_failed s = record s {
    next_channel = none ∷ s.next_channel;
    join_channel = none ∷ s.join_channel;
    token_cancelled = true;
    running = false;
  }
  round (event e) s = let s' = on_event e s in record s' { next_channel = some e ∷ s'.next_channel }
  round cancelled s = record s {
    join_channel = none ∷ s.join_channel;
    next_channel = none ∷ s.next_channel;
    running = false;
  }

  -- `GossipReceiverActor::run`: rounds until one breaks the loop.
  unfoldable pub run : List Input → ReceiverActor → ReceiverActor
  unfolding round
  run [] s = s
  run (i ∷ is) s = let rest = run is (round i s) in if s.running then rest else s

-- `ChannelError`
pub data ChannelError : Type 0 where
  closed : ChannelError
  skipped : ℕ → ChannelError

-- What `recv().await` on a broadcast channel gives: a value, or `RecvError`.
pub data Recv (A : Type 0) : Type 0 where
  got : A → Recv A
  recv_closed : Recv A
  recv_lagged : ℕ → Recv A

pub data Answer (A : Type 0) : Type 0 where
  answer : A → Answer A
  refused : ChannelError → Answer A

-- `impl From<RecvError> for ChannelError`, and the two matches on what was received.
unfoldable pub from_recv : {A : Type 0} → Recv (Option A) → Answer A
from_recv (got (some a)) = answer a
from_recv (got none) = refused closed
from_recv recv_closed = refused closed
from_recv (recv_lagged n) = refused (skipped n)

-- `GossipReceiver::next`
unfoldable pub next : Recv (Option Event) → Answer Event
unfolding from_recv
next r = from_recv r

-- `GossipReceiver::joined`, from the answer of `is_joined` and what the join channel gives.
unfoldable pub joined : Result Bool → Recv (Option (Unit {0})) → Answer (Unit {0})
unfolding from_recv
joined (ok true) r = answer tt
joined (ok false) r = from_recv r
joined (err e) r = refused closed
joined panic r = refused closed
