-- ===== src/Tests/Listening.antt =====
-- A broadcast channel as a list, and what handles of the receiver give after the shutdown at it.
use distributed_topic_tracke.Prelude.{
  ◌≡◌, refl, Bool, true, false, Option, some, none, List, [], ◌∷◌, ok, arith,
}
use distributed_topic_tracke.Gossip.Receiver.{
  neighbor_up, neighbor_down, Recv, got, recv_closed, refused, closed, received, event, Input,
  stream_ended, run, round, on_event, new,
}
use distributed_topic_tracke.Gossip.Receiver.Handles.{
  Broadcast, BroadcastLaws, GossipReceiver, clone, listen, wait_joined,
}
use distributed_topic_tracke.Gossip.Receiver.Handles.Ending.{arrived, listen_lem}
use distributed_topic_tracke.Gossip.Receiver.Shutdown.{send_all}
use distributed_topic_tracke.Tests.Toy.{toy, key_of}

abbrev take_first : {A : Type 0} → List (Option A) → Recv (Option A) × List (Option A)
take_first [] = (recv_closed, [])
take_first (a ∷ more) = (got a, more)

-- A channel without senders, as what it retains for each receiver.
abbrev toy_channel : {A : Type 0} → Broadcast A
toy_channel {A} = record {
  WeakSender = Bool;
  Receiver = List (Option A);
  upgrades = λ s. s;
  subscribe = λ s. [];
  abandoned = [];
  recv = take_first;
  is_closed = λ r. true;
  retained = λ r. r;
  missed = λ r. 0;
}

toy_gives :
    {A : Type 0} (r : List (Option A)) (a : Option A) (more : List (Option A))
    → r ≡ a ∷ more
    → ((take_first r).0 ≡ got a) × ((take_first r).1 ≡ more)
toy_gives r a more h = rw h (refl, refl)

toy_ends : {A : Type 0} (r : List (Option A)) → r ≡ [] → (take_first r).0 ≡ recv_closed
toy_ends r h = rw h refl

toy_channel_lem : {A : Type 0} → BroadcastLaws (toy_channel {A = A})
toy_channel_lem = record {
  abandoned_is_empty = refl;
  stays_closed = λ r h. refl;
  misses_none = λ r h k. refl;
  gives_oldest = λ r a more h k. toy_gives r a more k;
  ends = λ r h k e. toy_ends r e;
}

-- Two events and the end of the stream, and an event that comes too late.
abbrev session : List Input
session =
    event (neighbor_up (key_of 1))
    ∷ event (received (5 ∷ []))
    ∷ stream_ended
    ∷ event (neighbor_down (key_of 1))
    ∷ []

-- A handle that has not received anything yet, after the shutdown.
abbrev handle : GossipReceiver toy_channel toy_channel
handle = record {
  next_channel_sender = false;
  next_channel_receiver = some (neighbor_up (key_of 1)) ∷ some (received (5 ∷ [])) ∷ none ∷ [];
  join_channel_sender = false;
  join_channel_receiver = [];
}

handle_retains : handle.next_channel_receiver ≡ send_all (run session new).next_channel []
unfolding run round on_event new send_all
handle_retains = refl

listen_lem_example :
    (listen toy_channel toy_channel 5 handle
      ≡ some (neighbor_up (key_of 1) ∷ received (5 ∷ []) ∷ [], closed))
    × (listen toy_channel toy_channel 5 (clone toy_channel toy_channel handle) ≡ some ([], closed))
    × ((wait_joined toy_channel toy_channel (ok false) (clone toy_channel toy_channel handle)).0
        ≡ refused closed)
unfolding arrived
listen_lem_example =
    listen_lem toy_channel toy_channel toy_channel_lem toy_channel_lem session 4 (ok false) handle
      refl handle_retains refl refl refl (λ e. cc) (omega arith)
