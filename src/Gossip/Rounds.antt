-- ===== src/Gossip/Rounds.antt =====
-- src/gossip/topic/bootstrap.rs: the state of the bootstrap loop, what one of its rounds meets, and
-- the steps that do not depend on the settings of a node.
use distributed_topic_tracke.Prelude.{
  ℕ, Bool, true, false, Option, List, ◌∷◌, Bytes, Result, ok, err, panic,
}
use distributed_topic_tracke.Config.Duration.{Duration}
use distributed_topic_tracke.Config.Bootstrapping.{BootstrapConfig}
use distributed_topic_tracke.Crypto.Record.{Record}
use distributed_topic_tracke.Crypto.Publisher.{RecordPublisher, Cut}
use distributed_topic_tracke.Dht.{Oracle, DhtActor}
use distributed_topic_tracke.Gossip.Sender.{Outcome, Request}

-- `BootstrapActor`, without its handles.
pub record BootstrapActor : Type 0 where
  pub record_publisher : RecordPublisher
  pub config : BootstrapConfig

-- The arguments with which `publish_record_fire_and_forget` is called.
pub record Publication : Type 0 where
  pub announced : Record
  pub cached_records : Option (List Record)

-- The variables of the task, with what it has done, the latest first: tasks started, requests sent,
-- and lengths of its sleeps; and whether the loop still runs.
pub record Loop : Type 0 where
  pub last_published_unix_minute : ℕ
  pub is_joined_ret : Bool
  pub publications : List Publication
  pub joins : List Request
  pub sleeps : List Duration
  pub running : Bool

-- How a `select!` of a sleep, `joined()` and the cancellation ends.
pub data Wait : Type 0 where
  elapsed woken cancelled : Wait

-- One fetch of records: the DHT, the actor that the request meets, and a cancellation.
pub record Fetch : Type 0 where
  pub world : Oracle
  pub actor : DhtActor
  pub cut : Cut

-- What the request to join one key meets: its outcome, the wait after it, and `is_joined()`.
pub record Attempt : Type 0 where
  pub outcome : Outcome
  pub settle : Wait
  pub is_joined : Result Bool

-- What one round of the loop meets, in the order in which it asks.
pub record Round : Type 0 where
  pub is_cancelled : Bool
  pub is_joined_first : Result Bool
  pub now : ℕ
  pub older : Fetch
  pub current : Fetch
  -- The order in which the set of keys is iterated.
  pub order : List Bytes → List Bytes
  pub is_joined_before : Result Bool
  pub attempt : Bytes → Attempt
  pub is_joined_after : Result Bool
  pub confirm : Wait
  pub is_joined_last : Result Bool
  -- The wait that ends the round.
  pub pause : Wait

-- `break`, and `break` with `is_joined_ret = true`.
unfoldable pub leave : Loop → Loop
leave s = record s { running = false }

unfoldable pub leave_joined : Loop → Loop
leave_joined s = record s { is_joined_ret = true; running = false }

-- `if let Ok(true) = is_joined { joined; break } else if let Err(_) = is_joined { break }`
unfoldable pub check : Result Bool → Loop → Loop → Loop
unfolding leave leave_joined
check (ok true) s rest = leave_joined s
check (ok false) s rest = rest
check (err e) s rest = leave s
check panic s rest = leave s

-- A `select!` whose third branch breaks the loop.
unfoldable pub wait : Duration → Wait → Loop → Loop
unfolding leave
wait d elapsed s = record s { sleeps = d ∷ s.sleeps }
wait d woken s = record s { sleeps = d ∷ s.sleeps }
wait d cancelled s = leave (record s { sleeps = d ∷ s.sleeps })

-- What the loop over the peers does after one of them.
pub data Visit : Type 0 where
  next_peer enough abort : Visit

-- `is_joined()` after a request.
unfoldable pub answered : Result Bool → Loop → Visit × Loop
answered (ok true) s = (enough, record s { is_joined_ret = true })
answered (ok false) s = (next_peer, s)
answered (err e) s = (enough, s)
answered panic s = (enough, s)

-- The wait after a request that was sent, and `is_joined()` after it.
unfoldable pub settled : Duration → Wait → Result Bool → Loop → Visit × Loop
unfolding answered wait
settled d elapsed answer s = answered answer (wait d elapsed s)
settled d woken answer s = answered answer (wait d woken s)
settled d cancelled answer s = (abort, wait d cancelled s)

-- How the loop over the peers goes on, from the loop over the rest and the state so far.
unfoldable pub proceed : Visit → Loop → Loop → Loop
proceed next_peer rest s = rest
proceed enough rest s = s
proceed abort rest s = s

-- `if let Ok(record) = Record::sign(..) { publish_record_fire_and_forget(..) }`
unfoldable pub publish_signed : Result Record → Option (List Record) → Loop → Loop
publish_signed (ok r) cached s = record s {
  publications = (record { announced = r; cached_records = cached }) ∷ s.publications;
}
publish_signed (err e) cached s = s
publish_signed panic cached s = s
