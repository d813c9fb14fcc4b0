-- ===== src/Gossip/Sender.antt =====
-- src/gossip/sender.rs: `GossipSender`. The answer of iroh-gossip and the timeout are inputs.
use distributed_topic_tracke.Prelude.{
  ℕ, Option, some, none, List, take, Bytes, Result, ok, err, request_timed_out, request_failed,
}

-- How a request to iroh-gossip under `tokio::time::timeout` ends.
pub data Outcome : Type 0 where
  done failed timed_out : Outcome

-- `timeout(..).await.map_err(timed out)?.map_err(..)`
unfoldable pub to_result : Outcome → Result (Unit {0})
to_result done = ok tt
to_result failed = err request_failed
to_result timed_out = err request_timed_out

-- What the actor was asked to do.
pub data Request : Type 0 where
  broadcasting broadcasting_neighbors : Bytes → Request
  joining : List Bytes → Request

-- `GossipSender::broadcast`
unfoldable pub broadcast : Bytes → Outcome → Request × Result (Unit {0})
unfolding to_result
broadcast message outcome = (broadcasting message, to_result outcome)

-- `GossipSender::broadcast_neighbors`
unfoldable pub broadcast_neighbors : Bytes → Outcome → Request × Result (Unit {0})
unfolding to_result
broadcast_neighbors message outcome = (broadcasting_neighbors message, to_result outcome)

-- `peers.shuffle(..); peers.truncate(max_peers)`, with the shuffle as a parameter.
unfoldable pub chosen_peers : (List Bytes → List Bytes) → List Bytes → Option ℕ → List Bytes
chosen_peers shuffle peers none = peers
chosen_peers shuffle peers (some max_peers) = take max_peers (shuffle peers)

-- `GossipSender::join_peers`
unfoldable pub join_peers :
    (List Bytes → List Bytes) → List Bytes → Option ℕ → Outcome → Request × Result (Unit {0})
unfolding chosen_peers to_result
join_peers shuffle peers max_peers outcome =
    (joining (chosen_peers shuffle peers max_peers), to_result outcome)
