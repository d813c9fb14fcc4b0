-- ===== src/Config/Timeouts.antt =====
-- src/config.rs: `TimeoutConfig` and its builder, whose field the source calls `timeouts`.
use distributed_topic_tracke.Prelude.{List, [], ◌∷◌}
use distributed_topic_tracke.Config.Duration.{Duration, from_secs}

pub record TimeoutConfig : Type 0 where
  pub join_peer_timeout : Duration
  pub broadcast_timeout : Duration
  pub broadcast_neighbors_timeout : Duration

-- `TimeoutConfig::default`
unfoldable pub default : TimeoutConfig
default = record {
  join_peer_timeout = from_secs 5;
  broadcast_timeout = from_secs 5;
  broadcast_neighbors_timeout = from_secs 5;
}

pub record TimeoutConfigBuilder : Type 0 where
  pub config : TimeoutConfig

unfoldable pub builder : TimeoutConfigBuilder
unfolding default
builder = record { config = default }

unfoldable pub join_peer_timeout : Duration → TimeoutConfigBuilder → TimeoutConfigBuilder
join_peer_timeout value b = record { config = record (b.config) { join_peer_timeout = value } }

unfoldable pub broadcast_timeout : Duration → TimeoutConfigBuilder → TimeoutConfigBuilder
broadcast_timeout value b = record { config = record (b.config) { broadcast_timeout = value } }

unfoldable pub broadcast_neighbors_timeout : Duration → TimeoutConfigBuilder → TimeoutConfigBuilder
broadcast_neighbors_timeout value b = record {
  config = record (b.config) { broadcast_neighbors_timeout = value };
}

-- One call of a method of the builder, and a chain of them.
pub data TimeoutCall : Type 0 where
  set_join_peer_timeout : Duration → TimeoutCall
  set_broadcast_timeout : Duration → TimeoutCall
  set_broadcast_neighbors_timeout : Duration → TimeoutCall

unfoldable pub apply : TimeoutCall → TimeoutConfigBuilder → TimeoutConfigBuilder
unfolding join_peer_timeout broadcast_timeout broadcast_neighbors_timeout
apply (set_join_peer_timeout value) b = join_peer_timeout value b
apply (set_broadcast_timeout value) b = broadcast_timeout value b
apply (set_broadcast_neighbors_timeout value) b = broadcast_neighbors_timeout value b

unfoldable pub run : List TimeoutCall → TimeoutConfigBuilder → TimeoutConfigBuilder
run [] b = b
run (c ∷ cs) b = run cs (apply c b)
