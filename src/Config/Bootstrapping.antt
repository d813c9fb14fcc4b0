-- ===== src/Config/Bootstrapping.antt =====
-- src/config.rs: `BootstrapConfig` and its builder.
use distributed_topic_tracke.Prelude.{ℕ, Bool, true, false, List, [], ◌∷◌}
use distributed_topic_tracke.Config.Duration.{Duration, from_millis}

pub record BootstrapConfig : Type 0 where
  pub max_bootstrap_records : ℕ
  pub no_peers_retry_interval : Duration
  pub per_peer_join_settle_time : Duration
  pub join_confirmation_wait_time : Duration
  pub discovery_poll_interval : Duration
  pub publish_record_on_startup : Bool
  pub check_older_records_first_on_startup : Bool

-- `BootstrapConfig::default`
unfoldable pub default : BootstrapConfig
default = record {
  max_bootstrap_records = 5;
  no_peers_retry_interval = from_millis 1500;
  per_peer_join_settle_time = from_millis 100;
  join_confirmation_wait_time = from_millis 500;
  discovery_poll_interval = from_millis 2000;
  publish_record_on_startup = true;
  check_older_records_first_on_startup = false;
}

pub record BootstrapConfigBuilder : Type 0 where
  pub config : BootstrapConfig

unfoldable pub builder : BootstrapConfigBuilder
unfolding default
builder = record { config = default }

unfoldable pub max_bootstrap_records : ℕ → BootstrapConfigBuilder → BootstrapConfigBuilder
max_bootstrap_records value b = record {
  config = record (b.config) { max_bootstrap_records = value };
}

unfoldable pub no_peers_retry_interval : Duration → BootstrapConfigBuilder → BootstrapConfigBuilder
no_peers_retry_interval value b = record {
  config = record (b.config) { no_peers_retry_interval = value };
}

unfoldable pub per_peer_join_settle_time :
    Duration → BootstrapConfigBuilder → BootstrapConfigBuilder
per_peer_join_settle_time value b = record {
  config = record (b.config) { per_peer_join_settle_time = value };
}

unfoldable pub join_confirmation_wait_time :
    Duration → BootstrapConfigBuilder → BootstrapConfigBuilder
join_confirmation_wait_time value b = record {
  config = record (b.config) { join_confirmation_wait_time = value };
}

unfoldable pub discovery_poll_interval : Duration → BootstrapConfigBuilder → BootstrapConfigBuilder
discovery_poll_interval value b = record {
  config = record (b.config) { discovery_poll_interval = value };
}

unfoldable pub publish_record_on_startup : Bool → BootstrapConfigBuilder → BootstrapConfigBuilder
publish_record_on_startup value b = record {
  config = record (b.config) { publish_record_on_startup = value };
}

unfoldable pub check_older_records_first_on_startup :
    Bool → BootstrapConfigBuilder → BootstrapConfigBuilder
check_older_records_first_on_startup value b = record {
  config = record (b.config) { check_older_records_first_on_startup = value };
}

-- One call of a method of the builder, and a chain of them.
pub data BootstrapCall : Type 0 where
  set_max_bootstrap_records : ℕ → BootstrapCall
  set_no_peers_retry_interval : Duration → BootstrapCall
  set_per_peer_join_settle_time : Duration → BootstrapCall
  set_join_confirmation_wait_time : Duration → BootstrapCall
  set_discovery_poll_interval : Duration → BootstrapCall
  set_publish_record_on_startup : Bool → BootstrapCall
  set_check_older_records_first_on_startup : Bool → BootstrapCall

unfoldable pub apply : BootstrapCall → BootstrapConfigBuilder → BootstrapConfigBuilder
unfolding max_bootstrap_records no_peers_retry_interval per_peer_join_settle_time
    join_confirmation_wait_time discovery_poll_interval publish_record_on_startup
    check_older_records_first_on_startup
apply (set_max_bootstrap_records value) b = max_bootstrap_records value b
apply (set_no_peers_retry_interval value) b = no_peers_retry_interval value b
apply (set_per_peer_join_settle_time value) b = per_peer_join_settle_time value b
apply (set_join_confirmation_wait_time value) b = join_confirmation_wait_time value b
apply (set_discovery_poll_interval value) b = discovery_poll_interval value b
apply (set_publish_record_on_startup value) b = publish_record_on_startup value b
apply (set_check_older_records_first_on_startup value) b =
    check_older_records_first_on_startup value b

unfoldable pub run : List BootstrapCall → BootstrapConfigBuilder → BootstrapConfigBuilder
run [] b = b
run (c ∷ cs) b = run cs (apply c b)
