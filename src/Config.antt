-- ===== src/Config.antt =====
-- src/config.rs: the top-level `Config`, its builder and `ConfigBuilder::build`.
pub mod Duration
pub mod Timeouts
pub mod Dht
pub mod Bubble
pub mod Overlap
pub mod Publishing
pub mod Bootstrapping
pub mod Merge
pub mod Build
pub mod Chains
use distributed_topic_tracke.Prelude.{
  ℕ, ◌*◌, Bool, true, false, List, [], ◌∷◌, ltb, if◌then◌else◌, ◌==◌, ◌&&◌,
}
use distributed_topic_tracke.Config.Bootstrapping.{BootstrapConfig, default as bootstrap_default}
use distributed_topic_tracke.Config.Publishing.{
  PublisherConfig, enabled, disabled, default as publisher_default,
}
use distributed_topic_tracke.Config.Dht.{DhtConfig, default as dht_default}
use distributed_topic_tracke.Config.Merge.{MergeConfig, default as merge_default}
use distributed_topic_tracke.Config.Timeouts.{TimeoutConfig, default as timeouts_default}

pub record Config : Type 0 where
  pub bootstrap_config : BootstrapConfig
  pub publisher_config : PublisherConfig
  pub dht_config : DhtConfig
  pub merge_config : MergeConfig
  pub max_join_peer_count : ℕ
  pub timeouts : TimeoutConfig

-- `Config::default`
unfoldable pub default : Config
default = record {
  bootstrap_config = bootstrap_default;
  publisher_config = publisher_default;
  dht_config = dht_default;
  merge_config = merge_default;
  max_join_peer_count = 4;
  timeouts = timeouts_default;
}

pub record ConfigBuilder : Type 0 where
  pub config : Config

unfoldable pub builder : ConfigBuilder
unfolding default
builder = record { config = default }

unfoldable pub bootstrap_config : BootstrapConfig → ConfigBuilder → ConfigBuilder
bootstrap_config value b = record { config = record (b.config) { bootstrap_config = value } }

unfoldable pub publisher_config : PublisherConfig → ConfigBuilder → ConfigBuilder
publisher_config value b = record { config = record (b.config) { publisher_config = value } }

unfoldable pub dht_config : DhtConfig → ConfigBuilder → ConfigBuilder
dht_config value b = record { config = record (b.config) { dht_config = value } }

unfoldable pub merge_config : MergeConfig → ConfigBuilder → ConfigBuilder
merge_config value b = record { config = record (b.config) { merge_config = value } }

unfoldable pub max_join_peer_count : ℕ → ConfigBuilder → ConfigBuilder
max_join_peer_count value b =
    if ltb 0 value then record { config = record (b.config) { max_join_peer_count = value } } else b

unfoldable pub timeouts : TimeoutConfig → ConfigBuilder → ConfigBuilder
timeouts value b = record { config = record (b.config) { timeouts = value } }

-- One call of a method of the builder, and a chain of them.
pub data ConfigCall : Type 0 where
  set_bootstrap_config : BootstrapConfig → ConfigCall
  set_publisher_config : PublisherConfig → ConfigCall
  set_dht_config : DhtConfig → ConfigCall
  set_merge_config : MergeConfig → ConfigCall
  set_max_join_peer_count : ℕ → ConfigCall
  set_timeouts : TimeoutConfig → ConfigCall

unfoldable pub apply : ConfigCall → ConfigBuilder → ConfigBuilder
unfolding bootstrap_config publisher_config dht_config merge_config max_join_peer_count timeouts
apply (set_bootstrap_config value) b = bootstrap_config value b
apply (set_publisher_config value) b = publisher_config value b
apply (set_dht_config value) b = dht_config value b
apply (set_merge_config value) b = merge_config value b
apply (set_max_join_peer_count value) b = max_join_peer_count value b
apply (set_timeouts value) b = timeouts value b

unfoldable pub run : List ConfigCall → ConfigBuilder → ConfigBuilder
run [] b = b
run (c ∷ cs) b = run cs (apply c b)

-- `matches!(config, PublisherConfig::Enabled(_))`
abbrev pub publisher_is_enabled : PublisherConfig → Bool
publisher_is_enabled (enabled c) = true
publisher_is_enabled disabled = false

-- `ConfigBuilder::build`
unfoldable pub build : ConfigBuilder → Config
build b =
    let config = b.config in
    if config.bootstrap_config.max_bootstrap_records == 0
      && publisher_is_enabled config.publisher_config
    then record config { publisher_config = disabled }
    else config
