-- ===== src/Config/Overlap.antt =====
-- src/config.rs: `MessageOverlapMergeConfig`, the settings inside it, and their builder.
pub mod Chain
use distributed_topic_tracke.Prelude.{ℕ, ◌*◌, Bool, true, false, List, [], ◌∷◌, ltb, if◌then◌else◌}
use distributed_topic_tracke.Config.Duration.{Duration, from_secs, from_millis}

pub record MessageOverlapMergeConfigInner : Type 0 where
  pub initial_interval : Duration
  pub base_interval : Duration
  pub max_jitter : Duration
  pub fail_topic_creation_on_merge_startup_failure : Bool
  pub max_join_peers : ℕ

-- `MessageOverlapMergeConfigInner::default`
unfoldable pub default_inner : MessageOverlapMergeConfigInner
default_inner = record {
  initial_interval = from_secs 30;
  base_interval = from_secs 60;
  max_jitter = from_secs 120;
  fail_topic_creation_on_merge_startup_failure = true;
  max_join_peers = 2;
}

pub record MessageOverlapMergeConfigBuilder : Type 0 where
  pub config : MessageOverlapMergeConfigInner

unfoldable pub builder : MessageOverlapMergeConfigBuilder
unfolding default_inner
builder = record { config = default_inner }

unfoldable pub initial_interval :
    Duration → MessageOverlapMergeConfigBuilder → MessageOverlapMergeConfigBuilder
initial_interval value b = record { config = record (b.config) { initial_interval = value } }

unfoldable pub base_interval :
    Duration → MessageOverlapMergeConfigBuilder → MessageOverlapMergeConfigBuilder
base_interval value b =
    if ltb 0 value then record { config = record (b.config) { base_interval = value } } else b

unfoldable pub max_jitter :
    Duration → MessageOverlapMergeConfigBuilder → MessageOverlapMergeConfigBuilder
max_jitter value b = record { config = record (b.config) { max_jitter = value } }

unfoldable pub fail_topic_creation_on_merge_startup_failure :
    Bool → MessageOverlapMergeConfigBuilder → MessageOverlapMergeConfigBuilder
fail_topic_creation_on_merge_startup_failure value b = record {
  config = record (b.config) { fail_topic_creation_on_merge_startup_failure = value };
}

unfoldable pub max_join_peers :
    ℕ → MessageOverlapMergeConfigBuilder → MessageOverlapMergeConfigBuilder
max_join_peers value b =
    if ltb 0 value then record { config = record (b.config) { max_join_peers = value } } else b

-- One call of a method of the builder, and a chain of them.
pub data OverlapCall : Type 0 where
  set_initial_interval : Duration → OverlapCall
  set_base_interval : Duration → OverlapCall
  set_max_jitter : Duration → OverlapCall
  set_fail_topic_creation_on_merge_startup_failure : Bool → OverlapCall
  set_max_join_peers : ℕ → OverlapCall

unfoldable pub apply :
    OverlapCall → MessageOverlapMergeConfigBuilder → MessageOverlapMergeConfigBuilder
unfolding initial_interval base_interval max_jitter fail_topic_creation_on_merge_startup_failure
    max_join_peers
apply (set_initial_interval value) b = initial_interval value b
apply (set_base_interval value) b = base_interval value b
apply (set_max_jitter value) b = max_jitter value b
apply (set_fail_topic_creation_on_merge_startup_failure value) b =
    fail_topic_creation_on_merge_startup_failure value b
apply (set_max_join_peers value) b = max_join_peers value b

unfoldable pub run :
    List OverlapCall → MessageOverlapMergeConfigBuilder → MessageOverlapMergeConfigBuilder
run [] b = b
run (c ∷ cs) b = run cs (apply c b)

pub data MessageOverlapMergeConfig : Type 0 where
  enabled : MessageOverlapMergeConfigInner → MessageOverlapMergeConfig
  disabled : MessageOverlapMergeConfig

-- `MessageOverlapMergeConfig::default`
unfoldable pub default : MessageOverlapMergeConfig
unfolding default_inner
default = enabled default_inner

unfoldable pub build : MessageOverlapMergeConfigBuilder → MessageOverlapMergeConfig
build b = enabled b.config
