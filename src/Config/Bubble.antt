-- ===== src/Config/Bubble.antt =====
-- src/config.rs: `BubbleMergeConfig`, the settings inside it, and their builder.
pub mod Chain
use distributed_topic_tracke.Prelude.{ℕ, ◌*◌, Bool, true, false, List, [], ◌∷◌, ltb, if◌then◌else◌}
use distributed_topic_tracke.Config.Duration.{Duration, from_secs, from_millis}

pub record BubbleMergeConfigInner : Type 0 where
  pub initial_interval : Duration
  pub base_interval : Duration
  pub max_jitter : Duration
  pub min_neighbors : ℕ
  pub fail_topic_creation_on_merge_startup_failure : Bool
  pub max_join_peers : ℕ

-- `BubbleMergeConfigInner::default`
unfoldable pub default_inner : BubbleMergeConfigInner
default_inner = record {
  initial_interval = from_secs 30;
  base_interval = from_secs 60;
  max_jitter = from_secs 120;
  min_neighbors = 4;
  fail_topic_creation_on_merge_startup_failure = true;
  max_join_peers = 2;
}

pub record BubbleMergeConfigBuilder : Type 0 where
  pub config : BubbleMergeConfigInner

unfoldable pub builder : BubbleMergeConfigBuilder
unfolding default_inner
builder = record { config = default_inner }

unfoldable pub initial_interval : Duration → BubbleMergeConfigBuilder → BubbleMergeConfigBuilder
initial_interval value b = record { config = record (b.config) { initial_interval = value } }

unfoldable pub base_interval : Duration → BubbleMergeConfigBuilder → BubbleMergeConfigBuilder
base_interval value b =
    if ltb 0 value then record { config = record (b.config) { base_interval = value } } else b

unfoldable pub max_jitter : Duration → BubbleMergeConfigBuilder → BubbleMergeConfigBuilder
max_jitter value b = record { config = record (b.config) { max_jitter = value } }

unfoldable pub min_neighbors : ℕ → BubbleMergeConfigBuilder → BubbleMergeConfigBuilder
min_neighbors value b = record { config = record (b.config) { min_neighbors = value } }

unfoldable pub fail_topic_creation_on_merge_startup_failure :
    Bool → BubbleMergeConfigBuilder → BubbleMergeConfigBuilder
fail_topic_creation_on_merge_startup_failure value b = record {
  config = record (b.config) { fail_topic_creation_on_merge_startup_failure = value };
}

unfoldable pub max_join_peers : ℕ → BubbleMergeConfigBuilder → BubbleMergeConfigBuilder
max_join_peers value b =
    if ltb 0 value then record { config = record (b.config) { max_join_peers = value } } else b

-- One call of a method of the builder, and a chain of them.
pub data BubbleCall : Type 0 where
  set_initial_interval : Duration → BubbleCall
  set_base_interval : Duration → BubbleCall
  set_max_jitter : Duration → BubbleCall
  set_min_neighbors : ℕ → BubbleCall
  set_fail_topic_creation_on_merge_startup_failure : Bool → BubbleCall
  set_max_join_peers : ℕ → BubbleCall

unfoldable pub apply : BubbleCall → BubbleMergeConfigBuilder → BubbleMergeConfigBuilder
unfolding initial_interval base_interval max_jitter min_neighbors
    fail_topic_creation_on_merge_startup_failure max_join_peers
apply (set_initial_interval value) b = initial_interval value b
apply (set_base_interval value) b = base_interval value b
apply (set_max_jitter value) b = max_jitter value b
apply (set_min_neighbors value) b = min_neighbors value b
apply (set_fail_topic_creation_on_merge_startup_failure value) b =
    fail_topic_creation_on_merge_startup_failure value b
apply (set_max_join_peers value) b = max_join_peers value b

unfoldable pub run : List BubbleCall → BubbleMergeConfigBuilder → BubbleMergeConfigBuilder
run [] b = b
run (c ∷ cs) b = run cs (apply c b)

pub data BubbleMergeConfig : Type 0 where
  enabled : BubbleMergeConfigInner → BubbleMergeConfig
  disabled : BubbleMergeConfig

-- `BubbleMergeConfig::default`
unfoldable pub default : BubbleMergeConfig
unfolding default_inner
default = enabled default_inner

unfoldable pub build : BubbleMergeConfigBuilder → BubbleMergeConfig
build b = enabled b.config
