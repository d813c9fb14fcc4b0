-- ===== src/Config/Publishing.antt =====
-- src/config.rs: `PublisherConfig`, the settings inside it, and their builder.
pub mod Chain
use distributed_topic_tracke.Prelude.{ℕ, ◌*◌, Bool, true, false, List, [], ◌∷◌, ltb, if◌then◌else◌}
use distributed_topic_tracke.Config.Duration.{Duration, from_secs, from_millis}

pub record PublisherConfigInner : Type 0 where
  pub initial_delay : Duration
  pub base_interval : Duration
  pub max_jitter : Duration
  pub fail_topic_creation_on_publishing_startup_failure : Bool

-- `PublisherConfigInner::default`
unfoldable pub default_inner : PublisherConfigInner
default_inner = record {
  initial_delay = from_secs 10;
  base_interval = from_secs 10;
  max_jitter = from_secs 50;
  fail_topic_creation_on_publishing_startup_failure = true;
}

pub record PublisherConfigBuilder : Type 0 where
  pub config : PublisherConfigInner

unfoldable pub builder : PublisherConfigBuilder
unfolding default_inner
builder = record { config = default_inner }

unfoldable pub initial_delay : Duration → PublisherConfigBuilder → PublisherConfigBuilder
initial_delay value b = record { config = record (b.config) { initial_delay = value } }

unfoldable pub base_interval : Duration → PublisherConfigBuilder → PublisherConfigBuilder
base_interval value b =
    if ltb 0 value then record { config = record (b.config) { base_interval = value } } else b

unfoldable pub max_jitter : Duration → PublisherConfigBuilder → PublisherConfigBuilder
max_jitter value b = record { config = record (b.config) { max_jitter = value } }

unfoldable pub fail_topic_creation_on_publishing_startup_failure :
    Bool → PublisherConfigBuilder → PublisherConfigBuilder
fail_topic_creation_on_publishing_startup_failure value b = record {
  config = record (b.config) { fail_topic_creation_on_publishing_startup_failure = value };
}

-- One call of a method of the builder, and a chain of them.
pub data PublisherCall : Type 0 where
  set_initial_delay : Duration → PublisherCall
  set_base_interval : Duration → PublisherCall
  set_max_jitter : Duration → PublisherCall
  set_fail_topic_creation_on_publishing_startup_failure : Bool → PublisherCall

unfoldable pub apply : PublisherCall → PublisherConfigBuilder → PublisherConfigBuilder
unfolding initial_delay base_interval max_jitter fail_topic_creation_on_publishing_startup_failure
apply (set_initial_delay value) b = initial_delay value b
apply (set_base_interval value) b = base_interval value b
apply (set_max_jitter value) b = max_jitter value b
apply (set_fail_topic_creation_on_publishing_startup_failure value) b =
    fail_topic_creation_on_publishing_startup_failure value b

unfoldable pub run : List PublisherCall → PublisherConfigBuilder → PublisherConfigBuilder
run [] b = b
run (c ∷ cs) b = run cs (apply c b)

pub data PublisherConfig : Type 0 where
  enabled : PublisherConfigInner → PublisherConfig
  disabled : PublisherConfig

-- `PublisherConfig::default`
unfoldable pub default : PublisherConfig
unfolding default_inner
default = enabled default_inner

unfoldable pub build : PublisherConfigBuilder → PublisherConfig
build b = enabled b.config
