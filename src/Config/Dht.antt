-- ===== src/Config/Dht.antt =====
-- src/config.rs: `DhtConfig` and its builder.
pub mod Chain
use distributed_topic_tracke.Prelude.{ℕ, ◌*◌, Bool, true, false, List, [], ◌∷◌, ltb, if◌then◌else◌}
use distributed_topic_tracke.Config.Duration.{Duration, from_secs, from_millis}

pub record DhtConfig : Type 0 where
  pub retries : ℕ
  pub base_retry_interval : Duration
  pub max_retry_jitter : Duration
  pub put_timeout : Duration
  pub get_timeout : Duration

-- `DhtConfig::default`
unfoldable pub default : DhtConfig
default = record {
  retries = 3;
  base_retry_interval = from_secs 5;
  max_retry_jitter = from_secs 10;
  put_timeout = from_secs 10;
  get_timeout = from_secs 10;
}

pub record DhtConfigBuilder : Type 0 where
  pub config : DhtConfig

unfoldable pub builder : DhtConfigBuilder
unfolding default
builder = record { config = default }

unfoldable pub retries : ℕ → DhtConfigBuilder → DhtConfigBuilder
retries value b = record { config = record (b.config) { retries = value } }

unfoldable pub base_retry_interval : Duration → DhtConfigBuilder → DhtConfigBuilder
base_retry_interval value b =
    if ltb 0 value then record { config = record (b.config) { base_retry_interval = value } } else b

unfoldable pub max_retry_jitter : Duration → DhtConfigBuilder → DhtConfigBuilder
max_retry_jitter value b = record { config = record (b.config) { max_retry_jitter = value } }

unfoldable pub put_timeout : Duration → DhtConfigBuilder → DhtConfigBuilder
put_timeout value b =
    if ltb 0 value then record { config = record (b.config) { put_timeout = value } } else b

unfoldable pub get_timeout : Duration → DhtConfigBuilder → DhtConfigBuilder
get_timeout value b =
    if ltb 0 value then record { config = record (b.config) { get_timeout = value } } else b

-- One call of a method of the builder, and a chain of them.
pub data DhtCall : Type 0 where
  set_retries : ℕ → DhtCall
  set_base_retry_interval : Duration → DhtCall
  set_max_retry_jitter : Duration → DhtCall
  set_put_timeout : Duration → DhtCall
  set_get_timeout : Duration → DhtCall

unfoldable pub apply : DhtCall → DhtConfigBuilder → DhtConfigBuilder
unfolding retries base_retry_interval max_retry_jitter put_timeout get_timeout
apply (set_retries value) b = retries value b
apply (set_base_retry_interval value) b = base_retry_interval value b
apply (set_max_retry_jitter value) b = max_retry_jitter value b
apply (set_put_timeout value) b = put_timeout value b
apply (set_get_timeout value) b = get_timeout value b

unfoldable pub run : List DhtCall → DhtConfigBuilder → DhtConfigBuilder
run [] b = b
run (c ∷ cs) b = run cs (apply c b)
