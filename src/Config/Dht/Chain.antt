-- ===== src/Config/Dht/Chain.antt =====
-- Chains of calls of the builder keep the settings that must not be zero positive.
use distributed_topic_tracke.Prelude.{◌<◌, List, [], ◌∷◌, arith}
use distributed_topic_tracke.Config.Dht.{
  DhtConfig, DhtConfigBuilder, DhtCall, set_retries, set_base_retry_interval, set_max_retry_jitter,
  set_put_timeout, set_get_timeout, builder, apply, run,
}

pub record IsPositive (c : DhtConfig) : Type 0 where
  pub base_retry_interval : 0 < c.base_retry_interval
  pub put_timeout : 0 < c.put_timeout
  pub get_timeout : 0 < c.get_timeout

apply-IsPositive :
    (c : DhtCall) (b : DhtConfigBuilder) → IsPositive b.config → IsPositive (apply c b).config
unfolding apply
apply-IsPositive (set_retries value) b h = record {
  base_retry_interval = h.base_retry_interval;
  put_timeout = h.put_timeout;
  get_timeout = h.get_timeout;
}
apply-IsPositive (set_base_retry_interval value) b h = ground arith
apply-IsPositive (set_max_retry_jitter value) b h = record {
  base_retry_interval = h.base_retry_interval;
  put_timeout = h.put_timeout;
  get_timeout = h.get_timeout;
}
apply-IsPositive (set_put_timeout value) b h = ground arith
apply-IsPositive (set_get_timeout value) b h = ground arith

run-IsPositive :
    (cs : List DhtCall) (b : DhtConfigBuilder) → IsPositive b.config → IsPositive (run cs b).config
unfolding run
run-IsPositive [] b h = h
run-IsPositive (c ∷ cs) b h = run-IsPositive cs (apply c b) (apply-IsPositive c b h)

-- Whatever methods of the builder are called, in whatever order and with whatever values, zeros
-- included, the retry interval and both timeouts of the DHT settings are above zero.
pub dht_chain-IsPositive : (cs : List DhtCall) → IsPositive (run cs builder).config
dht_chain-IsPositive cs = run-IsPositive cs builder (unfold builder in omega arith)
