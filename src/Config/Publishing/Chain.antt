-- ===== src/Config/Publishing/Chain.antt =====
-- Chains of calls of the builder keep the settings that must not be zero positive.
use distributed_topic_tracke.Prelude.{◌<◌, List, [], ◌∷◌, arith}
use distributed_topic_tracke.Config.Publishing.{
  PublisherConfigInner, PublisherConfigBuilder, PublisherCall, set_initial_delay, set_base_interval,
  set_max_jitter, set_fail_topic_creation_on_publishing_startup_failure, builder, apply, run,
}

pub record IsPositive (c : PublisherConfigInner) : Type 0 where
  pub base_interval : 0 < c.base_interval

apply-IsPositive :
    (c : PublisherCall) (b : PublisherConfigBuilder)
    → IsPositive b.config
    → IsPositive (apply c b).config
unfolding apply
apply-IsPositive (set_initial_delay value) b h = record { base_interval = h.base_interval }
apply-IsPositive (set_base_interval value) b h = ground arith
apply-IsPositive (set_max_jitter value) b h = record { base_interval = h.base_interval }
apply-IsPositive (set_fail_topic_creation_on_publishing_startup_failure value) b h = record {
  base_interval = h.base_interval;
}

run-IsPositive :
    (cs : List PublisherCall) (b : PublisherConfigBuilder)
    → IsPositive b.config
    → IsPositive (run cs b).config
unfolding run
run-IsPositive [] b h = h
run-IsPositive (c ∷ cs) b h = run-IsPositive cs (apply c b) (apply-IsPositive c b h)

-- Whatever methods of the builder are called, in whatever order and with whatever values, zeros
-- included, the base interval of the publisher is above zero.
pub publisher_chain-IsPositive : (cs : List PublisherCall) → IsPositive (run cs builder).config
publisher_chain-IsPositive cs = run-IsPositive cs builder (unfold builder in omega arith)
