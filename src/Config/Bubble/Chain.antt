-- ===== src/Config/Bubble/Chain.antt =====
-- Chains of calls of the builder keep the settings that must not be zero positive.
use distributed_topic_tracke.Prelude.{◌<◌, List, [], ◌∷◌, arith}
use distributed_topic_tracke.Config.Bubble.{
  BubbleMergeConfigInner, BubbleMergeConfigBuilder, BubbleCall, set_initial_interval,
  set_base_interval, set_max_jitter, set_min_neighbors,
  set_fail_topic_creation_on_merge_startup_failure, set_max_join_peers, builder, apply, run,
}

pub record IsPositive (c : BubbleMergeConfigInner) : Type 0 where
  pub base_interval : 0 < c.base_interval
  pub max_join_peers : 0 < c.max_join_peers

apply-IsPositive :
    (c : BubbleCall) (b : BubbleMergeConfigBuilder)
    → IsPositive b.config
    → IsPositive (apply c b).config
unfolding apply
apply-IsPositive (set_initial_interval value) b h = record {
  base_interval = h.base_interval;
  max_join_peers = h.max_join_peers;
}
apply-IsPositive (set_base_interval value) b h = ground arith
apply-IsPositive (set_max_jitter value) b h = record {
  base_interval = h.base_interval;
  max_join_peers = h.max_join_peers;
}
apply-IsPositive (set_min_neighbors value) b h = record {
  base_interval = h.base_interval;
  max_join_peers = h.max_join_peers;
}
apply-IsPositive (set_fail_topic_creation_on_merge_startup_failure value) b h = record {
  base_interval = h.base_interval;
  max_join_peers = h.max_join_peers;
}
apply-IsPositive (set_max_join_peers value) b h = ground arith

run-IsPositive :
    (cs : List BubbleCall) (b : BubbleMergeConfigBuilder)
    → IsPositive b.config
    → IsPositive (run cs b).config
unfolding run
run-IsPositive [] b h = h
run-IsPositive (c ∷ cs) b h = run-IsPositive cs (apply c b) (apply-IsPositive c b h)

-- Whatever methods of the builder are called, in whatever order and with whatever values, zeros
-- included, the base interval and the number of peers to join of a bubble merge are above zero.
pub bubble_chain-IsPositive : (cs : List BubbleCall) → IsPositive (run cs builder).config
bubble_chain-IsPositive cs = run-IsPositive cs builder (unfold builder in omega arith)
