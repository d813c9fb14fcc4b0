-- ===== src/Config/Overlap/Chain.antt =====
-- Chains of calls of the builder keep the settings that must not be zero positive.
use distributed_topic_tracke.Prelude.{◌<◌, List, [], ◌∷◌, arith}
use distributed_topic_tracke.Config.Overlap.{
  MessageOverlapMergeConfigInner, MessageOverlapMergeConfigBuilder, OverlapCall,
  set_initial_interval, set_base_interval, set_max_jitter,
  set_fail_topic_creation_on_merge_startup_failure, set_max_join_peers, builder, apply, run,
}

pub record IsPositive (c : MessageOverlapMergeConfigInner) : Type 0 where
  pub base_interval : 0 < c.base_interval
  pub max_join_peers : 0 < c.max_join_peers

apply-IsPositive :
    (c : OverlapCall) (b : MessageOverlapMergeConfigBuilder)
    → IsPositive b.config
    → IsPositive (apply c b).config
unfolding apply
apply-IsPositive (set_initial_interval value) b h = record {
  base_interval = h.base_interval;
  max_join_peers = h.max_join_peers;
}
apply-IsPositive (set_base_interval value) b h = ground arith
apply-IsPositive (set_max_jitter value) b h = record {
  base_interval = h.base_interval;
  max_join_peers = h.max_join_peers;
}
apply-IsPositive (set_fail_topic_creation_on_merge_startup_failure value) b h = record {
  base_interval = h.base_interval;
  max_join_peers = h.max_join_peers;
}
apply-IsPositive (set_max_join_peers value) b h = ground arith

run-IsPositive :
    (cs : List OverlapCall) (b : MessageOverlapMergeConfigBuilder)
    → IsPositive b.config
    → IsPositive (run cs b).config
unfolding run
run-IsPositive [] b h = h
run-IsPositive (c ∷ cs) b h = run-IsPositive cs (apply c b) (apply-IsPositive c b h)

-- Whatever methods of the builder are called, in whatever order and with whatever values, zeros
-- included, the base interval and the number of peers to join of an overlap merge are above zero.
pub overlap_chain-IsPositive : (cs : List OverlapCall) → IsPositive (run cs builder).config
overlap_chain-IsPositive cs = run-IsPositive cs builder (unfold builder in omega arith)
