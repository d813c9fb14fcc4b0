-- ===== src/Config/Merge.antt =====
-- src/config.rs: `MergeConfig` and its builder.
use distributed_topic_tracke.Prelude.{List, [], ◌∷◌}
use distributed_topic_tracke.Config.Bubble.{BubbleMergeConfig, default as bubble_default}
use distributed_topic_tracke.Config.Overlap.{MessageOverlapMergeConfig, default as overlap_default}

pub record MergeConfig : Type 0 where
  pub bubble_merge : BubbleMergeConfig
  pub message_overlap_merge : MessageOverlapMergeConfig

-- `MergeConfig::default`
unfoldable pub default : MergeConfig
default = record { bubble_merge = bubble_default; message_overlap_merge = overlap_default }

pub record MergeConfigBuilder : Type 0 where
  pub config : MergeConfig

unfoldable pub builder : MergeConfigBuilder
unfolding default
builder = record { config = default }

unfoldable pub bubble_merge : BubbleMergeConfig → MergeConfigBuilder → MergeConfigBuilder
bubble_merge value b = record { config = record (b.config) { bubble_merge = value } }

unfoldable pub message_overlap_merge :
    MessageOverlapMergeConfig → MergeConfigBuilder → MergeConfigBuilder
message_overlap_merge value b = record {
  config = record (b.config) { message_overlap_merge = value };
}

-- One call of a method of the builder, and a chain of them.
pub data MergeCall : Type 0 where
  set_bubble_merge : BubbleMergeConfig → MergeCall
  set_message_overlap_merge : MessageOverlapMergeConfig → MergeCall

unfoldable pub apply : MergeCall → MergeConfigBuilder → MergeConfigBuilder
unfolding bubble_merge message_overlap_merge
apply (set_bubble_merge value) b = bubble_merge value b
apply (set_message_overlap_merge value) b = message_overlap_merge value b

unfoldable pub run : List MergeCall → MergeConfigBuilder → MergeConfigBuilder
run [] b = b
run (c ∷ cs) b = run cs (apply c b)
