-- ===== src/Tests/Settings.antt =====
-- Runs of src/config.rs and of the random intervals, and their theorems at concrete inputs.
use distributed_topic_tracke.Prelude.{◌≡◌, refl, List, [], ◌∷◌}
use distributed_topic_tracke.Config.{
  ConfigBuilder, ConfigCall, set_bootstrap_config, set_max_join_peer_count,
  builder as config_builder, default as config_default, build, run as config_run,
}
use distributed_topic_tracke.Config.Bootstrapping.{default as bootstrap_default}
use distributed_topic_tracke.Config.Publishing.{disabled}
use distributed_topic_tracke.Config.Build.{IsCoherent, build-run-IsCoherent}
use distributed_topic_tracke.Config.Dht.{
  set_put_timeout, set_retries, builder as dht_builder, run as dht_run,
}
use distributed_topic_tracke.Config.Dht.Chain.{IsPositive as IsPositiveDht}
use distributed_topic_tracke.Config.Bubble.{
  set_max_join_peers as set_bubble_peers, builder as bubble_builder, run as bubble_run,
}
use distributed_topic_tracke.Config.Bubble.Chain.{IsPositive as IsPositiveBubble}
use distributed_topic_tracke.Config.Overlap.{
  set_max_join_peers as set_overlap_peers, builder as overlap_builder, run as overlap_run,
}
use distributed_topic_tracke.Config.Overlap.Chain.{IsPositive as IsPositiveOverlap}
use distributed_topic_tracke.Config.Publishing.{
  set_base_interval, builder as publisher_builder, run as publisher_run,
}
use distributed_topic_tracke.Config.Publishing.Chain.{IsPositive as IsPositivePublisher}
use distributed_topic_tracke.Config.Chains.{chains-IsPositive}

chains-IsPositive_example :
    IsPositiveDht (dht_run (set_put_timeout 0 ∷ set_retries 0 ∷ []) dht_builder).config
    × IsPositiveBubble (bubble_run (set_bubble_peers 0 ∷ []) bubble_builder).config
    × IsPositiveOverlap (overlap_run (set_overlap_peers 0 ∷ []) overlap_builder).config
    × IsPositivePublisher (publisher_run (set_base_interval 0 ∷ []) publisher_builder).config
chains-IsPositive_example =
    chains-IsPositive (set_put_timeout 0 ∷ set_retries 0 ∷ []) (set_bubble_peers 0 ∷ [])
      (set_overlap_peers 0 ∷ []) (set_base_interval 0 ∷ [])

-- A bootstrap without room for records, and no peers to join.
abbrev no_room : List ConfigCall
no_room =
    set_bootstrap_config (record bootstrap_default { max_bootstrap_records = 0 })
    ∷ set_max_join_peer_count 0
    ∷ []

build-no_room : (build (config_run no_room config_builder)).publisher_config ≡ disabled
unfolding build config_run distributed_topic_tracke.Config.apply config_builder
    distributed_topic_tracke.Config.Publishing.default
build-no_room = refl

build-run-IsCoherent_example : IsCoherent (build (config_run no_room config_builder))
build-run-IsCoherent_example = build-run-IsCoherent no_room
