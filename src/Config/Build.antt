-- ===== src/Config/Build.antt =====
-- `ConfigBuilder::build` and chains of calls of the top-level builder.
use distributed_topic_tracke.Prelude.{
  ◌<◌, ◌≡◌, ◌⊎◌, false, List, [], ◌∷◌, arith, ◌==◌, if◌then◌else◌,
}
use distributed_topic_tracke.Config.{
  Config, ConfigBuilder, ConfigCall, set_bootstrap_config, set_publisher_config, set_dht_config,
  set_merge_config, set_max_join_peer_count, set_timeouts, builder, apply, run, build,
  publisher_is_enabled,
}
use distributed_topic_tracke.Config.Publishing.{disabled}

-- A configuration that can publish has room for a record, and its maximum of peers to join is not
-- zero.
pub record IsCoherent (c : Config) : Type 0 where
  pub room :
      (publisher_is_enabled c.publisher_config ≡ false)
      ⊎ (0 < c.bootstrap_config.max_bootstrap_records)
  pub peers : 0 < c.max_join_peer_count

apply-peers :
    (c : ConfigCall) (b : ConfigBuilder)
    → 0 < b.config.max_join_peer_count
    → 0 < (apply c b).config.max_join_peer_count
unfolding apply
apply-peers (set_bootstrap_config value) b h = h
apply-peers (set_publisher_config value) b h = h
apply-peers (set_dht_config value) b h = h
apply-peers (set_merge_config value) b h = h
apply-peers (set_max_join_peer_count value) b h = ground arith
apply-peers (set_timeouts value) b h = h

run-peers :
    (cs : List ConfigCall) (b : ConfigBuilder)
    → 0 < b.config.max_join_peer_count
    → 0 < (run cs b).config.max_join_peer_count
unfolding run
run-peers [] b h = h
run-peers (c ∷ cs) b h = run-peers cs (apply c b) (apply-peers c b h)

-- `build` disables the publisher exactly where it was enabled with no room for a record, and keeps
-- all other settings as they were.
pub build_lem :
    (b : ConfigBuilder)
    → ((build b).publisher_config ≡ (
        if b.config.bootstrap_config.max_bootstrap_records == 0
        then disabled
        else b.config.publisher_config))
      × ((build b).bootstrap_config ≡ b.config.bootstrap_config)
      × ((build b).dht_config ≡ b.config.dht_config)
      × ((build b).merge_config ≡ b.config.merge_config)
      × ((build b).max_join_peer_count ≡ b.config.max_join_peer_count)
      × ((build b).timeouts ≡ b.config.timeouts)
unfolding build
build_lem b = ground arith

build-IsCoherent : (b : ConfigBuilder) → 0 < b.config.max_join_peer_count → IsCoherent (build b)
unfolding build
build-IsCoherent b h = ground arith

-- Whatever methods of the builder are called, in whatever order and with whatever values, what
-- `build` returns has a positive `max_bootstrap_records` if its publisher is enabled, and its
-- `max_join_peer_count` is positive.
pub build-run-IsCoherent : (cs : List ConfigCall) → IsCoherent (build (run cs builder))
build-run-IsCoherent cs =
    build-IsCoherent (run cs builder) (run-peers cs builder (unfold builder in omega arith))
