-- ===== src/Gossip/Topic/Subscribing.antt =====
-- `AutoDiscoveryGossip` of src/gossip/mod.rs for iroh-gossip: the two ways to subscribe.
use distributed_topic_tracke.Prelude.{true, false, Option, Result}
use distributed_topic_tracke.Crypto.Publisher.{RecordPublisher}
use distributed_topic_tracke.Gossip.Topic.Lifetime.{Topic, Creation, new}

-- `subscribe_and_join_with_auto_discovery`
unfoldable pub subscribe_and_join_with_auto_discovery :
    RecordPublisher → Creation → Result (Unit {0}) × Option Topic
subscribe_and_join_with_auto_discovery record_publisher m = new record_publisher false m

-- `subscribe_and_join_with_auto_discovery_no_wait`
unfoldable pub subscribe_and_join_with_auto_discovery_no_wait :
    RecordPublisher → Creation → Result (Unit {0}) × Option Topic
subscribe_and_join_with_auto_discovery_no_wait record_publisher m = new record_publisher true m
