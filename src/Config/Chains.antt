-- ===== src/Config/Chains.antt =====
-- What chains of calls of the builders keep, for the parts of a configuration together.
use distributed_topic_tracke.Prelude.{List}
use distributed_topic_tracke.Config.Dht.{DhtCall, builder as dht_builder, run as dht_run}
use distributed_topic_tracke.Config.Dht.Chain.{IsPositive as IsPositiveDht, dht_chain-IsPositive}
use distributed_topic_tracke.Config.Bubble.{
  BubbleCall, builder as bubble_builder, run as bubble_run,
}
use distributed_topic_tracke.Config.Bubble.Chain.{
  IsPositive as IsPositiveBubble, bubble_chain-IsPositive,
}
use distributed_topic_tracke.Config.Overlap.{
  OverlapCall, builder as overlap_builder, run as overlap_run,
}
use distributed_topic_tracke.Config.Overlap.Chain.{
  IsPositive as IsPositiveOverlap, overlap_chain-IsPositive,
}
use distributed_topic_tracke.Config.Publishing.{
  PublisherCall, builder as publisher_builder, run as publisher_run,
}
use distributed_topic_tracke.Config.Publishing.Chain.{
  IsPositive as IsPositivePublisher, publisher_chain-IsPositive,
}

-- Whatever methods of the four builders are called, in whatever order and with whatever values, zeros
-- included: the retry interval and both timeouts of the DHT settings, the base interval and the
-- number of peers to join of both mergers, and the base interval of the publisher are above zero.
pub chains-IsPositive :
    (dht : List DhtCall) (bubble : List BubbleCall) (overlap : List OverlapCall)
    (publisher : List PublisherCall)
    → IsPositiveDht (dht_run dht dht_builder).config
      × IsPositiveBubble (bubble_run bubble bubble_builder).config
      × IsPositiveOverlap (overlap_run overlap overlap_builder).config
      × IsPositivePublisher (publisher_run publisher publisher_builder).config
chains-IsPositive dht bubble overlap publisher = (
  dht_chain-IsPositive dht,
  bubble_chain-IsPositive bubble,
  overlap_chain-IsPositive overlap,
  publisher_chain-IsPositive publisher,
)
