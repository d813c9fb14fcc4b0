-- ===== src/Gossip/Bootstrap/Meeting.antt =====
-- Two nodes of a topic find each other: the bootstrap of `p`, the publication that it starts, the
-- DHT, and the bootstrap of `q` together.
use distributed_topic_tracke.Prelude.{
  ℕ, ◌^◌, ◌<◌, ◌≡◌, ◌≢◌, sym, ap, subst, ◌∙◌, Bool, true, List, [], ◌∷◌, Bytes, Mem, All, All-Mem,
  length, Result, ok, unwrap_or,
}
use distributed_topic_tracke.Crypto.Primitives.{Primitives, Laws, Postcard, PostcardLaws}
use distributed_topic_tracke.Crypto.Record.{Record}
use distributed_topic_tracke.Crypto.Record.Signing.{sign-unix_minute}
use distributed_topic_tracke.Crypto.Encrypted.{Entropy}
use distributed_topic_tracke.Crypto.Publisher.{
  never, Cuts, get_records, publish_record_cached_records, minute_key, new_record,
}
use distributed_topic_tracke.Crypto.Publisher.Delivery.{IsPublisher, SameTopic}
use distributed_topic_tracke.Crypto.Publisher.Meeting.{
  IsPublished, publish-IsSealedIn, Delivers, fetch_sealed,
}
use distributed_topic_tracke.Dht.{Oracle, DhtActor}
use distributed_topic_tracke.Gossip.Content.{GossipRecordContent}
use distributed_topic_tracke.Gossip.Sender.{joining}
use distributed_topic_tracke.Gossip.Rounds.{BootstrapActor, Publication, Loop, Round, Fetch}
use distributed_topic_tracke.Gossip.Bootstrap.{start, run, round, fetch, empty_content}
use distributed_topic_tracke.Gossip.Bootstrap.Trace.{IsOrderly}
use distributed_topic_tracke.Gossip.Bootstrap.Publishing.{AnnouncesOwn, run-AnnouncesOwn}
use distributed_topic_tracke.Gossip.Bootstrap.Asked.{IsSearching, Looks, round-asked}

module _ ⦃P : Primitives⦄ (C : Postcard GossipRecordContent) (is_endpoint : Bytes → Bool)
    (p q : BootstrapActor) where
  -- What a fetch of the second node returns.
  fetch-Mem :
      (f : Fetch) (m : ℕ) (records : List Record) (x : Record)
      → f.cut ≡ never
      → (get_records f.world q.record_publisher m never f.actor).0 ≡ ok records
      → Mem x records
      → Mem x (fetch C is_endpoint q f m)
  unfolding fetch
  fetch-Mem f m records x uncut got there =
      subst (λ (d : Result (List Record)). Mem x (unwrap_or d []))
        (sym (ap (λ c. (get_records f.world q.record_publisher m c f.actor).0) uncut ∙ got)) there

  -- Let the bootstrap of one node start a publication, whose task succeeds with room in the minute,
  -- and let a DHT that has been given its items deliver them to another node of the same topic,
  -- secret and rotation, in an uncut fetch for that minute by a round of its bootstrap. If nothing
  -- ends that round before it has asked all the peers that it knows, it asks the first node to join.
  -- Here the first node's key is a valid one that is not the second node's, and the minute, its key
  -- and the one-time key are of the right sizes.
  pub bootstraps_meet :
      (now : ℕ) (rs : List Round) (n : Publication) (o : Oracle) (cuts : Cuts) (entropy : Entropy)
      (s : DhtActor) (r : Round) (t : Loop) (f : Fetch)
      → Laws P
      → PostcardLaws C
      → IsPublisher p.record_publisher
      → SameTopic p.record_publisher q.record_publisher
      → q.record_publisher.pub_key ≢ p.record_publisher.pub_key
      → is_endpoint p.record_publisher.pub_key ≡ true
      → n.announced.unix_minute < 256 ^ 8
      → length (minute_key p.record_publisher n.announced.unix_minute) ≡ 32
      → length entropy.one_time_key ≡ 32
      → All IsOrderly rs
      → Mem n (run C is_endpoint p rs (start C is_endpoint p now)).publications
      → IsPublished o p.record_publisher n.announced n.cached_records cuts entropy s
      → Looks C is_endpoint q r t f n.announced.unix_minute
      → f.cut ≡ never
      → ((k : ℕ) → f.world.builds k ≡ true)
      → Delivers f.world q.record_publisher n.announced.unix_minute
          (publish_record_cached_records o p.record_publisher n.announced n.cached_records cuts
            entropy s).1.puts
      → IsSearching C is_endpoint q r
      → Mem (joining (p.record_publisher.pub_key ∷ [])) (round C is_endpoint q r t).joins
  unfolding new_record
  bootstraps_meet now rs n o cuts entropy s r t f laws codec publisher same other valid minute
        key_size once ordered announced published looks uncut builds delivered searching =
      let a = n.announced in
      let (m, own) =
        All-Mem (AnnouncesOwn C is_endpoint p) _ (run-AnnouncesOwn C is_endpoint p now rs ordered)
          announced in
      let at_m : a.unix_minute ≡ m = sign-unix_minute C _ m empty_content _ a own in
      let signed : new_record C p.record_publisher a.unix_minute empty_content ≡ ok a =
        subst (λ k. new_record C p.record_publisher k empty_content ≡ ok a) (sym at_m) own in
      let sealed =
        publish-IsSealedIn o p.record_publisher a n.cached_records cuts entropy s published in
      let (records, got, (x, there, author)) =
        fetch_sealed C p.record_publisher q.record_publisher empty_content a laws codec publisher
          same other signed minute key_size o f.world entropy _ f.actor once sealed delivered
          builds in
      subst (λ k. Mem (joining (k ∷ [])) (round C is_endpoint q r t).joins) author
        (round-asked C is_endpoint q r t f a.unix_minute x searching looks
          (fetch-Mem f a.unix_minute records x uncut got there)
          (subst (λ k. is_endpoint k ≡ true) (sym author) valid))
