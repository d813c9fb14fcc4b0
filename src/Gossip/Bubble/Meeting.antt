-- ===== src/Gossip/Bubble/Meeting.antt =====
-- A small group finds a node that publishes: the periodic publication of `p`, the DHT, and the bubble
-- merge of `q` together.
use distributed_topic_tracke.Prelude.{
  ℕ, ◌^◌, ◌<◌, ◌≡◌, ◌≢◌, refl, sym, ap, subst, ◌∙◌, ◌⊎◌, inl, inr, Bool, true, some, none, List,
  ◌∷◌, [], ◌++◌, Bytes, Mem, Mem-append_left, Mem-append_right, length, Result, ok, ok-eq,
}
use distributed_topic_tracke.Crypto.Primitives.{Primitives, Laws, Postcard, PostcardLaws}
use distributed_topic_tracke.Crypto.Record.{Record}
use distributed_topic_tracke.Crypto.Record.Signing.{sign-unix_minute}
use distributed_topic_tracke.Crypto.Encrypted.{Entropy}
use distributed_topic_tracke.Crypto.Publisher.{
  RecordPublisher, never, Cuts, get_records, publish_record, publish_record_cached_records,
  minute_key, new_record,
}
use distributed_topic_tracke.Crypto.Publisher.Delivery.{IsPublisher, SameTopic}
use distributed_topic_tracke.Crypto.Publisher.Meeting.{
  IsPublished, publish-IsSealedIn, Delivers, fetch_sealed,
}
use distributed_topic_tracke.Dht.{Oracle, DhtActor}
use distributed_topic_tracke.Gossip.Content.{GossipRecordContent, record_content, publish}
use distributed_topic_tracke.Gossip.Merge.{previous_minute}
use distributed_topic_tracke.Gossip.Merge.Joining.{two_minutes-ok}
use distributed_topic_tracke.Gossip.Sender.{Outcome, joining, chosen_peers}
use distributed_topic_tracke.Gossip.Bubble.{merge}
use distributed_topic_tracke.Gossip.Bubble.Peers.{IsStranger, bubble_merge_complete}

-- Both fetches of a merge get an answer.
pub record AreFetched ⦃P : Primitives⦄ (o : Oracle) (q : RecordPublisher) (now : ℕ) (s : DhtActor)
    : Type 0 where
  pub older : List Record
  pub newer : List Record
  pub before : (get_records o q (previous_minute now) never s).0 ≡ ok older
  pub current :
      (get_records o q now never (get_records o q (previous_minute now) never s).1).0 ≡ ok newer

module _ ⦃P : Primitives⦄ (C : Postcard GossipRecordContent) where
  -- A publication whose record can be made is that of the record.
  pub publish-record :
      (o : Oracle) (p : RecordPublisher) (unix_minute : ℕ) (active hashes : List Bytes)
      (cuts : Cuts) (entropy : Entropy) (s : DhtActor) (r : Record)
      → new_record C p unix_minute (record_content active hashes) ≡ ok r
      → publish o C p unix_minute (ok active) (ok hashes) cuts entropy s
        ≡ publish_record_cached_records o p r none cuts entropy s
  unfolding publish publish_record
  publish-record o p unix_minute active hashes cuts entropy s r e = rw e refl

module _ ⦃P : Primitives⦄ (q : RecordPublisher) (key : Bytes) (world : Oracle) where
  -- A record by the holder of the key is among some.
  abbrev Holds : List Record → Type 0
  Holds records = (x : Record) × Mem x records × (x.pub_key ≡ key)

  abbrev Finds : ℕ → DhtActor → Type 0
  Finds m s =
      (records : List Record) × ((get_records world q m never s).0 ≡ ok records) × Holds records

  found :
      (m n : ℕ) (s : DhtActor) (records : List Record)
      → m ≡ n
      → (get_records world q n never s).0 ≡ ok records
      → Finds m s
      → Holds records
  found m n s records e got (others, got', (x, there, author)) =
      let same : others ≡ records =
        ok-eq _ _ (sym got' ∙ ap (λ k. (get_records world q k never s).0) e ∙ got) in
      (x, subst (Mem x) same there, author)

  -- The fetch of a minute is one of both fetches.
  both-Holds :
      (m now : ℕ) (t : DhtActor) (f : AreFetched world q now t)
      → (m ≡ previous_minute now) ⊎ (m ≡ now)
      → ((s : DhtActor) → Finds m s)
      → Holds (f.older ++ f.newer)
  both-Holds m now t f (inl e) finds =
      let (x, there, author) = found m (previous_minute now) t f.older e f.before (finds t) in
      (x, Mem-append_left x f.older f.newer there, author)
  both-Holds m now t f (inr e) finds =
      let s = (get_records world q (previous_minute now) never t).1 in
      let (x, there, author) = found m now s f.newer e f.current (finds s) in
      (x, Mem-append_right x f.older f.newer there, author)

module _ ⦃P : Primitives⦄ (C : Postcard GossipRecordContent) (is_endpoint : Bytes → Bool)
    (p q : RecordPublisher) where
  -- Let the periodic publisher of one node publish its content, with success and with room in the
  -- minute, and let a DHT that has been given its items deliver them to another node of the same
  -- topic, secret and rotation. If that node has fewer neighbours than the minimum, its bubble merge
  -- in the same minute or in the next one, with both fetches answered, sends one request to join, for
  -- a choice among keys that include the first node's. Here the first node's key is a valid one,
  -- neither the second node's nor one of its neighbours', and the minute, its key and the one-time
  -- key are of the right sizes.
  pub bubble_finds_publisher :
      (m : ℕ) (active hashes : List Bytes) (r : Record) (o : Oracle) (cuts : Cuts)
      (entropy : Entropy) (s : DhtActor) (world : Oracle) (now : ℕ) (t : DhtActor)
      (max_join_peers min_neighbors : ℕ) (neighbors : List Bytes)
      (shuffle : List Bytes → List Bytes) (outcome : Outcome)
      → Laws P
      → PostcardLaws C
      → IsPublisher p
      → SameTopic p q
      → m < 256 ^ 8
      → length (minute_key p m) ≡ 32
      → length entropy.one_time_key ≡ 32
      → new_record C p m (record_content active hashes) ≡ ok r
      → IsPublished o p r none cuts entropy s
      → Delivers world q m (publish o C p m (ok active) (ok hashes) cuts entropy s).1.puts
      → ((k : ℕ) → world.builds k ≡ true)
      → (m ≡ previous_minute now) ⊎ (m ≡ now)
      → AreFetched world q now t
      → length neighbors < min_neighbors
      → IsStranger is_endpoint q.pub_key neighbors p.pub_key
      → (keys : List Bytes) × Mem p.pub_key keys
        × ((merge world q C is_endpoint max_join_peers min_neighbors now never never
              (ok neighbors)
              shuffle
              outcome
              t).0.0
            ≡ joining (chosen_peers shuffle keys (some max_join_peers)) ∷ [])
  unfolding new_record
  bubble_finds_publisher m active hashes r o cuts entropy s world now t max_join_peers min_neighbors
        neighbors shuffle outcome laws codec publisher same minute key_size once signed published
        delivered builds when fetched few stranger =
      let content = record_content active hashes in
      let at_m : r.unix_minute ≡ m = sign-unix_minute C _ m content _ r signed in
      let sealed = publish-IsSealedIn o p r none cuts entropy s published in
      let puts = (publish_record_cached_records o p r none cuts entropy s).1.puts in
      let there : Delivers world q m puts =
        subst (λ (d : Result (Unit {0}) × DhtActor). Delivers world q m d.1.puts)
          (publish-record C o p m active hashes cuts entropy s r signed) delivered in
      let other : q.pub_key ≢ p.pub_key = λ e. stranger.other (sym e) in
      let finds : (u : DhtActor) → Finds q p.pub_key world m u = λ u.
        subst (λ k. Finds q p.pub_key world k u) at_m
          (fetch_sealed C p q content r laws codec publisher same other
            (subst (λ k. new_record C p k content ≡ ok r) (sym at_m) signed)
            (subst (λ k. k < 256 ^ 8) (sym at_m) minute)
            (subst (λ k. length (minute_key p k) ≡ 32) (sym at_m) key_size) o world entropy puts u
            once sealed (subst (λ k. Delivers world q k puts) (sym at_m) there) builds) in
      let (x, among, author) = both-Holds q p.pub_key world m now t fetched when finds in
      let (keys, asked, sent) =
        bubble_merge_complete world q C is_endpoint max_join_peers min_neighbors now never never
          (ok neighbors) shuffle outcome t (fetched.older ++ fetched.newer) neighbors x
          (two_minutes-ok world q now never never t fetched.older fetched.newer fetched.before
            fetched.current)
          refl few among
          (subst (IsStranger is_endpoint q.pub_key neighbors) (sym author) stranger) in
      (keys, subst (λ k. Mem k keys) author asked, sent)
