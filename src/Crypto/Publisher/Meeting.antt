-- ===== src/Crypto/Publisher/Meeting.antt =====
-- What one node publishes another node fetches: the publication of `p`, the DHT, and
-- `get_records` of `q` together.
use distributed_topic_tracke.Prelude.{
  ℕ, zero, suc, ◌+◌, ◌^◌, ◌<◌, ◌≡◌, ◌≢◌, refl, sym, ap, subst, ◌∙◌, inl, Bool, true, false, Option,
  some, List, ◌++◌, Bytes, Mem, leb, length, replicate, i64_max, Result, ok, err, panic, Error,
  arith, ℤ, if◌then◌else◌, publish_cancelled,
}
use distributed_topic_tracke.Config.Dht.{DhtConfig}
use distributed_topic_tracke.Crypto.Primitives.{Primitives, Laws, Postcard, PostcardLaws}
use distributed_topic_tracke.Crypto.Record.{Record}
use distributed_topic_tracke.Crypto.Record.Signing.{sign-pub_key}
use distributed_topic_tracke.Crypto.Encrypted.{EncryptedRecord, Entropy, encrypt, to_bytes}
use distributed_topic_tracke.Crypto.Keys.{signing_keypair, salt}
use distributed_topic_tracke.Crypto.Dedup.Selection.{selected_complete}
use distributed_topic_tracke.Dht.{Oracle, DhtActor, MutableItem, M, continue, put_mutable}
use distributed_topic_tracke.Dht.Retry.{stored_within, tries, put_mutable_lem}
use distributed_topic_tracke.Crypto.Publisher.{
  RecordPublisher, Cut, never, before, during, Cuts, select, get_records, known_records, put_record,
  publish_record_cached_records, minute_key, new_record,
}
use distributed_topic_tracke.Crypto.Publisher.Capacity.{continue-ok, known_records-Keeps, item_for}
use distributed_topic_tracke.Crypto.Publisher.Delivery.{IsPublisher, SameTopic, accepted-published}
use distributed_topic_tracke.Crypto.Publisher.Fetch.{found_items, chosen, get_records_complete}

-- A put that is stored is one of those that are tried.
stored-tries : (o : Oracle) (k n : ℕ) → stored_within o k n ≡ true → 0 < tries o k n
unfolding stored_within tries
stored-tries o zero n h = cc
stored-tries o (suc k) n h = ground (arith, stored-tries o k (suc n))

Mem-replicate : {A : Type 0} (k : ℕ) (a : A) (xs : List A) → 0 < k → Mem a (replicate k a ++ xs)
Mem-replicate zero a xs h = let none_left : 0 < 0 = h in absurd (omega (arith, none_left))
Mem-replicate (suc k) a xs h = inl refl

-- The answer of a put that succeeded.
if_ok : (b : Bool) (e : Error) → (if b then ok (tt {0}) else err e) ≡ ok tt → b ≡ true
if_ok true e h = refl
if_ok false e h = cc

put_mutable-Mem :
    (o : Oracle) (key value : Bytes) (place : Option Bytes) (seq : ℤ) (s : DhtActor)
    → ((n : ℕ) → o.builds n ≡ true)
    → s.config.retries + 1 < 2 ^ 64
    → (put_mutable o key place value seq s).0 ≡ ok tt
    → Mem
        (record { signing_key = key; value = value; seq = seq; salt = place })
        (put_mutable o key place value seq s).1.puts
put_mutable-Mem o key value place seq s built few h =
    let (answer, puts) = put_mutable_lem o key value place seq s built few in
    let stored = if_ok _ _ (sym answer ∙ h) in
    subst (Mem _) (sym puts) (Mem-replicate _ _ s.puts (stored-tries o _ _ stored))

-- What holds after a chain that ends well, by its parts.
ok_rule :
    {A B : Type 0} (Q : DhtActor → Type 0) (m : Result A × DhtActor) (f : A → M B) {b : B}
    → ((a : A) → m.0 ≡ ok a → (f a m.1).0 ≡ ok b → Q (f a m.1).1)
    → (continue m f).0 ≡ ok b
    → Q (continue m f).1
ok_rule Q (ok a, s) f k h = k a refl h
ok_rule Q (err e, s) f k h = cc
ok_rule Q (panic, s) f k h = cc

select-eq-ok :
    {A : Type 0} (cut : Cut) (e : Error) (fut : M A) (s : DhtActor) (a : A)
    → (select cut e fut s).0 ≡ ok a
    → (select cut e fut s ≡ fut s) × ((fut s).0 ≡ ok a)
unfolding select
select-eq-ok never e fut s a h = (refl, h)
select-eq-ok before e fut s a h = cc
select-eq-ok during e fut s a h = cc

module _ ⦃P : Primitives⦄ (o : Oracle) (p : RecordPublisher) where
  -- The record stands in a list of items, sealed with the key of its minute.
  abbrev pub IsSealedIn : Record → Entropy → List MutableItem → Type 0
  IsSealedIn r entropy items =
      (e : EncryptedRecord) × (value : Bytes) × (encrypt r (minute_key p r.unix_minute) entropy
        ≡ ok e)
      × (to_bytes e ≡ ok value)
      × Mem (item_for o p r value) items

  put_record-IsSealedIn :
      (r : Record) (cuts : Cuts) (entropy : Entropy) (s : DhtActor)
      → ((n : ℕ) → o.builds n ≡ true)
      → s.config.retries + 1 < 2 ^ 64
      → (put_record o p r cuts entropy s).0 ≡ ok tt
      → IsSealedIn r entropy (put_record o p r cuts entropy s).1.puts
  unfolding put_record item_for
  put_record-IsSealedIn r cuts entropy s built few =
      let Q : DhtActor → Type 0 = λ t. IsSealedIn r entropy t.puts in
      ok_rule Q (encrypt r (minute_key p r.unix_minute) entropy, s) _
        (λ e sealed.
          ok_rule Q (to_bytes e, s) _
            (λ bytes written h.
              let key = signing_keypair p.topic_id r.unix_minute in
              let place = some (salt p.topic_id r.unix_minute) in
              let put = put_mutable o key place bytes i64_max in
              let (same, stored) = select-eq-ok cuts.outer_put publish_cancelled put s tt h in
              subst (λ (d : Result (Unit {0}) × DhtActor). Q d.1) (sym same)
                (
                  e,
                  bytes,
                  sealed,
                  written,
                  put_mutable-Mem o key bytes place i64_max s built few stored,
                )))

  -- A publication that succeeds, in a world where each client can be built: the node knows fewer
  -- records of the minute than its capacity.
  pub record IsPublished (r : Record) (cached : Option (List Record)) (cuts : Cuts)
      (entropy : Entropy) (s : DhtActor) : Type 0 where
    pub known : List Record
    pub knows : (known_records o p r cached cuts s).0 ≡ ok known
    pub room : length known < p.config.bootstrap_config.max_bootstrap_records
    pub builds : (k : ℕ) → o.builds k ≡ true
    pub few_retries : s.config.retries + 1 < 2 ^ 64
    pub done : (publish_record_cached_records o p r cached cuts entropy s).0 ≡ ok tt

  -- A publication that succeeds with room in the minute leaves the sealed record among the items
  -- that the DHT was given.
  pub publish-IsSealedIn :
      (r : Record) (cached : Option (List Record)) (cuts : Cuts) (entropy : Entropy) (s : DhtActor)
      → IsPublished r cached cuts entropy s
      → IsSealedIn r entropy (publish_record_cached_records o p r cached cuts entropy s).1.puts
  publish-IsSealedIn r cached cuts entropy s h =
      let t = (known_records o p r cached cuts s).1 in
      let (puts, config) = known_records-Keeps o p r cached cuts s in
      let test : leb p.config.bootstrap_config.max_bootstrap_records (length h.known) ≡ false =
        ground (arith, h.room) in
      let same : publish_record_cached_records o p r cached cuts entropy s
          ≡ put_record o p r cuts entropy t =
        unfold publish_record_cached_records in
        rw (continue-ok (known_records o p r cached cuts s) _ h.knows, test) refl in
      subst (λ (d : Result (Unit {0}) × DhtActor). IsSealedIn r entropy d.1.puts) (sym same)
        (put_record-IsSealedIn r cuts entropy t h.builds
          (subst (λ (c : DhtConfig). c.retries + 1 < 2 ^ 64) (sym config) h.few_retries)
          (ap (λ (d : Result (Unit {0}) × DhtActor). d.0) (sym same) ∙ h.done))

-- What a DHT that has been given some items finds for a node in a minute: a list in which each item
-- that was put under the key and the salt of that minute stands with its value.
pub record Delivers ⦃P : Primitives⦄ (o : Oracle) (q : RecordPublisher) (unix_minute : ℕ)
    (puts : List MutableItem) : Type 0 where
  pub items : List MutableItem
  pub found : found_items o q unix_minute ≡ some items
  pub has :
      (put : MutableItem)
      → Mem put puts
      → put.signing_key ≡ signing_keypair q.topic_id unix_minute
      → put.salt ≡ some (salt q.topic_id unix_minute)
      → (item : MutableItem) × Mem item items × (item.value ≡ put.value)

module _ ⦃P : Primitives⦄ {A : Type 0} (C : Postcard A) (p q : RecordPublisher) (a : A) (r : Record)
    (laws : Laws P) (codec : PostcardLaws C) (publisher : IsPublisher p) (same : SameTopic p q)
    (other : q.pub_key ≢ p.pub_key) (signed : new_record C p r.unix_minute a ≡ ok r)
    (minute : r.unix_minute < 256 ^ 8) (key_size : length (minute_key p r.unix_minute) ≡ 32) where
  -- A node that shares the topic finds the author of a sealed record that the DHT was given.
  pub fetch_sealed :
      (o world : Oracle) (entropy : Entropy) (puts : List MutableItem) (s : DhtActor)
      → length entropy.one_time_key ≡ 32
      → IsSealedIn o p r entropy puts
      → Delivers world q r.unix_minute puts
      → ((n : ℕ) → world.builds n ≡ true)
      → (records : List Record) × ((get_records world q r.unix_minute never s).0 ≡ ok records)
        × ((x : Record) × Mem x records × (x.pub_key ≡ p.pub_key))
  unfolding new_record
  fetch_sealed o world entropy puts s once (e, value, sealed, written, there) d built =
      let (item, m, same_value) =
        d.has (item_for o p r value) there
          (unfold item_for in ap (λ t. signing_keypair t r.unix_minute) same.topic)
          (unfold item_for in ap (λ t. some (salt t r.unix_minute)) same.topic) in
      let (accepts, reads) =
        accepted-published C p q r.unix_minute a r entropy e item laws codec publisher same minute
          key_size once other signed sealed
          (written ∙ ap ok (sym (same_value ∙ (unfold item_for in refl)))) in
      let ((x, n, author), distinct) =
        selected_complete (minute_key q r.unix_minute) q.topic_id.hash r.unix_minute q.pub_key
          d.items item r m accepts in
      (
        chosen world q r.unix_minute d.items,
        get_records_complete world q r.unix_minute s d.items d.found built,
        (
          x,
          (unfold chosen in n),
          author
              ∙ sign-pub_key C p.topic_id.hash r.unix_minute a p.signing_key r signed
              ∙ sym publisher.own_key,
        ),
      )
