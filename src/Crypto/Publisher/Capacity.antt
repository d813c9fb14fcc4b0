-- ===== src/Crypto/Publisher/Capacity.antt =====
-- What a publication puts on the DHT, and that it respects the capacity of a minute.
use distributed_topic_tracke.Prelude.{
  ℕ, ◌+◌, ◌≤◌, ◌<◌, ◌≡◌, refl, ap, subst, ◌∙◌, ◌⊎◌, inl, inr, Bool-cases, true, Option, some, none,
  List, [], ◌++◌, Bytes, leb, length, replicate, i64_max, Result, ok, err, panic, Error, arith,
  publish_cancelled, get_records_cancelled,
}
use distributed_topic_tracke.Crypto.Primitives.{Primitives}
use distributed_topic_tracke.Crypto.Record.{Record}
use distributed_topic_tracke.Crypto.Encrypted.{Entropy, encrypt, to_bytes}
use distributed_topic_tracke.Crypto.Keys.{signing_keypair, salt}
use distributed_topic_tracke.Dht.{Oracle, DhtActor, MutableItem, M, continue, get}
use distributed_topic_tracke.Dht.Log.{put_mutable_puts}
use distributed_topic_tracke.Crypto.Publisher.{
  RecordPublisher, Cut, never, before, during, Cuts, select, get_records, known_records, put_record,
  publish_record_cached_records, minute_key,
}

-- A later state of the actor with the same log of puts and the same settings.
abbrev pub Keeps : DhtActor → DhtActor → Type 0
Keeps s t = (t.puts ≡ s.puts) × (t.config ≡ s.config)

get-Keeps :
    (o : Oracle) (key : Bytes) (salt : Option Bytes) (s : DhtActor)
    → Keeps s (get o key salt none s).1
unfolding get
get-Keeps o key salt s = ground arith

-- What holds of the state after a chain, by its parts.
pub bind_rule :
    {A B : Type 0} (Q : DhtActor → Type 0) (m : Result A × DhtActor) (f : A → M B)
    → Q m.1
    → ((a : A) → m.0 ≡ ok a → Q (f a m.1).1)
    → Q (continue m f).1
bind_rule Q (ok a, s) f h k = k a refl
bind_rule Q (err e, s) f h k = h
bind_rule Q (panic, s) f h k = h

pub continue-ok :
    {A B : Type 0} (m : Result A × DhtActor) (f : A → M B) {a : A}
    → m.0 ≡ ok a
    → continue m f ≡ f a m.1
continue-ok (ok b, s) f h = let same : b ≡ _ = cc in ap (λ x. f x s) same
continue-ok (err e, s) f h = cc
continue-ok (panic, s) f h = cc

-- What a chain needs to end well.
pub continue-eq-ok :
    {A B : Type 0} (m : Result A × DhtActor) (f : A → M B) {b : B}
    → (continue m f).0 ≡ ok b
    → (a : A) × (m.0 ≡ ok a) × ((f a m.1).0 ≡ ok b)
continue-eq-ok (ok a, s) f h = (a, refl, h)
continue-eq-ok (err e, s) f h = cc
continue-eq-ok (panic, s) f h = cc

select_rule :
    {A : Type 0} (Q : DhtActor → Type 0) (cut : Cut) (e : Error) (fut : M A) (s : DhtActor)
    → Q s
    → Q (fut s).1
    → Q (select cut e fut s).1
unfolding select
select_rule Q never e fut s h k = k
select_rule Q before e fut s h k = h
select_rule Q during e fut s h k = k

module _ ⦃P : Primitives⦄ (o : Oracle) (p : RecordPublisher) where
  get_records-Keeps :
      (unix_minute : ℕ) (cut : Cut) (s : DhtActor) → Keeps s (get_records o p unix_minute cut s).1
  unfolding get_records
  get_records-Keeps unix_minute cut s =
      let key = P.verifying_key (signing_keypair p.topic_id unix_minute) in
      let got = get-Keeps o key (some (salt p.topic_id unix_minute)) s in
      select_rule (Keeps s) cut get_records_cancelled _ s (refl, refl)
        (bind_rule (Keeps s) (get o key (some (salt p.topic_id unix_minute)) none s) _ got
          (λ items _. got))

  pub known_records-Keeps :
      (r : Record) (cached : Option (List Record)) (cuts : Cuts) (s : DhtActor)
      → Keeps s (known_records o p r cached cuts s).1
  unfolding known_records
  known_records-Keeps r (some records) cuts s = (refl, refl)
  known_records-Keeps r none cuts s =
      select_rule (Keeps s) cuts.outer_get publish_cancelled _ s (refl, refl)
        (get_records-Keeps r.unix_minute cuts.inner_get s)

  -- The item that a record is published as, around its sealed bytes.
  unfoldable pub item_for : Record → Bytes → MutableItem
  item_for r value = record {
    signing_key = signing_keypair p.topic_id r.unix_minute;
    value = value;
    seq = i64_max;
    salt = some (salt p.topic_id r.unix_minute);
  }

  -- The log has grown by copies of one item for the record, `1 + retries` at most.
  abbrev pub Sent : Record → DhtActor → ℕ → DhtActor → Type 0
  Sent r s k t =
      (value : Bytes) × (k ≤ 1 + s.config.retries)
      × (t.puts ≡ replicate k (item_for r value) ++ s.puts)

  put_record-Sent :
      (r : Record) (cuts : Cuts) (entropy : Entropy) (s : DhtActor)
      → (k : ℕ) × Sent r s k (put_record o p r cuts entropy s).1
  unfolding put_record item_for
  put_record-Sent r cuts entropy s =
      let Q : DhtActor → Type 0 = λ t. (k : ℕ) × Sent r s k t in
      let nothing : Q s = (0, ([], omega arith, refl)) in
      bind_rule Q (encrypt r (minute_key p r.unix_minute) entropy, s) _ nothing
        (λ e _.
          bind_rule Q (to_bytes e, s) _ nothing
            (λ bytes _. select_rule Q cuts.outer_put publish_cancelled _ s nothing (
              let (k, few, grown) =
                put_mutable_puts o (signing_keypair p.topic_id r.unix_minute) bytes
                  (some (salt p.topic_id r.unix_minute)) i64_max s in
              (k, (bytes, few, grown)))))

  abbrev Publishes : Record → Option (List Record) → Cuts → DhtActor → DhtActor → Type 0
  Publishes r cached cuts s t =
      (k : ℕ) × Sent r s k t
      × ((k ≡ 0)
          ⊎ ((records : List Record) × ((known_records o p r cached cuts s).0 ≡ ok records)
              × (length records < p.config.bootstrap_config.max_bootstrap_records)))

  unsent :
      (r : Record) (cached : Option (List Record)) (cuts : Cuts) (s t : DhtActor)
      → t.puts ≡ s.puts
      → Publishes r cached cuts s t
  unsent r cached cuts s t same = (0, ([], omega arith, same), inl refl)

  -- Whatever the DHT answers and wherever the publication is cancelled, it puts nothing but copies
  -- of one item under the key and the salt of the record's minute with the highest sequence number,
  -- one and the number of retries at most; and it puts something only if it knows fewer records of
  -- that minute than the capacity.
  pub publish_puts :
      (r : Record) (cached : Option (List Record)) (cuts : Cuts) (entropy : Entropy) (s : DhtActor)
      → (k : ℕ) × Sent r s k (publish_record_cached_records o p r cached cuts entropy s).1
        × ((k ≡ 0)
            ⊎ ((records : List Record) × ((known_records o p r cached cuts s).0 ≡ ok records)
                × (length records < p.config.bootstrap_config.max_bootstrap_records)))
  unfolding publish_record_cached_records
  publish_puts r cached cuts entropy s =
      let (same_puts, same_config) = known_records-Keeps r cached cuts s in
      let known = known_records o p r cached cuts s in
      bind_rule (Publishes r cached cuts s) known _ (unsent r cached cuts s known.1 same_puts)
        (λ records e.
          elim (Bool-cases (leb p.config.bootstrap_config.max_bootstrap_records (length records))) [
            | inl full ↦ rw full (unsent r cached cuts s known.1 same_puts)
            | inr room ↦ rw room (
                let (k, (value, few, grown)) = put_record-Sent r cuts entropy known.1 in
                (
                  k,
                  (
                    value,
                    subst (λ c. k ≤ 1 + c.retries) same_config few,
                    grown ∙ ap (◌++◌ (replicate k (item_for r value))) same_puts,
                  ),
                  inr (records, e, ground arith),
                ))
          ])

  -- If the records of the minute are known and reach the capacity, the publication succeeds without
  -- any put.
  pub publish_full :
      (r : Record) (cached : Option (List Record)) (cuts : Cuts) (entropy : Entropy) (s : DhtActor)
      (records : List Record)
      → (known_records o p r cached cuts s).0 ≡ ok records
      → p.config.bootstrap_config.max_bootstrap_records ≤ length records
      → ((publish_record_cached_records o p r cached cuts entropy s).0 ≡ ok tt)
        × ((publish_record_cached_records o p r cached cuts entropy s).1.puts ≡ s.puts)
  publish_full r cached cuts entropy s records h full =
      let test : leb p.config.bootstrap_config.max_bootstrap_records (length records) ≡ true =
        ground arith in
      unfold publish_record_cached_records in
      rw (continue-ok (known_records o p r cached cuts s) _ h, test)
        (refl, (known_records-Keeps r cached cuts s).0)
