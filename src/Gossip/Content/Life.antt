-- ===== src/Gossip/Content/Life.antt =====
-- src/gossip/topic/publisher.rs: `publish` as the work of `run`, and all that the periodic publisher
-- ever puts on the DHT.
use distributed_topic_tracke.Prelude.{
  ℕ, suc, ◌+◌, ◌*◌, ◌≤◌, ◌≡◌, refl, ap, sym, subst, zero, some, none, List, [], Bytes, Result,
  length, All, Mem, arith, i64_max, replicate, All-append, length-append, length-replicate,
}
use distributed_topic_tracke.Config.Duration.{Duration}
use distributed_topic_tracke.Crypto.Primitives.{Primitives, Postcard}
use distributed_topic_tracke.Crypto.Record.Signing.{sign-unix_minute}
use distributed_topic_tracke.Crypto.Encrypted.{Entropy}
use distributed_topic_tracke.Crypto.Keys.{signing_keypair, salt}
use distributed_topic_tracke.Crypto.Publisher.{RecordPublisher, Cuts, new_record, publish_record}
use distributed_topic_tracke.Crypto.Record.{Record}
use distributed_topic_tracke.Crypto.Publisher.Capacity.{item_for, bind_rule, publish_puts}
use distributed_topic_tracke.Dht.{Oracle, DhtActor, MutableItem}
use distributed_topic_tracke.Gossip.Content.{GossipRecordContent, record_content, publish}
use distributed_topic_tracke.Gossip.Ticker.{new}
use distributed_topic_tracke.Gossip.Ticker.Spacing.{IsSpaced}
use distributed_topic_tracke.Gossip.Working.{Worker, Turn, spawn, run}
use distributed_topic_tracke.Gossip.Working.Ticks.{jobs, run-Holds_jobs, run-IsSpaced_work}

-- What one publication meets: the DHT, its actor, which other tasks use too, the clock, the answers of
-- the receiver, where cancellation strikes and the random choices of the sealing.
pub record Issue : Type 0 where
  pub world : Oracle
  pub actor : DhtActor
  pub unix_minute : ℕ
  pub neighbors : Result (List Bytes)
  pub hashes : Result (List Bytes)
  pub cuts : Cuts
  pub entropy : Entropy

one_more : (n m : ℕ) → suc n * m ≡ m + n * m
one_more n m = grind arith

-- The actor that a publication meets retries a put so many times.
abbrev pub HasRetries : ℕ → Issue → Type 0
HasRetries retries j = j.actor.config.retries ≡ retries

All-replicate : {A : Type 0} (Q : A → Type 0) (k : ℕ) (a : A) → Q a → All Q (replicate k a)
All-replicate Q zero a h = tt
All-replicate Q (suc k) a h = (h, All-replicate Q k a h)

module _ ⦃P : Primitives⦄ (p : RecordPublisher) (C : Postcard GossipRecordContent) where
  -- The work of a tick, with the log of all that the publisher has put, the latest first.
  unfoldable pub publisher_work : Issue → List MutableItem → Result (Unit {0}) × List MutableItem
  publisher_work j log =
      let (answer, after) =
        publish j.world C p j.unix_minute j.neighbors j.hashes j.cuts j.entropy
          (record j.actor { puts = log }) in
      (answer, after.puts)

  -- `Publisher::new`, and `PublisherActor::run` from then on.
  unfoldable pub publisher_life :
      ℕ → Duration → Duration → Duration → List (Turn Issue) → Worker (List MutableItem)
  publisher_life now initial_interval base_interval max_jitter turns =
      run publisher_work turns (spawn now initial_interval base_interval max_jitter [])

  -- An item for the key and the salt of the minute of a publication, with the highest sequence number.
  abbrev pub IsSlotItem : List Issue → MutableItem → Type 0
  IsSlotItem js item =
      (j : Issue) × Mem j js
      × (item.signing_key ≡ signing_keypair p.topic_id j.unix_minute)
      × (item.salt ≡ some (salt p.topic_id j.unix_minute))
      × (item.seq ≡ i64_max)

  module _ (retries : ℕ) (js : List Issue) where
    -- What `n` publications put at most.
    abbrev IsWithin : ℕ → List MutableItem → Type 0
    IsWithin n puts = (length puts ≤ n * (1 + retries)) × All (IsSlotItem js) puts

    more_IsWithin : (n : ℕ) (puts : List MutableItem) → IsWithin n puts → IsWithin (suc n) puts
    more_IsWithin n puts (few, all) = (omega (arith, one_more n (1 + retries)), all)

    publish_record-IsWithin :
        (n : ℕ) (j : Issue) (r : Record) (s : DhtActor)
        → Mem j js
        → r.unix_minute ≡ j.unix_minute
        → s.config.retries ≡ retries
        → IsWithin n s.puts
        → IsWithin (suc n) (publish_record j.world p r j.cuts j.entropy s).1.puts
    unfolding publish_record item_for
    publish_record-IsWithin n j r s there at_minute same (count, all) =
        let (k, (value, few, grown), _) = publish_puts j.world p r none j.cuts j.entropy s in
        let item = item_for j.world p r value in
        subst (IsWithin (suc n)) (sym grown) (
          omega (
            arith,
            length-append (replicate k item) s.puts,
            length-replicate k item,
            one_more n (1 + retries),
          ),
          All-append (IsSlotItem js) (replicate k item) s.puts
              (All-replicate (IsSlotItem js) k item (
                j,
                there,
                ap (signing_keypair p.topic_id) at_minute,
                ap (λ m. some (salt p.topic_id m)) at_minute,
                refl,
              ))
              all,
        )

    publisher_work-IsWithin :
        (n : ℕ) (j : Issue) (puts : List MutableItem)
        → HasRetries retries j
        → Mem j js
        → IsWithin n puts
        → IsWithin (suc n) (publisher_work j puts).1
    unfolding publisher_work publish new_record
    publisher_work-IsWithin n j puts same there h =
        let s = record j.actor { puts = puts } in
        let Q : DhtActor → Type 0 = λ t. IsWithin (suc n) t.puts in
        let more = more_IsWithin n puts h in
        bind_rule Q (j.neighbors, s) _ more
          (λ active _.
            bind_rule Q (j.hashes, s) _ more
              (λ hashes _.
                bind_rule Q (new_record C p j.unix_minute (record_content active hashes), s) _ more
                  (λ r signed.
                    let at_minute =
                      sign-unix_minute C p.topic_id.hash j.unix_minute
                        (record_content active hashes) p.signing_key r signed in
                    publish_record-IsWithin n j r s there at_minute same h)))

  -- In the whole life of the periodic publisher, whatever wakes it and whatever it meets, its ticks
  -- lie at least a second apart, it puts for each tick one item and one for each retry at most, and
  -- all that it puts stands under the key and the salt that belong to its topic and the minute of one
  -- of its publications, with the highest sequence number.
  pub publisher_life_puts :
      (retries now initial_interval base_interval max_jitter : ℕ) (turns : List (Turn Issue))
      → All (λ t. HasRetries retries t.1) turns
      → let w = publisher_life now initial_interval base_interval max_jitter turns in
        ((next : ℕ) × IsSpaced next w.ticker.ticks)
        × (length w.state ≤ length w.ticker.ticks * (1 + retries))
        × All (IsSlotItem (jobs turns)) w.state
  unfolding publisher_life spawn new
  publisher_life_puts retries now initial_interval base_interval max_jitter turns same =
      let start : Worker (List MutableItem) =
        spawn now initial_interval base_interval max_jitter [] in
      let Within = IsWithin retries (jobs turns) in
      let nothing : Within (length start.ticker.ticks) start.state = (omega arith, tt) in
      let (few, all) =
        run-Holds_jobs publisher_work Within (HasRetries retries) turns start
          (publisher_work-IsWithin retries (jobs turns)) same nothing in
      (
        run-IsSpaced_work publisher_work now initial_interval base_interval max_jitter [] turns,
        few,
        all,
      )
