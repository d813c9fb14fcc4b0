-- ===== src/Dht.antt =====
-- src/dht.rs: the actor that owns the DHT client, `get` with its timeout, and `put_mutable` with its
-- retries. The mainline client, the clock and the random numbers are an oracle.
pub mod Retry
pub mod Log
use distributed_topic_tracke.Prelude.{
  ℕ, zero, suc, ◌+◌, ◌%◌, ◌^◌, Bool, true, false, List, [], ◌∷◌, Option, some, none, Bytes, ◌==◌, ℤ,
  length, Result, ok, err, panic, Error, if◌then◌else◌, dht_build_failed, dht_not_initialized,
  dht_get_timed_out, dht_put_failed,
}
use distributed_topic_tracke.Config.Duration.{Duration}
use distributed_topic_tracke.Config.Dht.{DhtConfig}
use distributed_topic_tracke.Timing.{next_interval}

-- `mainline::MutableItem`, as `MutableItem::new` fills it.
pub record MutableItem : Type 0 where
  pub signing_key : Bytes
  pub value : Bytes
  pub seq : ℤ
  pub salt : Option Bytes

-- What `timeout(put_timeout, dht.put_mutable(..))` gives.
pub data PutOutcome : Type 0 where
  stored failed timed_out : PutOutcome

unfoldable pub is_stored : PutOutcome → Bool
is_stored stored = true
is_stored failed = false
is_stored timed_out = false

-- What the world answers: whether the n-th client can be built, the outcome of the n-th put, the
-- random number of the n-th wait, and the items of a get, or that it timed out.
pub record Oracle : Type 0 where
  pub builds : ℕ → Bool
  pub put_outcome : ℕ → PutOutcome
  pub random : ℕ → ℕ
  pub found : Bytes → Option Bytes → Option ℤ → Option (List MutableItem)

-- `DhtActor`, with a log of what it did: clients built, items put and waits, the latest first.
pub record DhtActor : Type 0 where
  pub has_client : Bool
  pub config : DhtConfig
  pub clients_built : ℕ
  pub puts : List MutableItem
  pub waits : List Duration

-- `Dht::new`: the actor that it spawns.
unfoldable pub new : DhtConfig → DhtActor
new config = record {
  has_client = false;
  config = config;
  clients_built = 0;
  puts = [];
  waits = [];
}

abbrev pub M : Type 0 → Type 0
M A = DhtActor → Result A × DhtActor

abbrev pub continue : {A B : Type 0} → Result A × DhtActor → (A → M B) → Result B × DhtActor
continue (ok a, s) f = f a s
continue (err e, s) f = (err e, s)
continue (panic, s) f = (panic, s)

infixl 5 ◌>>=◌ ◌>>◌
abbrev pub ◌>>=◌ : {A B : Type 0} → M A → (A → M B) → M B
◌>>=◌ m f s = continue (m s) f

abbrev pub ◌>>◌ : {B : Type 0} → M (Unit {0}) → M B → M B
◌>>◌ m k s = continue (m s) (λ _. k)

abbrev pub pure : {A : Type 0} → A → M A
pure a s = (ok a, s)

abbrev pub fail : {A : Type 0} → Error → M A
fail e s = (err e, s)

module _ (o : Oracle) where
  -- `DhtActor::reset`
  unfoldable pub reset : M (Unit {0})
  reset s =
      let s' = record s { clients_built = suc s.clients_built } in
      if o.builds s.clients_built
      then (ok tt, record s' { has_client = true })
      else (err dht_build_failed, s')

  -- `if self.dht.is_none() { self.reset().await?; }`
  unfoldable pub ensure_client : M (Unit {0})
  unfolding reset
  ensure_client s = if s.has_client then (ok tt, s) else reset s

  -- `self.dht.as_mut().context("DHT not initialized")?`
  unfoldable pub client : M (Unit {0})
  client s = if s.has_client then (ok tt, s) else (err dht_not_initialized, s)

  -- One `dht.put_mutable` under its timeout: whether it stored the item.
  unfoldable pub put_once : MutableItem → M Bool
  put_once item s =
      (ok (is_stored (o.put_outcome (length s.puts))), record s { puts = item ∷ s.puts })

  -- `tokio::time::sleep(retry_interval)`
  unfoldable pub wait : M (Unit {0})
  wait s = (
    ok tt,
    record s {
      waits =
          next_interval s.config.base_retry_interval s.config.max_retry_jitter
            (o.random (length s.waits))
          ∷ s.waits;
    },
  )

  -- Round `i` of the loop of `put_mutable`, with the rounds left.
  unfoldable pub attempts : ℕ → ℕ → ℕ → MutableItem → M (Unit {0})
  unfolding client put_once reset wait
  attempts retries zero i item = pure tt
  attempts retries (suc left) i item =
      let rest = attempts retries left (i + 1) item in
      (do
        client
        done ← put_once item
        if done
            then pure tt
            else (if i == retries then fail dht_put_failed else (do reset; wait; rest)))

  -- `DhtActor::put_mutable`. The bound `1 + retries` of the range is a `usize` and wraps.
  unfoldable pub put_mutable : Bytes → Option Bytes → Bytes → ℤ → M (Unit {0})
  unfolding ensure_client attempts
  put_mutable signing_key salt value seq s =
      (do
        ensure_client
        attempts s.config.retries ((1 + s.config.retries) % 2 ^ 64) 0
            (record { signing_key = signing_key; value = value; seq = seq; salt = salt }))
        s

  -- `DhtActor::get`
  unfoldable pub get : Bytes → Option Bytes → Option ℤ → M (List MutableItem)
  unfolding ensure_client client
  get pub_key salt more_recent_than = do
    ensure_client
    client
    elim (o.found pub_key salt more_recent_than) [
      | some items ↦ pure items
      | none ↦ fail dht_get_timed_out
    ]
