-- ===== src/Crypto/Publisher.antt =====
-- src/crypto/record.rs: `RecordPublisher` and its builder. Its DHT handle is the state of the actor
-- that `Dht` models. A cancelled `select!` abandons what it waits for: before the request reaches
-- the actor, or while the actor works on it and its answer is lost.
pub mod Capacity
pub mod Delivery
pub mod Fetch
pub mod Meeting
use distributed_topic_tracke.Prelude.{
  ℕ, Bool, true, false, Option, some, none, List, [], Bytes, leb, length, i64_max, Result, Error,
  if◌then◌else◌, publish_cancelled, get_records_cancelled, err,
}
use distributed_topic_tracke.Crypto.Primitives.{Primitives, Postcard}
use distributed_topic_tracke.Crypto.Record.{Record, sign}
use distributed_topic_tracke.Crypto.Encrypted.{Entropy, encrypt, to_bytes as encrypted_to_bytes}
use distributed_topic_tracke.Crypto.Keys.{
  TopicId, RotationHandle, hash32, signing_keypair, encryption_keypair, salt, rotation_or_default,
}
use distributed_topic_tracke.Crypto.Dedup.{collect, values}
use distributed_topic_tracke.Config.{Config, default as default_config}
use distributed_topic_tracke.Dht.{
  Oracle, DhtActor, MutableItem, M, pure, fail, ◌>>=◌, ◌>>◌, get, put_mutable, continue,
}

pub record RecordPublisher : Type 0 where
  pub config : Config
  pub topic_id : TopicId
  pub pub_key : Bytes
  pub signing_key : Bytes
  pub secret_rotation : Option RotationHandle
  pub initial_secret_hash : Bytes

pub record RecordPublisherBuilder : Type 0 where
  pub topic_id : TopicId
  pub signing_key : Bytes
  pub secret_rotation : Option RotationHandle
  pub initial_secret : Bytes
  pub config : Config

-- `RecordPublisher::builder`
unfoldable pub builder : TopicId → Bytes → Bytes → RecordPublisherBuilder
builder topic_id signing_key initial_secret = record {
  topic_id = topic_id;
  signing_key = signing_key;
  secret_rotation = none;
  initial_secret = initial_secret;
  config = default_config;
}

-- `RecordPublisherBuilder::secret_rotation`
unfoldable pub secret_rotation : RotationHandle → RecordPublisherBuilder → RecordPublisherBuilder
secret_rotation rotation b = record b { secret_rotation = some rotation }

-- `RecordPublisherBuilder::config`
unfoldable pub config : Config → RecordPublisherBuilder → RecordPublisherBuilder
config c b = record b { config = c }

-- Where the cancellation branch of a `select!` wins.
pub data Cut : Type 0 where
  never before during : Cut

-- `select! { _ = cancelled() => bail!(e), res = fut => res }` around one request.
unfoldable pub select : {A : Type 0} → Cut → Error → M A → M A
select never e fut s = fut s
select before e fut s = (err e, s)
select during e fut s = (err e, (fut s).1)

-- The waits of one publication: the `select!` of `get_records`, and that of the publication while
-- it fetches records and while it puts.
pub record Cuts : Type 0 where
  pub inner_get : Cut
  pub outer_get : Cut
  pub outer_put : Cut

-- A `Result` that needs no request.
abbrev pub lift : {A : Type 0} → Result A → M A
lift r s = (r, s)

module _ ⦃P : Primitives⦄ where
  -- `RecordPublisher::new`
  unfoldable pub new : TopicId → Bytes → Option RotationHandle → Bytes → Config → RecordPublisher
  new topic_id signing_key rotation initial_secret c = record {
    config = c;
    topic_id = topic_id;
    pub_key = P.verifying_key signing_key;
    signing_key = signing_key;
    secret_rotation = rotation;
    initial_secret_hash = hash32 initial_secret;
  }

  -- `RecordPublisherBuilder::build`
  unfoldable pub build : RecordPublisherBuilder → RecordPublisher
  unfolding new
  build b = new b.topic_id b.signing_key b.secret_rotation b.initial_secret b.config

  -- `RecordPublisher::new_record`
  unfoldable pub new_record : {A : Type 0} → Postcard A → RecordPublisher → ℕ → A → Result Record
  new_record C p unix_minute record_content =
      sign C p.topic_id.hash unix_minute record_content p.signing_key

  -- The encryption key pair of a minute, as both `publish` and `get_records` derive it.
  unfoldable pub minute_key : RecordPublisher → ℕ → Bytes
  minute_key p unix_minute =
      encryption_keypair p.topic_id (rotation_or_default p.secret_rotation) p.initial_secret_hash
        unix_minute

  module _ (o : Oracle) (p : RecordPublisher) where
    -- `RecordPublisher::get_records`
    unfoldable pub get_records : ℕ → Cut → M (List Record)
    get_records unix_minute cut = select cut get_records_cancelled (do
      items ←
          get o (P.verifying_key (signing_keypair p.topic_id unix_minute))
            (some (salt p.topic_id unix_minute)) none
      pure (
          values
            (collect (minute_key p unix_minute) p.topic_id.hash unix_minute p.pub_key items [])))

    -- The records that `publish_record_cached_records` counts.
    unfoldable pub known_records : Record → Option (List Record) → Cuts → M (List Record)
    known_records r (some records) cuts = pure records
    known_records r none cuts =
        select cuts.outer_get publish_cancelled (get_records r.unix_minute cuts.inner_get)

    -- The rest of `publish_record_cached_records`, under the capacity.
    unfoldable pub put_record : Record → Cuts → Entropy → M (Unit {0})
    put_record r cuts entropy = do
      encrypted_record ← lift (encrypt r (minute_key p r.unix_minute) entropy)
      bytes ← lift (encrypted_to_bytes encrypted_record)
      select cuts.outer_put publish_cancelled (
          put_mutable o (signing_keypair p.topic_id r.unix_minute)
            (some (salt p.topic_id r.unix_minute)) bytes i64_max)

    -- `RecordPublisher::publish_record_cached_records`
    unfoldable pub publish_record_cached_records :
        Record → Option (List Record) → Cuts → Entropy → M (Unit {0})
    publish_record_cached_records r cached_records cuts entropy = do
      records ← known_records r cached_records cuts
      if leb p.config.bootstrap_config.max_bootstrap_records (length records)
          then pure tt
          else put_record r cuts entropy

    -- `RecordPublisher::publish_record`
    unfoldable pub publish_record : Record → Cuts → Entropy → M (Unit {0})
    publish_record r = publish_record_cached_records r none
