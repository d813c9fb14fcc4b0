-- ===== src/Prelude/Outcome.antt =====
-- The outcomes of fallible code: a value, an `anyhow` error, or a panic.
use mathlib.Core.Path.{◌≡◌, refl}
use mathlib.Core.Logic.{◌≢◌}
use mathlib.Core.Bool.{Bool, true, false}
use mathlib.Core.Option.{Option, none, some}

-- One constructor for each `bail!`, `anyhow!` and converted error of the code.
pub data Error : Type 0 where
  buffer_too_short buffer_not_empty wrong_length : Error
  length_overflow length_exceeds_maximum length_mismatch exceeds_maximum_size : Error
  topic_mismatch minute_mismatch bad_key bad_signature : Error
  decryption_failed serialize_failed deserialize_failed : Error
  publish_cancelled get_records_cancelled : Error
  dht_build_failed dht_not_initialized dht_get_timed_out dht_put_failed : Error
  actor_stopped request_timed_out request_failed : Error
  bootstrap_failed workers_cancelled topic_dropped : Error
  publisher_failed bubble_merge_failed message_overlap_failed : Error

pub data Result {ℓ} (A : Type ℓ) : Type ℓ where
  ok : A → Result A
  err : Error → Result A
  panic : Result A

-- `if !test { bail!(e) }`
abbrev pub guard : Bool → Error → Result (Unit {0})
guard false reason = err reason
guard true reason = ok tt

-- `o.ok_or(e)?`
abbrev pub ok_or {ℓ} : {A : Type ℓ} → Option A → Error → Result A
ok_or none e = err e
ok_or (some a) e = ok a

-- `o.expect(..)`
abbrev pub expect {ℓ} : {A : Type ℓ} → Option A → Result A
expect none = panic
expect (some a) = ok a

-- `r.unwrap_or_default()` with the default `d`.
abbrev pub unwrap_or {ℓ} : {A : Type ℓ} → Result A → A → A
unwrap_or (ok a) d = a
unwrap_or (err e) d = d
unwrap_or panic d = d

-- The `?` operator: an error or a panic ends the chain.
infixl 5 ◌>>=◌ ◌>>◌
abbrev pub ◌>>=◌ {κ ℓ} : {X : Type κ} {Y : Type ℓ} → Result X → (X → Result Y) → Result Y
panic >>= next = panic
err reason >>= next = err reason
ok x >>= next = next x

abbrev pub ◌>>◌ {ℓ} : {Y : Type ℓ} → Result (Unit {0}) → Result Y → Result Y
first >> next = first >>= λ done. next

pub >>=-eq-ok {κ ℓ} :
    {X : Type κ} {Y : Type ℓ} (first : Result X) (next : X → Result Y) {y : Y}
    → (first >>= next) ≡ ok y
    → (x : X) × (first ≡ ok x) × (next x ≡ ok y)
>>=-eq-ok panic next h = cc
>>=-eq-ok (err reason) next h = cc
>>=-eq-ok (ok x) next h = (x, refl, h)

pub ok≢err {ℓ} : {A : Type ℓ} {a : A} {e : Error} → ok a ≢ err e
ok≢err h = cc

pub ok-eq : {A : Type 0} (a b : A) → ok a ≡ ok b → a ≡ b
ok-eq a b h = cc
