-- ===== src/Crypto/Dedup.antt =====
-- src/crypto/record.rs, `RecordPublisher::get_records`: which items of the DHT are accepted, and the
-- table that keeps one record for each public key.
pub mod Table
pub mod Values
pub mod Selection
pub mod First
use distributed_topic_tracke.Prelude.{
  ℕ, Bool, true, false, not, Option, some, none, List, [], ◌∷◌, map, Bytes, bytes_eq, ℤ, leb_ℤ,
  Result, ok, err, panic, ◌>>=◌, ◌>>◌, if◌then◌else◌,
}
use distributed_topic_tracke.Crypto.Primitives.{Primitives}
use distributed_topic_tracke.Crypto.Record.{Record, verify}
use distributed_topic_tracke.Crypto.Encrypted.{decrypt, from_bytes as encrypted_from_bytes}
use distributed_topic_tracke.Dht.{MutableItem}

-- A sequence number and the record that came with it.
abbrev pub Entry : Type 0
Entry = ℤ × Record

-- `HashMap<[u8; 32], (i64, Record)>`
abbrev pub Table : Type 0
Table = List (Bytes × Entry)

unfoldable pub lookup : Bytes → Table → Option Entry
lookup k [] = none
lookup k ((j, e) ∷ m) = if bytes_eq j k then some e else lookup k m

unfoldable pub insert : Bytes → Entry → Table → Table
insert k e [] = (k, e) ∷ []
insert k e ((j, d) ∷ m) = if bytes_eq j k then (j, e) ∷ m else (j, d) ∷ insert k e m

-- `Some((seq, _)) if *seq >= item.seq()`
unfoldable pub keeps : Option Entry → ℤ → Bool
keeps none seq = false
keeps (some (old, r)) seq = leb_ℤ seq old

-- The body of the `match` on `dedubed_records.get(&pub_key)`.
unfoldable pub enter : Table → Entry → Table
unfolding lookup insert keeps
enter m (seq, r) = if keeps (lookup r.pub_key m) seq then m else insert r.pub_key (seq, r) m

unfoldable pub to_option {ℓ} : {A : Type ℓ} → Result A → Option A
to_option (ok a) = some a
to_option (err e) = none
to_option panic = none

module _ ⦃P : Primitives⦄ where
  -- The chain of conditions on an item. A failed step drops the item.
  unfoldable pub opened : Bytes → Bytes → ℕ → MutableItem → Result Record
  opened encryption_key topic unix_minute item = do
    encrypted_record ← encrypted_from_bytes item.value
    r ← decrypt encrypted_record encryption_key
    verify r topic unix_minute
    ok r

  -- The record of an item that passes, and is not of the publisher's own key.
  unfoldable pub accepted : Bytes → Bytes → ℕ → Bytes → MutableItem → Option Record
  accepted encryption_key topic unix_minute own_key item =
      elim (to_option (opened encryption_key topic unix_minute item)) [
        | none ↦ none
        | some r ↦ if bytes_eq r.pub_key own_key then none else some r
      ]

  -- The loop over the items.
  unfoldable pub collect : Bytes → Bytes → ℕ → Bytes → List MutableItem → Table → Table
  collect encryption_key topic unix_minute own_key [] m = m
  collect encryption_key topic unix_minute own_key (item ∷ items) m =
      collect encryption_key topic unix_minute own_key items
        (elim (accepted encryption_key topic unix_minute own_key item) [
          | none ↦ m
          | some r ↦ enter m (item.seq, r)
        ])

-- `dedubed_records.into_values().map(|(_, record)| record)`; a set has no order of its own.
unfoldable pub values : Table → List Record
values [] = []
values ((k, (seq, r)) ∷ m) = r ∷ values m
