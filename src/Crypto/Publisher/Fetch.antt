-- ===== src/Crypto/Publisher/Fetch.antt =====
-- What `RecordPublisher::get_records` returns.
use distributed_topic_tracke.Prelude.{
  ℕ, ◌≡◌, ◌≢◌, refl, sym, subst, Mem, true, Option, some, none, List, Bytes, ok, ok-eq, arith,
}
use distributed_topic_tracke.Crypto.Primitives.{Primitives}
use distributed_topic_tracke.Crypto.Record.{Record, verify}
use distributed_topic_tracke.Crypto.Keys.{signing_keypair, salt}
use distributed_topic_tracke.Crypto.Dedup.{opened}
use distributed_topic_tracke.Crypto.Dedup.Selection.{selected, selected_sound}
use distributed_topic_tracke.Dht.{Oracle, DhtActor, MutableItem, get}
use distributed_topic_tracke.Crypto.Publisher.{
  RecordPublisher, Cut, never, before, during, select, get_records, minute_key,
}
use distributed_topic_tracke.Crypto.Publisher.Capacity.{continue-ok, continue-eq-ok}

get-found :
    (o : Oracle) (key : Bytes) (salt : Option Bytes) (s : DhtActor) (items : List MutableItem)
    → o.found key salt none ≡ some items
    → ((n : ℕ) → o.builds n ≡ true)
    → (get o key salt none s).0 ≡ ok items
unfolding get
get-found o key salt s items h builds = ground (arith, builds s.clients_built)

get-eq-ok :
    (o : Oracle) (key : Bytes) (salt : Option Bytes) (s : DhtActor) (items : List MutableItem)
    → (get o key salt none s).0 ≡ ok items
    → o.found key salt none ≡ some items
unfolding get
get-eq-ok o key salt s items h = ground arith

module _ ⦃P : Primitives⦄ (o : Oracle) (p : RecordPublisher) (unix_minute : ℕ) where
  -- The item list that the DHT has for a minute.
  unfoldable pub found_items : Option (List MutableItem)
  found_items =
      o.found (P.verifying_key (signing_keypair p.topic_id unix_minute))
        (some (salt p.topic_id unix_minute)) none

  -- The records that count among some items.
  unfoldable pub chosen : List MutableItem → List Record
  chosen items = selected (minute_key p unix_minute) p.topic_id.hash unix_minute p.pub_key items

  get_records-eq-ok :
      (cut : Cut) (s : DhtActor) (records : List Record)
      → (get_records o p unix_minute cut s).0 ≡ ok records
      → (items : List MutableItem) × (found_items ≡ some items) × (chosen items ≡ records)
  unfolding get_records select found_items chosen selected
  get_records-eq-ok never s records h =
      let key = P.verifying_key (signing_keypair p.topic_id unix_minute) in
      let place = some (salt p.topic_id unix_minute) in
      let (items, e, last) = continue-eq-ok (get o key place none s) _ h in
      (items, get-eq-ok o key place s items e, ok-eq _ _ last)
  get_records-eq-ok before s records h = cc
  get_records-eq-ok during s records h = cc

  -- Whatever the DHT answers and however a fetch is cut, each record that it returns was found by
  -- the DHT as an item that opens with the minute's key, verifies for the topic and the minute, and
  -- is of another node.
  pub get_records_sound :
      (cut : Cut) (s : DhtActor) (records : List Record) (r : Record)
      → (get_records o p unix_minute cut s).0 ≡ ok records
      → Mem r records
      → (items : List MutableItem) × (item : MutableItem) × (found_items ≡ some items)
        × Mem item items
        × (opened (minute_key p unix_minute) p.topic_id.hash unix_minute item ≡ ok r)
        × (verify r p.topic_id.hash unix_minute ≡ ok tt)
        × (r.pub_key ≢ p.pub_key)
  get_records_sound cut s records r h m =
      let (items, found, same) = get_records-eq-ok cut s records h in
      let (item, there, o', v, n, high) =
        selected_sound (minute_key p unix_minute) p.topic_id.hash unix_minute p.pub_key items r
          (unfold chosen in subst (Mem r) (sym same) m) in
      (items, item, found, there, o', v, n)

  -- If a client can be built and the get does not time out, a fetch that is not cancelled returns
  -- exactly the records selected from what the DHT has.
  pub get_records_complete :
      (s : DhtActor) (items : List MutableItem)
      → found_items ≡ some items
      → ((n : ℕ) → o.builds n ≡ true)
      → (get_records o p unix_minute never s).0 ≡ ok (chosen items)
  unfolding get_records select found_items chosen selected
  get_records_complete s items h builds =
      rw (continue-ok (get o _ _ none s) _ (get-found o _ _ s items h builds)) refl
