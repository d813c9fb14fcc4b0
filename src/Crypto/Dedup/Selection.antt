-- ===== src/Crypto/Dedup/Selection.antt =====
-- The records that `get_records` returns, against the items that are accepted.
use distributed_topic_tracke.Prelude.{
  ℕ, ◌≡◌, ◌≢◌, refl, sym, ap, subst, ◌∙◌, inl, inr, some, none, Option-cases, List, [], ◌∷◌, Mem,
  Bytes, bytes_eq_iff, arith, ok,
}
use distributed_topic_tracke.Crypto.Primitives.{Primitives}
use distributed_topic_tracke.Crypto.Record.{Record, verify}
use distributed_topic_tracke.Dht.{MutableItem}
use distributed_topic_tracke.Crypto.Dedup.{
  Entry, Table, lookup, enter, values, accepted, collect, opened, to_option,
}
use distributed_topic_tracke.Crypto.Dedup.Table.{
  best, enter_all, lookup-enter_all, best-some, best_of_Mem, IsTable, enter_all-IsTable, IsHighest,
}
use distributed_topic_tracke.Crypto.Dedup.Values.{
  values_sound, values_complete, HaveDistinctKeys, values-HaveDistinctKeys,
}

module _ ⦃P : Primitives⦄ (key topic : Bytes) (unix_minute : ℕ) (own_key : Bytes) where
  -- The accepted items in order, as entries.
  unfoldable pub entries : List MutableItem → List Entry
  entries [] = []
  entries (item ∷ items) =
      let rest = entries items in
      elim (accepted key topic unix_minute own_key item) [
        | none ↦ rest
        | some r ↦ (item.seq, r) ∷ rest
      ]

  module _ (item : MutableItem) (items : List MutableItem) where
    pub entries-none :
        accepted key topic unix_minute own_key item ≡ none → entries (item ∷ items) ≡ entries items
    unfolding entries
    entries-none e = rw (e, entries)

    pub entries-some :
        (r : Record)
        → accepted key topic unix_minute own_key item ≡ some r
        → entries (item ∷ items) ≡ (item.seq, r) ∷ entries items
    unfolding entries
    entries-some r e = rw (e, entries)

  collect-enter_all :
      (items : List MutableItem) (m : Table)
      → collect key topic unix_minute own_key items m ≡ enter_all (entries items) m
  unfolding collect enter_all
  collect-enter_all [] m = unfold entries in refl
  collect-enter_all (item ∷ items) m =
      let ih = λ (t : Table). collect-enter_all items t in
      elim (Option-cases (accepted key topic unix_minute own_key item)) [
        | inl dropped ↦ rw (dropped, entries-none item items dropped) (ih m)
        | inr (r, kept) ↦ rw (kept, entries-some item items r kept) (ih (enter m (item.seq, r)))
      ]

  -- An entry comes from an accepted item, and an accepted item gives an entry.
  abbrev pub Comes : List MutableItem → Entry → Type 0
  Comes items e =
      (item : MutableItem) × Mem item items
      × (accepted key topic unix_minute own_key item ≡ some e.1)
      × (item.seq ≡ e.0)

  Comes-cons :
      (item : MutableItem) (items : List MutableItem) (e : Entry)
      → Comes items e
      → Comes (item ∷ items) e
  Comes-cons item items e (it, m, a, s) = (it, inr m, a, s)

  pub entries_sound : (items : List MutableItem) (e : Entry) → Mem e (entries items) → Comes items e
  entries_sound [] e h = absurd (unfold entries in h)
  entries_sound (item ∷ items) e h =
      let ih = entries_sound items e in
      elim (Option-cases (accepted key topic unix_minute own_key item)) [
        | inl dropped ↦
            Comes-cons item items e (ih (subst (Mem e) (entries-none item items dropped) h))
        | inr (r, kept) ↦
            split item items e r kept ih (subst (Mem e) (entries-some item items r kept) h)
      ]
    where
      split :
          (item : MutableItem) (items : List MutableItem) (e : Entry) (r : Record)
          → accepted key topic unix_minute own_key item ≡ some r
          → (Mem e (entries items) → Comes items e)
          → Mem e ((item.seq, r) ∷ entries items)
          → Comes (item ∷ items) e
      split item items e r kept ih (inl same) = (
        item,
        inl refl,
        kept ∙ ap (λ (x : Entry). some x.1) (sym same),
        ap (λ (x : Entry). x.0) (sym same),
      )
      split item items e r kept ih (inr later) = Comes-cons item items e (ih later)

  entries_complete :
      (items : List MutableItem) (item : MutableItem) (r : Record)
      → Mem item items
      → accepted key topic unix_minute own_key item ≡ some r
      → Mem (item.seq, r) (entries items)
  entries_complete [] item r h a = absurd h
  entries_complete (it ∷ items) item r (inl same) a =
      let kept : accepted key topic unix_minute own_key it ≡ some r =
        subst (λ x. accepted key topic unix_minute own_key x ≡ some r) same a in
      subst (Mem (item.seq, r)) (sym (entries-some it items r kept))
        (inl (ap (λ (x : MutableItem). (x.seq, r)) same))
  entries_complete (it ∷ items) item r (inr h) a =
      let ih = entries_complete items item r h a in
      elim (Option-cases (accepted key topic unix_minute own_key it)) [
        | inl dropped ↦ subst (Mem (item.seq, r)) (sym (entries-none it items dropped)) ih
        | inr (q, kept) ↦ subst (Mem (item.seq, r)) (sym (entries-some it items q kept)) (inr ih)
      ]

  opened-verify :
      (item : MutableItem) (r : Record)
      → opened key topic unix_minute item ≡ ok r
      → verify r topic unix_minute ≡ ok tt
  unfolding opened
  opened-verify item r h = ground arith

  module _ (item : MutableItem) (r : Record)
      (a : accepted key topic unix_minute own_key item ≡ some r) where
    accepted-opened : opened key topic unix_minute item ≡ ok r
    unfolding accepted to_option
    accepted-opened = ground arith

    accepted-key : r.pub_key ≢ own_key
    unfolding accepted to_option
    accepted-key = ground (arith, bytes_eq_iff r.pub_key own_key)

  -- An accepted record opens with the key, verifies for the topic and the minute, and has another
  -- public key than the publisher's own.
  pub accepted_sound :
      (item : MutableItem) (r : Record)
      → accepted key topic unix_minute own_key item ≡ some r
      → (opened key topic unix_minute item ≡ ok r)
        × (verify r topic unix_minute ≡ ok tt)
        × (r.pub_key ≢ own_key)
  accepted_sound item r a =
      let o : opened key topic unix_minute item ≡ ok r = accepted-opened item r a in
      (o, opened-verify item r o, accepted-key item r a)

  -- The records that `get_records` returns for the items.
  unfoldable pub selected : List MutableItem → List Record
  selected items = values (collect key topic unix_minute own_key items [])

  pub lookup-collect :
      (k : Bytes) (items : List MutableItem)
      → lookup k (collect key topic unix_minute own_key items []) ≡ best k (entries items)
  unfolding lookup
  lookup-collect k items =
      ap (lookup k) (collect-enter_all items []) ∙ lookup-enter_all k (entries items) []

  pub collect-IsTable :
      (items : List MutableItem) → IsTable (collect key topic unix_minute own_key items [])
  collect-IsTable items = rw (collect-enter_all items []) (enter_all-IsTable (entries items) [] tt)

  -- Each record that is returned comes from an item that opens with the key, verifies for the topic
  -- and the minute, has another key than the publisher's own, and no accepted item of that record's
  -- public key has a higher sequence number.
  pub selected_sound :
      (items : List MutableItem) (r : Record)
      → Mem r (selected items)
      → (item : MutableItem) × Mem item items
        × (opened key topic unix_minute item ≡ ok r)
        × (verify r topic unix_minute ≡ ok tt)
        × (r.pub_key ≢ own_key)
        × IsHighest r.pub_key (item.seq, r) (entries items)
  unfolding selected
  selected_sound items r h =
      let (seq, found) =
        values_sound (collect key topic unix_minute own_key items []) r (collect-IsTable items) h in
      let (m, k, high) =
        best-some r.pub_key (entries items) (seq, r)
          (sym (lookup-collect r.pub_key items) ∙ found) in
      let (item, there, a, s) = entries_sound items (seq, r) m in
      let (o, v, n) = accepted_sound item r a in
      (item, there, o, v, n, subst (λ x. IsHighest r.pub_key (x, r) (entries items)) (sym s) high)

  -- Every public key of an accepted item has a record among those that are returned, and no two of
  -- these have one public key.
  pub selected_complete :
      (items : List MutableItem) (item : MutableItem) (r : Record)
      → Mem item items
      → accepted key topic unix_minute own_key item ≡ some r
      → ((q : Record) × Mem q (selected items) × (q.pub_key ≡ r.pub_key))
        × HaveDistinctKeys (selected items)
  unfolding selected
  selected_complete items item r h a =
      let (d, found) =
        best_of_Mem (entries items) (item.seq, r) (entries_complete items item r h a) in
      let (m, k, high) = best-some r.pub_key (entries items) d found in
      (
        (
          d.1,
          values_complete (collect key topic unix_minute own_key items []) r.pub_key d
              (lookup-collect r.pub_key items ∙ found),
          k,
        ),
        values-HaveDistinctKeys (collect key topic unix_minute own_key items [])
            (collect-IsTable items),
      )
