-- ===== src/Crypto/Dedup/First.antt =====
-- What the selection amounts to when all items carry one sequence number, as all do that the
-- publisher of records puts: for each key the first item that is accepted counts.
use distributed_topic_tracke.Prelude.{
  ℕ, ◌≡◌, ◌↔◌, true, refl, sym, ap, subst, ◌∙◌, inl, inr, Bool-cases, Option, some, none,
  Option-cases, List, [], ◌∷◌, All, All-Mem, All-of_Mem, Mem, Bytes, bytes_eq, ℤ, leb_ℤ, leb_ℤ-refl,
  if◌then◌else◌,
}
use distributed_topic_tracke.Crypto.Primitives.{Primitives}
use distributed_topic_tracke.Crypto.Record.{Record}
use distributed_topic_tracke.Dht.{MutableItem}
use distributed_topic_tracke.Crypto.Dedup.{Entry, lookup, accepted, collect}
use distributed_topic_tracke.Crypto.Dedup.Table.{key_of, better, best}
use distributed_topic_tracke.Crypto.Dedup.Selection.{
  entries, entries-none, entries-some, entries_sound, lookup-collect, collect-IsTable, selected,
}
use distributed_topic_tracke.Crypto.Dedup.Values.{values_sound, values_complete}

-- The first entry of a key.
abbrev first_entry : Bytes → List Entry → Option Entry
first_entry k [] = none
first_entry k (e ∷ es) = if bytes_eq (key_of e) k then some e else first_entry k es

better-same :
    (e : Entry) (o : Option Entry)
    → ((d : Entry) → o ≡ some d → d.0 ≡ e.0)
    → better (some e) o ≡ some e
better-same e none h = refl
better-same e (some d) h =
    let test : leb_ℤ d.0 e.0 ≡ true = subst (λ s. leb_ℤ d.0 s ≡ true) (h d refl) (leb_ℤ-refl d.0) in
    rw test refl

first_entry-Mem : (k : Bytes) (es : List Entry) (d : Entry) → first_entry k es ≡ some d → Mem d es
first_entry-Mem k [] d h = cc
first_entry-Mem k (e ∷ es) d h = elim (Bool-cases (bytes_eq (key_of e) k)) [
  | inl same ↦ let found : some e ≡ some d = rw same at h in inl (cc found)
  | inr other ↦ inr (first_entry-Mem k es d (rw other at h))
]

best-first_entry :
    (k : Bytes) (seq : ℤ) (es : List Entry) → All (λ e. e.0 ≡ seq) es → best k es ≡ first_entry k es
best-first_entry k seq [] h = refl
best-first_entry k seq (e ∷ es) h =
    let ih = best-first_entry k seq es h.1 in
    let same_seq : (d : Entry) → best k es ≡ some d → d.0 ≡ e.0 =
      λ d f. All-Mem (λ x. x.0 ≡ seq) es h.1 (first_entry-Mem k es d (sym ih ∙ f)) ∙ sym h.0 in
    elim (Bool-cases (bytes_eq (key_of e) k)) [
      | inl same ↦ rw same (better-same e (best k es) same_seq)
      | inr other ↦ rw other ih
    ]

abbrev record_of : Option Entry → Option Record
record_of none = none
record_of (some e) = some e.1

record_of-eq-some :
    (o : Option Entry) (r : Record) → record_of o ≡ some r → (seq : ℤ) × (o ≡ some (seq, r))
record_of-eq-some none r h = cc
record_of-eq-some (some (seq, q)) r h = let same : q ≡ r = cc in (seq, ap (λ x. some (seq, x)) same)

module _ ⦃P : Primitives⦄ (key topic : Bytes) (unix_minute : ℕ) (own_key : Bytes) where
  -- The first accepted record of a public key.
  unfoldable pub first_accepted : Bytes → List MutableItem → Option Record
  first_accepted k [] = none
  first_accepted k (item ∷ items) =
      let rest = first_accepted k items in
      elim (accepted key topic unix_minute own_key item) [
        | none ↦ rest
        | some r ↦ if bytes_eq r.pub_key k then some r else rest
      ]

  module _ (k : Bytes) (item : MutableItem) (items : List MutableItem) where
    first_accepted-none :
        accepted key topic unix_minute own_key item ≡ none
        → first_accepted k (item ∷ items) ≡ first_accepted k items
    unfolding first_accepted
    first_accepted-none e = rw (e, first_accepted)

    first_accepted-some :
        (r : Record)
        → accepted key topic unix_minute own_key item ≡ some r
        → first_accepted k (item ∷ items)
          ≡ (if bytes_eq r.pub_key k then some r else first_accepted k items)
    unfolding first_accepted
    first_accepted-some r e = rw (e, first_accepted)

  first_accepted-first_entry :
      (k : Bytes) (items : List MutableItem)
      → record_of (first_entry k (entries key topic unix_minute own_key items))
        ≡ first_accepted k items
  first_accepted-first_entry k [] = unfold entries first_accepted in refl
  first_accepted-first_entry k (item ∷ items) =
      let ih = first_accepted-first_entry k items in
      elim (Option-cases (accepted key topic unix_minute own_key item)) [
        | inl dropped ↦
            rw
              (
                entries-none key topic unix_minute own_key item items dropped,
                first_accepted-none k item items dropped,
              )
              ih
        | inr (r, kept) ↦
            rw
              (
                entries-some key topic unix_minute own_key item items r kept,
                first_accepted-some k item items r kept,
              )
              (elim (Bool-cases (bytes_eq r.pub_key k)) [
                | inl same ↦ rw same refl
                | inr other ↦ rw other ih
              ])
      ]

  entries-seq :
      (seq : ℤ) (items : List MutableItem)
      → All (λ i. i.seq ≡ seq) items
      → All (λ e. e.0 ≡ seq) (entries key topic unix_minute own_key items)
  entries-seq seq items h =
      All-of_Mem (λ e. e.0 ≡ seq) (entries key topic unix_minute own_key items)
        (λ e m.
          let (item, there, a, s) = entries_sound key topic unix_minute own_key items e m in
          sym s ∙ All-Mem (λ i. i.seq ≡ seq) items h there)

  -- If all items that the DHT returns carry one sequence number, as all that are put by a publication
  -- do, the records that are selected are exactly those that are the first accepted one of their
  -- public key, in the order of the items: a record that was published later for the same minute
  -- does not replace it.
  pub selected_first :
      (seq : ℤ) (items : List MutableItem) (r : Record)
      → All (λ i. i.seq ≡ seq) items
      → Mem r (selected key topic unix_minute own_key items)
        ↔ (first_accepted r.pub_key items ≡ some r)
  unfolding selected
  selected_first seq items r h =
      let k = r.pub_key in
      let table = collect key topic unix_minute own_key items [] in
      let looked : lookup k table ≡ first_entry k (entries key topic unix_minute own_key items) =
        lookup-collect key topic unix_minute own_key k items
        ∙ best-first_entry k seq _ (entries-seq seq items h) in
      let first : record_of (lookup k table) ≡ first_accepted k items =
        ap record_of looked ∙ first_accepted-first_entry k items in
      (
        (λ m.
            let (s, found) =
              values_sound table r (collect-IsTable key topic unix_minute own_key items) m in
            sym first ∙ ap record_of found),
        (λ e.
            let (s, found) = record_of-eq-some (lookup k table) r (first ∙ e) in
            values_complete table k (s, r) found),
      )
