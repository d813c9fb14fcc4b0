-- ===== src/Crypto/Dedup/Values.antt =====
-- The records of the table of `get_records`, which is a hash map in the code.
use distributed_topic_tracke.Prelude.{
  ◌≡◌, ◌≢◌, sym, ap, subst, ◌∙◌, inl, inr, Bool-cases, true, some, none, List, [], ◌∷◌, All,
  All-of_Mem, Mem, Bytes, bytes_eq, bytes_eq_iff, ℤ,
}
use distributed_topic_tracke.Crypto.Record.{Record}
use distributed_topic_tracke.Crypto.Dedup.{Entry, Table, lookup, values}
use distributed_topic_tracke.Crypto.Dedup.Table.{IsTable}

pub values_sound :
    (m : Table) (r : Record)
    → IsTable m
    → Mem r (values m)
    → (seq : ℤ) × (lookup r.pub_key m ≡ some (seq, r))
unfolding values lookup
values_sound [] r t h = absurd h
values_sound ((k, (seq, q)) ∷ m) r t (inl e) =
    let same : bytes_eq k r.pub_key ≡ true =
      (bytes_eq_iff k r.pub_key).1 (sym t.0 ∙ ap (λ x. x.pub_key) (sym e)) in
    (seq, rw same (ap (λ x. some (seq, x)) (sym e)))
values_sound ((k, (seq, q)) ∷ m) r t (inr h) =
    let (old, found) = values_sound m r t.2 h in
    elim (Bool-cases (bytes_eq k r.pub_key)) [
      | inr other ↦ (old, rw other found)
      | inl same ↦
          let at_key : lookup r.pub_key m ≡ none =
            subst (λ j. lookup j m ≡ none) ((bytes_eq_iff k r.pub_key).0 same) t.1 in
          cc (at_key, found)
    ]

pub values_complete : (m : Table) (k : Bytes) (e : Entry) → lookup k m ≡ some e → Mem e.1 (values m)
unfolding values lookup
values_complete [] k e h = cc
values_complete ((j, (seq, q)) ∷ m) k e h =
    let ih = values_complete m k e in
    elim (Bool-cases (bytes_eq j k)) [
      | inl same ↦ let found : some (seq, q) ≡ some e = rw same at h in inl (cc found)
      | inr other ↦ inr (ih (rw other at h))
    ]

-- No two records of the list have one public key.
abbrev pub HaveDistinctKeys : List Record → Type 0
HaveDistinctKeys [] = Unit {0}
HaveDistinctKeys (r ∷ rs) = All (λ q. q.pub_key ≢ r.pub_key) rs × HaveDistinctKeys rs

pub values-HaveDistinctKeys : (m : Table) → IsTable m → HaveDistinctKeys (values m)
unfolding values lookup
values-HaveDistinctKeys [] t = tt
values-HaveDistinctKeys ((k, (seq, r)) ∷ m) t = (
  All-of_Mem (λ q. q.pub_key ≢ r.pub_key) (values m)
      (λ q h same.
        let (old, found) = values_sound m q t.2 h in
        let at_key : lookup q.pub_key m ≡ none =
          subst (λ j. lookup j m ≡ none) (sym t.0 ∙ sym same) t.1 in
        cc (at_key, found)),
  values-HaveDistinctKeys m t.2,
)
