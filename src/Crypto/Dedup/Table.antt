-- ===== src/Crypto/Dedup/Table.antt =====
-- The table against the accepted entries: for each key it holds the first of the entries with the
-- highest sequence number.
use distributed_topic_tracke.Prelude.{
  ◌≡◌, ◌≢◌, refl, sym, ap, subst, ◌∙◌, ◌⊎◌, inl, inr, Bool-cases, true, Option, some, none,
  Option-cases, All-Mem, List, [], ◌∷◌, All, Mem, Bytes, bytes_eq, bytes_eq_iff, bytes_eq_comm, ℤ,
  leb_ℤ, leb_ℤ-refl, leb_ℤ-trans, leb_ℤ-total, arith, if◌then◌else◌,
}
use distributed_topic_tracke.Crypto.Record.{Record}
use distributed_topic_tracke.Crypto.Dedup.{Entry, Table, lookup, insert, keeps, enter}

abbrev pub key_of : Entry → Bytes
key_of e = e.1.pub_key

-- Of two entries for one key the older stays, unless the newer has a higher sequence number.
abbrev pub better : Option Entry → Option Entry → Option Entry
better none e = e
better (some d) none = some d
better (some d) (some e) = if leb_ℤ e.0 d.0 then some d else some e

-- The first of the entries of a key that have the highest sequence number of that key.
abbrev pub best : Bytes → List Entry → Option Entry
best k [] = none
best k (e ∷ es) = if bytes_eq (key_of e) k then better (some e) (best k es) else best k es

unfoldable pub enter_all : List Entry → Table → Table
enter_all [] m = m
enter_all (e ∷ es) m = enter_all es (enter m e)

lookup-insert :
    (k j : Bytes) (e : Entry) (m : Table)
    → lookup j (insert k e m) ≡ (if bytes_eq k j then some e else lookup j m)
unfolding lookup insert
lookup-insert k j e [] = refl
lookup-insert k j e ((i, d) ∷ m) =
    ground (arith, bytes_eq_iff k j, bytes_eq_iff i k, bytes_eq_iff i j, lookup-insert k j e m)

better_assoc : (a b c : Option Entry) → better (better a b) c ≡ better a (better b c)
better_assoc none b c = refl
better_assoc (some x) none c = refl
better_assoc (some x) (some y) none = ground arith
better_assoc (some x) (some y) (some z) = ground (
  arith,
  leb_ℤ-trans z.0 y.0 x.0,
  leb_ℤ-trans y.0 z.0 x.0,
  leb_ℤ-total y.0 x.0,
  leb_ℤ-total z.0 y.0,
  leb_ℤ-total z.0 x.0,
  leb_ℤ-trans x.0 y.0 z.0,
)

enter_lem :
    (m : Table) (seq : ℤ) (r : Record)
    → enter m (seq, r) ≡ (if keeps (lookup r.pub_key m) seq then m else insert r.pub_key (seq, r) m)
unfolding enter
enter_lem m seq r = refl

lookup-enter :
    (k : Bytes) (m : Table) (e : Entry)
    → lookup k (enter m e)
      ≡ (if bytes_eq (key_of e) k then better (lookup k m) (some e) else lookup k m)
unfolding keeps
lookup-enter k m (seq, r) =
    let insertion = lookup-insert r.pub_key k (seq, r) m in
    rw (enter_lem m seq r) (elim (Bool-cases (bytes_eq r.pub_key k)) [
      | inr other ↦ ground arith
      | inl same ↦
          let at_key : lookup k m ≡ lookup r.pub_key m =
            ap (λ j. lookup j m) (sym ((bytes_eq_iff r.pub_key k).0 same)) in
          ground (arith, at_key)
    ])

-- Looked up at any key, the table that the entries leave holds the first of that key's entries with
-- the highest sequence number.
pub lookup-enter_all :
    (k : Bytes) (es : List Entry) (m : Table)
    → lookup k (enter_all es m) ≡ better (lookup k m) (best k es)
unfolding enter_all
lookup-enter_all k [] m = ground arith
lookup-enter_all k (e ∷ es) m =
    lookup-enter_all k es (enter m e)
    ∙ ap (λ o. better o (best k es)) (lookup-enter k m e)
    ∙ (elim (Bool-cases (bytes_eq (key_of e) k)) [
      | inl same ↦ rw same (better_assoc (lookup k m) (some e) (best k es))
      | inr other ↦ rw other
    ])

-- No entry of the key has a higher sequence number than `e`.
abbrev pub IsHighest : Bytes → Entry → List Entry → Type 0
IsHighest k e = All (λ d. (key_of d ≢ k) ⊎ (leb_ℤ d.0 e.0 ≡ true))

pub best-none : (k : Bytes) (es : List Entry) → best k es ≡ none → All (λ d. key_of d ≢ k) es
best-none k [] h = tt
best-none k (e ∷ es) h = elim (Bool-cases (bytes_eq (key_of e) k)) [
  | inr other ↦
      let rest : best k es ≡ none = rw other at h in
      ((λ same. cc (other, (bytes_eq_iff (key_of e) k).1 same)), best-none k es rest)
  | inl same ↦ elim (Option-cases (best k es)) [
    | inl gone ↦ cc (rw (same, gone) at h)
    | inr (d, found) ↦ let impossible : ⊥ = ground arith in absurd impossible
  ]
]

IsHighest-of_none :
    (k : Bytes) (e : Entry) (es : List Entry) → All (λ d. key_of d ≢ k) es → IsHighest k e es
IsHighest-of_none k e [] h = tt
IsHighest-of_none k e (d ∷ es) h = (inl h.0, IsHighest-of_none k e es h.1)

IsHighest-mono :
    (k : Bytes) (d e : Entry) (es : List Entry)
    → leb_ℤ d.0 e.0 ≡ true
    → IsHighest k d es
    → IsHighest k e es
IsHighest-mono k d e [] le h = tt
IsHighest-mono k d e (x ∷ es) le h = (raise h.0, IsHighest-mono k d e es le h.1)
  where
    raise : (key_of x ≢ k) ⊎ (leb_ℤ x.0 d.0 ≡ true) → (key_of x ≢ k) ⊎ (leb_ℤ x.0 e.0 ≡ true)
    raise (inl other) = inl other
    raise (inr below) = inr (leb_ℤ-trans x.0 d.0 e.0 below le)

abbrev IsBest : Bytes → Entry → List Entry → Type 0
IsBest k e es = Mem e es × (key_of e ≡ k) × IsHighest k e es

better-IsBest :
    (k : Bytes) (d c e : Entry) (es : List Entry)
    → key_of d ≡ k
    → IsBest k c es
    → better (some d) (some c) ≡ some e
    → IsBest k e (d ∷ es)
better-IsBest k d c e es kd (mc, kc, hc) h = elim (Bool-cases (leb_ℤ c.0 d.0)) [
  | inl below ↦
      let same : d ≡ e = ground arith in
      subst (λ x. IsBest k x (d ∷ es)) same
        (inl refl, kd, (inr (leb_ℤ-refl d.0), IsHighest-mono k c d es below hc))
  | inr above ↦
      let same : c ≡ e = ground arith in
      subst (λ x. IsBest k x (d ∷ es)) same (inr mc, kc, (inr (leb_ℤ-total c.0 d.0 above), hc))
]

pub best-some :
    (k : Bytes) (es : List Entry) (e : Entry)
    → best k es ≡ some e
    → Mem e es × (key_of e ≡ k) × IsHighest k e es
best-some k [] e h = cc
best-some k (d ∷ es) e h =
    let ih = best-some k es in
    elim (Bool-cases (bytes_eq (key_of d) k)) [
      | inr other ↦
          let rest : best k es ≡ some e = rw other at h in
          let (m, ke, high) = ih e rest in
          (inr m, ke, (inl (λ same. cc (other, (bytes_eq_iff (key_of d) k).1 same)), high))
      | inl same ↦
          let kd = (bytes_eq_iff (key_of d) k).0 same in
          let h' : better (some d) (best k es) ≡ some e = rw same at h in
          elim (Option-cases (best k es)) [
            | inl gone ↦
                let eq : d ≡ e = ground arith in
                subst (λ x. IsBest k x (d ∷ es)) eq
                  (
                    inl refl,
                    kd,
                    (inr (leb_ℤ-refl d.0), IsHighest-of_none k d es (best-none k es gone)),
                  )
            | inr (c, found) ↦ better-IsBest k d c e es kd (ih c found) (rw found at h')
          ]
    ]

-- A key that stands in the entries has a best one.
pub best_of_Mem :
    (es : List Entry) (e : Entry) → Mem e es → (d : Entry) × (best (key_of e) es ≡ some d)
best_of_Mem es e m = elim (Option-cases (best (key_of e) es)) [
  | inr found ↦ found
  | inl gone ↦ absurd (All-Mem _ es (best-none (key_of e) es gone) m refl)
]

-- The keys of the table are those of its entries, and no key stands twice.
abbrev pub IsTable : Table → Type 0
IsTable [] = Unit {0}
IsTable ((k, e) ∷ m) = (key_of e ≡ k) × (lookup k m ≡ none) × IsTable m

insert-IsTable :
    (k : Bytes) (e : Entry) (m : Table) → key_of e ≡ k → IsTable m → IsTable (insert k e m)
unfolding insert lookup
insert-IsTable k e [] h t = (h, refl, tt)
insert-IsTable k e ((j, d) ∷ m) h t = elim (Bool-cases (bytes_eq j k)) [
  | inl same ↦ rw same (h ∙ sym ((bytes_eq_iff j k).0 same), t.1, t.2)
  | inr other ↦
      let free : lookup j (insert k e m) ≡ none =
        ground (arith, lookup-insert k j e m, bytes_eq_comm j k) in
      rw other (t.0, free, insert-IsTable k e m h t.2)
]

enter-IsTable : (m : Table) (e : Entry) → IsTable m → IsTable (enter m e)
enter-IsTable m (seq, r) t =
    rw (enter_lem m seq r) (elim (Bool-cases (keeps (lookup r.pub_key m) seq)) [
      | inl kept ↦ rw kept t
      | inr taken ↦ rw taken (insert-IsTable r.pub_key (seq, r) m refl t)
    ])

pub enter_all-IsTable : (es : List Entry) (m : Table) → IsTable m → IsTable (enter_all es m)
unfolding enter_all
enter_all-IsTable [] m t = t
enter_all-IsTable (e ∷ es) m t = enter_all-IsTable es (enter m e) (enter-IsTable m e t)
