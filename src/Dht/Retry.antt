-- ===== src/Dht/Retry.antt =====
-- The retry loop of `put_mutable` against its description by the outcomes of the puts.
use distributed_topic_tracke.Prelude.{
  ℕ, zero, suc, ◌+◌, ◌%◌, ◌^◌, ◌≤◌, ◌<◌, ◌≡◌, refl, sym, ap, ◌∙◌, inl, inr, Bool-cases, Bool, true,
  false, ◌||◌, List, ◌∷◌, ◌++◌, Option, Bytes, ◌==◌, ℤ, length, replicate, arith, Result, ok, err,
  if◌then◌else◌, dht_put_failed, dht_build_failed, ok≢err,
}
use distributed_topic_tracke.Timing.{next_interval}
use distributed_topic_tracke.Dht.{MutableItem, Oracle, DhtActor, is_stored, attempts, put_mutable}

pub replicate-append {ℓ} :
    {A : Type ℓ} (k : ℕ) (a : A) (xs : List A)
    → replicate k a ++ (a ∷ xs) ≡ a ∷ (replicate k a ++ xs)
replicate-append zero a xs = refl
replicate-append (suc k) a xs = ap (◌∷◌ a) (replicate-append k a xs)

all_rounds : (n : ℕ) → n + 1 < 2 ^ 64 → (1 + n) % 2 ^ 64 ≡ suc n
all_rounds n h = omega arith

module _ (o : Oracle) where
  -- Whether one of the next `k` puts is stored, after `n` earlier ones.
  unfoldable pub stored_within : ℕ → ℕ → Bool
  stored_within zero n = false
  stored_within (suc k) n = is_stored (o.put_outcome n) || stored_within k (suc n)

  -- How many puts are made up to the first that is stored, `k` at most.
  unfoldable pub tries : ℕ → ℕ → ℕ
  tries zero n = 0
  tries (suc k) n = if is_stored (o.put_outcome n) then 1 else suc (tries k (suc n))

  pub tries-le : (k n : ℕ) → tries k n ≤ k
  unfolding tries
  tries-le zero n = omega arith
  tries-le (suc k) n = ground (arith, tries-le k (suc n))

  -- The actor after a put that was not stored, a reset and a wait.
  unfoldable pub retried : DhtActor → MutableItem → DhtActor
  retried s item = record s {
    has_client = true;
    clients_built = suc s.clients_built;
    puts = item ∷ s.puts;
    waits =
        next_interval s.config.base_retry_interval s.config.max_retry_jitter
          (o.random (length s.waits))
        ∷ s.waits;
  }

  module _ (retries left i : ℕ) (item : MutableItem) (s : DhtActor) (c : s.has_client ≡ true) where
    pub step_stored :
        is_stored (o.put_outcome (length s.puts)) ≡ true
        → attempts o retries (suc left) i item s ≡ (ok tt, record s { puts = item ∷ s.puts })
    unfolding attempts
    step_stored e = rw (c, e)

    pub step_last :
        is_stored (o.put_outcome (length s.puts)) ≡ false
        → (i == retries) ≡ true
        → attempts o retries (suc left) i item s
          ≡ (err dht_put_failed, record s { puts = item ∷ s.puts })
    unfolding attempts
    step_last e last = rw (c, e, last)

    pub step_retry :
        is_stored (o.put_outcome (length s.puts)) ≡ false
        → (i == retries) ≡ false
        → o.builds s.clients_built ≡ true
        → attempts o retries (suc left) i item s
          ≡ attempts o retries left (i + 1) item (retried s item)
    unfolding attempts retried
    step_retry e more built = rw (c, e, more, built)

  abbrev Conforms : ℕ → MutableItem → DhtActor → Result (Unit {0}) × DhtActor → Type 0
  Conforms k item s r =
      (r.0 ≡ (if stored_within k (length s.puts) then ok tt else err dht_put_failed))
      × (r.1.puts ≡ replicate (tries k (length s.puts)) item ++ s.puts)

  attempts-Conforms :
      (retries left i : ℕ) (item : MutableItem) (s : DhtActor)
      → ((n : ℕ) → o.builds n ≡ true)
      → s.has_client ≡ true
      → i + left ≡ retries
      → Conforms (suc left) item s (attempts o retries (suc left) i item s)
  unfolding stored_within tries retried
  attempts-Conforms retries zero i item s built c e =
      elim (Bool-cases (is_stored (o.put_outcome (length s.puts)))) [
        | inl done ↦ rw (step_stored retries zero i item s c done, done) (refl, refl)
        | inr undone ↦
            rw (step_last retries zero i item s c undone (ground arith), undone) (refl, refl)
      ]
  attempts-Conforms retries (suc l) i item s built c e =
      let (result, puts) =
        attempts-Conforms retries l (i + 1) item (retried s item) built refl (omega arith) in
      elim (Bool-cases (is_stored (o.put_outcome (length s.puts)))) [
        | inl done ↦ rw (step_stored retries (suc l) i item s c done, done) (refl, refl)
        | inr undone ↦
            rw
              (
                step_retry retries (suc l) i item s c undone (ground arith) (built s.clients_built),
                undone,
              )
              (result, puts ∙ replicate-append (tries (suc l) (suc (length s.puts))) item s.puts)
      ]

  attempts_sound :
      (retries left i : ℕ) (item : MutableItem) (s : DhtActor)
      → i + left ≡ retries
      → (attempts o retries (suc left) i item s).0 ≡ ok tt
      → stored_within (suc left) (length s.puts) ≡ true
  unfolding stored_within attempts retried
  attempts_sound retries zero i item s e r = ground arith
  attempts_sound retries (suc l) i item s e r =
      ground (arith, attempts_sound retries l (i + 1) item (retried s item))

  -- The actor after its first client was built.
  unfoldable pub with_client : DhtActor → DhtActor
  with_client s = record s { has_client = true; clients_built = suc s.clients_built }

  module _ (key value : Bytes) (salt : Option Bytes) (seq : ℤ) (s : DhtActor) where
    unfoldable pub item_of : MutableItem
    item_of = record { signing_key = key; value = value; seq = seq; salt = salt }

    pub put_mutable-client :
        s.has_client ≡ true
        → put_mutable o key salt value seq s
          ≡ attempts o s.config.retries ((1 + s.config.retries) % 2 ^ 64) 0 item_of s
    unfolding put_mutable item_of
    put_mutable-client c = rw c

    pub put_mutable-no_client :
        s.has_client ≡ false
        → o.builds s.clients_built ≡ true
        → put_mutable o key salt value seq s
          ≡ attempts o s.config.retries ((1 + s.config.retries) % 2 ^ 64) 0 item_of (with_client s)
    unfolding put_mutable item_of with_client
    put_mutable-no_client c b = rw (c, b)

    pub put_mutable-no_build :
        s.has_client ≡ false
        → o.builds s.clients_built ≡ false
        → (put_mutable o key salt value seq s).0 ≡ err dht_build_failed
    unfolding put_mutable
    put_mutable-no_build c b = rw (c, b)

  -- If every client can be built and `retries + 1` is below 2^64, `put_mutable` makes one attempt and
  -- up to `retries` more: it puts the item until a put is stored, and returns Ok exactly if one of the `1 + retries` puts is.
  -- The actor's log grows by the item once for each attempt.
  pub put_mutable_lem :
      (key value : Bytes) (salt : Option Bytes) (seq : ℤ) (s : DhtActor)
      → ((n : ℕ) → o.builds n ≡ true)
      → s.config.retries + 1 < 2 ^ 64
      → ((put_mutable o key salt value seq s).0 ≡ (
          if stored_within (suc s.config.retries) (length s.puts)
          then ok tt
          else err dht_put_failed))
        × ((put_mutable o key salt value seq s).1.puts
            ≡ replicate
                (tries (suc s.config.retries) (length s.puts))
                (record { signing_key = key; value = value; seq = seq; salt = salt })
              ++ s.puts)
  unfolding item_of
  put_mutable_lem key value salt seq s built h = elim (Bool-cases s.has_client) [
    | inl c ↦
        rw (put_mutable-client key value salt seq s c, all_rounds s.config.retries h)
          (attempts-Conforms s.config.retries s.config.retries 0 _ s built c (omega arith))
    | inr c ↦
        rw
          (
            put_mutable-no_client key value salt seq s c (built s.clients_built),
            all_rounds s.config.retries h,
          )
          (unfold with_client in
            attempts-Conforms s.config.retries s.config.retries 0 _ (with_client s) built refl
              (omega arith))
  ]

  -- Whether or not clients can be built, `put_mutable` returns Ok only if a put was stored.
  pub put_mutable_sound :
      (key value : Bytes) (salt : Option Bytes) (seq : ℤ) (s : DhtActor)
      → s.config.retries + 1 < 2 ^ 64
      → (put_mutable o key salt value seq s).0 ≡ ok tt
      → stored_within (suc s.config.retries) (length s.puts) ≡ true
  put_mutable_sound key value salt seq s h e = elim (Bool-cases s.has_client) [
    | inl c ↦ attempts_sound s.config.retries s.config.retries 0 _ s (omega arith) (
        sym (
          ap (λ r. r.0) (put_mutable-client key value salt seq s c)
          ∙ ap (λ n. (attempts o s.config.retries n 0 (item_of key value salt seq s) s).0)
              (all_rounds s.config.retries h))
        ∙ e)
    | inr c ↦ elim (Bool-cases (o.builds s.clients_built)) [
      | inl b ↦
          unfold with_client in
          attempts_sound s.config.retries s.config.retries 0 _ (with_client s) (omega arith) (
            sym (
              ap (λ r. r.0) (put_mutable-no_client key value salt seq s c b)
              ∙ ap
                  (λ n.
                    (attempts o s.config.retries n 0 (item_of key value salt seq s)
                      (with_client s)).0)
                  (all_rounds s.config.retries h))
            ∙ e)
      | inr b ↦ absurd (ok≢err (sym e ∙ put_mutable-no_build key value salt seq s c b))
    ]
  ]
