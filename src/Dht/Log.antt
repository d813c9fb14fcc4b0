-- ===== src/Dht/Log.antt =====
-- What `put_mutable` puts, whatever the world answers.
use distributed_topic_tracke.Prelude.{
  ℕ, zero, suc, ◌+◌, ◌%◌, ◌^◌, ◌≤◌, ◌≡◌, refl, sym, ap, subst, ◌∙◌, inl, inr, Bool-cases, true,
  false, ◌∷◌, ◌++◌, Option, Bytes, ◌==◌, ℤ, length, replicate, arith,
}
use distributed_topic_tracke.Dht.{MutableItem, Oracle, DhtActor, is_stored, attempts, put_mutable}
use distributed_topic_tracke.Dht.Retry.{
  retried, with_client, item_of, replicate-append, step_stored, step_last, step_retry,
  put_mutable-client, put_mutable-no_client,
}

mod-le : (n m : ℕ) → n % m ≤ n
mod-le n m = grind arith

-- The log of the second actor is that of the first with copies of the item on top, `left` at most.
abbrev Grows : ℕ → MutableItem → DhtActor → DhtActor → Type 0
Grows left item s s' = (k : ℕ) × (k ≤ left) × (s'.puts ≡ replicate k item ++ s.puts)

module _ (o : Oracle) where
  grow :
      (left : ℕ) (item : MutableItem) (s s' : DhtActor)
      → Grows left item (retried o s item) s'
      → Grows (suc left) item s s'
  unfolding retried
  grow left item s s' (k, few, grown) = (suc k, omega arith, grown ∙ replicate-append k item s.puts)

  no_client :
      (retries left i : ℕ) (item : MutableItem) (s : DhtActor)
      → s.has_client ≡ false
      → (attempts o retries (suc left) i item s).1.puts ≡ s.puts
  unfolding attempts
  no_client retries left i item s c = ground arith

  no_build :
      (retries left i : ℕ) (item : MutableItem) (s : DhtActor)
      → s.has_client ≡ true
      → is_stored (o.put_outcome (length s.puts)) ≡ false
      → (i == retries) ≡ false
      → o.builds s.clients_built ≡ false
      → (attempts o retries (suc left) i item s).1.puts ≡ item ∷ s.puts
  unfolding attempts
  no_build retries left i item s c e more b = ground arith

  attempts-Grows :
      (retries left i : ℕ) (item : MutableItem) (s : DhtActor)
      → Grows left item s (attempts o retries left i item s).1
  attempts-Grows retries zero i item s = (0, omega arith, unfold attempts in refl)
  attempts-Grows retries (suc l) i item s =
      let rest = attempts-Grows retries l (i + 1) item (retried o s item) in
      elim (Bool-cases s.has_client) [
        | inr c ↦ (0, omega arith, no_client retries l i item s c)
        | inl c ↦ elim (Bool-cases (is_stored (o.put_outcome (length s.puts)))) [
          | inl done ↦
              (1, omega arith, ap (λ r. r.1.puts) (step_stored o retries l i item s c done))
          | inr undone ↦ elim (Bool-cases (i == retries)) [
            | inl last ↦
                (1, omega arith, ap (λ r. r.1.puts) (step_last o retries l i item s c undone last))
            | inr more ↦ elim (Bool-cases (o.builds s.clients_built)) [
              | inr b ↦ (1, omega arith, no_build retries l i item s c undone more b)
              | inl b ↦
                  subst (λ r. Grows (suc l) item s r.1)
                    (sym (step_retry o retries l i item s c undone more b))
                    (grow l item s (attempts o retries l (i + 1) item (retried o s item)).1 rest)
            ]
          ]
        ]
      ]

  module _ (key value : Bytes) (salt : Option Bytes) (seq : ℤ) (s : DhtActor) where
    no_first_build :
        s.has_client ≡ false
        → o.builds s.clients_built ≡ false
        → (put_mutable o key salt value seq s).1.puts ≡ s.puts
    unfolding put_mutable
    no_first_build c b = ground arith

    -- Whatever the world answers, `put_mutable` puts copies of one item, with the given key, salt,
    -- value and sequence number, and at most `1 + retries` of them.
    pub put_mutable_puts :
        (k : ℕ) × (k ≤ 1 + s.config.retries)
        × ((put_mutable o key salt value seq s).1.puts
            ≡ replicate k (record { signing_key = key; value = value; seq = seq; salt = salt })
              ++ s.puts)
    unfolding item_of with_client
    put_mutable_puts =
        let rounds = (1 + s.config.retries) % 2 ^ 64 in
        let few : rounds ≤ 1 + s.config.retries = mod-le (1 + s.config.retries) (2 ^ 64) in
        let item = item_of o key value salt seq s in
        elim (Bool-cases s.has_client) [
          | inl c ↦
              let (k, le, grown) = attempts-Grows s.config.retries rounds 0 item s in
              (
                k,
                omega arith,
                ap (λ r. r.1.puts) (put_mutable-client o key value salt seq s c) ∙ grown,
              )
          | inr c ↦ elim (Bool-cases (o.builds s.clients_built)) [
            | inr b ↦ (0, omega arith, no_first_build c b)
            | inl b ↦
                let (k, le, grown) =
                  attempts-Grows s.config.retries rounds 0 item (with_client o s) in
                (
                  k,
                  omega arith,
                  ap (λ r. r.1.puts) (put_mutable-no_client o key value salt seq s c b) ∙ grown,
                )
          ]
        ]
