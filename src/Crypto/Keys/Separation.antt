-- ===== src/Crypto/Keys/Separation.antt =====
-- Different slots have different keys and salts, unless the truncated SHA-512 collides.
use distributed_topic_tracke.Prelude.{
  ℕ, ◌^◌, ◌<◌, ◌≡◌, ◌≢◌, ◌⊎◌, inl, inr, refl, sym, ap, ◌∙◌, arith, ◌++◌, Bytes, length,
  length-append, to_le_bytes, to_be_bytes, length-to_le_bytes, length-to_be_bytes,
  to_le_bytes-injective, to_be_bytes-injective, append-injective, Bytes-cases, length-take,
}
use distributed_topic_tracke.Crypto.Primitives.{Primitives, Laws}
use distributed_topic_tracke.Crypto.Keys.{
  TopicId, hash32, salt_prefix, signing_keypair, salt, default_derive, default_rotation,
  encryption_keypair,
}

module _ ⦃P : Primitives⦄ where
  -- Two inputs with one truncated hash.
  abbrev pub Collision : Type 0
  Collision = (a : Bytes) × (b : Bytes) × (a ≢ b) × (hash32 a ≡ hash32 b)

  hash32-injective : (a b : Bytes) → hash32 a ≡ hash32 b → (a ≡ b) ⊎ Collision
  hash32-injective a b e = elim (Bytes-cases a b) [
    | inl same ↦ inl same
    | inr other ↦ inr (a, b, other, e)
  ]

  pub length-hash32 : (m : Bytes) → Laws P → length (hash32 m) ≡ 32
  unfolding hash32
  length-hash32 m laws = omega (arith, length-take 32 (P.sha512 m), laws.sha512_length m)

  slot_input :
      (s t : Bytes) (m n : ℕ)
      → length s ≡ length t
      → m < 256 ^ 8
      → n < 256 ^ 8
      → s ++ to_le_bytes 8 m ≡ t ++ to_le_bytes 8 n
      → (s ≡ t) × (m ≡ n)
  slot_input s t m n h hm hn e =
      let (p, q) = append-injective s t h e in (p, to_le_bytes-injective 8 m n hm hn q)

  -- Two slots, each a topic and a minute, have the same salt, or the same DHT key pair, only if they
  -- are the same slot, or the truncated SHA-512 has a collision.
  pub slot_separation :
      (s t : TopicId) (m n : ℕ)
      → length s.hash ≡ 32
      → length t.hash ≡ 32
      → m < 256 ^ 8
      → n < 256 ^ 8
      → (salt s m ≡ salt t n) ⊎ (signing_keypair s m ≡ signing_keypair t n)
      → ((s.hash ≡ t.hash) × (m ≡ n)) ⊎ Collision
  unfolding salt signing_keypair
  slot_separation s t m n hs ht hm hn (inl e) = elim (hash32-injective _ _ e) [
    | inr c ↦ inr c
    | inl same ↦ inl (
        slot_input s.hash t.hash m n (hs ∙ sym ht) hm hn
          (append-injective salt_prefix salt_prefix refl same).1)
  ]
  slot_separation s t m n hs ht hm hn (inr e) = elim (hash32-injective _ _ e) [
    | inr c ↦ inr c
    | inl same ↦ inl (slot_input s.hash t.hash m n (hs ∙ sym ht) hm hn same)
  ]

  -- Under the default rotation two slots share an encryption key only if topic, minute and initial
  -- secret agree, or the truncated SHA-512 has a collision.
  pub encryption_separation :
      (s t : TopicId) (m n : ℕ) (u v : Bytes)
      → length s.hash ≡ 32
      → length t.hash ≡ 32
      → m < 256 ^ 8
      → n < 256 ^ 8
      → encryption_keypair s default_rotation u m ≡ encryption_keypair t default_rotation v n
      → ((s.hash ≡ t.hash) × (m ≡ n) × (u ≡ v)) ⊎ Collision
  unfolding encryption_keypair default_rotation default_derive
  encryption_separation s t m n u v hs ht hm hn e = elim (hash32-injective _ _ e) [
    | inr c ↦ inr c
    | inl same ↦
        let (p, rest) = append-injective s.hash t.hash (hs ∙ sym ht) same in
        let (q, r) =
          append-injective (to_be_bytes 8 m) (to_be_bytes 8 n)
            (length-to_be_bytes 8 m ∙ sym (length-to_be_bytes 8 n)) rest in
        inl (p, to_be_bytes-injective 8 m n hm hn q, r)
  ]

  length-slot : (t : TopicId) (n : ℕ) → length t.hash ≡ 32 → length (t.hash ++ to_le_bytes 8 n) ≡ 40
  length-slot t n ht = omega (arith, length-append t.hash (to_le_bytes 8 n), length-to_le_bytes 8 n)

  length-salted :
      (t : TopicId) (n : ℕ)
      → length t.hash ≡ 32
      → length (salt_prefix ++ (t.hash ++ to_le_bytes 8 n)) ≡ 44
  length-salted t n ht = omega (arith, length-slot t n ht)

  length-derivation :
      (t : TopicId) (n : ℕ) (u : Bytes)
      → length t.hash ≡ 32
      → length u ≡ 32
      → length (t.hash ++ (to_be_bytes 8 n ++ u)) ≡ 72
  length-derivation t n u ht hu = omega (
    arith,
    length-append t.hash (to_be_bytes 8 n ++ u),
    length-append (to_be_bytes 8 n) u,
    length-to_be_bytes 8 n,
  )

  pub different_sizes :
      (a b : Bytes) (k l : ℕ)
      → length a ≡ k
      → length b ≡ l
      → k ≢ l
      → hash32 a ≡ hash32 b
      → Collision
  different_sizes a b k l ha hb h e = (a, b, (λ same. h (sym ha ∙ ap length same ∙ hb)), e)

  -- The salt of a slot, the DHT key of a slot and the default encryption key of a slot never
  -- coincide, for whatever slots, unless the truncated SHA-512 has a collision.
  pub domain_separation :
      (s t : TopicId) (m n : ℕ) (u : Bytes)
      → length s.hash ≡ 32
      → length t.hash ≡ 32
      → length u ≡ 32
      → (salt s m ≡ signing_keypair t n)
        ⊎ (salt s m ≡ encryption_keypair t default_rotation u n)
        ⊎ (signing_keypair s m ≡ encryption_keypair t default_rotation u n)
      → Collision
  unfolding salt signing_keypair encryption_keypair default_rotation default_derive
  domain_separation s t m n u hs ht hu (inl e) =
      different_sizes _ _ 44 40 (length-salted s m hs) (length-slot t n ht) (omega arith) e
  domain_separation s t m n u hs ht hu (inr (inl e)) =
      different_sizes _ _ 44 72 (length-salted s m hs) (length-derivation t n u ht hu) (omega arith)
        e
  domain_separation s t m n u hs ht hu (inr (inr e)) =
      different_sizes _ _ 40 72 (length-slot s m hs) (length-derivation t n u ht hu) (omega arith) e
