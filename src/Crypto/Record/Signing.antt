-- ===== src/Crypto/Record/Signing.antt =====
-- `Record::sign` and `Record::verify`.
use distributed_topic_tracke.Prelude.{
  ℕ, ◌-◌, ◌^◌, ◌<◌, ◌≡◌, ◌↔◌, refl, sym, ap, subst, inl, inr, true, ◌++◌, append_assoc, arith,
  Bytes, length, take-append, length-append, bytes_eq_iff, ok, ok_or, Option-cases, some,
}
use distributed_topic_tracke.Crypto.Primitives.{Primitives, Laws, Postcard, PostcardLaws}
use distributed_topic_tracke.Crypto.Record.{
  Record, IsRecord, to_bytes, but_last, signature_data, sign, verify, content, content_to,
  from_arbitrary,
}

but_last-append : (xs ys : Bytes) → length ys ≡ 64 → but_last 64 (xs ++ ys) ≡ ok xs
unfolding but_last
but_last-append xs ys h = ground (
  arith,
  length-append xs ys,
  take-append xs ys (length (xs ++ ys) - 64) (omega (arith, length-append xs ys)),
)

module _ ⦃P : Primitives⦄ where
  signed_bytes : Record → Bytes
  signed_bytes r = signature_data r.topic r.unix_minute r.pub_key r.content

  to_bytes-signed_bytes : (r : Record) → to_bytes r ≡ signed_bytes r ++ r.signature
  unfolding to_bytes signed_bytes signature_data
  to_bytes-signed_bytes r = sym (simp append_assoc)

  but_last-to_bytes : (r : Record) → IsRecord r → but_last 64 (to_bytes r) ≡ ok (signed_bytes r)
  but_last-to_bytes r v =
      rw (to_bytes-signed_bytes r) (but_last-append (signed_bytes r) r.signature v.signature_size)

  -- `verify` accepts a record exactly if it is of the given topic and minute, its public key is a
  -- key, and its signature is one of that key on the topic, the minute, the key and the content.
  pub verify_iff :
      (r : Record) (topic : Bytes) (unix_minute : ℕ)
      → IsRecord r
      → (verify r topic unix_minute ≡ ok tt) ↔ (
          (r.topic ≡ topic)
          × (r.unix_minute ≡ unix_minute)
          × (P.key_is_valid r.pub_key ≡ true)
          × (P.verify_strict r.pub_key
                (signature_data r.topic r.unix_minute r.pub_key r.content)
                r.signature
              ≡ true))
  unfolding verify signed_bytes
  verify_iff r topic unix_minute v = (
    (λ h. ground (arith, but_last-to_bytes r v, bytes_eq_iff r.topic topic)),
    (λ h. ground (arith, but_last-to_bytes r v, bytes_eq_iff r.topic topic)),
  )

  signed_record : Bytes → ℕ → Bytes → Bytes → Record
  signed_record topic unix_minute bytes key = record {
    topic = topic;
    unix_minute = unix_minute;
    pub_key = P.verifying_key key;
    content = record { bytes = bytes };
    signature =
        P.sign key
          (signature_data topic unix_minute (P.verifying_key key) (record { bytes = bytes }));
  }

  sign-eq-ok :
      {A : Type 0} (C : Postcard A) (topic : Bytes) (unix_minute : ℕ) (a : A) (key : Bytes)
      {r : Record}
      → sign C topic unix_minute a key ≡ ok r
      → (bytes : Bytes) × (C.to_allocvec a ≡ some bytes)
        × (r ≡ signed_record topic unix_minute bytes key)
  unfolding sign from_arbitrary signed_record
  sign-eq-ok C topic unix_minute a key e = elim (Option-cases (C.to_allocvec a)) [
    | inl failed ↦ cc (rw (failed, ok_or) at e)
    | inr (bytes, done) ↦ (bytes, done, ground arith)
  ]

  signed_record-IsRecord :
      (topic : Bytes) (unix_minute : ℕ) (bytes key : Bytes)
      → Laws P
      → length topic ≡ 32
      → unix_minute < 256 ^ 8
      → length key ≡ 32
      → IsRecord (signed_record topic unix_minute bytes key)
  unfolding signed_record
  signed_record-IsRecord topic unix_minute bytes key laws ht hm hk = record {
    topic_size = ht;
    minute_fits = hm;
    key_size = laws.verifying_key_length key hk;
    signature_size = laws.sign_length key _;
  }

  verify-signed_record :
      (topic : Bytes) (unix_minute : ℕ) (bytes key : Bytes)
      → Laws P
      → length topic ≡ 32
      → unix_minute < 256 ^ 8
      → length key ≡ 32
      → verify (signed_record topic unix_minute bytes key) topic unix_minute ≡ ok tt
  verify-signed_record topic unix_minute bytes key laws ht hm hk =
      (verify_iff (signed_record topic unix_minute bytes key) topic unix_minute
          (signed_record-IsRecord topic unix_minute bytes key laws ht hm hk)).1
        (unfold signed_record in
          (refl, refl, laws.verifying_key_valid key hk, laws.verify_sign key _ hk))

  -- Whatever `sign` signs with a 32-byte key for a topic and a minute is a record of the right
  -- sizes, which `verify` accepts for that topic and minute, and whose content reads back.
  pub verify-sign :
      {A : Type 0} (C : Postcard A) (topic : Bytes) (unix_minute : ℕ) (a : A) (key : Bytes)
      (r : Record)
      → Laws P
      → PostcardLaws C
      → length topic ≡ 32
      → unix_minute < 256 ^ 8
      → length key ≡ 32
      → sign C topic unix_minute a key ≡ ok r
      → IsRecord r × (verify r topic unix_minute ≡ ok tt) × (content C r ≡ ok a)
  verify-sign C topic unix_minute a key r laws codec ht hm hk e =
      let (bytes, written, same) = sign-eq-ok C topic unix_minute a key e in
      subst (λ q. IsRecord q × (verify q topic unix_minute ≡ ok tt) × (content C q ≡ ok a))
        (sym same)
        (
          signed_record-IsRecord topic unix_minute bytes key laws ht hm hk,
          verify-signed_record topic unix_minute bytes key laws ht hm hk,
          unfold signed_record content content_to in
              rw (codec.from_bytes-to_allocvec a bytes written),
        )

  pub sign-pub_key :
      {A : Type 0} (C : Postcard A) (topic : Bytes) (unix_minute : ℕ) (a : A) (key : Bytes)
      (r : Record)
      → sign C topic unix_minute a key ≡ ok r
      → r.pub_key ≡ P.verifying_key key
  unfolding signed_record
  sign-pub_key C topic unix_minute a key r e =
      let (bytes, written, same) = sign-eq-ok C topic unix_minute a key e in
      ap (λ (x : Record). x.pub_key) same

  pub sign-unix_minute :
      {A : Type 0} (C : Postcard A) (topic : Bytes) (unix_minute : ℕ) (a : A) (key : Bytes)
      (r : Record)
      → sign C topic unix_minute a key ≡ ok r
      → r.unix_minute ≡ unix_minute
  unfolding signed_record
  sign-unix_minute C topic unix_minute a key r e =
      let (bytes, written, same) = sign-eq-ok C topic unix_minute a key e in
      ap (λ (x : Record). x.unix_minute) same
