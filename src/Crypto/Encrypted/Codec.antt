-- ===== src/Crypto/Encrypted/Codec.antt =====
-- The wire form of an encrypted record: what `to_bytes` writes and what `from_bytes` accepts.
use distributed_topic_tracke.Prelude.{
  ℕ, ◌+◌, ◌%◌, ◌^◌, ◌≤◌, ◌<◌, ◌≡◌, refl, sym, subst, ◌∙◌, ◌⊎◌, inl, inr, Bool-cases, true, false,
  ◌++◌, arith, Bytes, IsByte, All, length, take, drop, to_le_bytes, from_le_bytes, split_at-append,
  split_at-ok, try_into-ok, ltb, ◌==◌, length-append, length-take, length-drop, length-to_le_bytes,
  from_le_bytes-to_le_bytes, to_le_bytes-from_le_bytes, take-append-drop, All-take, Result, ok, err,
  ◌>>=◌, exceeds_maximum_size, ok_or, guard, not, ◌>>◌, length_overflow, length_exceeds_maximum,
  length_mismatch, split_at, Error, ok≢err, buffer_too_short, if◌then◌else◌,
}
use distributed_topic_tracke.Crypto.Encrypted.{
  EncryptedRecord, to_bytes, from_bytes, checked_add_u32,
}

-- The length of the sealed record in four bytes, the sealed record, the sealed key.
pub wire : EncryptedRecord → Bytes
wire e =
    to_le_bytes 4 (length e.encrypted_record) ++ (e.encrypted_record ++ e.encrypted_decryption_key)

pub length-wire :
    (e : EncryptedRecord)
    → length (wire e) ≡ 4 + length e.encrypted_record + length e.encrypted_decryption_key
unfolding wire
length-wire e = omega (
  arith,
  length-to_le_bytes 4 (length e.encrypted_record),
  length-append (to_le_bytes 4 (length e.encrypted_record))
      (e.encrypted_record ++ e.encrypted_decryption_key),
  length-append e.encrypted_record e.encrypted_decryption_key,
)

-- The sizes that `from_bytes` accepts.
pub record IsSized (e : EncryptedRecord) : Type 0 where
  pub record_size : length e.encrypted_record ≤ 2048
  pub key_size : length e.encrypted_decryption_key ≡ 88

-- `from_bytes` reads every sized record from its wire form.
pub from_bytes-wire : (e : EncryptedRecord) → IsSized e → from_bytes (wire e) ≡ ok e
from_bytes-wire e v =
    let n = length e.encrypted_record in
    let long : ltb (length (wire e)) 4 ≡ false = ground (arith, length-wire e) in
    let sum : length (e.encrypted_record ++ e.encrypted_decryption_key) ≡ n + 88 =
      omega (arith, length-append e.encrypted_record e.encrypted_decryption_key, v.key_size) in
    let fits : ltb (n + 88) (2 ^ 32) ≡ true = ground (arith, v.record_size) in
    let small : ltb 2048 n ≡ false = ground (arith, v.record_size) in
    let same : (n + 88 == n + 88) ≡ true = ground arith in
    unfold from_bytes checked_add_u32 in
    rw long (
      unfold wire in
      rw (
        split_at-append (to_le_bytes 4 n) _ 4 (sym (length-to_le_bytes 4 n)),
        try_into-ok 4 (to_le_bytes 4 n) (length-to_le_bytes 4 n),
        from_le_bytes-to_le_bytes 4 n (omega (arith, v.record_size)),
        fits,
        small,
        sum,
        same,
        split_at-append e.encrypted_record e.encrypted_decryption_key n refl,
      ))

to_bytes-narrow :
    (e : EncryptedRecord)
    → length e.encrypted_record < 2 ^ 32
    → to_bytes e ≡ (if ltb 2048 (length (wire e)) then err exceeds_maximum_size else ok (wire e))
unfolding to_bytes wire
to_bytes-narrow e h =
    let fits : length e.encrypted_record % 2 ^ 32 ≡ length e.encrypted_record = omega arith in
    rw fits

to_bytes-wide :
    (e : EncryptedRecord)
    → 2 ^ 32 ≤ length e.encrypted_record
    → to_bytes e ≡ err exceeds_maximum_size
unfolding to_bytes
to_bytes-wide e h =
    let n = length e.encrypted_record % 2 ^ 32 in
    let tail = e.encrypted_record ++ e.encrypted_decryption_key in
    let big : ltb 2048 (length (to_le_bytes 4 n ++ tail)) ≡ true = ground (
      arith,
      length-append (to_le_bytes 4 n) tail,
      length-append e.encrypted_record e.encrypted_decryption_key,
    ) in
    rw big

-- `to_bytes` writes the wire form if that has at most 2048 bytes, and fails otherwise.
pub to_bytes_sealed_lem :
    (e : EncryptedRecord)
    → to_bytes e ≡ (if ltb 2048 (length (wire e)) then err exceeds_maximum_size else ok (wire e))
to_bytes_sealed_lem e = elim (Bool-cases (ltb (length e.encrypted_record) (2 ^ 32))) [
  | inl narrow ↦ to_bytes-narrow e (ground arith)
  | inr wide ↦
      let big : ltb 2048 (length (wire e)) ≡ true = ground (arith, length-wire e) in
      rw big (to_bytes-wide e (ground arith))
]

-- What was written is the wire form, of at most 2048 bytes.
to_bytes-eq-ok :
    (e : EncryptedRecord) (buf : Bytes)
    → to_bytes e ≡ ok buf
    → (wire e ≡ buf) × (length (wire e) ≤ 2048)
to_bytes-eq-ok e buf h = ground (arith, to_bytes_sealed_lem e)

-- What `from_bytes` does after it has read the length `n`.
checked : ℕ → Bytes → Result EncryptedRecord
checked n payload = do
  expected ← ok_or (checked_add_u32 n 88) length_overflow
  guard (not (ltb 2048 n)) length_exceeds_maximum
  guard (length payload == expected) length_mismatch
  (encrypted_record, encrypted_decryption_key) ← split_at n payload
  ok (record {
    encrypted_record = encrypted_record;
    encrypted_decryption_key = encrypted_decryption_key;
  })

checked_cases :
    (n : ℕ) (payload : Bytes)
    → ((x : Error) × (checked n payload ≡ err x))
      ⊎ ((n ≤ 2048)
          × (length payload ≡ n + 88)
          × (checked n payload
              ≡ ok (record {
                encrypted_record = take n payload;
                encrypted_decryption_key = drop n payload;
              })))
unfolding checked checked_add_u32
checked_cases n payload = elim (Bool-cases (ltb (n + 88) (2 ^ 32))) [
  | inr wide ↦ inl (length_overflow, rw wide)
  | inl fits ↦ elim (Bool-cases (ltb 2048 n)) [
    | inl big ↦ inl (length_exceeds_maximum, rw (fits, big))
    | inr small ↦ elim (Bool-cases (length payload == n + 88)) [
      | inr other ↦ inl (length_mismatch, rw (fits, small, other))
      | inl same ↦
          inr (
            ground arith,
            ground arith,
            rw (fits, small, same, split_at-ok n payload (ground arith)),
          )
    ]
  ]
]

from_bytes-checked :
    (buf : Bytes)
    → 4 ≤ length buf
    → from_bytes buf ≡ checked (from_le_bytes (take 4 buf)) (drop 4 buf)
unfolding from_bytes checked
from_bytes-checked buf h =
    let long : ltb (length buf) 4 ≡ false = ground arith in
    rw (long, split_at-ok 4 buf h, try_into-ok 4 (take 4 buf) (omega (arith, length-take 4 buf)))

-- The record at a length `n` that matches the payload.
module _ (buf : Bytes) (a : All IsByte buf) (h : 4 ≤ length buf) where
  size_field : ℕ
  size_field = from_le_bytes (take 4 buf)

  found : EncryptedRecord
  found = record {
    encrypted_record = take size_field (drop 4 buf);
    encrypted_decryption_key = drop size_field (drop 4 buf);
  }

  size_field_bytes : to_le_bytes 4 size_field ≡ take 4 buf
  unfolding size_field
  size_field_bytes =
      subst (λ k. to_le_bytes k (from_le_bytes (take 4 buf)) ≡ take 4 buf)
        (omega (arith, length-take 4 buf))
        (to_le_bytes-from_le_bytes (take 4 buf) (All-take IsByte 4 buf a))

  found_size : length (drop 4 buf) ≡ size_field + 88 → length found.encrypted_record ≡ size_field
  unfolding found
  found_size e = omega (arith, length-take size_field (drop 4 buf))

  found-IsSized : size_field ≤ 2048 → length (drop 4 buf) ≡ size_field + 88 → IsSized found
  found-IsSized small e = record {
    record_size = omega (arith, found_size e);
    key_size = unfold found in omega (arith, length-drop size_field (drop 4 buf));
  }

  wire-found : length (drop 4 buf) ≡ size_field + 88 → wire found ≡ buf
  wire-found e =
      unfold wire in
      rw (found_size e, size_field_bytes)
        (unfold found in rw (take-append-drop size_field (drop 4 buf)) (take-append-drop 4 buf))

-- On bytes `from_bytes` never panics. It fails, or the input is the wire form of the record that it
-- returns, and the parts of that have the accepted sizes.
pub from_bytes_sealed_cases :
    (buf : Bytes)
    → All IsByte buf
    → ((x : Error) × (from_bytes buf ≡ err x))
      ⊎ ((e : EncryptedRecord) × (from_bytes buf ≡ ok e) × (wire e ≡ buf) × IsSized e)
from_bytes_sealed_cases buf a = elim (Bool-cases (ltb (length buf) 4)) [
  | inl short ↦ inl (buffer_too_short, unfold from_bytes in rw short)
  | inr long ↦
      let h : 4 ≤ length buf = ground arith in
      elim (checked_cases (from_le_bytes (take 4 buf)) (drop 4 buf)) [
        | inl (x, e) ↦ inl (x, from_bytes-checked buf h ∙ e)
        | inr (small, size, e) ↦
            unfold size_field found in
            inr (
              found buf a h,
              from_bytes-checked buf h ∙ e,
              wire-found buf a h size,
              found-IsSized buf a h small size,
            )
      ]
]

-- `from_bytes` reads back every record that `to_bytes` wrote with a sealed key of 88 bytes.
pub from_bytes-to_bytes_sealed :
    (e : EncryptedRecord) (buf : Bytes)
    → length e.encrypted_decryption_key ≡ 88
    → to_bytes e ≡ ok buf
    → from_bytes buf ≡ ok e
from_bytes-to_bytes_sealed e buf k w =
    let (same, small) = to_bytes-eq-ok e buf w in
    subst (λ b. from_bytes b ≡ ok e) same
      (from_bytes-wire e (record { record_size = omega (arith, length-wire e); key_size = k }))

-- `from_bytes` accepts no more than 2140 bytes. `to_bytes` writes the record that `from_bytes` read
-- as the very same bytes, if these are at most 2048, and refuses to write it otherwise.
pub to_bytes-from_bytes_sealed :
    (buf : Bytes) (e : EncryptedRecord)
    → All IsByte buf
    → from_bytes buf ≡ ok e
    → (length buf ≤ 2140)
      × (to_bytes e ≡ (if ltb 2048 (length buf) then err exceeds_maximum_size else ok buf))
to_bytes-from_bytes_sealed buf e a w = elim (from_bytes_sealed_cases buf a) [
  | inl (x, failed) ↦ absurd (ok≢err (sym w ∙ failed))
  | inr (e', w', same, sized) ↦
      let eq : e' ≡ e = cc in
      let buf_eq : wire e ≡ buf = subst (λ q. wire q ≡ buf) eq same in
      let written : (length (wire e) ≤ 2140)
          × (to_bytes e
              ≡ (if ltb 2048 (length (wire e)) then err exceeds_maximum_size else ok (wire e))) =
        (
          subst (λ q. length (wire q) ≤ 2140) eq
              (omega (arith, length-wire e', sized.record_size, sized.key_size)),
          to_bytes_sealed_lem e,
        ) in
      subst
        (λ b.
          (length b ≤ 2140)
          × (to_bytes e ≡ (if ltb 2048 (length b) then err exceeds_maximum_size else ok b)))
        buf_eq written
]
