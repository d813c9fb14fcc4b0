-- ===== src/Crypto/Record/Codec.antt =====
-- `Record::to_bytes` and `Record::from_bytes` are inverse, and `from_bytes` decides by the length.
use distributed_topic_tracke.Prelude.{
  ℕ, ◌+◌, ◌-◌, ◌≤◌, ◌<◌, ◌≡◌, sym, ap, subst, ◌∙◌, ◌⊎◌, inl, inr, Bool-cases, true, false, [], ◌++◌,
  append-nil, arith, Bytes, IsByte, All, length, take, drop, to_le_bytes, from_le_bytes, split_at,
  split_at-append, split_at-ok, try_into-ok, ltb, length-append, length-take, length-drop,
  length-to_le_bytes, from_le_bytes-to_le_bytes, to_le_bytes-from_le_bytes, from_le_bytes-lt,
  take-append-drop, All-take, All-drop, ok, err, buffer_too_short, ok≢err,
}
use distributed_topic_tracke.Crypto.Record.{
  Record, IsRecord, to_bytes, from_bytes, split_at_end, is_empty,
}

split_at_end-append :
    (xs ys : Bytes) (n : ℕ) → n ≡ length ys → split_at_end n (xs ++ ys) ≡ ok (xs, ys)
unfolding split_at_end
split_at_end-append xs ys n h = ground (
  arith,
  length-append xs ys,
  split_at-append xs ys (length (xs ++ ys) - n) (omega (arith, length-append xs ys)),
)

pub length-to_bytes : (r : Record) → IsRecord r → length (to_bytes r) ≡ 136 + length r.content.bytes
unfolding to_bytes
length-to_bytes r v = omega (
  arith,
  v.topic_size,
  v.key_size,
  v.signature_size,
  length-to_le_bytes 8 r.unix_minute,
  length-append r.topic
      (to_le_bytes 8 r.unix_minute ++ (r.pub_key ++ (r.content.bytes ++ r.signature))),
  length-append (to_le_bytes 8 r.unix_minute) (r.pub_key ++ (r.content.bytes ++ r.signature)),
  length-append r.pub_key (r.content.bytes ++ r.signature),
  length-append r.content.bytes r.signature,
)

split_at_all : (xs : Bytes) (n : ℕ) → n ≡ length xs → split_at n xs ≡ ok (xs, [])
split_at_all xs n h =
    subst (λ zs. split_at n zs ≡ ok (xs, [])) (append-nil xs) (split_at-append xs [] n h)

-- `from_bytes` reads back every record that `to_bytes` wrote.
pub from_bytes-to_bytes : (r : Record) → IsRecord r → from_bytes (to_bytes r) ≡ ok r
from_bytes-to_bytes r v =
    let long : ltb (length (to_bytes r)) 136 ≡ false = ground (arith, length-to_bytes r v) in
    unfold from_bytes is_empty in
    rw long (
      unfold to_bytes in
      rw (
        split_at-append r.topic _ 32 (sym v.topic_size),
        split_at-append (to_le_bytes 8 r.unix_minute) _ 8
            (sym (length-to_le_bytes 8 r.unix_minute)),
        split_at-append r.pub_key _ 32 (sym v.key_size),
        split_at_end-append r.content.bytes r.signature 64 (sym v.signature_size),
        split_at_all r.signature 64 (sym v.signature_size),
        try_into-ok 32 r.topic v.topic_size,
        try_into-ok 8 (to_le_bytes 8 r.unix_minute) (length-to_le_bytes 8 r.unix_minute),
        try_into-ok 32 r.pub_key v.key_size,
        try_into-ok 64 r.signature v.signature_size,
        from_le_bytes-to_le_bytes 8 r.unix_minute v.minute_fits,
      ))

-- The pieces of a buffer of 136 bytes or more.
module _ (buf : Bytes) (h : 136 ≤ length buf) where
  after_topic : Bytes
  after_topic = drop 32 buf

  length-after_topic : length after_topic ≡ length buf - 32
  unfolding after_topic
  length-after_topic = length-drop 32 buf

  after_minute : Bytes
  after_minute = drop 8 after_topic

  length-after_minute : length after_minute ≡ length buf - 40
  unfolding after_minute
  length-after_minute = omega (arith, length-drop 8 after_topic, length-after_topic)

  after_key : Bytes
  after_key = drop 32 after_minute

  length-after_key : length after_key ≡ length buf - 72
  unfolding after_key
  length-after_key = omega (arith, length-drop 32 after_minute, length-after_minute)

  -- The record that the buffer stands for.
  unfoldable pub parts : Record
  unfolding after_topic after_minute after_key
  parts = record {
    topic = take 32 buf;
    unix_minute = from_le_bytes (take 8 after_topic);
    pub_key = take 32 after_minute;
    content = record { bytes = take (length after_key - 64) after_key };
    signature = drop (length after_key - 64) after_key;
  }

  split_key :
      split_at_end 64 after_key
      ≡ ok (take (length after_key - 64) after_key, drop (length after_key - 64) after_key)
  unfolding split_at_end
  split_key = ground (
    arith,
    length-after_key,
    split_at-ok (length after_key - 64) after_key (omega (arith, length-after_key)),
  )

  length-signature : length (drop (length after_key - 64) after_key) ≡ 64
  length-signature = omega (arith, length-drop (length after_key - 64) after_key, length-after_key)

  from_bytes-parts : from_bytes buf ≡ ok parts
  from_bytes-parts =
      let long : ltb (length buf) 136 ≡ false = ground arith in
      unfold from_bytes is_empty parts in
      rw (
        long,
        split_at-ok 32 buf (omega arith),
        split_at-ok 8 after_topic (omega (arith, length-after_topic)),
        split_at-ok 32 after_minute (omega (arith, length-after_minute)),
        split_key,
        split_at_all (drop (length after_key - 64) after_key) 64 (sym length-signature),
        try_into-ok 32 (take 32 buf) (omega (arith, length-take 32 buf)),
        try_into-ok 8 (take 8 after_topic)
            (omega (arith, length-take 8 after_topic, length-after_topic)),
        try_into-ok 32 (take 32 after_minute)
            (omega (arith, length-take 32 after_minute, length-after_minute)),
        try_into-ok 64 (drop (length after_key - 64) after_key) length-signature,
      )

  length-minute : length (take 8 after_topic) ≡ 8
  length-minute = omega (arith, length-take 8 after_topic, length-after_topic)

  after_topic-IsByte : All IsByte buf → All IsByte after_topic
  unfolding after_topic
  after_topic-IsByte a = All-drop IsByte 32 buf a

  minute_bytes :
      All IsByte buf → to_le_bytes 8 (from_le_bytes (take 8 after_topic)) ≡ take 8 after_topic
  minute_bytes a =
      subst (λ n. to_le_bytes n (from_le_bytes (take 8 after_topic)) ≡ take 8 after_topic)
        length-minute
        (to_le_bytes-from_le_bytes (take 8 after_topic)
          (All-take IsByte 8 after_topic (after_topic-IsByte a)))

  whole_key : take 32 after_minute ++ after_key ≡ after_minute
  unfolding after_key
  whole_key = take-append-drop 32 after_minute

  whole_minute : take 8 after_topic ++ after_minute ≡ after_topic
  unfolding after_minute
  whole_minute = take-append-drop 8 after_topic

  whole_topic : take 32 buf ++ after_topic ≡ buf
  unfolding after_topic
  whole_topic = take-append-drop 32 buf

  to_bytes-parts : All IsByte buf → to_bytes parts ≡ buf
  to_bytes-parts a =
      unfold to_bytes parts in
      rw (minute_bytes a, take-append-drop (length after_key - 64) after_key)
        (ap (λ t. take 32 buf ++ (take 8 after_topic ++ t)) whole_key
          ∙ ap (λ t. take 32 buf ++ t) whole_minute
          ∙ whole_topic)

  parts-IsRecord : All IsByte buf → IsRecord parts
  parts-IsRecord a = record {
    topic_size = unfold parts in omega (arith, length-take 32 buf);
    minute_fits =
        unfold parts in
        from_le_bytes-lt 8 (take 8 after_topic) length-minute
          (All-take IsByte 8 after_topic (after_topic-IsByte a));
    key_size = unfold parts in omega (arith, length-take 32 after_minute, length-after_minute);
    signature_size = unfold parts in length-signature;
  }

from_bytes-short : (buf : Bytes) → length buf < 136 → from_bytes buf ≡ err buffer_too_short
unfolding from_bytes
from_bytes-short buf h = let short : ltb (length buf) 136 ≡ true = ground arith in rw short

-- `from_bytes` never panics, and the length alone decides: it refuses a buffer of less than 136
-- bytes as too short, and it reads every other one.
pub from_bytes_cases :
    (buf : Bytes)
    → ((length buf < 136) × (from_bytes buf ≡ err buffer_too_short))
      ⊎ ((r : Record) × (136 ≤ length buf) × (from_bytes buf ≡ ok r))
from_bytes_cases buf = elim (Bool-cases (ltb (length buf) 136)) [
  | inl short ↦ inl (ground arith, from_bytes-short buf (ground arith))
  | inr long ↦
      let h : 136 ≤ length buf = ground arith in inr (parts buf h, h, from_bytes-parts buf h)
]

-- A record that `from_bytes` read from a buffer of bytes has fields of the sizes of the Rust types,
-- and `to_bytes` writes it as that very buffer.
pub to_bytes-from_bytes :
    (buf : Bytes) (r : Record)
    → All IsByte buf
    → from_bytes buf ≡ ok r
    → (to_bytes r ≡ buf) × IsRecord r
to_bytes-from_bytes buf r a e = elim (Bool-cases (ltb (length buf) 136)) [
  | inl short ↦ absurd (ok≢err (sym e ∙ from_bytes-short buf (ground arith)))
  | inr long ↦
      let h : 136 ≤ length buf = ground arith in
      let same : parts buf h ≡ r = cc (from_bytes-parts buf h) in
      subst (λ q. (to_bytes q ≡ buf) × IsRecord q) same
        (to_bytes-parts buf h a, parts-IsRecord buf h a)
]
