-- ===== src/Prelude/Words.antt =====
-- Byte strings: little-endian and big-endian words, `split_at`, `try_into`, and equality.
use Prim.Native.Nat.{ℕ, zero, suc, ◌+◌, ◌*◌, ◌/◌, ◌%◌, ◌^◌, ◌≤◌, ◌<◌}
use mathlib.Core.Path.{◌≡◌, refl, sym, ap, ◌∙◌}
use mathlib.Core.Logic.{◌↔◌, ◌⊎◌, inl, inr, ◌≢◌}
use mathlib.Core.Bool.{Bool, true, false, ◌&&◌}
use mathlib.Core.List.{List, [], ◌∷◌, ◌++◌, reverse, reverse-cons, reverse-reverse}
use native.Mathlib.Omega.{arith}
use distributed_topic_tracke.Prelude.Tests.{ltb, ◌==◌, if◌then◌else◌, Bool-cases}
use distributed_topic_tracke.Prelude.Lists.{
  length, take, drop, All, length-append, length-take, length-drop, take-append, drop-append,
}
use distributed_topic_tracke.Prelude.Outcome.{Result, ok, err, panic, wrong_length}

abbrev pub Bytes : Type 0
Bytes = List ℕ

abbrev pub IsByte : ℕ → Type 0
IsByte b = b < 256

-- `n.to_le_bytes()` of a word of `k` bytes.
unfoldable pub to_le_bytes : ℕ → ℕ → Bytes
to_le_bytes zero n = []
to_le_bytes (suc k) n = n % 256 ∷ to_le_bytes k (n / 256)

unfoldable pub from_le_bytes : Bytes → ℕ
from_le_bytes [] = 0
from_le_bytes (b ∷ bs) = b + 256 * from_le_bytes bs

unfoldable pub to_be_bytes : ℕ → ℕ → Bytes
unfolding to_le_bytes
to_be_bytes k n = reverse (to_le_bytes k n)

pub length-to_le_bytes : (k n : ℕ) → length (to_le_bytes k n) ≡ k
unfolding to_le_bytes
length-to_le_bytes zero n = refl
length-to_le_bytes (suc k) n = ap suc (length-to_le_bytes k (n / 256))

pub from_le_bytes-to_le_bytes : (k n : ℕ) → n < 256 ^ k → from_le_bytes (to_le_bytes k n) ≡ n
unfolding to_le_bytes from_le_bytes
from_le_bytes-to_le_bytes zero n h = omega arith
from_le_bytes-to_le_bytes (suc k) n h =
    omega (arith, from_le_bytes-to_le_bytes k (n / 256) (omega arith))

pub to_le_bytes-from_le_bytes :
    (bs : Bytes) → All IsByte bs → to_le_bytes (length bs) (from_le_bytes bs) ≡ bs
unfolding to_le_bytes from_le_bytes
to_le_bytes-from_le_bytes [] h = refl
to_le_bytes-from_le_bytes (b ∷ bs) h =
    let lo : (b + 256 * from_le_bytes bs) % 256 ≡ b = omega (arith, h.0) in
    let hi : (b + 256 * from_le_bytes bs) / 256 ≡ from_le_bytes bs = omega (arith, h.0) in
    rw (lo, hi) (ap (◌∷◌ b) (to_le_bytes-from_le_bytes bs h.1))

pub from_le_bytes-lt :
    (k : ℕ) (bs : Bytes) → length bs ≡ k → All IsByte bs → from_le_bytes bs < 256 ^ k
unfolding from_le_bytes
from_le_bytes-lt zero [] e h = omega arith
from_le_bytes-lt (suc k) [] e h = absurd (omega arith)
from_le_bytes-lt zero (b ∷ bs) e h = absurd (omega arith)
from_le_bytes-lt (suc k) (b ∷ bs) e h = omega (arith, from_le_bytes-lt k bs (omega arith) h.1, h.0)

pub to_le_bytes-IsByte : (k n : ℕ) → All IsByte (to_le_bytes k n)
unfolding to_le_bytes
to_le_bytes-IsByte zero n = tt
to_le_bytes-IsByte (suc k) n = (omega arith, to_le_bytes-IsByte k (n / 256))

length-reverse : (bs : Bytes) → length (reverse bs) ≡ length bs
length-reverse [] = refl
length-reverse (b ∷ bs) =
    ap length (reverse-cons b bs)
    ∙ omega (arith, length-append (reverse bs) (b ∷ []), length-reverse bs)

-- Words of one width have equal bytes only if they are equal.
pub to_le_bytes-injective :
    (k m n : ℕ) → m < 256 ^ k → n < 256 ^ k → to_le_bytes k m ≡ to_le_bytes k n → m ≡ n
to_le_bytes-injective k m n hm hn e =
    sym (from_le_bytes-to_le_bytes k m hm) ∙ ap from_le_bytes e ∙ from_le_bytes-to_le_bytes k n hn

pub length-to_be_bytes : (k n : ℕ) → length (to_be_bytes k n) ≡ k
unfolding to_be_bytes
length-to_be_bytes k n = length-reverse (to_le_bytes k n) ∙ length-to_le_bytes k n

pub to_be_bytes-injective :
    (k m n : ℕ) → m < 256 ^ k → n < 256 ^ k → to_be_bytes k m ≡ to_be_bytes k n → m ≡ n
unfolding to_be_bytes
to_be_bytes-injective k m n hm hn e =
    to_le_bytes-injective k m n hm hn
      (sym (reverse-reverse (to_le_bytes k m)) ∙ ap reverse e ∙ reverse-reverse (to_le_bytes k n))

-- `buf.split_at(n)`, which panics past the end.
unfoldable pub split_at : ℕ → Bytes → Result (Bytes × Bytes)
split_at n buf = if ltb (length buf) n then panic else ok (take n buf, drop n buf)

-- `slice.try_into()` at an array of `n` bytes.
unfoldable pub try_into : ℕ → Bytes → Result Bytes
try_into n bs = if length bs == n then ok bs else err wrong_length

pub split_at-append : (xs ys : Bytes) (n : ℕ) → n ≡ length xs → split_at n (xs ++ ys) ≡ ok (xs, ys)
unfolding split_at
split_at-append xs ys n h =
    rw (take-append xs ys n h, drop-append xs ys n h) (ground (arith, length-append xs ys))

pub split_at-ok :
    (n : ℕ) (buf : Bytes) → n ≤ length buf → split_at n buf ≡ ok (take n buf, drop n buf)
unfolding split_at
split_at-ok n buf h = ground arith

pub try_into-ok : (n : ℕ) (bs : Bytes) → length bs ≡ n → try_into n bs ≡ ok bs
unfolding try_into
try_into-ok n bs h = ground arith

-- `==` on byte arrays.
abbrev pub bytes_eq : Bytes → Bytes → Bool
bytes_eq [] [] = true
bytes_eq [] (y ∷ ys) = false
bytes_eq (x ∷ xs) [] = false
bytes_eq (x ∷ xs) (y ∷ ys) = x == y && bytes_eq xs ys

pub bytes_eq_iff : (xs ys : Bytes) → (bytes_eq xs ys ≡ true) ↔ (xs ≡ ys)
bytes_eq_iff [] [] = ((λ _. refl), (λ _. refl))
bytes_eq_iff [] (y ∷ ys) = ((λ h. cc), (λ h. cc))
bytes_eq_iff (x ∷ xs) [] = ((λ h. cc), (λ h. cc))
bytes_eq_iff (x ∷ xs) (y ∷ ys) =
    ((λ h. ground (arith, bytes_eq_iff xs ys)), (λ h. ground (arith, bytes_eq_iff xs ys)))

pub bytes_eq_refl : (xs : Bytes) → bytes_eq xs xs ≡ true
bytes_eq_refl xs = (bytes_eq_iff xs xs).1 refl

pub bytes_eq_comm : (xs ys : Bytes) → bytes_eq xs ys ≡ bytes_eq ys xs
bytes_eq_comm xs ys = elim (Bool-cases (bytes_eq xs ys)) [
  | inl e ↦ e ∙ sym ((bytes_eq_iff ys xs).1 (sym ((bytes_eq_iff xs ys).0 e)))
  | inr n ↦ elim (Bool-cases (bytes_eq ys xs)) [
    | inl e ↦ (bytes_eq_iff xs ys).1 (sym ((bytes_eq_iff ys xs).0 e)) ∙ sym e
    | inr m ↦ n ∙ sym m
  ]
]

-- Equal concatenations whose left parts are equally long have equal parts.
pub append-injective :
    (xs ys : Bytes) {us vs : Bytes}
    → length xs ≡ length ys
    → xs ++ us ≡ ys ++ vs
    → (xs ≡ ys) × (us ≡ vs)
append-injective [] [] h e = (refl, e)
append-injective [] (y ∷ ys) h e = absurd (omega arith)
append-injective (x ∷ xs) [] h e = absurd (omega arith)
append-injective (x ∷ xs) (y ∷ ys) {us} {vs} h e =
    let tails : xs ++ us ≡ ys ++ vs = cc in
    let (p, q) = append-injective xs ys (omega arith) tails in (cc, q)

-- `[0; 32]`
abbrev pub zero_key : Bytes
zero_key = distributed_topic_tracke.Prelude.Lists.replicate 32 0

pub Bytes-cases : (xs ys : Bytes) → (xs ≡ ys) ⊎ (xs ≢ ys)
Bytes-cases xs ys = elim (Bool-cases (bytes_eq xs ys)) [
  | inl e ↦ inl ((bytes_eq_iff xs ys).0 e)
  | inr n ↦ inr (λ e. cc (n, (bytes_eq_iff xs ys).1 e))
]
