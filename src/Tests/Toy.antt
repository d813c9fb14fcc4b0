-- ===== src/Tests/Toy.antt =====
-- A concrete stand-in for the cryptographic libraries, which meets their laws, and test data.
use distributed_topic_tracke.Prelude.{
  ℕ, ◌-◌, ◌≡◌, refl, sym, subst, true, Option, some, none, ◌++◌, arith, Bytes, length, take,
  replicate, length-take, length-append, length-replicate, take-append, bytes_eq, bytes_eq_refl,
  if◌then◌else◌,
}
use distributed_topic_tracke.Crypto.Primitives.{Primitives, Laws, Postcard, PostcardLaws}

-- The first `n` bytes of a text that is filled up with zeros.
abbrev pub fit : ℕ → Bytes → Bytes
fit n m = take n (m ++ replicate n 0)

length-fit : (n : ℕ) (m : Bytes) → length (fit n m) ≡ n
length-fit n m = omega (
  arith,
  length-take n (m ++ replicate n 0),
  length-append m (replicate n 0),
  length-replicate {A = ℕ} n 0,
)

abbrev pub open_toy : Bytes → Bytes → Option Bytes
open_toy k c =
    let body = take (length c - 56) c in if bytes_eq c (body ++ fit 56 k) then some body else none

instance abbrev pub toy : Primitives
toy = record {
  sha512 = λ m. fit 64 m;
  verifying_key = λ k. k;
  sign = λ k m. fit 64 (k ++ m);
  key_is_valid = λ k. true;
  verify_strict = λ k m s. bytes_eq s (fit 64 (k ++ m));
  hpke_encrypt = λ k m n. some (m ++ fit 56 k);
  hpke_decrypt = open_toy;
}

open_toy-lem : (k m : Bytes) → open_toy k (m ++ fit 56 k) ≡ some m
open_toy-lem k m =
    let body : take (length (m ++ fit 56 k) - 56) (m ++ fit 56 k) ≡ m =
      take-append m (fit 56 k) _ (omega (arith, length-append m (fit 56 k), length-fit 56 k)) in
    rw (body, bytes_eq_refl (m ++ fit 56 k))

sealed-eq : (k m c : Bytes) → some (m ++ fit 56 k) ≡ some c → m ++ fit 56 k ≡ c
sealed-eq k m c e = cc

toy-decrypts : (k m c : Bytes) → some (m ++ fit 56 k) ≡ some c → open_toy k c ≡ some m
toy-decrypts k m c e = subst (λ x. open_toy k x ≡ some m) (sealed-eq k m c e) (open_toy-lem k m)

toy-length : (k m c : Bytes) → some (m ++ fit 56 k) ≡ some c → length m ≡ 32 → length c ≡ 88
toy-length k m c e h =
    subst (λ (x : Bytes). length x ≡ 88) (sealed-eq k m c e)
      (omega (arith, length-append m (fit 56 k), length-fit 56 k))

pub toy-Laws : Laws toy
toy-Laws = record {
  sha512_length = λ m. length-fit 64 m;
  verifying_key_length = λ k h. h;
  verifying_key_valid = λ k h. refl;
  sign_length = λ k m. length-fit 64 (k ++ m);
  verify_sign = λ k m h. bytes_eq_refl (fit 64 (k ++ m));
  decrypt_encrypt = λ k m c n h e. toy-decrypts k m c e;
  encrypt_key_length = λ k m c n h e. toy-length k m c e h;
}

-- Contents that are bytes already.
abbrev pub raw : Postcard Bytes
raw = record { to_allocvec = λ a. some a; from_bytes = λ bs. some bs }

pub raw-PostcardLaws : PostcardLaws raw
raw-PostcardLaws = record { from_bytes-to_allocvec = λ a bs e. sym e }

abbrev pub key_of : ℕ → Bytes
key_of n = replicate 32 n
