-- ===== src/Prelude/Int.antt =====
-- Signed numbers, for sequence numbers of type `i64`, and their order.
use Prim.Native.Nat.{ℕ, ◌-◌, ◌^◌}
use mathlib.Core.Path.{◌≡◌, refl}
use mathlib.Core.Bool.{Bool, true, false}
use native.Mathlib.Omega.{arith}
use distributed_topic_tracke.Prelude.Tests.{leb}

-- `negsuc n` is -(n + 1).
pub data ℤ : Type 0 where
  pos : ℕ → ℤ
  negsuc : ℕ → ℤ

abbrev pub leb_ℤ : ℤ → ℤ → Bool
leb_ℤ (pos a) (pos b) = leb a b
leb_ℤ (pos a) (negsuc b) = false
leb_ℤ (negsuc a) (pos b) = true
leb_ℤ (negsuc a) (negsuc b) = leb b a

-- `i64::MAX`
abbrev pub i64_max : ℤ
i64_max = pos (2 ^ 63 - 1)

pub leb_ℤ-refl : (a : ℤ) → leb_ℤ a a ≡ true
leb_ℤ-refl (pos a) = ground arith
leb_ℤ-refl (negsuc a) = ground arith

pub leb_ℤ-trans : (a b c : ℤ) → leb_ℤ a b ≡ true → leb_ℤ b c ≡ true → leb_ℤ a c ≡ true
leb_ℤ-trans (pos a) (pos b) (pos c) h k = ground arith
leb_ℤ-trans (negsuc a) (pos b) (pos c) h k = refl
leb_ℤ-trans (negsuc a) (negsuc b) (pos c) h k = refl
leb_ℤ-trans (negsuc a) (negsuc b) (negsuc c) h k = ground arith
leb_ℤ-trans (pos a) (negsuc b) c h k = cc
leb_ℤ-trans (pos a) (pos b) (negsuc c) h k = cc
leb_ℤ-trans (negsuc a) (pos b) (negsuc c) h k = cc

pub leb_ℤ-total : (a b : ℤ) → leb_ℤ a b ≡ false → leb_ℤ b a ≡ true
leb_ℤ-total (pos a) (pos b) h = ground arith
leb_ℤ-total (pos a) (negsuc b) h = refl
leb_ℤ-total (negsuc a) (pos b) h = cc
leb_ℤ-total (negsuc a) (negsuc b) h = ground arith
