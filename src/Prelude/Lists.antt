-- ===== src/Prelude/Lists.antt =====
-- Lists measured by native numbers, under the library's names, and membership as a predicate.
use Prim.Native.Nat.{ℕ, zero, suc, ◌+◌, ◌-◌, ◌≤◌, min}
use mathlib.Core.Path.{◌≡◌, refl, ap, sym, subst}
use mathlib.Core.Logic.{◌⊎◌, inl, inr}
use mathlib.Core.List.{List, [], ◌∷◌, ◌++◌, map}
use native.Mathlib.Omega.{arith}

module _ {ℓ} {A : Type ℓ} where
  abbrev pub length : List A → ℕ
  length [] = 0
  length (x ∷ xs) = suc (length xs)

  abbrev pub take : ℕ → List A → List A
  take zero xs = []
  take (suc n) [] = []
  take (suc n) (x ∷ xs) = x ∷ take n xs

  abbrev pub drop : ℕ → List A → List A
  drop zero xs = xs
  drop (suc n) [] = []
  drop (suc n) (x ∷ xs) = drop n xs

  abbrev pub replicate : ℕ → A → List A
  replicate zero a = []
  replicate (suc n) a = a ∷ replicate n a

  abbrev pub All {κ} : (A → Type κ) → List A → Type κ
  All P [] = Unit {κ}
  All P (x ∷ xs) = P x × All P xs

-- The positions at which `x` stands.
abbrev pub Mem : {A : Type 0} → A → List A → Type 0
Mem x [] = ⊥
Mem x (y ∷ ys) = (x ≡ y) ⊎ Mem x ys

module _ {ℓ} {A : Type ℓ} where
  pub length-append : (xs ys : List A) → length (xs ++ ys) ≡ length xs + length ys
  length-append [] ys = omega arith
  length-append (x ∷ xs) ys = omega (arith, length-append xs ys)

  pub take-append-drop : (n : ℕ) (xs : List A) → take n xs ++ drop n xs ≡ xs
  take-append-drop zero xs = refl
  take-append-drop (suc n) [] = refl
  take-append-drop (suc n) (x ∷ xs) = rw (take-append-drop n xs)

  pub length-take : (n : ℕ) (xs : List A) → length (take n xs) ≡ min n (length xs)
  length-take zero xs = omega arith
  length-take (suc n) [] = omega arith
  length-take (suc n) (x ∷ xs) = omega (arith, length-take n xs)

  pub length-drop : (n : ℕ) (xs : List A) → length (drop n xs) ≡ length xs - n
  length-drop zero xs = omega arith
  length-drop (suc n) [] = omega arith
  length-drop (suc n) (x ∷ xs) = omega (arith, length-drop n xs)

  pub length-replicate : (n : ℕ) (a : A) → length (replicate n a) ≡ n
  length-replicate zero a = refl
  length-replicate (suc n) a = ap suc (length-replicate n a)

  pub take-append : (xs ys : List A) (n : ℕ) → n ≡ length xs → take n (xs ++ ys) ≡ xs
  take-append [] ys zero h = refl
  take-append [] ys (suc n) h = absurd (omega arith)
  take-append (x ∷ xs) ys zero h = absurd (omega arith)
  take-append (x ∷ xs) ys (suc n) h = ap (◌∷◌ x) (take-append xs ys n (omega arith))

  pub drop-append : (xs ys : List A) (n : ℕ) → n ≡ length xs → drop n (xs ++ ys) ≡ ys
  drop-append [] ys zero h = refl
  drop-append [] ys (suc n) h = absurd (omega arith)
  drop-append (x ∷ xs) ys zero h = absurd (omega arith)
  drop-append (x ∷ xs) ys (suc n) h = drop-append xs ys n (omega arith)

  pub take-ge : (n : ℕ) (xs : List A) → length xs ≤ n → take n xs ≡ xs
  take-ge zero [] h = refl
  take-ge zero (x ∷ xs) h = absurd (omega arith)
  take-ge (suc n) [] h = refl
  take-ge (suc n) (x ∷ xs) h = ap (◌∷◌ x) (take-ge n xs (omega arith))

module _ {ℓ κ} {A : Type ℓ} (P : A → Type κ) where
  pub All-append : (xs ys : List A) → All P xs → All P ys → All P (xs ++ ys)
  All-append [] ys h k = k
  All-append (x ∷ xs) ys h k = (h.0, All-append xs ys h.1 k)

  pub All-take : (n : ℕ) (xs : List A) → All P xs → All P (take n xs)
  All-take zero xs h = tt
  All-take (suc n) [] h = tt
  All-take (suc n) (x ∷ xs) h = (h.0, All-take n xs h.1)

  pub All-drop : (n : ℕ) (xs : List A) → All P xs → All P (drop n xs)
  All-drop zero xs h = h
  All-drop (suc n) [] h = tt
  All-drop (suc n) (x ∷ xs) h = All-drop n xs h.1

module _ {A : Type 0} where
  pub All-Mem {κ} : (P : A → Type κ) (xs : List A) {x : A} → All P xs → Mem x xs → P x
  All-Mem P [] h m = absurd m
  All-Mem P (y ∷ ys) h (inl e) = subst P (sym e) h.0
  All-Mem P (y ∷ ys) h (inr m) = All-Mem P ys h.1 m

  pub All-of_Mem {κ} : (P : A → Type κ) (xs : List A) → ((x : A) → Mem x xs → P x) → All P xs
  All-of_Mem P [] f = tt
  All-of_Mem P (x ∷ xs) f = (f x (inl refl), All-of_Mem P xs (λ y m. f y (inr m)))

module _ {A : Type 0} where
  pub Mem-append_left : (x : A) (xs ys : List A) → Mem x xs → Mem x (xs ++ ys)
  Mem-append_left x [] ys m = absurd m
  Mem-append_left x (y ∷ xs) ys (inl e) = inl e
  Mem-append_left x (y ∷ xs) ys (inr m) = inr (Mem-append_left x xs ys m)

  pub Mem-append_right : (x : A) (xs ys : List A) → Mem x ys → Mem x (xs ++ ys)
  Mem-append_right x [] ys m = m
  Mem-append_right x (y ∷ xs) ys m = inr (Mem-append_right x xs ys m)

  pub Mem-append_cases : (x : A) (xs ys : List A) → Mem x (xs ++ ys) → Mem x xs ⊎ Mem x ys
  Mem-append_cases x [] ys m = inr m
  Mem-append_cases x (y ∷ xs) ys (inl e) = inl (inl e)
  Mem-append_cases x (y ∷ xs) ys (inr m) = elim (Mem-append_cases x xs ys m) [
    | inl h ↦ inl (inr h)
    | inr h ↦ inr h
  ]

  pub Mem-take : (x : A) (n : ℕ) (xs : List A) → Mem x (take n xs) → Mem x xs
  Mem-take x zero xs m = absurd m
  Mem-take x (suc n) [] m = absurd m
  Mem-take x (suc n) (y ∷ xs) (inl e) = inl e
  Mem-take x (suc n) (y ∷ xs) (inr m) = inr (Mem-take x n xs m)

  pub Mem-map : {B : Type 0} (f : A → B) (x : A) (xs : List A) → Mem x xs → Mem (f x) (map f xs)
  Mem-map f x [] m = absurd m
  Mem-map f x (y ∷ xs) (inl e) = inl (ap f e)
  Mem-map f x (y ∷ xs) (inr m) = inr (Mem-map f x xs m)
