-- ===== src/Prelude/Sets.antt =====
-- Filters, flat maps and hash sets as lists: what they contain.
use mathlib.Core.Path.{◌≡◌, refl, sym, ap, subst, ◌∙◌}
use mathlib.Core.Logic.{inl, inr}
use mathlib.Core.Bool.{Bool, true, false, ◌||◌}
use mathlib.Core.List.{List, [], ◌∷◌, ◌++◌}
use native.Mathlib.Omega.{arith}
use distributed_topic_tracke.Prelude.Tests.{if◌then◌else◌, Bool-cases, true≢false}
use distributed_topic_tracke.Prelude.Lists.{
  Mem, Mem-append_cases, Mem-append_left, Mem-append_right,
}
use distributed_topic_tracke.Prelude.Words.{Bytes, bytes_eq, bytes_eq_iff}

-- `iter().filter(test)`
unfoldable pub select_by {ℓ} : {A : Type ℓ} → (A → Bool) → List A → List A
select_by test [] = []
select_by test (x ∷ xs) = let rest = select_by test xs in if test x then x ∷ rest else rest

-- `iter().flat_map(f)`
unfoldable pub flat_map {ℓ κ} : {A : Type ℓ} {B : Type κ} → (A → List B) → List A → List B
flat_map f [] = []
flat_map f (x ∷ xs) = f x ++ flat_map f xs

-- `contains`
unfoldable pub contains : Bytes → List Bytes → Bool
contains x [] = false
contains x (y ∷ ys) = bytes_eq x y || contains x ys

-- `collect::<HashSet<_>>()`: a set lists each element once.
unfoldable pub unique : List Bytes → List Bytes
unfolding contains
unique [] = []
unique (x ∷ xs) = let rest = unique xs in if contains x rest then rest else x ∷ rest

module _ {A : Type 0} (test : A → Bool) where
  pub Mem-select_by : (x : A) (xs : List A) → Mem x (select_by test xs) → Mem x xs × (test x ≡ true)
  unfolding select_by
  Mem-select_by x [] m = absurd m
  Mem-select_by x (y ∷ ys) m = elim (Bool-cases (test y)) [
    | inl kept ↦
        let split : Mem x (y ∷ select_by test ys) → Mem x (y ∷ ys) × (test x ≡ true) = λ n. elim n [
          | inl e ↦ (inl e, ap test e ∙ kept)
          | inr k ↦ let (there, t) = Mem-select_by x ys k in (inr there, t)
        ] in
        split (rw kept at m)
    | inr dropped ↦ let (there, t) = Mem-select_by x ys (rw dropped at m) in (inr there, t)
  ]

  pub select_by-Mem : (x : A) (xs : List A) → Mem x xs → test x ≡ true → Mem x (select_by test xs)
  unfolding select_by
  select_by-Mem x [] m t = absurd m
  select_by-Mem x (y ∷ ys) (inl e) t = rw (sym (ap test e) ∙ t) (inl e)
  select_by-Mem x (y ∷ ys) (inr m) t = elim (Bool-cases (test y)) [
    | inl kept ↦ rw kept (inr (select_by-Mem x ys m t))
    | inr dropped ↦ rw dropped (select_by-Mem x ys m t)
  ]

module _ {A B : Type 0} (f : A → List B) where
  pub Mem-flat_map :
      (y : B) (xs : List A) → Mem y (flat_map f xs) → (x : A) × Mem x xs × Mem y (f x)
  unfolding flat_map
  Mem-flat_map y [] m = absurd m
  Mem-flat_map y (x ∷ xs) m = elim (Mem-append_cases y (f x) (flat_map f xs) m) [
    | inl here ↦ (x, inl refl, here)
    | inr later ↦ let (z, there, n) = Mem-flat_map y xs later in (z, inr there, n)
  ]

  pub flat_map-Mem : (y : B) (x : A) (xs : List A) → Mem x xs → Mem y (f x) → Mem y (flat_map f xs)
  unfolding flat_map
  flat_map-Mem y x [] m n = absurd m
  flat_map-Mem y x (z ∷ xs) (inl e) n =
      Mem-append_left y (f z) (flat_map f xs) (subst (λ w. Mem y (f w)) e n)
  flat_map-Mem y x (z ∷ xs) (inr m) n =
      Mem-append_right y (f z) (flat_map f xs) (flat_map-Mem y x xs m n)

pub contains-true : (x : Bytes) (xs : List Bytes) → contains x xs ≡ true → Mem x xs
unfolding contains
contains-true x [] h = absurd (true≢false (sym h))
contains-true x (y ∷ ys) h = elim (Bool-cases (bytes_eq x y)) [
  | inl same ↦ inl ((bytes_eq_iff x y).0 same)
  | inr other ↦ inr (contains-true x ys (rw other at h))
]

pub contains-Mem : (x : Bytes) (xs : List Bytes) → Mem x xs → contains x xs ≡ true
unfolding contains
contains-Mem x [] m = absurd m
contains-Mem x (y ∷ ys) (inl e) = rw ((bytes_eq_iff x y).1 e)
contains-Mem x (y ∷ ys) (inr m) = ground (arith, contains-Mem x ys m)

pub Mem-unique : (x : Bytes) (xs : List Bytes) → Mem x (unique xs) → Mem x xs
unfolding unique
Mem-unique x [] m = absurd m
Mem-unique x (y ∷ ys) m = elim (Bool-cases (contains y (unique ys))) [
  | inl old ↦ inr (Mem-unique x ys (rw old at m))
  | inr fresh ↦
      let split : Mem x (y ∷ unique ys) → Mem x (y ∷ ys) =
        λ n. elim n [ inl e ↦ inl e | inr k ↦ inr (Mem-unique x ys k) ] in
      split (rw fresh at m)
]

pub unique-Mem : (x : Bytes) (xs : List Bytes) → Mem x xs → Mem x (unique xs)
unfolding unique
unique-Mem x [] m = absurd m
unique-Mem x (y ∷ ys) (inl e) = elim (Bool-cases (contains y (unique ys))) [
  | inl old ↦ rw old (subst (λ z. Mem z (unique ys)) (sym e) (contains-true y (unique ys) old))
  | inr fresh ↦ rw fresh (inl e)
]
unique-Mem x (y ∷ ys) (inr m) = elim (Bool-cases (contains y (unique ys))) [
  | inl old ↦ rw old (unique-Mem x ys m)
  | inr fresh ↦ rw fresh (inr (unique-Mem x ys m))
]

-- A list with one element under a condition.
pub Mem-if :
    {A : Type 0} (b : Bool) (k x : A) → Mem k (if b then x ∷ [] else []) → (b ≡ true) × (k ≡ x)
Mem-if true k x (inl e) = (refl, e)
Mem-if true k x (inr m) = absurd m
Mem-if false k x m = absurd m
