-- ===== src/Gossip/Merge/Joining.antt =====
-- The request at the end of a merge asks for few keys, all of which were found.
use distributed_topic_tracke.Prelude.{
  ℕ, ◌≤◌, ◌≡◌, refl, inl, inr, Option, some, none, List, [], ◌∷◌, ◌++◌, Bytes, Mem, length, take,
  Result, ok, err, panic, length-take, Mem-take, All, All-of_Mem, arith, Bool, true, false,
  if◌then◌else◌,
}
use distributed_topic_tracke.Crypto.Primitives.{Primitives}
use distributed_topic_tracke.Crypto.Record.{Record}
use distributed_topic_tracke.Crypto.Publisher.{RecordPublisher, Cut, get_records}
use distributed_topic_tracke.Crypto.Publisher.Capacity.{continue-ok}
use distributed_topic_tracke.Dht.{Oracle, DhtActor}
use distributed_topic_tracke.Gossip.Sender.{Outcome, Request, joining, join_peers, chosen_peers}
use distributed_topic_tracke.Gossip.Merge.{
  is_empty, finish, unless_empty, two_minutes, previous_minute,
}

-- A request to join at most `max` keys that all have the property.
abbrev pub Joins : ℕ → (Bytes → Type 0) → Request → Type 0
Joins max Good q = (keys : List Bytes) × (q ≡ joining keys) × (length keys ≤ max) × All Good keys

module _ (shuffle : List Bytes → List Bytes)
    (shuffled : (keys : List Bytes) (k : Bytes) → Mem k (shuffle keys) → Mem k keys) (max : ℕ)
    (outcome : Outcome) where
  -- A request comes from keys to join, and asks for some of them.
  pub finish-Joins :
      (r : Result (Option (List Bytes))) (q : Request)
      → Mem q (finish shuffle max outcome r).0
      → (found : List Bytes) × (r ≡ ok (some found)) × Joins max (λ k. Mem k found) q
  unfolding finish join_peers chosen_peers
  finish-Joins (ok none) q m = absurd m
  finish-Joins (ok (some found)) q (inl e) = (
    found,
    refl,
    (
      take max (shuffle found),
      e,
      omega (arith, length-take max (shuffle found)),
      All-of_Mem (λ k. Mem k found) (take max (shuffle found))
          (λ k m. shuffled found k (Mem-take k max (shuffle found) m)),
    ),
  )
  finish-Joins (ok (some found)) q (inr m) = absurd m
  finish-Joins (err e) q m = absurd m
  finish-Joins panic q m = absurd m

pub unless_empty-some : (keys found : List Bytes) → unless_empty keys ≡ some found → keys ≡ found
unfolding unless_empty
unless_empty-some [] found h = cc
unless_empty-some (k ∷ ks) found h = cc

pub unless_empty-Mem : (k : Bytes) (keys : List Bytes) → Mem k keys → unless_empty keys ≡ some keys
unfolding unless_empty
unless_empty-Mem k [] m = absurd m
unless_empty-Mem k (j ∷ ks) m = refl

pub not_empty : {A : Type 0} (x : A) (xs : List A) → Mem x xs → is_empty xs ≡ false
not_empty x [] m = absurd m
not_empty x (y ∷ ys) m = refl

pub if-eq-some :
    {A : Type 0} (b : Bool) (o : Option A) {a : A}
    → (if b then o else none) ≡ some a
    → (b ≡ true) × (o ≡ some a)
if-eq-some true o h = (refl, h)
if-eq-some false o h = cc

-- The two minutes' records, one fetch after the other.
pub two_minutes-ok :
    ⦃P : Primitives⦄ (o : Oracle) (p : RecordPublisher) (unix_minute : ℕ)
    (cut_previous cut_current : Cut) (s : DhtActor) (xs ys : List Record)
    → (get_records o p (previous_minute unix_minute) cut_previous s).0 ≡ ok xs
    → (get_records o p unix_minute cut_current
        (get_records o p (previous_minute unix_minute) cut_previous s).1).0
      ≡ ok ys
    → (two_minutes o p unix_minute cut_previous cut_current s).0 ≡ ok (xs ++ ys)
unfolding two_minutes
two_minutes-ok o p unix_minute cut_previous cut_current s xs ys e f =
    rw
      (
        continue-ok (get_records o p (previous_minute unix_minute) cut_previous s) _ e,
        continue-ok
            (get_records o p unix_minute cut_current
              (get_records o p (previous_minute unix_minute) cut_previous s).1)
            _ f,
      )
      refl
