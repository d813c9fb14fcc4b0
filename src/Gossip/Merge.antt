-- ===== src/Gossip/Merge.antt =====
-- What src/gossip/merge/bubble.rs and src/gossip/merge/message_overlap.rs do alike: the records of
-- two minutes, and the request to join. A set of keys is a list in the order of its iteration.
pub mod Joining
pub mod Life
use distributed_topic_tracke.Prelude.{
  ℕ, ◌+◌, ◌-◌, ◌%◌, ◌^◌, Bool, true, false, Option, some, none, List, [], ◌∷◌, ◌++◌, Bytes, Result,
  ok, err, panic,
}
use distributed_topic_tracke.Crypto.Primitives.{Primitives}
use distributed_topic_tracke.Crypto.Record.{Record}
use distributed_topic_tracke.Crypto.Publisher.{RecordPublisher, Cut, get_records}
use distributed_topic_tracke.Dht.{Oracle, M, pure, ◌>>=◌, ◌>>◌, continue}
use distributed_topic_tracke.Gossip.Sender.{Outcome, Request, join_peers}

-- `is_empty`
abbrev pub is_empty {ℓ} : {A : Type ℓ} → List A → Bool
is_empty [] = true
is_empty (x ∷ xs) = false

-- `unix_minute - 1` on `u64`, which wraps in a release build.
abbrev pub previous_minute : ℕ → ℕ
previous_minute unix_minute = (unix_minute + (2 ^ 64 - 1)) % 2 ^ 64

module _ ⦃P : Primitives⦄ (o : Oracle) (p : RecordPublisher) where
  -- The records of the previous and of the current minute. `verify` makes the two sets disjoint.
  unfoldable pub two_minutes : ℕ → Cut → Cut → M (List Record)
  two_minutes unix_minute cut_previous cut_current = do
    records ← get_records o p (previous_minute unix_minute) cut_previous
    current ← get_records o p unix_minute cut_current
    pure (records ++ current)

-- `if !pub_keys.is_empty()`
unfoldable pub unless_empty : List Bytes → Option (List Bytes)
unless_empty [] = none
unless_empty (k ∷ ks) = some (k ∷ ks)

-- The end of both `merge` functions, with the keys to join if there are any: the requests that are
-- sent, and the result.
unfoldable pub finish :
    (List Bytes → List Bytes)
    → ℕ
    → Outcome
    → Result (Option (List Bytes))
    → List Request × Result (Unit {0})
finish shuffle max_join_peers outcome (ok none) = ([], ok tt)
finish shuffle max_join_peers outcome (ok (some keys)) =
    let sent = join_peers shuffle keys (some max_join_peers) outcome in (sent.0 ∷ [], sent.1)
finish shuffle max_join_peers outcome (err e) = ([], err e)
finish shuffle max_join_peers outcome panic = ([], panic)
