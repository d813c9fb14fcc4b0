-- ===== src/Gossip/Merge/Life.antt =====
-- What the lives of both mergers have in common: a log of the requests that they sent, the latest
-- first, over whatever their merges meet.
use distributed_topic_tracke.Prelude.{
  ℕ, suc, ◌≤◌, List, ◌++◌, Bytes, Result, ok, err, panic, [], Option, some, none, length, Mem, All,
  All-append, All-of_Mem, arith, length-append,
}
use distributed_topic_tracke.Config.Duration.{Duration}
use distributed_topic_tracke.Dht.{Oracle, DhtActor}
use distributed_topic_tracke.Crypto.Publisher.{Cut}
use distributed_topic_tracke.Gossip.Merge.{finish}
use distributed_topic_tracke.Gossip.Sender.{Outcome, Request}
use distributed_topic_tracke.Gossip.Ticker.{new}
use distributed_topic_tracke.Gossip.Ticker.Spacing.{IsSpaced}
use distributed_topic_tracke.Gossip.Working.{Worker, Turn, spawn, run}
use distributed_topic_tracke.Gossip.Working.Ticks.{jobs, run-Holds_jobs, run-IsSpaced_work}

pub record Merger : Type 0 where
  pub requests : List Request

-- What one merge meets: the DHT, its actor, which other tasks use too, the clock, where cancellation
-- strikes the two fetches, the answers of the receiver, the shuffle of the keys and the outcome of
-- the request.
pub record Meets : Type 0 where
  pub world : Oracle
  pub actor : DhtActor
  pub unix_minute : ℕ
  pub cut_previous : Cut
  pub cut_current : Cut
  pub hashes : Result (List Bytes)
  pub neighbors : Result (List Bytes)
  pub shuffle : List Bytes → List Bytes
  pub outcome : Outcome

-- `if let Err(e) = self.merge().await`: the result of a merge, and the merger after it.
unfoldable pub logged :
    (List Request × Result (Unit {0})) × DhtActor → Merger → Result (Unit {0}) × Merger
logged r m = (r.0.1, record { requests = r.0.0 ++ m.requests })

-- The shuffle adds no keys.
abbrev pub IsShuffle : Meets → Type 0
IsShuffle j = (keys : List Bytes) (k : Bytes) → Mem k (j.shuffle keys) → Mem k keys

-- A log of as many sound requests as works at most.
abbrev pub IsLog : (Request → Type 0) → ℕ → Merger → Type 0
IsLog Sound n m = (length m.requests ≤ n) × All Sound m.requests

-- A merge sends one request at most.
pub length-finish :
    (shuffle : List Bytes → List Bytes) (max : ℕ) (outcome : Outcome)
    (r : Result (Option (List Bytes)))
    → length (finish shuffle max outcome r).0 ≤ 1
unfolding finish
length-finish shuffle max outcome (ok none) = omega arith
length-finish shuffle max outcome (ok (some keys)) = omega arith
length-finish shuffle max outcome (err e) = omega arith
length-finish shuffle max outcome panic = omega arith

-- A merge that sends one request at most, and a sound one.
pub logged-IsLog :
    (Sound : Request → Type 0) (n : ℕ) (r : (List Request × Result (Unit {0})) × DhtActor)
    (m : Merger)
    → length r.0.0 ≤ 1
    → ((q : Request) → Mem q r.0.0 → Sound q)
    → IsLog Sound n m
    → IsLog Sound (suc n) (logged r m).1
unfolding logged
logged-IsLog Sound n r m few sound (count, all) = (
  omega (arith, length-append r.0.0 m.requests),
  All-append Sound r.0.0 m.requests (All-of_Mem Sound r.0.0 sound) all,
)

module _ (work : Meets → Merger → Result (Unit {0}) × Merger) where
  -- `new` of a merger, and `run` from then on.
  unfoldable pub life : ℕ → Duration → Duration → Duration → List (Turn Meets) → Worker Merger
  life now initial_interval base_interval max_jitter turns =
      run work turns
        (spawn now initial_interval base_interval max_jitter (record { requests = [] }))

  -- If each work sends one request at most, and a sound one, the same holds of a whole life.
  pub life-IsLog :
      (Sound : List Meets → Request → Type 0)
      → ((js : List Meets) (n : ℕ) (j : Meets) (m : Merger)
          → IsShuffle j
          → Mem j js
          → IsLog (Sound js) n m
          → IsLog (Sound js) (suc n) (work j m).1)
      → (now initial_interval base_interval max_jitter : ℕ) (turns : List (Turn Meets))
      → All (λ t. IsShuffle t.1) turns
      → let w = life now initial_interval base_interval max_jitter turns in
        ((next : ℕ) × IsSpaced next w.ticker.ticks)
        × IsLog (Sound (jobs turns)) (length w.ticker.ticks) w.state
  unfolding life spawn new
  life-IsLog Sound keeps now initial_interval base_interval max_jitter turns shuffled =
      let fresh : Merger = record { requests = [] } in
      let start = spawn now initial_interval base_interval max_jitter fresh in
      let Log = IsLog (Sound (jobs turns)) in
      let none_sent : Log (length start.ticker.ticks) start.state = (omega arith, tt) in
      (
        run-IsSpaced_work work now initial_interval base_interval max_jitter fresh turns,
        run-Holds_jobs work Log IsShuffle turns start (keeps (jobs turns)) shuffled none_sent,
      )
