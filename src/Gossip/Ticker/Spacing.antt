-- ===== src/Gossip/Ticker/Spacing.antt =====
-- The periodic work is never started in quick succession.
use distributed_topic_tracke.Prelude.{
  ℕ, ◌+◌, ◌≤◌, inl, inr, Bool-cases, Bool, true, false, List, [], ◌∷◌, leb, leb→le, if◌then◌else◌,
  arith,
}
use distributed_topic_tracke.Config.Duration.{from_secs}
use distributed_topic_tracke.Timing.{next_interval_bounds}
use distributed_topic_tracke.Gossip.Ticker.{
  Ticker, new, Wake, handles_dropped, cancelled, clock, round, run,
}

-- Times, the latest first, of which each lies a second or more before the next one, and the latest
-- one before the given time.
abbrev pub IsSpaced : ℕ → List ℕ → Type 0
IsSpaced next [] = Unit
IsSpaced next (t ∷ ts) = (t + from_secs 1 ≤ next) × IsSpaced t ts

IsSpaced-le : (m n : ℕ) (ts : List ℕ) → m ≤ n → IsSpaced m ts → IsSpaced n ts
IsSpaced-le m n [] h s = tt
IsSpaced-le m n (t ∷ ts) h s = (omega (arith, s.0), s.1)

record IsSlow (t : Ticker) : Type 0 where
  pub slow : from_secs 1 ≤ t.base_interval
  pub spaced : IsSpaced t.deadline t.ticks

round-IsSlow : (w : Wake) (t : Ticker) → IsSlow t → IsSlow (round w t)
unfolding round
round-IsSlow handles_dropped t h = record { slow = h.slow; spaced = h.spaced }
round-IsSlow cancelled t h = record { slow = h.slow; spaced = h.spaced }
round-IsSlow (clock now took random) t h = elim (Bool-cases (leb t.deadline now)) [
  | inr early ↦ rw early h
  | inl due ↦ rw due (record {
    slow = h.slow;
    spaced = (
      omega (arith, h.slow, (next_interval_bounds t.base_interval t.max_jitter random).0),
      IsSpaced-le t.deadline now t.ticks (leb→le _ _ due) h.spaced,
    );
  })
]

either : (b : Bool) (t u : Ticker) → IsSlow t → IsSlow u → IsSlow (if b then t else u)
either true t u h k = h
either false t u h k = k

run-IsSlow : (ws : List Wake) (t : Ticker) → IsSlow t → IsSlow (run ws t)
unfolding run
run-IsSlow [] t h = h
run-IsSlow (w ∷ ws) t h =
    either t.running (run ws (round w t)) t (run-IsSlow ws (round w t) (round-IsSlow w t h)) h

-- Whatever intervals are configured, zero included, and however the loop is woken, the publisher and
-- the mergers start their work at times that lie at least one second apart, and the next deadline
-- lies at least one second after the latest of them.
pub run-IsSpaced :
    (now initial_interval base_interval max_jitter : ℕ) (ws : List Wake)
    → IsSpaced
        (run ws (new now initial_interval base_interval max_jitter)).deadline
        (run ws (new now initial_interval base_interval max_jitter)).ticks
unfolding new
run-IsSpaced now initial_interval base_interval max_jitter ws =
    (run-IsSlow ws (new now initial_interval base_interval max_jitter)
      (record { slow = ground arith; spaced = tt })).spaced
