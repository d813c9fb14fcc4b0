-- ===== src/Gossip/Ticker/Pacing.antt =====
-- The periodic work keeps to the intervals that are configured.
use distributed_topic_tracke.Prelude.{
  ℕ, ◌+◌, ◌≤◌, inl, inr, Bool-cases, Bool, true, false, List, [], ◌∷◌, leb, leb→le, if◌then◌else◌,
  arith,
}
use distributed_topic_tracke.Timing.{next_interval_bounds}
use distributed_topic_tracke.Gossip.Ticker.{
  Ticker, new, Wake, handles_dropped, cancelled, clock, round, run,
}

-- Times, the latest first: the earliest lies at `first` or later, each lies `every` or more before the
-- next one, and the latest one before the given time.
abbrev pub IsPaced : ℕ → ℕ → ℕ → List ℕ → Type 0
IsPaced first every next [] = first ≤ next
IsPaced first every next (t ∷ ts) = (t + every ≤ next) × IsPaced first every t ts

IsPaced-le :
    (first every m n : ℕ) (ts : List ℕ)
    → m ≤ n
    → IsPaced first every m ts
    → IsPaced first every n ts
IsPaced-le first every m n [] h s = omega arith
IsPaced-le first every m n (t ∷ ts) h s = (omega (arith, s.0), s.1)

record IsSteady (first every : ℕ) (t : Ticker) : Type 0 where
  pub slow : every ≤ t.base_interval
  pub paced : IsPaced first every t.deadline t.ticks

module _ (first every : ℕ) where
  round-IsSteady :
      (w : Wake) (t : Ticker) → IsSteady first every t → IsSteady first every (round w t)
  unfolding round
  round-IsSteady handles_dropped t h = record { slow = h.slow; paced = h.paced }
  round-IsSteady cancelled t h = record { slow = h.slow; paced = h.paced }
  round-IsSteady (clock now took random) t h = elim (Bool-cases (leb t.deadline now)) [
    | inr early ↦ rw early h
    | inl due ↦ rw due (record {
      slow = h.slow;
      paced = (
        omega (arith, h.slow, (next_interval_bounds t.base_interval t.max_jitter random).0),
        IsPaced-le first every t.deadline now t.ticks (leb→le _ _ due) h.paced,
      );
    })
  ]

  either :
      (b : Bool) (t u : Ticker)
      → IsSteady first every t
      → IsSteady first every u
      → IsSteady first every (if b then t else u)
  either true t u h k = h
  either false t u h k = k

  run-IsSteady :
      (ws : List Wake) (t : Ticker) → IsSteady first every t → IsSteady first every (run ws t)
  unfolding run
  run-IsSteady [] t h = h
  run-IsSteady (w ∷ ws) t h =
      either t.running (run ws (round w t)) t (run-IsSteady ws (round w t) (round-IsSteady w t h)) h

-- However the loop is woken, its work first starts when the initial interval has passed, and then at
-- times that lie at least the base interval apart.
pub run-IsPaced :
    (now initial_interval base_interval max_jitter : ℕ) (ws : List Wake)
    → IsPaced
        (now + initial_interval)
        base_interval
        (run ws (new now initial_interval base_interval max_jitter)).deadline
        (run ws (new now initial_interval base_interval max_jitter)).ticks
unfolding new
run-IsPaced now initial_interval base_interval max_jitter ws =
    (run-IsSteady (now + initial_interval) base_interval ws
      (new now initial_interval base_interval max_jitter)
      (record { slow = ground arith; paced = omega arith })).paced
