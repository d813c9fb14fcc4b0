-- ===== src/Gossip/Ticker.antt =====
-- The loop around the work of the publisher and of both mergers: `new` and `run` of
-- src/gossip/topic/publisher.rs, src/gossip/merge/bubble.rs and src/gossip/merge/message_overlap.rs.
-- A tick of tokio's interval completes when the clock has reached its deadline, and `reset_after`
-- sets the deadline anew.
pub mod Spacing
pub mod Pacing
use distributed_topic_tracke.Prelude.{
  ℕ, ◌+◌, ◌*◌, Bool, true, false, List, [], ◌∷◌, leb, if◌then◌else◌,
}
use distributed_topic_tracke.Config.Duration.{Duration, from_secs}
use distributed_topic_tracke.Timing.{next_interval}

-- The fields of the actor that its loop uses, with the deadline of the ticker, the times at which
-- work began, the latest first, and whether the loop still runs.
pub record Ticker : Type 0 where
  pub base_interval : Duration
  pub max_jitter : Duration
  pub deadline : ℕ
  pub ticks : List ℕ
  pub running : Bool

-- `base_interval.max(Duration::from_secs(1))`
abbrev pub at_least_a_second : Duration → Duration
at_least_a_second d = if leb (from_secs 1) d then d else from_secs 1

-- `new`, at a time.
unfoldable pub new : ℕ → Duration → Duration → Duration → Ticker
new now initial_interval base_interval max_jitter = record {
  base_interval = at_least_a_second base_interval;
  max_jitter = max_jitter;
  deadline = now + initial_interval;
  ticks = [];
  running = true;
}

-- What wakes the `select!`: all handles dropped, cancellation, or the clock, with the time that the
-- work takes if it is due, and the random number that is drawn after it.
pub data Wake : Type 0 where
  handles_dropped cancelled : Wake
  clock : ℕ → ℕ → ℕ → Wake

-- One round of `run`.
unfoldable pub round : Wake → Ticker → Ticker
round handles_dropped t = record t { running = false }
round cancelled t = record t { running = false }
round (clock now took random) t =
    if leb t.deadline now
    then record t {
      deadline = now + took + next_interval t.base_interval t.max_jitter random;
      ticks = now ∷ t.ticks;
    }
    else t

-- `run`: rounds until one breaks the loop.
unfoldable pub run : List Wake → Ticker → Ticker
run [] t = t
run (w ∷ ws) t = let rest = run ws (round w t) in if t.running then rest else t
