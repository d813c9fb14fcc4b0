-- ===== src/Gossip/Working.antt =====
-- The periodic actors with the work that their ticks start: `run` of src/gossip/merge/bubble.rs,
-- src/gossip/merge/message_overlap.rs and src/gossip/topic/publisher.rs, around the ticker of
-- Gossip/Ticker. The work is a parameter; Bubble/Life, Overlap/Life and Content/Life put in that of
-- the three actors.
pub mod Ticks
use distributed_topic_tracke.Prelude.{
  ℕ, ◌+◌, Bool, true, false, List, [], ◌∷◌, leb, if◌then◌else◌, Result, ok, err, panic,
}
use distributed_topic_tracke.Config.Duration.{Duration}
use distributed_topic_tracke.Timing.{next_interval}
use distributed_topic_tracke.Gossip.Ticker.{Ticker, Wake, handles_dropped, cancelled, clock, new}

-- An actor: its ticker, and all else that its work reads and writes.
pub record Worker (S : Type 0) : Type 0 where
  pub ticker : Ticker
  pub state : S

-- What a round is given: what wakes it, and what the work meets if the round starts it.
abbrev pub Turn : Type 0 → Type 0
Turn J = Wake × J

module _ {S J : Type 0} (work : J → S → Result (Unit {0}) × S) where
  -- After the work of a tick: an error is logged and the ticker is set anew, a panic ends the task.
  unfoldable pub finished : ℕ → ℕ → ℕ → Result (Unit {0}) × S → Ticker → Worker S
  finished now took random (panic, s) t = record {
    ticker = record t { ticks = now ∷ t.ticks; running = false };
    state = s;
  }
  finished now took random (ok u, s) t = record {
    ticker = record t {
      deadline = now + took + next_interval t.base_interval t.max_jitter random;
      ticks = now ∷ t.ticks;
    };
    state = s;
  }
  finished now took random (err e, s) t = record {
    ticker = record t {
      deadline = now + took + next_interval t.base_interval t.max_jitter random;
      ticks = now ∷ t.ticks;
    };
    state = s;
  }

  -- One round of `run`.
  unfoldable pub round : Turn J → Worker S → Worker S
  unfolding finished
  round (handles_dropped, j) w = record w { ticker = record w.ticker { running = false } }
  round (cancelled, j) w = record w { ticker = record w.ticker { running = false } }
  round (clock now took random, j) w =
      if leb w.ticker.deadline now then finished now took random (work j w.state) w.ticker else w

  -- `run`: rounds until one breaks the loop.
  unfoldable pub run : List (Turn J) → Worker S → Worker S
  run [] w = w
  run (t ∷ ts) w = let rest = run ts (round t w) in if w.ticker.running then rest else w

-- `new` of the three actors.
unfoldable pub spawn : {S : Type 0} → ℕ → Duration → Duration → Duration → S → Worker S
spawn now initial_interval base_interval max_jitter state = record {
  ticker = new now initial_interval base_interval max_jitter;
  state = state;
}
