-- ===== src/Gossip/Bootstrap/Minutes.antt =====
-- For which minutes the bootstrap publishes.
use distributed_topic_tracke.Prelude.{
  ℕ, suc, ◌≤◌, ◌<◌, ◌≡◌, refl, ◌⊎◌, inl, inr, Bool, false, none, List, [], ◌∷◌, Bytes, Result, ok,
  err, panic, All, arith, Bool-cases,
}
use distributed_topic_tracke.Crypto.Primitives.{Primitives, Postcard}
use distributed_topic_tracke.Crypto.Record.{Record, sign}
use distributed_topic_tracke.Crypto.Record.Signing.{sign-unix_minute}
use distributed_topic_tracke.Gossip.Content.{GossipRecordContent}
use distributed_topic_tracke.Gossip.Rounds.{
  BootstrapActor, Publication, Loop, Round, publish_signed,
}
use distributed_topic_tracke.Gossip.Bootstrap.{run, start, announce, empty_content}
use distributed_topic_tracke.Gossip.Bootstrap.Moves.{
  Move, publishes, passes, asks, rests, connects, leaves,
}
use distributed_topic_tracke.Gossip.Bootstrap.Trace.{
  IsOrderly, Trace, finished, halted, then_round, run-Trace, Moves-Keeps,
}

-- Publications, the latest first, each for an earlier minute than the one before it in the list, and
-- the latest for a minute below the bound.
abbrev pub IsDescending : ℕ → List Publication → Type 0
IsDescending bound [] = Unit
IsDescending bound (p ∷ ps) =
    (p.announced.unix_minute < bound) × IsDescending p.announced.unix_minute ps

IsDescending-le : (m n : ℕ) (ps : List Publication) → m ≤ n → IsDescending m ps → IsDescending n ps
IsDescending-le m n [] h d = tt
IsDescending-le m n (p ∷ ps) h d = (omega (arith, d.0), d.1)

-- The clock does not go back from round to round.
abbrev pub IsClock : ℕ → List Round → Type 0
IsClock now [] = Unit
IsClock now (r ∷ rs) = (now ≤ r.now) × IsClock r.now rs

-- The loop's variable bounds the minutes published for.
record HasMinutes (now : ℕ) (s : Loop) : Type 0 where
  pub past : s.last_published_unix_minute ≤ now
  pub descending : IsDescending (suc s.last_published_unix_minute) s.publications

same-HasMinutes :
    (now : ℕ) (s t : Loop)
    → t.last_published_unix_minute ≡ s.last_published_unix_minute
    → t.publications ≡ s.publications
    → HasMinutes now s
    → HasMinutes now t
same-HasMinutes now s t e f h = record {
  past = omega (arith, e, h.past);
  descending = rw (e, f) h.descending;
}

module _ ⦃P : Primitives⦄ (C : Postcard GossipRecordContent) (is_endpoint : Bytes → Bool)
    (b : BootstrapActor) where
  Move-HasMinutes :
      (r : Round) (s t : Loop)
      → Move C is_endpoint b r s t
      → HasMinutes r.now s
      → HasMinutes r.now t
  Move-HasMinutes r s t (publishes a cached own new e) h =
      let at_now : a.unix_minute ≡ r.now = sign-unix_minute C _ r.now empty_content _ a own in
      rw e (record {
        past = omega arith;
        descending = (
          omega (arith, at_now),
          IsDescending-le (suc s.last_published_unix_minute) a.unix_minute s.publications
              (omega (arith, at_now, h.past, new)) h.descending,
        );
      })
  Move-HasMinutes r s t (passes new e) h = rw e (record {
    past = omega arith;
    descending =
        IsDescending-le (suc s.last_published_unix_minute) (suc r.now) s.publications
          (omega (arith, h.past)) h.descending;
  })
  Move-HasMinutes r s t (asks key other e) h = rw e (same-HasMinutes r.now s _ refl refl h)
  Move-HasMinutes r s t (rests d e) h = rw e (same-HasMinutes r.now s _ refl refl h)
  Move-HasMinutes r s t (connects j e) h = rw e (same-HasMinutes r.now s _ refl refl h)
  Move-HasMinutes r s t (leaves w e) h = rw e (same-HasMinutes r.now s _ refl refl h)

  Trace-IsDescending :
      {rs : List Round} {s t : Loop} (now : ℕ)
      → Trace C is_endpoint b rs s t
      → IsClock now rs
      → HasMinutes now s
      → IsDescending (suc t.last_published_unix_minute) t.publications
  Trace-IsDescending now finished clock h = h.descending
  Trace-IsDescending now (halted off) clock h = h.descending
  Trace-IsDescending now (then_round {r} on m n) clock h = Trace-IsDescending r.now n clock.1 (
      Moves-Keeps C is_endpoint b r (HasMinutes r.now) (Move-HasMinutes r) m
        (record { past = omega (arith, h.past, clock.0); descending = h.descending }))

  start_signed-HasMinutes :
      (x : Result Record) (now : ℕ) (s : Loop)
      → sign C b.record_publisher.topic_id.hash now empty_content b.record_publisher.signing_key ≡ x
      → s.last_published_unix_minute ≡ now
      → s.publications ≡ []
      → HasMinutes now (publish_signed x none s)
  unfolding publish_signed
  start_signed-HasMinutes (ok a) now s e l f = record {
    past = omega (arith, l);
    descending = rw f (omega (arith, l, sign-unix_minute C _ now empty_content _ a e), tt);
  }
  start_signed-HasMinutes (err x) now s e l f = record {
    past = omega (arith, l);
    descending = rw f tt;
  }
  start_signed-HasMinutes panic now s e l f = record {
    past = omega (arith, l);
    descending = rw f tt;
  }

  start-HasMinutes :
      (now : ℕ)
      → (b.config.publish_record_on_startup ≡ false)
        ⊎ (b.config.check_older_records_first_on_startup ≡ false)
      → HasMinutes now (start C is_endpoint b now)
  unfolding start announce
  start-HasMinutes now (inl silent) = rw silent (record { past = omega arith; descending = tt })
  start-HasMinutes now (inr fresh) = elim (Bool-cases b.config.publish_record_on_startup) [
    | inl publishing ↦ rw (publishing, fresh) (start_signed-HasMinutes _ now _ refl refl refl)
    | inr silent ↦ rw silent (record { past = omega arith; descending = tt })
  ]

  -- Unless a bootstrap both publishes at startup and looks for older records first, it publishes
  -- for strictly later and later minutes, so for no minute twice, whatever its rounds meet, as long
  -- as the clock does not go back and the rounds iterate over keys in an order that adds none.
  pub bootstrap_minutes :
      (now : ℕ) (rs : List Round)
      → (b.config.publish_record_on_startup ≡ false)
        ⊎ (b.config.check_older_records_first_on_startup ≡ false)
      → IsClock now rs
      → All IsOrderly rs
      → let s = run C is_endpoint b rs (start C is_endpoint b now) in
        IsDescending (suc s.last_published_unix_minute) s.publications
  bootstrap_minutes now rs modest clock ordered =
      Trace-IsDescending now (run-Trace C is_endpoint b rs _ ordered) clock
        (start-HasMinutes now modest)
