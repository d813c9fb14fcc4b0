-- ===== src/Gossip/Working/Ticks.antt =====
-- The work does not disturb the ticker, and a property that all work keeps holds for a whole life.
use distributed_topic_tracke.Prelude.{
  ℕ, suc, ◌+◌, ◌≡◌, refl, sym, ap, ◌∙◌, ◌⊎◌, inl, inr, Bool, Bool-cases, true, false, List, [], ◌∷◌,
  leb, if◌then◌else◌, Result, ok, err, panic, map, take, length, All, Mem, All-Mem, All-of_Mem,
  Mem-map, subst,
}
use distributed_topic_tracke.Gossip.Ticker.{
  Ticker, Wake, handles_dropped, cancelled, clock, new, round as tick_round, run as tick,
}
use distributed_topic_tracke.Gossip.Ticker.Spacing.{IsSpaced, run-IsSpaced}
use distributed_topic_tracke.Gossip.Ticker.Pacing.{IsPaced, run-IsPaced}
use distributed_topic_tracke.Gossip.Working.{Worker, Turn, finished, round, run, spawn}

-- What wakes a turn.
abbrev pub wakes : {J : Type 0} → List (Turn J) → List Wake
wakes ts = map (λ t. t.0) ts

-- What the works of some turns may meet.
abbrev pub jobs : {J : Type 0} → List (Turn J) → List J
jobs ts = map (λ t. t.1) ts

module _ {S J : Type 0} (work : J → S → Result (Unit {0}) × S) where
  -- A round moves the ticker as a round without work does, or its work panics and ends the actor.
  abbrev Moves : Turn J → Worker S → Worker S → Type 0
  Moves t w v =
      (v.ticker ≡ tick_round t.0 w.ticker)
      ⊎ ((v.ticker.running ≡ false) × (v.ticker.ticks ≡ (tick_round t.0 w.ticker).ticks))

  finished-Moves :
      (now took random : ℕ) (x : Result (Unit {0}) × S) (j : J) (w : Worker S)
      → leb w.ticker.deadline now ≡ true
      → Moves (clock now took random, j) w (finished work now took random x w.ticker)
  unfolding finished tick_round
  finished-Moves now took random (ok u, s) j w due = inl (rw due refl)
  finished-Moves now took random (err e, s) j w due = inl (rw due refl)
  finished-Moves now took random (panic, s) j w due = inr (refl, rw due refl)

  round-Moves : (t : Turn J) (w : Worker S) → Moves t w (round work t w)
  unfolding round
  round-Moves (handles_dropped, j) w = inl (unfold tick_round in refl)
  round-Moves (cancelled, j) w = inl (unfold tick_round in refl)
  round-Moves (clock now took random, j) w = elim (Bool-cases (leb w.ticker.deadline now)) [
    | inl due ↦ rw due (finished-Moves now took random (work j w.state) j w due)
    | inr early ↦ rw early (inl (unfold tick_round in rw early refl))
  ]

  stopped-run : (ts : List (Turn J)) (w : Worker S) → w.ticker.running ≡ false → run work ts w ≡ w
  unfolding run
  stopped-run [] w h = refl
  stopped-run (t ∷ ts) w h = rw h refl

  same_ticks :
      (b : Bool) (v w : Worker S) (t u : Ticker)
      → v.ticker.ticks ≡ t.ticks
      → w.ticker.ticks ≡ u.ticks
      → (if b then v else w).ticker.ticks ≡ (if b then t else u).ticks
  same_ticks true v w t u e f = e
  same_ticks false v w t u e f = f

  -- However the work of a periodic actor ends, and whatever it does, the actor starts its work at the
  -- times at which the ticker by itself would, for as many rounds as it takes part in.
  pub run-ticks :
      (ts : List (Turn J)) (w : Worker S)
      → (k : ℕ) × ((run work ts w).ticker.ticks ≡ (tick (take k (wakes ts)) w.ticker).ticks)
  unfolding run tick
  run-ticks [] w = (0, refl)
  run-ticks (t ∷ ts) w =
      let v = round work t w in
      let next = tick_round t.0 w.ticker in
      elim (round-Moves t w) [
        | inl same ↦
            (let (k, e) = run-ticks ts v in
              let after = tick (take k (wakes ts)) in
              (
                suc k,
                same_ticks w.ticker.running (run work ts v) w (after next) w.ticker
                    (e ∙ ap (λ u. (after u).ticks) same) refl,
              ))
        | inr (off, same) ↦ (
          1,
          same_ticks w.ticker.running (run work ts v) w next w.ticker
              (ap (λ (u : Worker S). u.ticker.ticks) (stopped-run ts v off) ∙ same) refl,
        )
      ]

  -- The works of an actor start at times that lie at least one second apart.
  pub run-IsSpaced_work :
      (now initial_interval base_interval max_jitter : ℕ) (s : S) (ts : List (Turn J))
      → (next : ℕ) × IsSpaced next
          (run work ts (spawn now initial_interval base_interval max_jitter s)).ticker.ticks
  unfolding spawn
  run-IsSpaced_work now initial_interval base_interval max_jitter s ts =
      let t = new now initial_interval base_interval max_jitter in
      let (k, e) = run-ticks ts (record { ticker = t; state = s }) in
      (
        (tick (take k (wakes ts)) t).deadline,
        subst (IsSpaced (tick (take k (wakes ts)) t).deadline) (sym e)
            (run-IsSpaced now initial_interval base_interval max_jitter (take k (wakes ts))),
      )

  -- The works of an actor keep to its intervals.
  pub run-IsPaced_work :
      (now initial_interval base_interval max_jitter : ℕ) (s : S) (ts : List (Turn J))
      → (next : ℕ) × IsPaced
          (now + initial_interval)
          base_interval
          next
          (run work ts (spawn now initial_interval base_interval max_jitter s)).ticker.ticks
  unfolding spawn
  run-IsPaced_work now initial_interval base_interval max_jitter s ts =
      let t = new now initial_interval base_interval max_jitter in
      let (k, e) = run-ticks ts (record { ticker = t; state = s }) in
      let next = (tick (take k (wakes ts)) t).deadline in
      (
        next,
        subst (IsPaced (now + initial_interval) base_interval next) (sym e)
            (run-IsPaced now initial_interval base_interval max_jitter (take k (wakes ts))),
      )

  module _ (Q : ℕ → S → Type 0) where
    abbrev Holds : Worker S → Type 0
    Holds w = Q (length w.ticker.ticks) w.state

    either-Holds : (b : Bool) (v w : Worker S) → Holds v → Holds w → Holds (if b then v else w)
    either-Holds true v w h k = h
    either-Holds false v w h k = k

    finished-Holds :
        (now took random : ℕ) (x : Result (Unit {0}) × S) (t : Ticker)
        → Q (suc (length t.ticks)) x.1
        → Holds (finished work now took random x t)
    unfolding finished
    finished-Holds now took random (ok u, s) t h = h
    finished-Holds now took random (err e, s) t h = h
    finished-Holds now took random (panic, s) t h = h

    module _ (Good : J → Type 0)
        (keeps : (n : ℕ) (j : J) (s : S) → Good j → Q n s → Q (suc n) (work j s).1) where
      round-Holds : (t : Turn J) (w : Worker S) → Good t.1 → Holds w → Holds (round work t w)
      unfolding round
      round-Holds (handles_dropped, j) w g h = h
      round-Holds (cancelled, j) w g h = h
      round-Holds (clock now took random, j) w g h =
          either-Holds (leb w.ticker.deadline now) _ w
            (finished-Holds now took random (work j w.state) w.ticker
              (keeps (length w.ticker.ticks) j w.state g h))
            h

      -- What every work keeps holds of an actor's state, with the number of works that were started.
      pub run-Holds :
          (ts : List (Turn J)) (w : Worker S)
          → All (λ t. Good t.1) ts
          → Q (length w.ticker.ticks) w.state
          → Q (length (run work ts w).ticker.ticks) (run work ts w).state
      unfolding run
      run-Holds [] w g h = h
      run-Holds (t ∷ ts) w g h =
          either-Holds w.ticker.running (run work ts (round work t w)) w
            (run-Holds ts (round work t w) g.1 (round-Holds t w g.0 h)) h

  -- The same, where a work is known to be one of the given turns'.
  pub run-Holds_jobs :
      (Q : ℕ → S → Type 0) (Good : J → Type 0) (ts : List (Turn J)) (w : Worker S)
      → ((n : ℕ) (j : J) (s : S) → Good j → Mem j (jobs ts) → Q n s → Q (suc n) (work j s).1)
      → All (λ t. Good t.1) ts
      → Q (length w.ticker.ticks) w.state
      → Q (length (run work ts w).ticker.ticks) (run work ts w).state
  run-Holds_jobs Q Good ts w keeps good =
      let Known : J → Type 0 = λ j. Good j × Mem j (jobs ts) in
      run-Holds Q Known (λ n j s g. keeps n j s g.0 g.1) ts w
        (All-of_Mem (λ t. Known t.1) ts
          (λ t m. (All-Mem (λ t. Good t.1) ts good m, Mem-map (λ t. t.1) t ts m)))
