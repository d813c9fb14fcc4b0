-- ===== src/Gossip/Bootstrap/Reporting.antt =====
-- The round in which the bootstrap ends, its reason, and what the success that it reports rests on.
use distributed_topic_tracke.Prelude.{
  ℕ, ◌≡◌, refl, sym, ap, subst, ◌∙◌, ◌⊎◌, inl, inr, Bool, true, false, Option, some, none, List, [],
  ◌∷◌, ◌++◌, Bytes, Result, ok, err, panic, Mem, All, true≢false, Bool-cases, bootstrap_failed,
}
use distributed_topic_tracke.Crypto.Primitives.{Primitives, Postcard}
use distributed_topic_tracke.Crypto.Record.{Record}
use distributed_topic_tracke.Gossip.Content.{GossipRecordContent}
use distributed_topic_tracke.Gossip.Rounds.{BootstrapActor, Loop, Round, publish_signed}
use distributed_topic_tracke.Gossip.Bootstrap.{run, start, announce, result}
use distributed_topic_tracke.Gossip.Bootstrap.Moves.{
  Moves, here, more, Says, Grounds, first, before, at_peer, last, Move, publishes, passes, asks,
  rests, connects, leaves,
}
use distributed_topic_tracke.Gossip.Bootstrap.Trace.{IsOrderly, run-Trace, Trace-Keeps}
use distributed_topic_tracke.Gossip.Sender.{Request, joining}
use distributed_topic_tracke.Gossip.Bootstrap.Refinement.{round-Moves}
use distributed_topic_tracke.Gossip.Bootstrap.Ending.{
  All-upto, last-All, StopsIn, stops_in, run-append, run-running,
}

module _ ⦃P : Primitives⦄ (C : Postcard GossipRecordContent) (is_endpoint : Bytes → Bool)
    (b : BootstrapActor) where
  publish_signed-flags :
      (x : Result Record) (s : Loop)
      → ((publish_signed x none s).running ≡ s.running)
        × ((publish_signed x none s).is_joined_ret ≡ s.is_joined_ret)
  unfolding publish_signed
  publish_signed-flags (ok a) s = (refl, refl)
  publish_signed-flags (err e) s = (refl, refl)
  publish_signed-flags panic s = (refl, refl)

  start-flags :
      (now : ℕ)
      → ((start C is_endpoint b now).running ≡ true)
        × ((start C is_endpoint b now).is_joined_ret ≡ false)
  unfolding start announce
  start-flags now = elim (Bool-cases b.config.publish_record_on_startup) [
    | inl publishing ↦ rw publishing (publish_signed-flags _ _)
    | inr silent ↦ rw silent (refl, refl)
  ]

  -- What was asked stays asked.
  Says-more : {r : Round} (q : Request) (asked : List Request) → Says r asked → Says r (q ∷ asked)
  Says-more q asked (first e, m) = (first e, m)
  Says-more q asked (before e, m) = (before e, m)
  Says-more q asked (at_peer key e, m) = (at_peer key e, inr m)
  Says-more q asked (last e, m) = (last e, m)

  -- A loop that would report success was told so in one of the rounds.
  abbrev IsTold : List Round → Loop → Type 0
  IsTold rs s = (s.is_joined_ret ≡ false) ⊎ ((r : Round) × Mem r rs × Says r s.joins)

  Move-IsTold :
      (rs : List Round) (r : Round) (s t : Loop)
      → Mem r rs
      → Move C is_endpoint b r s t
      → IsTold rs s
      → IsTold rs t
  Move-IsTold rs r s t m (publishes a cached own new e) h = rw e h
  Move-IsTold rs r s t m (passes new e) h = rw e h
  Move-IsTold rs r s t m (asks key other e) (inl h) = rw e (inl h)
  Move-IsTold rs r s t m (asks key other e) (inr (q, n, says)) =
      rw e (inr (q, n, Says-more (joining (key ∷ [])) s.joins says))
  Move-IsTold rs r s t m (rests d e) h = rw e h
  Move-IsTold rs r s t m (connects says e) h = rw e (inr (r, m, says))
  Move-IsTold rs r s t m (leaves w e) h = rw e h

  -- A move that ends the loop has a reason.
  Move-Grounds :
      (r : Round) (s t : Loop)
      → Move C is_endpoint b r s t
      → s.running ≡ true
      → t.running ≡ false
      → Grounds r t.joins
  Move-Grounds r s t (publishes a cached own new e) on off =
      absurd (true≢false (sym on ∙ ap (λ (u : Loop). u.running) (sym e) ∙ off))
  Move-Grounds r s t (passes new e) on off =
      absurd (true≢false (sym on ∙ ap (λ (u : Loop). u.running) (sym e) ∙ off))
  Move-Grounds r s t (asks key other e) on off =
      absurd (true≢false (sym on ∙ ap (λ (u : Loop). u.running) (sym e) ∙ off))
  Move-Grounds r s t (rests d e) on off =
      absurd (true≢false (sym on ∙ ap (λ (u : Loop). u.running) (sym e) ∙ off))
  Move-Grounds r s t (connects says e) on off =
      absurd (true≢false (sym on ∙ ap (λ (u : Loop). u.running) (sym e) ∙ off))
  Move-Grounds r s t (leaves why e) on off =
      subst (Grounds r) (ap (λ (u : Loop). u.joins) (sym e)) why

  Moves-Grounds :
      (r : Round) (s t : Loop)
      → Moves C is_endpoint b r s t
      → s.running ≡ true
      → t.running ≡ false
      → Grounds r t.joins
  Moves-Grounds r s t here on off = absurd (true≢false (sym on ∙ off))
  Moves-Grounds r s t (more {t = u} ms still m) on off = Move-Grounds r u t m still off

  -- How a loop has ended: in a round that it got to, for a reason of that round, and with success only
  -- if that round or one before it found the node joined.
  pub record HasEnded (rs : List Round) (s : Loop) : Type 0 where
    pub last_round : StopsIn C is_endpoint b rs s
    pub reason : Grounds last_round.at (run C is_endpoint b rs s).joins
    pub told : IsTold (last_round.past ++ (last_round.at ∷ [])) (run C is_endpoint b rs s)

  has_ended :
      (rs : List Round) (s : Loop)
      → s.running ≡ true
      → s.is_joined_ret ≡ false
      → All IsOrderly rs
      → (run C is_endpoint b rs s).running ≡ false
      → HasEnded rs s
  has_ended rs s on unjoined ordered off =
      let st = stops_in C is_endpoint b rs s on off in
      let t = run C is_endpoint b rs s in
      let u = run C is_endpoint b st.past s in
      let qs = st.past ++ (st.at ∷ []) in
      let orderly : All IsOrderly qs =
        All-upto IsOrderly st.past st.after st.at (subst (All IsOrderly) st.rounds ordered) in
      let upto : run C is_endpoint b qs s ≡ t =
        run-append C is_endpoint b st.past (st.at ∷ []) s
        ∙ run-running C is_endpoint b st.at [] u st.reached
        ∙ (unfold run in sym st.stops) in
      let moves : Moves C is_endpoint b st.at u t =
        subst (Moves C is_endpoint b st.at u) (sym st.stops) (
          round-Moves C is_endpoint b st.at u (last-All IsOrderly st.past st.at orderly)
            st.reached) in
      record {
        last_round = st;
        reason = Moves-Grounds st.at u t moves st.reached off;
        told = subst (IsTold qs) upto (
            Trace-Keeps C is_endpoint b (IsTold qs) (λ r s t m v. Move-IsTold qs r s t m v)
              (run-Trace C is_endpoint b qs s orderly) (inl unjoined));
      }

  -- The ways in which a run may end, with what the task sends.
  pub data IsEnding (rs : List Round) (s : Loop) : Option (Result (Unit {0})) → Type 0 where
    unfinished : (run C is_endpoint b rs s).running ≡ true → IsEnding rs s none
    succeeded :
        (ended : HasEnded rs s)
        → ((r : Round) × Mem r (ended.last_round.past ++ (ended.last_round.at ∷ []))
            × Says r (run C is_endpoint b rs s).joins)
        → IsEnding rs s (some (ok tt))
    gave_up : HasEnded rs s → IsEnding rs s (some (err bootstrap_failed))

  -- A bootstrap whose loop still runs sends nothing. If the loop has ended, it did so in a round that
  -- it got to, and that round was cancelled, found the node joined, or could not check that; and the
  -- bootstrap reports success only if that round or one before it found the node joined, else its
  -- failure. Where what found the node joined, or was cut, is the attempt at a peer, that peer had
  -- been asked to join. This holds if the rounds iterate over keys in an order that adds none.
  pub bootstrap_result :
      (now : ℕ) (rs : List Round)
      → All IsOrderly rs
      → let s = start C is_endpoint b now in IsEnding rs s (result (run C is_endpoint b rs s))
  unfolding result
  bootstrap_result now rs ordered =
      let s = start C is_endpoint b now in
      let t = run C is_endpoint b rs s in
      elim (Bool-cases t.running) [
        | inl on ↦ rw on (unfinished on)
        | inr off ↦
            let ended = has_ended rs s (start-flags now).0 (start-flags now).1 ordered off in
            elim (Bool-cases t.is_joined_ret) [
              | inr failed ↦ rw (off, failed) (gave_up ended)
              | inl joined ↦ elim ended.told [
                | inl failed ↦ absurd (true≢false (sym joined ∙ failed))
                | inr says ↦ rw (off, joined) (succeeded ended says)
              ]
            ]
      ]
