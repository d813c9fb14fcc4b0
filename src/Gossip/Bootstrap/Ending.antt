-- ===== src/Gossip/Bootstrap/Ending.antt =====
-- How and why the bootstrap ends, and what it then reports.
use distributed_topic_tracke.Prelude.{
  ◌≡◌, refl, sym, ap, ◌∙◌, Bool, true, false, some, List, [], ◌∷◌, ◌++◌, Bytes, ok, All, arith,
  true≢false,
}
use distributed_topic_tracke.Crypto.Primitives.{Primitives, Postcard}
use distributed_topic_tracke.Gossip.Content.{GossipRecordContent}
use distributed_topic_tracke.Gossip.Rounds.{BootstrapActor, Loop, Round, check, leave_joined}
use distributed_topic_tracke.Gossip.Bootstrap.{round, run, result}

pub by_cases : {A : Type 0} (x : Bool) → (x ≡ true → A) → (x ≡ false → A) → A
by_cases true f g = f refl
by_cases false f g = g refl

-- Rounds up to one of them.
pub All-upto :
    (Holds : Round → Type 0) (past after : List Round) (r : Round)
    → All Holds (past ++ (r ∷ after))
    → All Holds (past ++ (r ∷ []))
All-upto Holds [] after r h = (h.0, tt)
All-upto Holds (q ∷ past) after r h = (h.0, All-upto Holds past after r h.1)

pub last-All :
    (Holds : Round → Type 0) (past : List Round) (r : Round)
    → All Holds (past ++ (r ∷ []))
    → Holds r
last-All Holds [] r h = h.0
last-All Holds (q ∷ past) r h = last-All Holds past r h.1

module _ ⦃P : Primitives⦄ (C : Postcard GossipRecordContent) (is_endpoint : Bytes → Bool)
    (b : BootstrapActor) where
  pub run-stopped : (rs : List Round) (s : Loop) → s.running ≡ false → run C is_endpoint b rs s ≡ s
  unfolding run
  run-stopped [] s h = refl
  run-stopped (r ∷ rs) s h = ground arith

  pub run-running :
      (r : Round) (rs : List Round) (s : Loop)
      → s.running ≡ true
      → run C is_endpoint b (r ∷ rs) s ≡ run C is_endpoint b rs (round C is_endpoint b r s)
  unfolding run
  run-running r rs s h = ground arith

  pub run-off :
      (rs : List Round) (s : Loop) → s.running ≡ false → (run C is_endpoint b rs s).running ≡ false
  run-off rs s off = ap (λ (t : Loop). t.running) (run-stopped rs s off) ∙ off

  pub run-append :
      (pre post : List Round) (s : Loop)
      → run C is_endpoint b (pre ++ post) s ≡ run C is_endpoint b post (run C is_endpoint b pre s)
  unfolding run
  run-append [] post s = refl
  run-append (r ∷ pre) post s =
      by_cases s.running
        (λ on.
          run-running r (pre ++ post) s on
          ∙ run-append pre post (round C is_endpoint b r s)
          ∙ ap (run C is_endpoint b post) (sym (run-running r pre s on)))
        (λ off.
          run-stopped (r ∷ (pre ++ post)) s off
          ∙ sym (run-stopped post s off)
          ∙ ap (run C is_endpoint b post) (sym (run-stopped (r ∷ pre) s off)))

  -- A loop that has ended did so in one of its rounds, and the rounds before it left it running.
  pub record StopsIn (rs : List Round) (s : Loop) : Type 0 where
    pub past : List Round
    pub after : List Round
    pub at : Round
    pub rounds : rs ≡ past ++ (at ∷ after)
    pub reached : (run C is_endpoint b past s).running ≡ true
    pub stops : run C is_endpoint b rs s ≡ round C is_endpoint b at (run C is_endpoint b past s)

  pub stops_in :
      (rs : List Round) (s : Loop)
      → s.running ≡ true
      → (run C is_endpoint b rs s).running ≡ false
      → StopsIn rs s
  stops_in [] s on off = absurd (true≢false (sym on ∙ (unfold run in off)))
  stops_in (r ∷ rs) s on off =
      let t = round C is_endpoint b r s in
      let e = run-running r rs s on in
      let ih = stops_in rs t in
      by_cases t.running
        (λ still.
          let st = ih still (ap (λ (u : Loop). u.running) (sym e) ∙ off) in
          record {
            past = r ∷ st.past;
            after = st.after;
            at = st.at;
            rounds = ap (λ qs. r ∷ qs) st.rounds;
            reached = ap (λ (u : Loop). u.running) (run-running r st.past s on) ∙ st.reached;
            stops =
                e ∙ st.stops ∙ ap (round C is_endpoint b st.at) (sym (run-running r st.past s on));
          })
        (λ stopped. record {
          past = [];
          after = rs;
          at = r;
          rounds = refl;
          reached = unfold run in on;
          stops = e ∙ run-stopped rs t stopped ∙ (unfold run in refl);
        })

  round-joined :
      (r : Round) (s : Loop)
      → r.is_cancelled ≡ false
      → r.is_joined_first ≡ ok true
      → round C is_endpoint b r s ≡ leave_joined s
  unfolding round check
  round-joined r s on joined = ground arith

  -- If a bootstrap gets to a round that is not cancelled and whose first check finds the node
  -- joined, it ends there and reports success, whatever came before and whatever would come after.
  pub bootstrap_succeeds :
      (pre : List Round) (r : Round) (post : List Round) (s : Loop)
      → (run C is_endpoint b pre s).running ≡ true
      → r.is_cancelled ≡ false
      → r.is_joined_first ≡ ok true
      → result (run C is_endpoint b (pre ++ (r ∷ post)) s) ≡ some (ok tt)
  bootstrap_succeeds pre r post s on uncut joined =
      let t = run C is_endpoint b pre s in
      let last =
        run-append pre (r ∷ post) s
        ∙ run-running r post t on
        ∙ ap (run C is_endpoint b post) (round-joined r t uncut joined)
        ∙ run-stopped post (leave_joined t) (unfold leave_joined in refl) in
      ap result last ∙ (unfold result leave_joined in refl)
