-- ===== src/Gossip/Bootstrap/Trace.antt =====
-- Whole runs of the bootstrap as sequences of moves, and what every such sequence keeps.
use distributed_topic_tracke.Prelude.{
  ◌≡◌, false, refl, inl, inr, Bool, true, false, List, [], ◌∷◌, Bytes, if◌then◌else◌, Mem, All,
}
use distributed_topic_tracke.Crypto.Primitives.{Primitives, Postcard}
use distributed_topic_tracke.Gossip.Content.{GossipRecordContent}
use distributed_topic_tracke.Gossip.Rounds.{BootstrapActor, Loop, Round}
use distributed_topic_tracke.Gossip.Bootstrap.{run}
use distributed_topic_tracke.Gossip.Bootstrap.Moves.{Move, Moves, here, more}
use distributed_topic_tracke.Gossip.Bootstrap.Refinement.{round-Moves}

-- The order in which a round iterates over keys adds none.
abbrev pub IsOrderly : Round → Type 0
IsOrderly r = (keys : List Bytes) (key : Bytes) → Mem key (r.order keys) → Mem key keys

module _ ⦃P : Primitives⦄ (C : Postcard GossipRecordContent) (is_endpoint : Bytes → Bool)
    (b : BootstrapActor) where
  -- Moves of the rounds in order, up to the round after which the loop no longer runs.
  pub data Trace : List Round → Loop → Loop → Type 0 where
    finished : {s : Loop} → Trace [] s s
    halted : {r : Round} {rs : List Round} {s : Loop} → s.running ≡ false → Trace (r ∷ rs) s s
    then_round :
        {r : Round} {rs : List Round} {s t u : Loop}
        → s.running ≡ true
        → Moves C is_endpoint b r s t
        → Trace rs t u
        → Trace (r ∷ rs) s u

  if-Trace :
      (x : Bool) (rs : List Round) (s t u : Loop)
      → (x ≡ true → Trace rs s t)
      → (x ≡ false → Trace rs s u)
      → Trace rs s (if x then t else u)
  if-Trace true rs s t u m n = m refl
  if-Trace false rs s t u m n = n refl

  -- A run of the bootstrap loop refines the relation: whatever the rounds meet, as long as they
  -- iterate over keys in an order that adds none, the run is a sequence of moves of its rounds, in
  -- their order, through all of them or up to the move that leaves the loop.
  pub run-Trace :
      (rs : List Round) (s : Loop) → All IsOrderly rs → Trace rs s (run C is_endpoint b rs s)
  unfolding run
  run-Trace [] s h = finished
  run-Trace (r ∷ rs) s h =
      if-Trace s.running (r ∷ rs) s _ s
        (λ on. then_round on (round-Moves C is_endpoint b r s h.0 on) (run-Trace rs _ h.1)) halted

  -- What the moves of a round keep.
  pub Moves-Keeps :
      (r : Round) (Keeps : Loop → Type 0)
      → ((s t : Loop) → Move C is_endpoint b r s t → Keeps s → Keeps t)
      → {s t : Loop} → Moves C is_endpoint b r s t
      → Keeps s
      → Keeps t
  Moves-Keeps r Keeps step here k = k
  Moves-Keeps r Keeps step (more m on n) k = step _ _ n (Moves-Keeps r Keeps step m k)

  -- What all moves of some rounds keep, their trace keeps.
  pub Trace-Keeps :
      {rs : List Round} (Keeps : Loop → Type 0)
      → ((r : Round) (s t : Loop) → Mem r rs → Move C is_endpoint b r s t → Keeps s → Keeps t)
      → {s t : Loop} → Trace rs s t
      → Keeps s
      → Keeps t
  Trace-Keeps Keeps step finished k = k
  Trace-Keeps Keeps step (halted off) k = k
  Trace-Keeps Keeps step (then_round {r} on m n) k =
      Trace-Keeps Keeps (λ q s t h. step q s t (inr h)) n
        (Moves-Keeps r Keeps (λ s t. step r s t (inl refl)) m k)
