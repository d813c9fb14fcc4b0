-- ===== src/Gossip/Bootstrap/Asking.antt =====
-- Whom the bootstrap asks to join.
use distributed_topic_tracke.Prelude.{
  ℕ, ◌≡◌, refl, inl, inr, Bool, Option, none, List, [], ◌∷◌, Bytes, Result, ok, err, panic, All,
  Bool-cases,
}
use distributed_topic_tracke.Crypto.Primitives.{Primitives, Postcard}
use distributed_topic_tracke.Crypto.Record.{Record}
use distributed_topic_tracke.Gossip.Content.{GossipRecordContent}
use distributed_topic_tracke.Gossip.Sender.{Request, joining}
use distributed_topic_tracke.Gossip.Rounds.{BootstrapActor, Loop, Round, publish_signed}
use distributed_topic_tracke.Gossip.Bootstrap.{run, start, announce}
use distributed_topic_tracke.Gossip.Bootstrap.Moves.{
  IsOther, Move, publishes, passes, asks, rests, connects, leaves,
}
use distributed_topic_tracke.Gossip.Bootstrap.Trace.{IsOrderly, run-Trace, Trace-Keeps}

module _ ⦃P : Primitives⦄ (C : Postcard GossipRecordContent) (is_endpoint : Bytes → Bool)
    (b : BootstrapActor) where
  -- A request to join one other node.
  abbrev pub AsksOther : Request → Type 0
  AsksOther q =
      (key : Bytes) × (q ≡ joining (key ∷ [])) × IsOther is_endpoint b.record_publisher.pub_key key

  Move-AsksOther :
      (r : Round) (s t : Loop)
      → Move C is_endpoint b r s t
      → All AsksOther s.joins
      → All AsksOther t.joins
  Move-AsksOther r s t (publishes a cached own new e) h = rw e h
  Move-AsksOther r s t (passes new e) h = rw e h
  Move-AsksOther r s t (asks key other e) h = rw e ((key, refl, other), h)
  Move-AsksOther r s t (rests d e) h = rw e h
  Move-AsksOther r s t (connects j e) h = rw e h
  Move-AsksOther r s t (leaves w e) h = rw e h

  publish_signed-joins :
      (x : Result Record) (cached : Option (List Record)) (s : Loop)
      → (publish_signed x cached s).joins ≡ s.joins
  unfolding publish_signed
  publish_signed-joins (ok r) cached s = refl
  publish_signed-joins (err e) cached s = refl
  publish_signed-joins panic cached s = refl

  start-joins : (now : ℕ) → (start C is_endpoint b now).joins ≡ []
  unfolding start announce
  start-joins now = elim (Bool-cases b.config.publish_record_on_startup) [
    | inl publishing ↦ rw publishing (publish_signed-joins _ none _)
    | inr silent ↦ rw silent refl
  ]

  -- Whatever the rounds of a bootstrap meet, as long as they iterate over keys in an order that adds
  -- none, every request that it sends is to join a single peer, whose key is valid and not the
  -- node's own.
  pub bootstrap_asks :
      (now : ℕ) (rs : List Round)
      → All IsOrderly rs
      → All AsksOther (run C is_endpoint b rs (start C is_endpoint b now)).joins
  bootstrap_asks now rs ordered =
      Trace-Keeps C is_endpoint b (λ s. All AsksOther s.joins) (λ r s t h. Move-AsksOther r s t)
        (run-Trace C is_endpoint b rs _ ordered) (rw (start-joins now) tt)
