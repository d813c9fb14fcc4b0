-- ===== src/Gossip/Bootstrap/Reaching.antt =====
-- A round that finds peers asks them, one after the other, until it is connected.
use distributed_topic_tracke.Prelude.{
  ◌≡◌, refl, ap, ◌∙◌, ◌⊎◌, Bool, true, false, List, [], ◌∷◌, ◌++◌, Bytes, Result, ok, err, panic,
  All, arith, Mem, inr,
}
use distributed_topic_tracke.Crypto.Primitives.{Primitives, Postcard}
use distributed_topic_tracke.Gossip.Content.{GossipRecordContent}
use distributed_topic_tracke.Gossip.Sender.{
  Request, joining, failed, timed_out, join_peers, chosen_peers, to_result,
}
use distributed_topic_tracke.Gossip.Rounds.{
  BootstrapActor, Loop, Wait, elapsed, woken, cancelled, Attempt, Visit, next_peer, enough, abort,
  wait, answered, settled, proceed, leave,
}
use distributed_topic_tracke.Gossip.Bootstrap.{requested, visit_one, visit}

-- An attempt after which the loop goes on to the next peer: the request fails, or the wait is not cut
-- and the node is still not joined.
pub data GoesOn (a : Attempt) : Type 0 where
  unsent : (a.outcome ≡ failed) ⊎ (a.outcome ≡ timed_out) → GoesOn a
  alone : (a.settle ≡ elapsed) ⊎ (a.settle ≡ woken) → a.is_joined ≡ ok false → GoesOn a

-- The requests to join single keys, in order, on top of a log with the latest first.
pub ask_each : List Bytes → List Request → List Request
ask_each [] log = log
ask_each (key ∷ keys) log = ask_each keys (joining (key ∷ []) ∷ log)

pub ask_each-Mem :
    (q : Request) (keys : List Bytes) (log : List Request) → Mem q log → Mem q (ask_each keys log)
unfolding ask_each
ask_each-Mem q [] log m = m
ask_each-Mem q (key ∷ keys) log m = ask_each-Mem q keys (joining (key ∷ []) ∷ log) (inr m)

module _ ⦃P : Primitives⦄ (C : Postcard GossipRecordContent) (is_endpoint : Bytes → Bool)
    (b : BootstrapActor) where
  answered-joins : (x : Result Bool) (s : Loop) → (answered x s).1.joins ≡ s.joins
  unfolding answered
  answered-joins (ok true) s = refl
  answered-joins (ok false) s = refl
  answered-joins (err e) s = refl
  answered-joins panic s = refl

  requested-joins :
      (x : Result (Unit {0})) (a : Attempt) (s : Loop)
      → (requested C is_endpoint b x a s).1.joins ≡ s.joins
  unfolding requested
  requested-joins (ok sent) a s = settled-joins a.settle a.is_joined s
    where
      settled-joins :
          (w : Wait) (x : Result Bool) (s : Loop)
          → (settled b.config.per_peer_join_settle_time w x s).1.joins ≡ s.joins
      settled-joins elapsed x s = unfold settled wait in answered-joins x _
      settled-joins woken x s = unfold settled wait in answered-joins x _
      settled-joins cancelled x s = unfold settled wait leave in refl
  requested-joins (err e) a s = refl
  requested-joins panic a s = refl

  visit_one-joins :
      (a : Attempt) (key : Bytes) (s : Loop)
      → (visit_one C is_endpoint b a key s).1.joins ≡ joining (key ∷ []) ∷ s.joins
  unfolding visit_one join_peers chosen_peers
  visit_one-joins a key s = requested-joins _ a _

  visit_one-GoesOn :
      (a : Attempt) (key : Bytes) (s : Loop)
      → GoesOn a
      → (visit_one C is_endpoint b a key s).0 ≡ next_peer
  unfolding visit_one join_peers to_result requested settled answered
  visit_one-GoesOn a key s (unsent h) = ground arith
  visit_one-GoesOn a key s (alone w j) = ground arith

  abbrev Later : Loop → List Request → Type 0
  Later s log = (later : List Bytes) × (s.joins ≡ ask_each later log)

  proceed-Later :
      (v : Visit) (rest s : Loop) (log : List Request)
      → Later rest log
      → Later s log
      → Later (proceed v rest s) log
  unfolding proceed
  proceed-Later next_peer rest s log l m = l
  proceed-Later enough rest s log l m = m
  proceed-Later abort rest s log l m = m

  visit-Later :
      (attempt : Bytes → Attempt) (keys : List Bytes) (s : Loop)
      → Later (visit C is_endpoint b attempt keys s) s.joins
  unfolding visit ask_each
  visit-Later attempt [] s = ([], refl)
  visit-Later attempt (key ∷ keys) s =
      let t = (visit_one C is_endpoint b (attempt key) key s).1 in
      let asked : t.joins ≡ joining (key ∷ []) ∷ s.joins = visit_one-joins (attempt key) key s in
      let (later, e) = visit-Later attempt keys t in
      proceed-Later _ _ t s.joins (key ∷ later, e ∙ ap (ask_each later) asked) (key ∷ [], asked)

  visit_next :
      (attempt : Bytes → Attempt) (key : Bytes) (keys : List Bytes) (s : Loop)
      → (visit_one C is_endpoint b (attempt key) key s).0 ≡ next_peer
      → (visit C is_endpoint b attempt (key ∷ keys) s).joins
        ≡ (visit C is_endpoint b attempt keys
            (visit_one C is_endpoint b (attempt key) key s).1).joins
  unfolding visit proceed
  visit_next attempt key keys s e = rw (e, proceed) refl

  -- If the first attempts of a round do not end the loop over the peers, that is, each request fails
  -- or is not followed by a connection, then those peers and the one after them have all been asked,
  -- in order.
  pub visit-ask_each :
      (attempt : Bytes → Attempt) (keys : List Bytes) (key : Bytes) (more : List Bytes) (s : Loop)
      → All (λ k. GoesOn (attempt k)) keys
      → (later : List Bytes) × ((visit C is_endpoint b attempt (keys ++ (key ∷ more)) s).joins
          ≡ ask_each later (joining (key ∷ []) ∷ ask_each keys s.joins))
  unfolding ask_each
  visit-ask_each attempt [] key more s h =
      let t = (visit_one C is_endpoint b (attempt key) key s).1 in
      let asked : t.joins ≡ joining (key ∷ []) ∷ s.joins = visit_one-joins (attempt key) key s in
      let (later, e) = visit-Later attempt more t in
      unfold visit in proceed-Later _ _ t _ (later, e ∙ ap (ask_each later) asked) ([], asked)
  visit-ask_each attempt (k ∷ keys) key more s h =
      let t = (visit_one C is_endpoint b (attempt k) k s).1 in
      let asked : t.joins ≡ joining (k ∷ []) ∷ s.joins = visit_one-joins (attempt k) k s in
      let (later, e) = visit-ask_each attempt keys key more t h.1 in
      (
        later,
        visit_next attempt k (keys ++ (key ∷ more)) s (visit_one-GoesOn (attempt k) k s h.0)
            ∙ e
            ∙ ap (λ log. ask_each later (joining (key ∷ []) ∷ ask_each keys log)) asked,
      )
