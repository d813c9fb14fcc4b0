-- ===== src/Gossip/Bootstrap/Visits.antt =====
-- The publications, waits and visits of a round only make moves of the relation.
use distributed_topic_tracke.Prelude.{
  ◌∙◌, ◌≡◌, ◌≢◌, refl, inl, inr, Bool-cases, Bool, true, false, Option, List, [], ◌∷◌, Bytes, ◌==◌,
  if◌then◌else◌, Result, ok, err, panic, arith, Mem,
}
use distributed_topic_tracke.Config.Duration.{Duration}
use distributed_topic_tracke.Crypto.Primitives.{Primitives, Postcard}
use distributed_topic_tracke.Crypto.Record.{Record, sign}
use distributed_topic_tracke.Gossip.Content.{GossipRecordContent}
use distributed_topic_tracke.Gossip.Sender.{joining, join_peers, chosen_peers}
use distributed_topic_tracke.Gossip.Rounds.{
  Attempt, BootstrapActor, Loop, Round, Wait, elapsed, woken, cancelled, Visit, next_peer, enough,
  abort, leave, leave_joined, check, wait, answered, settled, proceed, publish_signed,
}
use distributed_topic_tracke.Gossip.Bootstrap.{
  empty_content, announce, announce_once, requested, visit_one, visit,
}
use distributed_topic_tracke.Gossip.Bootstrap.Moves.{
  at_peer, IsFailure, failure, crash, joined, cut_at_peer, Move, publishes, passes, asks, rests,
  connects, leaves, Says, Grounds, Moves, here, more, Moves-trans,
}
use distributed_topic_tracke.Gossip.Bootstrap.Peers.{IsStrange}

module _ ⦃P : Primitives⦄ (C : Postcard GossipRecordContent) (is_endpoint : Bytes → Bool)
    (b : BootstrapActor) (r : Round) where
  -- From a loop that runs, moves.
  abbrev pub To : Loop → Loop → Type 0
  To s t = s.running ≡ true → Moves C is_endpoint b r s t

  abbrev Keeps : Loop → Loop → Type 0
  Keeps s t = s.running ≡ true → t.running ≡ true

  one : (s t : Loop) → Move C is_endpoint b r s t → To s t
  one s t m on = more here on m

  pub chain : {s t u : Loop} → To s t → Keeps s t → To t u → To s u
  chain m keeps n on = Moves-trans C is_endpoint b (m on) (n (keeps on))

  pub leave-Moves : (s : Loop) → Grounds r s.joins → To s (leave s)
  unfolding leave
  leave-Moves s h = one s _ (leaves h refl)

  pub check-Moves :
      (x : Result Bool) (s rest : Loop)
      → (x ≡ ok true → Says r s.joins)
      → (IsFailure x → Grounds r s.joins)
      → To s rest
      → To s (check x s rest)
  unfolding check leave_joined
  check-Moves (ok true) s rest says failed m = λ on.
      more (more here on (connects (says refl) refl)) on
        (let (j, asked) = says refl in leaves (joined j, asked) refl)
  check-Moves (ok false) s rest says failed m = m
  check-Moves (err e) s rest says failed m = leave-Moves s (failed (failure e))
  check-Moves panic s rest says failed m = leave-Moves s (failed crash)

  pub wait-Moves :
      (d : Duration) (w : Wait) (s : Loop) → (w ≡ cancelled → Grounds r s.joins) → To s (wait d w s)
  unfolding wait leave
  wait-Moves d elapsed s h = one s _ (rests d refl)
  wait-Moves d woken s h = one s _ (rests d refl)
  wait-Moves d cancelled s h = λ on. more (more here on (rests d refl)) on (leaves (h refl) refl)

  pub when-Moves :
      (x : Bool) (s t u : Loop) → (x ≡ true → To s t) → To s u → To s (if x then t else u)
  when-Moves true s t u m n = m refl
  when-Moves false s t u m n = n

  publish_signed-running :
      (x : Result Record) (cached : Option (List Record)) (s : Loop)
      → (publish_signed x cached s).running ≡ s.running
  unfolding publish_signed
  publish_signed-running (ok a) cached s = refl
  publish_signed-running (err x) cached s = refl
  publish_signed-running panic cached s = refl

  signed-Moves :
      (x : Result Record) (cached : Option (List Record)) (s : Loop)
      → sign C b.record_publisher.topic_id.hash r.now empty_content b.record_publisher.signing_key
        ≡ x
      → r.now ≢ s.last_published_unix_minute
      → To s (publish_signed x cached (record s { last_published_unix_minute = r.now }))
  unfolding publish_signed
  signed-Moves (ok a) cached s e h = one s _ (publishes a cached e h refl)
  signed-Moves (err x) cached s e h = one s _ (passes h refl)
  signed-Moves panic cached s e h = one s _ (passes h refl)

  pub announce_once-Moves :
      (cached : Option (List Record)) (s : Loop)
      → To s (announce_once C is_endpoint b r.now cached s)
  unfolding announce_once announce
  announce_once-Moves cached s = elim (Bool-cases (r.now == s.last_published_unix_minute)) [
    | inl same ↦ rw same (λ on. here)
    | inr other ↦ rw other (signed-Moves _ cached s refl (ground arith))
  ]

  pub announce_once-running :
      (cached : Option (List Record)) (s : Loop)
      → Keeps s (announce_once C is_endpoint b r.now cached s)
  unfolding announce_once announce
  announce_once-running cached s on = elim (Bool-cases (r.now == s.last_published_unix_minute)) [
    | inl same ↦ rw same on
    | inr other ↦ rw other (publish_signed-running _ cached _ ∙ on)
  ]

  answered-Moves :
      (key : Bytes) (x : Result Bool) (s : Loop)
      → (r.attempt key).is_joined ≡ x
      → Mem (joining (key ∷ [])) s.joins
      → To s (answered x s).1
  unfolding answered
  answered-Moves key (ok true) s e m = one s _ (connects (at_peer key e, m) refl)
  answered-Moves key (ok false) s e m = λ on. here
  answered-Moves key (err x) s e m = λ on. here
  answered-Moves key panic s e m = λ on. here

  settled-Moves :
      (d : Duration) (key : Bytes) (w : Wait) (s : Loop)
      → (r.attempt key).settle ≡ w
      → Mem (joining (key ∷ [])) s.joins
      → To s (settled d w (r.attempt key).is_joined s).1
  unfolding settled
  settled-Moves d key elapsed s e m =
      chain (wait-Moves d elapsed s (λ h. cc)) (unfold wait in λ on. on)
        (answered-Moves key _ _ refl (unfold wait in m))
  settled-Moves d key woken s e m =
      chain (wait-Moves d woken s (λ h. cc)) (unfold wait in λ on. on)
        (answered-Moves key _ _ refl (unfold wait in m))
  settled-Moves d key cancelled s e m = wait-Moves d cancelled s (λ h. (cut_at_peer key e, m))

  requested-Moves :
      (key : Bytes) (x : Result (Unit {0})) (s : Loop)
      → Mem (joining (key ∷ [])) s.joins
      → To s (requested C is_endpoint b x (r.attempt key) s).1
  unfolding requested
  requested-Moves key (ok done) s m = settled-Moves _ key _ s refl m
  requested-Moves key (err e) s m = λ on. here
  requested-Moves key panic s m = λ on. here

  visit_one-Moves :
      (key : Bytes) (s : Loop)
      → IsStrange C is_endpoint b key
      → To s (visit_one C is_endpoint b (r.attempt key) key s).1
  unfolding visit_one join_peers chosen_peers
  visit_one-Moves key s h =
      chain (one s _ (asks key h refl)) (λ on. on) (requested-Moves key _ _ (inl refl))

  -- A peer that is not the last one asked leaves the loop running.
  abbrev GoesOn : Loop → Visit × Loop → Type 0
  GoesOn s done = done.0 ≡ next_peer → Keeps s done.1

  answered-GoesOn : (x : Result Bool) (s : Loop) → GoesOn s (answered x s)
  unfolding answered
  answered-GoesOn (ok true) s e = cc
  answered-GoesOn (ok false) s e = λ on. on
  answered-GoesOn (err x) s e = cc
  answered-GoesOn panic s e = cc

  settled-GoesOn :
      (d : Duration) (w : Wait) (x : Result Bool) (s : Loop) → GoesOn s (settled d w x s)
  unfolding settled wait
  settled-GoesOn d elapsed x s e = answered-GoesOn x _ e
  settled-GoesOn d woken x s e = answered-GoesOn x _ e
  settled-GoesOn d cancelled x s e = cc

  requested-GoesOn :
      (x : Result (Unit {0})) (a : Attempt) (s : Loop) → GoesOn s (requested C is_endpoint b x a s)
  unfolding requested
  requested-GoesOn (ok done) a s same = settled-GoesOn _ a.settle a.is_joined s same
  requested-GoesOn (err e) a s same = λ on. on
  requested-GoesOn panic a s same = λ on. on

  visit_one-GoesOn :
      (key : Bytes) (s : Loop) → GoesOn s (visit_one C is_endpoint b (r.attempt key) key s)
  unfolding visit_one
  visit_one-GoesOn key s = requested-GoesOn _ (r.attempt key) _

  proceed-Moves :
      (done : Visit × Loop) (s rest : Loop)
      → GoesOn s done
      → To s done.1
      → To done.1 rest
      → To s (proceed done.0 rest done.1)
  unfolding proceed
  proceed-Moves (next_peer, t) s rest goes m n = chain m (goes refl) n
  proceed-Moves (enough, t) s rest goes m n = m
  proceed-Moves (abort, t) s rest goes m n = m

  pub visit-Moves :
      (keys : List Bytes) (s : Loop)
      → ((key : Bytes) → Mem key keys → IsStrange C is_endpoint b key)
      → To s (visit C is_endpoint b r.attempt keys s)
  unfolding visit
  visit-Moves [] s h = λ on. here
  visit-Moves (key ∷ keys) s h =
      let done = visit_one C is_endpoint b (r.attempt key) key s in
      proceed-Moves done s (visit C is_endpoint b r.attempt keys done.1) (visit_one-GoesOn key s)
        (visit_one-Moves key s (h key (inl refl))) (visit-Moves keys done.1 (λ k m. h k (inr m)))
