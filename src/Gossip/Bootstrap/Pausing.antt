-- ===== src/Gossip/Bootstrap/Pausing.antt =====
-- How much sleep the rounds of the bootstrap ask for.
use distributed_topic_tracke.Prelude.{
  ℕ, ◌+◌, ◌*◌, ◌≤◌, ◌≡◌, refl, ap, Bool, true, false, Option, List, [], ◌∷◌, Bytes, length, Result,
  ok, err, panic, if◌then◌else◌, arith, sym, ◌∙◌, true≢false, subst,
}
use distributed_topic_tracke.Config.Duration.{Duration}
use distributed_topic_tracke.Crypto.Primitives.{Primitives, Postcard}
use distributed_topic_tracke.Crypto.Record.{Record, sign}
use distributed_topic_tracke.Gossip.Content.{GossipRecordContent}
use distributed_topic_tracke.Gossip.Rounds.{
  BootstrapActor, Loop, Wait, elapsed, woken, cancelled, Attempt, Round, leave, leave_joined, check,
  wait, Visit, next_peer, enough, abort, answered, settled, proceed, publish_signed,
}
use distributed_topic_tracke.Gossip.Bootstrap.Ending.{by_cases, run-running, run-off}
use distributed_topic_tracke.Gossip.Bootstrap.{
  announce, announce_once, empty_content, bootstrap_nodes, requested, visit_one, visit, conclude,
  confirm_join, join_found, announce_alone, on_records, look, round, run,
}

-- The sum of the sleeps that a loop asked for.
abbrev pub total : List Duration → Duration
total [] = 0
total (d ∷ ds) = d + total ds

-- A loop that still runs has asked for so much sleep.
abbrev HasSlept : ℕ → Loop → Type 0
HasSlept n s = s.running ≡ true → n ≤ total s.sleeps

check-HasSlept :
    (n : ℕ) (x : Result Bool) (s rest : Loop) → HasSlept n rest → HasSlept n (check x s rest)
unfolding check leave leave_joined
check-HasSlept n (ok true) s rest h e = cc
check-HasSlept n (ok false) s rest h e = h e
check-HasSlept n (err x) s rest h e = cc
check-HasSlept n panic s rest h e = cc

wait-HasSlept : (n d : ℕ) (w : Wait) (s : Loop) → n ≤ total s.sleeps → HasSlept (d + n) (wait d w s)
unfolding wait leave
wait-HasSlept n d elapsed s h e = omega (arith, h)
wait-HasSlept n d woken s h e = omega (arith, h)
wait-HasSlept n d cancelled s h e = cc

-- Waiting never takes sleep back.
wait-total : (d : Duration) (w : Wait) (s : Loop) → total s.sleeps ≤ total (wait d w s).sleeps
unfolding wait leave
wait-total d elapsed s = omega arith
wait-total d woken s = omega arith
wait-total d cancelled s = omega arith

answered-sleeps : (x : Result Bool) (s : Loop) → (answered x s).1.sleeps ≡ s.sleeps
unfolding answered
answered-sleeps (ok true) s = refl
answered-sleeps (ok false) s = refl
answered-sleeps (err e) s = refl
answered-sleeps panic s = refl

settled-total :
    (d : Duration) (w : Wait) (x : Result Bool) (s : Loop)
    → total s.sleeps ≤ total (settled d w x s).1.sleeps
unfolding settled
settled-total d elapsed x s = rw (answered-sleeps x (wait d elapsed s)) (wait-total d elapsed s)
settled-total d woken x s = rw (answered-sleeps x (wait d woken s)) (wait-total d woken s)
settled-total d cancelled x s = wait-total d cancelled s

publish_signed-sleeps :
    (x : Result Record) (cached : Option (List Record)) (s : Loop)
    → (publish_signed x cached s).sleeps ≡ s.sleeps
unfolding publish_signed
publish_signed-sleeps (ok r) cached s = refl
publish_signed-sleeps (err e) cached s = refl
publish_signed-sleeps panic cached s = refl

if_running : (n : ℕ) (s t : Loop) → HasSlept n t → HasSlept n (if s.running then t else s)
if_running n s t h = by_running s.running refl
  where
    by_running : (x : Bool) → s.running ≡ x → HasSlept n (if x then t else s)
    by_running true e = h
    by_running false e = λ on. cc

module _ ⦃P : Primitives⦄ (C : Postcard GossipRecordContent) (is_endpoint : Bytes → Bool)
    (b : BootstrapActor) where
  announce_once-sleeps :
      (now : ℕ) (cached : Option (List Record)) (s : Loop)
      → (announce_once C is_endpoint b now cached s).sleeps ≡ s.sleeps
  unfolding announce_once announce
  announce_once-sleeps now cached s = ground (
    arith,
    publish_signed-sleeps
        (sign C b.record_publisher.topic_id.hash now empty_content b.record_publisher.signing_key)
        cached (record s { last_published_unix_minute = now }),
  )

  requested-total :
      (x : Result (Unit {0})) (a : Attempt) (s : Loop)
      → total s.sleeps ≤ total (requested C is_endpoint b x a s).1.sleeps
  unfolding requested
  requested-total (ok sent) a s = settled-total _ a.settle a.is_joined s
  requested-total (err e) a s = omega arith
  requested-total panic a s = omega arith

  visit_one-total :
      (a : Attempt) (key : Bytes) (s : Loop)
      → total s.sleeps ≤ total (visit_one C is_endpoint b a key s).1.sleeps
  unfolding visit_one
  visit_one-total a key s = requested-total _ a _

  proceed-total :
      (n : ℕ) (v : Visit) (rest s : Loop)
      → n ≤ total rest.sleeps
      → n ≤ total s.sleeps
      → n ≤ total (proceed v rest s).sleeps
  unfolding proceed
  proceed-total n next_peer rest s h k = h
  proceed-total n enough rest s h k = k
  proceed-total n abort rest s h k = k

  visit-total :
      (attempt : Bytes → Attempt) (keys : List Bytes) (s : Loop)
      → total s.sleeps ≤ total (visit C is_endpoint b attempt keys s).sleeps
  unfolding visit
  visit-total attempt [] s = omega arith
  visit-total attempt (key ∷ keys) s =
      let one = visit_one-total (attempt key) key s in
      let rest = visit-total attempt keys (visit_one C is_endpoint b (attempt key) key s).1 in
      proceed-total (total s.sleeps) (visit_one C is_endpoint b (attempt key) key s).0
        (visit C is_endpoint b attempt keys (visit_one C is_endpoint b (attempt key) key s).1)
        (visit_one C is_endpoint b (attempt key) key s).1 (omega (arith, one, rest)) one

  -- A lower bound of both pauses of the loop.
  abbrev pub IsPause : Duration → Type 0
  IsPause d = (d ≤ b.config.no_peers_retry_interval) × (d ≤ b.config.discovery_poll_interval)

  HasSlept-le : (m n : ℕ) (s : Loop) → m ≤ n → HasSlept n s → HasSlept m s
  HasSlept-le m n s l h on = omega (arith, l, h on)

  conclude-HasSlept :
      (d n : ℕ) (r : Round) (cached : Option (List Record)) (s : Loop)
      → IsPause d
      → n ≤ total s.sleeps
      → HasSlept (d + n) (conclude C is_endpoint b r cached s)
  unfolding conclude
  conclude-HasSlept d n r cached s p h = check-HasSlept (d + n) r.is_joined_last s _ (
      HasSlept-le (d + n) (b.config.discovery_poll_interval + n)
        (wait b.config.discovery_poll_interval r.pause
          (announce_once C is_endpoint b r.now cached s))
        (omega (arith, p.1))
        (wait-HasSlept n b.config.discovery_poll_interval r.pause
          (announce_once C is_endpoint b r.now cached s)
          (rw (announce_once-sleeps r.now cached s) h)))

  confirm_join-HasSlept :
      (d n : ℕ) (x : Result Bool) (r : Round) (cached : Option (List Record)) (s : Loop)
      → IsPause d
      → n ≤ total s.sleeps
      → HasSlept (d + n) (confirm_join C is_endpoint b x r cached s)
  unfolding confirm_join leave
  confirm_join-HasSlept d n (ok true) r cached s p h = conclude-HasSlept d n r cached s p h
  confirm_join-HasSlept d n (ok false) r cached s p h =
      let s' = wait b.config.join_confirmation_wait_time r.confirm s in
      let more = wait-total b.config.join_confirmation_wait_time r.confirm s in
      if_running (d + n) s' (conclude C is_endpoint b r cached s')
        (conclude-HasSlept d n r cached s' p (omega (arith, h, more)))
  confirm_join-HasSlept d n (err e) r cached s p h = λ on. cc
  confirm_join-HasSlept d n panic r cached s p h = λ on. cc

  on_records-HasSlept :
      (d n : ℕ) (r : Round) (records : List Record) (cached : Option (List Record)) (s : Loop)
      → IsPause d
      → n ≤ total s.sleeps
      → HasSlept (d + n) (on_records C is_endpoint b r records cached s)
  unfolding on_records announce_alone join_found
  on_records-HasSlept d n r [] cached s p h =
      HasSlept-le (d + n) (b.config.no_peers_retry_interval + n)
        (wait b.config.no_peers_retry_interval r.pause
          (announce_once C is_endpoint b r.now cached s))
        (omega (arith, p.0))
        (wait-HasSlept n b.config.no_peers_retry_interval r.pause
          (announce_once C is_endpoint b r.now cached s)
          (rw (announce_once-sleeps r.now cached s) h))
  on_records-HasSlept d n r (x ∷ xs) cached s p h =
      let keys = r.order (bootstrap_nodes C is_endpoint b (x ∷ xs)) in
      let s' = visit C is_endpoint b r.attempt keys s in
      let more = visit-total r.attempt keys s in
      check-HasSlept (d + n) r.is_joined_before s _ (
        if_running (d + n) s' (confirm_join C is_endpoint b r.is_joined_after r cached s')
          (confirm_join-HasSlept d n r.is_joined_after r cached s' p (omega (arith, h, more))))

  round-HasSlept :
      (d n : ℕ) (r : Round) (s : Loop)
      → IsPause d
      → n ≤ total s.sleeps
      → HasSlept (d + n) (round C is_endpoint b r s)
  unfolding round look leave
  round-HasSlept d n r s p h = by_cut r.is_cancelled
    where
      by_cut :
          (x : Bool)
          → HasSlept
              (d + n)
              (if x then leave s else check r.is_joined_first s (look C is_endpoint b r s))
      by_cut true = λ on. cc
      by_cut false =
          check-HasSlept (d + n) r.is_joined_first s _ (on_records-HasSlept d n r _ _ s p h)

  -- A bootstrap that still runs after some rounds has asked for sleeps of at least one pause for each
  -- of them, where a pause is any duration up to both configured waits between rounds.
  pub run_pauses :
      (d : Duration) (rs : List Round) (s : Loop)
      → d ≤ b.config.no_peers_retry_interval
      → d ≤ b.config.discovery_poll_interval
      → (run C is_endpoint b rs s).running ≡ true
      → d * length rs + total s.sleeps ≤ total (run C is_endpoint b rs s).sleeps
  run_pauses d [] s p q on = unfold run in omega arith
  run_pauses d (r ∷ rs) s p q on =
      let t = round C is_endpoint b r s in
      by_cases s.running
        (λ running.
          let e = run-running C is_endpoint b r rs s running in
          let still = ap (λ (u : Loop). u.running) (sym e) ∙ on in
          by_cases t.running
            (λ going.
              let slept = round-HasSlept d (total s.sleeps) r s (p, q) (omega arith) going in
              let rest = run_pauses d rs t p q still in
              subst (λ (u : Loop). d * length (r ∷ rs) + total s.sleeps ≤ total u.sleeps) (sym e)
                (omega (arith, slept, rest)))
            (λ off. absurd (true≢false (sym still ∙ run-off C is_endpoint b rs t off))))
        (λ off. absurd (true≢false (sym on ∙ run-off C is_endpoint b (r ∷ rs) s off)))
