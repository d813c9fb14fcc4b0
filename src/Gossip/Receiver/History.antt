-- ===== src/Gossip/Receiver/History.antt =====
-- The hashes that the receiver keeps are those of the last messages.
use distributed_topic_tracke.Prelude.{
  ℕ, zero, suc, ◌-◌, ◌≤◌, ◌≡◌, refl, sym, ap, subst, ◌∙◌, inl, inr, Bool-cases, true, false, List,
  [], ◌∷◌, ◌++◌, append-nil, append_assoc, map, Bytes, length, drop, length-append, length-drop,
  ◌==◌, arith,
}
use distributed_topic_tracke.Crypto.Primitives.{Primitives}
use distributed_topic_tracke.Crypto.Keys.{hash32}
use distributed_topic_tracke.Gossip.Receiver.{
  received, neighbor_up, neighbor_down, lagged, ReceiverActor, Input, handles_dropped, stream_ended,
  stream_failed, cancelled, event, push_hash, pop_front, on_event, round, run, new,
}

room_lem : (n m : ℕ) → m ≡ n - (n - 5) → m ≡ 5 → suc (n - 5) ≤ n
room_lem n m e f = omega arith

-- The last `n` elements.
abbrev pub take_last : ℕ → List Bytes → List Bytes
take_last n hs = drop (length hs - n) hs

drop-append_le : (k : ℕ) (xs ys : List Bytes) → k ≤ length xs → drop k (xs ++ ys) ≡ drop k xs ++ ys
drop-append_le zero xs ys h = refl
drop-append_le (suc k) [] ys h = absurd (omega arith)
drop-append_le (suc k) (x ∷ xs) ys h = drop-append_le k xs ys (omega arith)

pop_front-drop : (k : ℕ) (xs : List Bytes) → pop_front (drop k xs) ≡ drop (suc k) xs
unfolding pop_front
pop_front-drop zero [] = refl
pop_front-drop zero (x ∷ xs) = refl
pop_front-drop (suc k) [] = refl
pop_front-drop (suc k) (x ∷ xs) = pop_front-drop k xs

push_hash-take_last :
    (h : Bytes) (hs : List Bytes) → push_hash h (take_last 5 hs) ≡ take_last 5 (hs ++ h ∷ [])
push_hash-take_last h hs = elim (Bool-cases (length (take_last 5 hs) == 5)) [
  | inl full ↦
      unfold push_hash in
      rw full (
        let long : 5 ≤ length hs = ground (arith, length-drop (length hs - 5) hs) in
        let k : length (hs ++ h ∷ []) - 5 ≡ suc (length hs - 5) =
          omega (arith, length-append hs (h ∷ [])) in
        rw (pop_front-drop (length hs - 5) hs, k)
          (sym (
            drop-append_le (suc (length hs - 5)) hs (h ∷ [])
              (room_lem (length hs) _ (length-drop (length hs - 5) hs) (ground arith)))))
  | inr space ↦
      let k : length (hs ++ h ∷ []) - 5 ≡ length hs - 5 =
        ground (arith, length-append hs (h ∷ []), length-drop (length hs - 5) hs) in
      unfold push_hash in
      rw (space, k) (sym (drop-append_le (length hs - 5) hs (h ∷ []) (omega arith)))
]

-- The messages that arrive before the loop ends, oldest first.
unfoldable pub heard : List Input → List Bytes
heard [] = []
heard (event (received content) ∷ is) = content ∷ heard is
heard (event (neighbor_up key) ∷ is) = heard is
heard (event (neighbor_down key) ∷ is) = heard is
heard (event lagged ∷ is) = heard is
heard (handles_dropped ∷ is) = []
heard (stream_ended ∷ is) = []
heard (stream_failed ∷ is) = []
heard (cancelled ∷ is) = []

module _ ⦃P : Primitives⦄ where
  pub run-stopped : (is : List Input) (s : ReceiverActor) → s.running ≡ false → run is s ≡ s
  unfolding run
  run-stopped [] s h = refl
  run-stopped (i ∷ is) s h = ground arith

  pub run-running :
      (i : Input) (is : List Input) (s : ReceiverActor)
      → s.running ≡ true
      → run (i ∷ is) s ≡ run is (round i s)
  unfolding run
  run-running i is s h = ground arith

  Remembers : List Bytes → ReceiverActor → Type 0
  Remembers past s = s.last_message_hashes ≡ take_last 5 past

  keep :
      (past : List Bytes) (s t : ReceiverActor)
      → t.last_message_hashes ≡ s.last_message_hashes
      → Remembers past s
      → Remembers (past ++ []) t
  unfolding Remembers
  keep past s t e h = rw (append-nil past) (e ∙ h)

  -- A round that ends the loop.
  last_round :
      (i : Input) (is : List Input) (s : ReceiverActor) (past : List Bytes)
      → s.running ≡ true
      → (round i s).running ≡ false
      → (round i s).last_message_hashes ≡ s.last_message_hashes
      → Remembers past s
      → Remembers (past ++ []) (run (i ∷ is) s)
  last_round i is s past on off e h =
      rw (run-running i is s on, run-stopped is (round i s) off) (keep past s (round i s) e h)

  -- From a running actor that remembers a past.
  run-Remembers :
      (is : List Input) (s : ReceiverActor) (past : List Bytes)
      → s.running ≡ true
      → Remembers past s
      → Remembers (past ++ map hash32 (heard is)) (run is s)
  unfolding heard round on_event
  run-Remembers [] s past on h = unfold run in keep past s s refl h
  run-Remembers (event (received content) ∷ is) s past on h =
      let now : Remembers (past ++ hash32 content ∷ []) (round (event (received content)) s) =
        unfold Remembers in
        ap (push_hash (hash32 content)) h ∙ push_hash-take_last (hash32 content) past in
      let rest =
        run-Remembers is (round (event (received content)) s) (past ++ hash32 content ∷ []) on
          now in
      subst (λ r. Remembers (past ++ map hash32 (content ∷ heard is)) r)
        (sym (run-running (event (received content)) is s on))
        (subst (λ hs. Remembers hs (run is (round (event (received content)) s)))
          (append_assoc past (hash32 content ∷ []) (map hash32 (heard is))) rest)
  run-Remembers (event (neighbor_up key) ∷ is) s past on h =
      rw (run-running (event (neighbor_up key)) is s on)
        (run-Remembers is (round (event (neighbor_up key)) s) past on (unfold Remembers in h))
  run-Remembers (event (neighbor_down key) ∷ is) s past on h =
      rw (run-running (event (neighbor_down key)) is s on)
        (run-Remembers is (round (event (neighbor_down key)) s) past on (unfold Remembers in h))
  run-Remembers (event lagged ∷ is) s past on h =
      rw (run-running (event lagged) is s on)
        (run-Remembers is (round (event lagged) s) past on (unfold Remembers in h))
  run-Remembers (handles_dropped ∷ is) s past on h =
      last_round handles_dropped is s past on refl refl h
  run-Remembers (stream_ended ∷ is) s past on h = last_round stream_ended is s past on refl refl h
  run-Remembers (stream_failed ∷ is) s past on h = last_round stream_failed is s past on refl refl h
  run-Remembers (cancelled ∷ is) s past on h = last_round cancelled is s past on refl refl h

  -- Whatever happens, the receiver keeps exactly the truncated hashes of the last five messages that
  -- arrived before its loop ended, oldest first, or of all of them if there were fewer.
  pub run-take_last :
      (is : List Input) → (run is new).last_message_hashes ≡ take_last 5 (map hash32 (heard is))
  unfolding Remembers
  run-take_last is = run-Remembers is new [] (unfold new in refl) (unfold new in refl)
