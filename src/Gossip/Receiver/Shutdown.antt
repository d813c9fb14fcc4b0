-- ===== src/Gossip/Receiver/Shutdown.antt =====
-- What the subscribers of the receiver are told, and how it ends.
use distributed_topic_tracke.Prelude.{
  ◌≡◌, refl, Bool, true, false, Option, some, none, List, [], ◌∷◌,
}
use distributed_topic_tracke.Crypto.Primitives.{Primitives}
use distributed_topic_tracke.Gossip.Receiver.{
  Event, received, neighbor_up, neighbor_down, lagged, ReceiverActor, Input, handles_dropped,
  stream_ended, stream_failed, cancelled, event, on_event, round, run, new,
}
use distributed_topic_tracke.Gossip.Receiver.History.{run-running, run-stopped}

-- What goes to the subscribers of `next`, oldest first: every event up to the end, and that it ended.
unfoldable pub told : List Input → List (Option Event)
told [] = []
told (event e ∷ is) = some e ∷ told is
told (handles_dropped ∷ is) = []
told (stream_ended ∷ is) = none ∷ []
told (stream_failed ∷ is) = none ∷ []
told (cancelled ∷ is) = none ∷ []

-- What goes to those who wait in `joined`.
unfoldable pub joins : List Input → List (Option (Unit {0}))
joins [] = []
joins (event (received content) ∷ is) = some tt ∷ joins is
joins (event (neighbor_up key) ∷ is) = some tt ∷ joins is
joins (event (neighbor_down key) ∷ is) = joins is
joins (event lagged ∷ is) = joins is
joins (handles_dropped ∷ is) = []
joins (stream_ended ∷ is) = none ∷ []
joins (stream_failed ∷ is) = none ∷ []
joins (cancelled ∷ is) = none ∷ []

-- Whether the loop goes on, and whether the receiver has cancelled the token.
unfoldable pub goes_on : List Input → Bool
goes_on [] = true
goes_on (event e ∷ is) = goes_on is
goes_on (handles_dropped ∷ is) = false
goes_on (stream_ended ∷ is) = false
goes_on (stream_failed ∷ is) = false
goes_on (cancelled ∷ is) = false

unfoldable pub breaks_off : List Input → Bool
breaks_off [] = false
breaks_off (event e ∷ is) = breaks_off is
breaks_off (handles_dropped ∷ is) = false
breaks_off (stream_ended ∷ is) = true
breaks_off (stream_failed ∷ is) = true
breaks_off (cancelled ∷ is) = false

-- Messages that are sent one after the other, on top of a log with the latest first.
unfoldable pub send_all {ℓ} : {A : Type ℓ} → List A → List A → List A
send_all [] log = log
send_all (a ∷ more) log = send_all more (a ∷ log)

module _ ⦃P : Primitives⦄ where
  abbrev Ends : List Input → ReceiverActor → ReceiverActor → Type 0
  Ends is s t =
      (t.next_channel ≡ send_all (told is) s.next_channel)
      × (t.join_channel ≡ send_all (joins is) s.join_channel)
      × (t.running ≡ goes_on is)
      × (t.token_cancelled ≡ breaks_off is)

  run-Ends :
      (is : List Input) (s : ReceiverActor)
      → s.running ≡ true
      → s.token_cancelled ≡ false
      → Ends is s (run is s)
  unfolding told joins goes_on breaks_off send_all round on_event
  run-Ends [] s on c = unfold run in (refl, refl, on, c)
  run-Ends (event (received content) ∷ is) s on c =
      rw (run-running (event (received content)) is s on)
        (run-Ends is (round (event (received content)) s) on c)
  run-Ends (event (neighbor_up key) ∷ is) s on c =
      rw (run-running (event (neighbor_up key)) is s on)
        (run-Ends is (round (event (neighbor_up key)) s) on c)
  run-Ends (event (neighbor_down key) ∷ is) s on c =
      rw (run-running (event (neighbor_down key)) is s on)
        (run-Ends is (round (event (neighbor_down key)) s) on c)
  run-Ends (event lagged ∷ is) s on c =
      rw (run-running (event lagged) is s on) (run-Ends is (round (event lagged) s) on c)
  run-Ends (handles_dropped ∷ is) s on c =
      rw (run-running handles_dropped is s on, run-stopped is (round handles_dropped s) refl)
        (refl, refl, refl, c)
  run-Ends (stream_ended ∷ is) s on c =
      rw (run-running stream_ended is s on, run-stopped is (round stream_ended s) refl)
        (refl, refl, refl, refl)
  run-Ends (stream_failed ∷ is) s on c =
      rw (run-running stream_failed is s on, run-stopped is (round stream_failed s) refl)
        (refl, refl, refl, refl)
  run-Ends (cancelled ∷ is) s on c =
      rw (run-running cancelled is s on, run-stopped is (round cancelled s) refl)
        (refl, refl, refl, c)

  -- However the inputs come, the receiver sends its subscribers every event that arrives before its
  -- loop ends, in order, and then one closing message unless the loop ends because all handles were
  -- dropped; it wakes those who wait to be joined once for each message and each new neighbour;
  -- and it cancels the token exactly when the gossip stream ends or fails.
  pub run-send_all :
      (is : List Input)
      → ((run is new).next_channel ≡ send_all (told is) [])
        × ((run is new).join_channel ≡ send_all (joins is) [])
        × ((run is new).running ≡ goes_on is)
        × ((run is new).token_cancelled ≡ breaks_off is)
  run-send_all is = unfold new in run-Ends is new refl refl
