-- ===== src/Tests/Hearing.antt =====
-- Runs of the receiver, and its theorems at concrete inputs.
use distributed_topic_tracke.Prelude.{◌≡◌, true, false, List, [], ◌∷◌, map}
use distributed_topic_tracke.Crypto.Keys.{hash32}
use distributed_topic_tracke.Gossip.Receiver.{
  received, neighbor_up, Input, event, stream_ended, run, new,
}
use distributed_topic_tracke.Gossip.Receiver.History.{take_last, heard, run-take_last}
use distributed_topic_tracke.Gossip.Receiver.Shutdown.{
  told, joins, goes_on, breaks_off, send_all, run-send_all,
}
use distributed_topic_tracke.Tests.Toy.{toy, key_of}

-- A neighbour, six messages, the end of the stream, and a message that comes too late.
abbrev session : List Input
session =
    event (neighbor_up (key_of 2))
    ∷ event (received (1 ∷ []))
    ∷ event (received (2 ∷ []))
    ∷ event (received (3 ∷ []))
    ∷ event (received (4 ∷ []))
    ∷ event (received (5 ∷ []))
    ∷ event (received (6 ∷ []))
    ∷ stream_ended
    ∷ event (received (7 ∷ []))
    ∷ []

run-take_last_example :
    (run session new).last_message_hashes ≡ take_last 5 (map hash32 (heard session))
run-take_last_example = run-take_last session

run-send_all_example :
    ((run session new).next_channel ≡ send_all (told session) [])
    × ((run session new).join_channel ≡ send_all (joins session) [])
    × ((run session new).running ≡ false)
    × ((run session new).token_cancelled ≡ true)
unfolding goes_on breaks_off
run-send_all_example = run-send_all session
