-- ===== src/Tests/Living.antt =====
-- Whole lives of the periodic workers, and the theorems about them at concrete inputs.
use distributed_topic_tracke.Prelude.{ℕ, ok, List, [], ◌∷◌, length, All, ◌≤◌, ◌*◌, ◌+◌, refl}
use distributed_topic_tracke.Config.Dht.{default as dht_default}
use distributed_topic_tracke.Crypto.Publisher.{never}
use distributed_topic_tracke.Dht.{new as new_actor}
use distributed_topic_tracke.Gossip.Sender.{done}
use distributed_topic_tracke.Gossip.Ticker.{clock, cancelled}
use distributed_topic_tracke.Gossip.Working.{Turn}
use distributed_topic_tracke.Gossip.Merge.Life.{Meets, IsLog, IsShuffle, life}
use distributed_topic_tracke.Gossip.Bubble.Life.{bubble_work, IsSoundBubble, bubble_life_sound}
use distributed_topic_tracke.Gossip.Overlap.Life.{overlap_work, IsSoundOverlap, overlap_life_sound}
use distributed_topic_tracke.Gossip.Content.Life.{
  Issue, HasRetries, publisher_life, IsSlotItem, publisher_life_puts,
}
use distributed_topic_tracke.Gossip.Working.Ticks.{jobs}
use distributed_topic_tracke.Gossip.Ticker.Spacing.{IsSpaced}
use distributed_topic_tracke.Tests.Toy.{toy, key_of}
use distributed_topic_tracke.Tests.Network.{node, fresh, world, uncut}
use distributed_topic_tracke.Tests.Publishing.{entropy}
use distributed_topic_tracke.Tests.Merging.{brief, any_key, note_world}

-- A merge at minute 300 by a node without neighbours, in a world that has the note.
abbrev pub meeting : Meets
meeting = record {
  world = note_world;
  actor = fresh;
  unix_minute = 300;
  cut_previous = never;
  cut_current = never;
  hashes = ok (key_of 6 ∷ []);
  neighbors = ok [];
  shuffle = λ keys. keys;
  outcome = done;
}

-- A tick, a wake that comes too early, a second tick and the end.
abbrev turns : List (Turn Meets)
turns =
    (clock 5 2 0, meeting)
    ∷ (clock 9 1 0, meeting)
    ∷ (clock 3_000_000_000 1 7, meeting)
    ∷ (cancelled, meeting)
    ∷ []

turns-IsShuffle : All (λ t. IsShuffle t.1) turns
turns-IsShuffle = ((λ keys k m. m), ((λ keys k m. m), ((λ keys k m. m), ((λ keys k m. m), tt))))

bubble_life_sound_example :
    let w = life (bubble_work (node 2) brief any_key 2 4) 0 1 0 0 turns in
    ((next : ℕ) × IsSpaced next w.ticker.ticks)
    × IsLog (IsSoundBubble (node 2) brief any_key 2 4 (jobs turns)) (length w.ticker.ticks) w.state
bubble_life_sound_example =
    bubble_life_sound (node 2) brief any_key 2 4 0 1 0 0 turns turns-IsShuffle

overlap_life_sound_example :
    let w = life (overlap_work (node 2) brief any_key 2) 0 1 0 0 turns in
    ((next : ℕ) × IsSpaced next w.ticker.ticks)
    × IsLog (IsSoundOverlap (node 2) brief any_key 2 (jobs turns)) (length w.ticker.ticks) w.state
overlap_life_sound_example =
    overlap_life_sound (node 2) brief any_key 2 0 1 0 0 turns turns-IsShuffle

-- A publication at minute 300 whose first two puts are not stored.
abbrev issue : Issue
issue = record {
  world = world;
  actor = fresh;
  unix_minute = 300;
  neighbors = ok (key_of 3 ∷ []);
  hashes = ok (key_of 6 ∷ []);
  cuts = uncut;
  entropy = entropy;
}

abbrev issues : List (Turn Issue)
issues = (clock 5 2 0, issue) ∷ (clock 3_000_000_000 1 7, issue) ∷ (cancelled, issue) ∷ []

issues-HasRetries : All (λ t. HasRetries 3 t.1) issues
unfolding new_actor dht_default
issues-HasRetries = (refl, (refl, (refl, tt)))

publisher_life_puts_example :
    let w = publisher_life (node 1) brief 0 1 0 0 issues in
    ((next : ℕ) × IsSpaced next w.ticker.ticks)
    × (length w.state ≤ length w.ticker.ticks * (1 + 3))
    × All (IsSlotItem (node 1) brief (jobs issues)) w.state
publisher_life_puts_example = publisher_life_puts (node 1) brief 3 0 1 0 0 issues issues-HasRetries
