-- ===== src/Tests/Delivery.antt =====
-- Runs of `RecordPublisher::get_records`, and its theorems at concrete inputs.
use distributed_topic_tracke.Prelude.{
  ℕ, ◌≡◌, ◌↔◌, ◌≢◌, refl, inl, inr, some, none, [], ◌∷◌, Mem, arith, ok, pos, i64_max, to_le_bytes,
  from_le_bytes, split_at, try_into,
}
use distributed_topic_tracke.Dht.{MutableItem}
use distributed_topic_tracke.Crypto.Record.{
  Record, verify, content, from_bytes as record_from_bytes, but_last, split_at_end,
  to_bytes as record_to_bytes,
}
use distributed_topic_tracke.Crypto.Encrypted.{decrypt, from_bytes as encrypted_from_bytes}
use distributed_topic_tracke.Crypto.Keys.{
  encryption_keypair, rotation_or_default, default_rotation, default_derive, hash32,
}
use distributed_topic_tracke.Crypto.Dedup.{accepted, opened, collect, values, enter, to_option}
use distributed_topic_tracke.Crypto.Dedup.Selection.{
  selected, entries, selected_sound, selected_complete,
}
use distributed_topic_tracke.Crypto.Dedup.Values.{HaveDistinctKeys}
use distributed_topic_tracke.Crypto.Dedup.First.{first_accepted, selected_first}
use distributed_topic_tracke.Crypto.Dedup.Table.{IsHighest}
use distributed_topic_tracke.Crypto.Publisher.{minute_key, new_record}
use distributed_topic_tracke.Crypto.Publisher.Delivery.{IsPublisher, SameTopic, accepted-published}
use distributed_topic_tracke.Tests.Toy.{toy, toy-Laws, raw, raw-PostcardLaws, key_of}
use distributed_topic_tracke.Tests.Crypto.{note, sign_note}
use distributed_topic_tracke.Tests.Publishing.{
  entropy, sealed_bytes, sealed_note, encrypt-note, write_sealed,
}
use distributed_topic_tracke.Tests.Network.{node}

abbrev pub note_item : MutableItem
note_item = record { signing_key = key_of 9; value = sealed_bytes; seq = i64_max; salt = none }

abbrev junk : MutableItem
junk = record { signing_key = key_of 9; value = 1 ∷ []; seq = pos 5; salt = none }

-- The key of a minute, with the stand-in for the hash.
node-minute_key : (n : ℕ) → minute_key (node n) 300 ≡ key_of 9
unfolding minute_key encryption_keypair rotation_or_default default_rotation default_derive hash32
node-minute_key n = refl

pub other_node : key_of 2 ≢ key_of 1
other_node e = cc

pub node-IsPublisher : IsPublisher (node 1)
node-IsPublisher = record { own_key = refl; key_size = refl; topic_size = refl }

pub nodes-SameTopic : SameTopic (node 1) (node 2)
nodes-SameTopic = record { topic = refl; rotation = refl; secret = refl }

accepted-published_example :
    (accepted (minute_key (node 2) 300) (key_of 9) 300 (key_of 2) note_item ≡ some note)
    × (content raw note ≡ ok (7 ∷ 8 ∷ []))
unfolding minute_key encryption_keypair rotation_or_default default_rotation default_derive hash32
    new_record
accepted-published_example =
    accepted-published raw (node 1) (node 2) 300 (7 ∷ 8 ∷ []) note entropy sealed_note note_item
      toy-Laws raw-PostcardLaws node-IsPublisher nodes-SameTopic (omega arith) refl refl other_node
      sign_note encrypt-note write_sealed

accepted-note : accepted (key_of 9) (key_of 9) 300 (key_of 2) note_item ≡ some note
unfolding accepted to_option opened encrypted_from_bytes split_at try_into from_le_bytes decrypt
    record_from_bytes split_at_end verify but_last record_to_bytes to_le_bytes
accepted-note = refl

selected-note : selected (key_of 9) (key_of 9) 300 (key_of 2) (junk ∷ note_item ∷ []) ≡ note ∷ []
unfolding selected collect values enter accepted to_option opened encrypted_from_bytes split_at
    try_into from_le_bytes decrypt record_from_bytes split_at_end verify but_last record_to_bytes
    to_le_bytes
selected-note = refl

selected_complete_example :
    ((q : Record) × Mem q (selected (key_of 9) (key_of 9) 300 (key_of 2) (junk ∷ note_item ∷ []))
      × (q.pub_key ≡ key_of 1))
    × HaveDistinctKeys (selected (key_of 9) (key_of 9) 300 (key_of 2) (junk ∷ note_item ∷ []))
selected_complete_example =
    selected_complete (key_of 9) (key_of 9) 300 (key_of 2) (junk ∷ note_item ∷ []) note_item note
      (inr (inl refl)) accepted-note

selected_sound_example :
    (item : MutableItem) × Mem item (junk ∷ note_item ∷ [])
    × (opened (key_of 9) (key_of 9) 300 item ≡ ok note)
    × (verify note (key_of 9) 300 ≡ ok tt)
    × (key_of 1 ≢ key_of 2)
    × IsHighest
        (key_of 1)
        (item.seq, note)
        (entries (key_of 9) (key_of 9) 300 (key_of 2) (junk ∷ note_item ∷ []))
selected_sound_example =
    selected_sound (key_of 9) (key_of 9) 300 (key_of 2) (junk ∷ note_item ∷ []) note
      (rw selected-note (inl refl))

selected_first_example :
    Mem note (selected (key_of 9) (key_of 9) 300 (key_of 2) (note_item ∷ note_item ∷ [])) ↔ (
      first_accepted (key_of 9) (key_of 9) 300 (key_of 2) (key_of 1) (note_item ∷ note_item ∷ [])
      ≡ some note)
selected_first_example =
    selected_first (key_of 9) (key_of 9) 300 (key_of 2) i64_max (note_item ∷ note_item ∷ []) note
      (refl, (refl, tt))
