-- ===== src/Tests/Merging.antt =====
-- Runs of the mergers and of the content of records, and their theorems at concrete inputs.
use distributed_topic_tracke.Prelude.{
  ℕ, ◌/◌, ◌≡◌, ◌≢◌, refl, ap, ◌∙◌, inl, Bool, true, some, none, List, [], ◌∷◌, ◌++◌, map, Bytes,
  Mem, length, take, drop, ok, flat_map, select_by, contains, unique, split_at, try_into,
  from_le_bytes, to_le_bytes,
}
use distributed_topic_tracke.Gossip.Content.Slots.{record_content_lem}
use distributed_topic_tracke.Crypto.Primitives.{Postcard}
use distributed_topic_tracke.Crypto.Record.{
  content, content_to, from_bytes as record_from_bytes, but_last, split_at_end,
  to_bytes as record_to_bytes, verify,
}
use distributed_topic_tracke.Crypto.Publisher.{never, minute_key, get_records}
use distributed_topic_tracke.Crypto.Publisher.Capacity.{continue-ok}
use distributed_topic_tracke.Crypto.Publisher.Fetch.{
  found_items, chosen, get_records_sound, get_records_complete,
}
use distributed_topic_tracke.Crypto.Encrypted.{decrypt, from_bytes as encrypted_from_bytes}
use distributed_topic_tracke.Crypto.Keys.{
  encryption_keypair, rotation_or_default, default_rotation, default_derive, hash32,
}
use distributed_topic_tracke.Crypto.Dedup.{accepted, opened, collect, values, enter, to_option}
use distributed_topic_tracke.Crypto.Dedup.Selection.{selected}
use distributed_topic_tracke.Dht.{MutableItem, Oracle, DhtActor, stored}
use distributed_topic_tracke.Gossip.Content.{GossipRecordContent, is_set, record_content}
use distributed_topic_tracke.Gossip.Merge.{two_minutes, finish, unless_empty}
use distributed_topic_tracke.Gossip.Merge.Joining.{two_minutes-ok}
use distributed_topic_tracke.Gossip.Sender.{joining, done, chosen_peers, join_peers, to_result}
use distributed_topic_tracke.Gossip.Bubble.{
  merge as bubble_merge, keys_to_join as bubble_keys, pub_keys as bubble_pub_keys,
  peers_of_content as bubble_content, author, is_candidate,
}
use distributed_topic_tracke.Gossip.Bubble.Peers.{IsStranger}
use distributed_topic_tracke.Gossip.Overlap.{
  merge as overlap_merge, keys_to_join as overlap_keys, pub_keys as overlap_pub_keys,
  peers_of_content as overlap_content, strangers_in, peers_to_join, is_apart, remote_hashes, every,
  named, is_other,
}
use distributed_topic_tracke.Gossip.Overlap.Healing.{overlap_merge_heals}
use distributed_topic_tracke.Tests.Toy.{toy, key_of}
use distributed_topic_tracke.Tests.Crypto.{note}
use distributed_topic_tracke.Tests.Network.{node, fresh}
use distributed_topic_tracke.Tests.Delivery.{note_item}

-- A content is written as the first bytes of its keys: the first half stands for the active peers.
abbrev pub brief : Postcard GossipRecordContent
brief = record {
  to_allocvec = λ c. some (flat_map (take 1) (c.active_peers ++ c.last_message_hashes));
  from_bytes = λ bs. some (record {
    active_peers = map key_of (take (length bs / 2) bs);
    last_message_hashes = map key_of (drop (length bs / 2) bs);
  });
}

-- The DHT has the sealed note, whatever is asked for.
abbrev pub note_world : Oracle
note_world = record {
  builds = λ n. true;
  put_outcome = λ n. stored;
  random = λ n. n;
  found = λ key salt seq. some (note_item ∷ []);
}

abbrev pub any_key : Bytes → Bool
any_key key = true

-- The note is of minute 300.
select_none : selected (key_of 9) (key_of 9) 299 (key_of 2) (note_item ∷ []) ≡ []
unfolding selected collect values enter accepted to_option opened encrypted_from_bytes split_at
    try_into from_le_bytes decrypt record_from_bytes split_at_end verify but_last record_to_bytes
    to_le_bytes
select_none = refl

select_one : selected (key_of 9) (key_of 9) 300 (key_of 2) (note_item ∷ []) ≡ note ∷ []
unfolding selected collect values enter accepted to_option opened encrypted_from_bytes split_at
    try_into from_le_bytes decrypt record_from_bytes split_at_end verify but_last record_to_bytes
    to_le_bytes
select_one = refl

pub chosen_before : chosen note_world (node 2) 299 (note_item ∷ []) ≡ []
unfolding chosen minute_key encryption_keypair rotation_or_default default_rotation default_derive
    hash32
chosen_before = select_none

pub chosen_now : chosen note_world (node 2) 300 (note_item ∷ []) ≡ note ∷ []
unfolding chosen minute_key encryption_keypair rotation_or_default default_rotation default_derive
    hash32
chosen_now = select_one

pub always :
    (unix_minute : ℕ) (s : DhtActor)
    → (get_records note_world (node 2) unix_minute never s).0
      ≡ ok (chosen note_world (node 2) unix_minute (note_item ∷ []))
unfolding found_items
always unix_minute s =
    get_records_complete note_world (node 2) unix_minute s (note_item ∷ []) refl (λ n. refl)

fetch_note : (two_minutes note_world (node 2) 300 never never fresh).0 ≡ ok (note ∷ [])
fetch_note =
    two_minutes-ok note_world (node 2) 300 never never fresh [] (note ∷ [])
      (always 299 fresh ∙ ap ok chosen_before) (always 300 _ ∙ ap ok chosen_now)

get_records_sound_example :
    (items : List MutableItem) × (item : MutableItem) × (found_items note_world (node 2) 300
      ≡ some items)
    × Mem item items
    × (opened (minute_key (node 2) 300) (key_of 9) 300 item ≡ ok note)
    × (verify note (key_of 9) 300 ≡ ok tt)
    × (key_of 1 ≢ key_of 2)
get_records_sound_example =
    get_records_sound note_world (node 2) 300 never fresh (note ∷ []) note
      (always 300 fresh ∙ ap ok chosen_now) (inl refl)

pub note-IsStranger : IsStranger any_key (key_of 2) [] (key_of 1)
unfolding contains
note-IsStranger = record { valid = refl; other = λ e. cc; unknown = refl }

bubble_of_note :
    (bubble_merge note_world
      (node 2)
      brief
      any_key
      2
      4
      300
      never
      never
      (ok [])
      (λ keys. keys)
      done
      fresh).0.0
    ≡ joining (key_of 7 ∷ key_of 1 ∷ []) ∷ []
unfolding bubble_merge bubble_keys finish bubble_pub_keys bubble_content author is_candidate content
    content_to select_by flat_map unique contains unless_empty join_peers chosen_peers to_result
bubble_of_note =
    rw (continue-ok (two_minutes note_world (node 2) 300 never never fresh) _ fetch_note) refl

overlap_of_note :
    (overlap_merge note_world
      (node 2)
      brief
      any_key
      2
      300
      never
      never
      (ok (key_of 6 ∷ []))
      (ok [])
      (λ keys. keys)
      done
      fresh).0.0
    ≡ joining (key_of 1 ∷ key_of 7 ∷ []) ∷ []
unfolding overlap_merge overlap_keys strangers_in finish overlap_pub_keys peers_to_join is_apart
    remote_hashes every named is_other overlap_content content content_to select_by flat_map unique
    contains unless_empty join_peers chosen_peers to_result
overlap_of_note =
    rw (continue-ok (two_minutes note_world (node 2) 300 never never fresh) _ fetch_note) refl

-- A codec that reads every text as what a node with one neighbour and one message publishes.
abbrev one_of_each : Postcard GossipRecordContent
one_of_each = record {
  to_allocvec = λ c. none;
  from_bytes = λ bs. some (record_content (key_of 7 ∷ []) (key_of 8 ∷ []));
}

read_note : content one_of_each note ≡ ok (record_content (key_of 7 ∷ []) (key_of 8 ∷ []))
unfolding content content_to
read_note = refl

overlap_merge_heals_example :
    (keys : List Bytes) × Mem (key_of 1) keys
    × ((overlap_merge note_world
          (node 2)
          one_of_each
          any_key
          2
          300
          never
          never
          (ok (key_of 6 ∷ []))
          (ok [])
          (λ keys. keys)
          done
          fresh).0.0
        ≡ joining (chosen_peers (λ keys. keys) keys (some 2)) ∷ [])
unfolding contains
overlap_merge_heals_example =
    overlap_merge_heals note_world (node 2) one_of_each any_key 300 never never (ok (key_of 6 ∷ []))
      (ok []) 2 (λ keys. keys) done fresh (note ∷ []) (key_of 6 ∷ []) [] note (key_of 7 ∷ [])
      (key_of 8 ∷ []) fetch_note refl refl refl (inl refl) read_note ((λ e. cc), tt) ((λ e. cc), tt)
      refl (refl, tt) note-IsStranger

record_content_lem_example :
    (length (record_content (key_of 1 ∷ []) (key_of 2 ∷ key_of 3 ∷ [])).active_peers ≡ 5)
    × (length (record_content (key_of 1 ∷ []) (key_of 2 ∷ key_of 3 ∷ [])).last_message_hashes ≡ 5)
    × (select_by is_set (record_content (key_of 1 ∷ []) (key_of 2 ∷ key_of 3 ∷ [])).active_peers
        ≡ key_of 1 ∷ [])
    × (select_by is_set
          (record_content (key_of 1 ∷ []) (key_of 2 ∷ key_of 3 ∷ [])).last_message_hashes
        ≡ key_of 2 ∷ key_of 3 ∷ [])
record_content_lem_example =
    record_content_lem (key_of 1 ∷ []) (key_of 2 ∷ key_of 3 ∷ []) ((λ e. cc), tt)
      ((λ e. cc), ((λ e. cc), tt))
