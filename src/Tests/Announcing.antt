-- ===== src/Tests/Announcing.antt =====
-- What a bootstrap publishes, at a concrete input.
use distributed_topic_tracke.Prelude.{
  ◌≡◌, refl, sym, inl, Bool, true, false, ◌&&◌, some, none, List, [], ◌∷◌, Bytes, bytes_eq,
  bytes_eq_iff, &&-eq-true, Mem, arith, ok, if◌then◌else◌, to_le_bytes,
}
use distributed_topic_tracke.Config.Bootstrapping.{default as bootstrap_default}
use distributed_topic_tracke.Crypto.Primitives.{Postcard, PostcardLaws}
use distributed_topic_tracke.Crypto.Record.{sign, from_arbitrary, signature_data, content}
use distributed_topic_tracke.Crypto.Publisher.{minute_key}
use distributed_topic_tracke.Crypto.Keys.{
  encryption_keypair, rotation_or_default, default_rotation, default_derive, hash32,
}
use distributed_topic_tracke.Crypto.Dedup.{accepted}
use distributed_topic_tracke.Gossip.Content.{GossipRecordContent}
use distributed_topic_tracke.Gossip.Rounds.{BootstrapActor, Publication, publish_signed}
use distributed_topic_tracke.Gossip.Bootstrap.{start, announce, run, empty_content}
use distributed_topic_tracke.Gossip.Bootstrap.Publishing.{bootstrap-accepted}
use distributed_topic_tracke.Tests.Toy.{toy, toy-Laws, key_of}
use distributed_topic_tracke.Tests.Crypto.{note}
use distributed_topic_tracke.Tests.Publishing.{entropy, sealed_note, encrypt-note, write_sealed}
use distributed_topic_tracke.Tests.Network.{node}
use distributed_topic_tracke.Tests.Delivery.{
  note_item, other_node, node-IsPublisher, nodes-SameTopic,
}

abbrev all_eq : List Bytes → List Bytes → Bool
all_eq [] [] = true
all_eq [] (y ∷ ys) = false
all_eq (x ∷ xs) [] = false
all_eq (x ∷ xs) (y ∷ ys) = bytes_eq x y && all_eq xs ys

all_eq-true : (xs ys : List Bytes) → all_eq xs ys ≡ true → xs ≡ ys
all_eq-true [] [] h = refl
all_eq-true [] (y ∷ ys) h = cc
all_eq-true (x ∷ xs) [] h = cc
all_eq-true (x ∷ xs) (y ∷ ys) h =
    let (first, rest) = &&-eq-true (bytes_eq x y) (all_eq xs ys) h in
    rw ((bytes_eq_iff x y).0 first, all_eq-true xs ys rest) refl

abbrev is_blank : GossipRecordContent → Bool
is_blank c =
    all_eq c.active_peers empty_content.active_peers
    && all_eq c.last_message_hashes empty_content.last_message_hashes

-- A codec for contents without entries only, which writes what the note holds.
abbrev pub blank : Postcard GossipRecordContent
blank = record {
  to_allocvec = λ c. if is_blank c then some (7 ∷ 8 ∷ []) else none;
  from_bytes = λ bs. some empty_content;
}

abbrev as_content : List Bytes → List Bytes → GossipRecordContent
as_content peers hashes = record { active_peers = peers; last_message_hashes = hashes }

is_blank-true : (c : GossipRecordContent) → is_blank c ≡ true → some empty_content ≡ some c
is_blank-true c h =
    let (peers, hashes) =
      &&-eq-true (all_eq c.active_peers empty_content.active_peers)
        (all_eq c.last_message_hashes empty_content.last_message_hashes) h in
    content_eq (sym (all_eq-true c.active_peers empty_content.active_peers peers))
      (sym (all_eq-true c.last_message_hashes empty_content.last_message_hashes hashes))
  where
    content_eq :
        {a b x y : List Bytes} → a ≡ x → b ≡ y → some (as_content a b) ≡ some (as_content x y)
    content_eq p q = rw (p, q) refl

pub blank-PostcardLaws : PostcardLaws blank
blank-PostcardLaws = record { from_bytes-to_allocvec = λ c bs e. written (is_blank c) refl e }
  where
    written :
        {c : GossipRecordContent} {bs : Bytes} (x : Bool)
        → is_blank c ≡ x
        → (if x then some (7 ∷ 8 ∷ []) else none) ≡ some bs
        → some empty_content ≡ some c
    written {c} true h e = is_blank-true c h
    written false h e = cc

-- The node that wrote the note.
abbrev pub author : BootstrapActor
author = record { record_publisher = node 1; config = bootstrap_default }

abbrev pub any_key : Bytes → Bool
any_key key = true

abbrev pub announcement : Publication
announcement = record { announced = note; cached_records = none }

pub announced :
    Mem announcement (run blank any_key author [] (start blank any_key author 300)).publications
unfolding run start announce publish_signed sign from_arbitrary signature_data to_le_bytes
    empty_content bootstrap_default
announced = inl refl

bootstrap-accepted_example :
    (accepted (minute_key (node 2) 300) (key_of 9) 300 (key_of 2) note_item ≡ some note)
    × (content blank note ≡ ok empty_content)
unfolding minute_key encryption_keypair rotation_or_default default_rotation default_derive hash32
bootstrap-accepted_example =
    bootstrap-accepted blank any_key author 300 [] announcement (node 2) entropy sealed_note
      note_item toy-Laws blank-PostcardLaws tt announced node-IsPublisher nodes-SameTopic
      (omega arith) refl refl other_node encrypt-note write_sealed
