-- ===== src/Tests/Examples.antt =====
-- The settings of the examples, and the theorems about their nodes at concrete inputs.
use distributed_topic_tracke.Prelude.{
  ◌≡◌, refl, none, ◌++◌, Bytes, replicate, [], ◌∷◌, arith, ok, some, to_le_bytes, i64_max,
}
use distributed_topic_tracke.Config as Top
use distributed_topic_tracke.Config.Dht
use distributed_topic_tracke.Config.Bootstrapping
use distributed_topic_tracke.Config.Publishing
use distributed_topic_tracke.Config.Bubble
use distributed_topic_tracke.Config.Overlap
use distributed_topic_tracke.Config.Merge
use distributed_topic_tracke.Config.Timeouts
use distributed_topic_tracke.Crypto.Keys.{
  topic_id, hash32, encryption_keypair, rotation_or_default, default_rotation, default_derive,
}
use distributed_topic_tracke.Crypto.Publisher.{new, new_record, minute_key}
use distributed_topic_tracke.Crypto.Dedup.{accepted}
use distributed_topic_tracke.Crypto.Record.{
  Record, sign, content, from_arbitrary, signature_data, to_bytes as record_to_bytes,
}
use distributed_topic_tracke.Crypto.Encrypted.{EncryptedRecord, encrypt, to_bytes}
use distributed_topic_tracke.Dht.{MutableItem}
use distributed_topic_tracke.Examples.{topic_name, config_builder, chat}
use distributed_topic_tracke.Examples.Interoperating.{
  chatting, configured, publisher_of, examples_interoperate,
}
use distributed_topic_tracke.Tests.Toy.{toy, toy-Laws, raw, raw-PostcardLaws, key_of}
use distributed_topic_tracke.Tests.Publishing.{entropy}

-- The settings of the example that writes all of them out are the default ones.
config_builder-default : config_builder ≡ Top.default
unfolding config_builder Top.build Top.run Top.apply Top.builder Top.default Dht.run
    Bootstrapping.run Publishing.run Bubble.run Overlap.run Merge.run Timeouts.run
    Bootstrapping.apply Bootstrapping.default Publishing.default Publishing.build Dht.default
    Dht.apply Merge.default Merge.apply Timeouts.default Timeouts.apply Publishing.apply
    Bubble.default Bubble.build Overlap.default Overlap.build Publishing.builder Bubble.apply
    Overlap.apply
config_builder-default = refl

-- The hash of the topic with the stand-in, which keeps the first bytes of its input.
abbrev hash : Bytes
hash = topic_name ++ replicate 12 0

-- A record of the chat, and the item that it is published as.
abbrev chat_record : Record
chat_record = record {
  topic = hash;
  unix_minute = 300;
  pub_key = key_of 1;
  content = record { bytes = 7 ∷ 8 ∷ [] };
  signature = key_of 1 ++ hash;
}

abbrev chat_bytes : Bytes
chat_bytes =
    hash
    ++ ((44 ∷ 1 ∷ 0 ∷ 0 ∷ 0 ∷ 0 ∷ 0 ∷ 0 ∷ []) ++ (key_of 1 ++ ((7 ∷ 8 ∷ []) ++ (key_of 1 ++ hash))))

abbrev sealed_chat : EncryptedRecord
sealed_chat = record {
  encrypted_record = chat_bytes ++ (key_of 4 ++ replicate 24 0);
  encrypted_decryption_key = key_of 4 ++ (hash ++ replicate 24 0);
}

abbrev chat_item : MutableItem
chat_item = record {
  signing_key = hash;
  value =
      (194 ∷ 0 ∷ 0 ∷ 0 ∷ [])
      ++ (sealed_chat.encrypted_record ++ sealed_chat.encrypted_decryption_key);
  seq = i64_max;
  salt = none;
}

sign_chat : new_record raw (publisher_of chatting (key_of 1)) 300 (7 ∷ 8 ∷ []) ≡ ok chat_record
unfolding new_record publisher_of chat new topic_id hash32 sign from_arbitrary signature_data
    to_le_bytes
sign_chat = refl

encrypt_chat :
    encrypt chat_record (minute_key (publisher_of chatting (key_of 1)) 300) entropy ≡ ok sealed_chat
unfolding encrypt minute_key encryption_keypair rotation_or_default default_rotation default_derive
    publisher_of chat new topic_id hash32 record_to_bytes to_le_bytes
encrypt_chat = refl

write_chat : to_bytes sealed_chat ≡ ok chat_item.value
unfolding to_bytes to_le_bytes
write_chat = refl

examples_interoperate_example :
    (accepted
        (minute_key (publisher_of configured (key_of 2)) 300)
        (publisher_of configured (key_of 2)).topic_id.hash
        300
        (publisher_of configured (key_of 2)).pub_key
        chat_item
      ≡ some chat_record)
    × (content raw chat_record ≡ ok (7 ∷ 8 ∷ []))
examples_interoperate_example =
    examples_interoperate raw chatting configured (key_of 1) (key_of 2) 300 (7 ∷ 8 ∷ []) chat_record
      entropy sealed_chat chat_item toy-Laws raw-PostcardLaws refl (omega arith) refl (λ e. cc)
      sign_chat encrypt_chat write_chat
