-- ===== src/Tests/Meeting.antt =====
-- Two nodes that find each other, at a concrete input.
use distributed_topic_tracke.Prelude.{
  ◌≡◌, refl, sym, ap, subst, ◌∙◌, inl, inr, some, none, List, [], ◌∷◌, Bytes, Mem, Result, arith,
  i64_max, ok, to_le_bytes,
}
use distributed_topic_tracke.Config.Dht.{default as dht_default}
use distributed_topic_tracke.Config.{default as config_default}
use distributed_topic_tracke.Config.Bootstrapping.{default as bootstrap_default}
use distributed_topic_tracke.Dht.{DhtActor, MutableItem, new, put_mutable, get, is_stored}
use distributed_topic_tracke.Crypto.Keys.{
  encryption_keypair, signing_keypair, salt, rotation_or_default, default_rotation, default_derive,
  hash32,
}
use distributed_topic_tracke.Crypto.Record.{
  to_bytes as record_to_bytes, sign, from_arbitrary, signature_data,
}
use distributed_topic_tracke.Crypto.Encrypted.{encrypt, to_bytes}
use distributed_topic_tracke.Crypto.Dedup.{collect, values}
use distributed_topic_tracke.Crypto.Dedup.Selection.{selected}
use distributed_topic_tracke.Crypto.Publisher.{
  new_record, never, select, get_records, minute_key, known_records, put_record,
  publish_record_cached_records,
}
use distributed_topic_tracke.Crypto.Publisher.Fetch.{found_items}
use distributed_topic_tracke.Crypto.Publisher.Meeting.{IsPublished, Delivers}
use distributed_topic_tracke.Gossip.Sender.{joining, done, chosen_peers}
use distributed_topic_tracke.Gossip.Content.{record_content, slots, publish}
use distributed_topic_tracke.Gossip.Bubble.{merge as bubble_merge}
use distributed_topic_tracke.Gossip.Bubble.Meeting.{
  publish-record, AreFetched, bubble_finds_publisher,
}
use distributed_topic_tracke.Gossip.Rounds.{BootstrapActor, Fetch, Round}
use distributed_topic_tracke.Gossip.Bootstrap.{round, looks_back, empty_content}
use distributed_topic_tracke.Gossip.Bootstrap.Reaching.{alone}
use distributed_topic_tracke.Gossip.Bootstrap.Asked.{IsSearching, for_current}
use distributed_topic_tracke.Gossip.Bootstrap.Meeting.{bootstraps_meet}
use distributed_topic_tracke.Tests.Toy.{toy, toy-Laws, key_of}
use distributed_topic_tracke.Tests.Crypto.{note}
use distributed_topic_tracke.Tests.Publishing.{topic, entropy, sealed_bytes}
use distributed_topic_tracke.Tests.Network.{node, fresh, uncut, world}
use distributed_topic_tracke.Tests.Delivery.{
  other_node, node-IsPublisher, nodes-SameTopic, note_item,
}
use distributed_topic_tracke.Tests.Merging.{
  always, chosen_before, chosen_now, note-IsStranger, note_world,
}
use distributed_topic_tracke.Tests.Bootstrapping.{looping, lonely}
use distributed_topic_tracke.Tests.Announcing.{
  blank, blank-PostcardLaws, author, any_key, announcement, announced,
}

abbrev searcher : BootstrapActor
searcher = record { record_publisher = node 2; config = bootstrap_default }

abbrev fetch_note : Fetch
fetch_note = record { world = note_world; actor = fresh; cut = never }

abbrev searching : Round
searching = record lonely { current = fetch_note }

abbrev note_put : MutableItem
note_put = record {
  signing_key = key_of 9;
  value = sealed_bytes;
  seq = i64_max;
  salt = some (salt topic 300);
}

-- The first put fails, the second times out, the third is stored.
published :
    ((publish_record_cached_records world (node 1) note none uncut entropy fresh).0 ≡ ok (tt {0}))
    × ((publish_record_cached_records world (node 1) note none uncut entropy fresh).1.puts
        ≡ note_put ∷ note_put ∷ note_put ∷ [])
unfolding publish_record_cached_records known_records get_records get select put_record put_mutable
    new dht_default is_stored minute_key encryption_keypair signing_keypair rotation_or_default
    default_rotation default_derive hash32 encrypt to_bytes record_to_bytes to_le_bytes
    config_default bootstrap_default selected collect values
published = (refl, refl)

knows_none : (known_records world (node 1) note none uncut fresh).0 ≡ ok []
unfolding known_records get_records get select selected collect values new
knows_none = refl

note-IsPublished : IsPublished world (node 1) note none uncut entropy fresh
unfolding config_default bootstrap_default new dht_default
note-IsPublished = record {
  known = [];
  knows = knows_none;
  room = omega arith;
  builds = λ k. refl;
  few_retries = omega arith;
  done = published.0;
}

same_value :
    (put : MutableItem) → Mem put (note_put ∷ note_put ∷ note_put ∷ []) → sealed_bytes ≡ put.value
same_value put (inl e) = ap (λ (i : MutableItem). i.value) (sym e)
same_value put (inr (inl e)) = ap (λ (i : MutableItem). i.value) (sym e)
same_value put (inr (inr (inl e))) = ap (λ (i : MutableItem). i.value) (sym e)
same_value put (inr (inr (inr m))) = elim m [ ]

note-Delivers :
    Delivers note_world
      (node 2)
      300
      (publish_record_cached_records world (node 1) note none uncut entropy fresh).1.puts
unfolding found_items
note-Delivers = record {
  items = note_item ∷ [];
  found = refl;
  has = λ put m key place. (note_item, inl refl, same_value put (subst (Mem put) published.1 m));
}

searching-IsSearching : IsSearching blank any_key searcher searching
searching-IsSearching = record {
  on = refl;
  alone_first = refl;
  alone_before = refl;
  all_keys = λ keys key m. m;
  goes_on = λ key. alone (inl refl) refl;
}

bootstraps_meet_example :
    Mem (joining (key_of 1 ∷ [])) (round blank any_key searcher searching looping).joins
unfolding minute_key encryption_keypair rotation_or_default default_rotation default_derive hash32
    looks_back
bootstraps_meet_example =
    bootstraps_meet blank any_key author searcher 300 [] announcement world uncut entropy fresh
      searching looping fetch_note toy-Laws blank-PostcardLaws node-IsPublisher nodes-SameTopic
      other_node refl (omega arith) refl refl tt announced note-IsPublished (for_current refl refl)
      refl (λ k. refl) note-Delivers searching-IsSearching

sign_blank : new_record blank (node 1) 300 (record_content [] []) ≡ ok note
unfolding new_record sign from_arbitrary signature_data to_le_bytes record_content slots
    empty_content
sign_blank = refl

publication-Delivers :
    Delivers note_world
      (node 2)
      300
      (publish world blank (node 1) 300 (ok []) (ok []) uncut entropy fresh).1.puts
publication-Delivers =
    subst (λ (d : Result (Unit {0}) × DhtActor). Delivers note_world (node 2) 300 d.1.puts)
      (sym (publish-record blank world (node 1) 300 [] [] uncut entropy fresh note sign_blank))
      note-Delivers

both-AreFetched : AreFetched note_world (node 2) 300 fresh
both-AreFetched = record {
  older = [];
  newer = note ∷ [];
  before = always 299 fresh ∙ ap ok chosen_before;
  current = always 300 (get_records note_world (node 2) 299 never fresh).1 ∙ ap ok chosen_now;
}

bubble_finds_publisher_example :
    (keys : List Bytes) × Mem (key_of 1) keys
    × ((bubble_merge note_world
          (node 2)
          blank
          any_key
          2
          4
          300
          never
          never
          (ok [])
          (λ keys. keys)
          done
          fresh).0.0
        ≡ joining (chosen_peers (λ keys. keys) keys (some 2)) ∷ [])
unfolding minute_key encryption_keypair rotation_or_default default_rotation default_derive hash32
bubble_finds_publisher_example =
    bubble_finds_publisher blank any_key (node 1) (node 2) 300 [] [] note world uncut entropy fresh
      note_world 300 fresh 2 4 [] (λ keys. keys) done toy-Laws blank-PostcardLaws node-IsPublisher
      nodes-SameTopic (omega arith) refl refl sign_blank note-IsPublished publication-Delivers
      (λ k. refl) (inr refl) both-AreFetched (omega arith) note-IsStranger
