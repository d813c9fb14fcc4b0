-- ===== src/Gossip/Bootstrap.antt =====
-- src/gossip/topic/bootstrap.rs: the loop that looks for peers and joins them until the node is
-- connected. What the environment answers in one round of the loop is a record, and so is what the
-- loop has done. A publication is a task of its own, `publish_record_cached_records` of
-- `Crypto.Publisher`; the loop only starts it. Each fetch names the state in which such tasks have
-- left the DHT actor.
pub mod Moves
pub mod Peers
pub mod Visits
pub mod Refinement
pub mod Trace
pub mod Asking
pub mod Minutes
pub mod Ending
pub mod Reporting
pub mod Reaching
pub mod Pausing
pub mod Publishing
pub mod Asked
pub mod Meeting
use distributed_topic_tracke.Gossip.Rounds.{
  BootstrapActor, Publication, Loop, Wait, elapsed, woken, cancelled, Fetch, Attempt, Round, leave,
  leave_joined, check, wait, Visit, next_peer, enough, abort, answered, settled, proceed,
  publish_signed,
}
use distributed_topic_tracke.Prelude.{
  ℕ, ◌-◌, ◌+◌, Bool, true, false, not, ◌&&◌, Option, some, none, List, [], ◌∷◌, ◌++◌, Bytes,
  bytes_eq, ◌==◌, if◌then◌else◌, Result, ok, err, panic, unwrap_or, bootstrap_failed, replicate,
  select_by, flat_map, unique,
}
use distributed_topic_tracke.Config.Duration.{Duration}
use distributed_topic_tracke.Config.Bootstrapping.{BootstrapConfig}
use distributed_topic_tracke.Crypto.Primitives.{Primitives, Postcard}
use distributed_topic_tracke.Crypto.Record.{Record, content, sign}
use distributed_topic_tracke.Crypto.Publisher.{RecordPublisher, Cut, get_records}
use distributed_topic_tracke.Dht.{Oracle, DhtActor}
use distributed_topic_tracke.Gossip.Content.{
  GossipRecordContent, zero_key, is_set, max_record_peers,
}
use distributed_topic_tracke.Gossip.Receiver.{max_message_hashes}
use distributed_topic_tracke.Gossip.Sender.{Outcome, Request, join_peers}

-- `GossipRecordContent` with zero entries only.
unfoldable pub empty_content : GossipRecordContent
empty_content = record {
  active_peers = replicate max_record_peers zero_key;
  last_message_hashes = replicate max_message_hashes zero_key;
}

module _ ⦃P : Primitives⦄ (C : Postcard GossipRecordContent) (is_endpoint : Bytes → Bool)
    (b : BootstrapActor) where
  -- The record of this node without content, signed and published.
  unfoldable pub announce : ℕ → Option (List Record) → Loop → Loop
  unfolding publish_signed
  announce unix_minute cached s =
      publish_signed
        (sign C b.record_publisher.topic_id.hash unix_minute empty_content
          b.record_publisher.signing_key)
        cached s

  -- `if current_unix_minute != last_published_unix_minute`, and the publication under it.
  unfoldable pub announce_once : ℕ → Option (List Record) → Loop → Loop
  announce_once now cached s =
      if now == s.last_published_unix_minute
      then s
      else announce now cached (record s { last_published_unix_minute = now })

  -- Up to the loop: the publication at startup.
  unfoldable pub start : ℕ → Loop
  start now =
      let idle : Loop = record {
        last_published_unix_minute = 0;
        is_joined_ret = false;
        publications = [];
        joins = [];
        sleeps = [];
        running = true;
      } in
      if b.config.publish_record_on_startup
      then announce now none (record idle {
        last_published_unix_minute =
            if b.config.check_older_records_first_on_startup then 0 else now;
      })
      else idle

  -- Whether the round looks one minute further back, and then does not reuse what it fetched.
  unfoldable pub looks_back : Loop → Bool
  looks_back s = s.last_published_unix_minute == 0 && b.config.check_older_records_first_on_startup

  -- `get_records(..).await.unwrap_or_default()`
  unfoldable pub fetch : Fetch → ℕ → List Record
  fetch f unix_minute =
      unwrap_or (get_records f.world b.record_publisher unix_minute f.cut f.actor).0 []

  -- The peers that a record names beside its author.
  unfoldable pub peers_of_content : Result GossipRecordContent → List Bytes
  peers_of_content (ok c) =
      select_by (λ key. is_set key && not (bytes_eq key b.record_publisher.pub_key)) c.active_peers
  peers_of_content (err e) = []
  peers_of_content panic = []

  -- `bootstrap_nodes`
  unfoldable pub bootstrap_nodes : List Record → List Bytes
  bootstrap_nodes records =
      unique
        (select_by is_endpoint (flat_map (λ r. r.pub_key ∷ peers_of_content (content C r)) records))

  -- The `match` on the result of a request.
  unfoldable pub requested : Result (Unit {0}) → Attempt → Loop → Visit × Loop
  unfolding settled
  requested (ok done) a s = settled b.config.per_peer_join_settle_time a.settle a.is_joined s
  requested (err e) a s = (next_peer, s)
  requested panic a s = (next_peer, s)

  -- The body of the loop over the peers.
  unfoldable pub visit_one : Attempt → Bytes → Loop → Visit × Loop
  unfolding requested
  visit_one a key s =
      let sent = join_peers (λ keys. keys) (key ∷ []) none a.outcome in
      requested sent.1 a (record s { joins = sent.0 ∷ s.joins })

  -- The loop over the peers; a loop that was aborted has left.
  unfoldable pub visit : (Bytes → Attempt) → List Bytes → Loop → Loop
  unfolding visit_one proceed
  visit attempt [] s = s
  visit attempt (key ∷ keys) s =
      let done = visit_one (attempt key) key s in proceed done.0 (visit attempt keys done.1) done.1

  -- The last check of a round, the fallback publication, and the pause.
  unfoldable pub conclude : Round → Option (List Record) → Loop → Loop
  unfolding check wait announce_once
  conclude r cached s =
      check r.is_joined_last s
        (wait b.config.discovery_poll_interval r.pause (announce_once r.now cached s))

  -- After the peers: another check, and a wait if the node is not joined yet.
  unfoldable pub confirm_join : Result Bool → Round → Option (List Record) → Loop → Loop
  unfolding leave wait conclude
  confirm_join (ok true) r cached s = conclude r cached s
  confirm_join (ok false) r cached s =
      let s' = wait b.config.join_confirmation_wait_time r.confirm s in
      if s'.running then conclude r cached s' else s'
  confirm_join (err e) r cached s = leave s
  confirm_join panic r cached s = leave s

  -- A round that found records.
  unfoldable pub join_found : Round → List Record → Option (List Record) → Loop → Loop
  unfolding check visit confirm_join bootstrap_nodes
  join_found r records cached s =
      let s' = visit r.attempt (r.order (bootstrap_nodes records)) s in
      check r.is_joined_before s
        (if s'.running then confirm_join r.is_joined_after r cached s' else s')

  -- A round that found none.
  unfoldable pub announce_alone : Round → Option (List Record) → Loop → Loop
  unfolding wait announce_once
  announce_alone r cached s =
      wait b.config.no_peers_retry_interval r.pause (announce_once r.now cached s)

  -- `if records.is_empty()`
  unfoldable pub on_records : Round → List Record → Option (List Record) → Loop → Loop
  unfolding join_found announce_alone
  on_records r [] cached s = announce_alone r cached s
  on_records r (x ∷ xs) cached s = join_found r (x ∷ xs) cached s

  -- A round from its fetches on. `saturating_sub` stops at 0, as `-` does.
  unfoldable pub look : Round → Loop → Loop
  unfolding looks_back fetch on_records
  look r s =
      let offset = if looks_back s then 1 else 0 in
      let older = fetch r.older (r.now - (offset + 1)) in
      let current = fetch r.current (r.now - offset) in
      on_records r (older ++ current) (if looks_back s then none else some current) s

  -- One round of the loop.
  unfoldable pub round : Round → Loop → Loop
  unfolding leave check look
  round r s = if r.is_cancelled then leave s else check r.is_joined_first s (look r s)

  -- Rounds until one breaks the loop.
  unfoldable pub run : List Round → Loop → Loop
  unfolding round
  run [] s = s
  run (r ∷ rs) s = let rest = run rs (round r s) in if s.running then rest else s

-- What the task sends when the loop has ended.
unfoldable pub result : Loop → Option (Result (Unit {0}))
result s =
    if s.running then none else some (if s.is_joined_ret then ok tt else err bootstrap_failed)
