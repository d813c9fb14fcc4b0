-- ===== src/Gossip/Bootstrap/Refinement.antt =====
-- The loop only makes the moves of the relation.
use distributed_topic_tracke.Prelude.{
  ◌≡◌, ◌≢◌, refl, sym, subst, Bool, true, false, Option, List, [], ◌∷◌, Bytes, Result, ok, err,
  panic, Mem,
}
use distributed_topic_tracke.Crypto.Primitives.{Primitives, Postcard}
use distributed_topic_tracke.Crypto.Record.{Record}
use distributed_topic_tracke.Gossip.Content.{GossipRecordContent}
use distributed_topic_tracke.Gossip.Rounds.{BootstrapActor, Loop, Round}
use distributed_topic_tracke.Gossip.Bootstrap.{
  bootstrap_nodes, conclude, confirm_join, join_found, announce_alone, on_records, look, round,
}
use distributed_topic_tracke.Gossip.Bootstrap.Moves.{
  first, before, last, IsFailure, failure, crash, cut_at_start, first_failed, before_failed,
  after_failed, cut_at_confirm, last_failed, cut_at_pause,
}
use distributed_topic_tracke.Gossip.Bootstrap.Peers.{fetches-other, bootstrap_nodes-IsOther}
use distributed_topic_tracke.Gossip.Bootstrap.Visits.{
  To, chain, leave-Moves, check-Moves, wait-Moves, when-Moves, announce_once-Moves,
  announce_once-running, visit-Moves,
}

module _ ⦃P : Primitives⦄ (C : Postcard GossipRecordContent) (is_endpoint : Bytes → Bool)
    (b : BootstrapActor) (r : Round) where
  conclude-Moves :
      (cached : Option (List Record)) (s : Loop)
      → To C is_endpoint b r s (conclude C is_endpoint b r cached s)
  unfolding conclude
  conclude-Moves cached s =
      check-Moves C is_endpoint b r r.is_joined_last s _ (λ e. (last e, tt))
        (λ f. (last_failed f, tt))
        (chain C is_endpoint b r (announce_once-Moves C is_endpoint b r cached s)
          (announce_once-running C is_endpoint b r cached s)
          (wait-Moves C is_endpoint b r _ r.pause _ (λ e. (cut_at_pause e, tt))))

  confirm_join-Moves :
      (x : Result Bool) (cached : Option (List Record)) (s : Loop)
      → r.is_joined_after ≡ x
      → To C is_endpoint b r s (confirm_join C is_endpoint b x r cached s)
  unfolding confirm_join
  confirm_join-Moves (ok true) cached s e = conclude-Moves cached s
  confirm_join-Moves (ok false) cached s e =
      let m =
        wait-Moves C is_endpoint b r b.config.join_confirmation_wait_time r.confirm s
          (λ c. (cut_at_confirm c, tt)) in
      when-Moves C is_endpoint b r _ s _ _
        (λ on. chain C is_endpoint b r m (λ was. on) (conclude-Moves cached _)) m
  confirm_join-Moves (err x) cached s e =
      leave-Moves C is_endpoint b r s (after_failed (subst IsFailure (sym e) (failure x)), tt)
  confirm_join-Moves panic cached s e =
      leave-Moves C is_endpoint b r s (after_failed (subst IsFailure (sym e) crash), tt)

  join_found-Moves :
      (records : List Record) (cached : Option (List Record)) (s : Loop)
      → ((keys : List Bytes) (key : Bytes) → Mem key (r.order keys) → Mem key keys)
      → ((x : Record) → Mem x records → x.pub_key ≢ b.record_publisher.pub_key)
      → To C is_endpoint b r s (join_found C is_endpoint b r records cached s)
  unfolding join_found
  join_found-Moves records cached s ordered others =
      let visited =
        visit-Moves C is_endpoint b r (r.order (bootstrap_nodes C is_endpoint b records)) s
          (λ k m. bootstrap_nodes-IsOther C is_endpoint b records others k (ordered _ k m)) in
      check-Moves C is_endpoint b r r.is_joined_before s _ (λ e. (before e, tt))
        (λ f. (before_failed f, tt))
        (when-Moves C is_endpoint b r _ s _ _
          (λ on. chain C is_endpoint b r visited (λ was. on) (confirm_join-Moves _ cached _ refl))
          visited)

  on_records-Moves :
      (records : List Record) (cached : Option (List Record)) (s : Loop)
      → ((keys : List Bytes) (key : Bytes) → Mem key (r.order keys) → Mem key keys)
      → ((x : Record) → Mem x records → x.pub_key ≢ b.record_publisher.pub_key)
      → To C is_endpoint b r s (on_records C is_endpoint b r records cached s)
  unfolding on_records announce_alone
  on_records-Moves [] cached s ordered others =
      chain C is_endpoint b r (announce_once-Moves C is_endpoint b r cached s)
        (announce_once-running C is_endpoint b r cached s)
        (wait-Moves C is_endpoint b r _ r.pause _ (λ e. (cut_at_pause e, tt)))
  on_records-Moves (x ∷ xs) cached s ordered others =
      join_found-Moves (x ∷ xs) cached s ordered others

  -- If the order in which keys are iterated adds none, a round of a loop that runs makes moves of the
  -- relation only.
  pub round-Moves :
      (s : Loop)
      → ((keys : List Bytes) (key : Bytes) → Mem key (r.order keys) → Mem key keys)
      → To C is_endpoint b r s (round C is_endpoint b r s)
  unfolding round look
  round-Moves s ordered =
      when-Moves C is_endpoint b r r.is_cancelled s _ _
        (λ cut. leave-Moves C is_endpoint b r s (cut_at_start cut, tt))
        (check-Moves C is_endpoint b r r.is_joined_first s _ (λ e. (first e, tt))
          (λ f. (first_failed f, tt))
          (on_records-Moves _ _ s ordered (fetches-other C is_endpoint b r.older r.current _ _)))
