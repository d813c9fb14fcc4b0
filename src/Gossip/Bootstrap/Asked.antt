-- ===== src/Gossip/Bootstrap/Asked.antt =====
-- A round that fetches the record of a node asks that node, if nothing ends the round before.
use distributed_topic_tracke.Prelude.{
  ℕ, ◌+◌, ◌-◌, ◌≡◌, refl, sym, ap, subst, ◌∙◌, inl, inr, Bool, true, false, Option, List, [], ◌∷◌,
  ◌++◌, Bytes, Result, ok, err, panic, Mem, All-of_Mem, Mem-append_left, Mem-append_right,
  select_by-Mem, flat_map-Mem, unique-Mem, if◌then◌else◌, arith,
}
use distributed_topic_tracke.Config.Duration.{Duration}
use distributed_topic_tracke.Crypto.Primitives.{Primitives, Postcard}
use distributed_topic_tracke.Crypto.Record.{Record, sign}
use distributed_topic_tracke.Gossip.Content.{GossipRecordContent}
use distributed_topic_tracke.Gossip.Sender.{Request, joining}
use distributed_topic_tracke.Gossip.Rounds.{
  BootstrapActor, Loop, Wait, elapsed, woken, cancelled, Fetch, Attempt, Round, leave, leave_joined,
  check, wait, publish_signed,
}
use distributed_topic_tracke.Gossip.Bootstrap.{
  empty_content, announce, announce_once, looks_back, fetch, bootstrap_nodes, visit, conclude,
  confirm_join, join_found, on_records, look, round,
}
use distributed_topic_tracke.Gossip.Bootstrap.Reaching.{GoesOn, ask_each-Mem, visit-ask_each}

-- A list around one of its elements.
Mem-split :
    {A : Type 0} (x : A) (xs : List A)
    → Mem x xs
    → (pre : List A) × (more : List A) × (xs ≡ pre ++ (x ∷ more))
Mem-split x [] m = absurd m
Mem-split x (y ∷ ys) (inl e) = ([], ys, ap (λ z. z ∷ ys) (sym e))
Mem-split x (y ∷ ys) (inr m) =
    let (pre, more, e) = Mem-split x ys m in (y ∷ pre, more, ap (◌∷◌ y) e)

-- A check that finds the node alone goes on.
alone-asked :
    (q : Request) (x : Result Bool) (s rest : Loop)
    → x ≡ ok false
    → Mem q rest.joins
    → Mem q (check x s rest).joins
unfolding check
alone-asked q (ok false) s rest e m = m
alone-asked q (ok true) s rest e m = cc
alone-asked q (err x) s rest e m = cc
alone-asked q panic s rest e m = cc

uncut-asked :
    (q : Request) (x : Bool) (s t : Loop)
    → x ≡ false
    → Mem q t.joins
    → Mem q (if x then s else t).joins
uncut-asked q true s t e m = cc
uncut-asked q false s t e m = m

check-asked :
    (q : Request) (x : Result Bool) (s rest : Loop)
    → Mem q s.joins
    → Mem q rest.joins
    → Mem q (check x s rest).joins
unfolding check leave leave_joined
check-asked q (ok true) s rest m n = m
check-asked q (ok false) s rest m n = n
check-asked q (err e) s rest m n = m
check-asked q panic s rest m n = m

wait-joins : (d : Duration) (w : Wait) (s : Loop) → (wait d w s).joins ≡ s.joins
unfolding wait leave
wait-joins d elapsed s = refl
wait-joins d woken s = refl
wait-joins d cancelled s = refl

publish_signed-joins :
    (x : Result Record) (cached : Option (List Record)) (s : Loop)
    → (publish_signed x cached s).joins ≡ s.joins
unfolding publish_signed
publish_signed-joins (ok r) cached s = refl
publish_signed-joins (err e) cached s = refl
publish_signed-joins panic cached s = refl

if-asked :
    (q : Request) (x : Bool) (s t : Loop)
    → Mem q s.joins
    → Mem q t.joins
    → Mem q (if x then s else t).joins
if-asked q true s t m n = m
if-asked q false s t m n = n

module _ ⦃P : Primitives⦄ (C : Postcard GossipRecordContent) (is_endpoint : Bytes → Bool)
    (b : BootstrapActor) where
  bootstrap_nodes-author :
      (records : List Record) (x : Record)
      → Mem x records
      → is_endpoint x.pub_key ≡ true
      → Mem x.pub_key (bootstrap_nodes C is_endpoint b records)
  unfolding bootstrap_nodes
  bootstrap_nodes-author records x m valid = unique-Mem x.pub_key _ (
      select_by-Mem is_endpoint x.pub_key _ (flat_map-Mem _ x.pub_key x records m (inl refl)) valid)

  announce_once-joins :
      (now : ℕ) (cached : Option (List Record)) (s : Loop)
      → (announce_once C is_endpoint b now cached s).joins ≡ s.joins
  unfolding announce_once announce
  announce_once-joins now cached s = ground (
    arith,
    publish_signed-joins
        (sign C b.record_publisher.topic_id.hash now empty_content b.record_publisher.signing_key)
        cached (record s { last_published_unix_minute = now }),
  )

  conclude-asked :
      (q : Request) (r : Round) (cached : Option (List Record)) (s : Loop)
      → Mem q s.joins
      → Mem q (conclude C is_endpoint b r cached s).joins
  unfolding conclude
  conclude-asked q r cached s m = check-asked q r.is_joined_last s _ m (
      subst (Mem q)
        (sym (
          wait-joins b.config.discovery_poll_interval r.pause _
          ∙ announce_once-joins r.now cached s))
        m)

  confirm_join-asked :
      (q : Request) (x : Result Bool) (r : Round) (cached : Option (List Record)) (s : Loop)
      → Mem q s.joins
      → Mem q (confirm_join C is_endpoint b x r cached s).joins
  unfolding confirm_join leave
  confirm_join-asked q (ok true) r cached s m = conclude-asked q r cached s m
  confirm_join-asked q (ok false) r cached s m =
      let s' = wait b.config.join_confirmation_wait_time r.confirm s in
      let n : Mem q s'.joins =
        subst (Mem q) (sym (wait-joins b.config.join_confirmation_wait_time r.confirm s)) m in
      if-asked q s'.running (conclude C is_endpoint b r cached s') s'
        (conclude-asked q r cached s' n) n
  confirm_join-asked q (err e) r cached s m = m
  confirm_join-asked q panic r cached s m = m

  visit-asked :
      (attempt : Bytes → Attempt) (keys : List Bytes) (key : Bytes) (s : Loop)
      → ((k : Bytes) → GoesOn (attempt k))
      → Mem key keys
      → Mem (joining (key ∷ [])) (visit C is_endpoint b attempt keys s).joins
  visit-asked attempt keys key s goes m =
      let (pre, more, e) = Mem-split key keys m in
      let (later, asked) =
        visit-ask_each C is_endpoint b attempt pre key more s
          (All-of_Mem (λ k. GoesOn (attempt k)) pre (λ k n. goes k)) in
      subst (λ ks. Mem (joining (key ∷ [])) (visit C is_endpoint b attempt ks s).joins) (sym e)
        (subst (Mem (joining (key ∷ []))) (sym asked)
          (ask_each-Mem (joining (key ∷ [])) later _ (inl refl)))

  -- A round that nothing ends before it has asked all the peers that it knows: it is not cancelled,
  -- the node is found not joined before the peers are asked, all keys are iterated over, and after
  -- no request is the node found joined, or the wait cut.
  pub record IsSearching (r : Round) : Type 0 where
    pub on : r.is_cancelled ≡ false
    pub alone_first : r.is_joined_first ≡ ok false
    pub alone_before : r.is_joined_before ≡ ok false
    pub all_keys : (keys : List Bytes) (key : Bytes) → Mem key keys → Mem key (r.order keys)
    pub goes_on : (key : Bytes) → GoesOn (r.attempt key)

  -- The fetches that a round makes, each with its minute.
  pub data Looks (r : Round) (s : Loop) (f : Fetch) (unix_minute : ℕ) : Type 0 where
    for_older :
        f ≡ r.older
        → unix_minute ≡ r.now - ((if looks_back C is_endpoint b s then 1 else 0) + 1)
        → Looks r s f unix_minute
    for_current :
        f ≡ r.current
        → unix_minute ≡ r.now - (if looks_back C is_endpoint b s then 1 else 0)
        → Looks r s f unix_minute

  join_found-asked :
      (r : Round) (records : List Record) (cached : Option (List Record)) (s : Loop) (key : Bytes)
      → IsSearching r
      → Mem key (bootstrap_nodes C is_endpoint b records)
      → Mem (joining (key ∷ [])) (join_found C is_endpoint b r records cached s).joins
  unfolding join_found
  join_found-asked r records cached s key h m =
      let keys = r.order (bootstrap_nodes C is_endpoint b records) in
      let s' = visit C is_endpoint b r.attempt keys s in
      let asked = visit-asked r.attempt keys key s h.goes_on (h.all_keys _ key m) in
      alone-asked (joining (key ∷ [])) r.is_joined_before s _ h.alone_before (
        if-asked (joining (key ∷ [])) s'.running
          (confirm_join C is_endpoint b r.is_joined_after r cached s') s'
          (confirm_join-asked (joining (key ∷ [])) r.is_joined_after r cached s' asked) asked)

  on_records-asked :
      (r : Round) (records : List Record) (cached : Option (List Record)) (s : Loop) (x : Record)
      → IsSearching r
      → Mem x records
      → is_endpoint x.pub_key ≡ true
      → Mem (joining (x.pub_key ∷ [])) (on_records C is_endpoint b r records cached s).joins
  unfolding on_records
  on_records-asked r [] cached s x h m valid = absurd m
  on_records-asked r (y ∷ ys) cached s x h m valid =
      join_found-asked r (y ∷ ys) cached s x.pub_key h (bootstrap_nodes-author (y ∷ ys) x m valid)

  -- If nothing ends a round before it has asked all the peers that it knows, and one of its two
  -- fetches gets a record of an author with a valid key, then the round asks that author to join.
  pub round-asked :
      (r : Round) (s : Loop) (f : Fetch) (unix_minute : ℕ) (x : Record)
      → IsSearching r
      → Looks r s f unix_minute
      → Mem x (fetch C is_endpoint b f unix_minute)
      → is_endpoint x.pub_key ≡ true
      → Mem (joining (x.pub_key ∷ [])) (round C is_endpoint b r s).joins
  unfolding round look
  round-asked r s f m x h l there valid =
      let q = joining (x.pub_key ∷ []) in
      uncut-asked q r.is_cancelled _ _ h.on (
        alone-asked q r.is_joined_first s _ h.alone_first
          (on_records-asked r _ _ s x h (in_one l) valid))
    where
      in_one :
          Looks r s f m
          → Mem x (
              fetch C is_endpoint b r.older
                (r.now - ((if looks_back C is_endpoint b s then 1 else 0) + 1))
              ++ fetch C is_endpoint b r.current
                  (r.now - (if looks_back C is_endpoint b s then 1 else 0)))
      in_one (for_older e n) = Mem-append_left x _ _ (
          subst (λ k. Mem x (fetch C is_endpoint b r.older k)) n
            (subst (λ g. Mem x (fetch C is_endpoint b g m)) e there))
      in_one (for_current e n) = Mem-append_right x (fetch C is_endpoint b r.older _) _ (
          subst (λ k. Mem x (fetch C is_endpoint b r.current k)) n
            (subst (λ g. Mem x (fetch C is_endpoint b g m)) e there))
