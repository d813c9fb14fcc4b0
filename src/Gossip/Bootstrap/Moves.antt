-- ===== src/Gossip/Bootstrap/Moves.antt =====
-- What a bootstrap may do in one round, as a relation on the variables of its loop: it publishes
-- only for a minute that it has not published for, it asks only other nodes, and it says that it is
-- joined, or leaves, only for a reason.
use distributed_topic_tracke.Prelude.{
  ℕ, ◌≡◌, ◌≢◌, Bool, true, false, Option, List, [], ◌∷◌, Bytes, Result, ok, err, Error, Mem,
}
use distributed_topic_tracke.Config.Duration.{Duration}
use distributed_topic_tracke.Crypto.Primitives.{Primitives, Postcard}
use distributed_topic_tracke.Crypto.Record.{Record, sign}
use distributed_topic_tracke.Gossip.Content.{GossipRecordContent}
use distributed_topic_tracke.Gossip.Sender.{Request, joining}
use distributed_topic_tracke.Gossip.Rounds.{BootstrapActor, Loop, Round, cancelled}
use distributed_topic_tracke.Gossip.Bootstrap.{empty_content}

-- `is_joined()` was true at some point of the round.
pub data SaysJoined (r : Round) : Type 0 where
  first : r.is_joined_first ≡ ok true → SaysJoined r
  before : r.is_joined_before ≡ ok true → SaysJoined r
  at_peer : (key : Bytes) → (r.attempt key).is_joined ≡ ok true → SaysJoined r
  last : r.is_joined_last ≡ ok true → SaysJoined r

-- `is_joined()` gave no answer.
pub data IsFailure : Result Bool → Type 0 where
  failure : (e : Error) → IsFailure (err e)
  crash : IsFailure (Result.panic)

-- Why a round ends the loop.
pub data HasReason (r : Round) : Type 0 where
  cut_at_start : r.is_cancelled ≡ true → HasReason r
  joined : SaysJoined r → HasReason r
  first_failed : IsFailure r.is_joined_first → HasReason r
  before_failed : IsFailure r.is_joined_before → HasReason r
  cut_at_peer : (key : Bytes) → (r.attempt key).settle ≡ cancelled → HasReason r
  after_failed : IsFailure r.is_joined_after → HasReason r
  cut_at_confirm : r.confirm ≡ cancelled → HasReason r
  last_failed : IsFailure r.is_joined_last → HasReason r
  cut_at_pause : r.pause ≡ cancelled → HasReason r

-- Where a peer's attempt is what found the node joined, or was cut, that peer had been asked to join.
abbrev pub AskedFor : {r : Round} → SaysJoined r → List Request → Type 0
AskedFor (first e) asked = Unit {0}
AskedFor (before e) asked = Unit {0}
AskedFor (at_peer key e) asked = Mem (joining (key ∷ [])) asked
AskedFor (last e) asked = Unit {0}

abbrev pub IsGrounded : {r : Round} → HasReason r → List Request → Type 0
IsGrounded (cut_at_start e) asked = Unit {0}
IsGrounded (joined says) asked = AskedFor says asked
IsGrounded (first_failed e) asked = Unit {0}
IsGrounded (before_failed e) asked = Unit {0}
IsGrounded (cut_at_peer key e) asked = Mem (joining (key ∷ [])) asked
IsGrounded (after_failed e) asked = Unit {0}
IsGrounded (cut_at_confirm e) asked = Unit {0}
IsGrounded (last_failed e) asked = Unit {0}
IsGrounded (cut_at_pause e) asked = Unit {0}

-- What says that the node is joined, or why the loop ends, at a point where these peers had been asked.
abbrev pub Says : Round → List Request → Type 0
Says r asked = (says : SaysJoined r) × AskedFor says asked

abbrev pub Grounds : Round → List Request → Type 0
Grounds r asked = (reason : HasReason r) × IsGrounded reason asked

-- A key that may be asked: a valid one, and not the node's own.
pub record IsOther (is_endpoint : Bytes → Bool) (own_key key : Bytes) : Type 0 where
  pub valid : is_endpoint key ≡ true
  pub other : key ≢ own_key

module _ ⦃P : Primitives⦄ (C : Postcard GossipRecordContent) (is_endpoint : Bytes → Bool)
    (b : BootstrapActor) where
  -- The node's own record of a minute, with nothing in it.
  abbrev pub IsOwn : ℕ → Record → Type 0
  IsOwn unix_minute record' =
      sign C b.record_publisher.topic_id.hash unix_minute empty_content
        b.record_publisher.signing_key
      ≡ ok record'

  pub data Move (r : Round) (s t : Loop) : Type 0 where
    publishes :
        (a : Record) (cached : Option (List Record))
        → IsOwn r.now a
        → r.now ≢ s.last_published_unix_minute
        → t ≡ record s {
          last_published_unix_minute = r.now;
          publications = (record { announced = a; cached_records = cached }) ∷ s.publications;
        }
        → Move r s t
    -- The record could not be signed.
    passes :
        r.now ≢ s.last_published_unix_minute
        → t ≡ record s { last_published_unix_minute = r.now }
        → Move r s t
    asks :
        (key : Bytes)
        → IsOther is_endpoint b.record_publisher.pub_key key
        → t ≡ record s { joins = joining (key ∷ []) ∷ s.joins }
        → Move r s t
    rests : (d : Duration) → t ≡ record s { sleeps = d ∷ s.sleeps } → Move r s t
    connects : Says r s.joins → t ≡ record s { is_joined_ret = true } → Move r s t
    leaves : Grounds r s.joins → t ≡ record s { running = false } → Move r s t

  -- Moves in a row. Only the last of them may leave the loop.
  pub data Moves (r : Round) (s : Loop) : Loop → Type 0 where
    here : Moves r s s
    more : {t u : Loop} → Moves r s t → t.running ≡ true → Move r t u → Moves r s u

  pub Moves-trans : {r : Round} {s t u : Loop} → Moves r s t → Moves r t u → Moves r s u
  Moves-trans m here = m
  Moves-trans m (more n on o) = more (Moves-trans m n) on o
