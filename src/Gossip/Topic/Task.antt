-- ===== src/Gossip/Topic/Task.antt =====
-- What the task that `new` starts leaves behind.
use distributed_topic_tracke.Prelude.{
  ◌≡◌, ◌≢◌, refl, sym, ◌∙◌, Bool, true, false, Option, none, some, Result, ok, err, panic, arith,
  true≢false,
}
use distributed_topic_tracke.Gossip.Topic.{Calls}
use distributed_topic_tracke.Gossip.Topic.Lifetime.{
  Topic, holders, cancel, spawn_or_cancel, wait_for_bootstrap, background_after, background,
}
use distributed_topic_tracke.Gossip.Topic.Creation.{
  IsSpawned, spawned, unspawned, spawn_or_cancel-IsSpawned,
}

-- What the task leaves, from what it waited for: it changes neither who holds the topic nor a token
-- that is cancelled already.
pub record IsTask (async_bootstrap : Bool) (bootstrap_done : Option (Result (Unit {0})))
    (calls : Calls) (t u : Topic) : Type 0 where
  pub held : holders u ≡ holders t
  pub kept : t.is_cancelled ≡ true → u.is_cancelled ≡ true
  pub failed : bootstrap_done ≢ some (ok tt) → u ≡ cancel t
  pub waited : bootstrap_done ≡ some (ok tt) → async_bootstrap ≡ false → u ≡ t
  pub spawning :
      bootstrap_done ≡ some (ok tt)
      → async_bootstrap ≡ true
      → IsSpawned calls t ((spawn_or_cancel calls t).0, u)

spawned_holders :
    (calls : Calls) (t : Topic) (done : Result (Unit {0}) × Topic)
    → IsSpawned calls t done
    → (holders done.1 ≡ holders t) × (t.is_cancelled ≡ true → done.1.is_cancelled ≡ true)
unfolding holders
spawned_holders calls t (x, u) (spawned on still i j k started) =
    (ground arith, λ off. absurd (true≢false (sym off ∙ on)))
spawned_holders calls t (x, u) (unspawned bad off i j k) = (ground arith, λ h. off)

cancelled-IsTask :
    (b : Bool) (o : Option (Result (Unit {0}))) (calls : Calls) (t : Topic)
    → o ≢ some (ok tt)
    → IsTask b o calls t (cancel t)
unfolding cancel holders
cancelled-IsTask b o calls t bad = record {
  held = refl;
  kept = λ h. refl;
  failed = λ h. refl;
  waited = λ h. absurd (bad h);
  spawning = λ h. absurd (bad h);
}

-- The task that a creation starts cancels the token if the bootstrap fails or ends without an
-- answer. If the bootstrap succeeds, it does nothing in the synchronous mode, and in the asynchronous
-- mode it cancels the token, or starts the workers that the configuration enables, except those that
-- the bootstrap does not hand out what they need and whose failure the configuration tolerates. It
-- never changes who holds the topic, and never undoes a cancellation.
pub background-IsTask :
    (async_bootstrap : Bool) (bootstrap_done : Option (Result (Unit {0}))) (calls : Calls)
    (t : Topic)
    → IsTask async_bootstrap bootstrap_done calls t
        (background async_bootstrap bootstrap_done calls t)
unfolding background wait_for_bootstrap background_after
background-IsTask b none calls t = cancelled-IsTask b none calls t (λ h. cc)
background-IsTask b (some (err e)) calls t = cancelled-IsTask b _ calls t (λ h. cc)
background-IsTask b (some panic) calls t = cancelled-IsTask b _ calls t (λ h. cc)
background-IsTask false (some (ok done)) calls t = record {
  held = refl;
  kept = λ h. h;
  failed = λ h. absurd (h refl);
  waited = λ h k. refl;
  spawning = λ h k. cc;
}
background-IsTask true (some (ok done)) calls t =
    let s = spawn_or_cancel-IsSpawned calls t in
    let (held, kept) = spawned_holders calls t (spawn_or_cancel calls t) s in
    record {
      held = held;
      kept = kept;
      failed = λ h. absurd (h refl);
      waited = λ h k. cc;
      spawning = λ h k. s;
    }
