-- ===== src/Tests/Bootstrapping.antt =====
-- Runs of the bootstrap, and its theorems at concrete inputs.
use distributed_topic_tracke.Prelude.{
  ◌+◌, ◌*◌, ◌≤◌, length, suc, ◌≡◌, refl, inr, true, false, none, some, List, [], ◌∷◌, Bytes, All,
  arith, ok,
}
use distributed_topic_tracke.Config.Duration.{from_millis}
use distributed_topic_tracke.Config.Bootstrapping.{default as bootstrap_default}
use distributed_topic_tracke.Crypto.Publisher.{before, never, get_records, select}
use distributed_topic_tracke.Gossip.Sender.{done}
use distributed_topic_tracke.Gossip.Rounds.{
  cancelled, leave, BootstrapActor, Loop, elapsed, woken, Fetch, Attempt, Round, check, wait,
}
use distributed_topic_tracke.Gossip.Bootstrap.{
  confirm_join, conclude, run, start, result, round, look, looks_back, fetch, on_records,
  announce_alone, announce_once,
}
use distributed_topic_tracke.Gossip.Bootstrap.Trace.{IsOrderly, Trace, run-Trace}
use distributed_topic_tracke.Gossip.Bootstrap.Asking.{AsksOther, bootstrap_asks}
use distributed_topic_tracke.Gossip.Bootstrap.Minutes.{IsClock, IsDescending, bootstrap_minutes}
use distributed_topic_tracke.Gossip.Bootstrap.Reporting.{IsEnding, bootstrap_result}
use distributed_topic_tracke.Gossip.Bootstrap.Pausing.{total, run_pauses}
use distributed_topic_tracke.Tests.Toy.{toy}
use distributed_topic_tracke.Tests.Network.{node, fresh, world}
use distributed_topic_tracke.Tests.Merging.{brief, any_key, note_world}

-- A node with the default settings.
abbrev pub booting : BootstrapActor
booting = record { record_publisher = node 2; config = bootstrap_default }

abbrev no_fetch : Fetch
no_fetch = record { world = world; actor = fresh; cut = before }

-- A request that is sent and followed by no connection.
abbrev attempt : Bytes → Attempt
attempt key = record { outcome = done; settle = elapsed; is_joined = ok false }

-- A round in which both fetches are cut.
abbrev pub lonely : Round
lonely = record {
  is_cancelled = false;
  is_joined_first = ok false;
  now = 300;
  older = no_fetch;
  current = no_fetch;
  order = λ keys. keys;
  is_joined_before = ok false;
  attempt = attempt;
  is_joined_after = ok false;
  confirm = elapsed;
  is_joined_last = ok false;
  pause = woken;
}

-- A round that finds the node joined.
abbrev pub joined : Round
joined = record lonely { is_joined_first = ok true; now = 301 }

-- A round in which the DHT has the note.
abbrev meeting : Round
meeting = record lonely {
  current = record { world = note_world; actor = fresh; cut = never };
  is_joined_after = ok true;
}

abbrev rounds : List Round
rounds = lonely ∷ meeting ∷ joined ∷ []

-- The loop after it published for minute 300.
abbrev pub looping : Loop
looping = record {
  last_published_unix_minute = 300;
  is_joined_ret = false;
  publications = [];
  joins = [];
  sleeps = [];
  running = true;
}

pub lonely_round : (run brief any_key booting (lonely ∷ []) looping).running ≡ true
unfolding run round check look looks_back fetch get_records select on_records announce_alone
    announce_once wait bootstrap_default
lonely_round = refl

-- The neighbour that a request reached is lost before the last check, and then the bootstrap is
-- cancelled: it still reports success.
abbrev dropped : Round
dropped = record lonely { pause = cancelled }

stale_join :
    result (
      confirm_join brief any_key booting
        (ok true)
        dropped
        none
        (record looping { is_joined_ret = true }))
    ≡ some (ok tt)
unfolding result confirm_join conclude check announce_once wait leave
stale_join = refl

rounds-IsOrderly : All IsOrderly rounds
rounds-IsOrderly = (λ keys key m. m, (λ keys key m. m, (λ keys key m. m, tt)))

run-Trace_example :
    Trace brief any_key booting rounds looping (run brief any_key booting rounds looping)
run-Trace_example = run-Trace brief any_key booting rounds looping rounds-IsOrderly

bootstrap_asks_example :
    All
      (AsksOther brief any_key booting)
      (run brief any_key booting rounds (start brief any_key booting 300)).joins
bootstrap_asks_example = bootstrap_asks brief any_key booting 300 rounds rounds-IsOrderly

rounds-IsClock : IsClock 300 rounds
rounds-IsClock = (omega arith, (omega arith, (omega arith, tt)))

bootstrap_minutes_example :
    IsDescending
      (suc
        (run brief any_key booting rounds
          (start brief any_key booting 300)).last_published_unix_minute)
      (run brief any_key booting rounds (start brief any_key booting 300)).publications
unfolding bootstrap_default
bootstrap_minutes_example =
    bootstrap_minutes brief any_key booting 300 rounds (inr refl) rounds-IsClock rounds-IsOrderly

bootstrap_result_example :
    IsEnding brief any_key booting rounds
      (start brief any_key booting 300)
      (result (run brief any_key booting rounds (start brief any_key booting 300)))
bootstrap_result_example = bootstrap_result brief any_key booting 300 rounds rounds-IsOrderly

run_pauses_example :
    from_millis 1500 * length (lonely ∷ []) + total looping.sleeps
    ≤ total (run brief any_key booting (lonely ∷ []) looping).sleeps
unfolding bootstrap_default
run_pauses_example =
    run_pauses brief any_key booting (from_millis 1500) (lonely ∷ []) looping (omega arith)
      (omega arith) lonely_round
