-- ===== src/Config/Duration.antt =====
-- `std::time::Duration` as a number of nanoseconds.
use distributed_topic_tracke.Prelude.{ℕ, ◌*◌}

abbrev pub Duration : Type 0
Duration = ℕ

abbrev pub from_secs : ℕ → Duration
from_secs n = n * 1_000_000_000

abbrev pub from_millis : ℕ → Duration
from_millis n = n * 1_000_000
