-- ===== src/CircuitBreaker/Tests.antt =====
-- The theorems of the circuit breaker at a table as the server, and runs of it.
use local_llms.Base.{ℕ, ◌≡◌, refl, inr, true, ◌↔◌, none, some, List, [], ◌∷◌, Text, codes, arith}
use local_llms.Valkey.Table.{Table, table}
use local_llms.CircuitBreaker.Keys.{key}
use local_llms.CircuitBreaker.Trip.{
  Thrown, connection_error, connection_timeout, object, is_breaker_trip,
}
use local_llms.CircuitBreaker.Trip.Counts.{Counts, connection, timeout, is_breaker_trip_iff}
use local_llms.CircuitBreaker.{
  closed, opened, half_open, Config, check, record_failure, record_success,
}
use local_llms.CircuitBreaker.Timeline.{IsOpen, timeline, check-timeline}
use local_llms.CircuitBreaker.Isolation.{Call, checks, succeeds, fails}
use local_llms.CircuitBreaker.Probe.{probes_granted, single_probe, straggler_grants_probe}
use local_llms.CircuitBreaker.Threshold.{record_failures, failures_reach_threshold}

breaker : Unit {0}
unfolding check record_failure record_success key is_breaker_trip record_failures
breaker = tt

abbrev three : Config
three = record { failure_threshold = 3; window_ms = 30000; cooldown_ms = 30000 }

abbrev cloud : Text
cloud = codes "ollama-cloud"

abbrev local : Text
local = codes "ollama"

abbrev blank : Table
blank k = none

abbrev two_failures : List (ℕ × Thrown)
two_failures = (5, connection_error) ∷ (9, connection_timeout) ∷ []

abbrev tripped : Table
tripped = record_failures table three cloud ((0, connection_error) ∷ two_failures) blank

answers :
    ((check table three cloud 9 tripped).1 ≡ opened)
    × ((check table three cloud 30009 tripped).1 ≡ half_open)
    × ((check table three cloud 60009 tripped).1 ≡ closed)
    × ((check table three local 9 tripped).1 ≡ closed)
unfolding breaker
answers = (refl, refl, refl, refl)

failures_reach_threshold_example : IsOpen table three cloud 9 tripped
failures_reach_threshold_example =
    failures_reach_threshold table three cloud 0 9 connection_error connection_timeout
      ((5, connection_error) ∷ []) blank refl refl connection ((omega arith, connection), tt)
      (omega arith, timeout) refl

tripped-IsOpen : IsOpen table three cloud 9 tripped
unfolding breaker
tripped-IsOpen = record { state_entry = refl; probe_at_entry = refl }

check-timeline_example :
    check table three cloud 30009 tripped ≡ timeline table three cloud 9 30009 tripped
check-timeline_example = check-timeline table three cloud 9 30009 tripped tripped-IsOpen

abbrev probed : Table
probed = (check table three cloud 30009 tripped).0

abbrev others : List Call
others = fails local 40 connection_error ∷ checks local 41 ∷ succeeds local 42 ∷ []

is_breaker_trip_iff_example :
    (is_breaker_trip (object (some 503) none none) ≡ true) ↔ Counts (object (some 503) none none)
is_breaker_trip_iff_example = is_breaker_trip_iff (object (some 503) none none)

single_probe_example :
    probes_granted table three cloud probed
      (checks cloud 30010 ∷ fails local 30011 connection_error ∷ checks cloud 90000 ∷ [])
    ≡ 0
unfolding breaker
single_probe_example =
    single_probe table three cloud 30009 tripped
      (checks cloud 30010 ∷ fails local 30011 connection_error ∷ checks cloud 90000 ∷ []) refl
      (omega arith, (inr refl, (omega arith, tt)))

straggler_grants_probe_example :
    probes_granted table three cloud tripped
      (checks cloud 30009 ∷ fails cloud 30500 connection_error ∷ checks cloud 60500 ∷ [])
    ≡ 2
unfolding breaker
straggler_grants_probe_example =
    straggler_grants_probe table three cloud 30009 30500 60500 connection_error tripped connection
      refl (omega arith) (omega arith) (omega arith)
