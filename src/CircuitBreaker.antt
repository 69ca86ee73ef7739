-- ===== src/CircuitBreaker.antt =====
-- The per-backend circuit breaker of router/src/resilience/circuitBreaker.ts over the Valkey
-- server. The commands of one call run one after the other, at the time `t` of the call; server
-- and router read one clock, and no command fails to reach the server.
pub mod Keys
pub mod Trip
pub mod Timeline
pub mod Outcomes
pub mod Isolation
pub mod Probe
pub mod Threshold
mod Tests
use local_llms.Base.{
  ℕ, suc, ◌+◌, ◌*◌, max, Bool, true, false, Option, none, some, Text, String, [], codes, text_eq,
  leb, ◌==◌, if◌then◌else◌,
}
use local_llms.Valkey.{Valkey, Value, text, number}
use Keys.{fail_count, state, probe_at, probe_lock, key}
use Trip.{Thrown, is_breaker_trip}

pub data BreakerState : Type 0 where
  closed opened half_open : BreakerState

pub record Config : Type 0 where
  pub failure_threshold : ℕ
  pub window_ms : ℕ
  pub cooldown_ms : ℕ

-- CLOUD_ADAPTER_TIMEOUT_MS of router/src/config/constants.ts.
abbrev pub cloud_adapter_timeout_ms : ℕ
cloud_adapter_timeout_ms = 120000

abbrev pub probe_lock_ttl_ms : Config → ℕ
probe_lock_ttl_ms cfg = max cfg.cooldown_ms cloud_adapter_timeout_ms

abbrev is_text : String → Value → Bool
is_text s (text v) = text_eq v (codes s)
is_text s (number n) = false

-- `!stateRaw`: absent, or the empty string.
abbrev present : Option Value → Option Value
present none = none
present (some (text [])) = none
present (some v) = some v

-- `t >= (probeAtRaw ? Number(probeAtRaw) : 0)`; a text that is no number compares as NaN does.
-- Texts that `Number` would read as well, such as `12.5`, are never written under this key.
abbrev cooled_down : ℕ → Option Value → Bool
cooled_down t none = true
cooled_down t (some (number n)) = leb n t
cooled_down t (some (text s)) = false

module _ (db : Valkey) (cfg : Config) where
  open db use {Store, get, set_px, set_nx_px, del, incr, pexpire}

  -- What follows the reply to SET NX.
  after_lock : Text → ℕ → Store × Bool → Store × BreakerState
  after_lock backend t (s, true) =
      (set_px t (key state backend) (text (codes "half-open")) (cfg.cooldown_ms * 2) s, half_open)
  after_lock backend t (s, false) = (s, opened)

  -- The branches of `check` on the value of the state key.
  decide : Text → ℕ → Option Value → Option Value → Store → Store × BreakerState
  unfolding after_lock
  decide backend t none probe_at_raw s = (s, closed)
  decide backend t (some state_raw) probe_at_raw s =
      if is_text "open" state_raw
      then if cooled_down t (present probe_at_raw)
        then after_lock backend t
            (set_nx_px t (key probe_lock backend) (number t) (probe_lock_ttl_ms cfg) s)
        else (s, opened)
      else if is_text "half-open" state_raw
      then (s, opened)
      else (s, closed)

  pub check : Text → ℕ → Store → Store × BreakerState
  unfolding decide
  check backend t s =
      decide backend t (present (get t (key state backend) s)) (get t (key probe_at backend) s) s

  -- SET state 'open' and SET probe_at.
  pub open_breaker : Text → ℕ → Store → Store
  open_breaker backend t s =
      set_px t (key probe_at backend) (number (t + cfg.cooldown_ms)) (cfg.cooldown_ms * 2)
        (set_px t (key state backend) (text (codes "open")) (cfg.cooldown_ms * 2) s)

  -- What follows the reply to INCR; an error reply rejects the call.
  count_failure : Text → ℕ → Store × Option ℕ → Store × Bool
  unfolding open_breaker
  count_failure backend t (s, none) = (s, false)
  count_failure backend t (s, some count) =
      let windowed = if count == 1 then pexpire t (key fail_count backend) cfg.window_ms s else s in
      (if leb cfg.failure_threshold count then open_breaker backend t windowed else windowed, true)

  is_half_open : Option Value → Bool
  is_half_open none = false
  is_half_open (some v) = is_text "half-open" v

  -- The flag is whether the promise is fulfilled.
  pub record_failure : Text → ℕ → Thrown → Store → Store × Bool
  unfolding count_failure is_half_open
  record_failure backend t err s =
      if is_breaker_trip err
      then if is_half_open (get t (key state backend) s)
        then (del (key probe_lock backend) (open_breaker backend t s), true)
        else count_failure backend t (incr t (key fail_count backend) s)
      else (s, true)

  pub reset : Text → Store → Store
  reset backend s =
      del (key probe_lock backend)
        (del (key probe_at backend) (del (key fail_count backend) (del (key state backend) s)))

  pub record_success : Text → ℕ → Store → Store
  unfolding reset is_half_open
  record_success backend t s =
      if is_half_open (get t (key state backend) s) then reset backend s else s
