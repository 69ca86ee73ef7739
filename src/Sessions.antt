-- ===== src/Sessions.antt =====
-- The sweep of idle MCP sessions and their closing at shutdown (router/src/mcp/host/session-gc.ts).
-- The session map is the list of its entries in the order of their insertion.
pub mod Sweep
mod Tests
use local_llms.Base.{
  ℕ, ◌-◌, ◌*◌, Bool, true, false, Option, none, some, List, [], ◌∷◌, ◌++◌, Text, text_eq, length,
  ltb, if◌then◌else◌,
}

-- A transport is a number.
pub record SessionEntry : Type 0 where
  pub transport : ℕ
  pub last_activity_at : ℕ

-- The map, the transports of which `close` has been called, and the gauge of active sessions once it
-- has been set.
pub record Host : Type 0 where
  pub session_map : List (Text × SessionEntry)
  pub closed : List ℕ
  pub active_sessions : Option ℕ

-- `now - entry.lastActivityAt > ttlMs`; a negative difference is not above the limit either.
abbrev pub is_stale : ℕ → ℕ → SessionEntry → Bool
is_stale now ttl_sec entry = ltb (ttl_sec * 1000) (now - entry.last_activity_at)

pub stale_ids : ℕ → ℕ → List (Text × SessionEntry) → List Text
stale_ids now ttl_sec [] = []
stale_ids now ttl_sec ((sid, entry) ∷ rest) =
    let others = stale_ids now ttl_sec rest in
    if is_stale now ttl_sec entry then sid ∷ others else others

-- `Map.get`.
pub get_session : Text → List (Text × SessionEntry) → Option SessionEntry
get_session sid [] = none
get_session sid ((k, entry) ∷ rest) = if text_eq k sid then some entry else get_session sid rest

-- `Map.delete`.
pub delete_session : Text → List (Text × SessionEntry) → List (Text × SessionEntry)
delete_session sid [] = []
delete_session sid ((k, entry) ∷ rest) =
    let others = delete_session sid rest in if text_eq k sid then rest else (k, entry) ∷ others

close_found : Text → Host → Option SessionEntry → Host
unfolding delete_session
close_found sid host none = host
close_found sid host (some entry) = record host {
  session_map = delete_session sid host.session_map;
  closed = host.closed ++ entry.transport ∷ [];
}

-- The second loop of the sweep.
pub close_all : List Text → Host → Host
unfolding get_session close_found
close_all [] host = host
close_all (sid ∷ sids) host =
    close_all sids (close_found sid host (get_session sid host.session_map))

abbrev after_sweep : List Text → Host → Host
after_sweep [] host = host
after_sweep (sid ∷ sids) host = record host { active_sessions = some (length host.session_map) }

-- The callback of the interval.
pub sweep : ℕ → ℕ → Host → Host
unfolding stale_ids close_all
sweep now ttl_sec host =
    let stale = stale_ids now ttl_sec host.session_map in after_sweep stale (close_all stale host)

abbrev pub transports : List (Text × SessionEntry) → List ℕ
transports [] = []
transports ((sid, entry) ∷ rest) = entry.transport ∷ transports rest

-- `shutdownSessions` up to its end, whichever side wins the race.
pub shutdown_sessions : Host → Host
shutdown_sessions host = record host {
  session_map = [];
  closed = host.closed ++ transports host.session_map;
}
