-- ===== src/Sessions/Tests.antt =====
-- The sweep at two sessions, one of them idle for longer than its limit.
use local_llms.Base.{◌≡◌, refl, none, [], ◌∷◌, ◌++◌, codes, length}
use local_llms.Sessions.{Host, sweep, transports}
use local_llms.Sessions.Sweep.{fresh, stale, gauge_after, sweep_lem}

abbrev host : Host
host = record {
  session_map =
      (codes "a", record { transport = 1; last_activity_at = 0 })
      ∷ (codes "b", record { transport = 2; last_activity_at = 9000 })
      ∷ [];
  closed = [];
  active_sessions = none;
}

sweep_lem_example :
    ((sweep 10000 5 host).session_map ≡ fresh 10000 5 host.session_map)
    × ((sweep 10000 5 host).closed ≡ host.closed ++ transports (stale 10000 5 host.session_map))
    × ((sweep 10000 5 host).active_sessions
        ≡ gauge_after
            (stale 10000 5 host.session_map)
            (length (fresh 10000 5 host.session_map))
            none)
sweep_lem_example = sweep_lem 10000 5 host (refl, (refl, tt))

one_left :
    fresh 10000 5 host.session_map
    ≡ (codes "b", record { transport = 2; last_activity_at = 9000 }) ∷ []
one_left = refl
