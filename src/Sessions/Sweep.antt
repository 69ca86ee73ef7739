-- ===== src/Sessions/Sweep.antt =====
-- What a sweep of router/src/mcp/host/session-gc.ts closes and keeps.
use local_llms.Base.{
  ltb, ◌*◌, ◌-◌, text_eq_comm, ℕ, ◌≡◌, refl, sym, ap, ◌∙◌, subst, false, Option, some, List, [],
  ◌∷◌, ◌++◌, append_assoc, append-nil, Text, text_eq, text_eq_refl, includes_text, length,
  if◌then◌else◌, Bool-cases, inl, inr, arith,
}
use local_llms.Sessions.{
  SessionEntry, Host, is_stale, stale_ids, get_session, delete_session, close_found, close_all,
  after_sweep, sweep, transports,
}

abbrev ids : List (Text × SessionEntry) → List Text
ids [] = []
ids ((sid, entry) ∷ rest) = sid ∷ ids rest

-- The ids of a map differ.
abbrev pub HasDistinctIds : List (Text × SessionEntry) → Type 0
HasDistinctIds [] = Unit
HasDistinctIds ((sid, entry) ∷ rest) = (includes_text sid (ids rest) ≡ false) × HasDistinctIds rest

-- The entries that a sweep keeps, and those that it closes: without activity for more than the time
-- to live.
abbrev pub fresh : ℕ → ℕ → List (Text × SessionEntry) → List (Text × SessionEntry)
fresh now ttl_sec [] = []
fresh now ttl_sec ((sid, entry) ∷ rest) =
    let others = fresh now ttl_sec rest in
    if ltb (ttl_sec * 1000) (now - entry.last_activity_at) then others else (sid, entry) ∷ others

abbrev pub stale : ℕ → ℕ → List (Text × SessionEntry) → List (Text × SessionEntry)
stale now ttl_sec [] = []
stale now ttl_sec ((sid, entry) ∷ rest) =
    let others = stale now ttl_sec rest in
    if ltb (ttl_sec * 1000) (now - entry.last_activity_at) then (sid, entry) ∷ others else others

get_session_behind :
    (sid : Text) (entry : SessionEntry) (before rest : List (Text × SessionEntry))
    → includes_text sid (ids before) ≡ false
    → get_session sid (before ++ ((sid, entry) ∷ rest)) ≡ some entry
unfolding get_session
get_session_behind sid entry [] rest h = ground (arith, text_eq_refl sid)
get_session_behind sid entry ((k, e) ∷ before) rest h =
    ground (arith, get_session_behind sid entry before rest)

delete_session_behind :
    (sid : Text) (entry : SessionEntry) (before rest : List (Text × SessionEntry))
    → includes_text sid (ids before) ≡ false
    → delete_session sid (before ++ ((sid, entry) ∷ rest)) ≡ before ++ rest
unfolding delete_session
delete_session_behind sid entry [] rest h = ground (arith, text_eq_refl sid)
delete_session_behind sid entry ((k, e) ∷ before) rest h =
    ground (arith, delete_session_behind sid entry before rest)

ids_absent :
    (k sid : Text) (entry : SessionEntry) (before rest : List (Text × SessionEntry))
    → includes_text k (ids (before ++ ((sid, entry) ∷ rest))) ≡ false
    → (text_eq sid k ≡ false) × (includes_text k (ids (before ++ rest)) ≡ false)
ids_absent k sid entry [] rest h = ground arith
ids_absent k sid entry ((j, e) ∷ before) rest h = ground (arith, ids_absent k sid entry before rest)

-- Without the entry the ids still differ, and its id is not before it.
without_entry :
    (sid : Text) (entry : SessionEntry) (before rest : List (Text × SessionEntry))
    → HasDistinctIds (before ++ ((sid, entry) ∷ rest))
    → (includes_text sid (ids before) ≡ false) × HasDistinctIds (before ++ rest)
without_entry sid entry [] rest (h, d) = (refl, d)
without_entry sid entry ((k, e) ∷ before) rest (h, d) =
    let (other, absent) = ids_absent k sid entry before rest h in
    let (i, d') = without_entry sid entry before rest d in
    (ground (arith, i, other, text_eq_comm sid k), (absent, d'))

abbrev host_of : List (Text × SessionEntry) → List ℕ → Option ℕ → Host
host_of m closed gauge = record { session_map = m; closed = closed; active_sessions = gauge }

close_all-stale_ids :
    (now ttl : ℕ) (before rest : List (Text × SessionEntry)) (closed : List ℕ) (gauge : Option ℕ)
    → HasDistinctIds (before ++ rest)
    → close_all (stale_ids now ttl rest) (host_of (before ++ rest) closed gauge)
      ≡ host_of (before ++ fresh now ttl rest) (closed ++ transports (stale now ttl rest)) gauge
unfolding close_all stale_ids close_found
close_all-stale_ids now ttl before [] closed gauge d =
    ap (λ c. host_of (before ++ []) c gauge) (sym (append-nil closed))
close_all-stale_ids now ttl before ((sid, entry) ∷ rest) closed gauge d =
    elim (Bool-cases (is_stale now ttl entry)) [
      | inl old ↦
          let (absent, d') = without_entry sid entry before rest d in
          let got = get_session_behind sid entry before rest absent in
          let deleted = delete_session_behind sid entry before rest absent in
          let c = closed ++ entry.transport ∷ [] in
          let sids = stale_ids now ttl rest in
          let host = host_of (before ++ ((sid, entry) ∷ rest)) closed gauge in
          rw old (
            ap (λ o. close_all sids (close_found sid host o)) got
            ∙ ap (λ m. close_all sids (host_of m c gauge)) deleted
            ∙ close_all-stale_ids now ttl before rest c gauge d'
            ∙ ap (λ c. host_of (before ++ fresh now ttl rest) c gauge)
                (append_assoc closed (entry.transport ∷ []) (transports (stale now ttl rest))))
      | inr kept ↦
          let one = (sid, entry) ∷ [] in
          let e = append_assoc before one rest in
          rw kept (
            ap (λ m. close_all (stale_ids now ttl rest) (host_of m closed gauge)) (sym e)
            ∙ close_all-stale_ids now ttl (before ++ one) rest closed gauge
                (subst HasDistinctIds (sym e) d)
            ∙ ap (λ m. host_of m (closed ++ transports (stale now ttl rest)) gauge)
                (append_assoc before one (fresh now ttl rest)))
    ]

-- The gauge after a sweep: the number of sessions that are left, if any was closed.
abbrev pub gauge_after : List (Text × SessionEntry) → ℕ → Option ℕ → Option ℕ
gauge_after [] left gauge = gauge
gauge_after (p ∷ ps) left gauge = some left

after_sweep_lem :
    (now ttl : ℕ) (m : List (Text × SessionEntry)) (host : Host)
    → after_sweep (stale_ids now ttl m) host ≡ record host {
      active_sessions =
          gauge_after (stale now ttl m) (length host.session_map) host.active_sessions;
    }
unfolding stale_ids
after_sweep_lem now ttl [] host = refl
after_sweep_lem now ttl ((sid, entry) ∷ rest) host = elim (Bool-cases (is_stale now ttl entry)) [
  | inl old ↦ rw old refl
  | inr kept ↦ rw kept (after_sweep_lem now ttl rest host)
]

-- If the ids of the sessions differ, a sweep closes the transports of the sessions that had no
-- activity for more than `ttl` seconds, each once and in the order of the map, keeps the other
-- sessions in their order, and sets the gauge to their number if it closed any.
pub sweep_lem :
    (now ttl : ℕ) (host : Host)
    → HasDistinctIds host.session_map
    → ((sweep now ttl host).session_map ≡ fresh now ttl host.session_map)
      × ((sweep now ttl host).closed ≡ host.closed ++ transports (stale now ttl host.session_map))
      × ((sweep now ttl host).active_sessions
          ≡ gauge_after
              (stale now ttl host.session_map)
              (length (fresh now ttl host.session_map))
              host.active_sessions)
unfolding sweep
sweep_lem now ttl host d =
    let m = host.session_map in
    let e = close_all-stale_ids now ttl [] m host.closed host.active_sessions d in
    let after =
      host_of (fresh now ttl m) (host.closed ++ transports (stale now ttl m))
        host.active_sessions in
    let swept = ap (after_sweep (stale_ids now ttl m)) e ∙ after_sweep_lem now ttl m after in
    (ap (λ h. h.session_map) swept, ap (λ h. h.closed) swept, ap (λ h. h.active_sessions) swept)
