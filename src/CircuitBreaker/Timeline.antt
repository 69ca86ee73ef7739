-- ===== src/CircuitBreaker/Timeline.antt =====
-- How the breaker of router/src/resilience/circuitBreaker.ts answers over time once it is open.
use local_llms.Base.{
  ℕ, ◌+◌, ◌*◌, ◌≤◌, ◌<◌, ◌≡◌, refl, ◌∙◌, none, some, Text, codes, leb, ltb, if◌then◌else◌, arith,
  Bool-cases, Option-cases, inl, inr, ltb→lt,
}
use local_llms.Valkey.{Valkey, Value, text, number}
use local_llms.CircuitBreaker.Keys.{state, probe_at, probe_lock, key}
use local_llms.CircuitBreaker.{
  BreakerState, closed, opened, half_open, Config, probe_lock_ttl_ms, check, after_lock,
}

module _ (db : Valkey) (cfg : Config) where
  open db use {Store, entry}

  -- The breaker of `b` was opened at `t0`.
  pub record IsOpen (b : Text) (t0 : ℕ) (s : Store) : Type 0 where
    pub state_entry :
        entry s (key state b) ≡ some (text (codes "open"), some (t0 + cfg.cooldown_ms * 2))
    pub probe_at_entry :
        entry s (key probe_at b)
        ≡ some (number (t0 + cfg.cooldown_ms), some (t0 + cfg.cooldown_ms * 2))

  get_live :
      (t at : ℕ) (k : Text) (v : Value) (s : Store)
      → entry s k ≡ some (v, some at)
      → t < at
      → db.get t k s ≡ some v
  get_live t at k v s e h = simp (db.get_lem, e) (ground arith)

  get_expired :
      (t at : ℕ) (k : Text) (v : Value) (s : Store)
      → entry s k ≡ some (v, some at)
      → at ≤ t
      → db.get t k s ≡ none
  get_expired t at k v s e h = simp (db.get_lem, e) (ground arith)

  -- What a check sees of an open breaker before its state key expires.
  check_of_IsOpen :
      (b : Text) (t0 t : ℕ) (s : Store)
      → IsOpen b t0 s
      → t < t0 + cfg.cooldown_ms * 2
      → check db cfg b t s ≡ (
          if leb (t0 + cfg.cooldown_ms) t
          then after_lock db cfg b t
              (db.set_nx_px t (key probe_lock b) (number t) (probe_lock_ttl_ms cfg) s)
          else (s, opened))
  unfolding check
  check_of_IsOpen b t0 t s o h =
      simp
        (
          get_live t _ (key state b) _ s o.state_entry h,
          get_live t _ (key probe_at b) _ s o.probe_at_entry h,
        )
        refl

  -- The store after a check that became the probe.
  abbrev pub probing : Text → ℕ → Store → Store
  probing b t s =
      db.set_px t (key state b) (text (codes "half-open")) (cfg.cooldown_ms * 2)
        (db.set_px t (key probe_lock b) (number t) (probe_lock_ttl_ms cfg) s)

  -- The answer to a check by the time that has passed since the breaker was opened at `t0`.
  abbrev pub timeline : Text → ℕ → ℕ → Store → Store × BreakerState
  timeline b t0 t s =
      let probe : Store × BreakerState = (probing b t s, half_open) in
      if ltb t (t0 + cfg.cooldown_ms)
      then (s, opened)
      else if ltb t (t0 + cfg.cooldown_ms * 2)
      then elim (db.get t (key probe_lock b) s) [ none ↦ probe | some _ ↦ (s, opened) ]
      else (s, closed)

  pub check_expired :
      (b : Text) (t : ℕ) (s : Store)
      → db.get t (key state b) s ≡ none
      → check db cfg b t s ≡ (s, closed)
  unfolding check
  check_expired b t s h = simp h refl

  after_lock-timeline :
      (b : Text) (t : ℕ) (s : Store)
      → after_lock db cfg b t
          (db.set_nx_px t (key probe_lock b) (number t) (probe_lock_ttl_ms cfg) s)
        ≡ (let probe : Store × BreakerState = (probing b t s, half_open) in
            elim (db.get t (key probe_lock b) s) [ none ↦ probe | some _ ↦ (s, opened) ])
  unfolding after_lock
  after_lock-timeline b t s = elim (Option-cases (db.get t (key probe_lock b) s)) [
    | inl e ↦ simp (db.set_nx_px_lem, e) refl
    | inr (v, e) ↦ simp (db.set_nx_px_lem, e) refl
  ]

  -- A breaker opened at `t0`, with the entries that opening writes: until the cooldown is over a
  -- check answers open; then, until the state key expires, a check becomes the probe if the probe
  -- lock is free and answers open if it is held; after that it answers closed. Only a check that
  -- becomes the probe changes the store.
  pub check-timeline :
      (b : Text) (t0 t : ℕ) (s : Store) → IsOpen b t0 s → check db cfg b t s ≡ timeline b t0 t s
  check-timeline b t0 t s o = elim (Bool-cases (ltb t (t0 + cfg.cooldown_ms * 2))) [
    | inl early ↦
        check_of_IsOpen b t0 t s o (ltb→lt _ _ early)
        ∙ rw (after_lock-timeline b t s) (ground arith)
    | inr late ↦
        check_expired b t s (get_expired t _ (key state b) _ s o.state_entry (ground arith))
        ∙ ground arith
  ]
