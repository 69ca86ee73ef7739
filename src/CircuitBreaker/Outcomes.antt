-- ===== src/CircuitBreaker/Outcomes.antt =====
-- What the outcome of a call does to the breaker of router/src/resilience/circuitBreaker.ts.
use local_llms.Base.{
  ℕ, ◌≡◌, refl, inl, inr, true, none, some, Text, codes, text_eq_refl, Bool-cases,
}
use local_llms.Valkey.{Valkey, text}
use local_llms.CircuitBreaker.Keys.{fail_count, state, probe_at, probe_lock, key, key_eq}
use local_llms.CircuitBreaker.Trip.{Thrown, is_breaker_trip}
use local_llms.CircuitBreaker.Trip.Counts.{Counts, trip-Counts, is_breaker_trip_of_Counts}
use local_llms.CircuitBreaker.{
  closed, Config, check, record_failure, record_success, reset, open_breaker,
}
use local_llms.CircuitBreaker.Timeline.{IsOpen, check_expired}

module _ (db : Valkey) (cfg : Config) where
  open db use {Store, entry}

  pub open_breaker-IsOpen :
      (b : Text) (t : ℕ) (s : Store) → IsOpen db cfg b t (open_breaker db cfg b t s)
  unfolding open_breaker
  open_breaker-IsOpen b t s = record {
    state_entry = simp (db.entry-set_px, key_eq, text_eq_refl);
    probe_at_entry = simp (db.entry-set_px, key_eq, text_eq_refl);
  }

  IsOpen-del_lock :
      (b : Text) (t : ℕ) (s : Store)
      → IsOpen db cfg b t s
      → IsOpen db cfg b t (db.del (key probe_lock b) s)
  IsOpen-del_lock b t s o = record {
    state_entry = simp (db.entry-del, key_eq) o.state_entry;
    probe_at_entry = simp (db.entry-del, key_eq) o.probe_at_entry;
  }

  -- A failure that counts, recorded while the breaker is half-open, opens it for a new cooldown
  -- from the time of the record and frees the probe lock. It does not matter whose call failed.
  pub probe_failure_reopens :
      (b : Text) (t : ℕ) (err : Thrown) (s : Store)
      → Counts err
      → db.get t (key state b) s ≡ some (text (codes "half-open"))
      → ((record_failure db cfg b t err s).1 ≡ true)
        × IsOpen db cfg b t (record_failure db cfg b t err s).0
        × (entry (record_failure db cfg b t err s).0 (key probe_lock b) ≡ none)
  unfolding record_failure
  probe_failure_reopens b t err s c h =
      simp (is_breaker_trip_of_Counts c, h)
        (
          refl,
          IsOpen-del_lock b t _ (open_breaker-IsOpen b t s),
          simp (db.entry-del, key_eq, text_eq_refl),
        )

  -- An error that does not count changes nothing, whatever the state.
  pub record_failure_ignored :
      (b : Text) (t : ℕ) (err : Thrown) (s : Store)
      → ¬ Counts err
      → record_failure db cfg b t err s ≡ (s, true)
  unfolding record_failure
  record_failure_ignored b t err s n = elim (Bool-cases (is_breaker_trip err)) [
    | inl e ↦ absurd (n (trip-Counts err e))
    | inr e ↦ rw e
  ]

  check_of_reset :
      (b : Text) (t : ℕ) (s : Store)
      → check db cfg b t (reset db cfg b s) ≡ (reset db cfg b s, closed)
  unfolding reset
  check_of_reset b t s =
      check_expired db cfg b t _ (simp (db.get_lem, db.entry-del, key_eq, text_eq_refl))

  -- A success recorded while the breaker is half-open removes its four keys, so that every
  -- later check of it answers closed.
  pub probe_success_closes :
      (b : Text) (t t' : ℕ) (s : Store)
      → db.get t (key state b) s ≡ some (text (codes "half-open"))
      → (entry (record_success db cfg b t s) (key state b) ≡ none)
        × (entry (record_success db cfg b t s) (key fail_count b) ≡ none)
        × (entry (record_success db cfg b t s) (key probe_at b) ≡ none)
        × (entry (record_success db cfg b t s) (key probe_lock b) ≡ none)
        × (check db cfg b t' (record_success db cfg b t s) ≡ (record_success db cfg b t s, closed))
  unfolding record_success reset
  probe_success_closes b t t' s h =
      simp (h, db.entry-del, key_eq, text_eq_refl) (refl, refl, refl, refl, check_of_reset b t' s)
