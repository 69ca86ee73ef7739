-- ===== src/CircuitBreaker/Threshold.antt =====
-- When the closed breaker of router/src/resilience/circuitBreaker.ts opens.
use local_llms.Base.{
  ℕ, ◌+◌, ◌≤◌, ◌<◌, ◌≡◌, refl, ap, ◌∙◌, subst, true, false, none, some, List, [], ◌∷◌, ◌++◌, Text,
  text_eq_refl, leb, ◌==◌, if◌then◌else◌, arith, length, All,
}
use local_llms.Valkey.{Valkey, live, number, incremented}
use local_llms.CircuitBreaker.Keys.{fail_count, state, key, key_eq}
use local_llms.CircuitBreaker.Trip.{Thrown}
use local_llms.CircuitBreaker.Trip.Counts.{Counts, is_breaker_trip_of_Counts}
use local_llms.CircuitBreaker.{closed, Config, check, record_failure, open_breaker, count_failure}
use local_llms.CircuitBreaker.Timeline.{IsOpen, check_expired}
use local_llms.CircuitBreaker.Outcomes.{open_breaker-IsOpen}

module _ (db : Valkey) (cfg : Config) where
  open db use {Store, entry}

  -- Closed, with `n` failures counted since `start`.
  pub record IsCounting (b : Text) (n start : ℕ) (s : Store) : Type 0 where
    pub count_entry : entry s (key fail_count b) ≡ some (number n, some (start + cfg.window_ms))
    pub state_entry : entry s (key state b) ≡ none

  -- The failures of one backend, in order; each is a time and an error.
  unfoldable pub record_failures : Text → List (ℕ × Thrown) → Store → Store
  record_failures b [] s = s
  record_failures b ((t, err) ∷ fs) s = record_failures b fs (record_failure db cfg b t err s).0

  failure_of_closed :
      (b : Text) (t : ℕ) (err : Thrown) (s : Store)
      → Counts err
      → entry s (key state b) ≡ none
      → record_failure db cfg b t err s ≡ count_failure db cfg b t (db.incr t (key fail_count b) s)
  unfolding record_failure
  failure_of_closed b t err s c e = simp (is_breaker_trip_of_Counts c, db.get_lem, e) refl

  counted :
      (b : Text) (t n : ℕ) (s : Store)
      → (db.incr t (key fail_count b) s).1 ≡ some n
      → count_failure db cfg b t (db.incr t (key fail_count b) s)
        ≡ count_failure db cfg b t ((db.incr t (key fail_count b) s).0, some n)
  counted b t n s e = ap (λ r. count_failure db cfg b t ((db.incr t (key fail_count b) s).0, r)) e

  below : (n : ℕ) → n < cfg.failure_threshold → leb cfg.failure_threshold n ≡ false
  below n h = ground arith

  reached : (n : ℕ) → cfg.failure_threshold ≤ n → leb cfg.failure_threshold n ≡ true
  reached n h = ground arith

  first_failure :
      (b : Text) (t : ℕ) (err : Thrown) (s : Store)
      → Counts err
      → entry s (key state b) ≡ none
      → entry s (key fail_count b) ≡ none
      → 1 < cfg.failure_threshold
      → IsCounting b 1 t (record_failure db cfg b t err s).0
  unfolding count_failure
  first_failure b t err s c e f h =
      rw (failure_of_closed b t err s c e, counted b t 1 s (simp (db.incr_reply, f)), below 1 h)
        record {
          count_entry = simp (db.entry-pexpire, db.entry-incr, key_eq, text_eq_refl, f);
          state_entry = simp (db.entry-pexpire, db.entry-incr, key_eq, e);
        }

  count_live :
      (b : Text) (n start t : ℕ) (s : Store)
      → IsCounting b n start s
      → t < start + cfg.window_ms
      → live t (entry s (key fail_count b)) ≡ some (number n)
  count_live b n start t s k h = simp k.count_entry (ground arith)

  incremented_live :
      (t n at : ℕ)
      → t < at
      → incremented t (some (number n, some at)) ≡ some (number (n + 1), some at)
  incremented_live t n at h = ground arith

  not_first : (n : ℕ) → 0 < n → ((n + 1) == 1) ≡ false
  not_first n h = ground arith

  -- The store after the INCR of a later failure in the window.
  incr-IsCounting :
      (b : Text) (n start t : ℕ) (s : Store)
      → IsCounting b n start s
      → t < start + cfg.window_ms
      → IsCounting b (n + 1) start (db.incr t (key fail_count b) s).0
  incr-IsCounting b n start t s k h = record {
    count_entry =
        db.entry-incr t (key fail_count b) s (key fail_count b)
        ∙ simp (key_eq, text_eq_refl)
            (ap (incremented t) k.count_entry ∙ incremented_live t n (start + cfg.window_ms) h);
    state_entry = simp (db.entry-incr, key_eq, k.state_entry);
  }

  later_failure :
      (b : Text) (n start t : ℕ) (err : Thrown) (s : Store)
      → Counts err
      → 0 < n
      → IsCounting b n start s
      → t < start + cfg.window_ms
      → record_failure db cfg b t err s ≡ (
        (if leb cfg.failure_threshold (n + 1)
            then open_breaker db cfg b t (db.incr t (key fail_count b) s).0
            else (db.incr t (key fail_count b) s).0),
        true,
      )
  unfolding count_failure
  later_failure b n start t err s c pos k h =
      failure_of_closed b t err s c k.state_entry
      ∙ (counted b t (n + 1) s (simp (db.incr_reply, count_live b n start t s k h))
          ∙ rw (not_first n pos) refl)

  next_failure :
      (b : Text) (n start t : ℕ) (err : Thrown) (s : Store)
      → Counts err
      → 0 < n
      → IsCounting b n start s
      → t < start + cfg.window_ms
      → n + 1 < cfg.failure_threshold
      → IsCounting b (n + 1) start (record_failure db cfg b t err s).0
  next_failure b n start t err s c pos k h l =
      rw (later_failure b n start t err s c pos k h, below (n + 1) l)
        (incr-IsCounting b n start t s k h)

  last_failure :
      (b : Text) (n start t : ℕ) (err : Thrown) (s : Store)
      → Counts err
      → 0 < n
      → IsCounting b n start s
      → t < start + cfg.window_ms
      → cfg.failure_threshold ≤ n + 1
      → IsOpen db cfg b t (record_failure db cfg b t err s).0
  last_failure b n start t err s c pos k h l =
      rw (later_failure b n start t err s c pos k h, reached (n + 1) l)
        (open_breaker-IsOpen db cfg b t _)

  -- A failure that counts, in the window that the failure at `start` opened.
  abbrev pub IsInWindow : ℕ → ℕ × Thrown → Type 0
  IsInWindow start (t, err) = (t < start + cfg.window_ms) × Counts err

  failures-IsCounting :
      (b : Text) (n start : ℕ) (fs : List (ℕ × Thrown)) (s : Store)
      → 0 < n
      → IsCounting b n start s
      → All (IsInWindow start) fs
      → n + length fs < cfg.failure_threshold
      → IsCounting b (n + length fs) start (record_failures b fs s)
  unfolding record_failures
  failures-IsCounting b n start [] s pos k a h = subst (λ m. IsCounting b m start s) (omega arith) k
  failures-IsCounting b n start ((t, err) ∷ fs) s pos k a h =
      subst (λ m. IsCounting b m start (record_failures b fs (record_failure db cfg b t err s).0))
        (omega arith)
        (failures-IsCounting b (n + 1) start fs _ (omega arith)
          (next_failure b n start t err s a.0.1 pos k a.0.0 (omega arith)) a.1 (omega arith))

  -- With no state key and no counter, failures that count within `window_ms` of the first of them
  -- leave the breaker closed as long as they are fewer than the threshold.
  pub failures_below_threshold :
      (b : Text) (t0 t : ℕ) (err : Thrown) (fs : List (ℕ × Thrown)) (s : Store)
      → entry s (key state b) ≡ none
      → entry s (key fail_count b) ≡ none
      → Counts err
      → All (IsInWindow t0) fs
      → length fs + 1 < cfg.failure_threshold
      → (check db cfg b t (record_failures b ((t0, err) ∷ fs) s)).1 ≡ closed
  unfolding record_failures
  failures_below_threshold b t0 t err fs s e f c a h =
      let k =
        failures-IsCounting b 1 t0 fs (record_failure db cfg b t0 err s).0 (omega arith)
          (first_failure b t0 err s c e f (omega arith)) a (omega arith) in
      ap (λ r. r.1) (check_expired db cfg b t _ (simp (db.get_lem, k.state_entry)))

  record_failures-append :
      (b : Text) (fs gs : List (ℕ × Thrown)) (s : Store)
      → record_failures b (fs ++ gs) s ≡ record_failures b gs (record_failures b fs s)
  unfolding record_failures
  record_failures-append b [] gs s = refl
  record_failures-append b ((t, err) ∷ fs) gs s =
      record_failures-append b fs gs (record_failure db cfg b t err s).0

  -- The failure that makes their number reach the threshold opens the breaker at its time.
  pub failures_reach_threshold :
      (b : Text) (t0 t : ℕ) (err last : Thrown) (fs : List (ℕ × Thrown)) (s : Store)
      → entry s (key state b) ≡ none
      → entry s (key fail_count b) ≡ none
      → Counts err
      → All (IsInWindow t0) fs
      → IsInWindow t0 (t, last)
      → length fs + 2 ≡ cfg.failure_threshold
      → IsOpen db cfg b t (record_failures b ((t0, err) ∷ (fs ++ (t, last) ∷ [])) s)
  unfolding record_failures
  failures_reach_threshold b t0 t err last fs s e f c a w h =
      let s' = (record_failure db cfg b t0 err s).0 in
      let k =
        failures-IsCounting b 1 t0 fs s' (omega arith)
          (first_failure b t0 err s c e f (omega arith)) a (omega arith) in
      rw (record_failures-append b fs ((t, last) ∷ []) s') (
        last_failure b (1 + length fs) t0 t last (record_failures b fs s') w.1 (omega arith) k w.0
          (omega arith))
