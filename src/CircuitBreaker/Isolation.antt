-- ===== src/CircuitBreaker/Isolation.antt =====
-- The breakers of different backends do not touch one another
-- (router/src/resilience/circuitBreaker.ts).
use local_llms.Base.{
  ℕ, ◌≡◌, refl, sym, ap, ◌∙◌, inl, inr, Bool, true, false, ◌&&◌, Option, none, some, List, [], ◌∷◌,
  Text, text_eq, leb, ◌==◌, if◌then◌else◌, arith, Option-cases, All,
}
use local_llms.Valkey.{Valkey, Value, live, number}
use local_llms.CircuitBreaker.Keys.{
  Kind, fail_count, state, probe_at, probe_lock, key, key_eq, kind_eq,
}
use local_llms.CircuitBreaker.Trip.{Thrown}
use local_llms.CircuitBreaker.{
  Config, probe_lock_ttl_ms, check, decide, after_lock, record_failure, record_success, reset,
  open_breaker, count_failure, present,
}

-- A call of the breaker, with its time.
pub data Call : Type 0 where
  checks succeeds resets : Text → ℕ → Call
  fails : Text → ℕ → Thrown → Call

abbrev pub backend_of : Call → Text
backend_of (checks b t) = b
backend_of (succeeds b t) = b
backend_of (resets b t) = b
backend_of (fails b t err) = b

and_false : (x : Bool) → (x && false) ≡ false
and_false true = refl
and_false false = refl

pub other_key :
    (j k : Kind) (c b : Text) → text_eq c b ≡ false → text_eq (key j c) (key k b) ≡ false
other_key j k c b n = key_eq j k c b ∙ (ap (λ x. kind_eq j k && x) n ∙ and_false (kind_eq j k))

module _ (db : Valkey) (cfg : Config) where
  open db use {Store, entry}

  unfoldable pub step : Store → Call → Store
  step s (checks b t) = (check db cfg b t s).0
  step s (succeeds b t) = record_success db cfg b t s
  step s (resets b t) = reset db cfg b s
  step s (fails b t err) = (record_failure db cfg b t err s).0

  unfoldable pub run : Store → List Call → Store
  run s [] = s
  run s (c ∷ cs) = run (step s c) cs

  module _ (k : Kind) (c b : Text) (other : text_eq c b ≡ false) where
    abbrev Same : Store → Store → Type 0
    Same s s' = entry s' (key k b) ≡ entry s (key k b)

    set-Same :
        (j : Kind) (t : ℕ) (v : Value) (ttl : ℕ) (s : Store)
        → Same s (db.set_px t (key j c) v ttl s)
    set-Same j t v ttl s = simp (db.entry-set_px, other_key j k c b other)

    del-Same : (j : Kind) (s : Store) → Same s (db.del (key j c) s)
    del-Same j s = simp (db.entry-del, other_key j k c b other)

    incr-Same : (j : Kind) (t : ℕ) (s : Store) → Same s (db.incr t (key j c) s).0
    incr-Same j t s = simp (db.entry-incr, other_key j k c b other)

    pexpire-Same : (j : Kind) (t ttl : ℕ) (s : Store) → Same s (db.pexpire t (key j c) ttl s)
    pexpire-Same j t ttl s = simp (db.entry-pexpire, other_key j k c b other)

    nx-Same :
        (j : Kind) (t : ℕ) (v : Value) (ttl : ℕ) (s : Store)
        → Same s (db.set_nx_px t (key j c) v ttl s).0
    nx-Same j t v ttl s = elim (Option-cases (db.get t (key j c) s)) [
      | inl e ↦ simp (db.set_nx_px_lem, e) (set-Same j t v ttl s)
      | inr (w, e) ↦ simp (db.set_nx_px_lem, e) refl
    ]

    after_lock-Same : (t : ℕ) (r : Store × Bool) → Same r.0 (after_lock db cfg c t r).0
    unfolding after_lock
    after_lock-Same t (s, true) = set-Same state t _ _ s
    after_lock-Same t (s, false) = refl

    decide-Same : (t : ℕ) (v w : Option Value) (s : Store) → Same s (decide db cfg c t v w s).0
    unfolding decide
    decide-Same t none w s = refl
    decide-Same t (some v) w s =
        let lock = db.set_nx_px t (key probe_lock c) (number t) (probe_lock_ttl_ms cfg) s in
        ground
          (arith, after_lock-Same t lock, nx-Same probe_lock t (number t) (probe_lock_ttl_ms cfg) s)

    open_breaker-Same : (t : ℕ) (s : Store) → Same s (open_breaker db cfg c t s)
    unfolding open_breaker
    open_breaker-Same t s = set-Same probe_at t _ _ _ ∙ set-Same state t _ _ s

    windowed-Same :
        (first : Bool) (t : ℕ) (s : Store)
        → Same s (if first then db.pexpire t (key fail_count c) cfg.window_ms s else s)
    windowed-Same true t s = pexpire-Same fail_count t cfg.window_ms s
    windowed-Same false t s = refl

    opening-Same :
        (enough : Bool) (t : ℕ) (s : Store)
        → Same s (if enough then open_breaker db cfg c t s else s)
    opening-Same true t s = open_breaker-Same t s
    opening-Same false t s = refl

    count_failure-Same : (t : ℕ) (r : Store × Option ℕ) → Same r.0 (count_failure db cfg c t r).0
    unfolding count_failure
    count_failure-Same t (s, none) = refl
    count_failure-Same t (s, some n) =
        opening-Same (leb cfg.failure_threshold n) t _ ∙ windowed-Same (n == 1) t s

    record_failure-Same :
        (t : ℕ) (err : Thrown) (s : Store) → Same s (record_failure db cfg c t err s).0
    unfolding record_failure
    record_failure-Same t err s =
        let counted = db.incr t (key fail_count c) s in
        ground (
          arith,
          del-Same probe_lock (open_breaker db cfg c t s),
          open_breaker-Same t s,
          count_failure-Same t counted,
          incr-Same fail_count t s,
        )

    reset-Same : (s : Store) → Same s (reset db cfg c s)
    unfolding reset
    reset-Same s =
        del-Same probe_lock _ ∙ (del-Same probe_at _ ∙ (del-Same fail_count _ ∙ del-Same state s))

    record_success-Same : (t : ℕ) (s : Store) → Same s (record_success db cfg c t s)
    unfolding record_success
    record_success-Same t s = ground (arith, reset-Same s)

  pub step-Same :
      (k : Kind) (b : Text) (s : Store) (c : Call)
      → text_eq (backend_of c) b ≡ false
      → entry (step s c) (key k b) ≡ entry s (key k b)
  unfolding step check
  step-Same k b s (checks c t) n =
      decide-Same k c b n t (present (db.get t (key state c) s)) (db.get t (key probe_at c) s) s
  step-Same k b s (succeeds c t) n = record_success-Same k c b n t s
  step-Same k b s (resets c t) n = reset-Same k c b n s
  step-Same k b s (fails c t err) n = record_failure-Same k c b n t err s

  pub run-Same :
      (k : Kind) (b : Text) (s : Store) (cs : List Call)
      → All (λ c. text_eq (backend_of c) b ≡ false) cs
      → entry (run s cs) (key k b) ≡ entry s (key k b)
  unfolding run
  run-Same k b s [] n = refl
  run-Same k b s (c ∷ cs) n = run-Same k b (step s c) cs n.1 ∙ step-Same k b s c n.0

  lock_answer :
      (b : Text) (t : ℕ) (r r' : Store × Bool)
      → r.1 ≡ r'.1
      → (after_lock db cfg b t r).1 ≡ (after_lock db cfg b t r').1
  unfolding after_lock
  lock_answer b t (s, true) (s', true) e = refl
  lock_answer b t (s, false) (s', false) e = refl
  lock_answer b t (s, true) (s', false) e = absurd (cc e)
  lock_answer b t (s, false) (s', true) e = absurd (cc e)

  nx_answer :
      (t ttl : ℕ) (k : Text) (v : Value) (s s' : Store)
      → db.get t k s' ≡ db.get t k s
      → (db.set_nx_px t k v ttl s').1 ≡ (db.set_nx_px t k v ttl s).1
  nx_answer t ttl k v s s' e = elim (Option-cases (db.get t k s)) [
    | inl f ↦ simp (db.set_nx_px_lem, e, f) refl
    | inr (w, f) ↦ simp (db.set_nx_px_lem, e, f) refl
  ]

  decide_answer :
      (b : Text) (t : ℕ) (v w : Option Value) (s s' : Store)
      → db.get t (key probe_lock b) s' ≡ db.get t (key probe_lock b) s
      → (decide db cfg b t v w s').1 ≡ (decide db cfg b t v w s).1
  unfolding decide
  decide_answer b t none w s s' e = refl
  decide_answer b t (some v) w s s' e =
      let lock : Store → Store × Bool =
        λ r. db.set_nx_px t (key probe_lock b) (number t) (probe_lock_ttl_ms cfg) r in
      ground (arith, lock_answer b t (lock s') (lock s) (nx_answer t _ _ _ s s' e))

  -- Whatever calls the other backends make, the four keys of a backend keep their entries, and a
  -- check of that backend answers as it would have before those calls.
  pub run_other_backends :
      (b : Text) (t : ℕ) (s : Store) (cs : List Call)
      → All (λ c. text_eq (backend_of c) b ≡ false) cs
      → (entry (run s cs) (key fail_count b) ≡ entry s (key fail_count b))
        × (entry (run s cs) (key state b) ≡ entry s (key state b))
        × (entry (run s cs) (key probe_at b) ≡ entry s (key probe_at b))
        × (entry (run s cs) (key probe_lock b) ≡ entry s (key probe_lock b))
        × ((check db cfg b t (run s cs)).1 ≡ (check db cfg b t s).1)
  unfolding check
  run_other_backends b t s cs n =
      let same : (k : Kind) → entry (run s cs) (key k b) ≡ entry s (key k b) =
        λ k. run-Same k b s cs n in
      let got : (k : Kind) → db.get t (key k b) (run s cs) ≡ db.get t (key k b) s = λ k.
        db.get_lem t (key k b) (run s cs)
        ∙ (ap (live t) (same k) ∙ sym (db.get_lem t (key k b) s)) in
      (
        same fail_count,
        same state,
        same probe_at,
        same probe_lock,
        rw (got state, got probe_at)
            (decide_answer b t (present (db.get t (key state b) s)) (db.get t (key probe_at b) s) s
              (run s cs) (got probe_lock)),
      )
