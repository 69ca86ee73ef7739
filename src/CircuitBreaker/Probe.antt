-- ===== src/CircuitBreaker/Probe.antt =====
-- How many probes the half-open breaker of router/src/resilience/circuitBreaker.ts lets through.
use local_llms.Base.{
  ℕ, suc, ◌+◌, ◌*◌, ◌≤◌, ◌<◌, ◌≡◌, ◌⊎◌, refl, sym, ap, ◌∙◌, inl, inr, Bool, true, false, ◌&&◌,
  Option, none, some, List, [], ◌∷◌, Text, codes, text_eq, text_eq_refl, text_eq_iff, subst,
  if◌then◌else◌, arith, Bool-cases, Option-cases, All,
}
use local_llms.Valkey.{Valkey, Value, text, number}
use local_llms.CircuitBreaker.Keys.{state, probe_at, probe_lock, key, key_eq}
use local_llms.CircuitBreaker.Trip.{Thrown}
use local_llms.CircuitBreaker.Trip.Counts.{Counts}
use local_llms.CircuitBreaker.{
  BreakerState, closed, opened, half_open, Config, probe_lock_ttl_ms, check, decide, after_lock,
  record_failure, present,
}
use local_llms.CircuitBreaker.Timeline.{probing, timeline, check-timeline}
use local_llms.CircuitBreaker.Outcomes.{probe_failure_reopens, record_failure_ignored}
use local_llms.CircuitBreaker.Isolation.{Call, checks, succeeds, resets, fails, step, step-Same}

module _ (db : Valkey) (cfg : Config) where
  open db use {Store, entry}

  -- Calls that leave the probe lock of `b` alone, while it is held until `until`: checks, errors
  -- that do not count, and whatever other backends do.
  abbrev pub IsQuiet : Text → ℕ → Call → Type 0
  IsQuiet b until (checks c t) = t < until
  IsQuiet b until (fails c t err) = (¬ Counts err) ⊎ (text_eq c b ≡ false)
  IsQuiet b until (succeeds c t) = text_eq c b ≡ false
  IsQuiet b until (resets c t) = text_eq c b ≡ false

  -- How many checks of `b` in a history answer half-open.
  abbrev is_half : BreakerState → Bool
  is_half half_open = true
  is_half _ = false

  unfoldable pub probes_granted : Text → Store → List Call → ℕ
  probes_granted b s [] = 0
  probes_granted b s (checks c t ∷ cs) =
      let rest = probes_granted b (step db cfg s (checks c t)) cs in
      if text_eq c b && is_half (check db cfg c t s).1 then suc rest else rest
  probes_granted b s (c ∷ cs) = probes_granted b (step db cfg s c) cs

  abbrev Held : Text → ℕ → Store → Type 0
  Held b until s = (v : Value) × (entry s (key probe_lock b) ≡ some (v, some until))

  lock_taken :
      (b : Text) (t : ℕ) (w : Value) (s : Store)
      → db.get t (key probe_lock b) s ≡ some w
      → after_lock db cfg b t
          (db.set_nx_px t (key probe_lock b) (number t) (probe_lock_ttl_ms cfg) s)
        ≡ (s, opened)
  unfolding after_lock
  lock_taken b t w s e = simp (db.set_nx_px_lem, e) refl

  lock_granted :
      (b : Text) (t : ℕ) (s : Store)
      → db.get t (key probe_lock b) s ≡ none
      → after_lock db cfg b t
          (db.set_nx_px t (key probe_lock b) (number t) (probe_lock_ttl_ms cfg) s)
        ≡ (probing db cfg b t s, half_open)
  unfolding after_lock
  lock_granted b t s e = simp (db.set_nx_px_lem, e) refl

  decide_held :
      (b : Text) (t : ℕ) (w : Value) (v u : Option Value) (s : Store)
      → db.get t (key probe_lock b) s ≡ some w
      → (decide db cfg b t v u s ≡ (s, opened)) ⊎ (decide db cfg b t v u s ≡ (s, closed))
  unfolding decide
  decide_held b t w none u s e = inr refl
  decide_held b t w (some v) u s e = ground (arith, lock_taken b t w s e)

  decide_half :
      (b : Text) (t : ℕ) (v u : Option Value) (s : Store)
      → db.get t (key probe_lock b) s ≡ none
      → (decide db cfg b t v u s).1 ≡ half_open
      → decide db cfg b t v u s ≡ (probing db cfg b t s, half_open)
  unfolding decide
  decide_half b t none u s e h = absurd (cc h)
  decide_half b t (some v) u s e h = ground (arith, lock_granted b t s e)

  abbrev seen_state : Text → ℕ → Store → Option Value
  seen_state b t s = present (db.get t (key state b) s)

  abbrev seen_probe_at : Text → ℕ → Store → Option Value
  seen_probe_at b t s = db.get t (key probe_at b) s

  check-Held :
      (b : Text) (t until : ℕ) (s : Store)
      → Held b until s
      → t < until
      → ((check db cfg b t s).0 ≡ s) × (is_half (check db cfg b t s).1 ≡ false)
  unfolding check
  check-Held b t until s (w, e) h =
      let got : db.get t (key probe_lock b) s ≡ some w = simp (db.get_lem, e) (ground arith) in
      elim (decide_held b t w (seen_state b t s) (seen_probe_at b t s) s got) [
        | inl d ↦ rw d (refl, refl)
        | inr d ↦ rw d (refl, refl)
      ]

  probing-Held :
      (b : Text) (t : ℕ) (s : Store) → Held b (t + probe_lock_ttl_ms cfg) (probing db cfg b t s)
  probing-Held b t s = (number t, simp (db.entry-set_px, key_eq, text_eq_refl))

  -- A check that answers half-open has found the probe lock free, has taken it for
  -- `probe_lock_ttl_ms`, and has marked the breaker half-open.
  check_half_open :
      (b : Text) (t : ℕ) (s : Store)
      → (check db cfg b t s).1 ≡ half_open
      → (db.get t (key probe_lock b) s ≡ none) × ((check db cfg b t s).0 ≡ probing db cfg b t s)
  unfolding check
  check_half_open b t s h = elim (Option-cases (db.get t (key probe_lock b) s)) [
    | inl e ↦ (e, ap (λ r. r.0) (decide_half b t (seen_state b t s) (seen_probe_at b t s) s e h))
    | inr (w, e) ↦ elim (decide_held b t w (seen_state b t s) (seen_probe_at b t s) s e) [
      | inl d ↦ absurd (cc (ap (λ r. r.1) d, h))
      | inr d ↦ absurd (cc (ap (λ r. r.1) d, h))
    ]
  ]

  step-Held :
      (b : Text) (until : ℕ) (s : Store) (c : Call)
      → IsQuiet b until c
      → Held b until s
      → Held b until (step db cfg s c)
  unfolding step
  step-Held b until s (checks c t) q (w, e) = elim (Bool-cases (text_eq c b)) [
    | inl same ↦
        subst (Held b until)
          (sym
            (check-Held c t until s
              (w, ap (λ a. entry s (key probe_lock a)) (same_backend same) ∙ e) q).0)
          (w, e)
    | inr other ↦ (w, step-Same db cfg probe_lock b s (checks c t) other ∙ e)
  ]
    where
      same_backend : text_eq c b ≡ true → c ≡ b
      same_backend same = (text_eq_iff c b).0 same
  step-Held b until s (fails c t err) (inl n) (w, e) =
      (w, ap (λ r. entry r.0 (key probe_lock b)) (record_failure_ignored db cfg c t err s n) ∙ e)
  step-Held b until s (fails c t err) (inr other) (w, e) =
      (w, step-Same db cfg probe_lock b s (fails c t err) other ∙ e)
  step-Held b until s (succeeds c t) other (w, e) =
      (w, step-Same db cfg probe_lock b s (succeeds c t) other ∙ e)
  step-Held b until s (resets c t) other (w, e) =
      (w, step-Same db cfg probe_lock b s (resets c t) other ∙ e)

  no_probe_while_Held :
      (b : Text) (until : ℕ) (s : Store) (cs : List Call)
      → All (IsQuiet b until) cs
      → Held b until s
      → probes_granted b s cs ≡ 0
  unfolding probes_granted
  no_probe_while_Held b until s [] q h = refl
  no_probe_while_Held b until s (checks c t ∷ cs) q h =
      let rest =
        no_probe_while_Held b until (step db cfg s (checks c t)) cs q.1
          (step-Held b until s (checks c t) q.0 h) in
      elim (Bool-cases (text_eq c b)) [
        | inr other ↦ rw other rest
        | inl same ↦
            rw
              (
                same,
                (check-Held c t until s
                    (h.0, ap (λ a. entry s (key probe_lock a)) ((text_eq_iff c b).0 same) ∙ h.1)
                    q.0).1,
              )
              rest
      ]
  no_probe_while_Held b until s (fails c t err ∷ cs) q h =
      no_probe_while_Held b until (step db cfg s (fails c t err)) cs q.1
        (step-Held b until s (fails c t err) q.0 h)
  no_probe_while_Held b until s (succeeds c t ∷ cs) q h =
      no_probe_while_Held b until (step db cfg s (succeeds c t)) cs q.1
        (step-Held b until s (succeeds c t) q.0 h)
  no_probe_while_Held b until s (resets c t ∷ cs) q h =
      no_probe_while_Held b until (step db cfg s (resets c t)) cs q.1
        (step-Held b until s (resets c t) q.0 h)

  -- Once a check of `b` at `t` has answered half-open, no further check of `b` does before
  -- `t + probe_lock_ttl_ms`, however many checks, errors that do not count and calls for other
  -- backends follow.
  pub single_probe :
      (b : Text) (t : ℕ) (s : Store) (cs : List Call)
      → (check db cfg b t s).1 ≡ half_open
      → All (IsQuiet b (t + probe_lock_ttl_ms cfg)) cs
      → probes_granted b (check db cfg b t s).0 cs ≡ 0
  single_probe b t s cs h q =
      no_probe_while_Held b (t + probe_lock_ttl_ms cfg) (check db cfg b t s).0 cs q (
        subst (Held b (t + probe_lock_ttl_ms cfg)) (sym (check_half_open b t s h).1)
          (probing-Held b t s))

  half_open_between :
      (b : Text) (t0 t1 : ℕ) (s : Store)
      → (check db cfg b t0 s).1 ≡ half_open
      → t1 < t0 + cfg.cooldown_ms * 2
      → db.get t1 (key state b) (check db cfg b t0 s).0 ≡ some (text (codes "half-open"))
  half_open_between b t0 t1 s h k =
      simp ((check_half_open b t0 s h).1, db.get_lem, db.entry-set_px, key_eq, text_eq_refl)
        (ground arith)

  second_probe :
      (b : Text) (t1 t2 : ℕ) (err : Thrown) (s : Store)
      → Counts err
      → db.get t1 (key state b) s ≡ some (text (codes "half-open"))
      → t1 + cfg.cooldown_ms ≤ t2
      → t2 < t1 + cfg.cooldown_ms * 2
      → (check db cfg b t2 (record_failure db cfg b t1 err s).0).1 ≡ half_open
  second_probe b t1 t2 err s c h k l =
      let (_, o, free) = probe_failure_reopens db cfg b t1 err s c h in
      let s' = (record_failure db cfg b t1 err s).0 in
      let got : db.get t2 (key probe_lock b) s' ≡ none = simp (db.get_lem, free) in
      ap (λ r. r.1) (check-timeline db cfg b t1 t2 s' o) ∙ rw (got, timeline) (ground arith)

  -- A check of `b` becomes the probe at `t0`; at `t1`, before the half-open state expires, any call
  -- for `b` records a failure that counts; then a check between one and two cooldowns after `t1`
  -- becomes a probe too. Nothing asks whether the failed call was the probe or whether the first
  -- probe has ended.
  pub straggler_grants_probe :
      (b : Text) (t0 t1 t2 : ℕ) (err : Thrown) (s : Store)
      → Counts err
      → (check db cfg b t0 s).1 ≡ half_open
      → t1 < t0 + cfg.cooldown_ms * 2
      → t1 + cfg.cooldown_ms ≤ t2
      → t2 < t1 + cfg.cooldown_ms * 2
      → probes_granted b s (checks b t0 ∷ fails b t1 err ∷ checks b t2 ∷ []) ≡ 2
  unfolding probes_granted step
  straggler_grants_probe b t0 t1 t2 err s c h j k l =
      let again =
        second_probe b t1 t2 err (check db cfg b t0 s).0 c (half_open_between b t0 t1 s h j) k l in
      simp (text_eq_refl, h, again) refl
