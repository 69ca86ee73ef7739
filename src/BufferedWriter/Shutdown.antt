-- ===== src/BufferedWriter/Shutdown.antt =====
-- What `drain` of router/src/db/bufferedWriter.ts saves at a shutdown.
use local_llms.Base.{
  ℕ, zero, suc, min, ◌≡◌, refl, ◌⊎◌, sym, ap, ◌∙◌, inl, inr, true, false, List, [], ◌∷◌, ◌++◌, ◌==◌,
  length, take, drop, arith, Bool-cases, append-nil, All,
}
use local_llms.BufferedWriter.{
  Writer, Event, pushes, insert_error, drains, run, max_batch_rows, inserted, drain, push, step,
  insert_ok, tick, microtask, run_microtask,
}
use local_llms.BufferedWriter.Flush.{Inv, started}

min-zero : (n : ℕ) → min n 0 ≡ 0
min-zero n = omega arith

min-suc : (m n : ℕ) → min (suc m) (suc n) ≡ suc (min m n)
min-suc m n = omega arith

zero-min : (n : ℕ) → min 0 n ≡ 0
zero-min n = omega arith

module _ {A : Type 0} where
  take-min : (n : ℕ) (xs : List A) → take (min (length xs) n) xs ≡ take n xs
  take-min zero [] = refl
  take-min zero (x ∷ xs) = rw (min-zero (length (x ∷ xs)))
  take-min (suc n) [] = rw (zero-min (suc n))
  take-min (suc n) (x ∷ xs) = rw (min-suc (length xs) n) (ap (◌∷◌ x) (take-min n xs))

  drop-min : (n : ℕ) (xs : List A) → drop (min (length xs) n) xs ≡ drop n xs
  drop-min zero [] = refl
  drop-min zero (x ∷ xs) = rw (min-zero (length (x ∷ xs)))
  drop-min (suc n) [] = rw (zero-min (suc n))
  drop-min (suc n) (x ∷ xs) = rw (min-suc (length xs) n) (drop-min n xs)

  empty_of_length : (xs : List A) → (length xs == 0) ≡ true → xs ≡ []
  empty_of_length [] h = refl
  empty_of_length (x ∷ xs) h = absurd (ground arith)

  closed : Writer A → Writer A
  closed w = record w { stopped = true; timer_on = false }

  drain_idle :
      (w : Writer A)
      → w.flushing ≡ false
      → ((w.buf ≡ []) × (drain w ≡ closed w)) ⊎ (drain w ≡ started (closed w))
  unfolding drain closed
  drain_idle w idle = elim (Bool-cases (length w.buf == 0)) [
    | inl e ↦ inl (empty_of_length w.buf e, rw (idle, e))
    | inr e ↦ inr (rw (idle, e))
  ]

  -- A drain that finds no flush running starts the INSERT of the oldest buffered rows, at most
  -- `max_batch_rows` of them. If the INSERT succeeds, these are stored behind what was stored
  -- before; the rows beyond them are not written and stay in the buffer.
  pub drain-insert_ok :
      (seen : List A) (w : Writer A)
      → Inv seen w
      → w.flushing ≡ false
      → ((step (drain w) insert_ok).stored ≡ w.stored ++ take max_batch_rows w.buf)
        × ((step (drain w) insert_ok).buf ≡ drop max_batch_rows w.buf)
  unfolding step inserted closed
  drain-insert_ok seen w v idle = elim (drain_idle w idle) [
    | inl (e, d) ↦ rw (d, idle) (rw e (sym (append-nil w.stored)), rw e)
    | inr d ↦
        rw d (ap (◌++◌ w.stored) (take-min max_batch_rows w.buf), drop-min max_batch_rows w.buf)
  ]

  -- A writer that has been drained and has no INSERT pending.
  pub record IsShut (w : Writer A) : Type 0 where
    pub no_rows : w.stopped ≡ true
    pub no_timer : w.timer_on ≡ false
    pub no_insert : w.flushing ≡ false

  abbrev pub IsNoDrain : Event A → Type 0
  IsNoDrain drains = ⊥
  IsNoDrain _ = Unit

  abbrev Unchanged : Writer A → Writer A → Type 0
  Unchanged w w' = (w'.stored ≡ w.stored) × (w'.buf ≡ w.buf) × IsShut w'

  run_microtask-IsShut : (w : Writer A) (n : ℕ) → IsShut w → Unchanged w (run_microtask w n)
  unfolding run_microtask
  run_microtask-IsShut w zero h = (refl, refl, h)
  run_microtask-IsShut w (suc n) h = ground arith

  step-IsShut : (w : Writer A) (e : Event A) → IsNoDrain e → IsShut w → Unchanged w (step w e)
  unfolding step push
  step-IsShut w (pushes row) n h = ground arith
  step-IsShut w tick n h = ground arith
  step-IsShut w microtask n h = run_microtask-IsShut w w.microtasks h
  step-IsShut w insert_ok n h = ground arith
  step-IsShut w insert_error n h = ground arith
  step-IsShut w drains n h = absurd n

  run-IsShut :
      (w : Writer A) (es : List (Event A)) → All IsNoDrain es → IsShut w → Unchanged w (run w es)
  unfolding run
  run-IsShut w [] n h = (refl, refl, h)
  run-IsShut w (e ∷ es) n h =
      let (s, b, k) = step-IsShut w e n.0 h in
      let (s', b', k') = run-IsShut (step w e) es n.1 k in (s' ∙ s, b' ∙ b, k')

  drain_busy :
      (w : Writer A)
      → w.flushing ≡ true
      → ((step (drain w) insert_ok).stored ≡ w.stored ++ w.batch)
        × ((step (drain w) insert_ok).buf ≡ w.buf)
        × IsShut (step (drain w) insert_ok)
  unfolding drain step inserted
  drain_busy w busy = ground arith

  -- A drain that finds a flush running starts no INSERT. Whatever happens after that INSERT has
  -- succeeded, short of a second drain, the rows that were buffered stay in the buffer, and no row
  -- but those of that INSERT has been stored.
  pub drain_while_flushing :
      (w : Writer A) (es : List (Event A))
      → w.flushing ≡ true
      → All IsNoDrain es
      → ((run (step (drain w) insert_ok) es).buf ≡ w.buf)
        × ((run (step (drain w) insert_ok) es).stored ≡ w.stored ++ w.batch)
  drain_while_flushing w es busy n =
      let (s, b, h) = drain_busy w busy in
      let (s', b', h') = run-IsShut (step (drain w) insert_ok) es n h in (b' ∙ b, s' ∙ s)
