-- ===== src/BufferedWriter/Invariant.antt =====
-- Runs of the buffer of router/src/db/bufferedWriter.ts.
use local_llms.Base.{
  ℕ, zero, suc, ◌<◌, ◌≡◌, refl, inr, Bool, true, false, List, [], ◌∷◌, ◌++◌, if◌then◌else◌, arith,
  append_assoc, append-nil,
}
use local_llms.BufferedWriter.{
  Writer, Event, pushes, tick, microtask, insert_ok, insert_error, drains, make_buffered_writer,
  flush, inserted, restore, insert_failed, make_room, append_row, push, drain, run_microtask, step,
  run, offered, accepted,
}
use local_llms.BufferedWriter.Subsequence.{end}
use local_llms.BufferedWriter.Flush.{Inv, flush-Inv, inserted-Inv, restore-Inv}
use local_llms.BufferedWriter.Push.{push-Inv}

module _ {A : Type 0} where
  -- Flags and counters outside the invariant may change.
  retimed-Inv :
      (seen : List A) (w : Writer A) (stopped timer_on : Bool) (microtasks : ℕ)
      → Inv seen w
      → Inv seen (record w { stopped = stopped; timer_on = timer_on; microtasks = microtasks })
  retimed-Inv seen w stopped timer_on microtasks v = record {
    bounded = v.bounded;
    batch_bounded = v.batch_bounded;
    idle = v.idle;
    in_order = v.in_order;
    counted = v.counted;
  }

  run_microtask-Inv :
      (seen : List A) (w : Writer A) (n : ℕ) → Inv seen w → Inv seen (run_microtask w n)
  unfolding run_microtask
  run_microtask-Inv seen w zero v = v
  run_microtask-Inv seen w (suc n) v =
      flush-Inv false seen _ (retimed-Inv seen w w.stopped w.timer_on n v)

  if-Inv :
      (b : Bool) (seen : List A) (w w' : Writer A)
      → Inv seen w'
      → Inv seen w
      → Inv seen (if b then w' else w)
  if-Inv true seen w w' v' v = v'
  if-Inv false seen w w' v' v = v

  step-Inv :
      (seen : List A) (w : Writer A) (e : Event A)
      → 0 < w.capacity
      → Inv seen w
      → Inv (seen ++ offered w e) (step w e)
  unfolding step drain insert_failed
  step-Inv seen w (pushes row) pos v = push-Inv seen w row pos v
  step-Inv seen w tick pos v =
      rw (append-nil seen) (if-Inv w.timer_on seen w (flush false w) (flush-Inv false seen w v) v)
  step-Inv seen w microtask pos v = rw (append-nil seen) (run_microtask-Inv seen w w.microtasks v)
  step-Inv seen w insert_ok pos v =
      rw (append-nil seen) (if-Inv w.flushing seen w (inserted w) (inserted-Inv seen w v) v)
  step-Inv seen w insert_error pos v =
      rw (append-nil seen)
        (if-Inv w.flushing seen w (insert_failed w) (restore-Inv seen w _ refl v) v)
  step-Inv seen w drains pos v =
      rw (append-nil seen) (flush-Inv true seen _ (retimed-Inv seen w true false w.microtasks v))

  step-capacity : (w : Writer A) (e : Event A) → (step w e).capacity ≡ w.capacity
  unfolding step drain insert_failed restore flush inserted push make_room append_row run_microtask
  step-capacity w (pushes row) = ground arith
  step-capacity w tick = ground arith
  step-capacity w microtask = ground arith
  step-capacity w insert_ok = ground arith
  step-capacity w insert_error = ground arith
  step-capacity w drains = ground arith

  run-Inv :
      (seen : List A) (w : Writer A) (es : List (Event A))
      → 0 < w.capacity
      → Inv seen w
      → Inv (seen ++ accepted w es) (run w es)
  unfolding run accepted
  run-Inv seen w [] pos v = rw (append-nil seen) v
  run-Inv seen w (e ∷ es) pos v = rw (← append_assoc seen (offered w e) (accepted (step w e) es)) (
      run-Inv (seen ++ offered w e) (step w e) es (rw (step-capacity w e) pos)
        (step-Inv seen w e pos v))

  -- For a positive capacity, after any history: the buffer holds at most `capacity` rows and the
  -- pending INSERT at most `max_batch_rows`; the rows stored, then those of the pending INSERT, then
  -- those buffered are the accepted rows in their order with some left out; and every accepted row
  -- that is in none of the three was counted as dropped.
  pub run-make_buffered_writer-Inv :
      (capacity flush_at_rows : ℕ) (es : List (Event A))
      → 0 < capacity
      → Inv
          (accepted (make_buffered_writer capacity flush_at_rows) es)
          (run (make_buffered_writer capacity flush_at_rows) es)
  unfolding make_buffered_writer
  run-make_buffered_writer-Inv capacity flush_at_rows es pos = run-Inv [] _ es pos (record {
    bounded = omega arith;
    batch_bounded = (omega arith, omega arith);
    idle = inr refl;
    in_order = end;
    counted = omega arith;
  })
