-- ===== src/BufferedWriter.antt =====
-- The request-log buffer of router/src/db/bufferedWriter.ts. A flush is split at its `await`:
-- `flush` takes the batch out of the buffer, and `inserted` or `insert_failed` is what follows
-- when the INSERT settles. `stored` is what the settled INSERTs have written, in their order.
pub mod Subsequence
pub mod Flush
mod Push
pub mod Invariant
pub mod Shutdown
mod Tests
use local_llms.Base.{
  ℕ, zero, suc, ◌+◌, ◌-◌, min, Bool, true, false, not, ◌&&◌, ◌||◌, List, [], ◌∷◌, ◌++◌, ltb, leb,
  ◌==◌, if◌then◌else◌, length, take, drop,
}

abbrev pub max_batch_rows : ℕ
max_batch_rows = 1000

pub record Writer (A : Type 0) : Type 0 where
  pub capacity : ℕ
  pub flush_at_rows : ℕ
  pub buf : List A
  pub flushing : Bool
  pub batch : List A  -- the rows of the pending INSERT
  pub stopped : Bool
  pub timer_on : Bool
  pub microtasks : ℕ  -- flushes that `queueMicrotask` holds
  pub dropped : ℕ  -- droppedCounter
  pub stored : List A

pub data Event (A : Type 0) : Type 0 where
  pushes : A → Event A
  tick microtask insert_ok insert_error drains : Event A

module _ {A : Type 0} where
  pub make_buffered_writer : ℕ → ℕ → Writer A
  make_buffered_writer capacity flush_at_rows = record {
    capacity = capacity;
    flush_at_rows = flush_at_rows;
    buf = [];
    flushing = false;
    batch = [];
    stopped = false;
    timer_on = true;
    microtasks = 0;
    dropped = 0;
    stored = [];
  }

  -- `flush` up to its `await`.
  pub flush : Bool → Writer A → Writer A
  flush force w =
      if w.flushing || length w.buf == 0 || w.stopped && not force then w else record w {
        flushing = true;
        batch = take (min (length w.buf) max_batch_rows) w.buf;
        buf = drop (min (length w.buf) max_batch_rows) w.buf;
      }

  pub inserted : Writer A → Writer A
  inserted w = record w { stored = w.stored ++ w.batch; batch = []; flushing = false }

  -- The `catch`: make room by dropping the oldest of the new arrivals, then put the batch back.
  pub restore : Writer A → ℕ → Writer A
  restore w overflow =
      if ltb 0 overflow
      then record w {
        buf = w.batch ++ drop overflow w.buf;
        dropped = w.dropped + length (take overflow w.buf);
        batch = [];
        flushing = false;
      }
      else record w { buf = w.batch ++ w.buf; batch = []; flushing = false }

  -- `buf.length + batch.length - capacity` is negative where this difference is 0.
  pub insert_failed : Writer A → Writer A
  unfolding restore
  insert_failed w = restore w (length w.buf + length w.batch - w.capacity)

  -- Drop the oldest row at capacity.
  make_room : Writer A → Writer A
  make_room w =
      if leb w.capacity (length w.buf)
      then record w { buf = drop 1 w.buf; dropped = w.dropped + 1 }
      else w

  append_row : Writer A → A → Writer A
  append_row w row =
      let buf = w.buf ++ row ∷ [] in
      record w {
        buf = buf;
        microtasks = if leb w.flush_at_rows (length buf) then w.microtasks + 1 else w.microtasks;
      }

  pub push : A → Writer A → Writer A
  unfolding make_room append_row
  push row w = if w.stopped then w else append_row (make_room w) row

  -- `drain` up to the race of its flush with the timeout.
  pub drain : Writer A → Writer A
  unfolding flush
  drain w = flush true (record w { stopped = true; timer_on = false })

  run_microtask : Writer A → ℕ → Writer A
  unfolding flush
  run_microtask w zero = w
  run_microtask w (suc n) = flush false (record w { microtasks = n })

  -- An INSERT settles only while one is pending; the interval runs until it is cleared.
  pub step : Writer A → Event A → Writer A
  unfolding push flush drain inserted insert_failed run_microtask
  step w (pushes row) = push row w
  step w tick = if w.timer_on then flush false w else w
  step w microtask = run_microtask w w.microtasks
  step w insert_ok = if w.flushing then inserted w else w
  step w insert_error = if w.flushing then insert_failed w else w
  step w drains = drain w

  pub run : Writer A → List (Event A) → Writer A
  run w [] = w
  run w (e ∷ es) = run (step w e) es

  -- The rows that an event offers while the writer takes rows.
  abbrev pub offered : Writer A → Event A → List A
  offered w (pushes row) = if w.stopped then [] else row ∷ []
  offered w _ = []

  pub accepted : Writer A → List (Event A) → List A
  accepted w [] = []
  accepted w (e ∷ es) = offered w e ++ accepted (step w e) es
