-- ===== src/BufferedWriter/Tests.antt =====
-- The theorems of the log buffer at small writers of numbered rows, and runs of it.
use local_llms.Base.{ℕ, ◌≡◌, refl, true, false, List, [], ◌∷◌, ◌++◌, arith, take, drop}
use local_llms.BufferedWriter.{
  Writer, Event, pushes, tick, microtask, insert_ok, insert_error, max_batch_rows,
  make_buffered_writer, drain, step, run, accepted,
}
use local_llms.BufferedWriter.Flush.{Inv}
use local_llms.BufferedWriter.Invariant.{run-make_buffered_writer-Inv}
use local_llms.BufferedWriter.Shutdown.{drain-insert_ok, drain_while_flushing}

abbrev small : Writer ℕ
unfolding make_buffered_writer
small = make_buffered_writer 3 2

-- A failed INSERT at capacity: the newest rows of the backlog survive beside the batch.
abbrev history : List (Event ℕ)
history =
    pushes 1
    ∷ pushes 2
    ∷ microtask
    ∷ pushes 3
    ∷ pushes 4
    ∷ pushes 5
    ∷ insert_error
    ∷ tick
    ∷ insert_ok
    ∷ pushes 6
    ∷ []

overflow :
    ((run small history).stored ≡ 1 ∷ 2 ∷ 5 ∷ [])
    × ((run small history).buf ≡ 6 ∷ [])
    × ((run small history).dropped ≡ 2)
unfolding run step make_buffered_writer
overflow = (refl, refl, refl)

run-make_buffered_writer-Inv_example :
    Inv (accepted (make_buffered_writer 3 2) history) (run (make_buffered_writer 3 2) history)
run-make_buffered_writer-Inv_example = run-make_buffered_writer-Inv 3 2 history (omega arith)

abbrev waiting : Writer ℕ
waiting = record {
  capacity = 9;
  flush_at_rows = 9;
  buf = 3 ∷ 4 ∷ [];
  flushing = false;
  batch = [];
  stopped = false;
  timer_on = true;
  microtasks = 0;
  dropped = 0;
  stored = 1 ∷ [];
}

abbrev flushing_one : Writer ℕ
flushing_one = record waiting { flushing = true; batch = 2 ∷ [] }

drain_while_flushing_example :
    ((run (step (drain flushing_one) insert_ok) (tick ∷ microtask ∷ [])).buf ≡ 3 ∷ 4 ∷ [])
    × ((run (step (drain flushing_one) insert_ok) (tick ∷ microtask ∷ [])).stored ≡ 1 ∷ 2 ∷ [])
drain_while_flushing_example =
    drain_while_flushing flushing_one (tick ∷ microtask ∷ []) refl (tt, (tt, tt))

waiting_history : List (Event ℕ)
waiting_history = pushes 1 ∷ tick ∷ insert_ok ∷ pushes 3 ∷ pushes 4 ∷ []

drain-insert_ok_example :
    ((step (drain (run (make_buffered_writer 9 9) waiting_history)) insert_ok).stored
      ≡ (run (make_buffered_writer 9 9) waiting_history).stored
        ++ take max_batch_rows (run (make_buffered_writer 9 9) waiting_history).buf)
    × ((step (drain (run (make_buffered_writer 9 9) waiting_history)) insert_ok).buf
        ≡ drop max_batch_rows (run (make_buffered_writer 9 9) waiting_history).buf)
unfolding waiting_history run step make_buffered_writer
drain-insert_ok_example =
    drain-insert_ok (accepted (make_buffered_writer 9 9) waiting_history)
      (run (make_buffered_writer 9 9) waiting_history)
      (run-make_buffered_writer-Inv 9 9 waiting_history (omega arith)) refl
