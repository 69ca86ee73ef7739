-- ===== src/Semaphore/Limit.antt =====
-- Lemmas on the limit of router/src/concurrency/semaphore.ts.
use local_llms.Base.{ℕ, ◌-◌, ◌≡◌, refl, ◌∙◌, Option, none, some, List, [], ◌∷◌, arith, erase}
use local_llms.Semaphore.{
  Semaphore, Waiter, no_signal, live, already_aborted, Event, acquires, releases, expires, aborts,
  find_waiter, promote, drain, enqueue, enqueue_signal, acquire, release, time_out, expire,
  on_abort, abort, step, run,
}

time_out-max_concurrency :
    (s : Semaphore) (now : ℕ) (o : Option Waiter)
    → (time_out s now o).max_concurrency ≡ s.max_concurrency
unfolding time_out
time_out-max_concurrency s now none = refl
time_out-max_concurrency s now (some w) = refl

on_abort-max_concurrency :
    (s : Semaphore) (o : Option Waiter) → (on_abort s o).max_concurrency ≡ s.max_concurrency
unfolding on_abort
on_abort-max_concurrency s none = refl
on_abort-max_concurrency s (some w) = refl

promote-max_concurrency :
    (s : Semaphore) (ws : List Waiter) → (promote s ws).max_concurrency ≡ s.max_concurrency
unfolding promote
promote-max_concurrency s [] = refl
promote-max_concurrency s (w ∷ ws) = refl

step-max_concurrency : (s : Semaphore) (e : Event) → (step s e).max_concurrency ≡ s.max_concurrency
unfolding step acquire enqueue_signal enqueue release drain expire abort
step-max_concurrency s (acquires now no_signal) = ground arith
step-max_concurrency s (acquires now live) = ground arith
step-max_concurrency s (acquires now already_aborted) = ground arith
step-max_concurrency s (releases i) = ground (
  arith,
  promote-max_concurrency
      (record s { unreleased = erase i s.unreleased; in_flight = s.in_flight - 1 }) s.waiters,
)
step-max_concurrency s (expires now i) = time_out-max_concurrency s now (find_waiter i s.timers)
step-max_concurrency s (aborts i) = on_abort-max_concurrency s (find_waiter i s.listeners)

pub run-max_concurrency :
    (s : Semaphore) (es : List Event) → (run s es).max_concurrency ≡ s.max_concurrency
unfolding run
run-max_concurrency s [] = refl
run-max_concurrency s (e ∷ es) = run-max_concurrency (step s e) es ∙ step-max_concurrency s e
