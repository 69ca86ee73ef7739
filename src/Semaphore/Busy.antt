-- ===== src/Semaphore/Busy.antt =====
-- Lemmas on the queue and the free slots of router/src/concurrency/semaphore.ts.
use local_llms.Base.{
  ℕ, ◌+◌, ◌<◌, ◌≡◌, refl, ◌⊎◌, inl, inr, true, Option, none, some, List, [], ◌∷◌, arith, length,
  includes, Bool-cases,
}
use local_llms.Semaphore.{
  Semaphore, Waiter, no_signal, live, already_aborted, Event, acquires, releases, expires, aborts,
  find_waiter, drain, enqueue, enqueue_signal, acquire, release, time_out, expire, on_abort, abort,
  step,
}
use local_llms.Semaphore.WellFormed.{Inv, IsBusy}

drain-IsBusy :
    (s : Semaphore) (ws : List Waiter)
    → s.waiters ≡ ws
    → (ws ≡ []) ⊎ (s.in_flight + 1 ≡ s.max_concurrency)
    → IsBusy (drain s)
unfolding drain
drain-IsBusy s [] e b = inl (ground arith)
drain-IsBusy s (w ∷ ws) e b = ground arith

held_positive : (i : ℕ) (xs : List ℕ) → includes i xs ≡ true → 0 < length xs
held_positive i [] h = ground arith
held_positive i (x ∷ xs) h = omega arith

time_out-IsBusy :
    (s : Semaphore) (now : ℕ) (o : Option Waiter) → IsBusy s → IsBusy (time_out s now o)
unfolding time_out
time_out-IsBusy s now none b = b
time_out-IsBusy s now (some w) b = ground arith

on_abort-IsBusy : (s : Semaphore) (o : Option Waiter) → IsBusy s → IsBusy (on_abort s o)
unfolding on_abort
on_abort-IsBusy s none b = b
on_abort-IsBusy s (some w) b = ground arith

release-IsBusy : (s : Semaphore) (i : ℕ) → Inv s → IsBusy s → IsBusy (release s i)
unfolding release
release-IsBusy s i v b = elim (Bool-cases (includes i s.unreleased)) [
  | inr out ↦ rw out b
  | inl held ↦
      rw held (
        drain-IsBusy _ s.waiters refl
          (ground (arith, held_positive i s.unreleased held, v.counted)))
]

-- No event leaves a waiter queued beside a free slot.
pub step-IsBusy : (s : Semaphore) (e : Event) → Inv s → IsBusy s → IsBusy (step s e)
unfolding step acquire enqueue_signal enqueue expire abort
step-IsBusy s (acquires now no_signal) v b = ground arith
step-IsBusy s (acquires now live) v b = ground arith
step-IsBusy s (acquires now already_aborted) v b = ground arith
step-IsBusy s (releases i) v b = release-IsBusy s i v b
step-IsBusy s (expires now i) v b = time_out-IsBusy s now (find_waiter i s.timers) b
step-IsBusy s (aborts i) v b = on_abort-IsBusy s (find_waiter i s.listeners) b
