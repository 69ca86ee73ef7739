-- ===== src/Semaphore/Tests.antt =====
-- The theorems of the semaphore at one busy backend, and runs of it.
use local_llms.Base.{◌≡◌, refl, true, false, List, [], ◌∷◌}
use local_llms.Semaphore.{
  Semaphore, Waiter, granted, saturated, aborted, Event, acquires, releases, expires, aborts,
  no_signal, live, already_aborted, init, run, step,
}
use local_llms.Semaphore.WellFormed.{Inv, IsBusy}
use local_llms.Semaphore.Invariant.{run-init-Inv}

-- Two slots, and four calls: the third and the fourth wait.
abbrev calls : List Event
calls = acquires 0 no_signal ∷ acquires 1 live ∷ acquires 2 live ∷ acquires 3 no_signal ∷ []

abbrev busy : Semaphore
unfolding run step init
busy = run (init 2) calls

abbrev third : Waiter
third = record { id = 2; started_at = 2; signal = true }

abbrev fourth : Waiter
fourth = record { id = 3; started_at = 3; signal = false }

outcomes :
    (run busy
      (releases 0 ∷ releases 0 ∷ expires 9 3 ∷ aborts 2 ∷ acquires 9 already_aborted ∷ [])).settled
    ≡ (4, aborted) ∷ (3, saturated 6) ∷ (2, granted) ∷ (1, granted) ∷ (0, granted) ∷ []
unfolding run step init
outcomes = refl

run-init-Inv_example :
    ((run (init 2) calls).max_concurrency ≡ 2)
    × Inv (run (init 2) calls)
    × IsBusy (run (init 2) calls)
run-init-Inv_example = run-init-Inv 2 calls

busy-Inv : Inv (run (init 2) calls)
busy-Inv = (run-init-Inv 2 calls).1
