-- ===== src/Semaphore/Invariant.antt =====
-- Runs of the semaphore of router/src/concurrency/semaphore.ts.
use local_llms.Base.{ℕ, ◌≡◌, List, [], ◌∷◌}
use local_llms.Semaphore.{Semaphore, Event, acquires, releases, expires, aborts, init, step, run}
use local_llms.Semaphore.WellFormed.{Inv, IsBusy, init-Inv}
use local_llms.Semaphore.Admission.{acquire-Inv, release-Inv}
use local_llms.Semaphore.Departure.{expire-Inv, abort-Inv}
use local_llms.Semaphore.Busy.{step-IsBusy}
use local_llms.Semaphore.Limit.{run-max_concurrency}

pub step-Inv : (s : Semaphore) (e : Event) → Inv s → Inv (step s e)
unfolding step
step-Inv s (acquires now signal) v = acquire-Inv s now signal v
step-Inv s (releases i) v = release-Inv s i v
step-Inv s (expires now i) v = expire-Inv s now i v
step-Inv s (aborts i) v = abort-Inv s i v

run-Inv : (s : Semaphore) (es : List Event) → Inv s → IsBusy s → Inv (run s es) × IsBusy (run s es)
unfolding run
run-Inv s [] v b = (v, b)
run-Inv s (e ∷ es) v b = run-Inv (step s e) es (step-Inv s e v) (step-IsBusy s e v b)

-- After any sequence of acquires, releases, timeouts and aborts on a semaphore made with `limit`:
-- at most `limit` slots are held, and their number is that of the release closures still good, all
-- of different calls; the armed timers are those of the queued waiters, the attached listeners
-- those of the queued waiters that passed a signal; the queue is in the order of the calls, and no
-- queued call holds a slot or has its promise settled; queued calls and settled promises together
-- are as many as the calls made; and a call is queued only while all slots are held.
pub run-init-Inv :
    (limit : ℕ) (es : List Event)
    → ((run (init limit) es).max_concurrency ≡ limit)
      × Inv (run (init limit) es)
      × IsBusy (run (init limit) es)
unfolding init
run-init-Inv limit es =
    let (v, b) = run-Inv (init limit) es (init-Inv limit).0 (init-Inv limit).1 in
    (run-max_concurrency (init limit) es, v, b)
