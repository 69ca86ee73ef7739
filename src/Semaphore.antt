-- ===== src/Semaphore.antt =====
-- The per-backend FIFO semaphore of router/src/concurrency/semaphore.ts.
-- A call of `acquire` is named by its number. What JavaScript keeps in closures is state here:
-- the armed timers, the attached abort listeners, the release closures whose `released` flag is
-- still false, and the settled promises. The callback of a timer or a listener holds its waiter.
pub mod Waiters
pub mod WellFormed
mod Admission
mod Departure
mod Busy
mod Limit
pub mod Invariant
pub mod Fairness
mod Tests
use local_llms.Base.{
  ℕ, suc, ◌+◌, ◌-◌, Bool, true, false, ◌&&◌, Option, none, some, List, [], ◌∷◌, ◌++◌, ltb, leb,
  ◌==◌, if◌then◌else◌, includes, erase,
}

-- What the promise of a call was settled with; `saturated` carries the time waited.
pub data Outcome : Type 0 where
  granted : Outcome
  saturated : ℕ → Outcome
  aborted : Outcome

-- `signal` is whether the call passed an AbortSignal.
pub record Waiter : Type 0 where
  pub id : ℕ
  pub started_at : ℕ
  pub signal : Bool

pub record Semaphore : Type 0 where
  pub max_concurrency : ℕ
  pub in_flight : ℕ
  pub waiters : List Waiter
  pub timers : List Waiter
  pub listeners : List Waiter
  pub unreleased : List ℕ
  pub settled : List (ℕ × Outcome)
  pub next_id : ℕ

pub init : ℕ → Semaphore
init limit = record {
  max_concurrency = limit;
  in_flight = 0;
  waiters = [];
  timers = [];
  listeners = [];
  unreleased = [];
  settled = [];
  next_id = 0;
}

abbrev pub is_settled : ℕ → List (ℕ × Outcome) → Bool
is_settled i [] = false
is_settled i ((j, o) ∷ log) = if j == i then true else is_settled i log

-- Only the first `resolve` or `reject` of a promise counts.
abbrev pub settle : ℕ → Outcome → List (ℕ × Outcome) → List (ℕ × Outcome)
settle i o log = if is_settled i log then log else (i, o) ∷ log

-- `removeWaiter`: `indexOf`, then `splice` if it was found.
abbrev pub remove_waiter : ℕ → List Waiter → List Waiter
remove_waiter i [] = []
remove_waiter i (w ∷ ws) = if w.id == i then ws else w ∷ remove_waiter i ws

abbrev pub find_waiter : ℕ → List Waiter → Option Waiter
find_waiter i [] = none
find_waiter i (w ∷ ws) = if w.id == i then some w else find_waiter i ws

-- The part of `drain` after `waiters.shift()`.
pub promote : Semaphore → List Waiter → Semaphore
promote s [] = s
promote s (next ∷ rest) = record s {
  waiters = rest;
  timers = remove_waiter next.id s.timers;
  listeners = if next.signal then remove_waiter next.id s.listeners else s.listeners;
  in_flight = s.in_flight + 1;
  unreleased = next.id ∷ s.unreleased;
  settled = settle next.id granted s.settled;
}

pub drain : Semaphore → Semaphore
unfolding promote
drain s = if leb s.max_concurrency s.in_flight then s else promote s s.waiters

-- The argument of a call: no signal, one that has not fired, or one already aborted.
pub data Signal : Type 0 where
  no_signal live already_aborted : Signal

enqueue : Semaphore → Waiter → Semaphore
enqueue s w = record s {
  next_id = suc s.next_id;
  timers = s.timers ++ w ∷ [];
  listeners = if w.signal then s.listeners ++ w ∷ [] else s.listeners;
  waiters = s.waiters ++ w ∷ [];
}

abbrev pub new_waiter : Semaphore → ℕ → Bool → Waiter
new_waiter s now signal = record { id = s.next_id; started_at = now; signal = signal }

-- The path below the test on `inFlight`.
enqueue_signal : Semaphore → ℕ → Signal → Semaphore
unfolding enqueue
enqueue_signal s now no_signal = enqueue s (new_waiter s now false)
enqueue_signal s now live = enqueue s (new_waiter s now true)
enqueue_signal s now already_aborted = record s {
  next_id = suc s.next_id;
  settled = settle s.next_id aborted s.settled;
}

pub acquire : Semaphore → ℕ → Signal → Semaphore
unfolding enqueue_signal
acquire s now signal =
    if ltb s.in_flight s.max_concurrency
    then record s {
      next_id = suc s.next_id;
      in_flight = s.in_flight + 1;
      unreleased = s.next_id ∷ s.unreleased;
      settled = settle s.next_id granted s.settled;
    }
    else enqueue_signal s now signal

-- The release closure of call `i`; a second call of it finds its `released` flag set.
pub release : Semaphore → ℕ → Semaphore
unfolding drain
release s i =
    if includes i s.unreleased
    then drain (record s { unreleased = erase i s.unreleased; in_flight = s.in_flight - 1 })
    else s

-- The timer callback of `w`, after the timer has fired.
time_out : Semaphore → ℕ → Option Waiter → Semaphore
time_out s now none = s
time_out s now (some w) = record s {
  timers = remove_waiter w.id s.timers;
  waiters = remove_waiter w.id s.waiters;
  listeners = if w.signal then remove_waiter w.id s.listeners else s.listeners;
  settled = settle w.id (saturated (now - w.started_at)) s.settled;
}

-- The timer of call `i` fires, if it is armed.
pub expire : Semaphore → ℕ → ℕ → Semaphore
unfolding time_out
expire s now i = time_out s now (find_waiter i s.timers)

-- The abort listener `onAbort` of `w`, attached with `once: true`.
on_abort : Semaphore → Option Waiter → Semaphore
on_abort s none = s
on_abort s (some w) = record s {
  listeners = remove_waiter w.id s.listeners;
  timers = remove_waiter w.id s.timers;
  waiters = remove_waiter w.id s.waiters;
  settled = settle w.id aborted s.settled;
}

-- The signal of call `i` aborts.
pub abort : Semaphore → ℕ → Semaphore
unfolding on_abort
abort s i = on_abort s (find_waiter i s.listeners)

-- What the event loop may run next.
pub data Event : Type 0 where
  acquires : ℕ → Signal → Event
  releases : ℕ → Event
  expires : ℕ → ℕ → Event
  aborts : ℕ → Event

pub step : Semaphore → Event → Semaphore
unfolding acquire release expire abort
step s (acquires now signal) = acquire s now signal
step s (releases i) = release s i
step s (expires now i) = expire s now i
step s (aborts i) = abort s i

pub run : Semaphore → List Event → Semaphore
run s [] = s
run s (e ∷ es) = run (step s e) es
