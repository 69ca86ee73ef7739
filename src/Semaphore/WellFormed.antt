-- ===== src/Semaphore/WellFormed.antt =====
-- The well-formed states of the semaphore of router/src/concurrency/semaphore.ts.
use local_llms.Base.{ℕ, ◌+◌, ◌≤◌, ◌≡◌, refl, ◌⊎◌, inl, [], arith, length, All, Distinct}
use local_llms.Semaphore.{Semaphore, init}
use local_llms.Semaphore.Waiters.{Between, IsPending, Below, SettledBelow, signalled}

-- Everything but the rule that nobody waits while a slot is free.
pub record Inv (s : Semaphore) : Type 0 where
  pub limited : s.in_flight ≤ s.max_concurrency
  pub counted : s.in_flight ≡ length s.unreleased
  pub timed : s.timers ≡ s.waiters
  pub listened : s.listeners ≡ signalled s.waiters
  pub ordered : Between 0 s.waiters s.next_id
  pub distinct : Distinct s.unreleased
  pub pending : All (IsPending s.unreleased s.settled) s.waiters
  pub held_known : Below s.next_id s.unreleased
  pub settled_known : SettledBelow s.next_id s.settled
  pub conserved : length s.settled + length s.waiters ≡ s.next_id

abbrev pub IsBusy : Semaphore → Type 0
IsBusy s = (s.waiters ≡ []) ⊎ (s.in_flight ≡ s.max_concurrency)

pub init-Inv : (limit : ℕ) → Inv (init limit) × IsBusy (init limit)
unfolding init
init-Inv limit = (ground arith, inl refl)
