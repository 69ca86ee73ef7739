-- ===== src/Semaphore/Fairness.antt =====
-- Who gets the slot that comes back, and what a callback that comes too late does
-- (router/src/concurrency/semaphore.ts).
use local_llms.Base.{
  ℕ, ◌-◌, ◌≡◌, refl, sym, subst, inl, inr, true, false, none, List, [], ◌∷◌, arith, All, includes,
  erase, length-erase, includes-erase_self, Bool-cases, Option-cases, ◌==◌, ==_iff,
}
use local_llms.Semaphore.{
  Semaphore, Waiter, Outcome, granted, find_waiter, promote, drain, release, time_out, expire,
  on_abort, abort,
}
use local_llms.Semaphore.Waiters.{IsPending, signalled, find_waiter-signalled}
use local_llms.Semaphore.WellFormed.{Inv}

-- A released slot goes to the call that has waited longest: its promise is granted, it leaves the
-- head of the queue, it holds a slot, and the number of slots held stays as it was.
pub release_serves_oldest :
    (s : Semaphore) (i : ℕ) (w : Waiter) (ws : List Waiter)
    → Inv s
    → includes i s.unreleased ≡ true
    → s.waiters ≡ w ∷ ws
    → ((release s i).waiters ≡ ws)
      × ((release s i).in_flight ≡ s.in_flight)
      × ((release s i).unreleased ≡ w.id ∷ erase i s.unreleased)
      × ((release s i).settled ≡ (w.id, granted) ∷ s.settled)
      × ((release s i).timers ≡ ws)
unfolding release drain promote
release_serves_oldest s i w ws v h e =
    let p : All (IsPending s.unreleased s.settled) (w ∷ ws) =
      subst (All (IsPending s.unreleased s.settled)) e v.pending in
    ground (arith, p.0.1, v.timed, v.limited, v.counted, length-erase i s.unreleased h)

held-not_waiting :
    (i : ℕ) (held : List ℕ) (log : List (ℕ × Outcome)) (ws : List Waiter)
    → includes i held ≡ true
    → All (IsPending held log) ws
    → find_waiter i ws ≡ none
held-not_waiting i held log [] h a = refl
held-not_waiting i held log (w ∷ ws) h a =
    let same : (w.id == i) ≡ true → includes w.id held ≡ true =
      λ e. subst (λ j. includes j held ≡ true) (sym ((==_iff w.id i).0 e)) h in
    elim (Bool-cases (w.id == i)) [
      | inl e ↦ absurd (cc (same e, a.0.0))
      | inr e ↦ rw e (held-not_waiting i held log ws h a.1)
    ]

drain-unreleased :
    (s : Semaphore) (ws : List Waiter) (i : ℕ)
    → s.waiters ≡ ws
    → find_waiter i ws ≡ none
    → includes i s.unreleased ≡ false
    → includes i (drain s).unreleased ≡ false
unfolding drain promote
drain-unreleased s [] i e f h = ground arith
drain-unreleased s (w ∷ ws) i e f h = ground arith

-- A release closure called a second time does nothing.
pub release_twice : (s : Semaphore) (i : ℕ) → Inv s → release (release s i) i ≡ release s i
unfolding release
release_twice s i v = elim (Bool-cases (includes i s.unreleased)) [
  | inr out ↦ rw (out, out)
  | inl held ↦
      let gone =
        drain-unreleased
          (record s { unreleased = erase i s.unreleased; in_flight = s.in_flight - 1 }) s.waiters i
          refl (held-not_waiting i s.unreleased s.settled s.waiters held v.pending)
          (includes-erase_self i s.unreleased v.distinct) in
      rw (held, gone)
]

-- Once a call holds its slot, its timer and its signal no longer do anything.
pub granted_is_final :
    (s : Semaphore) (i now : ℕ)
    → Inv s
    → includes i s.unreleased ≡ true
    → (expire s now i ≡ s) × (abort s i ≡ s)
unfolding expire abort
granted_is_final s i now v h =
    let absent = held-not_waiting i s.unreleased s.settled s.waiters h v.pending in
    (
      rw (subst (λ ws. find_waiter i ws ≡ none) (sym v.timed) absent, time_out),
      rw (subst (λ ws. find_waiter i ws ≡ none) (sym v.listened) (not_signalled absent), on_abort),
    )
  where
    not_signalled : find_waiter i s.waiters ≡ none → find_waiter i (signalled s.waiters) ≡ none
    not_signalled absent = elim (Option-cases (find_waiter i (signalled s.waiters))) [
      | inl e ↦ e
      | inr (w, e) ↦
          absurd (cc (absent, (find_waiter-signalled i 0 s.next_id s.waiters w v.ordered e).0))
    ]
