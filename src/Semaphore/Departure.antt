-- ===== src/Semaphore/Departure.antt =====
-- Lemmas on the timeouts and aborts of router/src/concurrency/semaphore.ts.
use local_llms.Base.{
  ℕ, ◌≡◌, sym, ap, ◌∙◌, subst, inl, inr, some, List, arith, Option-cases, if◌then◌else◌,
}
use local_llms.Semaphore.{
  Semaphore, Waiter, Outcome, aborted, settle, find_waiter, remove_waiter, time_out, expire,
  on_abort, abort,
}
use local_llms.Semaphore.Waiters.{
  IsPending, signalled, Between-remove_waiter, find_waiter-id, find_waiter-lt, find_waiter-All,
  length-remove_waiter, IsPending-remove_waiter, signalled-remove_waiter, find_waiter-signalled,
  remove_waiter-signalled,
}
use local_llms.Semaphore.WellFormed.{Inv}

-- A waiter leaves the queue unserved, and its timer and listener go with it.
leave-Inv :
    (s : Semaphore) (w : Waiter) (o : Outcome) (listeners : List Waiter)
    → Inv s
    → find_waiter w.id s.waiters ≡ some w
    → listeners ≡ signalled (remove_waiter w.id s.waiters)
    → Inv (record s {
      timers = remove_waiter w.id s.timers;
      waiters = remove_waiter w.id s.waiters;
      listeners = listeners;
      settled = settle w.id o s.settled;
    })
leave-Inv s w o listeners v e l =
    let p = find_waiter-All (IsPending s.unreleased s.settled) w.id s.waiters w v.pending e in
    let unsettled = p.1 in
    record {
      limited = v.limited;
      counted = v.counted;
      timed = ap (remove_waiter w.id) v.timed;
      listened = l;
      ordered = Between-remove_waiter w.id 0 s.next_id s.waiters v.ordered;
      distinct = v.distinct;
      pending = rw unsettled (
          IsPending-remove_waiter w.id 0 s.next_id s.unreleased s.settled o s.waiters v.ordered
            v.pending);
      held_known = v.held_known;
      settled_known =
          rw unsettled
            ((find_waiter-lt w.id 0 s.next_id s.waiters w v.ordered e).1, v.settled_known);
      conserved =
          rw unsettled (omega (arith, v.conserved, length-remove_waiter w.id s.waiters w e));
    }

-- The callback that call `i` armed is that of its own entry in the queue.
found :
    (i : ℕ) (ws : List Waiter) (w : Waiter)
    → find_waiter i ws ≡ some w
    → find_waiter w.id ws ≡ some w
found i ws w e = subst (λ j. find_waiter j ws ≡ some w) (sym (find_waiter-id i ws w e)) e

detached :
    (s : Semaphore) (w : Waiter)
    → Inv s
    → find_waiter w.id s.waiters ≡ some w
    → (if w.signal then remove_waiter w.id s.listeners else s.listeners)
      ≡ signalled (remove_waiter w.id s.waiters)
detached s w v e = ground (
  arith,
  v.listened,
  signalled-remove_waiter w.id 0 s.next_id s.waiters v.ordered,
  remove_waiter-signalled w.id 0 s.next_id s.waiters w v.ordered e,
)

pub expire-Inv : (s : Semaphore) (now i : ℕ) → Inv s → Inv (expire s now i)
unfolding expire
expire-Inv s now i v = elim (Option-cases (find_waiter i s.timers)) [
  | inl e ↦ rw (e, time_out) v
  | inr (w, e) ↦
      rw (e, time_out)
        (let at : find_waiter i s.waiters ≡ some w =
            subst (λ ws. find_waiter i ws ≡ some w) v.timed e in
          let f = found i s.waiters w at in leave-Inv s w _ _ v f (detached s w v f))
]

pub abort-Inv : (s : Semaphore) (i : ℕ) → Inv s → Inv (abort s i)
unfolding abort
abort-Inv s i v = elim (Option-cases (find_waiter i s.listeners)) [
  | inl e ↦ rw (e, on_abort) v
  | inr (w, e) ↦
      rw (e, on_abort)
        (let at =
            find_waiter-signalled i 0 s.next_id s.waiters w v.ordered
              (subst (λ ws. find_waiter i ws ≡ some w) v.listened e) in
          let f = found i s.waiters w at.0 in
          leave-Inv s w aborted _ v f (
            ap (remove_waiter w.id) v.listened
            ∙ sym (signalled-remove_waiter w.id 0 s.next_id s.waiters v.ordered)))
]
