-- ===== src/Semaphore/Admission.antt =====
-- Lemmas on `acquire` and `release` of router/src/concurrency/semaphore.ts.
use local_llms.Base.{
  ℕ, suc, ◌+◌, ◌<◌, ◌≡◌, refl, ap, subst, inl, inr, Bool, true, false, List, [], ◌∷◌, ◌++◌, arith,
  length, length-append, All, All-append, includes, erase-Distinct, length-erase, Bool-cases, ltb,
  ltb→lt,
}
use local_llms.Semaphore.{
  Semaphore, Waiter, Signal, no_signal, live, already_aborted, granted, aborted, settle, promote,
  drain, enqueue, enqueue_signal, new_waiter, acquire, release,
}
use local_llms.Semaphore.Waiters.{
  Between, IsPending, Between-lower, Between-le, Between-push, Between-suc, IsPending-grant,
  IsPending-new, IsPending-erase, includes_fresh, is_settled_fresh, Below-suc, SettledBelow-suc,
  Below-erase, signalled-push,
}
use local_llms.Semaphore.WellFormed.{Inv}

promote-Inv :
    (s : Semaphore) (ws : List Waiter)
    → s.waiters ≡ ws
    → Inv s
    → s.in_flight < s.max_concurrency
    → Inv (promote s ws)
unfolding promote
promote-Inv s [] e v h = v
promote-Inv s (w ∷ ws) e v h =
    let o : Between 0 (w ∷ ws) s.next_id = subst (λ xs. Between 0 xs s.next_id) e v.ordered in
    let p : All (IsPending s.unreleased s.settled) (w ∷ ws) =
      subst (All (IsPending s.unreleased s.settled)) e v.pending in
    let lt = Between-le (suc w.id) s.next_id ws o.1 in
    let pw : IsPending s.unreleased s.settled w = p.0 in
    let rest = IsPending-grant w.id s.next_id s.unreleased s.settled granted ws o.1 p.1 in
    let known : w.id < s.next_id = lt in
    record {
      limited = omega arith;
      counted = omega (arith, v.counted);
      timed = rw (v.timed, e) (ground arith);
      listened = rw (v.listened, e) (ground arith);
      ordered = Between-lower 0 (suc w.id) s.next_id ws (omega arith) o.1;
      distinct = (pw.0, v.distinct);
      pending = ground (arith, rest);
      held_known = (known, v.held_known);
      settled_known = ground (arith, v.settled_known);
      conserved = ground (arith, ap length e, v.conserved);
    }

drain-Inv : (s : Semaphore) → Inv s → Inv (drain s)
unfolding drain
drain-Inv s v = ground (arith, v, promote-Inv s s.waiters refl v)

enqueue-Inv :
    (s : Semaphore) (now : ℕ) (signal : Bool) → Inv s → Inv (enqueue s (new_waiter s now signal))
unfolding enqueue
enqueue-Inv s now signal v =
    let w : Waiter = new_waiter s now signal in
    record {
      limited = v.limited;
      counted = v.counted;
      timed = ap (λ ws. ws ++ w ∷ []) v.timed;
      listened = rw (v.listened, signalled-push s.waiters w) refl;
      ordered = Between-push 0 s.next_id s.waiters w refl v.ordered;
      distinct = v.distinct;
      pending = All-append (IsPending s.unreleased s.settled) s.waiters (w ∷ []) v.pending (
        (
          includes_fresh s.next_id s.next_id s.unreleased v.held_known (omega arith),
          is_settled_fresh s.next_id s.next_id s.settled v.settled_known (omega arith),
        ),
        tt,
      );
      held_known = Below-suc s.next_id s.unreleased v.held_known;
      settled_known = SettledBelow-suc s.next_id s.settled v.settled_known;
      conserved = omega (arith, v.conserved, length-append s.waiters (w ∷ []));
    }

-- The next call's promise is settled at once.
settle_next-Inv :
    (s : Semaphore)
    → Inv s
    → Inv (record s { next_id = suc s.next_id; settled = settle s.next_id aborted s.settled })
settle_next-Inv s v =
    let fresh = is_settled_fresh s.next_id s.next_id s.settled v.settled_known (omega arith) in
    record {
      limited = v.limited;
      counted = v.counted;
      timed = v.timed;
      listened = v.listened;
      ordered = Between-suc 0 s.next_id s.waiters v.ordered;
      distinct = v.distinct;
      pending =
          rw fresh
            (IsPending-new s.next_id 0 s.unreleased s.settled aborted s.waiters v.ordered
              v.pending).0;
      held_known = Below-suc s.next_id s.unreleased v.held_known;
      settled_known = rw fresh (omega arith, SettledBelow-suc s.next_id s.settled v.settled_known);
      conserved = rw fresh (omega (arith, v.conserved));
    }

enqueue_signal-Inv :
    (s : Semaphore) (now : ℕ) (signal : Signal) → Inv s → Inv (enqueue_signal s now signal)
unfolding enqueue_signal
enqueue_signal-Inv s now no_signal v = enqueue-Inv s now false v
enqueue_signal-Inv s now live v = enqueue-Inv s now true v
enqueue_signal-Inv s now already_aborted v = settle_next-Inv s v

grant_next-Inv :
    (s : Semaphore)
    → s.in_flight < s.max_concurrency
    → Inv s
    → Inv (record s {
      next_id = suc s.next_id;
      in_flight = s.in_flight + 1;
      unreleased = s.next_id ∷ s.unreleased;
      settled = settle s.next_id granted s.settled;
    })
grant_next-Inv s h v =
    let fresh = is_settled_fresh s.next_id s.next_id s.settled v.settled_known (omega arith) in
    record {
      limited = omega arith;
      counted = omega (arith, v.counted);
      timed = v.timed;
      listened = v.listened;
      ordered = Between-suc 0 s.next_id s.waiters v.ordered;
      distinct =
          (includes_fresh s.next_id s.next_id s.unreleased v.held_known (omega arith), v.distinct);
      pending =
          rw fresh
            (IsPending-new s.next_id 0 s.unreleased s.settled granted s.waiters v.ordered
              v.pending).1;
      held_known = (omega arith, Below-suc s.next_id s.unreleased v.held_known);
      settled_known = rw fresh (omega arith, SettledBelow-suc s.next_id s.settled v.settled_known);
      conserved = rw fresh (omega (arith, v.conserved));
    }

pub acquire-Inv : (s : Semaphore) (now : ℕ) (signal : Signal) → Inv s → Inv (acquire s now signal)
unfolding acquire
acquire-Inv s now signal v = elim (Bool-cases (ltb s.in_flight s.max_concurrency)) [
  | inl free ↦ rw free (grant_next-Inv s (ltb→lt _ _ free) v)
  | inr full ↦ rw full (enqueue_signal-Inv s now signal v)
]

pub release-Inv : (s : Semaphore) (i : ℕ) → Inv s → Inv (release s i)
unfolding release
release-Inv s i v = elim (Bool-cases (includes i s.unreleased)) [
  | inr out ↦ rw out v
  | inl held ↦ rw held (
      drain-Inv _ (record {
        limited = omega (arith, v.limited);
        counted = omega (arith, v.counted, length-erase i s.unreleased held);
        timed = v.timed;
        listened = v.listened;
        ordered = v.ordered;
        distinct = erase-Distinct i s.unreleased v.distinct;
        pending = IsPending-erase i s.unreleased s.settled s.waiters v.pending;
        held_known = Below-erase s.next_id i s.unreleased v.held_known;
        settled_known = v.settled_known;
        conserved = v.conserved;
      }))
]
