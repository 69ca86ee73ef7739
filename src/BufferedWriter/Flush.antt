-- ===== src/BufferedWriter/Flush.antt =====
-- The well-formed states of the buffer of router/src/db/bufferedWriter.ts, and lemmas on flushing it.
use local_llms.Base.{
  ℕ, ◌+◌, ◌-◌, ◌≤◌, min, ◌≡◌, refl, ap, ◌⊎◌, inl, inr, Bool, true, false, not, ◌&&◌, ◌||◌, List, [],
  ◌++◌, ltb, ◌==◌, length, take, drop, arith, length-append, length-take, length-drop,
  take-append-drop, append_assoc, Bool-cases,
}
use local_llms.BufferedWriter.{Writer, max_batch_rows, flush, inserted, restore}
use local_llms.BufferedWriter.Subsequence.{Subsequence, whole, join, chain, dropped}

module _ {A : Type 0} where
  -- The rows that are safe or may still be written, oldest first.
  abbrev pub kept : Writer A → List A
  kept w = w.stored ++ (w.batch ++ w.buf)

  -- `seen` is what has been accepted so far.
  pub record Inv (seen : List A) (w : Writer A) : Type 0 where
    pub bounded : length w.buf ≤ w.capacity
    pub batch_bounded : (length w.batch ≤ w.capacity) × (length w.batch ≤ max_batch_rows)
    pub idle : (w.flushing ≡ true) ⊎ (w.batch ≡ [])
    pub in_order : Subsequence (kept w) seen
    pub counted : length w.stored + length w.batch + length w.buf + w.dropped ≡ length seen

  -- The synchronous part of a flush that goes ahead.
  abbrev pub started : Writer A → Writer A
  started w = record w {
    flushing = true;
    batch = take (min (length w.buf) max_batch_rows) w.buf;
    buf = drop (min (length w.buf) max_batch_rows) w.buf;
  }

  started-Inv : (seen : List A) (w : Writer A) → w.batch ≡ [] → Inv seen w → Inv seen (started w)
  started-Inv seen w none_out v =
      let n = min (length w.buf) max_batch_rows in
      let whole_again : take n w.buf ++ drop n w.buf ≡ w.batch ++ w.buf =
        rw none_out (take-append-drop n w.buf) in
      record {
        bounded = omega (arith, v.bounded, length-drop n w.buf);
        batch_bounded =
            (omega (arith, v.bounded, length-take n w.buf), omega (arith, length-take n w.buf));
        idle = inl refl;
        in_order = rw whole_again v.in_order;
        counted =
            omega (arith, v.counted, ap length none_out, length-take n w.buf, length-drop n w.buf);
      }

  pub flush_cases :
      (force : Bool) (w : Writer A)
      → (flush force w ≡ w) ⊎ ((w.flushing ≡ false) × (flush force w ≡ started w))
  unfolding flush
  flush_cases force w = elim (Bool-cases w.flushing) [
    | inl e ↦ inl (rw e)
    | inr e ↦ elim (Bool-cases (length w.buf == 0 || w.stopped && not force)) [
      | inl d ↦ inl (rw (e, d))
      | inr d ↦ inr (e, rw (e, d))
    ]
  ]

  pub idle_batch :
      (w : Writer A) → w.flushing ≡ false → (w.flushing ≡ true) ⊎ (w.batch ≡ []) → w.batch ≡ []
  idle_batch w idle (inl busy) = absurd (cc (idle, busy))
  idle_batch w idle (inr none_out) = none_out

  pub flush-Inv :
      (force : Bool) (seen : List A) (w : Writer A) → Inv seen w → Inv seen (flush force w)
  flush-Inv force seen w v = elim (flush_cases force w) [
    | inl e ↦ rw e v
    | inr (idle, e) ↦ rw e (started-Inv seen w (idle_batch w idle v.idle) v)
  ]

  pub inserted-Inv : (seen : List A) (w : Writer A) → Inv seen w → Inv seen (inserted w)
  unfolding inserted
  inserted-Inv seen w v = record {
    bounded = v.bounded;
    batch_bounded = (omega arith, omega arith);
    idle = inr refl;
    in_order = rw (append_assoc w.stored w.batch w.buf) v.in_order;
    counted = omega (arith, v.counted, length-append w.stored w.batch);
  }

  pub restore-Inv :
      (seen : List A) (w : Writer A) (overflow : ℕ)
      → overflow ≡ length w.buf + length w.batch - w.capacity
      → Inv seen w
      → Inv seen (restore w overflow)
  unfolding restore
  restore-Inv seen w overflow e v = elim (Bool-cases (ltb 0 overflow)) [
    | inr fits ↦ rw fits record {
      bounded = ground (arith, v.bounded, length-append w.batch w.buf);
      batch_bounded = (omega arith, omega arith);
      idle = inr refl;
      in_order = v.in_order;
      counted = omega (arith, v.counted, length-append w.batch w.buf);
    }
    | inl over ↦ rw over record {
      bounded = omega (
        arith,
        v.bounded,
        v.batch_bounded.0,
        length-append w.batch (drop overflow w.buf),
        length-drop overflow w.buf,
      );
      batch_bounded = (omega arith, omega arith);
      idle = inr refl;
      in_order =
          chain v.in_order (join (whole w.stored) (join (whole w.batch) (dropped overflow w.buf)));
      counted = omega (
        arith,
        v.counted,
        v.batch_bounded.0,
        v.bounded,
        length-append w.batch (drop overflow w.buf),
        length-drop overflow w.buf,
        length-take overflow w.buf,
      );
    }
  ]
