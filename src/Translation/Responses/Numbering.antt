-- ===== src/Translation/Responses/Numbering.antt =====
-- The sequence numbers of the frames of canonicalToResponsesSse
-- (router/src/translation/responses-stream.ts).
use local_llms.Base.{
  ℕ, suc, List, [], ◌∷◌, ◌++◌, Text, ◌≡◌, ◌+◌, length, length-append, arith, subst,
}
use local_llms.Canonical.{ContentBlock}
use local_llms.Canonical.Stream.{
  ContentBlockDelta, CanonicalStreamEvent, message_start, content_block_start, content_block_delta,
  content_block_stop, message_delta, message_stop, ping,
}
use local_llms.Translation.Emit.{◌then_run◌}
use local_llms.Translation.Responses.{
  OutputItemState, Frame, State, Opts, Ending, initial, Yields, on_message_start, on_block_start,
  on_delta, on_block_stop, on_message_stop, on_event, events_loop, on_throw,
  canonical_to_responses_sse,
}

module _ {J : Type 0} where
  -- The frames are numbered from `n` on.
  abbrev pub CountsFrom : ℕ → List (Frame J) → Type 0
  CountsFrom n [] = Unit
  CountsFrom n (f ∷ fs) = (f.sequence_number ≡ n) × CountsFrom (suc n) fs

  append-CountsFrom :
      (n : ℕ) (fs gs : List (Frame J))
      → CountsFrom n fs
      → CountsFrom (n + length fs) gs
      → CountsFrom n (fs ++ gs)
  append-CountsFrom n [] gs h k = subst (λ m. CountsFrom m gs) (omega arith) k
  append-CountsFrom n (f ∷ fs) gs (e, h) k =
      (e, append-CountsFrom (suc n) fs gs h (subst (λ m. CountsFrom m gs) (omega arith) k))

  -- A part of the body numbers what it yields, and the variable says the next number.
  pub record Numbers (s : State) (p : Yields J) : Type 0 where
    pub frames : CountsFrom s.sequence_number p.1
    pub next : p.0.sequence_number ≡ s.sequence_number + length p.1

  pub then_run-Numbers :
      (s : State) (p : Yields J) (f : State → Yields J)
      → Numbers s p
      → Numbers p.0 (f p.0)
      → Numbers s (p then_run f)
  then_run-Numbers s p f h k = record {
    frames =
        append-CountsFrom s.sequence_number p.1 (f p.0).1 h.frames
          (subst (λ m. CountsFrom m (f p.0).1) h.next k.frames);
    next = omega (arith, h.next, k.next, length-append p.1 (f p.0).1);
  }

  none-Numbers : (s : State) → Numbers s (s, [])
  none-Numbers s = record { frames = tt; next = omega arith }

  on_delta-Numbers :
      (d : ContentBlockDelta) (m : OutputItemState) (s : State) → Numbers s (on_delta {J = J} d m s)
  unfolding on_delta
  on_delta-Numbers d m s = ground arith

  on_block_stop-Numbers : (m : OutputItemState) (s : State) → Numbers s (on_block_stop {J = J} m s)
  unfolding on_block_stop
  on_block_stop-Numbers m s = ground arith

module _ {J : Type 0} (opts : Opts J) where
  on_block_start-Numbers :
      (i : ℕ) (b : ContentBlock J) (s : State) → Numbers s (on_block_start opts i b s)
  unfolding on_block_start
  on_block_start-Numbers i b s = ground arith

  on_event-Numbers : (e : CanonicalStreamEvent J) (s : State) → Numbers s (on_event opts e s)
  unfolding on_event on_message_start on_message_stop
  on_event-Numbers (message_start upstream_id m) s = ground arith
  on_event-Numbers (content_block_start i b) s = on_block_start-Numbers i b s
  on_event-Numbers (content_block_delta i d) s = on_delta-Numbers d s.fsm s
  on_event-Numbers (content_block_stop i) s = on_block_stop-Numbers s.fsm s
  on_event-Numbers (message_delta reason sequence u) s = ground arith
  on_event-Numbers message_stop s = ground arith
  on_event-Numbers ping s = none-Numbers s

  events_loop-Numbers :
      (es : List (CanonicalStreamEvent J)) (s : State) → Numbers s (events_loop opts es s)
  unfolding events_loop
  events_loop-Numbers [] s = none-Numbers s
  events_loop-Numbers (e ∷ es) s =
      then_run-Numbers s (on_event opts e s) (events_loop opts es) (on_event-Numbers e s)
        (events_loop-Numbers es (on_event opts e s).0)

  on_throw-Numbers :
      {E : Type 0} (describe : E → Text) (ending : Ending E) (s : State)
      → Numbers s (on_throw opts describe ending s)
  unfolding on_throw
  on_throw-Numbers describe ending s = ground arith

  -- Whatever the events are and however the upstream ends, the frames are numbered 0, 1, 2 and so
  -- on without a gap.
  pub canonical_to_responses_sse-CountsFrom :
      {E : Type 0} (describe : E → Text) (es : List (CanonicalStreamEvent J)) (ending : Ending E)
      → CountsFrom 0 (canonical_to_responses_sse opts describe es ending).0
  unfolding canonical_to_responses_sse
  canonical_to_responses_sse-CountsFrom describe es ending =
      let r = events_loop opts es (initial opts) in
      (then_run-Numbers (initial opts) r (on_throw opts describe ending)
        (events_loop-Numbers es (initial opts)) (on_throw-Numbers describe ending r.0)).frames
