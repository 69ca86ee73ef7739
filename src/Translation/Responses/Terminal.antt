-- ===== src/Translation/Responses/Terminal.antt =====
-- How the frames of canonicalToResponsesSse end (router/src/translation/responses-stream.ts).
use local_llms.Base.{
  ℕ, Bool, true, false, not, ◌&&◌, Option, none, some, List, [], ◌∷◌, ◌++◌, Text, ◌≡◌, refl, ◌∙◌,
  ap, if◌then◌else◌, arith, sym, append_assoc, append-nil, Bool-cases, inl, inr,
}
use local_llms.Canonical.{ContentBlock, StopReason}
use local_llms.Canonical.Stream.{
  ContentBlockDelta, CanonicalStreamEvent, message_start, content_block_start, content_block_delta,
  content_block_stop, message_delta, message_stop, ping,
}
use local_llms.Translation.Follow.{is_message_stop, no_stop}
use local_llms.Translation.Emit.{◌then_run◌}
use local_llms.Translation.Responses.{
  OutputItemState, Status, completed, incomplete, failed, Frame, FrameBody, response_completed,
  response_failed, State, Opts, finished, threw, initial, Yields, on_message_start, on_block_start,
  on_delta, on_block_stop, on_message_stop, on_event, events_loop, on_throw,
  canonical_to_responses_sse, make_response_envelope, is_tool_call,
}

module _ {J : Type 0} where
  abbrev pub is_terminal : FrameBody J → Bool
  is_terminal (response_completed e) = true
  is_terminal (response_failed e) = true
  is_terminal _ = false

  abbrev pub no_terminal : List (Frame J) → Bool
  no_terminal [] = true
  no_terminal (f ∷ fs) = not (is_terminal f.body) && no_terminal fs

  -- The last frame, and it alone, is `response.completed` or `response.failed`.
  abbrev pub ends_once : List (Frame J) → Bool
  ends_once [] = false
  ends_once (f ∷ []) = is_terminal f.body
  ends_once (f ∷ g ∷ fs) = not (is_terminal f.body) && ends_once (g ∷ fs)

  abbrev pub last_status : List (Frame J) → Option Status
  last_status [] = none
  last_status (f ∷ []) = elim f.body [
    | response_completed e ↦ some e.status
    | response_failed e ↦ some e.status
    | _ ↦ none
  ]
  last_status (f ∷ g ∷ fs) = last_status (g ∷ fs)

  no_terminal-append :
      (fs gs : List (Frame J))
      → no_terminal fs ≡ true
      → no_terminal gs ≡ true
      → no_terminal (fs ++ gs) ≡ true
  no_terminal-append [] gs h k = k
  no_terminal-append (f ∷ fs) gs h k = ground (arith, no_terminal-append fs gs)

  ends_once-append :
      (fs : List (Frame J)) (f : Frame J)
      → no_terminal fs ≡ true
      → is_terminal f.body ≡ true
      → ends_once (fs ++ (f ∷ [])) ≡ true
  ends_once-append [] f h k = k
  ends_once-append (g ∷ []) f h k = ground arith
  ends_once-append (g ∷ g' ∷ fs) f h k = ground (arith, ends_once-append (g' ∷ fs) f)

  last_status-append :
      (fs : List (Frame J)) (f : Frame J) → last_status (fs ++ (f ∷ [])) ≡ last_status (f ∷ [])
  last_status-append [] f = refl
  last_status-append (g ∷ []) f = refl
  last_status-append (g ∷ g' ∷ fs) f = last_status-append (g' ∷ fs) f

module _ {J : Type 0} (opts : Opts J) where
  on_delta_quiet :
      (d : ContentBlockDelta) (m : OutputItemState) (s : State)
      → no_terminal {J = J} (on_delta d m s).1 ≡ true
  unfolding on_delta
  on_delta_quiet d m s = ground arith

  on_block_stop_quiet :
      (m : OutputItemState) (s : State) → no_terminal {J = J} (on_block_stop m s).1 ≡ true
  unfolding on_block_stop
  on_block_stop_quiet m s = ground arith

  on_event_quiet :
      (e : CanonicalStreamEvent J) (s : State)
      → is_message_stop e ≡ false
      → no_terminal (on_event opts e s).1 ≡ true
  unfolding on_event on_message_start on_block_start
  on_event_quiet (message_start upstream_id m) s h = refl
  on_event_quiet (content_block_start i b) s h = ground arith
  on_event_quiet (content_block_delta i d) s h = on_delta_quiet d s.fsm s
  on_event_quiet (content_block_stop i) s h = on_block_stop_quiet s.fsm s
  on_event_quiet (message_delta reason sequence u) s h = refl
  on_event_quiet message_stop s h = ground arith
  on_event_quiet ping s h = refl

  events_loop_quiet :
      (es : List (CanonicalStreamEvent J)) (s : State)
      → no_stop es ≡ true
      → no_terminal (events_loop opts es s).1 ≡ true
  unfolding events_loop
  events_loop_quiet [] s h = refl
  events_loop_quiet (e ∷ es) s h =
      no_terminal-append (on_event opts e s).1 (events_loop opts es (on_event opts e s).0).1
        (on_event_quiet e s (ground arith))
        (events_loop_quiet es (on_event opts e s).0 (ground arith))

  pub events_loop-append :
      (es es' : List (CanonicalStreamEvent J)) (s : State)
      → events_loop opts (es ++ es') s ≡ (events_loop opts es s then_run events_loop opts es')
  unfolding events_loop
  events_loop-append [] es' s = refl
  events_loop-append (e ∷ es) es' s =
      let p = on_event opts e s in
      let q = events_loop opts es p.0 in
      ap (λ (r : Yields J). (r.0, p.1 ++ r.1)) (events_loop-append es es' p.0)
      ∙ ap (λ fs. ((events_loop opts es' q.0).0, fs))
          (sym (append_assoc p.1 q.1 (events_loop opts es' q.0).1))

-- The last stop reason that the events bring.
abbrev pub reason_of :
    {J : Type 0} → List (CanonicalStreamEvent J) → Option StopReason → Option StopReason
reason_of [] r = r
reason_of (message_delta reason sequence u ∷ es) r = reason_of es reason
reason_of (_ ∷ es) r = reason_of es r

module _ {J : Type 0} (opts : Opts J) where
  on_delta_reason :
      (d : ContentBlockDelta) (m : OutputItemState) (s : State)
      → (on_delta {J = J} d m s).0.last_stop_reason ≡ s.last_stop_reason
  unfolding on_delta
  on_delta_reason d m s = ground arith

  on_block_stop_reason :
      (m : OutputItemState) (s : State)
      → (on_block_stop {J = J} m s).0.last_stop_reason ≡ s.last_stop_reason
  unfolding on_block_stop
  on_block_stop_reason m s = ground arith

  on_block_start_reason :
      (i : ℕ) (b : ContentBlock J) (s : State)
      → (on_block_start opts i b s).0.last_stop_reason ≡ s.last_stop_reason
  unfolding on_block_start
  on_block_start_reason i b s = ground arith

  events_loop_reason :
      (es : List (CanonicalStreamEvent J)) (s : State)
      → (events_loop opts es s).0.last_stop_reason ≡ reason_of es s.last_stop_reason
  unfolding events_loop on_event on_message_start on_message_stop
  events_loop_reason [] s = refl
  events_loop_reason (message_start upstream_id m ∷ es) s =
      events_loop_reason es (on_event opts (message_start upstream_id m) s).0
  events_loop_reason (content_block_start i b ∷ es) s =
      events_loop_reason es (on_block_start opts i b s).0
      ∙ ap (reason_of es) (on_block_start_reason i b s)
  events_loop_reason (content_block_delta i d ∷ es) s =
      events_loop_reason es (on_delta {J = J} d s.fsm s).0
      ∙ ap (reason_of es) (on_delta_reason d s.fsm s)
  events_loop_reason (content_block_stop i ∷ es) s =
      events_loop_reason es (on_block_stop {J = J} s.fsm s).0
      ∙ ap (reason_of es) (on_block_stop_reason s.fsm s)
  events_loop_reason (message_delta reason sequence u ∷ es) s =
      events_loop_reason es (on_event opts (message_delta reason sequence u) s).0
  events_loop_reason (message_stop ∷ es) s = events_loop_reason es (on_event opts message_stop s).0
  events_loop_reason (ping ∷ es) s = events_loop_reason es s

  on_message_stop-frames :
      (s : State)
      → (f : Frame J) × ((on_message_stop opts s).1 ≡ f ∷ [])
        × (is_terminal f.body ≡ true)
        × (last_status (f ∷ [])
            ≡ some (if is_tool_call s.last_stop_reason then incomplete else completed))
  unfolding on_message_stop make_response_envelope
  on_message_stop-frames s = (_, refl, refl, refl)

  pub frames_end :
      {E : Type 0} (describe : E → Text) (es : List (CanonicalStreamEvent J))
      → let r = events_loop opts es (initial opts) in
        (canonical_to_responses_sse opts describe (es ++ (message_stop ∷ [])) finished).0
        ≡ r.1 ++ (on_message_stop opts r.0).1
  unfolding canonical_to_responses_sse on_throw events_loop on_event
  frames_end describe es =
      let r = events_loop opts es (initial opts) in
      append-nil (events_loop opts (es ++ (message_stop ∷ [])) (initial opts)).1
      ∙ ap (λ (p : Yields J). p.1) (events_loop-append opts es (message_stop ∷ []) (initial opts))
      ∙ ap (◌++◌ r.1) (append-nil (on_message_stop opts r.0).1)

  -- Where the upstream's events hold one `message_stop`, at their end, one terminal frame is sent,
  -- at the end: `response.completed`, incomplete where the last stop reason is a tool call.
  pub responses_end :
      {E : Type 0} (describe : E → Text) (es : List (CanonicalStreamEvent J))
      → no_stop es ≡ true
      → let fs =
          (canonical_to_responses_sse opts describe (es ++ (message_stop ∷ [])) finished).0 in
        (ends_once fs ≡ true)
        × (last_status fs
            ≡ some (if is_tool_call (reason_of es none) then incomplete else completed))
  responses_end describe es h =
      let r = events_loop opts es (initial opts) in
      let (f, e, t, l) = on_message_stop-frames r.0 in
      let q = events_loop_quiet opts es (initial opts) h in
      let eq = frames_end describe es ∙ ap (◌++◌ r.1) e in
      rw eq (
        ends_once-append r.1 f q t,
        last_status-append r.1 f
            ∙ l
            ∙ ap (λ o. some (if is_tool_call o then incomplete else completed))
                (events_loop_reason es (initial opts)),
      )

  -- Where the upstream throws before any `message_stop`, `response.failed` alone is terminal and last, unless the
  -- client is gone: then no terminal frame is sent, and the clean-up is told of no error.
  pub responses_throw :
      {E : Type 0} (describe : E → Text) (es : List (CanonicalStreamEvent J)) (err : E)
      → no_stop es ≡ true
      → let (fs, cleanup) = canonical_to_responses_sse opts describe es (threw err) in
        if opts.aborted
        then (no_terminal fs ≡ true) × (cleanup.error ≡ none)
        else (ends_once fs ≡ true) × (last_status fs ≡ some failed) × (cleanup.error ≡ some err)
  unfolding canonical_to_responses_sse on_throw make_response_envelope
  responses_throw describe es err h =
      let r = events_loop opts es (initial opts) in
      let q = events_loop_quiet opts es (initial opts) h in
      elim (Bool-cases opts.aborted) [
        | inl a ↦ rw (canonical_to_responses_sse, on_throw, a) (rw (append-nil r.1) q, refl)
        | inr a ↦
            rw (canonical_to_responses_sse, on_throw, a)
              (ends_once-append r.1 _ q refl, last_status-append r.1 _, refl)
      ]
