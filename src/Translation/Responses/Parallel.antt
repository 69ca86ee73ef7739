-- ===== src/Translation/Responses/Parallel.antt =====
-- Blocks that overlap in the events of a Responses stream
-- (router/src/translation/responses-stream.ts), as the tool calls of one answer do.
use local_llms.Base.{
  ℕ, ◌≤◌, Bool, true, false, Option, none, some, List, [], ◌∷◌, ◌++◌, Text, codes, ◌≡◌, ◌≢◌, refl,
  arith, All, All-append, ap, get_elem?,
}
use local_llms.Canonical.{ContentBlock, CanonicalResponse, text, image, tool_use, tool_result}
use local_llms.Canonical.Stream.{
  ContentBlockDelta, text_delta, input_json_delta, CanonicalStreamEvent, content_block_start,
  content_block_delta, content_block_stop, message_start, message_delta, message_stop, ping,
}
use local_llms.Translation.Follow.{fragment_events}
use local_llms.Translation.Emit.{◌then_run◌}
use local_llms.Translation.Responses.{
  OutputItemState, idle, in_text, in_function_call, OutputItem, message, function_call, Frame,
  output_item_done, State, Opts, Yields, on_block_start, on_delta, on_block_stop, on_event,
  events_loop, on_message_start, on_message_stop, function_call_added, finished, initial, on_throw,
  canonical_to_responses_sse,
}

abbrev pub item_id : OutputItem → Text
item_id (message id t) = id
item_id (function_call id call_id name args) = id

abbrev pub fsm_id : OutputItemState → Option Text
fsm_id idle = none
fsm_id (in_text id i acc) = some id
fsm_id (in_function_call id i call_id name args) = some id

-- The frame does not say that the item `id` is done.
abbrev pub IsOther : {J : Type 0} → Text → Frame J → Type 0
IsOther id f = elim f.body [ output_item_done i item ↦ item_id item ≢ id | _ ↦ Unit ]

abbrev pub is_item : {J : Type 0} → ContentBlock J → Bool
is_item (text t) = true
is_item (tool_use call_id name input) = true
is_item (image source) = false
is_item (tool_result id content is_error) = false

some_inj : {s t : Text} → some s ≡ some t → s ≡ t
some_inj e = grind arith

-- No ULID from the n-th on makes the item id again.
abbrev pub NeverAgain : (ℕ → Text) → Text → ℕ → Type 0
NeverAgain fresh id n =
    (k : ℕ) → n ≤ k → (codes "msg_" ++ fresh k ≢ id) × (codes "fc_" ++ fresh k ≢ id)

module _ {J : Type 0} (opts : Opts J) (id : Text) where
  -- The variables cannot complete the item `id` any more.
  record Lost (s : State) : Type 0 where
    other : fsm_id s.fsm ≢ some id
    later : NeverAgain opts.fresh id s.ulids

  abbrev LosesBy : Yields J → Type 0
  LosesBy p = Lost p.0 × All (IsOther id) p.1

  none-LosesBy : (s : State) → Lost s → LosesBy (s, [])
  none-LosesBy s h = (h, tt)

  then_run-LosesBy :
      (p : Yields J) (f : State → Yields J) → LosesBy p → LosesBy (f p.0) → LosesBy (p then_run f)
  then_run-LosesBy p f h k = (k.0, All-append (IsOther id) p.1 (f p.0).1 h.1 k.1)

  on_delta-LosesBy :
      (d : ContentBlockDelta) (m : OutputItemState) (s : State)
      → fsm_id m ≢ some id
      → Lost s
      → LosesBy (on_delta d m s)
  unfolding on_delta
  on_delta-LosesBy (text_delta t) (in_text j i acc) s o h =
      (record { other = o; later = h.later }, (tt, tt))
  on_delta-LosesBy (text_delta t) idle s o h = (h, tt)
  on_delta-LosesBy (text_delta t) (in_function_call j i call_id name args) s o h = (h, tt)
  on_delta-LosesBy (input_json_delta t) (in_function_call j i call_id name args) s o h =
      (record { other = o; later = h.later }, (tt, tt))
  on_delta-LosesBy (input_json_delta t) idle s o h = (h, tt)
  on_delta-LosesBy (input_json_delta t) (in_text j i acc) s o h = (h, tt)

  on_block_stop-LosesBy :
      (m : OutputItemState) (s : State) → fsm_id m ≢ some id → Lost s → LosesBy (on_block_stop m s)
  unfolding on_block_stop
  on_block_stop-LosesBy idle s o h = (h, tt)
  on_block_stop-LosesBy (in_text j i acc) s o h =
      (record { other = λ e. cc e; later = h.later }, (tt, (tt, ((λ e. o (ap some e)), tt))))
  on_block_stop-LosesBy (in_function_call j i call_id name args) s o h =
      (record { other = λ e. cc e; later = h.later }, (tt, ((λ e. o (ap some e)), tt)))

  -- A block of text or a tool call takes the place of what the variables had.
  on_block_start-LosesBy :
      (i : ℕ) (b : ContentBlock J) (s : State)
      → NeverAgain opts.fresh id s.ulids
      → is_item b ≡ true
      → LosesBy (on_block_start opts i b s)
  unfolding on_block_start
  on_block_start-LosesBy i (text t) s later e = (
    record {
      other = λ e. (later s.ulids (omega arith)).0 (some_inj e);
      later = λ k l. later k (omega arith);
    },
    (tt, (tt, tt)),
  )
  on_block_start-LosesBy i (tool_use call_id name input) s later e = (
    record {
      other = λ e. (later s.ulids (omega arith)).1 (some_inj e);
      later = λ k l. later k (omega arith);
    },
    (tt, tt),
  )
  on_block_start-LosesBy i (image source) s later e = absurd (cc e)
  on_block_start-LosesBy i (tool_result j content is_error) s later e = absurd (cc e)

  on_event-LosesBy : (e : CanonicalStreamEvent J) (s : State) → Lost s → LosesBy (on_event opts e s)
  unfolding on_event on_message_start on_block_start on_message_stop
  on_event-LosesBy (message_start upstream_id m) s h =
      (record { other = h.other; later = h.later }, (tt, (tt, tt)))
  on_event-LosesBy (content_block_start i (text t)) s h =
      on_block_start-LosesBy i (text t) s h.later refl
  on_event-LosesBy (content_block_start i (tool_use call_id name input)) s h =
      on_block_start-LosesBy i (tool_use call_id name input) s h.later refl
  on_event-LosesBy (content_block_start i (image source)) s h = (h, tt)
  on_event-LosesBy (content_block_start i (tool_result j content is_error)) s h = (h, tt)
  on_event-LosesBy (content_block_delta i d) s h = on_delta-LosesBy d s.fsm s h.other h
  on_event-LosesBy (content_block_stop i) s h = on_block_stop-LosesBy s.fsm s h.other h
  on_event-LosesBy (message_delta reason sequence u) s h =
      (record { other = h.other; later = h.later }, tt)
  on_event-LosesBy message_stop s h = (record { other = h.other; later = h.later }, (tt, tt))
  on_event-LosesBy ping s h = (h, tt)

  events_loop-LosesBy :
      (es : List (CanonicalStreamEvent J)) (s : State) → Lost s → LosesBy (events_loop opts es s)
  unfolding events_loop
  events_loop-LosesBy [] s h = (h, tt)
  events_loop-LosesBy (e ∷ es) s h =
      let k = on_event-LosesBy e s h in
      then_run-LosesBy (on_event opts e s) (events_loop opts es) k
        (events_loop-LosesBy es (on_event opts e s).0 k.0)

  -- A block that starts while the item `id` is still open takes its place: no later event is
  -- answered by a frame that says that this item is done.
  pub overlap_lem :
      (i : ℕ) (b : ContentBlock J) (es : List (CanonicalStreamEvent J)) (s : State)
      → is_item b ≡ true
      → NeverAgain opts.fresh id s.ulids
      → All (IsOther id) (events_loop opts (content_block_start i b ∷ es) s).1
  unfolding events_loop on_event
  overlap_lem i b es s e later =
      let k = on_block_start-LosesBy i b s later e in
      (then_run-LosesBy (on_block_start opts i b s) (events_loop opts es) k
        (events_loop-LosesBy es (on_block_start opts i b s).0 k.0)).1

  overlap_end :
      (i : ℕ) (b : ContentBlock J) (es : List (CanonicalStreamEvent J)) (s : State)
      → is_item b ≡ true
      → NeverAgain opts.fresh id s.ulids
      → All (IsOther id) ((events_loop opts (content_block_start i b ∷ es) s).1 ++ [])
  overlap_end i b es s e later =
      All-append (IsOther id) (events_loop opts (content_block_start i b ∷ es) s).1 []
        (overlap_lem i b es s e later) tt

module _ {J E : Type 0} (opts : Opts J) (describe : E → Text) where
  -- The stream of an answer whose first block, a tool call, is still open when the next starts.
  pub overlap_stream :
      (uid : Option Text) (m : CanonicalResponse J) (i : ℕ) (call_id name : Text) (input : J)
      (fragment : Option Text) (i' : ℕ) (b : ContentBlock J) (rest : List (CanonicalStreamEvent J))
      → is_item b ≡ true
      → NeverAgain opts.fresh (codes "fc_" ++ opts.fresh 0) 1
      → let id = codes "fc_" ++ opts.fresh 0 in
        let fs =
          (canonical_to_responses_sse opts describe
            (message_start uid m
              ∷ content_block_start i (tool_use call_id name input)
              ∷ (fragment_events i fragment ++ (content_block_start i' b ∷ rest)))
            finished).0 in
        (get_elem? fs 2
          ≡ some (record { sequence_number = 2; body = function_call_added i id call_id name }))
        × All (IsOther id) fs
  unfolding canonical_to_responses_sse events_loop on_event on_message_start on_block_start on_delta
      on_throw
  overlap_stream uid m i call_id name input none i' b rest e later =
      let es : List (CanonicalStreamEvent J) =
        message_start uid m ∷ content_block_start i (tool_use call_id name input) ∷ [] in
      let s = (events_loop opts es (initial opts)).0 in
      (refl, (tt, (tt, (tt, overlap_end opts (codes "fc_" ++ opts.fresh 0) i' b rest s e later))))
  overlap_stream uid m i call_id name input (some t) i' b rest e later =
      let es : List (CanonicalStreamEvent J) =
        message_start uid m
        ∷ content_block_start i (tool_use call_id name input)
        ∷ fragment_events i (some t) in
      let s = (events_loop opts es (initial opts)).0 in
      (
        refl,
        (tt, (tt, (tt, (tt, overlap_end opts (codes "fc_" ++ opts.fresh 0) i' b rest s e later)))),
      )
