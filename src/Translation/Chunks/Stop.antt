-- ===== src/Translation/Chunks/Stop.antt =====
-- Where openAIChunksToCanonicalEvents (router/src/translation/openai-out.ts) yields message_stop.
use local_llms.Base.{
  ℕ, true, Option, none, some, List, [], ◌∷◌, ◌++◌, Text, ◌≡◌, refl, sym, arith, append_assoc,
}
use local_llms.Canonical.Stream.{CanonicalStreamEvent, message_stop}
use local_llms.Translation.Emit.{◌then_run◌}
use local_llms.Translation.Follow.{no_stop, no_stop-append}
use local_llms.Translation.Chunks.{
  Opts, Chunk, Choice, ChunkUsage, ToolCallDelta, ToolState, State, initial, filled, noted,
  close_text, close_tools, closing_events, start_message, text_part, open_block, open_tool,
  add_fragment, known_tool, register, first_sighting, tool_call, tool_calls_part, choice_part,
  usage_part, delta_of_usage, chunk_step, chunks_loop, end_part, openai_chunks_to_canonical_events,
}

module _ {J : Type 0} (opts : Opts J) where
  closing_no_stop : (m : List (ℕ × ToolState)) → no_stop {J = J} (closing_events m) ≡ true
  closing_no_stop [] = refl
  closing_no_stop ((k, st) ∷ m) = ground (arith, closing_no_stop m)

  closed_no_stop : (s : State) → no_stop {J = J} (close_text s then_run close_tools).1 ≡ true
  unfolding close_text close_tools
  closed_no_stop s = ground (arith, closing_no_stop s.tool_call_state)

  known_tool-no_stop :
      (tc : ToolCallDelta) (st : ToolState) (s : State) → no_stop (known_tool opts tc st s).1 ≡ true
  unfolding known_tool open_tool open_block add_fragment close_text
  known_tool-no_stop tc st s = ground arith

  tool_call-no_stop : (tc : ToolCallDelta) (s : State) → no_stop (tool_call opts tc s).1 ≡ true
  unfolding tool_call first_sighting register
  tool_call-no_stop tc s = ground (arith, known_tool-no_stop tc)

  tool_calls_no_stop :
      (tcs : List ToolCallDelta) (s : State) → no_stop (tool_calls_part opts tcs s).1 ≡ true
  unfolding tool_calls_part
  tool_calls_no_stop [] s = refl
  tool_calls_no_stop (tc ∷ tcs) s =
      no_stop-append (tool_call opts tc s).1 _ (tool_call-no_stop tc s)
        (tool_calls_no_stop tcs (tool_call opts tc s).0)

  text_no_stop : (t : Option Text) (s : State) → no_stop {J = J} (text_part t s).1 ≡ true
  unfolding text_part
  text_no_stop t s = ground arith

  choice_no_stop : (c : Option Choice) (s : State) → no_stop (choice_part opts c s).1 ≡ true
  unfolding choice_part
  choice_no_stop none s = refl
  choice_no_stop (some c) s =
      let p = text_part {J = J} (filled c.content) (noted c.finish_reason s) in
      no_stop-append p.1 (tool_calls_part opts c.tool_calls p.0).1
        (text_no_stop (filled c.content) (noted c.finish_reason s))
        (tool_calls_no_stop c.tool_calls p.0)

  usage_no_stop : (u : Option ChunkUsage) (s : State) → no_stop {J = J} (usage_part u s).1 ≡ true
  unfolding usage_part
  usage_no_stop none s = refl
  usage_no_stop (some u) s =
      no_stop-append (close_text s then_run close_tools).1
        (delta_of_usage u (close_text {J = J} s then_run close_tools).0).1 (closed_no_stop s) refl

  chunk_no_stop : (c : Chunk) (s : State) → no_stop (chunk_step opts c s).1 ≡ true
  unfolding chunk_step start_message
  chunk_no_stop c s =
      let p = start_message opts c.id s in
      let q = choice_part opts c.choice p.0 in
      no_stop-append (p.1 ++ q.1) (usage_part {J = J} c.usage q.0).1
        (no_stop-append p.1 q.1 (ground arith) (choice_no_stop c.choice p.0))
        (usage_no_stop c.usage q.0)

  chunks_no_stop : (cs : List Chunk) (s : State) → no_stop (chunks_loop opts cs s).1 ≡ true
  unfolding chunks_loop
  chunks_no_stop [] s = refl
  chunks_no_stop (c ∷ cs) s =
      no_stop-append (chunk_step opts c s).1 (chunks_loop opts cs (chunk_step opts c s).0).1
        (chunk_no_stop c s) (chunks_no_stop cs (chunk_step opts c s).0)

  -- The events end with a `message_stop`, and hold no other.
  pub openai_chunks_stop :
      (cs : List Chunk)
      → (es : List (CanonicalStreamEvent J)) × (openai_chunks_to_canonical_events opts cs
          ≡ es ++ (message_stop ∷ []))
        × (no_stop es ≡ true)
  unfolding openai_chunks_to_canonical_events end_part
  openai_chunks_stop cs =
      let p = chunks_loop opts cs initial in
      let q = close_text {J = J} p.0 then_run close_tools in
      (
        p.1 ++ q.1,
        sym (append_assoc p.1 q.1 (message_stop ∷ [])),
        no_stop-append p.1 q.1 (chunks_no_stop cs initial) (closed_no_stop p.0),
      )
