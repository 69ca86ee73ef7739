-- ===== src/Translation/Chunks/Blocks.antt =====
-- The blocks of the stream that openAIChunksToCanonicalEvents yields
-- (router/src/translation/openai-out.ts).
use local_llms.Base.{
  ℕ, suc, true, false, Option, none, some, List, [], ◌∷◌, Text, ◌≡◌, refl, sym, ap, subst, ◌∙◌,
  length, length-append, arith, Bool-cases, Option-cases, inl, inr,
}
use local_llms.Translation.Emit.{◌then_run◌}
use local_llms.Translation.Follow.{follow}
use local_llms.Translation.Chunks.{
  Opts, State, initial, ToolState, ToolCallDelta, Choice, Chunk, ChunkUsage, get_state, set_state,
  filled, close_text, end_part, delta_of_usage, stop_message, close_tools, start_message, text_part,
  open_block, open_tool, add_fragment, known_tool, register, first_sighting, tool_call,
  tool_calls_part, choice_part, usage_part, chunk_step, chunks_loop,
  openai_chunks_to_canonical_events,
}
use local_llms.Translation.Chunks.Table.{
  Numbered, get_state_bound, opened_at-get, opened_at-set, set_state-Numbered, length-set, get-set,
  set_state_new, append-Numbered, opened_at-append, opened_at-closed,
}
use local_llms.Translation.Chunks.Keeps.{
  Inv, Keeps, add_fragment-Keeps, close_text-Keeps, close_tools-Keeps, none-Keeps, text_part-Keeps,
  then_run-Keeps, view,
}

-- The map holds an open block of this number for the tool call.
abbrev HasOpen : ℕ → ℕ → State → Type 0
HasOpen key b s =
    (now : ToolState) × (get_state key s.tool_call_state ≡ some now)
    × (now.block_index ≡ b)
    × (now.opened ≡ true)

module _ {J : Type 0} (opts : Opts J) (i : ℕ) where
  open_block-Keeps :
      (key : ℕ) (st : ToolState) (s : State)
      → Inv s
      → get_state key s.tool_call_state ≡ some st
      → st.opened ≡ false
      → Keeps i s (open_block opts key st s)
  unfolding open_block
  open_block-Keeps key st s v g o =
      let st' : ToolState = record st { opened = true } in
      record {
        inv = record {
          numbered = set_state-Numbered key 0 s.tool_call_state st st' v.numbered g refl;
          counted = v.counted ∙ sym (length-set key s.tool_call_state st st' g);
        };
        agrees = ground (
          arith,
          opened_at-set i key 0 s.tool_call_state st st' v.numbered g refl,
          opened_at-get key 0 s.tool_call_state st v.numbered g,
          get_state_bound key 0 s.tool_call_state st v.numbered g,
        );
      }

  close_text-get :
      (key : ℕ) (s : State)
      → get_state key (close_text {J = J} s).0.tool_call_state ≡ get_state key s.tool_call_state
  unfolding close_text
  close_text-get key s = ground arith

  open_tool-Keeps :
      (key : ℕ) (st : ToolState) (s : State)
      → Inv s
      → get_state key s.tool_call_state ≡ some st
      → Keeps i s (open_tool opts key st s) × HasOpen key st.block_index (open_tool opts key st s).0
  unfolding open_tool open_block
  open_tool-Keeps key st s v g = elim (Bool-cases st.opened) [
    | inl o ↦ rw o (none-Keeps i s v, (st, g, refl, o))
    | inr o ↦
        let k = close_text-Keeps i s v in
        let g' = close_text-get key s ∙ g in
        rw o (
          then_run-Keeps i s (close_text s) (open_block opts key st) k
              (open_block-Keeps key st (close_text s).0 k.inv g' o),
          (record st { opened = true }, opened_get, refl, refl),
        )
  ]
    where
      opened_get :
          get_state key (open_block opts key st (close_text {J = J} s).0).0.tool_call_state
          ≡ some (record st { opened = true })
      opened_get =
          get-set key (close_text {J = J} s).0.tool_call_state (record st { opened = true })

  known_tool-Keeps :
      (tc : ToolCallDelta) (st : ToolState) (s : State)
      → Inv s
      → get_state tc.index s.tool_call_state ≡ some st
      → Keeps i s (known_tool opts tc st s)
  unfolding known_tool
  known_tool-Keeps tc st s v g =
      let (k, (now, g', b, o)) = open_tool-Keeps tc.index st s v g in
      then_run-Keeps i s (open_tool opts tc.index st s)
        (add_fragment tc.index st (filled tc.arguments)) k
        (add_fragment-Keeps i tc.index st now (filled tc.arguments) (open_tool opts tc.index st s).0
          k.inv g' b o)

  register-Keeps :
      (tc : ToolCallDelta) (id name : Text) (s : State)
      → Inv s
      → get_state tc.index s.tool_call_state ≡ none
      → Keeps i s (register opts tc id name s)
  unfolding register
  register-Keeps tc id name s v g =
      let st : ToolState = record {
        id = id;
        name = name;
        args_buffer = [];
        block_index = suc s.next_tool_block_index;
        opened = false;
      } in
      let e = set_state_new tc.index s.tool_call_state st g in
      let s' : State = record s {
        tool_call_state = set_state tc.index st s.tool_call_state;
        next_tool_block_index = suc s.next_tool_block_index;
      } in
      let n : Numbered 0 (set_state tc.index st s.tool_call_state) =
        rw e
          (append-Numbered tc.index 0 s.tool_call_state st v.numbered (omega (arith, v.counted))) in
      let c : suc s.next_tool_block_index ≡ length (set_state tc.index st s.tool_call_state) =
        rw e (omega (arith, v.counted, length-append s.tool_call_state ((tc.index, st) ∷ []))) in
      let v' : Inv s' = record { numbered = n; counted = c } in
      let same : view i s ≡ view i s' =
        let o = opened_at-append i tc.index s.tool_call_state st refl in rw (e, o) refl in
      let k = known_tool-Keeps tc st s' v' (get-set tc.index s.tool_call_state st) in
      record { inv = k.inv; agrees = rw same k.agrees }

  tool_call-Keeps : (tc : ToolCallDelta) (s : State) → Inv s → Keeps i s (tool_call opts tc s)
  unfolding tool_call first_sighting
  tool_call-Keeps tc s v = elim (Option-cases (get_state tc.index s.tool_call_state)) [
    | inl g ↦ rw (tool_call, g) (sighted (filled tc.id) (filled tc.name) g)
    | inr (st, g) ↦ rw (tool_call, g) (known_tool-Keeps tc st s v g)
  ]
    where
      sighted :
          (id name : Option Text)
          → get_state tc.index s.tool_call_state ≡ none
          → Keeps i s (first_sighting opts tc id name s)
      sighted (some id) (some name) g = register-Keeps tc id name s v g
      sighted (some id) none g = none-Keeps i s v
      sighted none name g = none-Keeps i s v

  tool_calls_part-Keeps :
      (tcs : List ToolCallDelta) (s : State) → Inv s → Keeps i s (tool_calls_part opts tcs s)
  unfolding tool_calls_part
  tool_calls_part-Keeps [] s v = none-Keeps i s v
  tool_calls_part-Keeps (tc ∷ tcs) s v =
      let k = tool_call-Keeps tc s v in
      then_run-Keeps i s (tool_call opts tc s) (tool_calls_part opts tcs) k
        (tool_calls_part-Keeps tcs (tool_call opts tc s).0 k.inv)

  start_message-Keeps : (id : Text) (s : State) → Inv s → Keeps i s (start_message opts id s)
  unfolding start_message
  start_message-Keeps id s v = record { inv = ground arith; agrees = ground arith }

  choice_part-Keeps : (c : Option Choice) (s : State) → Inv s → Keeps i s (choice_part opts c s)
  unfolding choice_part
  choice_part-Keeps none s v = none-Keeps i s v
  choice_part-Keeps (some c) s v = elim (Option-cases c.finish_reason) [
    | inl e ↦ rw (choice_part, e) (parts s v)
    | inr (reason, e) ↦
        let s' : State = record s { upstream_finish_reason = some reason } in
        let k = parts s' (record { numbered = v.numbered; counted = v.counted }) in
        rw (choice_part, e) (record { inv = k.inv; agrees = k.agrees })
  ]
    where
      parts :
          (s : State)
          → Inv s
          → Keeps i s (text_part (filled c.content) s then_run tool_calls_part opts c.tool_calls)
      parts s v =
          let k = text_part-Keeps i (filled c.content) s v in
          then_run-Keeps i s (text_part (filled c.content) s) (tool_calls_part opts c.tool_calls) k
            (tool_calls_part-Keeps c.tool_calls (text_part {J = J} (filled c.content) s).0 k.inv)

  close_all-Keeps : (s : State) → Inv s → Keeps i s (close_text {J = J} s then_run close_tools)
  close_all-Keeps s v =
      let k = close_text-Keeps i s v in
      then_run-Keeps i s (close_text s) close_tools k
        (close_tools-Keeps i (close_text {J = J} s).0 k.inv)

  usage_part-Keeps :
      (u : Option ChunkUsage) (s : State) → Inv s → Keeps i s (usage_part {J = J} u s)
  unfolding usage_part
  usage_part-Keeps none s v = none-Keeps i s v
  usage_part-Keeps (some u) s v =
      let k = close_all-Keeps s v in
      then_run-Keeps i s (close_text s then_run close_tools) (delta_of_usage u) k
        (record { inv = k.inv; agrees = refl })

  chunk_step-Keeps : (c : Chunk) (s : State) → Inv s → Keeps i s (chunk_step opts c s)
  unfolding chunk_step
  chunk_step-Keeps c s v =
      let k = start_message-Keeps c.id s v in
      let p = start_message opts c.id s then_run choice_part opts c.choice in
      let k' =
        then_run-Keeps i s (start_message opts c.id s) (choice_part opts c.choice) k
          (choice_part-Keeps c.choice (start_message opts c.id s).0 k.inv) in
      then_run-Keeps i s p (usage_part c.usage) k' (usage_part-Keeps c.usage p.0 k'.inv)

  chunks_loop-Keeps : (cs : List Chunk) (s : State) → Inv s → Keeps i s (chunks_loop opts cs s)
  unfolding chunks_loop
  chunks_loop-Keeps [] s v = none-Keeps i s v
  chunks_loop-Keeps (c ∷ cs) s v =
      let k = chunk_step-Keeps c s v in
      then_run-Keeps i s (chunk_step opts c s) (chunks_loop opts cs) k
        (chunks_loop-Keeps cs (chunk_step opts c s).0 k.inv)

  end_part-Keeps : (s : State) → Inv s → Keeps i s (end_part {J = J} s)
  unfolding end_part
  end_part-Keeps s v =
      let k = close_all-Keeps s v in
      then_run-Keeps i s (close_text s then_run close_tools) stop_message k
        (record { inv = k.inv; agrees = refl })

  end_part-view : (s : State) → view i (end_part {J = J} s).0 ≡ none
  unfolding end_part close_text close_tools
  end_part-view s = ground (arith, opened_at-closed i s.tool_call_state)

  -- Whatever the backend sends: followed for any index, the stream opens a block only while none
  -- of that index is open, sends it deltas of its own kind only while it is open, stops only an
  -- open block, and has stopped every block at its end.
  pub openai_chunks_to_canonical_events-follow :
      (cs : List Chunk) → follow i none (openai_chunks_to_canonical_events opts cs) ≡ some none
  unfolding openai_chunks_to_canonical_events
  openai_chunks_to_canonical_events-follow cs =
      let k = chunks_loop-Keeps cs initial (record { numbered = tt; counted = refl }) in
      let s = (chunks_loop opts cs initial).0 in
      let k' =
        then_run-Keeps i initial (chunks_loop opts cs initial) end_part k
          (end_part-Keeps s k.inv) in
      let start : view i initial ≡ none = ground arith in
      subst
        (λ o.
          follow i o (openai_chunks_to_canonical_events opts cs)
          ≡ some (view i (end_part {J = J} s).0))
        start k'.agrees
      ∙ ap some (end_part-view s)
