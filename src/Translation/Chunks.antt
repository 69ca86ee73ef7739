-- ===== src/Translation/Chunks.antt =====
-- openAIChunksToCanonicalEvents of router/src/translation/openai-out.ts: the chunks of an
-- OpenAI-compatible backend become canonical stream events.
pub mod Table
pub mod Keeps
pub mod Blocks
pub mod Stop
pub mod Calls
pub mod Content
pub mod Says
pub mod Reading
use local_llms.Base.{
  ℕ, zero, suc, Bool, true, false, not, Option, none, some, List, [], ◌∷◌, ◌++◌, Text, ◌==◌,
  if◌then◌else◌,
}
use local_llms.Translation.Emit.{◌then_run◌}
use local_llms.Canonical.{StopReason, end_turn, max_tokens, CanonicalResponse, text, tool_use}
use local_llms.Canonical.Stream.{
  text_delta, input_json_delta, CanonicalStreamEvent, message_start, content_block_start,
  content_block_delta, content_block_stop, message_delta, message_stop,
}

pub data FinishReason : Type 0 where
  stop length tool_calls function_call content_filter : FinishReason
  another : Text → FinishReason  -- any other string

-- An element of `delta.tool_calls`, with `function.name` and `function.arguments`.
pub record ToolCallDelta : Type 0 where
  pub index : ℕ
  pub id : Option Text
  pub name : Option Text
  pub arguments : Option Text

-- `choices[0]`: `content` is `none` where it is no string, `tool_calls` is empty where it is no array.
pub record Choice : Type 0 where
  pub content : Option Text
  pub finish_reason : Option FinishReason
  pub tool_calls : List ToolCallDelta

pub record ChunkUsage : Type 0 where
  pub prompt_tokens : ℕ
  pub completion_tokens : ℕ

pub record Chunk : Type 0 where
  pub id : Text
  pub choice : Option Choice
  pub usage : Option ChunkUsage

pub record ToolState : Type 0 where
  pub id : Text
  pub name : Text
  pub args_buffer : Text
  pub block_index : ℕ
  pub opened : Bool

-- The variables of the generator. The map lists its entries in the order of their insertion.
pub record State : Type 0 where
  pub started : Bool
  pub text_block_open : Bool
  pub upstream_finish_reason : Option FinishReason
  pub tool_call_state : List (ℕ × ToolState)
  pub next_tool_block_index : ℕ

abbrev pub initial : State
initial = record {
  started = false;
  text_block_open = false;
  upstream_finish_reason = none;
  tool_call_state = [];
  next_tool_block_index = 0;
}

abbrev pub openai_finish_to_canonical_stop : Option FinishReason → StopReason
openai_finish_to_canonical_stop (some FinishReason.length) = max_tokens
openai_finish_to_canonical_stop (some FinishReason.tool_calls) = StopReason.tool_calls
openai_finish_to_canonical_stop (some FinishReason.function_call) = StopReason.tool_calls
openai_finish_to_canonical_stop (some FinishReason.content_filter) = end_turn
openai_finish_to_canonical_stop (some FinishReason.stop) = end_turn
openai_finish_to_canonical_stop (some (FinishReason.another s)) = end_turn
openai_finish_to_canonical_stop none = end_turn

-- The `get` and the `set` of the map.
abbrev pub get_state : ℕ → List (ℕ × ToolState) → Option ToolState
get_state k [] = none
get_state k ((j, st) ∷ m) = if j == k then some st else get_state k m

abbrev pub set_state : ℕ → ToolState → List (ℕ × ToolState) → List (ℕ × ToolState)
set_state k st [] = (k, st) ∷ []
set_state k st ((j, old) ∷ m) = if j == k then (j, st) ∷ m else (j, old) ∷ set_state k st m

-- A string that is there and not empty, as `!s` and `s.length > 0` test it.
abbrev pub filled : Option Text → Option Text
filled none = none
filled (some []) = none
filled (some (c ∷ cs)) = some (c ∷ cs)

-- The states that the closing loop leaves.
abbrev pub closed_states : List (ℕ × ToolState) → List (ℕ × ToolState)
closed_states [] = []
closed_states ((k, st) ∷ m) = (k, record st { opened = false }) ∷ closed_states m

abbrev hint : Option ℕ → ℕ
hint none = 0
hint (some n) = n

-- What the generator is given: `model` and `inputTokensHint` of its options, the fresh message id,
-- and the literal `{}`.
pub record Opts (J : Type 0) : Type 0 where
  pub model : Text
  pub input_tokens_hint : Option ℕ
  pub msg_id : Text
  pub empty_object : J

-- `upstreamFinishReason`, where a choice has one.
abbrev pub noted : Option FinishReason → State → State
noted none s = s
noted (some reason) s = record s { upstream_finish_reason = some reason }

-- What a part of the body leaves and yields.
abbrev pub Yields : Type 0 → Type 0
Yields J = State × List (CanonicalStreamEvent J)

module _ {J : Type 0} where
  pub close_text : State → Yields J
  close_text s =
      if s.text_block_open
      then (record s { text_block_open = false }, content_block_stop 0 ∷ [])
      else (s, [])

  abbrev pub closing_events : List (ℕ × ToolState) → List (CanonicalStreamEvent J)
  closing_events [] = []
  closing_events ((k, st) ∷ m) =
      let rest = closing_events m in
      if st.opened then content_block_stop st.block_index ∷ rest else rest

  pub close_tools : State → Yields J
  close_tools s = (
    record s { tool_call_state = closed_states s.tool_call_state },
    closing_events s.tool_call_state,
  )

  pub text_part : Option Text → State → Yields J
  text_part none s = (s, [])
  text_part (some t) s =
      let delta = content_block_delta 0 (text_delta t) in
      if s.text_block_open
      then (s, delta ∷ [])
      else (record s { text_block_open = true }, content_block_start 0 (text []) ∷ delta ∷ [])

  pub add_fragment : ℕ → ToolState → Option Text → State → Yields J
  add_fragment key st none s = (s, [])
  add_fragment key st (some frag) s = (
    record s {
      tool_call_state =
          set_state key (record st { opened = true; args_buffer = st.args_buffer ++ frag })
            s.tool_call_state;
    },
    content_block_delta st.block_index (input_json_delta frag) ∷ [],
  )

  abbrev pub delta_of_usage : ChunkUsage → State → Yields J
  delta_of_usage u s = (
    s,
    message_delta (some (openai_finish_to_canonical_stop s.upstream_finish_reason)) none (record {
      output_tokens = u.completion_tokens;
      upstream_input_tokens = some u.prompt_tokens;
    })
        ∷ [],
  )

  pub usage_part : Option ChunkUsage → State → Yields J
  unfolding close_text close_tools
  usage_part none s = (s, [])
  usage_part (some u) s = close_text s then_run close_tools then_run delta_of_usage u

  -- What follows the `for await`.
  abbrev pub stop_message : State → Yields J
  stop_message s = (s, message_stop ∷ [])

  pub end_part : State → Yields J
  unfolding close_text close_tools
  end_part s = close_text s then_run close_tools then_run stop_message

module _ {J : Type 0} (opts : Opts J) where
  pub start_message : Text → State → Yields J
  start_message upstream_id s = if s.started then (s, []) else (
    record s { started = true },
    message_start (some upstream_id) (record {
      id = opts.msg_id;
      content = [];
      model = opts.model;
      stop_reason = none;
      stop_sequence = none;
      usage = record { input_tokens = hint opts.input_tokens_hint; output_tokens = 1 };
    })
        ∷ [],
  )

  pub open_block : ℕ → ToolState → State → Yields J
  open_block key st s = (
    record s { tool_call_state = set_state key (record st { opened = true }) s.tool_call_state },
    content_block_start st.block_index (tool_use st.id st.name opts.empty_object) ∷ [],
  )

  pub open_tool : ℕ → ToolState → State → Yields J
  unfolding open_block close_text
  open_tool key st s = if st.opened then (s, []) else close_text s then_run open_block key st

  pub known_tool : ToolCallDelta → ToolState → State → Yields J
  unfolding open_tool add_fragment
  known_tool tc st s =
      open_tool tc.index st s then_run add_fragment tc.index st (filled tc.arguments)

  -- The first sighting of an index: its state, where the id and the name are there.
  pub register : ToolCallDelta → Text → Text → State → Yields J
  unfolding known_tool
  register tc id name s =
      let block_index = suc s.next_tool_block_index in
      let st : ToolState = record {
        id = id;
        name = name;
        args_buffer = [];
        block_index = block_index;
        opened = false;
      } in
      known_tool tc st (record s {
        tool_call_state = set_state tc.index st s.tool_call_state;
        next_tool_block_index = block_index;
      })

  pub first_sighting : ToolCallDelta → Option Text → Option Text → State → Yields J
  unfolding register
  first_sighting tc (some id) (some name) s = register tc id name s
  first_sighting tc (some id) none s = (s, [])
  first_sighting tc none name s = (s, [])

  pub tool_call : ToolCallDelta → State → Yields J
  unfolding known_tool first_sighting
  tool_call tc s = elim (get_state tc.index s.tool_call_state) [
    | some st ↦ known_tool tc st s
    | none ↦ first_sighting tc (filled tc.id) (filled tc.name) s
  ]

  pub tool_calls_part : List ToolCallDelta → State → Yields J
  unfolding tool_call
  tool_calls_part [] s = (s, [])
  tool_calls_part (tc ∷ tcs) s = tool_call tc s then_run tool_calls_part tcs

  pub choice_part : Option Choice → State → Yields J
  unfolding text_part tool_calls_part
  choice_part none s = (s, [])
  choice_part (some c) s =
      text_part (filled c.content) (noted c.finish_reason s) then_run tool_calls_part c.tool_calls

  pub chunk_step : Chunk → State → Yields J
  unfolding start_message choice_part usage_part
  chunk_step c s = start_message c.id s then_run choice_part c.choice then_run usage_part c.usage

  -- The `for await`.
  pub chunks_loop : List Chunk → State → Yields J
  unfolding chunk_step
  chunks_loop [] s = (s, [])
  chunks_loop (c ∷ cs) s = chunk_step c s then_run chunks_loop cs

  pub openai_chunks_to_canonical_events : List Chunk → List (CanonicalStreamEvent J)
  unfolding chunks_loop end_part
  openai_chunks_to_canonical_events cs = (chunks_loop cs initial then_run end_part).1
