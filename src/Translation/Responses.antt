-- ===== src/Translation/Responses.antt =====
-- canonicalToResponsesSse and makeResponseEnvelope of router/src/translation/responses-stream.ts:
-- the canonical stream events become the frames of a Responses stream. `J` stands for the JSON
-- values of the request that are echoed, `E` for what the upstream throws. The ULIDs are numbered
-- as the stream takes them; the clock is read by the number of the frames sent before.
pub mod Numbering
pub mod Terminal
pub mod Items
pub mod Parallel
use local_llms.Base.{
  ℕ, suc, ◌+◌, Bool, true, false, Option, none, some, List, [], ◌∷◌, ◌++◌, Text, codes,
  if◌then◌else◌, map,
}
use local_llms.Canonical.{
  StopReason, ContentBlock, text, image, tool_use, tool_result, CanonicalResponse,
}
use local_llms.Canonical.Stream.{
  ContentBlockDelta, text_delta, input_json_delta, CanonicalStreamEvent, message_start,
  content_block_start, content_block_delta, content_block_stop, message_delta, message_stop, ping,
}
use local_llms.Translation.Emit.{◌then_run◌}

pub data OutputItemState : Type 0 where
  idle : OutputItemState
  in_text : Text → ℕ → Text → OutputItemState  -- itemId, outputIndex, accumulated
  in_function_call : Text → ℕ → Text → Text → Text → OutputItemState
      -- itemId, outputIndex, callId, name, argsAccumulated

-- A completed item: id and text, or id, call_id, name and arguments.
pub data OutputItem : Type 0 where
  message : Text → Text → OutputItem
  function_call : Text → Text → Text → Text → OutputItem

pub data Status : Type 0 where
  in_progress completed incomplete failed : Status

pub record ResponseUsage : Type 0 where
  pub input_tokens : ℕ
  pub output_tokens : ℕ
  pub total_tokens : ℕ

pub record Echo (J : Type 0) : Type 0 where
  pub instructions : Option Text
  pub temperature : Option J
  pub max_output_tokens : Option ℕ
  pub tools : Option (List J)
  pub tool_choice : Option J

-- The fields that are no constants; `tool_choice` is `none` for the string auto, and
-- `tool_calls_incomplete` says that incomplete_details has the reason tool_calls.
pub record Envelope (J : Type 0) : Type 0 where
  pub id : Text
  pub created_at : ℕ
  pub status : Status
  pub error : Option Text  -- the message, under the code upstream_error
  pub tool_calls_incomplete : Bool
  pub instructions : Option Text
  pub max_output_tokens : Option ℕ
  pub model : Text
  pub output : List OutputItem
  pub output_text : Text
  pub temperature : Option J
  pub tool_choice : Option J
  pub tools : List J
  pub usage : Option ResponseUsage

pub data FrameBody (J : Type 0) : Type 0 where
  response_created response_in_progress response_completed response_failed :
      Envelope J → FrameBody J
  message_added : ℕ → Text → FrameBody J  -- output_index, id
  function_call_added : ℕ → Text → Text → Text → FrameBody J  -- and call_id, name
  content_part_added : ℕ → Text → FrameBody J
  output_text_delta output_text_done content_part_done : ℕ → Text → Text → FrameBody J
      -- output_index, item_id, delta or text
  arguments_delta : ℕ → Text → Text → FrameBody J
  arguments_done : ℕ → Text → Text → Text → FrameBody J  -- output_index, item_id, name, arguments
  output_item_done : ℕ → OutputItem → FrameBody J

pub record Frame (J : Type 0) : Type 0 where
  pub sequence_number : ℕ
  pub body : FrameBody J

-- The closure's variables, with the number of ULIDs taken.
pub record State : Type 0 where
  pub sequence_number : ℕ
  pub fsm : OutputItemState
  pub captured_input_tokens : ℕ
  pub captured_output_tokens : ℕ
  pub last_stop_reason : Option StopReason
  pub created_at : ℕ
  pub display_model : Text
  pub output_items : List OutputItem
  pub ulids : ℕ

-- `Responses.Opts.display_model` is none where it is absent.
pub record Opts (J : Type 0) : Type 0 where
  pub response_id : Text  -- idOverride, or resp_ and a fresh ULID
  pub display_model : Option Text
  pub echo : Option (Echo J)
  pub aborted : Bool  -- signal.aborted, when the upstream throws
  pub fresh : ℕ → Text  -- the ULIDs
  pub now : ℕ → ℕ  -- the clock, in seconds

abbrev pub item_text : OutputItem → Text
item_text (message id t) = t
item_text (function_call id call_id name args) = []

abbrev pub output_text_of : List OutputItem → Text
output_text_of [] = []
output_text_of (it ∷ items) = item_text it ++ output_text_of items

-- How the upstream's iterator ends.
pub data Ending (E : Type 0) : Type 0 where
  finished : Ending E
  threw : E → Ending E

-- What `onCleanup` gets.
pub record Cleanup (E : Type 0) : Type 0 where
  pub tokens_in : ℕ
  pub tokens_out : ℕ
  pub error : Option E

abbrev or_else {ℓ} : {A : Type ℓ} → Option A → A → A
or_else none d = d
or_else (some a) d = a

abbrev echoed {ℓ} : {J : Type 0} {A : Type ℓ} → Option (Echo J) → (Echo J → Option A) → Option A
echoed none f = none
echoed (some e) f = f e

abbrev pub Yields : Type 0 → Type 0
Yields J = State × List (Frame J)

abbrev pub is_tool_call : Option StopReason → Bool
is_tool_call (some StopReason.tool_calls) = true
is_tool_call _ = false

abbrev caught : {E : Type 0} → Bool → Ending E → Option E
caught aborted finished = none
caught aborted (threw err) = if aborted then none else some err

module _ {J : Type 0} where
  -- A frame, with `sequenceNumber++`.
  abbrev pub emit : FrameBody J → State → Yields J
  emit body s = (
    record s { sequence_number = suc s.sequence_number },
    record { sequence_number = s.sequence_number; body = body } ∷ [],
  )

  on_delta : ContentBlockDelta → OutputItemState → State → Yields J
  on_delta (text_delta t) (in_text id i acc) s =
      emit (output_text_delta i id t) (record s { fsm = in_text id i (acc ++ t) })
  on_delta (text_delta t) idle s = (s, [])
  on_delta (text_delta t) (in_function_call id i call_id name args) s = (s, [])
  on_delta (input_json_delta p) (in_function_call id i call_id name args) s =
      emit (arguments_delta i id p)
        (record s { fsm = in_function_call id i call_id name (args ++ p) })
  on_delta (input_json_delta p) idle s = (s, [])
  on_delta (input_json_delta p) (in_text id i acc) s = (s, [])

  -- `outputItems.push`, and back to idle.
  abbrev complete : OutputItem → State → Yields J
  complete item s = (record s { fsm = idle; output_items = s.output_items ++ (item ∷ []) }, [])

  on_block_stop : OutputItemState → State → Yields J
  on_block_stop idle s = (s, [])
  on_block_stop (in_text id i acc) s =
      emit (output_text_done i id acc) s
      then_run emit (content_part_done i id acc)
      then_run emit (output_item_done i (message id acc))
      then_run complete (message id acc)
  on_block_stop (in_function_call id i call_id name args) s =
      let item = function_call id call_id name args in
      emit (arguments_done i id name args) s
      then_run emit (output_item_done i item)
      then_run complete item

module _ {J : Type 0} (opts : Opts J) where
  abbrev pub initial : State
  initial = record {
    sequence_number = 0;
    fsm = idle;
    captured_input_tokens = 0;
    captured_output_tokens = 0;
    last_stop_reason = none;
    created_at = opts.now 0;
    display_model = or_else opts.display_model [];
    output_items = [];
    ulids = 0;
  }

  pub make_response_envelope :
      State → Status → Option ResponseUsage → List OutputItem → Bool → Option Text → Envelope J
  make_response_envelope s status usage output tool_calls_incomplete error = record {
    id = opts.response_id;
    created_at = s.created_at;
    status = status;
    error = error;
    tool_calls_incomplete = tool_calls_incomplete;
    instructions = echoed opts.echo (λ e. e.instructions);
    max_output_tokens = echoed opts.echo (λ e. e.max_output_tokens);
    model = s.display_model;
    output = output;
    output_text = output_text_of output;
    temperature = echoed opts.echo (λ e. e.temperature);
    tool_choice = echoed opts.echo (λ e. e.tool_choice);
    tools = or_else (echoed opts.echo (λ e. e.tools)) [];
    usage = usage;
  }

  on_message_start : CanonicalResponse J → State → Yields J
  unfolding make_response_envelope
  on_message_start m s =
      let s' : State = record s {
        created_at = opts.now s.sequence_number;
        display_model = or_else opts.display_model m.model;
        captured_input_tokens = m.usage.input_tokens;
      } in
      let envelope = make_response_envelope s' in_progress none [] false none in
      emit (response_created envelope) s' then_run emit (response_in_progress envelope)

  on_block_start : ℕ → ContentBlock J → State → Yields J
  on_block_start i (text t) s =
      let id = codes "msg_" ++ opts.fresh s.ulids in
      emit (message_added i id) (record s { fsm = in_text id i []; ulids = suc s.ulids })
      then_run emit (content_part_added i id)
  on_block_start i (tool_use call_id name input) s =
      let id = codes "fc_" ++ opts.fresh s.ulids in
      emit (function_call_added i id call_id name)
        (record s { fsm = in_function_call id i call_id name []; ulids = suc s.ulids })
  on_block_start i (image source) s = (s, [])
  on_block_start i (tool_result id content is_error) s = (s, [])

  pub on_message_stop : State → Yields J
  unfolding make_response_envelope
  on_message_stop s =
      let tools = is_tool_call s.last_stop_reason in
      let usage : ResponseUsage = record {
        input_tokens = s.captured_input_tokens;
        output_tokens = s.captured_output_tokens;
        total_tokens = s.captured_input_tokens + s.captured_output_tokens;
      } in
      emit
        (response_completed (
          make_response_envelope s (if tools then incomplete else completed) (some usage)
            s.output_items tools none))
        s

  -- The `switch`.
  pub on_event : CanonicalStreamEvent J → State → Yields J
  unfolding on_message_start on_block_start on_delta on_block_stop on_message_stop
  on_event (message_start upstream_id m) s = on_message_start m s
  on_event (content_block_start i b) s = on_block_start i b s
  on_event (content_block_delta i d) s = on_delta d s.fsm s
  on_event (content_block_stop i) s = on_block_stop s.fsm s
  on_event (message_delta reason sequence u) s =
      (record s { captured_output_tokens = u.output_tokens; last_stop_reason = reason }, [])
  on_event message_stop s = on_message_stop s
  on_event ping s = (s, [])

  pub events_loop : List (CanonicalStreamEvent J) → State → Yields J
  unfolding on_event
  events_loop [] s = (s, [])
  events_loop (e ∷ es) s = on_event e s then_run events_loop es

  -- The `catch`; `describe` is the message of what was thrown.
  pub on_throw : {E : Type 0} → (E → Text) → Ending E → State → Yields J
  unfolding make_response_envelope
  on_throw describe finished s = (s, [])
  on_throw describe (threw err) s =
      if opts.aborted
      then (s, [])
      else emit
          (response_failed
            (make_response_envelope s failed none s.output_items false (some (describe err))))
          s

  -- The frames, and what `onCleanup` gets.
  pub canonical_to_responses_sse :
      {E : Type 0}
      → (E → Text)
      → List (CanonicalStreamEvent J)
      → Ending E
      → List (Frame J) × Cleanup E
  unfolding events_loop on_throw
  canonical_to_responses_sse describe es ending =
      let r = events_loop es initial then_run on_throw describe ending in
      (
        r.1,
        record {
          tokens_in = r.0.captured_input_tokens;
          tokens_out = r.0.captured_output_tokens;
          error = caught opts.aborted ending;
        },
      )
