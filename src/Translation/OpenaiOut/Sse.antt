-- ===== src/Translation/OpenaiOut/Sse.antt =====
-- canonicalToOpenAISse of router/src/translation/openai-out.ts. The clock is read by the number of
-- the frames sent before.
pub mod Client
use local_llms.Base.{
  ℕ, suc, ◌+◌, ◌==◌, Bool, true, false, Option, none, some, List, [], ◌∷◌, ◌++◌, Text,
  if◌then◌else◌,
}
use local_llms.Canonical.{
  StopReason, ContentBlock, text, image, tool_use, tool_result, CanonicalResponse,
}
use local_llms.Canonical.Stream.{
  ContentBlockDelta, text_delta, input_json_delta, DeltaUsage, CanonicalStreamEvent, message_start,
  content_block_start, content_block_delta, content_block_stop, message_delta, message_stop, ping,
}
use local_llms.Errors.{RouterError}
use local_llms.Errors.Envelopes.{
  OpenaiErrorEnvelope, to_openai_error_envelope, mid_stream_error_frame_lines, ErrorFrame,
  error_frame, done_frame,
}
use local_llms.Translation.Emit.{◌then_run◌}
use local_llms.Translation.Chunks.{FinishReason}
use local_llms.Translation.Responses.{Ending, finished, threw, Cleanup}
use local_llms.Translation.OpenaiOut.{
  or_else, chatcmpl_id, canonical_stop_to_openai_finish, Opts, CompletionUsage,
}

-- `choices[0]` of a chunk, or the usage of a chunk without choices.
pub data ChunkBody : Type 0 where
  tool_start : ℕ → Text → Text → ChunkBody  -- index, id, function.name, no arguments yet
  tool_arguments : ℕ → Text → ChunkBody
  content : Text → ChunkBody
  usage_only : CompletionUsage → ChunkBody
  finish : FinishReason → ChunkBody

pub data SseFrame : Type 0 where
  chunk : Text → ℕ → Text → ChunkBody → SseFrame  -- id, created, model
  error_line : OpenaiErrorEnvelope → SseFrame
  done : SseFrame

-- The variables of the generator, with the number of frames sent.
pub record State : Type 0 where
  pub id : Text
  pub model : Text
  pub created : ℕ
  pub captured_input_tokens : ℕ
  pub captured_output_tokens : ℕ
  pub captured_finish_reason : Option FinishReason
  pub tool_call_index_by_block_index : List (ℕ × ℕ)
  pub next_tool_call_index : ℕ
  pub sent : ℕ

abbrev pub initial : ℕ → State
initial now = record {
  id = [];
  model = [];
  created = now;
  captured_input_tokens = 0;
  captured_output_tokens = 0;
  captured_finish_reason = none;
  tool_call_index_by_block_index = [];
  next_tool_call_index = 0;
  sent = 0;
}

-- The map, and `?? 0` for an index that it does not have.
abbrev pub put_index : ℕ → ℕ → List (ℕ × ℕ) → List (ℕ × ℕ)
put_index b n [] = (b, n) ∷ []
put_index b n ((c, m) ∷ entries) =
    if c == b then (c, n) ∷ entries else (c, m) ∷ put_index b n entries

abbrev pub index_or_zero : ℕ → List (ℕ × ℕ) → ℕ
index_or_zero b [] = 0
index_or_zero b ((c, m) ∷ entries) = if c == b then m else index_or_zero b entries

abbrev pub Yields : Type 0
Yields = State × List SseFrame

abbrev pub emit : ChunkBody → State → Yields
emit body s = (record s { sent = suc s.sent }, chunk s.id s.created s.model body ∷ [])

abbrev pub emit_finish : Option FinishReason → State → Yields
emit_finish none s = (s, [])
emit_finish (some reason) s = emit (finish reason) s

pub on_block_start : {J : Type 0} → ℕ → ContentBlock J → State → Yields
on_block_start i (tool_use id name input) s =
    emit (tool_start s.next_tool_call_index id name) (record s {
      tool_call_index_by_block_index =
          put_index i s.next_tool_call_index s.tool_call_index_by_block_index;
      next_tool_call_index = suc s.next_tool_call_index;
    })
on_block_start i (text t) s = (s, [])
on_block_start i (image source) s = (s, [])
on_block_start i (tool_result id c is_error) s = (s, [])

pub on_delta : ℕ → ContentBlockDelta → State → Yields
on_delta i (text_delta t) s = emit (content t) s
on_delta i (input_json_delta p) s =
    emit (tool_arguments (index_or_zero i s.tool_call_index_by_block_index) p) s

pub on_message_delta : Option StopReason → DeltaUsage → State → Yields
unfolding canonical_stop_to_openai_finish
on_message_delta reason u s =
    let reason' = canonical_stop_to_openai_finish reason in
    let input = or_else u.upstream_input_tokens s.captured_input_tokens in
    emit
      (usage_only (record {
        prompt_tokens = input;
        completion_tokens = u.output_tokens;
        total_tokens = input + u.output_tokens;
      }))
      (record s { captured_output_tokens = u.output_tokens; captured_finish_reason = reason' })
    then_run emit_finish reason'

module _ {J : Type 0} (opts : Opts) (now : ℕ → ℕ) where
  pub on_message_start : Option Text → CanonicalResponse J → State → Yields
  on_message_start upstream_id m s = (
    record s {
      id = or_else opts.id_override (or_else upstream_id (chatcmpl_id m.id));
      model = or_else opts.display_model m.model;
      created = now s.sent;
      captured_input_tokens = m.usage.input_tokens;
    },
    [],
  )

  -- The `switch`.
  pub on_event : CanonicalStreamEvent J → State → Yields
  unfolding on_message_start on_block_start on_delta on_message_delta
  on_event (message_start upstream_id m) s = on_message_start upstream_id m s
  on_event (content_block_start i b) s = on_block_start i b s
  on_event (content_block_delta i d) s = on_delta i d s
  on_event (content_block_stop i) s = (s, [])
  on_event (message_delta reason sequence u) s = on_message_delta reason u s
  on_event message_stop s = (record s { sent = suc s.sent }, done ∷ [])
  on_event ping s = (s, [])

  pub events_loop : List (CanonicalStreamEvent J) → State → Yields
  unfolding on_event
  events_loop [] s = (s, [])
  events_loop (e ∷ es) s = on_event e s then_run events_loop es

abbrev error_lines : List ErrorFrame → List SseFrame
error_lines [] = []
error_lines (error_frame envelope ∷ fs) = error_line envelope ∷ error_lines fs
error_lines (done_frame ∷ fs) = done ∷ error_lines fs

-- The `catch`: what it yields, and `caughtErr`.
pub on_throw : Bool → Ending RouterError → List SseFrame × Option RouterError
on_throw aborted finished = ([], none)
on_throw aborted (threw err) = if aborted then ([], none) else elim (to_openai_error_envelope err) [
  | none ↦ (done ∷ [], some err)
  | some envelope ↦ (error_lines (mid_stream_error_frame_lines envelope), some err)
]

pub canonical_to_openai_sse :
    {J : Type 0}
    → Opts
    → (ℕ → ℕ)
    → Bool
    → List (CanonicalStreamEvent J)
    → Ending RouterError
    → List SseFrame × Cleanup RouterError
unfolding events_loop on_throw
canonical_to_openai_sse opts now aborted es ending =
    let r = events_loop opts now es (initial (now 0)) in
    let (frames, caught) = on_throw aborted ending in
    (
      r.1 ++ frames,
      record {
        tokens_in = r.0.captured_input_tokens;
        tokens_out = r.0.captured_output_tokens;
        error = caught;
      },
    )
