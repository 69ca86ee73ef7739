-- ===== src/Translation/OpenaiOut.antt =====
-- The canonical answers on the OpenAI surface (router/src/translation/openai-out.ts):
-- canonicalToOpenAIResponse, openAIChatCompletionToCanonical and canonicalToOpenAISse. `E` stands
-- for what the upstream throws; the clock is read by the number of the frames sent before.
pub mod Sse
pub mod Completion
use local_llms.Base.{
  ℕ, suc, ◌+◌, ◌==◌, Bool, true, false, Option, none, some, List, [], ◌∷◌, ◌++◌, Text, codes,
  join_texts, text_eq, slice, drop, if◌then◌else◌,
}
use local_llms.Canonical.{
  StopReason, end_turn, max_tokens, stop_sequence, pause_turn, refusal,
  model_context_window_exceeded, ContentBlock, text, image, tool_use, tool_result,
  CanonicalResponse, Usage,
}
use local_llms.Canonical.Stream.{
  ContentBlockDelta, text_delta, input_json_delta, DeltaUsage, CanonicalStreamEvent, message_start,
  content_block_start, content_block_delta, content_block_stop, message_delta, message_stop, ping,
}
use local_llms.Errors.{RouterError}
use local_llms.Errors.Envelopes.{
  OpenaiErrorEnvelope, to_openai_error_envelope, mid_stream_error_frame_lines, ErrorFrame,
}
use local_llms.Translation.Emit.{◌then_run◌}
use local_llms.Translation.Chunks.{FinishReason, ChunkUsage}
use local_llms.Translation.Responses.{Ending, finished, threw, Cleanup}

abbrev or_else {ℓ} : {A : Type ℓ} → Option A → A → A
or_else none d = d
or_else (some a) d = a

-- `id.replace(/^msg_/, 'chatcmpl-')`.
abbrev chatcmpl_id : Text → Text
chatcmpl_id t = if text_eq (slice 4 t) (codes "msg_") then codes "chatcmpl-" ++ drop 4 t else t

pub canonical_stop_to_openai_finish : Option StopReason → Option FinishReason
canonical_stop_to_openai_finish (some end_turn) = some FinishReason.stop
canonical_stop_to_openai_finish (some stop_sequence) = some FinishReason.stop
canonical_stop_to_openai_finish (some max_tokens) = some FinishReason.length
canonical_stop_to_openai_finish (some StopReason.tool_calls) = some FinishReason.tool_calls
canonical_stop_to_openai_finish (some refusal) = some FinishReason.content_filter
canonical_stop_to_openai_finish (some pause_turn) = some FinishReason.stop
canonical_stop_to_openai_finish (some model_context_window_exceeded) = some FinishReason.stop
canonical_stop_to_openai_finish none = none

-- An entry of `message.tool_calls`, with the name and the arguments of its function.
pub record ToolCall : Type 0 where
  pub id : Text
  pub name : Text
  pub arguments : Text

pub record CompletionUsage : Type 0 where
  pub prompt_tokens : ℕ
  pub completion_tokens : ℕ
  pub total_tokens : ℕ

-- A ChatCompletion of one choice, without its constants; `tool_calls` is empty where it is absent.
pub record ChatCompletion : Type 0 where
  pub id : Text
  pub created : ℕ
  pub model : Text
  pub content : Option Text
  pub tool_calls : List ToolCall
  pub finish_reason : FinishReason
  pub usage : CompletionUsage

pub record Opts : Type 0 where
  pub display_model : Option Text
  pub id_override : Option Text

abbrev content_of : List ToolCall → List Text → Option Text
content_of (c ∷ cs) [] = none
content_of _ parts = some (join_texts (10 ∷ []) parts)

module _ {J : Type 0} where
  abbrev text_parts : List (ContentBlock J) → List Text
  text_parts [] = []
  text_parts (text t ∷ bs) = t ∷ text_parts bs
  text_parts (image source ∷ bs) = text_parts bs
  text_parts (tool_use id name input ∷ bs) = text_parts bs
  text_parts (tool_result id content is_error ∷ bs) = text_parts bs

  abbrev tool_calls_of : (J → Text) → List (ContentBlock J) → List ToolCall
  tool_calls_of stringify [] = []
  tool_calls_of stringify (tool_use id name input ∷ bs) =
      record { id = id; name = name; arguments = stringify input } ∷ tool_calls_of stringify bs
  tool_calls_of stringify (text t ∷ bs) = tool_calls_of stringify bs
  tool_calls_of stringify (image source ∷ bs) = tool_calls_of stringify bs
  tool_calls_of stringify (tool_result id content is_error ∷ bs) = tool_calls_of stringify bs

  -- `upstream_id` is what readUpstreamId finds on the response.
  pub canonical_to_openai_response :
      (J → Text) → ℕ → Opts → Option Text → CanonicalResponse J → ChatCompletion
  unfolding canonical_stop_to_openai_finish
  canonical_to_openai_response stringify now opts upstream_id canonical =
      let calls = tool_calls_of stringify canonical.content in
      record {
        id = or_else opts.id_override (or_else upstream_id (chatcmpl_id canonical.id));
        created = now;
        model = or_else opts.display_model canonical.model;
        content = content_of calls (text_parts canonical.content);
        tool_calls = calls;
        finish_reason =
            or_else (canonical_stop_to_openai_finish canonical.stop_reason) FinishReason.stop;
        usage = record {
          prompt_tokens = canonical.usage.input_tokens;
          completion_tokens = canonical.usage.output_tokens;
          total_tokens = canonical.usage.input_tokens + canonical.usage.output_tokens;
        };
      }

-- The result of a backend: its first choice, where it has one.
pub record UpstreamChoice : Type 0 where
  pub content : Option Text  -- `none` where it is no string
  pub tool_calls : List ToolCall
  pub finish_reason : Option FinishReason

pub record UpstreamCompletion : Type 0 where
  pub id : Text
  pub model : Text
  pub choice : Option UpstreamChoice
  pub usage : Option ChunkUsage

-- `finishToStop`.
abbrev finish_to_stop : Option FinishReason → StopReason
finish_to_stop (some FinishReason.stop) = end_turn
finish_to_stop (some FinishReason.length) = max_tokens
finish_to_stop (some FinishReason.tool_calls) = StopReason.tool_calls
finish_to_stop (some FinishReason.function_call) = StopReason.tool_calls
finish_to_stop (some FinishReason.content_filter) = refusal
finish_to_stop (some (FinishReason.another t)) = end_turn
finish_to_stop none = end_turn

abbrev pub choice_content : Option UpstreamChoice → Text
choice_content none = []
choice_content (some c) = or_else c.content []

abbrev pub choice_finish : Option UpstreamChoice → Option FinishReason
choice_finish none = none
choice_finish (some c) = c.finish_reason

abbrev pub usage_of : Option ChunkUsage → Usage
usage_of none = record { input_tokens = 0; output_tokens = 0 }
usage_of (some u) = record { input_tokens = u.prompt_tokens; output_tokens = u.completion_tokens }

-- The response, and the `_upstreamId` that is attached to it.
pub openai_chat_completion_to_canonical :
    {J : Type 0} → Text → UpstreamCompletion → CanonicalResponse J × Option Text
openai_chat_completion_to_canonical msg_id result = (
  record {
    id = msg_id;
    content = text (choice_content result.choice) ∷ [];
    model = result.model;
    stop_reason = some (finish_to_stop (choice_finish result.choice));
    stop_sequence = none;
    usage = usage_of result.usage;
  },
  some result.id,
)
