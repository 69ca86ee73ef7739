-- ===== src/Translation/Tests.antt =====
-- The translators on concrete streams (router/src/translation).
use local_llms.Base.{
  Option, ℕ, none, some, true, false, List, [], ◌∷◌, ◌++◌, Text, codes, ◌≡◌, ◌⊎◌, refl, arith, All,
  get_elem?, if◌then◌else◌,
}
use local_llms.Canonical.{CanonicalResponse, end_turn}
use local_llms.Canonical.Stream.{CanonicalStreamEvent, message_stop, ping}
use local_llms.Translation.Follow.{follow}
use local_llms.Translation.Chunks
use local_llms.Translation.Chunks.{Chunk, FinishReason, openai_chunks_to_canonical_events}
use local_llms.Translation.Chunks.Blocks.{openai_chunks_to_canonical_events-follow}
use local_llms.Translation.Chunks.Calls.{call_chunk}
use local_llms.Translation.Responses
use local_llms.Translation.Responses.{
  canonical_to_responses_sse, finished, threw, completed, incomplete, failed, function_call_added,
}
use local_llms.Translation.Responses.Numbering.{CountsFrom, canonical_to_responses_sse-CountsFrom}
use local_llms.Translation.Responses.Terminal.{ends_once, last_status, no_terminal, responses_throw}
use local_llms.Translation.Responses.Items.{
  Block, written, called, items_of, done_items, final_output, answer_events, responses_output,
}
use local_llms.Translation.Responses.Parallel.{IsOther, NeverAgain}
use local_llms.Translation.Pipeline.{pipeline_ends, pipeline_loses_call, pipeline_roundtrip}
use local_llms.Translation.Content.{calls}
use local_llms.Translation.Chunks.Content.{chunks_text, chunks_calls}
use local_llms.Errors.{api_connection}
use local_llms.Translation.OpenaiOut.{
  UpstreamCompletion, canonical_to_openai_response, openai_chat_completion_to_canonical,
}
use local_llms.Translation.OpenaiOut.Completion.{
  plain_opts, usual_finish, text_of_answer, finish_of_answer, completion_through,
}
use local_llms.Translation.OpenaiOut.Sse.{canonical_to_openai_sse}
use local_llms.Translation.OpenaiOut.Sse.Client.{client_text, client_calls}
use local_llms.Translation.AnthropicOut
use local_llms.Translation.AnthropicOut.{
  canonical_to_anthropic_sse, error_frames, frames_of, anthropic_through,
}

abbrev chunk_opts : Chunks.Opts ℕ
chunk_opts = record {
  model = codes "m";
  input_tokens_hint = some 3;
  msg_id = codes "msg_1";
  empty_object = 0;
}

abbrev opts : Responses.Opts ℕ
opts = record {
  response_id = codes "resp_1";
  display_model = none;
  echo = none;
  aborted = false;
  fresh = λ n. n ∷ [];
  now = λ n. n;
}

abbrev describe : ℕ → Text
describe n = n ∷ []

-- A text, then a tool call, then the usage.
abbrev text_then_call : List Chunk
text_then_call =
    record {
      id = codes "c";
      choice = some (record { content = some (codes "hi"); finish_reason = none; tool_calls = [] });
      usage = none;
    }
    ∷ call_chunk (codes "c") 0 (1, []) (2, []) (some (codes "x"))
    ∷ record {
      id = codes "c";
      choice = some (record {
        content = none;
        finish_reason = some FinishReason.tool_calls;
        tool_calls = [];
      });
      usage = some (record { prompt_tokens = 5; completion_tokens = 7 });
    }
    ∷ []

abbrev two_calls : List Chunk
two_calls =
    call_chunk (codes "c") 0 (1, []) (2, []) (some (codes "x"))
    ∷ call_chunk (codes "c") 1 (3, []) (4, []) none
    ∷ []

openai_chunks_to_canonical_events-follow_example :
    follow 1 none (openai_chunks_to_canonical_events chunk_opts text_then_call) ≡ some none
openai_chunks_to_canonical_events-follow_example =
    openai_chunks_to_canonical_events-follow chunk_opts 1 text_then_call

canonical_to_responses_sse-CountsFrom_example :
    CountsFrom 0
      (canonical_to_responses_sse opts describe
        (openai_chunks_to_canonical_events chunk_opts text_then_call)
        finished).0
canonical_to_responses_sse-CountsFrom_example =
    canonical_to_responses_sse-CountsFrom opts describe
      (openai_chunks_to_canonical_events chunk_opts text_then_call) finished

responses_throw_example :
    let r = canonical_to_responses_sse opts describe (ping ∷ []) (threw 4) in
    if opts.aborted
    then (no_terminal r.0 ≡ true) × (r.1.error ≡ none)
    else (ends_once r.0 ≡ true) × (last_status r.0 ≡ some failed) × (r.1.error ≡ some 4)
responses_throw_example = responses_throw opts describe (ping ∷ []) 4 refl

abbrev answer : CanonicalResponse ℕ
answer = record {
  id = codes "msg_1";
  content = [];
  model = codes "m";
  stop_reason = none;
  stop_sequence = none;
  usage = record { input_tokens = 3; output_tokens = 1 };
}

abbrev two_blocks : List (Block ℕ)
two_blocks =
    written 0 [] (codes "a" ∷ codes "b" ∷ [])
    ∷ called 1 (codes "t") (codes "f") 0 (codes "x" ∷ [])
    ∷ []

abbrev two_blocks_events : List (CanonicalStreamEvent ℕ)
two_blocks_events =
    answer_events opts none answer two_blocks (some end_turn) none
      (record { output_tokens = 7; upstream_input_tokens = none })
    ++ (message_stop ∷ [])

responses_output_example :
    let fs = (canonical_to_responses_sse opts describe two_blocks_events finished).0 in
    (done_items fs ≡ items_of opts.fresh 0 two_blocks)
    × (final_output fs ≡ some (items_of opts.fresh 0 two_blocks))
responses_output_example =
    responses_output opts describe none answer two_blocks (some end_turn) none
      (record { output_tokens = 7; upstream_input_tokens = none })

pipeline_ends_example :
    let fs =
      (canonical_to_responses_sse opts describe
        (openai_chunks_to_canonical_events chunk_opts text_then_call)
        finished).0 in
    (ends_once fs ≡ true) × ((last_status fs ≡ some completed) ⊎ (last_status fs ≡ some incomplete))
pipeline_ends_example = pipeline_ends chunk_opts opts describe text_then_call

never_again : NeverAgain opts.fresh (codes "fc_" ++ opts.fresh 0) 1
never_again k l = ((λ e. cc e), (λ e. grind arith))

pipeline_loses_call_example :
    let fs =
      (canonical_to_responses_sse opts describe
        (openai_chunks_to_canonical_events chunk_opts two_calls)
        finished).0 in
    (get_elem? fs 2
      ≡ some (record {
        sequence_number = 2;
        body = function_call_added 1 (codes "fc_" ++ opts.fresh 0) (1 ∷ []) (2 ∷ []);
      }))
    × All (IsOther (codes "fc_" ++ opts.fresh 0)) fs
pipeline_loses_call_example =
    pipeline_loses_call chunk_opts opts describe (codes "c") (1, []) (2, []) (some (codes "x"))
      (codes "c") (3, []) (4, []) none [] never_again

pipeline_roundtrip_example :
    let fs =
      (canonical_to_openai_sse plain_opts
        (λ n. n)
        false
        (openai_chunks_to_canonical_events chunk_opts text_then_call)
        finished).0 in
    (client_text fs ≡ chunks_text text_then_call)
    × (client_calls fs [] ≡ calls (chunks_calls text_then_call []))
pipeline_roundtrip_example =
    pipeline_roundtrip chunk_opts plain_opts (λ n. n) false text_then_call refl

abbrev called_answer : UpstreamCompletion
called_answer = record {
  id = codes "chatcmpl-1";
  model = codes "m";
  choice = some (record {
    content = none;
    tool_calls = record { id = codes "t"; name = codes "f"; arguments = codes "x" } ∷ [];
    finish_reason = some FinishReason.tool_calls;
  });
  usage = some (record { prompt_tokens = 5; completion_tokens = 7 });
}

completion_through_example :
    let r : CanonicalResponse ℕ × Option Text =
      openai_chat_completion_to_canonical (codes "msg_1") called_answer in
    let out = canonical_to_openai_response describe 9 plain_opts r.1 r.0 in
    (out.id ≡ called_answer.id)
    × (out.model ≡ called_answer.model)
    × (out.content ≡ some (text_of_answer called_answer))
    × (out.finish_reason ≡ usual_finish (finish_of_answer called_answer))
    × (out.usage.prompt_tokens ≡ 5)
    × (out.usage.completion_tokens ≡ 7)
    × (out.usage.total_tokens ≡ 12)
    × (out.tool_calls ≡ [])
completion_through_example = completion_through describe 9 plain_opts (codes "msg_1") called_answer

abbrev anthropic_opts : AnthropicOut.Opts
anthropic_opts = record { display_model = some (codes "alias"); id_override = none }

anthropic_through_example :
    (canonical_to_anthropic_sse anthropic_opts false two_blocks_events
      (threw (api_connection []))).0
    ≡ frames_of anthropic_opts two_blocks_events (error_frames false (threw (api_connection [])))
anthropic_through_example =
    anthropic_through anthropic_opts false two_blocks_events (threw (api_connection []))
