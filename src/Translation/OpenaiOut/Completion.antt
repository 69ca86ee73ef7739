-- ===== src/Translation/OpenaiOut/Completion.antt =====
-- An answer without streaming from an OpenAI-compatible backend to a client of the OpenAI surface:
-- openAIChatCompletionToCanonical, then canonicalToOpenAIResponse
-- (router/src/translation/openai-out.ts).
use local_llms.Base.{ℕ, ◌+◌, Option, none, some, [], Text, ◌≡◌, refl, ap, ◌∙◌, arith}
use local_llms.Canonical.{CanonicalResponse}
use local_llms.Translation.Chunks.{FinishReason, ChunkUsage}
use local_llms.Translation.OpenaiOut.{
  Opts, UpstreamChoice, UpstreamCompletion, choice_content, choice_finish, usage_of, finish_to_stop,
  or_else, canonical_stop_to_openai_finish, canonical_to_openai_response,
  openai_chat_completion_to_canonical,
}

abbrev pub plain_opts : Opts
plain_opts = record { display_model = none; id_override = none }

-- The finish reason that a client may expect: `function_call` is the old name of `tool_calls`, and
-- what is no known reason counts as a stop.
abbrev pub usual_finish : Option FinishReason → FinishReason
usual_finish none = FinishReason.stop
usual_finish (some FinishReason.stop) = FinishReason.stop
usual_finish (some FinishReason.length) = FinishReason.length
usual_finish (some FinishReason.tool_calls) = FinishReason.tool_calls
usual_finish (some FinishReason.function_call) = FinishReason.tool_calls
usual_finish (some FinishReason.content_filter) = FinishReason.content_filter
usual_finish (some (FinishReason.another t)) = FinishReason.stop

finish_through :
    (f : Option FinishReason)
    → or_else (canonical_stop_to_openai_finish (some (finish_to_stop f))) FinishReason.stop
      ≡ usual_finish f
unfolding canonical_stop_to_openai_finish
finish_through f = ground arith

-- What a client may expect of a backend's answer: its text, the finish reason of its first choice,
-- and the tokens that it counts.
abbrev text_in : Option UpstreamChoice → Text
text_in choice = elim choice [ none ↦ [] | some c ↦ elim c.content [ none ↦ [] | some t ↦ t ] ]

abbrev finish_in : Option UpstreamChoice → Option FinishReason
finish_in choice = elim choice [ none ↦ none | some c ↦ c.finish_reason ]

abbrev tokens_in : Option ChunkUsage → ℕ × ℕ
tokens_in usage = elim usage [ none ↦ (0, 0) | some u ↦ (u.prompt_tokens, u.completion_tokens) ]

abbrev pub text_of_answer : UpstreamCompletion → Text
text_of_answer result = text_in result.choice

abbrev pub finish_of_answer : UpstreamCompletion → Option FinishReason
finish_of_answer result = finish_in result.choice

abbrev pub tokens_of_answer : UpstreamCompletion → ℕ × ℕ
tokens_of_answer result = tokens_in result.usage

or_else_lem : {A : Type 0} (o : Option A) (d : A) → or_else o d ≡ elim o [ none ↦ d | some a ↦ a ]
or_else_lem none d = refl
or_else_lem (some a) d = refl

text_lem : (choice : Option UpstreamChoice) → choice_content choice ≡ text_in choice
text_lem none = refl
text_lem (some c) = or_else_lem c.content []

finish_lem : (choice : Option UpstreamChoice) → choice_finish choice ≡ finish_in choice
finish_lem none = refl
finish_lem (some c) = refl

tokens_lem :
    (usage : Option ChunkUsage)
    → ((usage_of usage).input_tokens ≡ (tokens_in usage).0)
      × ((usage_of usage).output_tokens ≡ (tokens_in usage).1)
tokens_lem none = (refl, refl)
tokens_lem (some u) = (refl, refl)

-- The id and the model of the backend's answer come through where the options name no others, and
-- the text, the finish reason and the tokens of the answer, with their sum, always do. Its tool
-- calls never do: the client gets none, whatever the finish reason says.
pub completion_through :
    {J : Type 0} (stringify : J → Text) (now : ℕ) (opts : Opts) (msg_id : Text)
    (result : UpstreamCompletion)
    → let r : CanonicalResponse J × Option Text =
        openai_chat_completion_to_canonical msg_id result in
      let out = canonical_to_openai_response stringify now opts r.1 r.0 in
      (out.id ≡ elim opts.id_override [ none ↦ result.id | some id ↦ id ])
      × (out.model ≡ elim opts.display_model [ none ↦ result.model | some model ↦ model ])
      × (out.content ≡ some (text_of_answer result))
      × (out.finish_reason ≡ usual_finish (finish_of_answer result))
      × (out.usage.prompt_tokens ≡ (tokens_of_answer result).0)
      × (out.usage.completion_tokens ≡ (tokens_of_answer result).1)
      × (out.usage.total_tokens ≡ (tokens_of_answer result).0 + (tokens_of_answer result).1)
      × (out.tool_calls ≡ [])
unfolding canonical_to_openai_response openai_chat_completion_to_canonical
completion_through stringify now opts msg_id result =
    let (p, c) = tokens_lem result.usage in
    (
      or_else_lem opts.id_override result.id,
      or_else_lem opts.display_model result.model,
      ap some (text_lem result.choice),
      finish_through (choice_finish result.choice) ∙ ap usual_finish (finish_lem result.choice),
      p,
      c,
      ap (λ n. n + (usage_of result.usage).output_tokens) p ∙ ap (◌+◌ (tokens_in result.usage).0) c,
      refl,
    )
