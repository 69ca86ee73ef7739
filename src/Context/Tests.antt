-- ===== src/Context/Tests.antt =====
-- The theorems on image headers and on the context window at small sessions.
use local_llms.Base.{
  ℕ, ◌≤◌, ◌≡◌, refl, none, some, List, [], ◌∷◌, ◌++◌, Text, codes, length, drop, ◌⊎◌,
}
use local_llms.Canonical.{text, user, CanonicalMessage}
use local_llms.Tokens.{Encoder, count_tokens}
use local_llms.Tokens.Images.{read_png_dims, read_jpeg_dims}
use local_llms.Tokens.Images.Headers.{IsRead, image_headers_lem}
use local_llms.Context.Turns.{from_system, from_assistant, Turn, history_messages, system_of}
use local_llms.Context.{
  truncate, ProvideContextOpts, ProvideContextResult, budget_of, probe, provide_context, provided,
  tokenizer_throws,
}
use local_llms.Context.Turns.Sorting.{IsSortOf}
use local_llms.Context.Counting.{Fails}
use local_llms.Context.Window.{counted_texts, provide_context-drop}
use local_llms.Context.Estimate.{provide_context-counts}

image_headers_lem_example :
    IsRead (read_png_dims (255 ∷ 216 ∷ 255 ∷ 192 ∷ 0 ∷ []))
    × IsRead (read_jpeg_dims (255 ∷ 216 ∷ 255 ∷ 192 ∷ 0 ∷ []))
image_headers_lem_example = image_headers_lem (255 ∷ 216 ∷ 255 ∷ 192 ∷ 0 ∷ [])

-- A tokenizer with one token for each character.
abbrev by_character : Encoder ℕ
by_character = record {
  encode = λ t. some (length t);
  decode = λ s. none;
  stringify = λ j. codes "0";
  stringify_blocks = λ content. codes "[]";
}

abbrev says : Text → CanonicalMessage ℕ
says t = record { role = user; content = text t ∷ [] }

abbrev history : List (Turn ℕ)
history =
    record {
      turn_index = 1;
      role = from_assistant;
      content = text (codes "hello") ∷ [];
      tool_calls = none;
      tool_call_id = none;
    }
    ∷ (record {
      turn_index = 0;
      role = from_system;
      content = text (codes "be kind") ∷ [];
      tool_calls = none;
      tool_call_id = none;
    }
        ∷ [])

abbrev opts : ProvideContextOpts
opts = record {
  backend_model = codes "m";
  ctx_size = some 20;
  context_strategy = none;
  max_tokens_reserve = some 10;
  strategy = none;
  has_pending_tool_call = none;
}

provide_context-drop_example :
    ((r : ProvideContextResult ℕ) × (turns : List (Turn ℕ)) × (provide_context by_character history
          (says (codes "hi") ∷ [])
          none
          opts
        ≡ provided r)
      × IsSortOf history turns
      × (r.messages ≡ drop r.dropped_count (history_messages turns) ++ (says (codes "hi") ∷ []))
      × (r.dropped_count ≤ length (history_messages turns))
      × (r.system ≡ system_of history none))
    ⊎ (Fails by_character (counted_texts by_character history (says (codes "hi") ∷ []) none)
        × (provide_context by_character history (says (codes "hi") ∷ []) none opts
            ≡ tokenizer_throws))
provide_context-drop_example =
    provide_context-drop by_character history (says (codes "hi") ∷ []) none opts

provide_context-counts_example :
    ((r : ProvideContextResult ℕ) × (provide_context by_character history
          (says (codes "hi") ∷ [])
          none
          opts
        ≡ provided r)
      × (count_tokens by_character (probe opts.backend_model r.system r.messages)
          ≡ some r.estimated_tokens)
      × ((r.estimated_tokens ≤ budget_of opts) ⊎ (r.messages ≡ says (codes "hi") ∷ [])))
    ⊎ (Fails by_character (counted_texts by_character history (says (codes "hi") ∷ []) none)
        × (provide_context by_character history (says (codes "hi") ∷ []) none opts
            ≡ tokenizer_throws))
provide_context-counts_example =
    provide_context-counts by_character history (says (codes "hi") ∷ []) none opts refl

abbrev truncating : ProvideContextOpts
truncating = record opts { strategy = some truncate }
