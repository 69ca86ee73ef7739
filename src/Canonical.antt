-- ===== src/Canonical.antt =====
-- The canonical messages of router/src/translation/canonical.ts. `J` stands for JSON values, which the router passes through,
-- among them the numbers that need not be whole.
pub mod Stream
use local_llms.Base.{ℕ, Bool, Option, List, [], ◌∷◌, Text}

pub data ImageSource : Type 0 where
  base64 : Text → Text → ImageSource  -- media_type, data
  url : Text → ImageSource

mutual
  pub data ContentBlock (J : Type 0) : Type 0 where
    text : Text → ContentBlock J
    image : ImageSource → ContentBlock J
    tool_use : Text → Text → J → ContentBlock J  -- id, name, input
    tool_result : Text → ResultContent J → Bool → ContentBlock J  -- tool_use_id, content, is_error

  pub data ResultContent (J : Type 0) : Type 0 where
    plain : Text → ResultContent J
    no_blocks : ResultContent J
    block : ContentBlock J → ResultContent J → ResultContent J

-- An array of blocks as the content of a tool result.
abbrev pub blocks : {J : Type 0} → List (ContentBlock J) → ResultContent J
blocks [] = no_blocks
blocks (b ∷ bs) = block b (blocks bs)

pub data Role : Type 0 where
  user assistant : Role

pub record CanonicalMessage (J : Type 0) : Type 0 where
  pub role : Role
  pub content : List (ContentBlock J)

pub record CanonicalTool (J : Type 0) : Type 0 where
  pub name : Text
  pub description : Option Text
  pub input_schema : J

-- The fields are the flags `disable_parallel_tool_use`, and before it the name for `tool`.
pub data CanonicalToolChoice : Type 0 where
  auto any : Option Bool → CanonicalToolChoice
  tool : Text → Option Bool → CanonicalToolChoice
  no_tool : CanonicalToolChoice

-- `tool_calls` is the source's `tool_use`.
pub data StopReason : Type 0 where
  end_turn max_tokens stop_sequence tool_calls pause_turn refusal model_context_window_exceeded :
      StopReason

pub record CanonicalRequest (J : Type 0) : Type 0 where
  pub model : Text
  pub system : Option Text
  pub messages : List (CanonicalMessage J)
  pub max_tokens : Option ℕ
  pub temperature : Option J
  pub top_p : Option J
  pub top_k : Option ℕ
  pub stop_sequences : Option (List Text)
  pub stream : Option Bool
  pub tools : Option (List (CanonicalTool J))
  pub tool_choice : Option CanonicalToolChoice

pub record Usage : Type 0 where
  pub input_tokens : ℕ
  pub output_tokens : ℕ

-- The constants in `type` and `role` are left out.
pub record CanonicalResponse (J : Type 0) : Type 0 where
  pub id : Text
  pub content : List (ContentBlock J)
  pub model : Text
  pub stop_reason : Option StopReason
  pub stop_sequence : Option Text
  pub usage : Usage
