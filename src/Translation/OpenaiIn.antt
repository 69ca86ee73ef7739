-- ===== src/Translation/OpenaiIn.antt =====
-- openAIRequestToCanonical of router/src/translation/openai-in.ts: a request of the OpenAI surface
-- becomes a canonical request. The body is the value that its schema has accepted; of a value that
-- the source looks at more closely, the constructors are what it tells apart.
pub mod Texts
pub mod Request
pub mod Params
pub mod Tests
use local_llms.Base.{
  ℕ, zero, suc, ◌==◌, ◌&&◌, ◌||◌, Bool, true, false, not, Option, none, some, List, [], ◌∷◌, ◌++◌,
  Text, codes, text_eq, join_texts, slice, drop, length, leb, if◌then◌else◌,
}
use local_llms.Canonical.{
  ImageSource, base64, url, ContentBlock, text, image, tool_use, tool_result, plain, Role, user,
  assistant, CanonicalMessage, CanonicalTool, CanonicalToolChoice, auto, any, tool, no_tool,
  CanonicalRequest,
}

-- JSON.parse and JSON.stringify, what the source asks of a value, and the check for an https URL.
pub record Json (J : Type 0) : Type 0 where
  pub parse : Text → Option J  -- `none` where it throws
  pub stringify : J → Text
  pub is_object : J → Bool  -- neither null nor an array
  pub error_result : J → Option Text  -- `result`, where is_error is true and `result` a string
  pub error_wrap : Text → J  -- { is_error: true, result }
  pub empty_object : J
  pub is_https_url : Text → Bool

-- A block of a content array.
pub data Part : Type 0 where
  text_part image_part : Text → Part  -- text, image_url.url
  image_without_url not_object : Part
  another_part : Text → Part  -- its type

-- The content: a string, an array with its value as JSON, or null or absent.
pub data Content (J : Type 0) : Type 0 where
  str : Text → Content J
  arr : List Part → J → Content J
  absent : Content J

-- An entry of `tool_calls`.
pub data RawToolCall : Type 0 where
  call : Text → Text → Text → RawToolCall  -- id, function.name, function.arguments
  call_not_object call_without_id call_without_function : RawToolCall

pub data MessageRole : Type 0 where
  system_role user_role assistant_role tool_role : MessageRole

pub record OpenaiMessage (J : Type 0) : Type 0 where
  pub role : MessageRole
  pub content : Content J
  pub tool_call_id : Option Text
  pub tool_calls : List RawToolCall  -- empty where it is absent

-- An entry of `tools`.
pub data RawTool (J : Type 0) : Type 0 where
  function_tool : Text → Option Text → Option J → RawTool J
      -- function.name, description if a string, parameters if an object or an array
  tool_not_object tool_without_name : RawTool J

pub data RawChoice : Type 0 where
  choice_auto choice_required choice_none : RawChoice
  choice_function unsupported_choice : Text → RawChoice  -- the name, the value as JSON

pub data Stop : Type 0 where
  one_stop : Text → Stop
  stops : List Text → Stop

pub record OpenaiRequest (J : Type 0) : Type 0 where
  pub model : Text
  pub messages : List (OpenaiMessage J)
  pub stream : Option Bool
  pub temperature : Option J
  pub top_p : Option J
  pub max_tokens : Option ℕ
  pub stop : Option Stop
  pub tools : Option (List (RawTool J))
  pub tool_choice : Option RawChoice
  pub parallel_tool_calls : Option Bool

-- What the translation throws.
pub data InError : Type 0 where
  zod_error : Text → InError  -- the message of the issue
  invalid_tool_arguments : Text → InError  -- the id of the call
  schema_error : InError  -- CanonicalRequestSchema refuses what was built

pub data Parsed {ℓ} (A : Type ℓ) : Type ℓ where
  ok : A → Parsed A
  throws : InError → Parsed A

infixl 5 ◌>>=◌
abbrev pub ◌>>=◌ {ℓ κ} : {A : Type ℓ} {B : Type κ} → Parsed A → (A → Parsed B) → Parsed B
ok a >>= f = f a
throws e >>= f = throws e
