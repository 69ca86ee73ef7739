-- ===== src/Translation/OpenaiIn/Request.antt =====
-- The translation itself of router/src/translation/openai-in.ts: openAIRequestToCanonical.
pub mod Plain
pub mod Results
pub mod Roundtrip
use local_llms.Base.{
  ℕ, zero, suc, ◌==◌, ◌&&◌, ◌||◌, Bool, true, false, not, Option, none, some, List, [], ◌∷◌, ◌++◌,
  Text, codes, text_eq, join_texts, slice, drop, length, leb, if◌then◌else◌,
}
use local_llms.Canonical.{
  ImageSource, base64, url, ContentBlock, text, image, tool_use, tool_result, plain, Role, user,
  assistant, CanonicalMessage, CanonicalTool, CanonicalToolChoice, auto, any, tool, no_tool,
  CanonicalRequest,
}
use local_llms.Translation.OpenaiIn.{
  Json, Part, Content, RawToolCall, MessageRole, OpenaiMessage, RawTool, RawChoice, Stop,
  OpenaiRequest, InError, Parsed, ok, throws, ◌>>=◌, str, arr, absent, text_part, image_part,
  image_without_url, not_object, another_part, call, call_not_object, call_without_id,
  call_without_function, system_role, user_role, assistant_role, tool_role, function_tool,
  tool_not_object, tool_without_name, choice_auto, choice_required, choice_none, unsupported_choice,
  choice_function, one_stop, stops, zod_error, invalid_tool_arguments, schema_error,
}
use local_llms.Translation.OpenaiIn.Texts.{data_url, is_error_wrap}

abbrev pub source_of_url : Text → ImageSource
source_of_url t = elim (data_url t) [ none ↦ url t | some m ↦ base64 m.0 m.1 ]

abbrev pub is_user : Role → Bool
is_user user = true
is_user assistant = false

-- What the loop has built: the system parts and the messages.
abbrev pub Built : Type 0 → Type 0
Built J = List Text × List (CanonicalMessage J)

abbrev pub system_of : List Text → Option Text
system_of [] = none
system_of (t ∷ ts) = some (join_texts (10 ∷ []) (t ∷ ts))

abbrev stops_of : Option Stop → Option (List Text)
stops_of none = none
stops_of (some (one_stop t)) = some (t ∷ [])
stops_of (some (stops ts)) = some ts

-- `parallel_tool_calls === false`.
abbrev is_parallel_off : Option Bool → Bool
is_parallel_off (some false) = true
is_parallel_off (some true) = false
is_parallel_off none = false

abbrev has {ℓ} : {A : Type ℓ} → Option A → Bool
has none = false
has (some a) = true

pub tool_choice_to_canonical : RawChoice → Parsed CanonicalToolChoice
tool_choice_to_canonical choice_auto = ok (auto none)
tool_choice_to_canonical choice_required = ok (any none)
tool_choice_to_canonical choice_none = ok no_tool
tool_choice_to_canonical (choice_function name) = ok (tool name none)
tool_choice_to_canonical (unsupported_choice j) =
    throws (zod_error (codes "unsupported tool_choice value: " ++ j))

abbrev without_parallel : Bool → CanonicalToolChoice → CanonicalToolChoice
without_parallel false c = c
without_parallel true (auto d) = auto (some true)
without_parallel true (any d) = any (some true)
without_parallel true (tool name d) = tool name (some true)
without_parallel true no_tool = no_tool

-- The tool choice, by `tool_choice`, whether parallel calls are off, and whether there are tools.
pub choice_of : Option RawChoice → Bool → Bool → Parsed (Option CanonicalToolChoice)
unfolding tool_choice_to_canonical
choice_of (some c) off tools = do
  choice ← tool_choice_to_canonical c
  ok (some (without_parallel off choice))
choice_of none off tools =
    if off && tools then ok (some (without_parallel off (auto none))) else ok none

abbrev are_stops_valid : Option (List Text) → Bool
are_stops_valid none = true
are_stops_valid (some ts) = leb (length ts) 5

module _ {J : Type 0} where
  pub content_array_to_canonical : List Part → Parsed (List (ContentBlock J))
  content_array_to_canonical [] = ok []
  content_array_to_canonical (text_part t ∷ ps) = do
    rest ← content_array_to_canonical ps
    ok (text t ∷ rest)
  content_array_to_canonical (image_part u ∷ ps) = do
    rest ← content_array_to_canonical ps
    ok (image (source_of_url u) ∷ rest)
  content_array_to_canonical (image_without_url ∷ ps) =
      throws (zod_error (codes "image_url.url must be a string"))
  content_array_to_canonical (not_object ∷ ps) =
      throws (zod_error (codes "content block must be an object"))
  content_array_to_canonical (another_part t ∷ ps) =
      throws (zod_error (codes "unsupported content block type: " ++ t))

  -- What JSON.parse gives for a wrapped content, and whether it has the shape.
  abbrev parsed_error : Json J → Text → Option Text
  parsed_error json t = elim (json.parse t) [ none ↦ none | some j ↦ json.error_result j ]

  abbrev pub unwrapped : Json J → Text → Option Text
  unwrapped json t = if leb (length t) 1024 && is_error_wrap t then parsed_error json t else none

  abbrev pub tool_call_to_use : Json J → RawToolCall → Parsed (ContentBlock J)
  tool_call_to_use json (call id name args) = elim (json.parse args) [
    | none ↦ throws (invalid_tool_arguments id)
    | some input ↦
        if json.is_object input
        then ok (tool_use id name input)
        else throws (zod_error (codes "tool_calls[].function.arguments must parse to an object"))
  ]
  tool_call_to_use json call_not_object =
      throws (zod_error (codes "tool_calls[] entries must be objects"))
  tool_call_to_use json call_without_id =
      throws (zod_error (codes "tool_calls[].id must be a string"))
  tool_call_to_use json call_without_function =
      throws (zod_error (codes "tool_calls[].function must have string name + string arguments"))

  pub tool_calls_to_tool_use : Json J → List RawToolCall → Parsed (List (ContentBlock J))
  tool_calls_to_tool_use json [] = ok []
  tool_calls_to_tool_use json (c ∷ cs) = do
    b ← tool_call_to_use json c
    bs ← tool_calls_to_tool_use json cs
    ok (b ∷ bs)

  abbrev content_text : Json J → Content J → Text
  content_text json (str t) = t
  content_text json (arr ps j) = json.stringify j
  content_text json absent = codes "\"\""

  abbrev pub result_block : Text → Text → Option Text → ContentBlock J
  result_block id content none = tool_result id (plain content) false
  result_block id content (some result) = tool_result id (plain result) true

  pub tool_message_to_result_block : Json J → OpenaiMessage J → Parsed (ContentBlock J)
  tool_message_to_result_block json msg = elim msg.tool_call_id [
    | none ↦ throws (zod_error (codes "role:'tool' message requires tool_call_id"))
    | some id ↦
        let content = content_text json msg.content in
        ok (result_block id content (unwrapped json content))
  ]

  abbrev tool_to_canonical : Json J → RawTool J → Parsed (CanonicalTool J)
  tool_to_canonical json (function_tool name description parameters) = ok (record {
    name = name;
    description = description;
    input_schema = elim parameters [ none ↦ json.empty_object | some j ↦ j ];
  })
  tool_to_canonical json tool_not_object =
      throws (zod_error (codes "tools[] entries must be objects"))
  tool_to_canonical json tool_without_name =
      throws (zod_error (codes "tools[].function.name is required"))

  pub tools_to_canonical : Json J → List (RawTool J) → Parsed (List (CanonicalTool J))
  tools_to_canonical json [] = ok []
  tools_to_canonical json (t ∷ ts) = do
    tool' ← tool_to_canonical json t
    rest ← tools_to_canonical json ts
    ok (tool' ∷ rest)

  -- Whether every block is a tool result.
  abbrev is_tool_result : ContentBlock J → Bool
  is_tool_result (tool_result id content is_error) = true
  is_tool_result (text t) = false
  is_tool_result (image source) = false
  is_tool_result (tool_use id name input) = false

  abbrev pub all_tool_results : List (ContentBlock J) → Bool
  all_tool_results [] = true
  all_tool_results (b ∷ bs) = is_tool_result b && all_tool_results bs

  -- The block goes to the last message, where that is the user's and has tool results only.
  abbrev pub push_result : ContentBlock J → List (CanonicalMessage J) → List (CanonicalMessage J)
  push_result b [] = record { role = user; content = b ∷ [] } ∷ []
  push_result b (m ∷ []) =
      if is_user m.role && all_tool_results m.content
      then record m { content = m.content ++ (b ∷ []) } ∷ []
      else m ∷ record { role = user; content = b ∷ [] } ∷ []
  push_result b (m ∷ m' ∷ ms) = m ∷ push_result b (m' ∷ ms)

  abbrev pub push_message : Role → List (ContentBlock J) → Built J → Built J
  push_message role content (parts, ms) =
      (parts, ms ++ (record { role = role; content = content } ∷ []))

  abbrev said_text : Content J → List (ContentBlock J)
  said_text (str []) = []
  said_text (str (c ∷ t)) = text (c ∷ t) ∷ []
  said_text (arr ps j) = []
  said_text absent = []

  abbrev push_content : Role → Content J → Built J → Parsed (Built J)
  push_content role absent built = ok (push_message role (text [] ∷ []) built)
  push_content role (str t) built = ok (push_message role (text t ∷ []) built)
  push_content role (arr ps j) built = do
    content ← content_array_to_canonical ps
    ok (push_message role content built)

  abbrev push_assistant : Json J → Content J → List RawToolCall → Built J → Parsed (Built J)
  push_assistant json content [] built = push_content assistant content built
  push_assistant json content (c ∷ cs) built = do
    uses ← tool_calls_to_tool_use json (c ∷ cs)
    ok (push_message assistant (said_text content ++ uses) built)

  abbrev push_system : Json J → Content J → Built J → Built J
  push_system json (str t) (parts, ms) = (parts ++ (t ∷ []), ms)
  push_system json (arr ps j) (parts, ms) = (parts ++ (json.stringify j ∷ []), ms)
  push_system json absent built = built

  -- The body of the loop over the messages.
  pub message_step : Json J → OpenaiMessage J → Built J → Parsed (Built J)
  unfolding content_array_to_canonical tool_calls_to_tool_use tool_message_to_result_block
  message_step json msg built = elim msg.role [
    | system_role ↦ ok (push_system json msg.content built)
    | tool_role ↦ do
      block ← tool_message_to_result_block json msg
      ok (built.0, push_result block built.1)
    | assistant_role ↦ push_assistant json msg.content msg.tool_calls built
    | user_role ↦ push_content user msg.content built
  ]

  pub messages_loop : Json J → List (OpenaiMessage J) → Built J → Parsed (Built J)
  unfolding message_step
  messages_loop json [] built = ok built
  messages_loop json (m ∷ ms) built = do
    next ← message_step json m built
    messages_loop json ms next

  -- The conditions of CanonicalRequestSchema that the translation does not itself meet.
  abbrev is_block_valid : Json J → ContentBlock J → Bool
  is_block_valid json (image (url u)) = json.is_https_url u
  is_block_valid json (image (base64 media_type d)) = true
  is_block_valid json (text t) = true
  is_block_valid json (tool_use id name input) = true
  is_block_valid json (tool_result id content is_error) = true

  abbrev all_blocks_valid : Json J → List (ContentBlock J) → Bool
  all_blocks_valid json [] = true
  all_blocks_valid json (b ∷ bs) = is_block_valid json b && all_blocks_valid json bs

  abbrev is_content_valid : Json J → List (ContentBlock J) → Bool
  is_content_valid json [] = false
  is_content_valid json (b ∷ bs) = all_blocks_valid json (b ∷ bs)

  abbrev all_messages_valid : Json J → List (CanonicalMessage J) → Bool
  all_messages_valid json [] = true
  all_messages_valid json (m ∷ ms) = is_content_valid json m.content && all_messages_valid json ms

  abbrev pub is_request_valid : Json J → CanonicalRequest J → Bool
  is_request_valid json req =
      not (leb (length req.messages) 0)
      && all_messages_valid json req.messages
      && are_stops_valid req.stop_sequences

  abbrev checked : Json J → CanonicalRequest J → Parsed (CanonicalRequest J)
  checked json req = if is_request_valid json req then ok req else throws schema_error

  abbrev tools_of : Json J → Option (List (RawTool J)) → Parsed (Option (List (CanonicalTool J)))
  tools_of json none = ok none
  tools_of json (some ts) = do tools' ← tools_to_canonical json ts; ok (some tools')

  pub openai_request_to_canonical : Json J → OpenaiRequest J → Parsed (CanonicalRequest J)
  unfolding messages_loop tools_to_canonical
  openai_request_to_canonical json body = do
    built ← messages_loop json body.messages ([], [])
    tools' ← tools_of json body.tools
    choice ← choice_of body.tool_choice (is_parallel_off body.parallel_tool_calls) (has body.tools)
    checked json (record {
      model = body.model;
      system = system_of built.0;
      messages = built.1;
      max_tokens = body.max_tokens;
      temperature = body.temperature;
      top_p = body.top_p;
      top_k = none;
      stop_sequences = stops_of body.stop;
      stream = body.stream;
      tools = tools';
      tool_choice = choice;
    })
