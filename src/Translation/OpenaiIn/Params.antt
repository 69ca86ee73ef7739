-- ===== src/Translation/OpenaiIn/Params.antt =====
-- canonicalToOpenAIChatCompletionParams of router/src/translation/openai-in.ts: a canonical request
-- as the parameters of a call of an OpenAI-compatible backend.
use local_llms.Base.{ℕ, Bool, true, false, Option, none, some, List, [], ◌∷◌, ◌++◌, Text, codes}
use local_llms.Canonical.{
  ImageSource, base64, url, ContentBlock, text, image, tool_use, tool_result, ResultContent, plain,
  no_blocks, block, Role, user, assistant, CanonicalMessage, CanonicalTool, CanonicalToolChoice,
  auto, any, tool, no_tool, CanonicalRequest,
}
use local_llms.Translation.OpenaiIn.{Json}

pub data ContentPart : Type 0 where
  text_of_part url_of_part : Text → ContentPart  -- text, image_url.url

pub record ToolCallParam : Type 0 where
  pub id : Text
  pub name : Text
  pub arguments : Text

pub data MessageParam : Type 0 where
  system_param user_param : Text → MessageParam
  user_parts_param : List ContentPart → MessageParam
  assistant_param : Option Text → List ToolCallParam → MessageParam  -- content, tool_calls
  tool_param : Text → Text → MessageParam  -- tool_call_id, content

pub record ToolParam (J : Type 0) : Type 0 where
  pub name : Text
  pub description : Option Text
  pub parameters : J

pub data ToolChoiceParam : Type 0 where
  auto_param required_param none_param : ToolChoiceParam
  function_param : Text → ToolChoiceParam

pub record ChatParams (J : Type 0) : Type 0 where
  pub model : Text
  pub messages : List MessageParam
  pub temperature : Option J
  pub top_p : Option J
  pub max_tokens : Option ℕ
  pub stop : Option (List Text)
  pub tools : Option (List (ToolParam J))
  pub tool_choice : Option ToolChoiceParam
  pub parallel_tool_calls : Option Bool

abbrev pub joined : List Text → Text
joined [] = []
joined (t ∷ ts) = t ++ joined ts

abbrev url_of_source : ImageSource → Text
url_of_source (base64 media_type d) = codes "data:" ++ (media_type ++ (codes ";base64," ++ d))
url_of_source (url u) = u

-- `textParts`, `imageParts`, `toolUseBlocks` as calls, and `toolResultBlocks` as messages.
pub record Sorted : Type 0 where
  pub text_parts : List Text
  pub image_parts : List Text
  pub tool_calls : List ToolCallParam
  pub tool_results : List MessageParam

abbrev text_content_parts : List Text → List ContentPart
text_content_parts [] = []
text_content_parts (t ∷ ts) = text_of_part t ∷ text_content_parts ts

abbrev image_content_parts : List Text → List ContentPart
image_content_parts [] = []
image_content_parts (u ∷ us) = url_of_part u ∷ image_content_parts us

abbrev content_parts : Sorted → List ContentPart
content_parts s = text_content_parts s.text_parts ++ image_content_parts s.image_parts

-- The text and the images beside tool results.
abbrev beside_results : List ContentPart → List MessageParam
beside_results [] = []
beside_results (p ∷ ps) = user_parts_param (p ∷ ps) ∷ []

abbrev said : List Text → Option Text
said [] = none
said (t ∷ ts) = some (joined (t ∷ ts))

-- A message without tool results, by its role, its calls and its images.
abbrev spoken : Role → Sorted → List ToolCallParam → List Text → MessageParam
spoken assistant s (c ∷ cs) us = assistant_param (said s.text_parts) (c ∷ cs)
spoken assistant s [] us = assistant_param (some (joined s.text_parts)) []
spoken user s cs (u ∷ us) = user_parts_param (content_parts s)
spoken user s cs [] = user_param (joined s.text_parts)

abbrev pub message_params : Role → Sorted → List MessageParam → List MessageParam
message_params role s (r ∷ rs) = (r ∷ rs) ++ beside_results (content_parts s)
message_params role s [] = spoken role s s.tool_calls s.image_parts ∷ []

abbrev system_message : Option Text → List MessageParam
system_message none = []
system_message (some []) = []
system_message (some (c ∷ t)) = system_param (c ∷ t) ∷ []

abbrev choice_param : CanonicalToolChoice → ToolChoiceParam
choice_param (auto d) = auto_param
choice_param (any d) = required_param
choice_param (tool name d) = function_param name
choice_param no_tool = none_param

abbrev parallel_param : Option CanonicalToolChoice → Option Bool
parallel_param (some (auto (some true))) = some false
parallel_param (some (any (some true))) = some false
parallel_param (some (tool name (some true))) = some false
parallel_param _ = none

abbrev choice_params : Option CanonicalToolChoice → Option ToolChoiceParam
choice_params none = none
choice_params (some c) = some (choice_param c)

-- `blocks_json` is JSON.stringify on the blocks of a tool result.
module _ {J : Type 0} (json : Json J) (blocks_json : ResultContent J → Text) where
  abbrev inner_text : ResultContent J → Text
  inner_text (plain t) = t
  inner_text no_blocks = blocks_json no_blocks
  inner_text (block b bs) = blocks_json (block b bs)

  abbrev pub result_param : Text → ResultContent J → Bool → MessageParam
  result_param id content true =
      tool_param id (json.stringify (json.error_wrap (inner_text content)))
  result_param id content false = tool_param id (inner_text content)

  abbrev pub sorted : List (ContentBlock J) → Sorted
  sorted [] = record { text_parts = []; image_parts = []; tool_calls = []; tool_results = [] }
  sorted (text t ∷ bs) = let s = sorted bs in record s { text_parts = t ∷ s.text_parts }
  sorted (image source ∷ bs) =
      let s = sorted bs in record s { image_parts = url_of_source source ∷ s.image_parts }
  sorted (tool_use id name input ∷ bs) =
      let s = sorted bs in
      record s {
        tool_calls =
            record { id = id; name = name; arguments = json.stringify input } ∷ s.tool_calls;
      }
  sorted (tool_result id content is_error ∷ bs) =
      let s = sorted bs in
      record s { tool_results = result_param id content is_error ∷ s.tool_results }

  abbrev pub params_of_message : CanonicalMessage J → List MessageParam
  params_of_message m = let s = sorted m.content in message_params m.role s s.tool_results

  abbrev pub params_of_messages : List (CanonicalMessage J) → List MessageParam
  params_of_messages [] = []
  params_of_messages (m ∷ ms) = params_of_message m ++ params_of_messages ms

  abbrev tool_params : List (CanonicalTool J) → List (ToolParam J)
  tool_params [] = []
  tool_params (t ∷ ts) =
      record { name = t.name; description = t.description; parameters = t.input_schema }
      ∷ tool_params ts

  abbrev tools_params : Option (List (CanonicalTool J)) → Option (List (ToolParam J))
  tools_params none = none
  tools_params (some ts) = some (tool_params ts)

  unfoldable pub canonical_to_openai_chat_completion_params : CanonicalRequest J → ChatParams J
  canonical_to_openai_chat_completion_params req = record {
    model = req.model;
    messages = system_message req.system ++ params_of_messages req.messages;
    temperature = req.temperature;
    top_p = req.top_p;
    max_tokens = req.max_tokens;
    stop = req.stop_sequences;
    tools = tools_params req.tools;
    tool_choice = choice_params req.tool_choice;
    parallel_tool_calls = parallel_param req.tool_choice;
  }
