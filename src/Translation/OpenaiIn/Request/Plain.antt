-- ===== src/Translation/OpenaiIn/Request/Plain.antt =====
-- Plain messages of the OpenAI surface, and the parameters that say the same, for
-- router/src/translation/openai-in.ts.
use local_llms.Base.{true, Option, none, some, List, [], ◌∷◌, ◌++◌, Text, ◌≡◌, ◌≢◌, All}
use local_llms.Canonical.{CanonicalMessage}
use local_llms.Translation.OpenaiIn.{
  Json, OpenaiMessage, RawToolCall, Content, call, call_not_object, call_without_id,
  call_without_function, str, arr, absent, system_role, user_role, assistant_role, tool_role,
}
use local_llms.Translation.OpenaiIn.Request.{unwrapped}
use local_llms.Translation.OpenaiIn.Params.{
  MessageParam, ToolCallParam, user_param, assistant_param, tool_param,
}

abbrev pub answer_param : Option Text → Text → List MessageParam
answer_param none t = []
answer_param (some id) t = tool_param id t ∷ []

abbrev pub call_params : List RawToolCall → List ToolCallParam
call_params [] = []
call_params (call id name args ∷ cs) =
    record { id = id; name = name; arguments = args } ∷ call_params cs
call_params (_ ∷ cs) = call_params cs

module _ {J : Type 0} where
  abbrev pub IsText : Content J → Type 0
  IsText (str t) = Unit
  IsText (arr ps j) = ⊥
  IsText absent = ⊥

  -- The content beside tool calls: a text that is not empty, or none.
  abbrev pub IsBeside : Content J → Type 0
  IsBeside (str []) = ⊥
  IsBeside (str (c ∷ t)) = Unit
  IsBeside (arr ps j) = ⊥
  IsBeside absent = Unit

  -- The same message among the parameters; system messages go elsewhere.
  abbrev pub text_in : Content J → Text
  text_in (str t) = t
  text_in (arr ps j) = []
  text_in absent = []

  abbrev pub text_beside : Content J → Option Text
  text_beside (str t) = some t
  text_beside (arr ps j) = none
  text_beside absent = none

  abbrev pub said_param : Content J → List RawToolCall → MessageParam
  said_param content [] = assistant_param (some (text_in content)) []
  said_param content (c ∷ cs) = assistant_param (text_beside content) (call_params (c ∷ cs))

  abbrev pub same_message : OpenaiMessage J → List MessageParam
  same_message m = elim m.role [
    | system_role ↦ []
    | user_role ↦ user_param (text_in m.content) ∷ []
    | assistant_role ↦ said_param m.content m.tool_calls ∷ []
    | tool_role ↦ answer_param m.tool_call_id (text_in m.content)
  ]

  abbrev pub same_messages : List (OpenaiMessage J) → List MessageParam
  same_messages [] = []
  same_messages (m ∷ ms) = same_message m ++ same_messages ms

  abbrev pub system_text : OpenaiMessage J → List Text
  system_text m = elim m.role [ system_role ↦ text_in m.content ∷ [] | _ ↦ [] ]

  abbrev pub system_texts : List (OpenaiMessage J) → List Text
  system_texts [] = []
  system_texts (m ∷ ms) = system_text m ++ system_texts ms

  abbrev pub HasContent : CanonicalMessage J → Type 0
  HasContent m = m.content ≢ []

module _ {J : Type 0} (json : Json J) where
  -- The arguments are the text of an object, as JSON.stringify writes it.
  abbrev pub IsCall : RawToolCall → Type 0
  IsCall (call id name args) =
      (j : J) × (json.parse args ≡ some j) × (json.is_object j ≡ true) × (json.stringify j ≡ args)
  IsCall call_not_object = ⊥
  IsCall call_without_id = ⊥
  IsCall call_without_function = ⊥

  abbrev pub IsSaid : Content J → List RawToolCall → Type 0
  IsSaid content [] = IsText content
  IsSaid content (c ∷ cs) = IsBeside content × All IsCall (c ∷ cs)

  abbrev pub IsAnswer : Content J → Option Text → Type 0
  IsAnswer (str t) (some id) = unwrapped json t ≡ none
  IsAnswer _ _ = ⊥

  -- The messages of text and tool calls, as clients and this router write them.
  abbrev pub IsPlain : OpenaiMessage J → Type 0
  IsPlain m = elim m.role [
    | system_role ↦ IsText m.content
    | user_role ↦ IsText m.content
    | assistant_role ↦ IsSaid m.content m.tool_calls
    | tool_role ↦ IsAnswer m.content m.tool_call_id
  ]
