-- ===== src/Translation/OpenaiIn/Tests.antt =====
-- A conversation with a tool, through router/src/translation/openai-in.ts.
use local_llms.Base.{true, none, some, List, [], ◌∷◌, Text, codes, ◌≡◌, refl}
use local_llms.Canonical.{ResultContent, base64, url}
use local_llms.Translation.OpenaiIn.{
  Json, OpenaiMessage, str, absent, call, system_role, user_role, assistant_role, tool_role, ok,
}
use local_llms.Translation.OpenaiIn.Request.{Built, messages_loop, source_of_url}
use local_llms.Translation.OpenaiIn.Request.Plain.{same_messages, system_texts}
use local_llms.Translation.OpenaiIn.Request.Roundtrip.{messages_through}
use local_llms.Translation.OpenaiIn.Params.{params_of_messages}

-- A value as the text that JSON.stringify writes.
abbrev text_json : Json Text
text_json = record {
  parse = λ t. some t;
  stringify = λ j. j;
  is_object = λ j. true;
  error_result = λ j. none;
  error_wrap = λ t. t;
  empty_object = codes "{}";
  is_https_url = λ t. true;
}

abbrev blocks_text : ResultContent Text → Text
blocks_text c = codes "[]"

abbrev conversation : List (OpenaiMessage Text)
conversation =
    record { role = system_role; content = str (codes "s"); tool_call_id = none; tool_calls = [] }
    ∷ record { role = user_role; content = str (codes "u"); tool_call_id = none; tool_calls = [] }
    ∷ record {
      role = assistant_role;
      content = absent;
      tool_call_id = none;
      tool_calls =
          call (codes "a") (codes "f") (codes "{}")
          ∷ call (codes "b") (codes "g") (codes "{}")
          ∷ [];
    }
    ∷ record {
      role = tool_role;
      content = str (codes "1");
      tool_call_id = some (codes "a");
      tool_calls = [];
    }
    ∷ record {
      role = tool_role;
      content = str (codes "2");
      tool_call_id = some (codes "b");
      tool_calls = [];
    }
    ∷ []

messages_through_example :
    (built : Built Text) × (messages_loop text_json conversation ([], []) ≡ ok built)
    × (params_of_messages text_json blocks_text built.1 ≡ same_messages conversation)
    × (built.0 ≡ system_texts conversation)
messages_through_example = messages_through text_json blocks_text conversation (
  tt,
  (
    tt,
    (
      (tt, ((codes "{}", refl, refl, refl), ((codes "{}", refl, refl, refl), tt))),
      (refl, (refl, tt)),
    ),
  ),
)

-- A data URL is an image in base 64, and another URL an image by its URL.
data_source :
    source_of_url (codes "data:image/png;base64,QQ") ≡ base64 (codes "image/png") (codes "QQ")
data_source = refl

url_source : source_of_url (codes "https://a/b") ≡ url (codes "https://a/b")
url_source = refl
