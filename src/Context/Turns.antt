-- ===== src/Context/Turns.antt =====
-- The turns of a session as messages and as a system prompt
-- (router/src/providers/context-provider.ts).
pub mod Sorting
use local_llms.Base.{
  ℕ, false, not, Option, none, some, List, [], ◌∷◌, ◌++◌, Text, includes_text, join_texts, length,
  ltb, leb, if◌then◌else◌,
}
use local_llms.Canonical.{
  ContentBlock, text, image, tool_use, tool_result, blocks, CanonicalMessage, user, assistant,
}

pub data TurnRole : Type 0 where
  from_system from_user from_assistant from_tool : TurnRole

-- A stored turn, with the fields that are read here.
pub record Turn (J : Type 0) : Type 0 where
  pub turn_index : ℕ
  pub role : TurnRole
  pub content : List (ContentBlock J)
  pub tool_calls : Option (List (ContentBlock J))
  pub tool_call_id : Option Text

-- `??`.
abbrev pub or_else : {A : Type 0} → Option A → A → A
or_else none b = b
or_else (some a) b = a

abbrev system_part : TurnRole → Text → List Text
system_part from_system txt = if ltb 0 (length txt) then txt ∷ [] else []
system_part from_user txt = []
system_part from_assistant txt = []
system_part from_tool txt = []

abbrev joined_system : List Text → Option Text
joined_system [] = none
joined_system (t ∷ ts) = some (join_texts (10 ∷ 10 ∷ []) (t ∷ ts))

abbrev incoming_part : Option Text → List Text
incoming_part none = []
incoming_part (some s) = if ltb 0 (length s) then s ∷ [] else []

module _ {J : Type 0} where
  abbrev tool_use_ids : List (ContentBlock J) → List Text
  tool_use_ids [] = []
  tool_use_ids (tool_use id name input ∷ bs) = id ∷ tool_use_ids bs
  tool_use_ids (text t ∷ bs) = tool_use_ids bs
  tool_use_ids (image source ∷ bs) = tool_use_ids bs
  tool_use_ids (tool_result id content is_error ∷ bs) = tool_use_ids bs

  -- The filter of the tool calls that the content does not hold.
  abbrev extra_calls : List Text → List (ContentBlock J) → List (ContentBlock J)
  extra_calls seen [] = []
  extra_calls seen (tool_use id name input ∷ bs) =
      let rest = extra_calls seen bs in
      if not (includes_text id seen) then tool_use id name input ∷ rest else rest
  extra_calls seen (text t ∷ bs) = extra_calls seen bs
  extra_calls seen (image source ∷ bs) = extra_calls seen bs
  extra_calls seen (tool_result id content is_error ∷ bs) = extra_calls seen bs

  abbrev message_of_role : TurnRole → Turn J → Option (CanonicalMessage J)
  message_of_role from_system turn = none
  message_of_role from_user turn = some record { role = user; content = turn.content }
  message_of_role from_assistant turn = some record {
    role = assistant;
    content = turn.content ++ extra_calls (tool_use_ids turn.content) (or_else turn.tool_calls []);
  }
  message_of_role from_tool turn = some record {
    role = user;
    content = tool_result (or_else turn.tool_call_id []) (blocks turn.content) false ∷ [];
  }

  -- With no tool calls the content stays as it is, which is the same as adding none.
  pub turn_to_canonical_message : Turn J → Option (CanonicalMessage J)
  turn_to_canonical_message turn = message_of_role turn.role turn

  pub stringify_content : List (ContentBlock J) → Text
  stringify_content [] = []
  stringify_content (text t ∷ bs) = t ++ stringify_content bs
  stringify_content (image source ∷ bs) = stringify_content bs
  stringify_content (tool_use id name input ∷ bs) = stringify_content bs
  stringify_content (tool_result id content is_error ∷ bs) = stringify_content bs

  -- `sort` by the index, which is stable.
  abbrev pub insert_turn : Turn J → List (Turn J) → List (Turn J)
  insert_turn t [] = t ∷ []
  insert_turn t (u ∷ us) =
      let rest = insert_turn t us in
      if leb t.turn_index u.turn_index then t ∷ (u ∷ us) else u ∷ rest

  pub sorted_history : List (Turn J) → List (Turn J)
  sorted_history [] = []
  sorted_history (t ∷ ts) = insert_turn t (sorted_history ts)

  pub system_parts : List (Turn J) → List Text
  unfolding stringify_content
  system_parts [] = []
  system_parts (t ∷ ts) = system_part t.role (stringify_content t.content) ++ system_parts ts

  abbrev kept : Option (CanonicalMessage J) → List (CanonicalMessage J) → List (CanonicalMessage J)
  kept none ms = ms
  kept (some m) ms = m ∷ ms

  pub history_messages : List (Turn J) → List (CanonicalMessage J)
  unfolding turn_to_canonical_message
  history_messages [] = []
  history_messages (t ∷ ts) = kept (turn_to_canonical_message t) (history_messages ts)

  pub system_of : List (Turn J) → Option Text → Option Text
  unfolding system_parts sorted_history
  system_of history incoming_system =
      joined_system (system_parts (sorted_history history) ++ incoming_part incoming_system)
