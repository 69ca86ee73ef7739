-- ===== src/Translation/Follow.antt =====
-- The events of one content block in a stream of router/src/translation/canonical.ts, followed
-- from its start over its deltas to its stop.
use local_llms.Base.{
  Bool, true, false, not, ◌&&◌, ℕ, Option, none, some, List, [], ◌∷◌, ◌++◌, ◌≡◌, ◌==◌,
  if◌then◌else◌, arith, Option-cases, inl, inr, Text,
}
use local_llms.Canonical.{ContentBlock, text, image, tool_use, tool_result}
use local_llms.Canonical.Stream.{
  ContentBlockDelta, text_delta, input_json_delta, CanonicalStreamEvent, message_start,
  content_block_start, content_block_delta, content_block_stop, message_delta, message_stop, ping,
}

-- What an open block takes: text, fragments of JSON, or no delta.
pub data Kind : Type 0 where
  takes_text takes_json takes_nothing : Kind

abbrev pub kind_of : {J : Type 0} → ContentBlock J → Kind
kind_of (text t) = takes_text
kind_of (tool_use id name input) = takes_json
kind_of (image source) = takes_nothing
kind_of (tool_result id content is_error) = takes_nothing

-- The rules for one block: `none` outside is a breach, `none` inside a block that is not open.
abbrev pub at_start : Kind → Option Kind → Option (Option Kind)
at_start k none = some (some k)
at_start k (some _) = none

abbrev pub at_delta : ContentBlockDelta → Option Kind → Option (Option Kind)
at_delta (text_delta t) (some takes_text) = some (some takes_text)
at_delta (input_json_delta t) (some takes_json) = some (some takes_json)
at_delta _ _ = none

abbrev pub at_stop : Option Kind → Option (Option Kind)
at_stop none = none
at_stop (some _) = some none

-- The event of a fragment of a tool call's arguments, where there is one.
abbrev pub fragment_events : {J : Type 0} → ℕ → Option Text → List (CanonicalStreamEvent J)
fragment_events i none = []
fragment_events i (some t) = content_block_delta i (input_json_delta t) ∷ []

module _ {J : Type 0} where
  abbrev pub follow_one : ℕ → Option Kind → CanonicalStreamEvent J → Option (Option Kind)
  follow_one i o (content_block_start j b) = if j == i then at_start (kind_of b) o else some o
  follow_one i o (content_block_delta j d) = if j == i then at_delta d o else some o
  follow_one i o (content_block_stop j) = if j == i then at_stop o else some o
  follow_one i o (message_start id m) = some o
  follow_one i o (message_delta r q u) = some o
  follow_one i o message_stop = some o
  follow_one i o ping = some o

  abbrev pub follow : ℕ → Option Kind → List (CanonicalStreamEvent J) → Option (Option Kind)
  follow i o [] = some o
  follow i o (e ∷ es) = elim (follow_one i o e) [ none ↦ none | some o' ↦ follow i o' es ]

  pub follow-append :
      (i : ℕ) (o o' : Option Kind) (es es' : List (CanonicalStreamEvent J))
      → follow i o es ≡ some o'
      → follow i o (es ++ es') ≡ follow i o' es'
  follow-append i o o' [] es' h = grind arith
  follow-append i o o' (e ∷ es) es' h = elim (Option-cases (follow_one i o e)) [
    | inl q ↦ ground arith
    | inr (p, q) ↦ let ih = follow-append i p o' es es' in ground (arith, ih)
  ]

  abbrev pub is_message_stop : CanonicalStreamEvent J → Bool
  is_message_stop message_stop = true
  is_message_stop (message_start upstream_id m) = false
  is_message_stop (content_block_start i b) = false
  is_message_stop (content_block_delta i d) = false
  is_message_stop (content_block_stop i) = false
  is_message_stop (message_delta reason sequence u) = false
  is_message_stop ping = false

  abbrev pub no_stop : List (CanonicalStreamEvent J) → Bool
  no_stop [] = true
  no_stop (e ∷ es) = not (is_message_stop e) && no_stop es

  pub no_stop-append :
      (es es' : List (CanonicalStreamEvent J))
      → no_stop es ≡ true
      → no_stop es' ≡ true
      → no_stop (es ++ es') ≡ true
  no_stop-append [] es' h k = k
  no_stop-append (e ∷ es) es' h k = ground (arith, no_stop-append es es')
