-- ===== src/Tokens.antt =====
-- The token estimate of router/src/translation/count-tokens.ts. The number of tokens that the
-- tokenizer gives a text, or that it throws, `JSON.stringify` and the decoding of base 64 are parameters.
pub mod Images
use local_llms.Base.{
  ℕ, ◌+◌, Bool, Option, none, some, List, [], ◌∷◌, Text, length, ltb, if◌then◌else◌,
}
use local_llms.Canonical.{
  ImageSource, ContentBlock, text, image, tool_use, tool_result, ResultContent, plain, no_blocks,
  block, CanonicalMessage, CanonicalTool, CanonicalRequest,
}
use Images.{image_tokens}

pub record Encoder (J : Type 0) : Type 0 where
  pub encode : Text → Option ℕ  -- the length of the encoding, `none` where the tokenizer throws
  pub decode : Text → Option (List ℕ)
  pub stringify : J → Text
  pub stringify_blocks : ResultContent J → Text

-- A sum of counts of which the tokenizer gives none if it throws on one of them.
abbrev pub added : Option ℕ → Option ℕ → Option ℕ
added none b = none
added (some m) none = none
added (some m) (some n) = some (m + n)

module _ {J : Type 0} (en : Encoder J) where
  pub result_text : ResultContent J → Text
  result_text (plain t) = t
  result_text no_blocks = en.stringify_blocks no_blocks
  result_text (block b bs) = en.stringify_blocks (block b bs)

  -- The `switch` on the type of a block.
  unfoldable pub block_tokens : ContentBlock J → Option ℕ
  unfolding result_text
  block_tokens (text t) = en.encode t
  block_tokens (image source) = some (image_tokens en.decode source)
  block_tokens (tool_use id name input) = en.encode (en.stringify input)
  block_tokens (tool_result id content is_error) = en.encode (result_text content)

  unfoldable pub content_tokens : List (ContentBlock J) → Option ℕ
  unfolding block_tokens
  content_tokens [] = some 0
  content_tokens (b ∷ bs) = added (block_tokens b) (content_tokens bs)

  unfoldable pub messages_tokens : List (CanonicalMessage J) → Option ℕ
  unfolding content_tokens
  messages_tokens [] = some 0
  messages_tokens (m ∷ ms) = added (content_tokens m.content) (messages_tokens ms)

  -- An empty system prompt counts nothing.
  abbrev pub system_tokens : Option Text → Option ℕ
  system_tokens none = some 0
  system_tokens (some []) = some 0
  system_tokens (some (c ∷ s)) = en.encode (c ∷ s)

  abbrev tools_tokens : Option (List (CanonicalTool J)) → ℕ
  tools_tokens none = 0
  tools_tokens (some []) = 0
  tools_tokens (some (t ∷ ts)) = 340

  -- The count, or `none` where the tokenizer throws on a text of the request.
  unfoldable pub count_tokens : CanonicalRequest J → Option ℕ
  unfolding messages_tokens
  count_tokens canonical =
      added (system_tokens canonical.system)
        (added (messages_tokens canonical.messages) (some (tools_tokens canonical.tools)))
