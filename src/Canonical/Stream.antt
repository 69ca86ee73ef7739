-- ===== src/Canonical/Stream.antt =====
-- The stream events of router/src/translation/canonical.ts, with the values that the translators
-- carry on them under names that are not enumerable.
use local_llms.Base.{ℕ, Option, Text}
use local_llms.Canonical.{ContentBlock, CanonicalResponse, StopReason}

pub data ContentBlockDelta : Type 0 where
  text_delta input_json_delta : Text → ContentBlockDelta  -- text, partial_json

-- `usage` of a `message_delta`, with `_upstreamInputTokens`.
pub record DeltaUsage : Type 0 where
  pub output_tokens : ℕ
  pub upstream_input_tokens : Option ℕ

pub data CanonicalStreamEvent (J : Type 0) : Type 0 where
  message_start : Option Text → CanonicalResponse J → CanonicalStreamEvent J  -- _upstreamId, message
  content_block_start : ℕ → ContentBlock J → CanonicalStreamEvent J
  content_block_delta : ℕ → ContentBlockDelta → CanonicalStreamEvent J
  content_block_stop : ℕ → CanonicalStreamEvent J
  message_delta : Option StopReason → Option Text → DeltaUsage → CanonicalStreamEvent J
      -- stop_reason, stop_sequence, usage
  message_stop ping : CanonicalStreamEvent J
