-- ===== src/Translation.antt =====
-- The translators between the canonical messages and the wire formats (router/src/translation).
-- A stream is the list of its events.
pub mod Emit
pub mod Follow
pub mod Content
pub mod Chunks
pub mod Responses
pub mod OpenaiIn
pub mod ImageGuard
pub mod OllamaStream
pub mod OpenaiOut
pub mod AnthropicOut
pub mod Pipeline
pub mod Tests
