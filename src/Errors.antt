-- ===== src/Errors.antt =====
-- The errors that reach the error handler (router/src/errors/envelope.ts,
-- router/src/providers/session-errors.ts, and the classes that they take from
-- router/src/concurrency/semaphore.ts and router/src/translation/ollama-native-out.ts), with
-- the messages that their constructors make.
pub mod Envelopes
pub mod Tests
use local_llms.Base.{
  ℕ, Bool, true, false, Option, none, some, List, [], ◌∷◌, ◌++◌, Text, codes, decimal, slice,
  join_texts, if◌then◌else◌, ltb, leb, length, ◌&&◌, ◌||◌, ◌==◌, map,
}

-- A zod issue, its path as the texts that `join` sees.
pub record Issue : Type 0 where
  pub path : List Text
  pub message : Text

pub record Validation : Type 0 where
  pub instance_path : Text
  pub message : Text

pub data MissingCapability : Type 0 where
  vision tools embeddings json_mode rerank : MissingCapability

pub data UrlReason : Type 0 where
  http_scheme_blocked private_address_blocked malformed_url : UrlReason

pub data FetchCode : Type 0 where
  image_too_large image_invalid_content_type http_error : FetchCode

pub data RouterError : Type 0 where
  bearer_auth : Text → RouterError  -- message
  zod : Text → List Issue → RouterError  -- message, issues
  schema_validation : Text → List Validation → RouterError  -- message, validation
  bad_request : Option Text → RouterError  -- any other object with `statusCode` 400
  registry_unknown_model : Text → List Text → RouterError
  capability_not_supported : Text → MissingCapability → RouterError
  invalid_structured_output : Text → Text → RouterError
  embeddings_dims_mismatch : Text → ℕ → ℕ → RouterError  -- model, expected, actual
  breaker_open : Text → ℕ → RouterError
  cloud_max_tokens_exceeded : ℕ → ℕ → Text → RouterError  -- requested, cap, model
  rate_limit_exceeded : Text → ℕ → ℕ → RouterError  -- bearerHash, currentCount, limit
  invalid_idempotency_key invalid_agent_id : Text → RouterError  -- suppliedValue
  allowlist_violation cloud_not_allowed : Text → RouterError  -- modelName
  invalid_scoped_id : Text → Text → RouterError  -- headerLabel, suppliedValue
  mcp_server_unreachable : Text → Text → RouterError  -- alias, url
  mcp_tool_loop_exceeded : ℕ → RouterError
  hook_timeout : Text → ℕ → RouterError
  hook_config : Text → Text → RouterError
  invalid_tool_arguments : Text → Text → RouterError  -- toolCallId, cause.message
  invalid_image_url : Text → UrlReason → RouterError
  image_fetch : Text → FetchCode → Text → RouterError  -- url, code, detail
  backend_saturated : Text → ℕ → RouterError  -- backend, waitedMs
  session_not_found session_agent_mismatch : Text → RouterError  -- session_id
  session_expired : Text → Text → RouterError  -- session_id, expired_at.toISOString()
  invalid_session_id : Text → RouterError  -- raw
  api_connection_timeout api_connection api_user_abort : Text → RouterError  -- message
  other : Option Text → RouterError  -- an Error with its message, or another value

abbrev capability_name : MissingCapability → Text
capability_name vision = codes "vision"
capability_name tools = codes "tools"
capability_name embeddings = codes "embeddings"
capability_name json_mode = codes "json_mode"
capability_name rerank = codes "rerank"

-- The pieces of a template literal.
abbrev concat : List Text → Text
concat [] = []
concat (t ∷ ts) = t ++ concat ts

-- The value as the messages show it: cut after 32 code units.
abbrev display : Text → Text
display t = if ltb 32 (length t) then slice 32 t ++ codes "..." else t

-- The class `[A-Za-z0-9._:,\-]`.
abbrev is_safe : ℕ → Bool
is_safe c =
    leb 65 c && leb c 90
    || leb 97 c && leb c 122
    || leb 48 c && leb c 57
    || c == 46
    || c == 95
    || c == 58
    || c == 44
    || c == 45

abbrev sanitized : Text → Text
sanitized [] = []
sanitized (c ∷ t) = (if is_safe c then c else 63) ∷ sanitized t

-- `err.message` of an Error; `none` for a value that is none.
pub error_message : RouterError → Option Text
error_message (bearer_auth m) = some m
error_message (zod m issues) = some m
error_message (schema_validation m vs) = some m
error_message (bad_request m) = m
error_message (registry_unknown_model name known) = some (
    concat (
      codes "Unknown model \""
      ∷ name
      ∷ codes "\"; registered: "
      ∷ join_texts (codes ", ") known
      ∷ []))
error_message (capability_not_supported name missing) = some (
    concat (
      codes "Model \""
      ∷ name
      ∷ codes "\" does not support capability \""
      ∷ capability_name missing
      ∷ codes "\". Pick a model with \""
      ∷ capability_name missing
      ∷ codes "\" in its capabilities list."
      ∷ []))
error_message (invalid_structured_output name details) = some (
    concat (
      codes "Model \""
      ∷ name
      ∷ codes
          "\" failed to produce a response matching the requested response_format after one repair attempt. Details: "
      ∷ details
      ∷ []))
error_message (embeddings_dims_mismatch name expected actual) = some (
    concat (
      codes "Model \""
      ∷ name
      ∷ codes "\" returned an embedding of "
      ∷ decimal actual
      ∷ codes " dimensions, but models.yaml declares dims="
      ∷ decimal expected
      ∷ codes
          ". The router refused to propagate the mismatched vector — verify the upstream model version / quantization or update the dims field in models.yaml."
      ∷ []))
error_message (breaker_open backend retry_after) = some (
    concat (
      codes "Backend \""
      ∷ backend
      ∷ codes "\" circuit breaker is open; retry after "
      ∷ decimal retry_after
      ∷ codes "s"
      ∷ []))
error_message (cloud_max_tokens_exceeded requested cap name) = some (
    concat (
      codes "Cloud model \""
      ∷ name
      ∷ codes "\" rejects max_tokens="
      ∷ decimal requested
      ∷ codes ": hard cap is "
      ∷ decimal cap
      ∷ codes ". Reduce max_tokens to <= "
      ∷ decimal cap
      ∷ codes " and retry; cloud-served models cannot exceed this limit."
      ∷ []))
error_message (rate_limit_exceeded hash count limit) = some (
    concat (
      codes "Rate limit exceeded: "
      ∷ decimal count
      ∷ codes "/"
      ∷ decimal limit
      ∷ codes
          " requests per minute for this bearer token. Retry after the next minute boundary (Retry-After header)."
      ∷ []))
error_message (invalid_idempotency_key value) = some (
    concat (
      codes "Idempotency-Key \""
      ∷ display (sanitized value)
      ∷ codes "\" violates regex /^[A-Za-z0-9._:-]{1,256}$/"
      ∷ []))
error_message (invalid_agent_id value) = some (
    concat (
      codes "X-Agent-Id \""
      ∷ display value
      ∷ codes "\" violates regex /^[A-Za-z0-9._:-]{1,128}$/"
      ∷ []))
error_message (allowlist_violation name) = some (
    concat (
      codes "Model \""
      ∷ name
      ∷ codes
          "\" is not in policies.default.model_allowlist. Either add it to the allowlist in models.yaml or use a model from the allowed set."
      ∷ []))
error_message (cloud_not_allowed name) = some (
    concat (
      codes "Model \""
      ∷ name
      ∷ codes
          "\" resolves to an ollama-cloud entry whose policy.cloud_allowed=false. Cloud routing is denied for this entry; pick a local-backend model."
      ∷ []))
error_message (invalid_scoped_id label value) = some (
    concat (
      label
      ∷ codes " \""
      ∷ display value
      ∷ codes "\" violates regex /^[A-Za-z0-9._:-]{1,128}$/"
      ∷ []))
error_message (mcp_server_unreachable alias url) =
    some (concat (codes "MCP server \"" ∷ alias ∷ codes "\" at " ∷ url ∷ codes " unreachable" ∷ []))
error_message (mcp_tool_loop_exceeded n) =
    some (concat (codes "MCP tool-call loop exceeded " ∷ decimal n ∷ codes " iterations" ∷ []))
error_message (hook_timeout name ms) = some (
    concat
      (codes "pre-completion hook \"" ∷ name ∷ codes "\" exceeded " ∷ decimal ms ∷ codes "ms" ∷ []))
error_message (hook_config name reason) =
    some (concat (codes "pre-completion hook \"" ∷ name ∷ codes "\" misconfigured: " ∷ reason ∷ []))
error_message (invalid_tool_arguments id cause) = some (
    concat (
      codes "tool_calls[id=\""
      ∷ id
      ∷ codes "\"].function.arguments is not valid JSON: "
      ∷ cause
      ∷ []))
error_message (invalid_image_url url http_scheme_blocked) =
    some (codes "Image URL must use https:// scheme; got non-https URL: " ++ url)
error_message (invalid_image_url url private_address_blocked) = some (
    codes "image URL resolves to a private/loopback address — rejected for SSRF mitigation: "
    ++ url)
error_message (invalid_image_url url malformed_url) = some (codes "image URL is malformed: " ++ url)
error_message (image_fetch url code detail) =
    some (concat (codes "failed to fetch image from " ∷ url ∷ codes ": " ∷ detail ∷ []))
error_message (backend_saturated backend waited) = some (
    concat (
      codes "Backend \""
      ∷ backend
      ∷ codes "\" saturated; waited "
      ∷ decimal waited
      ∷ codes "ms for a slot"
      ∷ []))
error_message (session_not_found id) =
    some (concat (codes "session " ∷ id ∷ codes " not found or expired" ∷ []))
error_message (session_expired id at) =
    some (concat (codes "session " ∷ id ∷ codes " expired at " ∷ at ∷ []))
error_message (session_agent_mismatch id) =
    some (concat (codes "session " ∷ id ∷ codes " belongs to a different agent" ∷ []))
error_message (invalid_session_id raw) =
    some (codes "X-Session-ID must match /^[A-Za-z0-9._:-]{1,128}$/")
error_message (api_connection_timeout m) = some m
error_message (api_connection m) = some m
error_message (api_user_abort m) = some m
error_message (other m) = m
