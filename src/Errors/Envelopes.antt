-- ===== src/Errors/Envelopes.antt =====
-- The maps from errors to statuses and envelopes (router/src/errors/envelope.ts). `none` stands for
-- NO_ENVELOPE and ANTHROPIC_NO_ENVELOPE.
pub mod Agreement
use local_llms.Base.{
  ℕ, Bool, true, false, Option, none, some, List, [], ◌∷◌, ◌++◌, Text, codes, join_texts,
  if◌then◌else◌, ◌==◌,
}
use local_llms.Errors.{
  RouterError, Issue, Validation, FetchCode, image_too_large, image_invalid_content_type,
  http_error, error_message, bearer_auth, zod, schema_validation, bad_request,
  registry_unknown_model, capability_not_supported, invalid_structured_output,
  embeddings_dims_mismatch, breaker_open, cloud_max_tokens_exceeded, rate_limit_exceeded,
  invalid_idempotency_key, invalid_agent_id, allowlist_violation, cloud_not_allowed,
  invalid_scoped_id, mcp_server_unreachable, mcp_tool_loop_exceeded, hook_timeout, hook_config,
  invalid_tool_arguments, invalid_image_url, image_fetch, backend_saturated, session_not_found,
  session_agent_mismatch, session_expired, invalid_session_id, api_connection_timeout,
  api_connection, api_user_abort, other,
}

-- The values of `type` on either surface.
pub data OpenaiKind : Type 0 where
  authentication_error invalid_request_error not_found_error policy_violation : OpenaiKind
  rate_limit_error api_error timeout_error upstream_error : OpenaiKind
  mcp_error hook_error internal_error : OpenaiKind

pub data AnthropicKind : Type 0 where
  authentication invalid_request not_found permission rate_limit overloaded api : AnthropicKind

pub record OpenaiErrorEnvelope : Type 0 where
  pub message : Text
  pub kind : OpenaiKind
  pub code : Text
  pub param : Option Text

pub record AnthropicErrorEnvelope : Type 0 where
  pub kind : AnthropicKind
  pub message : Text

pub map_to_http_status : RouterError → ℕ
map_to_http_status (bearer_auth m) = 401
map_to_http_status (zod m issues) = 400
map_to_http_status (schema_validation m vs) = 400
map_to_http_status (bad_request m) = 400
map_to_http_status (registry_unknown_model name known) = 404
map_to_http_status (capability_not_supported name missing) = 400
map_to_http_status (invalid_structured_output name details) = 400
map_to_http_status (cloud_max_tokens_exceeded requested cap name) = 400
map_to_http_status (invalid_agent_id value) = 400
map_to_http_status (allowlist_violation name) = 403
map_to_http_status (cloud_not_allowed name) = 403
map_to_http_status (invalid_scoped_id label value) = 400
map_to_http_status (invalid_idempotency_key value) = 400
map_to_http_status (invalid_session_id raw) = 400
map_to_http_status (session_not_found id) = 404
map_to_http_status (session_expired id at) = 410
map_to_http_status (session_agent_mismatch id) = 403
map_to_http_status (invalid_tool_arguments id cause) = 400
map_to_http_status (invalid_image_url url reason) = 400
map_to_http_status (image_fetch url code detail) = 400
map_to_http_status (backend_saturated backend waited) = 429
map_to_http_status (rate_limit_exceeded hash count limit) = 429
map_to_http_status (breaker_open backend retry_after) = 503
map_to_http_status (embeddings_dims_mismatch name expected actual) = 500
map_to_http_status (api_connection_timeout m) = 504
map_to_http_status (api_connection m) = 502
map_to_http_status (api_user_abort m) = 499
map_to_http_status (mcp_server_unreachable alias url) = 502
map_to_http_status (mcp_tool_loop_exceeded n) = 502
map_to_http_status (hook_timeout name ms) = 502
map_to_http_status (hook_config name reason) = 500
map_to_http_status (other m) = 500

-- `||` on a message.
abbrev or_text : Text → Text → Text
or_text [] d = d
or_text (c ∷ t) d = c ∷ t

abbrev issue_text : Issue → Text
issue_text i = join_texts (codes ".") i.path ++ (codes ": " ++ i.message)

abbrev issue_texts : List Issue → List Text
issue_texts [] = []
issue_texts (i ∷ is) = issue_text i ∷ issue_texts is

abbrev validation_texts : List Validation → List Text
validation_texts [] = []
validation_texts (v ∷ vs) = (v.instance_path ++ (codes ": " ++ v.message)) ∷ validation_texts vs

abbrev issues_message : List Issue → Text
issues_message is = or_text (join_texts (codes "; ") (issue_texts is)) (codes "invalid request")

abbrev validation_message : List Validation → Text
validation_message vs =
    or_text (join_texts (codes "; ") (validation_texts vs)) (codes "invalid request body")

abbrev first_path : List Issue → Option Text
first_path [] = none
first_path (i ∷ is) = some (join_texts (codes ".") i.path)

-- `.replace(/^\//, '')`.
abbrev without_slash : Text → Text
without_slash [] = []
without_slash (c ∷ t) = if c == 47 then t else c ∷ t

abbrev first_instance : List Validation → Option Text
first_instance [] = none
first_instance (v ∷ vs) = some (without_slash v.instance_path)

abbrev fetch_code : FetchCode → Text
fetch_code image_too_large = codes "image_too_large"
fetch_code image_invalid_content_type = codes "image_invalid_content_type"
fetch_code http_error = codes "http_error"

-- `err instanceof Error ? err.message : 'internal error'`.
abbrev message_or_default : Option Text → Text
message_or_default none = codes "internal error"
message_or_default (some m) = m

-- The message of both envelopes.
abbrev shown : RouterError → Text
shown err = message_or_default (error_message err)

abbrev openai : Text → OpenaiKind → Text → Option Text → Option OpenaiErrorEnvelope
openai m kind code param = some (record { message = m; kind = kind; code = code; param = param })

pub to_openai_error_envelope : RouterError → Option OpenaiErrorEnvelope
to_openai_error_envelope (api_user_abort m) = none
to_openai_error_envelope (zod m issues) =
    openai (issues_message issues) invalid_request_error (codes "invalid_request")
      (first_path issues)
to_openai_error_envelope (schema_validation m vs) =
    openai (validation_message vs) invalid_request_error (codes "invalid_request")
      (first_instance vs)
to_openai_error_envelope (api_connection_timeout m) =
    openai (or_text m (codes "upstream timeout")) timeout_error (codes "upstream_timeout") none
to_openai_error_envelope (api_connection m) =
    openai (or_text m (codes "upstream connection error")) upstream_error (codes "econnrefused")
      none
to_openai_error_envelope (bearer_auth m) =
    openai (shown (bearer_auth m)) authentication_error (codes "unauthorized") none
to_openai_error_envelope (registry_unknown_model name known) =
    openai (shown (registry_unknown_model name known)) not_found_error (codes "model_not_found")
      (some (codes "model"))
to_openai_error_envelope (capability_not_supported name missing) =
    openai (shown (capability_not_supported name missing)) invalid_request_error
      (codes "model_capability_mismatch") (some (codes "model"))
to_openai_error_envelope (invalid_structured_output name details) =
    openai (shown (invalid_structured_output name details)) invalid_request_error
      (codes "invalid_structured_output") (some (codes "response_format"))
to_openai_error_envelope (cloud_max_tokens_exceeded requested cap name) =
    openai (shown (cloud_max_tokens_exceeded requested cap name)) invalid_request_error
      (codes "cloud_max_tokens_exceeded") (some (codes "max_tokens"))
to_openai_error_envelope (invalid_agent_id value) =
    openai (shown (invalid_agent_id value)) invalid_request_error (codes "invalid_agent_id")
      (some (codes "X-Agent-Id"))
to_openai_error_envelope (allowlist_violation name) =
    openai (shown (allowlist_violation name)) policy_violation (codes "model_not_in_allowlist")
      (some (codes "model"))
to_openai_error_envelope (cloud_not_allowed name) =
    openai (shown (cloud_not_allowed name)) policy_violation (codes "cloud_not_allowed")
      (some (codes "model"))
to_openai_error_envelope (invalid_scoped_id label value) =
    openai (shown (invalid_scoped_id label value)) invalid_request_error (codes "invalid_scoped_id")
      (some label)
to_openai_error_envelope (invalid_idempotency_key value) =
    openai (shown (invalid_idempotency_key value)) invalid_request_error
      (codes "invalid_idempotency_key") (some (codes "Idempotency-Key"))
to_openai_error_envelope (invalid_session_id raw) =
    openai (shown (invalid_session_id raw)) invalid_request_error (codes "invalid_session_id")
      (some (codes "X-Session-ID"))
to_openai_error_envelope (invalid_tool_arguments id cause) =
    openai (shown (invalid_tool_arguments id cause)) invalid_request_error
      (codes "invalid_tool_arguments") (some (codes "tool_calls"))
to_openai_error_envelope (invalid_image_url url reason) =
    openai (shown (invalid_image_url url reason)) invalid_request_error (codes "invalid_image_url")
      (some (codes "messages[].content[].source.url"))
to_openai_error_envelope (image_fetch url code detail) =
    openai (shown (image_fetch url code detail)) invalid_request_error (fetch_code code)
      (some (codes "messages[].content[].source.url"))
to_openai_error_envelope (backend_saturated backend waited) =
    openai (shown (backend_saturated backend waited)) rate_limit_error (codes "backend_saturated")
      none
to_openai_error_envelope (rate_limit_exceeded hash count limit) =
    openai (shown (rate_limit_exceeded hash count limit)) rate_limit_error
      (codes "rate_limit_exceeded") none
to_openai_error_envelope (breaker_open backend retry_after) =
    openai (shown (breaker_open backend retry_after)) api_error (codes "backend_circuit_open") none
to_openai_error_envelope (embeddings_dims_mismatch name expected actual) =
    openai (shown (embeddings_dims_mismatch name expected actual)) api_error
      (codes "embeddings_dims_mismatch") none
to_openai_error_envelope (mcp_server_unreachable alias url) =
    openai (shown (mcp_server_unreachable alias url)) mcp_error (codes "mcp_server_unreachable")
      none
to_openai_error_envelope (mcp_tool_loop_exceeded n) =
    openai (shown (mcp_tool_loop_exceeded n)) mcp_error (codes "mcp_tool_loop_exceeded") none
to_openai_error_envelope (hook_timeout name ms) =
    openai (shown (hook_timeout name ms)) hook_error (codes "hook_timeout") none
to_openai_error_envelope (bad_request m) =
    openai (shown (bad_request m)) internal_error (codes "internal_error") none
to_openai_error_envelope (session_not_found id) =
    openai (shown (session_not_found id)) internal_error (codes "internal_error") none
to_openai_error_envelope (session_expired id at) =
    openai (shown (session_expired id at)) internal_error (codes "internal_error") none
to_openai_error_envelope (session_agent_mismatch id) =
    openai (shown (session_agent_mismatch id)) internal_error (codes "internal_error") none
to_openai_error_envelope (hook_config name reason) =
    openai (shown (hook_config name reason)) internal_error (codes "internal_error") none
to_openai_error_envelope (other m) =
    openai (shown (other m)) internal_error (codes "internal_error") none

-- A line of an error after the stream has started: an envelope under the event name error, or the
-- data line that closes an OpenAI stream.
pub data ErrorFrame : Type 0 where
  error_frame : OpenaiErrorEnvelope → ErrorFrame
  done_frame : ErrorFrame

abbrev pub mid_stream_error_frame_lines : OpenaiErrorEnvelope → List ErrorFrame
mid_stream_error_frame_lines envelope = error_frame envelope ∷ done_frame ∷ []

abbrev anthropic : AnthropicKind → Text → Option AnthropicErrorEnvelope
anthropic kind m = some (record { kind = kind; message = m })

pub to_anthropic_error_envelope : RouterError → Option AnthropicErrorEnvelope
to_anthropic_error_envelope (api_user_abort m) = none
to_anthropic_error_envelope (zod m issues) = anthropic invalid_request (issues_message issues)
to_anthropic_error_envelope (schema_validation m vs) =
    anthropic invalid_request (validation_message vs)
to_anthropic_error_envelope (api_connection_timeout m) =
    anthropic api (or_text m (codes "upstream timeout"))
to_anthropic_error_envelope (api_connection m) =
    anthropic api (or_text m (codes "upstream connection error"))
to_anthropic_error_envelope (bearer_auth m) = anthropic authentication (shown (bearer_auth m))
to_anthropic_error_envelope (registry_unknown_model name known) =
    anthropic not_found (shown (registry_unknown_model name known))
to_anthropic_error_envelope (capability_not_supported name missing) =
    anthropic invalid_request (shown (capability_not_supported name missing))
to_anthropic_error_envelope (invalid_structured_output name details) =
    anthropic invalid_request (shown (invalid_structured_output name details))
to_anthropic_error_envelope (cloud_max_tokens_exceeded requested cap name) =
    anthropic invalid_request (shown (cloud_max_tokens_exceeded requested cap name))
to_anthropic_error_envelope (invalid_agent_id value) =
    anthropic invalid_request (shown (invalid_agent_id value))
to_anthropic_error_envelope (allowlist_violation name) =
    anthropic permission (shown (allowlist_violation name))
to_anthropic_error_envelope (cloud_not_allowed name) =
    anthropic permission (shown (cloud_not_allowed name))
to_anthropic_error_envelope (invalid_scoped_id label value) =
    anthropic invalid_request (shown (invalid_scoped_id label value))
to_anthropic_error_envelope (invalid_idempotency_key value) =
    anthropic invalid_request (shown (invalid_idempotency_key value))
to_anthropic_error_envelope (invalid_session_id raw) =
    anthropic invalid_request (shown (invalid_session_id raw))
to_anthropic_error_envelope (invalid_tool_arguments id cause) =
    anthropic invalid_request (shown (invalid_tool_arguments id cause))
to_anthropic_error_envelope (invalid_image_url url reason) =
    anthropic invalid_request (shown (invalid_image_url url reason))
to_anthropic_error_envelope (image_fetch url code detail) =
    anthropic invalid_request (shown (image_fetch url code detail))
to_anthropic_error_envelope (backend_saturated backend waited) =
    anthropic rate_limit (shown (backend_saturated backend waited))
to_anthropic_error_envelope (rate_limit_exceeded hash count limit) =
    anthropic rate_limit (shown (rate_limit_exceeded hash count limit))
to_anthropic_error_envelope (breaker_open backend retry_after) =
    anthropic overloaded (shown (breaker_open backend retry_after))
to_anthropic_error_envelope (embeddings_dims_mismatch name expected actual) =
    anthropic api (shown (embeddings_dims_mismatch name expected actual))
to_anthropic_error_envelope (mcp_server_unreachable alias url) =
    anthropic api (shown (mcp_server_unreachable alias url))
to_anthropic_error_envelope (mcp_tool_loop_exceeded n) =
    anthropic api (shown (mcp_tool_loop_exceeded n))
to_anthropic_error_envelope (hook_timeout name ms) = anthropic api (shown (hook_timeout name ms))
to_anthropic_error_envelope (bad_request m) = anthropic api (shown (bad_request m))
to_anthropic_error_envelope (session_not_found id) = anthropic api (shown (session_not_found id))
to_anthropic_error_envelope (session_expired id at) = anthropic api (shown (session_expired id at))
to_anthropic_error_envelope (session_agent_mismatch id) =
    anthropic api (shown (session_agent_mismatch id))
to_anthropic_error_envelope (hook_config name reason) =
    anthropic api (shown (hook_config name reason))
to_anthropic_error_envelope (other m) = anthropic api (shown (other m))
