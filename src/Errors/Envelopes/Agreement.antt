-- ===== src/Errors/Envelopes/Agreement.antt =====
-- How the statuses and the two envelopes of an error go together (router/src/errors/envelope.ts).
use local_llms.Base.{
  ℕ, Bool, true, false, Option, none, some, Text, codes, ◌≡◌, ◌↔◌, text_eq, if◌then◌else◌, arith,
}
use local_llms.Errors.{
  RouterError, bad_request, session_not_found, session_expired, session_agent_mismatch,
}
use local_llms.Errors.Envelopes.{
  OpenaiKind, AnthropicKind, OpenaiErrorEnvelope, AnthropicErrorEnvelope, map_to_http_status,
  to_openai_error_envelope, to_anthropic_error_envelope, authentication_error,
  invalid_request_error, not_found_error, policy_violation, rate_limit_error, api_error,
  timeout_error, upstream_error, mcp_error, hook_error, internal_error, authentication,
  invalid_request, not_found, permission, rate_limit, overloaded, api,
}

abbrev is_breaker : Text → Bool
is_breaker code = text_eq code (codes "backend_circuit_open")

-- The status that a client reads off an OpenAI envelope, and the one for a client that is gone.
abbrev pub status_of_kind : OpenaiKind → Text → ℕ
status_of_kind authentication_error code = 401
status_of_kind invalid_request_error code = 400
status_of_kind not_found_error code = 404
status_of_kind policy_violation code = 403
status_of_kind rate_limit_error code = 429
status_of_kind api_error code = if is_breaker code then 503 else 500
status_of_kind timeout_error code = 504
status_of_kind upstream_error code = 502
status_of_kind mcp_error code = 502
status_of_kind hook_error code = 502
status_of_kind internal_error code = 500

abbrev pub told_status : Option OpenaiErrorEnvelope → ℕ
told_status none = 499
told_status (some e) = status_of_kind e.kind e.code

-- The errors with a status of their own that the envelopes do not know.
abbrev pub is_unenveloped : RouterError → Bool
is_unenveloped (bad_request m) = true
is_unenveloped (session_not_found id) = true
is_unenveloped (session_expired id at) = true
is_unenveloped (session_agent_mismatch id) = true
is_unenveloped _ = false

-- The status of an error is the one that its OpenAI envelope tells, but for two sorts of errors
-- with a 4xx status, which the envelope calls internal errors: three of the session errors, and
-- the objects that only carry the status code 400.
pub envelope_status :
    (err : RouterError)
    → (map_to_http_status err ≡ told_status (to_openai_error_envelope err))
      ↔ (is_unenveloped err ≡ false)
unfolding map_to_http_status to_openai_error_envelope
envelope_status err = ground arith

-- The Anthropic type that stands for an OpenAI type.
abbrev pub anthropic_kind : OpenaiKind → Text → AnthropicKind
anthropic_kind authentication_error code = authentication
anthropic_kind invalid_request_error code = invalid_request
anthropic_kind not_found_error code = not_found
anthropic_kind policy_violation code = permission
anthropic_kind rate_limit_error code = rate_limit
anthropic_kind api_error code = if is_breaker code then overloaded else api
anthropic_kind _ code = api

abbrev pub translated : Option OpenaiErrorEnvelope → Option AnthropicErrorEnvelope
translated none = none
translated (some e) = some (record { kind = anthropic_kind e.kind e.code; message = e.message })

-- The two ladders agree on every error: the Anthropic envelope is the OpenAI envelope with its type
-- translated, with the same message, and there is none where the other has none.
pub envelopes_agree :
    (err : RouterError)
    → to_anthropic_error_envelope err ≡ translated (to_openai_error_envelope err)
unfolding to_anthropic_error_envelope to_openai_error_envelope
envelopes_agree err = ground arith
