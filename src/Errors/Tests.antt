-- ===== src/Errors/Tests.antt =====
-- The error maps on concrete errors (router/src/errors/envelope.ts).
use local_llms.Base.{some, codes, ◌≡◌, ◌↔◌, refl, false}
use local_llms.Errors.{error_message, breaker_open, session_agent_mismatch}
use local_llms.Errors.Envelopes.{
  map_to_http_status, to_openai_error_envelope, to_anthropic_error_envelope,
}
use local_llms.Errors.Envelopes.Agreement.{
  told_status, is_unenveloped, translated, envelope_status, envelopes_agree,
}

breaker_message :
    error_message (breaker_open (codes "vllm") 120)
    ≡ some (codes "Backend \"vllm\" circuit breaker is open; retry after 120s")
unfolding error_message
breaker_message = refl

envelope_status_example :
    (map_to_http_status (session_agent_mismatch (codes "s"))
      ≡ told_status (to_openai_error_envelope (session_agent_mismatch (codes "s"))))
    ↔ (is_unenveloped (session_agent_mismatch (codes "s")) ≡ false)
envelope_status_example = envelope_status (session_agent_mismatch (codes "s"))

envelopes_agree_example :
    to_anthropic_error_envelope (breaker_open (codes "vllm") 120)
    ≡ translated (to_openai_error_envelope (breaker_open (codes "vllm") 120))
envelopes_agree_example = envelopes_agree (breaker_open (codes "vllm") 120)
