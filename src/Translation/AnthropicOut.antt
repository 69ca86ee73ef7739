-- ===== src/Translation/AnthropicOut.antt =====
-- The canonical answers on the Anthropic surface (router/src/translation/anthropic-out.ts):
-- canonicalToAnthropicResponse and canonicalToAnthropicSse. What goes out has the shape of the
-- canonical response and of the canonical events; what they carry under names that are not
-- enumerable does not go out.
use local_llms.Base.{
  ℕ, Bool, true, false, Option, none, some, List, [], ◌∷◌, ◌++◌, Text, if◌then◌else◌, ◌≡◌, refl, ap,
  Option-cases, inl, inr,
}
use local_llms.Canonical.{CanonicalResponse}
use local_llms.Canonical.Stream.{
  CanonicalStreamEvent, message_start, content_block_start, content_block_delta, content_block_stop,
  message_delta, message_stop, ping,
}
use local_llms.Errors.{RouterError}
use local_llms.Errors.Envelopes.{AnthropicErrorEnvelope, to_anthropic_error_envelope}
use local_llms.Translation.Emit.{◌then_run◌}
use local_llms.Translation.Responses.{Ending, finished, threw}

pub record Opts : Type 0 where
  pub display_model : Option Text
  pub id_override : Option Text

abbrev or_else : Option Text → Text → Text
or_else none d = d
or_else (some a) d = a

pub data AnthropicFrame (J : Type 0) : Type 0 where
  event : CanonicalStreamEvent J → AnthropicFrame J
  anthropic_error_frame : AnthropicErrorEnvelope → AnthropicFrame J

-- The variables of the generator.
pub record State : Type 0 where
  pub captured_input_tokens : ℕ
  pub captured_output_tokens : ℕ
  pub captured_upstream_message_id : Option Text

-- What `onCleanup` gets.
pub record Cleanup : Type 0 where
  pub tokens_in : ℕ
  pub tokens_out : ℕ
  pub upstream_message_id : Option Text
  pub error : Option RouterError

abbrev initial : State
initial = record {
  captured_input_tokens = 0;
  captured_output_tokens = 0;
  captured_upstream_message_id = none;
}

module _ {J : Type 0} (opts : Opts) where
  pub canonical_to_anthropic_response : CanonicalResponse J → CanonicalResponse J
  canonical_to_anthropic_response canonical = record canonical {
    id = or_else opts.id_override canonical.id;
    model = or_else opts.display_model canonical.model;
  }

  -- The `switch`.
  on_event : CanonicalStreamEvent J → State → State × List (AnthropicFrame J)
  unfolding canonical_to_anthropic_response
  on_event (message_start upstream_id m) s = (
    record s {
      captured_input_tokens = m.usage.input_tokens;
      captured_upstream_message_id = some m.id;
    },
    event (message_start none (canonical_to_anthropic_response m)) ∷ [],
  )
  on_event (content_block_start i b) s = (s, event (content_block_start i b) ∷ [])
  on_event (content_block_delta i d) s = (s, event (content_block_delta i d) ∷ [])
  on_event (content_block_stop i) s = (s, event (content_block_stop i) ∷ [])
  on_event (message_delta reason sequence u) s = (
    record s { captured_output_tokens = u.output_tokens },
    event (
          message_delta reason sequence
            (record { output_tokens = u.output_tokens; upstream_input_tokens = none }))
        ∷ [],
  )
  on_event message_stop s = (s, event message_stop ∷ [])
  on_event ping s = (s, event ping ∷ [])

  events_loop : List (CanonicalStreamEvent J) → State → State × List (AnthropicFrame J)
  unfolding on_event
  events_loop [] s = (s, [])
  events_loop (e ∷ es) s = on_event e s then_run events_loop es

  -- The `catch`: what it yields, and `caughtErr`.
  on_throw : Bool → Ending RouterError → List (AnthropicFrame J) × Option RouterError
  on_throw aborted finished = ([], none)
  on_throw aborted (threw err) =
      if aborted then ([], none) else elim (to_anthropic_error_envelope err) [
        | none ↦ ([], none)
        | some envelope ↦ (anthropic_error_frame envelope ∷ [], some err)
      ]

  pub canonical_to_anthropic_sse :
      Bool → List (CanonicalStreamEvent J) → Ending RouterError → List (AnthropicFrame J) × Cleanup
  unfolding events_loop on_throw
  canonical_to_anthropic_sse aborted es ending =
      let r = events_loop es initial in
      let (frames, caught) = on_throw aborted ending in
      (
        r.1 ++ frames,
        record {
          tokens_in = r.0.captured_input_tokens;
          tokens_out = r.0.captured_output_tokens;
          upstream_message_id = r.0.captured_upstream_message_id;
          error = caught;
        },
      )

-- The envelope that goes out for an error: one, unless the client is gone or the error has none.
abbrev pub error_frames : Bool → Ending RouterError → List AnthropicErrorEnvelope
error_frames aborted finished = []
error_frames true (threw err) = []
error_frames false (threw err) = elim (to_anthropic_error_envelope err) [
  | none ↦ []
  | some envelope ↦ envelope ∷ []
]

-- What is enumerable of an event, under the names of the options.
abbrev pub on_the_wire : {J : Type 0} → Opts → CanonicalStreamEvent J → CanonicalStreamEvent J
on_the_wire opts (message_start upstream_id m) = message_start none (record m {
  id = elim opts.id_override [ none ↦ m.id | some id ↦ id ];
  model = elim opts.display_model [ none ↦ m.model | some model ↦ model ];
})
on_the_wire opts (message_delta reason sequence u) =
    message_delta reason sequence
      (record { output_tokens = u.output_tokens; upstream_input_tokens = none })
on_the_wire opts e = e

-- The frames for a stream, event by event, and then the frames of its errors.
abbrev pub frames_of :
    {J : Type 0}
    → Opts
    → List (CanonicalStreamEvent J)
    → List AnthropicErrorEnvelope
    → List (AnthropicFrame J)
frames_of opts [] [] = []
frames_of opts [] (x ∷ xs) = anthropic_error_frame x ∷ frames_of opts [] xs
frames_of opts (e ∷ es) xs = event (on_the_wire opts e) ∷ frames_of opts es xs

module _ {J : Type 0} (opts : Opts) where
  start_through :
      (id model : Option Text) (m : CanonicalResponse J)
      → event
          (message_start none (record m { id = or_else id m.id; model = or_else model m.model }))
        ≡ event (
            message_start none (record m {
              id = elim id [ none ↦ m.id | some i ↦ i ];
              model = elim model [ none ↦ m.model | some n ↦ n ];
            }))
  start_through none none m = refl
  start_through none (some n) m = refl
  start_through (some i) none m = refl
  start_through (some i) (some n) m = refl

  event_through :
      (e : CanonicalStreamEvent J) (s : State)
      → (on_event opts e s).1 ≡ event (on_the_wire opts e) ∷ []
  unfolding on_event canonical_to_anthropic_response
  event_through (message_start u m) s =
      ap (λ f. f ∷ []) (start_through opts.id_override opts.display_model m)
  event_through (content_block_start i b) s = refl
  event_through (content_block_delta i d) s = refl
  event_through (content_block_stop i) s = refl
  event_through (message_delta r q u) s = refl
  event_through message_stop s = refl
  event_through ping s = refl

  loop_through :
      (es : List (CanonicalStreamEvent J)) (s : State) (xs : List AnthropicErrorEnvelope)
      → (events_loop opts es s).1 ++ frames_of opts [] xs ≡ frames_of opts es xs
  unfolding events_loop
  loop_through [] s xs = refl
  loop_through (e ∷ es) s xs =
      rw (events_loop, event_through e s)
        (ap (◌∷◌ (event (on_the_wire opts e))) (loop_through es (on_event opts e s).0 xs))

  -- However the upstream ends, the frames on the Anthropic surface are the canonical events one by
  -- one and in order, with the id and the model of the options where these are given, and behind the
  -- last of them one error frame where the upstream throws an error with an envelope while the
  -- client is there.
  pub anthropic_through :
      (aborted : Bool) (es : List (CanonicalStreamEvent J)) (ending : Ending RouterError)
      → (canonical_to_anthropic_sse opts aborted es ending).0
        ≡ frames_of opts es (error_frames aborted ending)
  unfolding canonical_to_anthropic_sse on_throw
  anthropic_through aborted es finished = loop_through es initial []
  anthropic_through true es (threw err) = loop_through es initial []
  anthropic_through false es (threw err) = elim (Option-cases (to_anthropic_error_envelope err)) [
    | inl e ↦
        rw (canonical_to_anthropic_sse, on_throw, error_frames, e) (loop_through es initial [])
    | inr (envelope, e) ↦
        rw (canonical_to_anthropic_sse, on_throw, error_frames, e)
          (loop_through es initial (envelope ∷ []))
  ]
