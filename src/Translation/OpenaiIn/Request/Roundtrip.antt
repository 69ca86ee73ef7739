-- ===== src/Translation/OpenaiIn/Request/Roundtrip.antt =====
-- Messages from the OpenAI surface through the canonical form to an OpenAI-compatible backend:
-- openAIRequestToCanonical and canonicalToOpenAIChatCompletionParams of
-- router/src/translation/openai-in.ts.
use local_llms.Base.{
  Option, none, some, List, [], ◌∷◌, ◌++◌, Text, ◌≡◌, ◌≢◌, refl, sym, ap, ◌∙◌, All, append_assoc,
  append-nil,
}
use local_llms.Canonical.{ContentBlock, text, ResultContent, Role, user, assistant}
use local_llms.Translation.OpenaiIn.{
  Json, OpenaiMessage, MessageRole, RawToolCall, Content, call, call_not_object, call_without_id,
  call_without_function, str, arr, absent, system_role, user_role, assistant_role, tool_role, ok,
  ◌>>=◌,
}
use local_llms.Translation.OpenaiIn.Request.{
  Built, push_result, tool_message_to_result_block, push_message, result_block, message_step,
  messages_loop,
}
use local_llms.Translation.OpenaiIn.Params.{
  ToolCallParam, message_params, user_param, assistant_param, sorted, params_of_message,
  params_of_messages,
}
use local_llms.Translation.OpenaiIn.Request.Plain.{
  call_params, IsText, same_message, same_messages, system_text, system_texts, HasContent, IsSaid,
  IsAnswer, IsPlain,
}
use local_llms.Translation.OpenaiIn.Request.Results.{
  params, params-append, plain_result, push_result-params, only_calls, calls_kept, content_added,
}

module _ {J : Type 0} (json : Json J) (blocks_json : ResultContent J → Text) where
  -- A step of the loop for a plain message.
  abbrev Steps : OpenaiMessage J → Built J → Type 0
  Steps m (parts, ms) =
      (built : Built J) × (message_step json m (parts, ms) ≡ ok built)
      × (params json blocks_json built.1 ≡ params json blocks_json ms ++ same_message m)
      × (built.0 ≡ parts ++ system_text m)
      × All HasContent built.1

  -- One message more.
  pushed :
      (m : OpenaiMessage J) (built : Built J) (role : Role) (content : List (ContentBlock J))
      → All HasContent built.1
      → content ≢ []
      → message_step json m built ≡ ok (push_message role content built)
      → params_of_message json blocks_json (record { role = role; content = content })
        ≡ same_message m
      → system_text m ≡ []
      → Steps m built
  pushed m (parts, ms) role content h n e p s = (
    push_message role content (parts, ms),
    e,
    params-append json blocks_json ms (record { role = role; content = content } ∷ [])
        ∙ ap (◌++◌ (params json blocks_json ms)) (
            append-nil
              (params_of_message json blocks_json (record { role = role; content = content }))
            ∙ p),
    rw s (sym (append-nil parts)),
    content_added ms (record { role = role; content = content }) h n,
  )

  abbrev said_message : Content J → Option Text → List RawToolCall → OpenaiMessage J
  said_message content id cs = record {
    role = assistant_role;
    content = content;
    tool_call_id = id;
    tool_calls = cs;
  }

  some_calls :
      (uses : List (ContentBlock J)) (c : ToolCallParam) (cs : List ToolCallParam)
      → sorted json blocks_json uses ≡ only_calls (c ∷ cs)
      → uses ≢ []
  some_calls uses c cs e q =
      let n : (c ∷ cs) ≡ [] = ap (λ s. s.tool_calls) (sym e ∙ ap (sorted json blocks_json) q) in
      cc n

  said_step :
      (content : Content J) (id : Option Text) (cs : List RawToolCall) (built : Built J)
      → IsSaid json content cs
      → All HasContent built.1
      → Steps (said_message content id cs) built
  unfolding message_step
  said_step (str t) id [] built p h =
      pushed (said_message (str t) id []) built assistant (text t ∷ []) h (λ e. cc e) refl
        (ap (λ x. assistant_param (some x) [] ∷ []) (append-nil t)) refl
  said_step (str (x ∷ t)) id (call i n a ∷ cs) built (_, p) h =
      let (uses, e, e') = calls_kept json blocks_json (call i n a ∷ cs) p in
      pushed (said_message (str (x ∷ t)) id (call i n a ∷ cs)) built assistant (text (x ∷ t) ∷ uses)
        h (λ q. cc q)
        (ap (λ u. u >>= (λ us. ok (push_message assistant (text (x ∷ t) ∷ us) built))) e)
        (ap
            (λ s.
              message_params assistant (record s { text_parts = (x ∷ t) ∷ s.text_parts })
                s.tool_results)
            e'
          ∙ ap (λ y. assistant_param (some y) (call_params (call i n a ∷ cs)) ∷ [])
              (append-nil (x ∷ t)))
        refl
  said_step absent id (call i n a ∷ cs) built (_, p) h =
      let (uses, e, e') = calls_kept json blocks_json (call i n a ∷ cs) p in
      pushed (said_message absent id (call i n a ∷ cs)) built assistant uses h
        (some_calls uses (record { id = i; name = n; arguments = a }) (call_params cs) e')
        (ap (λ u. u >>= (λ us. ok (push_message assistant us built))) e)
        (ap (λ s. message_params assistant s s.tool_results) e') refl
  said_step content id (call_not_object ∷ cs) built (_, p) h = absurd p.0
  said_step content id (call_without_id ∷ cs) built (_, p) h = absurd p.0
  said_step content id (call_without_function ∷ cs) built (_, p) h = absurd p.0
  said_step (str []) id (c ∷ cs) built (p, _) h = absurd p
  said_step (arr ps j) id (c ∷ cs) built (p, _) h = absurd p
  said_step (arr ps j) id [] built p h = absurd p
  said_step absent id [] built p h = absurd p

  abbrev message_of : MessageRole → Content J → Option Text → List RawToolCall → OpenaiMessage J
  message_of role content id cs = record {
    role = role;
    content = content;
    tool_call_id = id;
    tool_calls = cs;
  }

  user_step :
      (content : Content J) (id : Option Text) (cs : List RawToolCall) (built : Built J)
      → IsText content
      → All HasContent built.1
      → Steps (message_of user_role content id cs) built
  unfolding message_step
  user_step (str t) id cs built p h =
      pushed (message_of user_role (str t) id cs) built user (text t ∷ []) h (λ e. cc e) refl
        (ap (λ x. user_param x ∷ []) (append-nil t)) refl
  user_step (arr ps j) id cs built p h = absurd p
  user_step absent id cs built p h = absurd p

  system_step :
      (content : Content J) (id : Option Text) (cs : List RawToolCall) (built : Built J)
      → IsText content
      → All HasContent built.1
      → Steps (message_of system_role content id cs) built
  unfolding message_step
  system_step (str t) id cs (parts, ms) p h =
      ((parts ++ (t ∷ []), ms), refl, sym (append-nil (params json blocks_json ms)), refl, h)
  system_step (arr ps j) id cs built p h = absurd p
  system_step absent id cs built p h = absurd p

  tool_step :
      (content : Content J) (id : Option Text) (cs : List RawToolCall) (built : Built J)
      → IsAnswer json content id
      → All HasContent built.1
      → Steps (message_of tool_role content id cs) built
  unfolding message_step tool_message_to_result_block
  tool_step (str t) (some id) cs (parts, ms) p h =
      let (e, k) = push_result-params json blocks_json ms id t h in
      (
        (parts, push_result (plain_result id t) ms),
        ap (λ r. ok (parts, push_result (result_block id t r) ms)) p,
        e,
        sym (append-nil parts),
        k,
      )
  tool_step (str t) none cs built p h = absurd p
  tool_step (arr ps j) id cs built p h = absurd p
  tool_step absent id cs built p h = absurd p

  step_kept :
      (role : MessageRole) (content : Content J) (id : Option Text) (cs : List RawToolCall)
      (built : Built J)
      → IsPlain json (message_of role content id cs)
      → All HasContent built.1
      → Steps (message_of role content id cs) built
  step_kept system_role content id cs built p h = system_step content id cs built p h
  step_kept user_role content id cs built p h = user_step content id cs built p h
  step_kept assistant_role content id cs built p h = said_step content id cs built p h
  step_kept tool_role content id cs built p h = tool_step content id cs built p h

  loop_kept :
      (ms : List (OpenaiMessage J)) (built : Built J)
      → All (IsPlain json) ms
      → All HasContent built.1
      → (after : Built J) × (messages_loop json ms built ≡ ok after)
        × (params json blocks_json after.1 ≡ params json blocks_json built.1 ++ same_messages ms)
        × (after.0 ≡ built.0 ++ system_texts ms)
  unfolding messages_loop
  loop_kept [] built p h =
      (built, refl, sym (append-nil (params json blocks_json built.1)), sym (append-nil built.0))
  loop_kept (m ∷ ms) built (q, p) h =
      let (next, e, ps, ss, k) = step_kept m.role m.content m.tool_call_id m.tool_calls built q h in
      let (after, e', ps', ss') = loop_kept ms next p k in
      (
        after,
        ap (λ r. r >>= messages_loop json ms) e ∙ e',
        ps'
            ∙ ap (λ l. l ++ same_messages ms) ps
            ∙ append_assoc (params json blocks_json built.1) (same_message m) (same_messages ms),
        ss'
            ∙ ap (λ l. l ++ system_texts ms) ss
            ∙ append_assoc built.0 (system_text m) (system_texts ms),
      )

  -- The loop of openAIRequestToCanonical on any list of plain messages (texts by the system, the
  -- user or the assistant, tool calls whose arguments are an object as JSON.stringify writes it,
  -- beside them a text that is not empty or none, tool answers of a text that is not an error
  -- wrap, in any order) succeeds; its system parts are the texts of the system messages, in order;
  -- and canonicalToOpenAIChatCompletionParams makes of its messages the other messages it was
  -- given, in order, one for one, with their texts, their calls (id, name, arguments) and the ids
  -- that the answers are for.
  pub messages_through :
      (ms : List (OpenaiMessage J))
      → All (IsPlain json) ms
      → (built : Built J) × (messages_loop json ms ([], []) ≡ ok built)
        × (params_of_messages json blocks_json built.1 ≡ same_messages ms)
        × (built.0 ≡ system_texts ms)
  messages_through ms p = loop_kept ms ([], []) p tt
