-- ===== src/Translation/OpenaiIn/Request/Results.antt =====
-- The parameters that tool calls and tool results become, for openAIToolCallsToToolUse,
-- pushToolResultBlock and canonicalToOpenAIChatCompletionParams of
-- router/src/translation/openai-in.ts.
use local_llms.Base.{
  true, false, ◌&&◌, List, [], ◌∷◌, ◌++◌, Text, ◌≡◌, ◌≢◌, refl, sym, ap, ◌∙◌, arith, All,
  append_assoc, append-nil, Bool-cases, inl, inr,
}
use local_llms.Canonical.{
  ContentBlock, text, image, tool_use, tool_result, plain, ResultContent, Role, CanonicalMessage,
}
use local_llms.Translation.OpenaiIn.{
  Json, RawToolCall, call, call_not_object, call_without_id, call_without_function, ok,
}
use local_llms.Translation.OpenaiIn.Request.{
  is_user, push_result, all_tool_results, tool_calls_to_tool_use, tool_call_to_use,
}
use local_llms.Translation.OpenaiIn.Params.{
  MessageParam, ToolCallParam, message_params, tool_param, Sorted, sorted, params_of_message,
  params_of_messages, result_param,
}
use local_llms.Translation.OpenaiIn.Request.Plain.{call_params, HasContent, IsCall}

abbrev only_results : List MessageParam → Sorted
only_results rs = record { text_parts = []; image_parts = []; tool_calls = []; tool_results = rs }

abbrev pub only_calls : List ToolCallParam → Sorted
only_calls cs = record { text_parts = []; image_parts = []; tool_calls = cs; tool_results = [] }

snoc_not_nil : {A : Type 0} (xs : List A) (x : A) → xs ++ (x ∷ []) ≢ []
snoc_not_nil [] x e = cc e
snoc_not_nil (y ∷ xs) x e = cc e

abbrev after_result : Role → MessageParam → Sorted → List MessageParam
after_result role r s =
    message_params role (record s { tool_results = r ∷ s.tool_results }) (r ∷ s.tool_results)

module _ {J : Type 0} where
  abbrev pub plain_result : Text → Text → ContentBlock J
  plain_result id t = tool_result id (plain t) false

  pub content_added :
      (ms : List (CanonicalMessage J)) (m : CanonicalMessage J)
      → All HasContent ms
      → HasContent m
      → All HasContent (ms ++ (m ∷ []))
  content_added [] m h n = (n, tt)
  content_added (m' ∷ ms) m (n', h) n = (n', content_added ms m h n)

module _ {J : Type 0} (json : Json J) (blocks_json : ResultContent J → Text) where
  abbrev pub params : List (CanonicalMessage J) → List MessageParam
  params = params_of_messages json blocks_json

  pub params-append :
      (xs ys : List (CanonicalMessage J)) → params (xs ++ ys) ≡ params xs ++ params ys
  params-append [] ys = refl
  params-append (m ∷ xs) ys =
      ap (◌++◌ (params_of_message json blocks_json m)) (params-append xs ys)
      ∙ sym (append_assoc (params_of_message json blocks_json m) (params xs) (params ys))

  -- One more tool result after tool results.
  sorted_results :
      (bs : List (ContentBlock J)) (id t : Text)
      → all_tool_results bs ≡ true
      → (rs : List MessageParam) × (sorted json blocks_json bs ≡ only_results rs)
        × (sorted json blocks_json (bs ++ (tool_result id (plain t) false ∷ []))
            ≡ only_results (rs ++ (tool_param id t ∷ [])))
  sorted_results [] id t h = ([], refl, refl)
  sorted_results (tool_result id' content is_error ∷ bs) id t h =
      let (rs, e, e') = sorted_results bs id t h in
      (result_param json blocks_json id' content is_error ∷ rs, rw e refl, rw e' refl)
  sorted_results (text s ∷ bs) id t h = absurd (cc h)
  sorted_results (image s ∷ bs) id t h = absurd (cc h)
  sorted_results (tool_use i n x ∷ bs) id t h = absurd (cc h)

  results_grow :
      (role : Role) (bs : List (ContentBlock J)) (id t : Text)
      → all_tool_results bs ≡ true
      → bs ≢ []
      → params_of_message json blocks_json
          (record { role = role; content = bs ++ (plain_result id t ∷ []) })
        ≡ params_of_message json blocks_json (record { role = role; content = bs })
          ++ (tool_param id t ∷ [])
  results_grow role [] id t h n = absurd (n refl)
  results_grow role (tool_result id' content is_error ∷ bs) id t h n =
      let (rs, e, e') = sorted_results bs id t h in
      let r = result_param json blocks_json id' content is_error in
      ap (after_result role r) e'
      ∙ append-nil (r ∷ (rs ++ (tool_param id t ∷ [])))
      ∙ sym
          (ap (λ l. l ++ (tool_param id t ∷ [])) (ap (after_result role r) e ∙ append-nil (r ∷ rs)))
  results_grow role (text s ∷ bs) id t h n = absurd (cc h)
  results_grow role (image s ∷ bs) id t h n = absurd (cc h)
  results_grow role (tool_use i m x ∷ bs) id t h n = absurd (cc h)

  pub push_result-params :
      (ms : List (CanonicalMessage J)) (id t : Text)
      → All HasContent ms
      → (params (push_result (plain_result id t) ms) ≡ params ms ++ (tool_param id t ∷ []))
        × All HasContent (push_result (plain_result id t) ms)
  push_result-params [] id t h = (refl, ((λ e. cc e), tt))
  push_result-params (m ∷ []) id t (n, h) =
      elim (Bool-cases (is_user m.role && all_tool_results m.content)) [
        | inl c ↦
            let a : all_tool_results m.content ≡ true = ground arith in
            simp c (
              append-nil (
                    params_of_message json blocks_json
                      (record m { content = m.content ++ (plain_result id t ∷ []) }))
                  ∙ results_grow m.role m.content id t a n
                  ∙ sym (
                      ap (λ l. l ++ (tool_param id t ∷ []))
                        (append-nil (params_of_message json blocks_json m))),
              ((λ e. snoc_not_nil m.content (plain_result id t) e), tt),
            )
        | inr c ↦ simp c (
          sym (
              ap (λ l. l ++ (tool_param id t ∷ []))
                (append-nil (params_of_message json blocks_json m))),
          (n, ((λ e. cc e), tt)),
        )
      ]
  push_result-params (m ∷ m' ∷ ms) id t (n, h) =
      let (e, k) = push_result-params (m' ∷ ms) id t h in
      (
        ap (◌++◌ (params_of_message json blocks_json m)) e
            ∙ sym (
                append_assoc (params_of_message json blocks_json m) (params (m' ∷ ms))
                  (tool_param id t ∷ [])),
        (n, k),
      )

  pub calls_kept :
      (cs : List RawToolCall)
      → All (IsCall json) cs
      → (uses : List (ContentBlock J)) × (tool_calls_to_tool_use json cs ≡ ok uses)
        × (sorted json blocks_json uses ≡ only_calls (call_params cs))
  unfolding tool_calls_to_tool_use
  calls_kept [] h = ([], refl, refl)
  calls_kept (call id name args ∷ cs) ((j, p, o, s), h) =
      let (uses, e, e') = calls_kept cs h in
      (tool_use id name j ∷ uses, simp (tool_call_to_use, p, o, e) refl, rw (e', s) refl)
  calls_kept (call_not_object ∷ cs) (h, _) = absurd h
  calls_kept (call_without_id ∷ cs) (h, _) = absurd h
  calls_kept (call_without_function ∷ cs) (h, _) = absurd h
