-- ===== src/Mcp/ToolLoop/Laws.antt =====
-- What the tool loop of router/src/mcp/client/tool-loop.ts sends, answers and ends with.
use local_llms.Base.{
  ℕ, zero, suc, ◌≡◌, ◌≢◌, refl, ap, ◌∙◌, Bool, true, false, Option, none, some, List, [], ◌∷◌, Text,
  All, Bool-cases, inl, inr, ◌⊎◌, subst,
}
use local_llms.Canonical.{
  ContentBlock, ResultContent, plain, text, image, tool_use, tool_result, CanonicalRequest,
  CanonicalResponse,
}
use local_llms.Mcp.Prefix.{strip_prefix, is_external_mcp_tool_call, external_is_prefixed}
use local_llms.Mcp.ToolLoop.{
  mcp_tool_loop_max, Reply, ok, failed, Outcome, answered, exceeded, adapter_failed, no_prefix,
  ToolUse, external_tool_uses, Services, tool_reply, with_block, run_calls, extended, loop,
  run_mcp_tool_loop,
}

-- The blocks are tool results that answer the calls one by one.
abbrev pub Answers : {J : Type 0} → List (ToolUse J) → List (ContentBlock J) → Type 0
Answers [] [] = Unit
Answers (u ∷ us) (tool_result id content is_error ∷ bs) = (id ≡ u.id) × Answers us bs
Answers _ _ = ⊥

abbrev pub IsPrefixed : {J : Type 0} → ToolUse J → Type 0
IsPrefixed u = (parts : Text × Text) × (strip_prefix u.name ≡ some parts)

pub external-IsPrefixed :
    {J : Type 0} (enabled : List Text) (bs : List (ContentBlock J))
    → All IsPrefixed (external_tool_uses enabled bs)
unfolding external_tool_uses
external-IsPrefixed enabled [] = tt
external-IsPrefixed enabled (tool_use id name input ∷ bs) =
    elim (Bool-cases (is_external_mcp_tool_call name enabled)) [
      | inl e ↦
          let (parts, s, i) = external_is_prefixed name enabled e in
          rw e ((parts, s), external-IsPrefixed enabled bs)
      | inr e ↦ rw e (external-IsPrefixed enabled bs)
    ]
external-IsPrefixed enabled (text t ∷ bs) = external-IsPrefixed enabled bs
external-IsPrefixed enabled (image source ∷ bs) = external-IsPrefixed enabled bs
external-IsPrefixed enabled (tool_result id content is_error ∷ bs) = external-IsPrefixed enabled bs

pub List-cases {ℓ} :
    {A : Type ℓ} (xs : List A) → (xs ≡ []) ⊎ ((y : A) × (ys : List A) × (xs ≡ y ∷ ys))
List-cases [] = inl refl
List-cases (y ∷ ys) = inr (y, ys, refl)

pub Reply-cases :
    {E A : Type 0} (r : Reply E A) → ((a : A) × (r ≡ ok a)) ⊎ ((err : E) × (r ≡ failed err))
Reply-cases (ok a) = inl (a, refl)
Reply-cases (failed err) = inr (err, refl)

module _ {W E J : Type 0} (sv : Services W E J) (enabled : List Text) where
  tool_reply-result :
      (alias id : Text) (r : W × Reply E J)
      → (content : ResultContent J) × (is_error : Bool) × ((tool_reply sv enabled alias id r).1
          ≡ tool_result id content is_error)
  unfolding tool_reply
  tool_reply-result alias id (w, ok result) = (plain (sv.stringify result), false, refl)
  tool_reply-result alias id (w, failed err) = (plain (sv.error_json err), true, refl)

  with_block-some :
      (b : ContentBlock J) (r : W × Option (List (ContentBlock J))) (bs : List (ContentBlock J))
      → r.1 ≡ some bs
      → (with_block sv enabled b r).1 ≡ some (b ∷ bs)
  with_block-some b (w, none) bs e = absurd (cc e)
  with_block-some b (w, some xs) bs e = ap (λ o. (with_block sv enabled b (w, o)).1) e

  pub run_calls-Answers :
      (w : W) (us : List (ToolUse J))
      → All IsPrefixed us
      → (results : List (ContentBlock J)) × ((run_calls sv enabled w us).1 ≡ some results)
        × Answers us results
  unfolding run_calls
  run_calls-Answers w [] p = ([], refl, tt)
  run_calls-Answers w (u ∷ us) ((parts, s), p) =
      let r = tool_reply sv enabled parts.0 u.id (sv.call_tool w parts.0 parts.1 u.input) in
      let (content, is_error, e) =
        tool_reply-result parts.0 u.id (sv.call_tool w parts.0 parts.1 u.input) in
      let (rest, e', a) = run_calls-Answers r.0 us p in
      (
        tool_result u.id content is_error ∷ rest,
        rw (s, run_calls)
            (with_block-some r.1 (run_calls sv enabled r.0 us) rest e'
              ∙ ap (λ b. some (b ∷ rest)) e),
        (refl, a),
      )

  run_calls_end :
      (w : W) (us : List (ToolUse J)) → All IsPrefixed us → (run_calls sv enabled w us).1 ≢ none
  run_calls_end w us p n = let (results, e, a) = run_calls-Answers w us p in cc (e, n)

  -- How a run may end: with a response that holds no external tool call, with the error for the
  -- tenth round, or with an error of the adapter. That a call has no prefix is no way to end.
  abbrev pub IsEnd : Outcome E J → Type 0
  IsEnd (answered resp) = external_tool_uses enabled resp.content ≡ []
  IsEnd (exceeded n) = n ≡ 10
  IsEnd (adapter_failed err) = Unit
  IsEnd no_prefix = ⊥

  loop-IsEnd :
      (rounds : ℕ) (w : W) (req : CanonicalRequest J) (resp : CanonicalResponse J)
      → IsEnd (loop sv enabled rounds w req resp).1
  unfolding loop
  loop-IsEnd zero w req resp = elim (List-cases (external_tool_uses enabled resp.content)) [
    | inl e ↦ rw (e, loop) e
    | inr (b, bs, e) ↦ rw (e, loop) refl
  ]
  loop-IsEnd (suc rounds) w req resp = elim (List-cases (external_tool_uses enabled resp.content)) [
    | inl e ↦ rw (IsEnd, loop, e) e
    | inr (b, bs, e) ↦
        let p : All IsPrefixed (b ∷ bs) =
          subst (All IsPrefixed) e (external-IsPrefixed enabled resp.content) in
        let (results, r, a) = run_calls-Answers w (b ∷ bs) p in
        let w' = (run_calls sv enabled w (b ∷ bs)).0 in
        let req' = extended sv enabled req resp results in
        elim (Reply-cases (sv.chat w' req').1) [
          | inl (resp', c) ↦
              rw (loop, IsEnd, e, r, c) (loop-IsEnd rounds (sv.chat w' req').0 req' resp')
          | inr (err, c) ↦ rw (loop, IsEnd, e, r, c) tt
        ]
  ]

  -- Every run of the tool loop ends in one of these ways.
  pub run_mcp_tool_loop-IsEnd :
      (w : W) (initial : CanonicalRequest J) → IsEnd (run_mcp_tool_loop sv enabled w initial).1
  unfolding run_mcp_tool_loop
  run_mcp_tool_loop-IsEnd w initial = elim (Reply-cases (sv.chat w initial).1) [
    | inl (resp, c) ↦
        rw (run_mcp_tool_loop, IsEnd, c)
          (loop-IsEnd mcp_tool_loop_max (sv.chat w initial).0 initial resp)
    | inr (err, c) ↦ rw (run_mcp_tool_loop, IsEnd, c) tt
  ]
