-- ===== src/Mcp/ToolLoop/Sent.antt =====
-- The requests that the tool loop of router/src/mcp/client/tool-loop.ts sends to the backend.
use local_llms.Base.{
  ℕ, zero, suc, ◌+◌, ◌≤◌, ◌≡◌, refl, sym, Bool, Option, none, some, List, [], ◌∷◌, arith, Text, All,
  Option-cases, inl, inr, subst, ◌++◌,
}
use local_llms.Canonical.{ContentBlock, CanonicalRequest, CanonicalResponse, user, assistant}
use local_llms.Mcp.Prefix.{strip_prefix}
use local_llms.Mcp.ToolLoop.{
  mcp_tool_loop_max, Reply, ok, failed, ToolUse, external_tool_uses, Services, tool_reply,
  with_block, run_calls, extended, loop, run_mcp_tool_loop,
}
use local_llms.Mcp.ToolLoop.Laws.{
  Answers, IsPrefixed, external-IsPrefixed, run_calls-Answers, List-cases, Reply-cases,
}

-- Below, `Inv n` says what holds of the world after `n` calls of the adapter.
module _ {W E J : Type 0} (sv : Services W E J) (enabled : List Text) where
  -- The requests that follow from the first one by `n` rounds. A round takes a response of the
  -- adapter to the request, and appends an assistant message with the whole content of the response
  -- and a user message with one result for each external call in it, in their order and with their
  -- ids. The rest of the request stays.
  pub data Conversation (initial : CanonicalRequest J) : ℕ → CanonicalRequest J → Type 0 where
    start : Conversation initial 0 initial
    round :
        (n : ℕ) (req req' : CanonicalRequest J) (w : W) (resp : CanonicalResponse J)
        (results : List (ContentBlock J))
        → Conversation initial n req
        → (sv.chat w req).1 ≡ ok resp
        → Answers (external_tool_uses enabled resp.content) results
        → req' ≡ record req {
          messages =
              req.messages
              ++ (record { role = assistant; content = resp.content }
                  ∷ record { role = user; content = results }
                  ∷ []);
        }
        → Conversation initial (suc n) req'

  module _ (initial : CanonicalRequest J) (Inv : ℕ → W → Type 0)
      (chat_step : (n : ℕ) (w : W) (req : CanonicalRequest J)
        → n ≤ 10
        → Conversation initial n req
        → Inv n w
        → Inv (suc n) (sv.chat w req).0)
      (call_step : (n : ℕ) (w : W) (alias name : Text) (input : J)
        → Inv n w
        → Inv n (sv.call_tool w alias name input).0)
      (count_step : (n : ℕ) (w : W) (alias : Text) (success : Bool)
        → Inv n w
        → Inv n (sv.count w alias success)) where
    tool_reply-Inv :
        (n : ℕ) (alias id : Text) (r : W × Reply E J)
        → Inv n r.0
        → Inv n (tool_reply sv enabled alias id r).0
    unfolding tool_reply
    tool_reply-Inv n alias id (w, ok result) i = count_step n w alias _ i
    tool_reply-Inv n alias id (w, failed err) i = count_step n w alias _ i

    with_block-Inv :
        (n : ℕ) (b : ContentBlock J) (r : W × Option (List (ContentBlock J)))
        → Inv n r.0
        → Inv n (with_block sv enabled b r).0
    with_block-Inv n b (w, none) i = i
    with_block-Inv n b (w, some bs) i = i

    run_calls-Inv :
        (n : ℕ) (w : W) (us : List (ToolUse J)) → Inv n w → Inv n (run_calls sv enabled w us).0
    unfolding run_calls
    run_calls-Inv n w [] i = i
    run_calls-Inv n w (u ∷ us) i = elim (Option-cases (strip_prefix u.name)) [
      | inl e ↦ rw (run_calls, e) i
      | inr (parts, e) ↦
          let r = tool_reply sv enabled parts.0 u.id (sv.call_tool w parts.0 parts.1 u.input) in
          let j = tool_reply-Inv n parts.0 u.id _ (call_step n w parts.0 parts.1 u.input i) in
          rw (run_calls, e)
            (with_block-Inv n r.1 (run_calls sv enabled r.0 us) (run_calls-Inv n r.0 us j))
    ]

    loop-Inv :
        (n rounds : ℕ) (w v : W) (req : CanonicalRequest J) (resp : CanonicalResponse J)
        → n + rounds ≡ 10
        → Conversation initial n req
        → (sv.chat v req).1 ≡ ok resp
        → Inv (suc n) w
        → (m : ℕ) × (m ≤ 11) × Inv m (loop sv enabled rounds w req resp).0
    unfolding loop
    loop-Inv n zero w v req resp s c q i =
        elim (List-cases (external_tool_uses enabled resp.content)) [
          | inl e ↦ (suc n, omega (arith, s), rw (loop, e) i)
          | inr (b, bs, e) ↦ (suc n, omega (arith, s), rw (loop, e) i)
        ]
    loop-Inv n (suc rounds) w v req resp s c q i =
        elim (List-cases (external_tool_uses enabled resp.content)) [
          | inl e ↦ (suc n, omega (arith, s), rw (loop, e) i)
          | inr (b, bs, e) ↦
              let p : All IsPrefixed (b ∷ bs) =
                subst (All IsPrefixed) e (external-IsPrefixed enabled resp.content) in
              let (results, r, a) = run_calls-Answers sv enabled w (b ∷ bs) p in
              let w' = (run_calls sv enabled w (b ∷ bs)).0 in
              let req' = extended sv enabled req resp results in
              let c' =
                round n req req' v resp results c q (subst (λ us. Answers us results) (sym e) a)
                  refl in
              let i' =
                chat_step (suc n) w' req' (omega (arith, s)) c'
                  (run_calls-Inv (suc n) w (b ∷ bs) i) in
              elim (Reply-cases (sv.chat w' req').1) [
                | inl (resp', k) ↦
                    let (m, le, j) =
                      loop-Inv (suc n) rounds (sv.chat w' req').0 w' req' resp' (omega (arith, s))
                        c' k i' in
                    (m, le, rw (loop, e, r, k) j)
                | inr (err, k) ↦ (suc (suc n), omega (arith, s), rw (loop, e, r, k) i')
              ]
        ]

    -- A run calls the adapter at most 11 times, and its call number `n`, counted from 0, has a
    -- request that follows from the first by `n` whole rounds (see `Conversation`). As an induction rule: what each call with
    -- such a request brings from `Inv n` to `Inv (suc n)`, and what external calls and counters
    -- keep, holds at the end with the number of calls made.
    pub run_mcp_tool_loop-Inv :
        (w : W) → Inv 0 w → (m : ℕ) × (m ≤ 11) × Inv m (run_mcp_tool_loop sv enabled w initial).0
    unfolding run_mcp_tool_loop
    run_mcp_tool_loop-Inv w i =
        let i' = chat_step 0 w initial (omega arith) start i in
        elim (Reply-cases (sv.chat w initial).1) [
          | inl (resp, k) ↦
              let (m, le, j) =
                loop-Inv 0 mcp_tool_loop_max (sv.chat w initial).0 w initial resp refl start k i' in
              (m, le, rw (run_mcp_tool_loop, k) j)
          | inr (err, k) ↦ (1, omega arith, rw (run_mcp_tool_loop, k) i')
        ]
