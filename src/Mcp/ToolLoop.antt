-- ===== src/Mcp/ToolLoop.antt =====
-- The loop of model calls and external tool calls (router/src/mcp/client/tool-loop.ts). The
-- backend adapter, the client registry and the counters are parameters that act on a world `W`.
-- The tool calls of one round, which run in parallel, act on it in the order of their blocks.
pub mod Laws
pub mod Sent
use local_llms.Base.{
  ℕ, zero, suc, Bool, true, false, Option, none, some, List, [], ◌∷◌, ◌++◌, Text, if◌then◌else◌,
}
use local_llms.Canonical.{
  ContentBlock, text, image, tool_use, tool_result, plain, CanonicalMessage, user, assistant,
  CanonicalRequest, CanonicalResponse,
}
use local_llms.Mcp.Prefix.{strip_prefix, is_external_mcp_tool_call}

abbrev pub mcp_tool_loop_max : ℕ
mcp_tool_loop_max = 10

-- What a promise settles with.
pub data Reply (E A : Type 0) : Type 0 where
  ok : A → Reply E A
  failed : E → Reply E A

-- How the loop ends: a response, the thrown McpToolLoopExceededError, an error of the adapter, or
-- the error for a block whose name has no prefix.
pub data Outcome (E J : Type 0) : Type 0 where
  answered : CanonicalResponse J → Outcome E J
  exceeded : ℕ → Outcome E J
  adapter_failed : E → Outcome E J
  no_prefix : Outcome E J

pub record ToolUse (J : Type 0) : Type 0 where
  pub id : Text
  pub name : Text
  pub input : J

module _ {J : Type 0} (enabled : List Text) where
  -- The filter of `externalToolUses`.
  pub external_tool_uses : List (ContentBlock J) → List (ToolUse J)
  external_tool_uses [] = []
  external_tool_uses (tool_use id name input ∷ bs) =
      let rest = external_tool_uses bs in
      if is_external_mcp_tool_call name enabled
      then record { id = id; name = name; input = input } ∷ rest
      else rest
  external_tool_uses (text t ∷ bs) = external_tool_uses bs
  external_tool_uses (image source ∷ bs) = external_tool_uses bs
  external_tool_uses (tool_result id content is_error ∷ bs) = external_tool_uses bs

-- The services that the loop calls.
pub record Services (W E J : Type 0) : Type 0 where
  pub chat : W → CanonicalRequest J → W × Reply E (CanonicalResponse J)
  pub call_tool : W → Text → Text → J → W × Reply E J
  pub count : W → Text → Bool → W  -- the counter, with `success` or `server_error`
  pub stringify : J → Text
  pub error_json : E → Text  -- JSON.stringify({ error: String(err) })

module _ {W E J : Type 0} (sv : Services W E J) (enabled : List Text) where
  -- The `try` and the `catch` around `callTool`.
  tool_reply : Text → Text → W × Reply E J → W × ContentBlock J
  tool_reply alias id (w, ok result) =
      (sv.count w alias true, tool_result id (plain (sv.stringify result)) false)
  tool_reply alias id (w, failed err) =
      (sv.count w alias false, tool_result id (plain (sv.error_json err)) true)

  abbrev with_block :
      ContentBlock J → W × Option (List (ContentBlock J)) → W × Option (List (ContentBlock J))
  with_block b (w, none) = (w, none)
  with_block b (w, some bs) = (w, some (b ∷ bs))

  -- The calls of one round; `none` is the error for a name with no prefix.
  pub run_calls : W → List (ToolUse J) → W × Option (List (ContentBlock J))
  unfolding tool_reply
  run_calls w [] = (w, some [])
  run_calls w (b ∷ bs) = elim (strip_prefix b.name) [
    | none ↦ (w, none)
    | some parts ↦
        let (w', result) = tool_reply parts.0 b.id (sv.call_tool w parts.0 parts.1 b.input) in
        with_block result (run_calls w' bs)
  ]

  abbrev pub extended :
      CanonicalRequest J → CanonicalResponse J → List (ContentBlock J) → CanonicalRequest J
  extended req resp results = record req {
    messages =
        req.messages
        ++ (record { role = assistant; content = resp.content }
            ∷ record { role = user; content = results }
            ∷ []);
  }

  -- The `while`, with the rounds that `iter < MCP_TOOL_LOOP_MAX` still leaves.
  pub loop : ℕ → W → CanonicalRequest J → CanonicalResponse J → W × Outcome E J
  loop zero w req resp = elim (external_tool_uses enabled resp.content) [
    | [] ↦ (w, answered resp)
    | b ∷ bs ↦ (w, exceeded mcp_tool_loop_max)
  ]
  loop (suc rounds) w req resp = elim (external_tool_uses enabled resp.content) [
    | [] ↦ (w, answered resp)
    | b ∷ bs ↦ elim (run_calls w (b ∷ bs)).1 [
      | none ↦ ((run_calls w (b ∷ bs)).0, no_prefix)
      | some results ↦
          let req' = extended req resp results in
          let (w', reply) = sv.chat (run_calls w (b ∷ bs)).0 req' in
          elim reply [
            | ok resp' ↦ loop rounds w' req' resp'
            | failed err ↦ (w', adapter_failed err)
          ]
    ]
  ]

  pub run_mcp_tool_loop : W → CanonicalRequest J → W × Outcome E J
  unfolding loop
  run_mcp_tool_loop w initial =
      let (w', reply) = sv.chat w initial in
      elim reply [
        | ok resp ↦ loop mcp_tool_loop_max w' initial resp
        | failed err ↦ (w', adapter_failed err)
      ]
