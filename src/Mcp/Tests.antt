-- ===== src/Mcp/Tests.antt =====
-- The theorems on MCP names, tools and the tool loop at concrete servers and requests.
use local_llms.Base.{
  ℕ, zero, suc, ap, ◌≤◌, ◌≡◌, ◌≢◌, refl, none, some, [], ◌∷◌, Text, codes, index_of, take, drop,
  length, ◌+◌,
}
use local_llms.Canonical.{text, tool_use, user, end_turn, CanonicalRequest, CanonicalResponse}
use local_llms.Mcp.Prefix.{
  strip_prefix, prefix_tool_name, separator, strip_prefix-prefix_tool_name, strip_prefix_cuts,
}
use local_llms.Mcp.Sanitize.{ExternalTool}
use local_llms.Mcp.ToolLoop.{ok, Services, run_mcp_tool_loop}
use local_llms.Mcp.ToolLoop.Laws.{IsEnd, run_mcp_tool_loop-IsEnd}
use local_llms.Mcp.ToolLoop.Sent.{run_mcp_tool_loop-Inv}

strip_prefix-prefix_tool_name_example :
    strip_prefix (prefix_tool_name (codes "fs") (codes "read__all"))
    ≡ some (codes "fs", codes "read__all")
unfolding index_of
strip_prefix-prefix_tool_name_example =
    strip_prefix-prefix_tool_name (codes "fs") (codes "read__all") refl

strip_prefix_cuts_example :
    (strip_prefix (prefix_tool_name (codes "fs_") (codes "read"))
      ≡ some (
        take 2 (codes "fs_"),
        drop (2 + length separator) (prefix_tool_name (codes "fs_") (codes "read")),
      ))
    × (take 2 (codes "fs_") ≢ codes "fs_")
unfolding index_of
strip_prefix_cuts_example = strip_prefix_cuts (codes "fs_") (codes "read") 2 refl

abbrev read_tool : ExternalTool ℕ
read_tool = record {
  name = codes "read_file";
  description = some (codes "Reads");
  input_schema = 7;
}

abbrev bad_tool : ExternalTool ℕ
bad_tool = record { name = codes "Read File"; description = none; input_schema = 7 }

abbrev blank_response : CanonicalResponse ℕ
blank_response = record {
  id = codes "msg_1";
  content = [];
  model = codes "chat-local";
  stop_reason = some end_turn;
  stop_sequence = none;
  usage = record { input_tokens = 1; output_tokens = 1 };
}

-- A backend whose first response calls a tool. The world is the number of calls of the adapter.
abbrev response : ℕ → CanonicalResponse ℕ
response zero = record blank_response { content = tool_use (codes "u1") (codes "fs__read") 5 ∷ [] }
response (suc n) = record blank_response { content = text (codes "done") ∷ [] }

abbrev backend : Services ℕ Text ℕ
backend = record {
  chat = λ w req. (suc w, ok (response w));
  call_tool = λ w alias name input. (w, ok input);
  count = λ w alias success. w;
  stringify = λ result. codes "5";
  error_json = λ err. err;
}

abbrev question : CanonicalRequest ℕ
question = record {
  model = codes "chat-local";
  system = none;
  messages = record { role = user; content = text (codes "hi") ∷ [] } ∷ [];
  max_tokens = none;
  temperature = none;
  top_p = none;
  top_k = none;
  stop_sequences = none;
  stream = none;
  tools = none;
  tool_choice = none;
}

run_mcp_tool_loop-IsEnd_example :
    IsEnd backend (codes "fs" ∷ []) (run_mcp_tool_loop backend (codes "fs" ∷ []) 0 question).1
run_mcp_tool_loop-IsEnd_example = run_mcp_tool_loop-IsEnd backend (codes "fs" ∷ []) 0 question

abbrev Counted : ℕ → ℕ → Type 0
Counted n w = w ≡ n

run_mcp_tool_loop-Inv_example :
    (m : ℕ) × (m ≤ 11) × Counted m (run_mcp_tool_loop backend (codes "fs" ∷ []) 0 question).0
run_mcp_tool_loop-Inv_example =
    run_mcp_tool_loop-Inv backend (codes "fs" ∷ []) question Counted (λ n w req le c e. ap suc e)
      (λ n w alias name input e. e) (λ n w alias success e. e) 0 refl
