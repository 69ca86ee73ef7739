-- ===== src/Translation/Chunks/Calls.antt =====
-- Two tool calls of one answer in openAIChunksToCanonicalEvents
-- (router/src/translation/openai-out.ts).
use local_llms.Base.{
  ℕ, Option, none, some, List, [], ◌∷◌, ◌++◌, Text, ◌≡◌, refl, Option-cases, inl, inr,
}
use local_llms.Canonical.{CanonicalResponse, tool_use}
use local_llms.Canonical.Stream.{CanonicalStreamEvent, message_start, content_block_start}
use local_llms.Translation.Follow.{fragment_events}
use local_llms.Translation.Chunks.{
  Opts, Chunk, filled, close_text, start_message, text_part, open_block, open_tool, add_fragment,
  known_tool, register, first_sighting, tool_call, tool_calls_part, choice_part, usage_part,
  chunk_step, chunks_loop, openai_chunks_to_canonical_events,
}

-- A chunk that opens the tool call of one slot: its id and its name, which are not empty, and a
-- first fragment of the arguments, where it has one.
abbrev pub call_chunk : Text → ℕ → ℕ × Text → ℕ × Text → Option Text → Chunk
call_chunk chunk_id slot (c, id) (d, name) args = record {
  id = chunk_id;
  choice = some (record {
    content = none;
    finish_reason = none;
    tool_calls =
        record { index = slot; id = some (c ∷ id); name = some (d ∷ name); arguments = args } ∷ [];
  });
  usage = none;
}

module _ {J : Type 0} (opts : Opts J) where
  pub two_calls_events :
      (chunk_id : Text) (id name : ℕ × Text) (args : Option Text) (chunk_id' : Text)
      (id' name' : ℕ × Text) (args' : Option Text) (cs : List Chunk)
      → (m : CanonicalResponse J) × (rest : List (CanonicalStreamEvent J))
        × (openai_chunks_to_canonical_events opts
              (call_chunk chunk_id 0 id name args ∷ call_chunk chunk_id' 1 id' name' args' ∷ cs)
            ≡ message_start (some chunk_id) m
              ∷ content_block_start 1 (tool_use (id.0 ∷ id.1) (name.0 ∷ name.1) opts.empty_object)
              ∷ (fragment_events 1 (filled args)
                  ++ (content_block_start 2
                        (tool_use (id'.0 ∷ id'.1) (name'.0 ∷ name'.1) opts.empty_object)
                      ∷ rest)))
  unfolding openai_chunks_to_canonical_events chunks_loop chunk_step start_message choice_part
      text_part tool_calls_part tool_call first_sighting register known_tool open_tool open_block
      close_text add_fragment usage_part
  two_calls_events chunk_id id name args chunk_id' id' name' args' cs =
      elim (Option-cases (filled args)) [
        | inl e ↦ rw e (_, _, refl)
        | inr (t, e) ↦ rw e (_, _, refl)
      ]
