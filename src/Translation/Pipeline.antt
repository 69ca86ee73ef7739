-- ===== src/Translation/Pipeline.antt =====
-- A streamed answer from an OpenAI-compatible backend to a client of the Responses API or of the OpenAI surface:
-- openAIChunksToCanonicalEvents and canonicalToResponsesSse
-- (router/src/translation/openai-out.ts and responses-stream.ts), one after the other.
use local_llms.Base.{
  [], Bool, ℕ, true, Option, none, some, List, ◌∷◌, ◌++◌, Text, codes, ◌≡◌, refl, ◌∙◌, ◌⊎◌,
  Bool-cases, inl, inr, All, get_elem?,
}
use local_llms.Canonical.{tool_use}
use local_llms.Translation.Chunks
use local_llms.Translation.Chunks.{Chunk, filled, openai_chunks_to_canonical_events}
use local_llms.Translation.Chunks.Stop.{openai_chunks_stop}
use local_llms.Translation.Content.{calls}
use local_llms.Translation.Chunks.Content.{chunks_text, chunks_calls, is_usage_last}
use local_llms.Translation.Chunks.Reading.{openai_chunks_tell}
use local_llms.Translation.OpenaiOut
use local_llms.Translation.OpenaiOut.Sse.{canonical_to_openai_sse}
use local_llms.Translation.OpenaiOut.Sse.Client.{client_text, client_calls, client_reads}
use local_llms.Translation.Responses
use local_llms.Translation.Responses.{
  function_call_added, completed, incomplete, finished, is_tool_call, canonical_to_responses_sse,
}
use local_llms.Translation.Chunks.Calls.{call_chunk, two_calls_events}
use local_llms.Translation.Responses.Parallel.{IsOther, NeverAgain, overlap_stream}
use local_llms.Translation.Responses.Terminal.{ends_once, last_status, reason_of, responses_end}

module _ {J E : Type 0} (chunk_opts : Chunks.Opts J) (opts : Responses.Opts J)
    (describe : E → Text) where
  -- Whatever chunks the backend sends, where its stream does not fail the client gets one terminal
  -- frame, as the last one: `response.completed`, with the status completed or incomplete.
  pub pipeline_ends :
      (cs : List Chunk)
      → let fs =
          (canonical_to_responses_sse opts describe
            (openai_chunks_to_canonical_events chunk_opts cs)
            finished).0 in
        (ends_once fs ≡ true)
        × ((last_status fs ≡ some completed) ⊎ (last_status fs ≡ some incomplete))
  pipeline_ends cs =
      let (es, e, n) = openai_chunks_stop chunk_opts cs in
      let (once, status) = responses_end opts describe es n in
      rw e (
        once,
        (elim (Bool-cases (is_tool_call (reason_of es none))) [
          | inl t ↦ inr (status ∙ rw t refl)
          | inr t ↦ inl (status ∙ rw t refl)
        ]),
      )

  -- Two tool calls that the backend opens one after the other in one answer, whatever follows: the
  -- client is told of the first as an item added, and never that it is done, although the canonical
  -- events stop its block. The ULIDs that the stream takes later do not repeat its id.
  pub pipeline_loses_call :
      (chunk_id : Text) (id name : ℕ × Text) (args : Option Text) (chunk_id' : Text)
      (id' name' : ℕ × Text) (args' : Option Text) (cs : List Chunk)
      → NeverAgain opts.fresh (codes "fc_" ++ opts.fresh 0) 1
      → let item_id = codes "fc_" ++ opts.fresh 0 in
        let chunks =
          call_chunk chunk_id 0 id name args ∷ call_chunk chunk_id' 1 id' name' args' ∷ cs in
        let fs =
          (canonical_to_responses_sse opts describe
            (openai_chunks_to_canonical_events chunk_opts chunks)
            finished).0 in
        (get_elem? fs 2
          ≡ some (record {
            sequence_number = 2;
            body = function_call_added 1 item_id (id.0 ∷ id.1) (name.0 ∷ name.1);
          }))
        × All (IsOther item_id) fs
  pipeline_loses_call chunk_id id name args chunk_id' id' name' args' cs later =
      let (m, rest, e) =
        two_calls_events chunk_opts chunk_id id name args chunk_id' id' name' args' cs in
      rw e (
        overlap_stream opts describe (some chunk_id) m 1 (id.0 ∷ id.1) (name.0 ∷ name.1)
          chunk_opts.empty_object (filled args) 2
          (tool_use (id'.0 ∷ id'.1) (name'.0 ∷ name'.1) chunk_opts.empty_object) rest refl later)

module _ {J : Type 0} (chunk_opts : Chunks.Opts J) (opts : OpenaiOut.Opts) (now : ℕ → ℕ) where
  -- A client of the OpenAI surface reads what the backend sent, where the usage comes with the last
  -- chunk or not at all: the same text, and the same tool calls in the order of their first
  -- chunks, each with all the fragments of its arguments.
  pub pipeline_roundtrip :
      (aborted : Bool) (cs : List Chunk)
      → is_usage_last cs ≡ true
      → let fs =
          (canonical_to_openai_sse opts now aborted
            (openai_chunks_to_canonical_events chunk_opts cs)
            finished).0 in
        (client_text fs ≡ chunks_text cs) × (client_calls fs [] ≡ calls (chunks_calls cs []))
  pipeline_roundtrip aborted cs h =
      let es = openai_chunks_to_canonical_events chunk_opts cs in
      let (t, (m, e, c)) = openai_chunks_tell chunk_opts cs h in
      let (t', c') = client_reads opts now aborted es m e in (t' ∙ t, c' ∙ c)
