-- ===== src/Translation/OllamaStream/Tests.antt =====
-- A short stream of Ollama's (router/src/translation/ollama-native-out.ts).
use local_llms.Base.{ℕ, false, none, some, [], ◌∷◌, Text, codes, ◌≡◌, ◌||◌, refl, length}
use local_llms.Translation.OllamaStream.{
  Opts, Line, Reads, at_end, piece, returns, ollama_native_chunks_to_canonical_events,
}
use local_llms.Translation.Content.{text_of}
use local_llms.Translation.OllamaStream.Shape.{aborts}
use local_llms.Translation.OllamaStream.Told.{received, lines_from, told}
use local_llms.Translation.OllamaStream.Outcome.{
  IsOutcome, ollama_native_chunks_to_canonical_events-IsOutcome,
}

-- Every line is the text of a token.
abbrev parse_line : Text → Line
parse_line [] = record { content = []; done = false; eval_count = 0 }
parse_line (c ∷ t) = record { content = c ∷ t; done = false; eval_count = 0 }

abbrev opts : Opts
opts = record {
  model = codes "m";
  input_tokens_hint = none;
  msg_id = codes "msg_1";
  parse = λ t. some (parse_line t);
  aborted_in_catch = false;
}

-- Two lines in three pieces.
abbrev two_lines : Reads
two_lines = piece (104 ∷ []) (piece (105 ∷ 10 ∷ 33 ∷ []) (piece (10 ∷ []) at_end))

two_lines_returns : (ollama_native_chunks_to_canonical_events {J = ℕ} opts two_lines).1 ≡ returns
unfolding ollama_native_chunks_to_canonical_events
two_lines_returns = refl

two_lines_events : length (ollama_native_chunks_to_canonical_events {J = ℕ} opts two_lines).0 ≡ 7
unfolding ollama_native_chunks_to_canonical_events
two_lines_events = refl

ollama_native_chunks_to_canonical_events-IsOutcome_example :
    IsOutcome ℕ opts
      (opts.aborted_in_catch || aborts two_lines)
      (ollama_native_chunks_to_canonical_events opts two_lines)
    × (text_of (ollama_native_chunks_to_canonical_events {J = ℕ} opts two_lines).0
        ≡ told opts (lines_from [] (received two_lines)))
ollama_native_chunks_to_canonical_events-IsOutcome_example =
    ollama_native_chunks_to_canonical_events-IsOutcome ℕ opts two_lines

two_lines_text : told opts (lines_from [] (received two_lines)) ≡ 104 ∷ 105 ∷ 33 ∷ []
two_lines_text = refl
