-- ===== src/Translation/OllamaStream.antt =====
-- ollamaNativeChunksToCanonicalEvents of router/src/translation/ollama-native-out.ts: the lines of
-- JSON that Ollama streams become canonical events. A piece of text is what the decoder makes of
-- one read. A body of null, for which the source throws at once, is left out.
pub mod Shape
pub mod Told
pub mod Outcome
pub mod Tests
use local_llms.Base.{
  ℕ, ◌==◌, ◌&&◌, ◌||◌, Bool, true, false, Option, none, some, List, [], ◌∷◌, ◌++◌, Text, leb,
  if◌then◌else◌,
}
use local_llms.Canonical.{text, end_turn}
use local_llms.Canonical.Stream.{
  CanonicalStreamEvent, message_start, content_block_start, content_block_delta, content_block_stop,
  message_delta, message_stop, text_delta,
}

-- A parsed line; a content that is absent is empty.
pub record Line : Type 0 where
  pub content : Text
  pub done : Bool  -- line.done === true
  pub eval_count : ℕ  -- 0 where it is absent

-- What the loop meets: pieces of text, then the end, a failure, or the signal aborted before a read.
pub data Reads : Type 0 where
  at_end read_fails aborted_before : Reads
  piece : Text → Reads → Reads

-- How the generator ends.
pub data Ending : Type 0 where
  returns throws : Ending

pub record Opts : Type 0 where
  pub model : Text
  pub input_tokens_hint : Option ℕ
  pub msg_id : Text
  pub parse : Text → Option Line  -- JSON.parse, `none` where it throws
  pub aborted_in_catch : Bool  -- opts.signal?.aborted, when something is caught

abbrev is_blank : ℕ → Bool
is_blank c =
    leb 9 c && leb c 13
    || c == 32
    || c == 160
    || c == 5760
    || leb 8192 c && leb c 8202
    || c == 8232
    || c == 8233
    || c == 8239
    || c == 8287
    || c == 12288
    || c == 65279

-- `raw.trim().length === 0`.
abbrev all_blank : Text → Bool
all_blank [] = true
all_blank (c ∷ t) = is_blank c && all_blank t

-- The whole lines of the buffer, and what stays in it.
abbrev pub onto_line : ℕ → List Text × Text → List Text × Text
onto_line c ([], rest) = ([], c ∷ rest)
onto_line c (l ∷ ls, rest) = ((c ∷ l) ∷ ls, rest)

abbrev pub whole_lines : Text → List Text × Text
whole_lines [] = ([], [])
whole_lines (c ∷ t) =
    let (ls, rest) = whole_lines t in if c == 10 then ([] ∷ ls, rest) else onto_line c (ls, rest)

abbrev pub hint : Option ℕ → ℕ
hint none = 0
hint (some n) = n

-- What one line or one piece leads to: on with `started`, or the end.
pub data Next : Type 0 where
  goes_on : Bool → Next
  ends : Ending → Next

-- The catch.
abbrev pub caught_by : Bool → Ending
caught_by true = returns
caught_by false = throws

abbrev pub caught : Opts → Ending
caught opts = caught_by opts.aborted_in_catch

abbrev pub ending : Next → Ending
ending (ends e) = e
ending (goes_on started) = returns

module _ {J : Type 0} (opts : Opts) where
  abbrev pub start_events : Bool → List (CanonicalStreamEvent J)
  start_events true = []
  start_events false =
      message_start none (record {
        id = opts.msg_id;
        content = [];
        model = opts.model;
        stop_reason = none;
        stop_sequence = none;
        usage = record { input_tokens = hint opts.input_tokens_hint; output_tokens = 1 };
      })
      ∷ content_block_start 0 (text [])
      ∷ []

  abbrev pub end_events : ℕ → List (CanonicalStreamEvent J)
  end_events output_tokens =
      content_block_stop 0
      ∷ message_delta (some end_turn) none
          (record { output_tokens = output_tokens; upstream_input_tokens = none })
      ∷ message_stop
      ∷ []

  abbrev pub token_events : Text → List (CanonicalStreamEvent J)
  token_events [] = []
  token_events (c ∷ t) = content_block_delta 0 (text_delta (c ∷ t)) ∷ []

  -- By whether the line is done.
  abbrev pub line_events : Line → Bool → Bool → List (CanonicalStreamEvent J) × Next
  line_events line started true = (start_events started ++ end_events line.eval_count, ends returns)
  line_events line started false = (start_events started ++ token_events line.content, goes_on true)

  -- One line of the buffer.
  abbrev pub parsed_line : Option Line → Bool → List (CanonicalStreamEvent J) × Next
  parsed_line none started = ([], ends (caught opts))
  parsed_line (some line) started = line_events line started line.done

  -- By whether the line is blank.
  abbrev pub unless_blank : Text → Bool → Bool → List (CanonicalStreamEvent J) × Next
  unless_blank raw started true = ([], goes_on started)
  unless_blank raw started false = parsed_line (opts.parse raw) started

  abbrev pub line_step : Text → Bool → List (CanonicalStreamEvent J) × Next
  line_step raw started = unless_blank raw started (all_blank raw)

  -- What follows a line or a piece.
  abbrev pub and_then :
      List (CanonicalStreamEvent J) × Next
      → (Bool → List (CanonicalStreamEvent J) × Next)
      → List (CanonicalStreamEvent J) × Next
  and_then (es, ends e) f = (es, ends e)
  and_then (es, goes_on started) f = let (more, next) = f started in (es ++ more, next)

  -- The `while` over the lines of the buffer.
  abbrev pub lines_loop : List Text → Bool → List (CanonicalStreamEvent J) × Next
  lines_loop [] started = ([], goes_on started)
  lines_loop (l ∷ ls) started = and_then (line_step l started) (lines_loop ls)

  abbrev pub end_part : Bool → List (CanonicalStreamEvent J) × Next
  end_part true = (end_events 0, ends returns)
  end_part false = ([], ends (caught opts))

  -- The loop over the reads, with the buffer.
  abbrev pub reads_loop : Reads → Text → Bool → List (CanonicalStreamEvent J) × Next
  reads_loop at_end buffer started = end_part started
  reads_loop read_fails buffer started = ([], ends (caught opts))
  reads_loop aborted_before buffer started = ([], ends returns)
  reads_loop (piece t rest) buffer started =
      let (ls, left) = whole_lines (buffer ++ t) in
      and_then (lines_loop ls started) (reads_loop rest left)

  unfoldable pub ollama_native_chunks_to_canonical_events :
      Reads → List (CanonicalStreamEvent J) × Ending
  ollama_native_chunks_to_canonical_events reads =
      let (es, next) = reads_loop reads [] false in (es, ending next)
