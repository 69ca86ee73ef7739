-- ===== src/Translation/OllamaStream/Outcome.antt =====
-- What ollamaNativeChunksToCanonicalEvents yields (router/src/translation/ollama-native-out.ts),
-- against the events written out.
use local_llms.Base.{
  ◌≢◌, All, ℕ, Bool, true, false, ◌||◌, Option, none, some, List, [], ◌∷◌, ◌++◌, Text, ◌≡◌, ◌⊎◌,
  refl, sym, ap, ◌∙◌, inl, inr, append-nil,
}
use local_llms.Canonical.{text, end_turn}
use local_llms.Canonical.Stream.{
  CanonicalStreamEvent, message_start, content_block_start, content_block_delta, content_block_stop,
  message_delta, message_stop, text_delta,
}
use local_llms.Translation.OllamaStream.{
  hint, Opts, Reads, Next, goes_on, ends, Ending, returns, throws, ending, start_events, end_events,
  reads_loop, ollama_native_chunks_to_canonical_events,
}
use local_llms.Translation.Content.{text_of}
use local_llms.Translation.OllamaStream.Shape.{
  aborts, tokens, IsWhole, IsCut, Part, Ends, reads_loop-IsPart, reads_loop-Ends,
}
use local_llms.Translation.OllamaStream.Told.{received, lines_from, told, joined, reads_loop-told}

abbrev pub IsNotEmpty : Text → Type 0
IsNotEmpty t = t ≢ []

hint_lem : (o : Option ℕ) → hint o ≡ elim o [ none ↦ 0 | some n ↦ n ]
hint_lem none = refl
hint_lem (some n) = refl

-- The events that the surfaces may expect, written out.
module _ {J : Type 0} (opts : Opts) where
  abbrev pub opening : List (CanonicalStreamEvent J)
  opening =
      message_start none (record {
        id = opts.msg_id;
        content = [];
        model = opts.model;
        stop_reason = none;
        stop_sequence = none;
        usage = record {
          input_tokens = elim opts.input_tokens_hint [ none ↦ 0 | some n ↦ n ];
          output_tokens = 1;
        };
      })
      ∷ content_block_start 0 (text [])
      ∷ []

  abbrev pub deltas : List Text → List (CanonicalStreamEvent J)
  deltas [] = []
  deltas (t ∷ ts) = content_block_delta 0 (text_delta t) ∷ deltas ts

  abbrev pub closing : ℕ → List (CanonicalStreamEvent J)
  closing n =
      content_block_stop 0
      ∷ message_delta (some end_turn) none
          (record { output_tokens = n; upstream_input_tokens = none })
      ∷ message_stop
      ∷ []

  -- The opening, deltas of texts that are not empty, and the closing.
  abbrev pub IsComplete : List (CanonicalStreamEvent J) → Type 0
  IsComplete es =
      (ts : List Text) × (n : ℕ) × All IsNotEmpty ts × (es ≡ opening ++ (deltas ts ++ closing n))

  -- Nothing, or the opening and deltas of texts that are not empty.
  abbrev pub IsCutShort : List (CanonicalStreamEvent J) → Type 0
  IsCutShort es = (es ≡ []) ⊎ ((ts : List Text) × All IsNotEmpty ts × (es ≡ opening ++ deltas ts))

  start_events-opening : start_events opts false ≡ opening
  start_events-opening =
      ap
        (λ n.
          message_start none (record {
            id = opts.msg_id;
            content = [];
            model = opts.model;
            stop_reason = none;
            stop_sequence = none;
            usage = record { input_tokens = n; output_tokens = 1 };
          })
          ∷ content_block_start 0 (text [])
          ∷ [])
        (hint_lem opts.input_tokens_hint)

  tokens-deltas :
      (ts : List Text) → (us : List Text) × All IsNotEmpty us × (tokens opts ts ≡ deltas us)
  tokens-deltas [] = ([], tt, refl)
  tokens-deltas ([] ∷ ts) = tokens-deltas ts
  tokens-deltas ((c ∷ t) ∷ ts) =
      let (us, h, e) = tokens-deltas ts in
      ((c ∷ t) ∷ us, ((λ q. cc q), h), ap (◌∷◌ (content_block_delta 0 (text_delta (c ∷ t)))) e)

  whole-IsComplete : (es : List (CanonicalStreamEvent J)) → IsWhole opts false es → IsComplete es
  whole-IsComplete es (ts, n, e) =
      let (us, h, d) = tokens-deltas ts in
      (
        us,
        n,
        h,
        e
            ∙ ap (λ x. x ++ (tokens opts ts ++ end_events opts n)) start_events-opening
            ∙ ap (λ x. opening ++ (x ++ end_events opts n)) d,
      )

  cut-IsCutShort : (es : List (CanonicalStreamEvent J)) → IsCut opts false es → IsCutShort es
  cut-IsCutShort es (inl e) = inl e
  cut-IsCutShort es (inr (ts, e)) =
      let (us, h, d) = tokens-deltas ts in
      inr (us, h, e ∙ ap (λ x. x ++ tokens opts ts) start_events-opening ∙ ap (λ x. opening ++ x) d)

module _ (J : Type 0) (opts : Opts) where
  -- What was yielded, by how the generator ends; `gone` is whether the signal was found aborted.
  abbrev pub IsOutcome : Bool → List (CanonicalStreamEvent J) × Ending → Type 0
  IsOutcome gone (es, returns) =
      IsComplete {J = J} opts es ⊎ (IsCutShort {J = J} opts es × (gone ≡ true))
  IsOutcome gone (es, throws) = IsCutShort {J = J} opts es

  part-IsOutcome :
      (gone : Bool) (q : List (CanonicalStreamEvent J) × Next)
      → Part J opts gone false q
      → Ends J opts q
      → IsOutcome gone (q.0, ending q.1)
  part-IsOutcome gone (es, ends returns) (inl h) e = inl (whole-IsComplete opts es h)
  part-IsOutcome gone (es, ends returns) (inr (h, g)) e = inr (cut-IsCutShort opts es h, g)
  part-IsOutcome gone (es, ends throws) h e = cut-IsCutShort opts es h
  part-IsOutcome gone (es, goes_on s) h (e, x) = absurd (cc x)

or_right : (a b : Bool) → b ≡ true → (a || b) ≡ true
or_right true b h = refl
or_right false b h = h

all_text :
    (J : Type 0) (opts : Opts) (q : List (CanonicalStreamEvent J) × Next)
    → joined J opts q [] ≡ text_of q.0
all_text J opts (es, ends e) = refl
all_text J opts (es, goes_on s) = append-nil (text_of es)

-- For every sequence of reads and every content of the lines: where
-- ollamaNativeChunksToCanonicalEvents throws, it has yielded nothing, or message_start, the start
-- of one text block and deltas of texts that are not empty; where it returns, it has yielded these
-- and then the block's stop, one message_delta and one message_stop at the very end, or the signal
-- was aborted. On every path the text of the deltas is the contents, one after the other, of the
-- lines in the text received that a newline ends and that are not blank, up to the first that is
-- done or cannot be parsed, without it.
pub ollama_native_chunks_to_canonical_events-IsOutcome :
    (J : Type 0) (opts : Opts) (reads : Reads)
    → IsOutcome J opts
        (opts.aborted_in_catch || aborts reads)
        (ollama_native_chunks_to_canonical_events opts reads)
      × (text_of (ollama_native_chunks_to_canonical_events {J = J} opts reads).0
          ≡ told opts (lines_from [] (received reads)))
unfolding ollama_native_chunks_to_canonical_events
ollama_native_chunks_to_canonical_events-IsOutcome J opts reads = (
  part-IsOutcome J opts (opts.aborted_in_catch || aborts reads) (reads_loop opts reads [] false)
      (reads_loop-IsPart J opts (opts.aborted_in_catch || aborts reads) reads [] false
        (λ e. ap (λ a. a || aborts reads) e) (or_right opts.aborted_in_catch (aborts reads)))
      (reads_loop-Ends J opts reads [] false),
  sym (all_text J opts (reads_loop opts reads [] false)) ∙ reads_loop-told J opts reads,
)
