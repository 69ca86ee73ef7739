-- ===== src/Translation/OllamaStream/Shape.antt =====
-- The order of the events that ollamaNativeChunksToCanonicalEvents yields
-- (router/src/translation/ollama-native-out.ts).
use local_llms.Base.{
  ℕ, Bool, true, false, Option, none, some, List, [], ◌∷◌, ◌++◌, Text, ◌≡◌, ◌⊎◌, refl, sym, ap,
  subst, ◌∙◌, inl, inr, append_assoc, append-nil,
}
use local_llms.Canonical.Stream.{CanonicalStreamEvent}
use local_llms.Translation.OllamaStream.{
  Opts, Line, Reads, at_end, read_fails, aborted_before, piece, Next, goes_on, ends, Ending,
  returns, throws, caught, caught_by, whole_lines, start_events, end_events, token_events,
  line_events, parsed_line, unless_blank, line_step, and_then, lines_loop, end_part, reads_loop,
  all_blank,
}

-- Whether the signal is found aborted before a read.
abbrev pub aborts : Reads → Bool
aborts at_end = false
aborts read_fails = false
aborts aborted_before = true
aborts (piece t rest) = aborts rest

module _ {J : Type 0} (opts : Opts) where
  abbrev pub tokens : List Text → List (CanonicalStreamEvent J)
  tokens [] = []
  tokens (t ∷ ts) = token_events opts t ++ tokens ts

  tokens-append : (ts us : List Text) → tokens (ts ++ us) ≡ tokens ts ++ tokens us
  tokens-append [] us = refl
  tokens-append (t ∷ ts) us =
      ap (◌++◌ (token_events opts t)) (tokens-append ts us)
      ∙ sym (append_assoc (token_events opts t) (tokens ts) (tokens us))

  -- The opening, tokens, and the close.
  abbrev pub IsWhole : Bool → List (CanonicalStreamEvent J) → Type 0
  IsWhole started es =
      (ts : List Text) × (n : ℕ) × (es
        ≡ start_events opts started ++ (tokens ts ++ end_events opts n))

  -- Nothing, or the opening and tokens.
  abbrev pub IsCut : Bool → List (CanonicalStreamEvent J) → Type 0
  IsCut started es = (es ≡ []) ⊎ ((ts : List Text) × (es ≡ start_events opts started ++ tokens ts))

  -- What a part of the generator yields, from `started`; `gone` is whether the client may be.
  abbrev pub IsPart : Bool → Bool → List (CanonicalStreamEvent J) × Next → Type 0
  IsPart gone s (es, goes_on true) = (ts : List Text) × (es ≡ start_events opts s ++ tokens ts)
  IsPart gone s (es, goes_on false) = (es ≡ []) × (s ≡ false)
  IsPart gone s (es, ends throws) = IsCut s es
  IsPart gone s (es, ends returns) = IsWhole s es ⊎ (IsCut s es × (gone ≡ true))

  more_tokens :
      (s : Bool) (es more : List (CanonicalStreamEvent J)) (ts us : List Text)
      (last : List (CanonicalStreamEvent J))
      → es ≡ start_events opts s ++ tokens ts
      → more ≡ tokens us ++ last
      → es ++ more ≡ start_events opts s ++ (tokens (ts ++ us) ++ last)
  more_tokens s es more ts us last e m =
      ap (λ x. x ++ more) e
      ∙ append_assoc (start_events opts s) (tokens ts) more
      ∙ ap (◌++◌ (start_events opts s)) (
          ap (◌++◌ (tokens ts)) m
          ∙ sym (append_assoc (tokens ts) (tokens us) last)
          ∙ ap (λ x. x ++ last) (sym (tokens-append ts us)))

  only_tokens :
      (s : Bool) (es more : List (CanonicalStreamEvent J)) (ts us : List Text)
      → es ≡ start_events opts s ++ tokens ts
      → more ≡ tokens us
      → es ++ more ≡ start_events opts s ++ tokens (ts ++ us)
  only_tokens s es more ts us e m =
      more_tokens s es more ts us [] e (m ∙ sym (append-nil (tokens us)))
      ∙ ap (◌++◌ (start_events opts s)) (append-nil (tokens (ts ++ us)))

  after_tokens-IsCut :
      (s : Bool) (es more : List (CanonicalStreamEvent J)) (ts : List Text)
      → es ≡ start_events opts s ++ tokens ts
      → IsCut true more
      → IsCut s (es ++ more)
  after_tokens-IsCut s es more ts e (inl m) = inr (ts, ap (◌++◌ es) m ∙ append-nil es ∙ e)
  after_tokens-IsCut s es more ts e (inr (us, m)) = inr (ts ++ us, only_tokens s es more ts us e m)

  after_tokens-IsPart :
      (gone s : Bool) (es : List (CanonicalStreamEvent J)) (ts : List Text)
      (q : List (CanonicalStreamEvent J) × Next)
      → es ≡ start_events opts s ++ tokens ts
      → IsPart gone true q
      → IsPart gone s (es ++ q.0, q.1)
  after_tokens-IsPart gone s es ts (more, goes_on true) e (us, m) =
      (ts ++ us, only_tokens s es more ts us e m)
  after_tokens-IsPart gone s es ts (more, goes_on false) e (m, x) = absurd (cc x)
  after_tokens-IsPart gone s es ts (more, ends throws) e m = after_tokens-IsCut s es more ts e m
  after_tokens-IsPart gone s es ts (more, ends returns) e (inl (us, n, m)) =
      inl (ts ++ us, n, more_tokens s es more ts us (end_events opts n) e m)
  after_tokens-IsPart gone s es ts (more, ends returns) e (inr (m, g)) =
      inr (after_tokens-IsCut s es more ts e m, g)

  and_then-IsPart :
      (gone s : Bool) (p : List (CanonicalStreamEvent J) × Next)
      (f : Bool → List (CanonicalStreamEvent J) × Next)
      → IsPart gone s p
      → ((s' : Bool) → IsPart gone s' (f s'))
      → IsPart gone s (and_then opts p f)
  and_then-IsPart gone s (es, ends returns) f h k = h
  and_then-IsPart gone s (es, ends throws) f h k = h
  and_then-IsPart gone s (es, goes_on true) f (ts, e) k =
      after_tokens-IsPart gone s es ts (f true) e (k true)
  and_then-IsPart gone s (es, goes_on false) f (e, c) k =
      subst (λ x. IsPart gone s (x ++ (f false).0, (f false).1)) (sym e)
        (subst (λ b. IsPart gone b (f false)) (sym c) (k false))

module _ (J : Type 0) (opts : Opts) where
  abbrev pub Part : Bool → Bool → List (CanonicalStreamEvent J) × Next → Type 0
  Part = IsPart opts

  caught-IsPart :
      (gone s c : Bool) → (c ≡ true → gone ≡ true) → Part gone s ([], ends (caught_by c))
  caught-IsPart gone s true g = inr (inl refl, g refl)
  caught-IsPart gone s false g = inl refl

  line_events-IsPart :
      (gone s : Bool) (line : Line) (done : Bool) → Part gone s (line_events opts line s done)
  line_events-IsPart gone s line true = inl ([], line.eval_count, refl)
  line_events-IsPart gone s line false = (
    line.content ∷ [],
    ap (◌++◌ (start_events {J = J} opts s))
        (sym (append-nil (token_events {J = J} opts line.content))),
  )

  parsed_line-IsPart :
      (gone s : Bool) (parsed : Option Line)
      → (opts.aborted_in_catch ≡ true → gone ≡ true)
      → Part gone s (parsed_line opts parsed s)
  parsed_line-IsPart gone s none g = caught-IsPart gone s opts.aborted_in_catch g
  parsed_line-IsPart gone s (some line) g = line_events-IsPart gone s line line.done

  started_or_not : (gone s : Bool) → Part gone s ([], goes_on s)
  started_or_not gone true = ([], refl)
  started_or_not gone false = (refl, refl)

  unless_blank-IsPart :
      (gone s : Bool) (raw : Text) (blank : Bool)
      → (opts.aborted_in_catch ≡ true → gone ≡ true)
      → Part gone s (unless_blank opts raw s blank)
  unless_blank-IsPart gone s raw true g = started_or_not gone s
  unless_blank-IsPart gone s raw false g = parsed_line-IsPart gone s (opts.parse raw) g

  lines_loop-IsPart :
      (gone : Bool) (ls : List Text) (s : Bool)
      → (opts.aborted_in_catch ≡ true → gone ≡ true)
      → Part gone s (lines_loop opts ls s)
  lines_loop-IsPart gone [] s g = started_or_not gone s
  lines_loop-IsPart gone (l ∷ ls) s g =
      and_then-IsPart opts gone s (line_step opts l s) (lines_loop opts ls)
        (unless_blank-IsPart gone s l (all_blank l) g) (λ s'. lines_loop-IsPart gone ls s' g)

  end_part-IsPart :
      (gone s : Bool) → (opts.aborted_in_catch ≡ true → gone ≡ true) → Part gone s (end_part opts s)
  end_part-IsPart gone true g = inl ([], 0, refl)
  end_part-IsPart gone false g = caught-IsPart gone false opts.aborted_in_catch g

  pub reads_loop-IsPart :
      (gone : Bool) (reads : Reads) (buffer : Text) (s : Bool)
      → (opts.aborted_in_catch ≡ true → gone ≡ true)
      → (aborts reads ≡ true → gone ≡ true)
      → Part gone s (reads_loop opts reads buffer s)
  reads_loop-IsPart gone at_end buffer s g k = end_part-IsPart gone s g
  reads_loop-IsPart gone read_fails buffer s g k = caught-IsPart gone s opts.aborted_in_catch g
  reads_loop-IsPart gone aborted_before buffer s g k = inr (inl refl, k refl)
  reads_loop-IsPart gone (piece t rest) buffer s g k =
      let (ls, left) = whole_lines (buffer ++ t) in
      and_then-IsPart opts gone s (lines_loop opts ls s) (reads_loop opts rest left)
        (lines_loop-IsPart gone ls s g) (λ s'. reads_loop-IsPart gone rest left s' g k)

  abbrev pub Ends : List (CanonicalStreamEvent J) × Next → Type 0
  Ends q = (e : Ending) × (q.1 ≡ ends e)

  and_then-Ends :
      (p : List (CanonicalStreamEvent J) × Next) (f : Bool → List (CanonicalStreamEvent J) × Next)
      → ((s : Bool) → Ends (f s))
      → Ends (and_then opts p f)
  and_then-Ends (es, ends e) f h = (e, refl)
  and_then-Ends (es, goes_on s) f h = h s

  pub reads_loop-Ends :
      (reads : Reads) (buffer : Text) (s : Bool) → Ends (reads_loop opts reads buffer s)
  reads_loop-Ends at_end buffer true = (returns, refl)
  reads_loop-Ends at_end buffer false = (caught opts, refl)
  reads_loop-Ends read_fails buffer s = (caught opts, refl)
  reads_loop-Ends aborted_before buffer s = (returns, refl)
  reads_loop-Ends (piece t rest) buffer s =
      let (ls, left) = whole_lines (buffer ++ t) in
      and_then-Ends (lines_loop opts ls s) (reads_loop opts rest left) (reads_loop-Ends rest left)
