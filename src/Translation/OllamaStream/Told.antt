-- ===== src/Translation/OllamaStream/Told.antt =====
-- The text that ollamaNativeChunksToCanonicalEvents yields
-- (router/src/translation/ollama-native-out.ts), from the text that it receives.
use local_llms.Base.{
  ℕ, Bool, true, false, Option, none, some, List, [], ◌∷◌, ◌++◌, Text, ◌≡◌, ◌==◌, refl, sym, ap,
  ◌∙◌, subst, append_assoc, append-nil, if◌then◌else◌, Bool-cases, inl, inr,
}
use local_llms.Canonical.Stream.{CanonicalStreamEvent}
use local_llms.Translation.Content.{text_of, text_of-append}
use local_llms.Translation.OllamaStream.{
  Opts, Line, Reads, at_end, read_fails, aborted_before, piece, Next, goes_on, ends, onto_line,
  whole_lines, start_events, end_events, token_events, line_events, parsed_line, unless_blank,
  line_step, and_then, lines_loop, end_part, reads_loop, all_blank,
}

-- All text up to the end, a failure or an abort.
abbrev pub received : Reads → Text
received at_end = []
received read_fails = []
received aborted_before = []
received (piece t rest) = t ++ received rest

-- The lines that are ended by a newline, from the part of a line already read.
abbrev pub lines_from : Text → Text → List Text
lines_from l [] = []
lines_from l (c ∷ t) =
    let next = lines_from [] t in
    let more = lines_from (l ++ (c ∷ [])) t in if c == 10 then l ∷ next else more

-- A line adds its content, unless it is blank; one that is done, or that cannot be parsed, is the
-- last one and adds nothing.
abbrev unless_done : Bool → Text → Text → Text
unless_done true content rest = []
unless_done false content rest = content ++ rest

abbrev after_line : Bool → Option Line → Text → Text
after_line true line rest = rest
after_line false none rest = []
after_line false (some line) rest = unless_done line.done line.content rest

abbrev told_then : Opts → List Text → Text → Text
told_then opts [] rest = rest
told_then opts (l ∷ ls) rest = after_line (all_blank l) (opts.parse l) (told_then opts ls rest)

-- The text of the lines.
abbrev pub told : Opts → List Text → Text
told opts ls = told_then opts ls []

told_then-append :
    (opts : Opts) (ls ms : List Text) (rest : Text)
    → told_then opts (ls ++ ms) rest ≡ told_then opts ls (told_then opts ms rest)
told_then-append opts [] ms rest = refl
told_then-append opts (l ∷ ls) ms rest =
    ap (after_line (all_blank l) (opts.parse l)) (told_then-append opts ls ms rest)

-- The lines of the buffer, by whether the next character ends one.
abbrev lines_after : ℕ → List Text × Text → Bool → List Text × Text
lines_after c p true = ([] ∷ p.0, p.1)
lines_after c p false = onto_line c p

whole_lines-cons :
    (c : ℕ) (t : Text) → whole_lines (c ∷ t) ≡ lines_after c (whole_lines t) (c == 10)
whole_lines-cons c t = elim (Bool-cases (c == 10)) [ inl e ↦ rw e refl | inr e ↦ rw e refl ]

left_after :
    (c : ℕ) (p : List Text × Text) (b : Bool)
    → (c == 10) ≡ b
    → whole_lines p.1 ≡ ([], p.1)
    → whole_lines (lines_after c p b).1 ≡ ([], (lines_after c p b).1)
left_after c p true e h = h
left_after c ([], rest) false e h =
    whole_lines-cons c rest ∙ ap (lines_after c (whole_lines rest)) e ∙ ap (onto_line c) h
left_after c (l ∷ ls, rest) false e h = h

-- What stays in the buffer has no line that is ended.
left_over : (t : Text) → whole_lines (whole_lines t).1 ≡ ([], (whole_lines t).1)
left_over [] = refl
left_over (c ∷ t) =
    subst (λ r. whole_lines r.1 ≡ ([], r.1)) (sym (whole_lines-cons c t))
      (left_after c (whole_lines t) (c == 10) refl (left_over t))

-- The lines of what a buffer keeps, with more text behind it.
abbrev with_more : List Text × Text → Text → List Text × Text
with_more p y = let q = whole_lines (p.1 ++ y) in (p.0 ++ q.0, q.1)

after_with_more :
    (c : ℕ) (p : List Text × Text) (y : Text) (b : Bool)
    → (c == 10) ≡ b
    → lines_after c (with_more p y) b ≡ with_more (lines_after c p b) y
after_with_more c p y true e = refl
after_with_more c ([], rest) y false e =
    sym (whole_lines-cons c (rest ++ y) ∙ ap (lines_after c (whole_lines (rest ++ y))) e)
after_with_more c (l ∷ ls, rest) y false e = refl

whole_lines-append : (x y : Text) → whole_lines (x ++ y) ≡ with_more (whole_lines x) y
whole_lines-append [] y = refl
whole_lines-append (c ∷ x) y =
    whole_lines-cons c (x ++ y)
    ∙ ap (λ p. lines_after c p (c == 10)) (whole_lines-append x y)
    ∙ after_with_more c (whole_lines x) y (c == 10) refl
    ∙ ap (λ p. with_more p y) (sym (whole_lines-cons c x))

-- A text in front of the first of some lines.
abbrev onto : Text → List Text → List Text
onto l [] = []
onto l (x ∷ xs) = (l ++ x) ∷ xs

onto_nil : (ls : List Text) → onto [] ls ≡ ls
onto_nil [] = refl
onto_nil (x ∷ xs) = refl

onto_more :
    (l : Text) (c : ℕ) (p : List Text × Text) → onto (l ++ (c ∷ [])) p.0 ≡ onto l (onto_line c p).0
onto_more l c ([], rest) = refl
onto_more l c (x ∷ xs, rest) = ap (λ u. u ∷ xs) (append_assoc l (c ∷ []) x)

onto_after :
    (l : Text) (c : ℕ) (t : Text) (b : Bool)
    → lines_from [] t ≡ onto [] (whole_lines t).0
    → lines_from (l ++ (c ∷ [])) t ≡ onto (l ++ (c ∷ [])) (whole_lines t).0
    → (if b then l ∷ lines_from [] t else lines_from (l ++ (c ∷ [])) t)
      ≡ onto l (lines_after c (whole_lines t) b).0
onto_after l c t true h k =
    ap (λ x. x ∷ lines_from [] t) (sym (append-nil l))
    ∙ ap (◌∷◌ (l ++ [])) (h ∙ onto_nil (whole_lines t).0)
onto_after l c t false h k = k ∙ onto_more l c (whole_lines t)

lines_from-onto : (l t : Text) → lines_from l t ≡ onto l (whole_lines t).0
lines_from-onto l [] = refl
lines_from-onto l (c ∷ t) =
    onto_after l c t (c == 10) (lines_from-onto [] t) (lines_from-onto (l ++ (c ∷ [])) t)
    ∙ ap (λ p. onto l p.0) (sym (whole_lines-cons c t))

module _ (J : Type 0) (opts : Opts) where
  -- The text of some events and of what follows them, if anything does.
  abbrev pub joined : List (CanonicalStreamEvent J) × Next → Text → Text
  joined (es, ends e) rest = text_of es
  joined (es, goes_on s) rest = text_of es ++ rest

  token_text : (t : Text) → text_of (token_events {J = J} opts t) ≡ t
  token_text [] = refl
  token_text (c ∷ t) = append-nil (c ∷ t)

  start_text :
      (s : Bool) (es : List (CanonicalStreamEvent J))
      → text_of (start_events opts s ++ es) ≡ text_of es
  start_text true es = refl
  start_text false es = refl

  line_events_told :
      (line : Line) (s done : Bool) (rest : Text)
      → joined (line_events opts line s done) rest ≡ unless_done done line.content rest
  line_events_told line s true rest = start_text s (end_events opts line.eval_count)
  line_events_told line s false rest =
      ap (λ t. t ++ rest) (start_text s (token_events opts line.content) ∙ token_text line.content)

  line_told :
      (raw : Text) (s blank : Bool) (parsed : Option Line) (rest : Text)
      → opts.parse raw ≡ parsed
      → joined (unless_blank opts raw s blank) rest ≡ after_line blank parsed rest
  line_told raw s true parsed rest e = refl
  line_told raw s false none rest e = ap (λ o. joined (parsed_line opts o s) rest) e
  line_told raw s false (some line) rest e =
      ap (λ o. joined (parsed_line opts o s) rest) e ∙ line_events_told line s line.done rest

  and_then_told :
      (p : List (CanonicalStreamEvent J) × Next) (f : Bool → List (CanonicalStreamEvent J) × Next)
      (rest after : Text)
      → ((s : Bool) → joined (f s) rest ≡ after)
      → joined (and_then opts p f) rest ≡ joined p after
  and_then_told (es, ends e) f rest after h = refl
  and_then_told (es, goes_on s) f rest after h = more es (f s) ∙ ap (◌++◌ (text_of es)) (h s)
    where
      more :
          (es : List (CanonicalStreamEvent J)) (q : List (CanonicalStreamEvent J) × Next)
          → joined (es ++ q.0, q.1) rest ≡ text_of es ++ joined q rest
      more es (ms, ends e) = text_of-append es ms
      more es (ms, goes_on s) =
          ap (λ t. t ++ rest) (text_of-append es ms) ∙ append_assoc (text_of es) (text_of ms) rest

  lines_told :
      (ls : List Text) (s : Bool) (rest : Text)
      → joined (lines_loop opts ls s) rest ≡ told_then opts ls rest
  lines_told [] s rest = refl
  lines_told (l ∷ ls) s rest =
      and_then_told (line_step opts l s) (lines_loop opts ls) rest (told_then opts ls rest)
        (λ s'. lines_told ls s' rest)
      ∙ line_told l s (all_blank l) (opts.parse l) (told_then opts ls rest) refl

  end_told : (s : Bool) → joined (end_part opts s) [] ≡ []
  end_told true = refl
  end_told false = refl

  nothing_told :
      (buffer : Text)
      → whole_lines buffer ≡ ([], buffer)
      → [] ≡ told opts (whole_lines (buffer ++ [])).0
  nothing_told buffer h =
      sym (ap (λ b. told opts (whole_lines b).0) (append-nil buffer) ∙ ap (λ p. told opts p.0) h)

  reads_told :
      (reads : Reads) (buffer : Text) (s : Bool)
      → whole_lines buffer ≡ ([], buffer)
      → joined (reads_loop opts reads buffer s) []
        ≡ told opts (whole_lines (buffer ++ received reads)).0
  reads_told at_end buffer s h = end_told s ∙ nothing_told buffer h
  reads_told read_fails buffer s h = nothing_told buffer h
  reads_told aborted_before buffer s h = nothing_told buffer h
  reads_told (piece t rest) buffer s h =
      let p = whole_lines (buffer ++ t) in
      let q = whole_lines (p.1 ++ received rest) in
      and_then_told (lines_loop opts p.0 s) (reads_loop opts rest p.1) [] (told opts q.0)
        (λ s'. reads_told rest p.1 s' (left_over (buffer ++ t)))
      ∙ lines_told p.0 s (told opts q.0)
      ∙ sym (told_then-append opts p.0 q.0 [])
      ∙ ap (λ w. told opts w.0) (sym (whole_lines-append (buffer ++ t) (received rest)))
      ∙ ap (λ u. told opts (whole_lines u).0) (append_assoc buffer t (received rest))

  -- The text of what the loop over the reads yields.
  pub reads_loop-told :
      (reads : Reads)
      → joined (reads_loop opts reads [] false) [] ≡ told opts (lines_from [] (received reads))
  reads_loop-told reads =
      reads_told reads [] false refl
      ∙ ap (told opts)
          (sym (lines_from-onto [] (received reads) ∙ onto_nil (whole_lines (received reads)).0))
