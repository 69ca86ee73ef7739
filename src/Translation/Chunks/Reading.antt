-- ===== src/Translation/Chunks/Reading.antt =====
-- The events of openAIChunksToCanonicalEvents (router/src/translation/openai-out.ts) say what the
-- chunks say.
use local_llms.Base.{
  ℕ, true, Option, none, some, List, [], ◌∷◌, ◌++◌, Text, arith, ◌≡◌, refl, ◌∙◌, ap, sym,
  append_assoc, append-nil, Option-cases, Bool-cases, inl, inr, subst,
}
use local_llms.Canonical.Stream.{CanonicalStreamEvent}
use local_llms.Translation.Emit.{◌then_run◌}
use local_llms.Translation.Content.{Call, calls, text_of, calls_of, text_of-append, calls_of-append}
use local_llms.Translation.Chunks.{
  Opts, State, initial, ToolState, Chunk, ChunkUsage, Yields, closing_events, close_text,
  close_tools, start_message, choice_part, delta_of_usage, stop_message, usage_part, chunk_step,
  chunks_loop, end_part, openai_chunks_to_canonical_events,
}
use local_llms.Translation.Chunks.Content.{
  choice_text, choice_calls, chunks_text, chunks_calls, is_usage_last, by_block, by_slot,
  same_calls,
}
use local_llms.Translation.Chunks.Says.{
  Live, Says, close_text_quiet, start_message-Says, choice_part-Says, then_run-Says,
}

-- Events that say nothing.
abbrev Quiet : {J : Type 0} → List (CanonicalStreamEvent J) → Type 0
Quiet es = (text_of es ≡ []) × ((m : List (ℕ × Call)) → calls_of es m ≡ some m)

-- Events from the state `s` on say the text `t`, and the tool calls that `f` makes.
abbrev Tells :
    {J : Type 0}
    → State
    → List (CanonicalStreamEvent J)
    → Text
    → (List (ℕ × Call) → List (ℕ × Call))
    → Type 0
Tells s es t f =
    (text_of es ≡ t)
    × ((m : List (ℕ × Call)) × (calls_of es (by_block s.tool_call_state) ≡ some m)
        × (calls m ≡ calls (f (by_slot s.tool_call_state))))

module _ {J : Type 0} where
  append-Quiet : (es es' : List (CanonicalStreamEvent J)) → Quiet es → Quiet es' → Quiet (es ++ es')
  append-Quiet es es' q q' = (
    text_of-append es es' ∙ rw (q.0, q'.0) refl,
    λ m. calls_of-append es es' m m (q.1 m) ∙ q'.1 m,
  )

  Quiet-Tells : (s : State) (es : List (CanonicalStreamEvent J)) → Quiet es → Tells s es [] (λ m. m)
  Quiet-Tells s es q = (
    q.0,
    (by_block s.tool_call_state, q.1 (by_block s.tool_call_state), same_calls s.tool_call_state),
  )

  append-Tells :
      (s : State) (p : Yields J) (es : List (CanonicalStreamEvent J)) (t t' : Text)
      (f f' : List (ℕ × Call) → List (ℕ × Call))
      → Says s p t f
      → Tells p.0 es t' f'
      → Tells s (p.1 ++ es) (t ++ t') (λ m. f' (f m))
  append-Tells s p es t t' f f' h (e, (m, c, k)) = (
    text_of-append p.1 es ∙ rw (h.text_eq, e) refl,
    (
      m,
      calls_of-append p.1 es (by_block s.tool_call_state) (by_block p.0.tool_call_state) h.calls_eq
          ∙ c,
      k ∙ ap (λ l. calls (f' l)) h.slots_eq,
    ),
  )

module _ (J : Type 0) where
  closing-Quiet : (m : List (ℕ × ToolState)) → Quiet {J = J} (closing_events m)
  closing-Quiet [] = (refl, λ x. refl)
  closing-Quiet ((k, st) ∷ m) =
      let q = closing-Quiet m in
      elim (Bool-cases st.opened) [
        | inl o ↦ rw o (q.0, λ x. q.1 x)
        | inr o ↦ rw o (q.0, λ x. q.1 x)
      ]

  closed-Quiet : (s : State) → Quiet {J = J} (close_text s then_run close_tools).1
  unfolding close_tools
  closed-Quiet s =
      let p = close_text {J = J} s in
      append-Quiet p.1 (close_tools {J = J} p.0).1
        ((close_text_quiet J s []).0, λ m. (close_text_quiet J s m).1)
        (closing-Quiet p.0.tool_call_state)

  usage-Quiet : (u : Option ChunkUsage) (s : State) → Quiet {J = J} (usage_part u s).1
  unfolding usage_part
  usage-Quiet none s = (refl, λ m. refl)
  usage-Quiet (some u) s =
      let p = close_text {J = J} s then_run close_tools in
      append-Quiet p.1 (delta_of_usage u p.0).1 (closed-Quiet s) (refl, λ m. refl)

  end-Quiet : (s : State) → Quiet {J = J} (end_part s).1
  unfolding end_part
  end-Quiet s =
      let p = close_text {J = J} s then_run close_tools in
      append-Quiet p.1 (stop_message p.0).1 (closed-Quiet s) (refl, λ m. refl)

module _ {J : Type 0} (opts : Opts J) where
  body-Says :
      (c : Chunk) (s : State)
      → Live s
      → Says s
          (start_message opts c.id s then_run choice_part opts c.choice)
          (choice_text c.choice)
          (choice_calls c.choice)
  body-Says c s v =
      let h = start_message-Says opts c.id s v in
      then_run-Says s (start_message opts c.id s) (choice_part opts c.choice) []
        (choice_text c.choice) (λ m. m) (choice_calls c.choice) h
        (choice_part-Says opts c.choice (start_message opts c.id s).0 h.live)

  loop-Tells :
      (cs : List Chunk) (s : State)
      → is_usage_last cs ≡ true
      → Live s
      → Tells s (chunks_loop opts cs s then_run end_part).1 (chunks_text cs) (chunks_calls cs)
  unfolding chunks_loop chunk_step
  loop-Tells [] s h v = Quiet-Tells s (end_part {J = J} s).1 (end-Quiet J s)
  loop-Tells (c ∷ []) s h v =
      let p = start_message opts c.id s then_run choice_part opts c.choice in
      let u = usage_part {J = J} c.usage p.0 in
      let e = end_part {J = J} u.0 in
      let shape : (chunks_loop opts (c ∷ []) s then_run end_part).1 ≡ p.1 ++ (u.1 ++ e.1) =
        ap (λ l. l ++ e.1) (append-nil (p.1 ++ u.1)) ∙ append_assoc p.1 u.1 e.1 in
      subst (λ es. Tells s es (choice_text c.choice ++ []) (choice_calls c.choice)) (sym shape)
        (append-Tells s p (u.1 ++ e.1) (choice_text c.choice) [] (choice_calls c.choice) (λ m. m)
          (body-Says c s v)
          (Quiet-Tells p.0 (u.1 ++ e.1)
            (append-Quiet u.1 e.1 (usage-Quiet J c.usage p.0) (end-Quiet J u.0))))
  loop-Tells (c ∷ d ∷ cs) s h v = elim (Option-cases c.usage) [
    | inl n ↦
        let p = start_message opts c.id s then_run choice_part opts c.choice in
        let b = body-Says c s v in
        let L = chunks_loop opts (d ∷ cs) p.0 in
        let e = end_part {J = J} L.0 in
        let h' : is_usage_last (d ∷ cs) ≡ true = ground arith in
        let step : chunk_step opts c s ≡ p =
          simp (chunk_step, usage_part, n) (ap (λ l. (p.0, l)) (append-nil p.1)) in
        let shape : (chunks_loop opts (c ∷ d ∷ cs) s then_run end_part).1 ≡ p.1 ++ (L.1 ++ e.1) =
          ap (λ (q : Yields J). (q then_run chunks_loop opts (d ∷ cs) then_run end_part).1) step
          ∙ append_assoc p.1 L.1 e.1 in
        subst
          (λ es.
            Tells s es (choice_text c.choice ++ chunks_text (d ∷ cs))
              (λ m. chunks_calls (d ∷ cs) (choice_calls c.choice m)))
          (sym shape)
          (append-Tells s p (L.1 ++ e.1) (choice_text c.choice) (chunks_text (d ∷ cs))
            (choice_calls c.choice) (chunks_calls (d ∷ cs)) b (loop-Tells (d ∷ cs) p.0 h' b.live))
    | inr (u, n) ↦ absurd (grind arith)
  ]

  -- Where no chunk but the last brings the usage, the events say the text of the chunks, and their
  -- tool calls in order, each with all its fragments, without a breach.
  pub openai_chunks_tell :
      (cs : List Chunk)
      → is_usage_last cs ≡ true
      → let es = openai_chunks_to_canonical_events opts cs in
        (text_of es ≡ chunks_text cs)
        × ((m : List (ℕ × Call)) × (calls_of es [] ≡ some m)
            × (calls m ≡ calls (chunks_calls cs [])))
  unfolding openai_chunks_to_canonical_events
  openai_chunks_tell cs h =
      loop-Tells cs initial h (record { numbered = tt; counted = refl; opened = tt })
