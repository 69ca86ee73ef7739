-- ===== src/Translation/Chunks/Says.antt =====
-- What each part of openAIChunksToCanonicalEvents says (router/src/translation/openai-out.ts).
use local_llms.Base.{
  ℕ, suc, ◌<◌, true, false, Option, none, some, List, [], ◌∷◌, ◌++◌, Text, length, length-append,
  arith, ◌≡◌, refl, ◌∙◌, ap, sym, append_assoc, append-nil, Option-cases, Bool-cases, inl, inr, All,
  All-append,
}
use local_llms.Canonical.{tool_use}
use local_llms.Translation.Follow.{fragment_events}
use local_llms.Canonical.Stream.{CanonicalStreamEvent, content_block_start}
use local_llms.Translation.Emit.{◌then_run◌}
use local_llms.Translation.Content.{
  Call, extend_at, text_of, calls_of, text_of-append, calls_of-append, calls_of-fragment,
  calls_of-start,
}
use local_llms.Translation.Chunks.{
  Opts, FinishReason, State, ToolState, ToolCallDelta, Choice, Yields, get_state, set_state, filled,
  noted, close_text, start_message, text_part, open_block, open_tool, add_fragment, known_tool,
  register, first_sighting, tool_call, tool_calls_part, choice_part,
}
use local_llms.Translation.Chunks.Table.{
  Numbered, set_state-Numbered, length-set, set_state_new, append-Numbered,
}
use local_llms.Translation.Chunks.Content.{
  or_empty, spec_new, spec_call, spec_calls, choice_text, choice_calls, call_of, by_block, by_slot,
  by_block-snoc, by_slot-snoc, key_absent, key_present, block_present, block_absent, longer,
  by_slot-set, by_block-set, extend_at_nothing, set_last, extend_last, has_last,
}

-- The tool calls of the variables are numbered, and their blocks open.
pub record Live (s : State) : Type 0 where
  pub numbered : Numbered 0 s.tool_call_state
  pub counted : s.next_tool_block_index ≡ length s.tool_call_state
  pub opened : All (λ (e : ℕ × ToolState). e.1.opened ≡ true) s.tool_call_state

-- A part of the body says the text `t`, and changes the tool calls by `f`.
pub record Says {J : Type 0} (s : State) (p : Yields J) (t : Text)
    (f : List (ℕ × Call) → List (ℕ × Call)) : Type 0 where
  pub live : Live p.0
  pub text_eq : text_of p.1 ≡ t
  pub calls_eq : calls_of p.1 (by_block s.tool_call_state) ≡ some (by_block p.0.tool_call_state)
  pub slots_eq : by_slot p.0.tool_call_state ≡ f (by_slot s.tool_call_state)

get_opened :
    (m : List (ℕ × ToolState)) (k : ℕ) (st : ToolState)
    → All (λ (e : ℕ × ToolState). e.1.opened ≡ true) m
    → get_state k m ≡ some st
    → st.opened ≡ true
get_opened [] k st h e = ground arith
get_opened ((j, old) ∷ m) k st h e = ground (arith, get_opened m k st)

set_opened :
    (m : List (ℕ × ToolState)) (k : ℕ) (st : ToolState)
    → All (λ (e : ℕ × ToolState). e.1.opened ≡ true) m
    → st.opened ≡ true
    → All (λ (e : ℕ × ToolState). e.1.opened ≡ true) (set_state k st m)
set_opened [] k st h e = (e, tt)
set_opened ((j, old) ∷ m) k st h e = ground (arith, set_opened m k st)

module _ {J : Type 0} where
  pub then_run-Says :
      (s : State) (p : Yields J) (q : State → Yields J) (t t' : Text)
      (f f' : List (ℕ × Call) → List (ℕ × Call))
      → Says s p t f
      → Says p.0 (q p.0) t' f'
      → Says s (p then_run q) (t ++ t') (λ m. f' (f m))
  then_run-Says s p q t t' f f' h k = record {
    live = k.live;
    text_eq = text_of-append p.1 (q p.0).1 ∙ rw (h.text_eq, k.text_eq) refl;
    calls_eq =
        calls_of-append p.1 (q p.0).1 (by_block s.tool_call_state) (by_block p.0.tool_call_state)
          h.calls_eq
        ∙ k.calls_eq;
    slots_eq = k.slots_eq ∙ ap f' h.slots_eq;
  }

  silent-Says : (s : State) → Live s → Says {J = J} s (s, []) [] (λ m. m)
  silent-Says s v = record { live = v; text_eq = refl; calls_eq = refl; slots_eq = refl }

  text_part-Says :
      (t : Option Text) (s : State) → Live s → Says {J = J} s (text_part t s) (or_empty t) (λ m. m)
  unfolding text_part
  text_part-Says none s v = silent-Says s v
  text_part-Says (some t) s v = elim (Bool-cases s.text_block_open) [
    | inl o ↦
        rw (text_part, o)
          (record {
            live = record { numbered = v.numbered; counted = v.counted; opened = v.opened };
            text_eq = append-nil t;
            calls_eq = refl;
            slots_eq = refl;
          })
    | inr o ↦
        rw (text_part, o)
          (record {
            live = record { numbered = v.numbered; counted = v.counted; opened = v.opened };
            text_eq = append-nil t;
            calls_eq = refl;
            slots_eq = refl;
          })
  ]

module _ (J : Type 0) where
  pub close_text_keeps :
      (s : State)
      → let s' = (close_text {J = J} s).0 in
        (s'.tool_call_state ≡ s.tool_call_state)
        × (s'.next_tool_block_index ≡ s.next_tool_block_index)
  unfolding close_text
  close_text_keeps s = ground arith

  pub close_text_quiet :
      (s : State) (m : List (ℕ × Call))
      → (text_of {J = J} (close_text s).1 ≡ []) × (calls_of {J = J} (close_text s).1 m ≡ some m)
  unfolding close_text
  close_text_quiet s m = ground arith

fragment_text :
    (J : Type 0) (b : ℕ) (frag : Option Text) → text_of (fragment_events {J = J} b frag) ≡ []
fragment_text J b none = refl
fragment_text J b (some p) = refl

module _ {J : Type 0} (opts : Opts J) where
  known_tool-Says :
      (tc : ToolCallDelta) (st : ToolState) (s : State)
      → Live s
      → get_state tc.index s.tool_call_state ≡ some st
      → Says s (known_tool opts tc st s) [] (extend_at tc.index (or_empty (filled tc.arguments)))
  unfolding known_tool open_tool add_fragment
  known_tool-Says tc st s v g =
      let o = get_opened s.tool_call_state tc.index st v.opened g in
      elim (Option-cases (filled tc.arguments)) [
        | inl e ↦
            rw (known_tool, open_tool, o, e, add_fragment)
              (record {
                live = v;
                text_eq = refl;
                calls_eq = refl;
                slots_eq = sym (extend_at_nothing tc.index (by_slot s.tool_call_state));
              })
        | inr (p, e) ↦
            let m = s.tool_call_state in
            rw (known_tool, open_tool, o, e, add_fragment)
              (record {
                live = record {
                  numbered = set_state-Numbered tc.index 0 m st (longer st p) v.numbered g refl;
                  counted = v.counted ∙ sym (length-set tc.index m st (longer st p) g);
                  opened = set_opened m tc.index (longer st p) v.opened refl;
                };
                text_eq = refl;
                calls_eq =
                    calls_of-fragment J st.block_index p (by_block m)
                      (block_present m tc.index st g)
                    ∙ ap some (sym (by_block-set 0 m tc.index st p v.numbered g));
                slots_eq = by_slot-set m tc.index st p g;
              })
      ]

  -- A tool call that is new, with the events of its first chunk.
  registered :
      (s : State) (p : Yields J) (k : ℕ) (st : ToolState)
      → Live s
      → p.0.tool_call_state ≡ s.tool_call_state ++ ((k, st) ∷ [])
      → p.0.next_tool_block_index ≡ suc s.next_tool_block_index
      → st.block_index ≡ suc s.next_tool_block_index
      → st.opened ≡ true
      → text_of p.1 ≡ []
      → calls_of p.1 (by_block s.tool_call_state)
        ≡ some (by_block s.tool_call_state ++ ((st.block_index, call_of st) ∷ []))
      → Says s p [] (λ m. m ++ ((k, call_of st) ∷ []))
  registered s p k st v tools next b o t c =
      let m = s.tool_call_state in
      record {
        live = record {
          numbered = rw tools (append-Numbered k 0 m st v.numbered (omega (arith, v.counted)));
          counted = rw (tools, next) (omega (arith, v.counted, length-append m ((k, st) ∷ [])));
          opened = rw tools (
              All-append (λ (e : ℕ × ToolState). e.1.opened ≡ true) m ((k, st) ∷ []) v.opened
                (o, tt));
        };
        text_eq = t;
        calls_eq = rw tools (c ∙ ap some (sym (by_block-snoc m k st)));
        slots_eq = rw tools (by_slot-snoc m k st);
      }

  -- The events of a new block, after those that close the text.
  new_block_calls :
      (m : List (ℕ × ToolState)) (b : ℕ) (id name : Text) (frag : Option Text)
      → Numbered 0 m
      → length m < b
      → calls_of {J = J}
          (content_block_start b (tool_use id name opts.empty_object) ∷ fragment_events b frag)
          (by_block m)
        ≡ some
            (by_block m ++ ((b, record { id = id; name = name; arguments = or_empty frag }) ∷ []))
  new_block_calls m b id name none h l =
      calls_of-start b id name opts.empty_object [] (by_block m)
        (block_absent 0 b m h (omega arith))
  new_block_calls m b id name (some p) h l =
      let c : Call = record { id = id; name = name; arguments = [] } in
      let x = block_absent 0 b m h (omega arith) in
      calls_of-start b id name opts.empty_object (fragment_events b (some p)) (by_block m) x
      ∙ calls_of-fragment J b p (by_block m ++ ((b, c) ∷ [])) (has_last (by_block m) b c)
      ∙ ap some (extend_last (by_block m) b c p x)

  -- The fragment of a first chunk, after the opening of its block in the state `s`.
  first_fragment :
      (m : List (ℕ × ToolState)) (k : ℕ) (st : ToolState) (frag : Option Text) (s : State)
      → s.tool_call_state ≡ m ++ ((k, record st { opened = true }) ∷ [])
      → get_state k m ≡ none
      → ((add_fragment {J = J} k st frag s).0.tool_call_state
          ≡ m ++ ((k, longer st (or_empty frag)) ∷ []))
        × ((add_fragment {J = J} k st frag s).0.next_tool_block_index ≡ s.next_tool_block_index)
        × ((add_fragment {J = J} k st frag s).1 ≡ fragment_events st.block_index frag)
  unfolding add_fragment
  first_fragment m k st none s e g = (
    e
        ∙ ap (λ a. m ++ ((k, record st { opened = true; args_buffer = a }) ∷ []))
            (sym (append-nil st.args_buffer)),
    refl,
    refl,
  )
  first_fragment m k st (some p) s e g = (
    ap (set_state k (longer st p)) e ∙ set_last m k (record st { opened = true }) (longer st p) g,
    refl,
    refl,
  )

  register-Says :
      (tc : ToolCallDelta) (id name : Text) (s : State)
      → Live s
      → get_state tc.index s.tool_call_state ≡ none
      → Says s (register opts tc id name s) [] (λ m.
        m
        ++ ((tc.index, record { id = id; name = name; arguments = or_empty (filled tc.arguments) })
            ∷ []))
  unfolding register known_tool open_tool open_block
  register-Says tc id name s v g =
      let m = s.tool_call_state in
      let k = tc.index in
      let b = suc s.next_tool_block_index in
      let frag = filled tc.arguments in
      let st : ToolState = record {
        id = id;
        name = name;
        args_buffer = [];
        block_index = b;
        opened = false;
      } in
      let st1 : ToolState = record st { opened = true } in
      let s' : State = record s { tool_call_state = set_state k st m; next_tool_block_index = b } in
      let p = close_text {J = J} s' in
      let o = open_block opts k st p.0 in
      let (same, next) = close_text_keeps J s' in
      let (quiet, calm) = close_text_quiet J s' (by_block m) in
      let e = ap (set_state k st1) (same ∙ set_state_new k m st g) ∙ set_last m k st st1 g in
      let (tools, next', evs) = first_fragment m k st frag o.0 e g in
      let start : CanonicalStreamEvent J =
        content_block_start b (tool_use id name opts.empty_object) in
      let q = (add_fragment {J = J} k st frag o.0).1 in
      let es = start ∷ fragment_events b frag in
      let shape : (register opts tc id name s).1 ≡ p.1 ++ es =
        append_assoc p.1 (start ∷ []) q ∙ ap (λ l. p.1 ++ (start ∷ l)) evs in
      registered s (register opts tc id name s) k (longer st (or_empty frag)) v tools (next' ∙ next)
        refl refl
        (ap text_of shape
          ∙ text_of-append p.1 es
          ∙ ap (λ t. t ++ text_of es) quiet
          ∙ fragment_text J b frag)
        (ap (λ l. calls_of l (by_block m)) shape
          ∙ calls_of-append p.1 es (by_block m) (by_block m) calm
          ∙ new_block_calls m b id name frag v.numbered (omega (arith, v.counted)))

  tool_call-Says :
      (tc : ToolCallDelta) (s : State) → Live s → Says s (tool_call opts tc s) [] (spec_call tc)
  unfolding tool_call first_sighting
  tool_call-Says tc s v = elim (Option-cases (get_state tc.index s.tool_call_state)) [
    | inl g ↦
        let k = sighted (filled tc.id) (filled tc.name) g in
        simp (tool_call, g)
          (record {
            live = k.live;
            text_eq = k.text_eq;
            calls_eq = k.calls_eq;
            slots_eq = rw (key_absent s.tool_call_state tc.index g) k.slots_eq;
          })
    | inr (st, g) ↦
        let k = known_tool-Says tc st s v g in
        simp (tool_call, g)
          (record {
            live = k.live;
            text_eq = k.text_eq;
            calls_eq = k.calls_eq;
            slots_eq = rw (key_present s.tool_call_state tc.index st g) k.slots_eq;
          })
  ]
    where
      sighted :
          (id name : Option Text)
          → get_state tc.index s.tool_call_state ≡ none
          → Says s (first_sighting opts tc id name s) [] (spec_new tc id name)
      sighted (some id) (some name) g = register-Says tc id name s v g
      sighted (some id) none g = silent-Says s v
      sighted none name g = silent-Says s v

  tool_calls_part-Says :
      (tcs : List ToolCallDelta) (s : State)
      → Live s
      → Says s (tool_calls_part opts tcs s) [] (spec_calls tcs)
  unfolding tool_calls_part
  tool_calls_part-Says [] s v = silent-Says s v
  tool_calls_part-Says (tc ∷ tcs) s v =
      let k = tool_call-Says tc s v in
      then_run-Says s (tool_call opts tc s) (tool_calls_part opts tcs) [] [] (spec_call tc)
        (spec_calls tcs) k (tool_calls_part-Says tcs (tool_call opts tc s).0 k.live)

  pub start_message-Says :
      (id : Text) (s : State) → Live s → Says s (start_message opts id s) [] (λ m. m)
  unfolding start_message
  start_message-Says id s v = elim (Bool-cases s.started) [
    | inl o ↦ simp (start_message, o) (silent-Says s v)
    | inr o ↦
        simp (start_message, o)
          (record {
            live = record { numbered = v.numbered; counted = v.counted; opened = v.opened };
            text_eq = refl;
            calls_eq = refl;
            slots_eq = refl;
          })
  ]

  noted_live :
      (f : Option FinishReason) (s : State)
      → Live s
      → Live (noted f s) × ((noted f s).tool_call_state ≡ s.tool_call_state)
  noted_live none s v = (v, refl)
  noted_live (some f) s v =
      (record { numbered = v.numbered; counted = v.counted; opened = v.opened }, refl)

  pub choice_part-Says :
      (c : Option Choice) (s : State)
      → Live s
      → Says s (choice_part opts c s) (choice_text c) (choice_calls c)
  unfolding choice_part
  choice_part-Says none s v = silent-Says s v
  choice_part-Says (some c) s v =
      let s' = noted c.finish_reason s in
      let (v', e) = noted_live c.finish_reason s v in
      let h = text_part-Says (filled c.content) s' v' in
      let p = text_part {J = J} (filled c.content) s' in
      let k =
        then_run-Says s' p (tool_calls_part opts c.tool_calls) (or_empty (filled c.content)) []
          (λ m. m) (spec_calls c.tool_calls) h (tool_calls_part-Says c.tool_calls p.0 h.live) in
      record {
        live = k.live;
        text_eq = k.text_eq ∙ append-nil (or_empty (filled c.content));
        calls_eq =
            ap (λ m. calls_of (choice_part opts (some c) s).1 (by_block m)) (sym e) ∙ k.calls_eq;
        slots_eq = k.slots_eq ∙ ap (λ m. spec_calls c.tool_calls (by_slot m)) e;
      }
