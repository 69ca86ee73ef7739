-- ===== src/Translation/Chunks/Keeps.antt =====
-- The parts of openAIChunksToCanonicalEvents (router/src/translation/openai-out.ts) that open, feed
-- and close blocks, and the blocks of its variables.
use local_llms.Base.{
  ℕ, suc, true, Option, none, some, List, [], ◌∷◌, ◌++◌, Text, ◌≡◌, refl, sym, ◌∙◌, ◌≤◌, ◌==◌,
  if◌then◌else◌, length, arith,
}
use local_llms.Translation.Emit.{◌then_run◌}
use local_llms.Translation.Follow.{Kind, takes_text, takes_json, follow, follow-append}
use local_llms.Translation.Chunks.{
  State, ToolState, Yields, get_state, closing_events, close_text, close_tools, text_part,
  add_fragment,
}
use local_llms.Translation.Chunks.Table.{
  Numbered, opened_at, opened_at_early, get_state_bound, opened_at-get, opened_at-set,
  set_state-Numbered, length-set, closed_states-Numbered, opened_at-closed, length-closed,
}

-- The blocks that the variables say are open.
abbrev pub view : ℕ → State → Option Kind
view i s =
    if i == 0
    then if s.text_block_open then some takes_text else none
    else if opened_at i s.tool_call_state
    then some takes_json
    else none

pub record Inv (s : State) : Type 0 where
  pub numbered : Numbered 0 s.tool_call_state
  pub counted : s.next_tool_block_index ≡ length s.tool_call_state

pub closing_lem :
    (J : Type 0) (i n : ℕ) (m : List (ℕ × ToolState)) (o : Option Kind)
    → Numbered n m
    → i ≤ n
    → follow i o (closing_events {J = J} m) ≡ some o
closing_lem J i n [] o h l = refl
closing_lem J i n ((k, st) ∷ m) o (b, h) l = ground (arith, closing_lem J i (suc n) m o h)

pub closing_closes :
    (J : Type 0) (i n : ℕ) (m : List (ℕ × ToolState))
    → Numbered n m
    → follow i (if opened_at i m then some takes_json else none) (closing_events {J = J} m)
      ≡ some none
closing_closes J i n [] h = refl
closing_closes J i n ((k, st) ∷ m) (b, h) = ground (
  arith,
  closing_closes J i (suc n) m h,
  closing_lem J i (suc n) m none h,
  opened_at_early i (suc n) m h,
)

module _ {J : Type 0} (i : ℕ) where
  -- A part of the body, started in `s`, yields events that agree with the blocks of `s` and with
  -- those of the variables it leaves.
  pub record Keeps (s : State) (p : Yields J) : Type 0 where
    pub inv : Inv p.0
    pub agrees : follow i (view i s) p.1 ≡ some (view i p.0)

  pub then_run-Keeps :
      (s : State) (p : Yields J) (f : State → Yields J)
      → Keeps s p
      → Keeps p.0 (f p.0)
      → Keeps s (p then_run f)
  then_run-Keeps s p f h k = record {
    inv = k.inv;
    agrees = follow-append i (view i s) (view i p.0) p.1 (f p.0).1 h.agrees ∙ k.agrees;
  }

  pub none-Keeps : (s : State) → Inv s → Keeps s (s, [])
  none-Keeps s v = record { inv = v; agrees = refl }

  pub close_text-Keeps : (s : State) → Inv s → Keeps s (close_text s)
  unfolding close_text
  close_text-Keeps s v = record { inv = ground arith; agrees = ground arith }

  pub close_tools-Keeps : (s : State) → Inv s → Keeps s (close_tools s)
  unfolding close_tools
  close_tools-Keeps s v = record {
    inv = record {
      numbered = closed_states-Numbered 0 s.tool_call_state v.numbered;
      counted = v.counted ∙ sym (length-closed s.tool_call_state);
    };
    agrees = ground (
      arith,
      closing_closes J i 0 s.tool_call_state v.numbered,
      closing_lem J i 0 s.tool_call_state (view i s) v.numbered,
      opened_at-closed i s.tool_call_state,
    );
  }

  pub text_part-Keeps : (t : Option Text) (s : State) → Inv s → Keeps s (text_part {J = J} t s)
  unfolding text_part
  text_part-Keeps none s v = none-Keeps s v
  text_part-Keeps (some t) s v = record { inv = ground arith; agrees = ground arith }

  -- The map holds the tool call, and says that its block is open.
  pub add_fragment-Keeps :
      (key : ℕ) (st now : ToolState) (frag : Option Text) (s : State)
      → Inv s
      → get_state key s.tool_call_state ≡ some now
      → now.block_index ≡ st.block_index
      → now.opened ≡ true
      → Keeps s (add_fragment {J = J} key st frag s)
  unfolding add_fragment
  add_fragment-Keeps key st now none s v g b o = none-Keeps s v
  add_fragment-Keeps key st now (some frag) s v g b o =
      let st' : ToolState = record st { opened = true; args_buffer = st.args_buffer ++ frag } in
      record {
        inv = record {
          numbered = set_state-Numbered key 0 s.tool_call_state now st' v.numbered g (sym b);
          counted = v.counted ∙ sym (length-set key s.tool_call_state now st' g);
        };
        agrees = ground (
          arith,
          opened_at-set i key 0 s.tool_call_state now st' v.numbered g (sym b),
          opened_at-get key 0 s.tool_call_state now v.numbered g,
          get_state_bound key 0 s.tool_call_state now v.numbered g,
        );
      }
