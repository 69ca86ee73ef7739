-- ===== src/Translation/Responses/Items.antt =====
-- The items of a Responses stream (router/src/translation/responses-stream.ts) for blocks that
-- come one after another.
use local_llms.Base.{
  ℕ, suc, ◌+◌, Option, none, some, List, [], ◌∷◌, ◌++◌, Text, codes, ◌≡◌, refl, sym, ◌∙◌, ap, arith,
  append_assoc, append-nil, length,
}
use local_llms.Canonical.{StopReason, CanonicalResponse, text, tool_use}
use local_llms.Canonical.Stream.{
  text_delta, input_json_delta, CanonicalStreamEvent, content_block_start, content_block_delta,
  content_block_stop, message_start, message_delta, message_stop, DeltaUsage,
}
use local_llms.Translation.Emit.{◌then_run◌}
use local_llms.Translation.Responses.{
  OutputItemState, idle, in_text, in_function_call, OutputItem, message, function_call, Frame,
  response_completed, finished, initial, canonical_to_responses_sse, on_message_start,
  on_message_stop, make_response_envelope, output_item_done, output_text_delta, arguments_delta,
  State, Opts, Yields, emit, on_block_start, on_delta, on_block_stop, on_event, events_loop,
}
use local_llms.Translation.Responses.Terminal.{events_loop-append, frames_end}

-- A block of the answer, with its index and the pieces that the backend sends.
pub data Block (J : Type 0) : Type 0 where
  written : ℕ → Text → List Text → Block J
  called : ℕ → Text → Text → J → List Text → Block J  -- id, name, input

abbrev pub joined : List Text → Text
joined [] = []
joined (t ∷ ts) = t ++ joined ts

module _ {J : Type 0} where
  abbrev pub text_pieces : ℕ → List Text → List (CanonicalStreamEvent J)
  text_pieces i [] = []
  text_pieces i (t ∷ ts) = content_block_delta i (text_delta t) ∷ text_pieces i ts

  abbrev pub json_pieces : ℕ → List Text → List (CanonicalStreamEvent J)
  json_pieces i [] = []
  json_pieces i (t ∷ ts) = content_block_delta i (input_json_delta t) ∷ json_pieces i ts

  abbrev pub block_events : Block J → List (CanonicalStreamEvent J)
  block_events (written i t ts) =
      content_block_start i (text t) ∷ (text_pieces i ts ++ (content_block_stop i ∷ []))
  block_events (called i id name input ts) =
      content_block_start i (tool_use id name input)
      ∷ (json_pieces i ts ++ (content_block_stop i ∷ []))

  abbrev pub blocks_events : List (Block J) → List (CanonicalStreamEvent J)
  blocks_events [] = []
  blocks_events (b ∷ bs) = block_events b ++ blocks_events bs

  -- The item of a block, with the ULID that it takes.
  abbrev pub item_of : Text → Block J → OutputItem
  item_of ulid (written i t ts) = message (codes "msg_" ++ ulid) (joined ts)
  item_of ulid (called i id name input ts) = function_call (codes "fc_" ++ ulid) id name (joined ts)

  abbrev pub items_of : (ℕ → Text) → ℕ → List (Block J) → List OutputItem
  items_of fresh n [] = []
  items_of fresh n (b ∷ bs) = item_of (fresh n) b ∷ items_of fresh (suc n) bs

  -- The items of the frames `response.output_item.done`.
  abbrev pub done_items : List (Frame J) → List OutputItem
  done_items [] = []
  done_items (f ∷ fs) =
      let rest = done_items fs in elim f.body [ output_item_done i item ↦ item ∷ rest | _ ↦ rest ]

  done_items-append :
      (fs gs : List (Frame J)) → done_items (fs ++ gs) ≡ done_items fs ++ done_items gs
  done_items-append [] gs = refl
  done_items-append (f ∷ fs) gs = ground (arith, done_items-append fs gs)

  -- The output in a last frame `response.completed`.
  abbrev pub final_output : List (Frame J) → Option (List OutputItem)
  final_output [] = none
  final_output (f ∷ []) = elim f.body [ response_completed e ↦ some e.output | _ ↦ none ]
  final_output (f ∷ g ∷ fs) = final_output (g ∷ fs)

  final_output-append :
      (fs : List (Frame J)) (f : Frame J) → final_output (fs ++ (f ∷ [])) ≡ final_output (f ∷ [])
  final_output-append [] f = refl
  final_output-append (g ∷ []) f = refl
  final_output-append (g ∷ g' ∷ fs) f = final_output-append (g' ∷ fs) f

-- What is left of the variables, and the items done.
pub record Leaves {J : Type 0} (p : Yields J) (fsm : OutputItemState) (items : List OutputItem)
    (ulids : ℕ) (done : List OutputItem) : Type 0 where
  pub fsm_eq : p.0.fsm ≡ fsm
  pub items_eq : p.0.output_items ≡ items
  pub ulids_eq : p.0.ulids ≡ ulids
  pub done_eq : done_items p.1 ≡ done

module _ {J : Type 0} (opts : Opts J) where
  text_pieces-Leaves :
      (i : ℕ) (ts : List Text) (s : State) (id : Text) (j : ℕ) (acc : Text)
      → s.fsm ≡ in_text id j acc
      → Leaves
          (events_loop opts (text_pieces i ts) s)
          (in_text id j (acc ++ joined ts))
          s.output_items
          s.ulids
          []
  unfolding events_loop on_event on_delta
  text_pieces-Leaves i [] s id j acc h = record {
    fsm_eq = rw (append-nil acc) h;
    items_eq = refl;
    ulids_eq = refl;
    done_eq = refl;
  }
  text_pieces-Leaves i (t ∷ ts) s id j acc h =
      let s' =
        (emit {J = J} (output_text_delta j id t) (record s { fsm = in_text id j (acc ++ t) })).0 in
      let k = text_pieces-Leaves i ts s' id j (acc ++ t) refl in
      rw (events_loop, on_event, on_delta, h)
        (record {
          fsm_eq = k.fsm_eq ∙ ap (in_text id j) (append_assoc acc t (joined ts));
          items_eq = k.items_eq;
          ulids_eq = k.ulids_eq;
          done_eq = k.done_eq;
        })

  json_pieces-Leaves :
      (i : ℕ) (ts : List Text) (s : State) (id : Text) (j : ℕ) (call_id name acc : Text)
      → s.fsm ≡ in_function_call id j call_id name acc
      → Leaves
          (events_loop opts (json_pieces i ts) s)
          (in_function_call id j call_id name (acc ++ joined ts))
          s.output_items
          s.ulids
          []
  unfolding events_loop on_event on_delta
  json_pieces-Leaves i [] s id j call_id name acc h = record {
    fsm_eq = rw (append-nil acc) h;
    items_eq = refl;
    ulids_eq = refl;
    done_eq = refl;
  }
  json_pieces-Leaves i (t ∷ ts) s id j call_id name acc h =
      let s' =
        (emit {J = J} (arguments_delta j id t)
          (record s { fsm = in_function_call id j call_id name (acc ++ t) })).0 in
      let k = json_pieces-Leaves i ts s' id j call_id name (acc ++ t) refl in
      rw (events_loop, on_event, on_delta, h)
        (record {
          fsm_eq =
              k.fsm_eq ∙ ap (in_function_call id j call_id name) (append_assoc acc t (joined ts));
          items_eq = k.items_eq;
          ulids_eq = k.ulids_eq;
          done_eq = k.done_eq;
        })

  then_run-Leaves :
      (p : Yields J) (f : State → Yields J) (fsm fsm' : OutputItemState)
      (items items' : List OutputItem) (u u' : ℕ) (done done' : List OutputItem)
      → Leaves p fsm items u done
      → Leaves (f p.0) fsm' items' u' done'
      → Leaves (p then_run f) fsm' items' u' (done ++ done')
  then_run-Leaves p f fsm fsm' items items' u u' done done' h k = record {
    fsm_eq = k.fsm_eq;
    items_eq = k.items_eq;
    ulids_eq = k.ulids_eq;
    done_eq = done_items-append p.1 (f p.0).1 ∙ (rw (h.done_eq, k.done_eq) refl);
  }

  -- The item of a state machine that is not idle.
  abbrev item_of_fsm : OutputItemState → List OutputItem
  item_of_fsm idle = []
  item_of_fsm (in_text id j acc) = message id acc ∷ []
  item_of_fsm (in_function_call id j call_id name args) = function_call id call_id name args ∷ []

  block_stop-Leaves :
      (i : ℕ) (s : State) (fsm : OutputItemState)
      → s.fsm ≡ fsm
      → Leaves
          (events_loop opts (content_block_stop i ∷ []) s)
          idle
          (s.output_items ++ item_of_fsm fsm)
          s.ulids
          (item_of_fsm fsm)
  unfolding events_loop on_event on_block_stop
  block_stop-Leaves i s idle h =
      rw (events_loop, on_event, on_block_stop, h)
        (record {
          fsm_eq = refl;
          items_eq = sym (append-nil s.output_items);
          ulids_eq = refl;
          done_eq = refl;
        })
  block_stop-Leaves i s (in_text id j acc) h =
      rw (events_loop, on_event, on_block_stop, h)
        (record { fsm_eq = refl; items_eq = refl; ulids_eq = refl; done_eq = refl })
  block_stop-Leaves i s (in_function_call id j call_id name args) h =
      rw (events_loop, on_event, on_block_stop, h)
        (record { fsm_eq = refl; items_eq = refl; ulids_eq = refl; done_eq = refl })

  pieces_stop-Leaves :
      (i : ℕ) (pieces : List (CanonicalStreamEvent J)) (s : State) (fsm : OutputItemState)
      → Leaves (events_loop opts pieces s) fsm s.output_items s.ulids []
      → Leaves
          (events_loop opts (pieces ++ (content_block_stop i ∷ [])) s)
          idle
          (s.output_items ++ item_of_fsm fsm)
          s.ulids
          (item_of_fsm fsm)
  pieces_stop-Leaves i pieces s fsm h =
      let stop : List (CanonicalStreamEvent J) = content_block_stop i ∷ [] in
      let p = events_loop opts pieces s in
      let k = block_stop-Leaves i p.0 fsm h.fsm_eq in
      let r =
        then_run-Leaves p (events_loop opts stop) fsm idle s.output_items
          (p.0.output_items ++ item_of_fsm fsm) s.ulids p.0.ulids [] (item_of_fsm fsm) h k in
      rw (events_loop-append opts pieces stop s) (record {
        fsm_eq = r.fsm_eq;
        items_eq = r.items_eq ∙ ap (λ l. l ++ item_of_fsm fsm) h.items_eq;
        ulids_eq = r.ulids_eq ∙ h.ulids_eq;
        done_eq = r.done_eq;
      })

  block-Leaves :
      (b : Block J) (s : State)
      → let item = item_of (opts.fresh s.ulids) b in
        Leaves
          (events_loop opts (block_events b) s)
          idle
          (s.output_items ++ (item ∷ []))
          (suc s.ulids)
          (item ∷ [])
  unfolding events_loop on_event on_block_start
  block-Leaves (written i t ts) s =
      let id = codes "msg_" ++ opts.fresh s.ulids in
      let s' = (on_event opts (content_block_start i (text t)) s).0 in
      let k =
        pieces_stop-Leaves i (text_pieces i ts) s' (in_text id i (joined ts))
          (text_pieces-Leaves i ts s' id i [] refl) in
      record {
        fsm_eq = k.fsm_eq;
        items_eq = k.items_eq;
        ulids_eq = k.ulids_eq;
        done_eq = k.done_eq;
      }
  block-Leaves (called i call_id name input ts) s =
      let id = codes "fc_" ++ opts.fresh s.ulids in
      let s' = (on_event opts (content_block_start i (tool_use call_id name input)) s).0 in
      let k =
        pieces_stop-Leaves i (json_pieces i ts) s' (in_function_call id i call_id name (joined ts))
          (json_pieces-Leaves i ts s' id i call_id name [] refl) in
      record {
        fsm_eq = k.fsm_eq;
        items_eq = k.items_eq;
        ulids_eq = k.ulids_eq;
        done_eq = k.done_eq;
      }

  blocks-Leaves :
      (bs : List (Block J)) (s : State)
      → s.fsm ≡ idle
      → let items = items_of opts.fresh s.ulids bs in
        Leaves
          (events_loop opts (blocks_events bs) s)
          idle
          (s.output_items ++ items)
          (s.ulids + length bs)
          items
  unfolding events_loop
  blocks-Leaves [] s h = record {
    fsm_eq = h;
    items_eq = sym (append-nil s.output_items);
    ulids_eq = omega arith;
    done_eq = refl;
  }
  blocks-Leaves (b ∷ bs) s h =
      let p = events_loop opts (block_events b) s in
      let item = item_of (opts.fresh s.ulids) b in
      let k = block-Leaves b s in
      let ih = blocks-Leaves bs p.0 k.fsm_eq in
      let r =
        then_run-Leaves p (events_loop opts (blocks_events bs)) idle idle
          (s.output_items ++ (item ∷ [])) (p.0.output_items ++ items_of opts.fresh p.0.ulids bs)
          (suc s.ulids) (p.0.ulids + length bs) (item ∷ []) (items_of opts.fresh p.0.ulids bs) k
          ih in
      let again = ap (λ n. items_of opts.fresh n bs) k.ulids_eq in
      rw (events_loop-append opts (block_events b) (blocks_events bs) s) (record {
        fsm_eq = r.fsm_eq;
        items_eq =
            r.items_eq
            ∙ ap (λ l. l ++ items_of opts.fresh p.0.ulids bs) k.items_eq
            ∙ append_assoc s.output_items (item ∷ []) (items_of opts.fresh p.0.ulids bs)
            ∙ ap (λ l. s.output_items ++ (item ∷ l)) again;
        ulids_eq = r.ulids_eq ∙ omega (arith, k.ulids_eq);
        done_eq = r.done_eq ∙ ap (◌∷◌ item) again;
      })

  -- The whole stream of an answer that has the blocks `bs`.
  abbrev pub answer_events :
      Option Text
      → CanonicalResponse J
      → List (Block J)
      → Option StopReason
      → Option Text
      → DeltaUsage
      → List (CanonicalStreamEvent J)
  answer_events id m bs reason sequence u =
      message_start id m ∷ (blocks_events bs ++ (message_delta reason sequence u ∷ []))

  answer_items :
      (id : Option Text) (m : CanonicalResponse J) (bs : List (Block J))
      (reason : Option StopReason) (sequence : Option Text) (u : DeltaUsage)
      → let r = events_loop opts (answer_events id m bs reason sequence u) (initial opts) in
        (r.0.output_items ≡ items_of opts.fresh 0 bs) × (done_items r.1 ≡ items_of opts.fresh 0 bs)
  unfolding events_loop on_event on_message_start
  answer_items id m bs reason sequence u =
      let s = (on_event opts (message_start id m) (initial opts)).0 in
      let tail : List (CanonicalStreamEvent J) = message_delta reason sequence u ∷ [] in
      let items = items_of opts.fresh 0 bs in
      let k = blocks-Leaves bs s refl in
      let a = events_loop-append opts (blocks_events bs) tail s in
      let p = events_loop opts (blocks_events bs) s in
      (
        ap (λ (q : Yields J). q.0.output_items) a ∙ k.items_eq,
        ap (λ (q : Yields J). done_items q.1) a
            ∙ done_items-append p.1 []
            ∙ append-nil (done_items p.1)
            ∙ k.done_eq,
      )

  -- An answer whose blocks come one after another: the items done are the blocks in order, each
  -- with all its pieces, and the last frame's output lists the same items.
  pub responses_output :
      {E : Type 0} (describe : E → Text) (id : Option Text) (m : CanonicalResponse J)
      (bs : List (Block J)) (reason : Option StopReason) (sequence : Option Text) (u : DeltaUsage)
      → let fs =
          (canonical_to_responses_sse opts describe
            (answer_events id m bs reason sequence u ++ (message_stop ∷ []))
            finished).0 in
        (done_items fs ≡ items_of opts.fresh 0 bs)
        × (final_output fs ≡ some (items_of opts.fresh 0 bs))
  unfolding on_message_stop make_response_envelope
  responses_output describe id m bs reason sequence u =
      let es = answer_events id m bs reason sequence u in
      let r = events_loop opts es (initial opts) in
      let (items_eq, done_eq) = answer_items id m bs reason sequence u in
      rw (frames_end opts describe es) (
        done_items-append r.1 (on_message_stop opts r.0).1 ∙ append-nil (done_items r.1) ∙ done_eq,
        final_output-append r.1 _ ∙ ap some items_eq,
      )
