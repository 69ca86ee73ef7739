-- ===== src/Context/Window.antt =====
-- The window that router/src/providers/context-provider.ts provides: what it keeps, and how its size
-- is estimated.
use local_llms.Base.{
  ℕ, zero, suc, ◌+◌, ◌-◌, ◌≤◌, ◌≡◌, refl, sym, ap, ◌∙◌, subst, Bool, true, false, Option, none, ◌⊎◌,
  inl, inr, some, List, [], ◌∷◌, ◌++◌, Text, length, drop, if◌then◌else◌, length-append,
  length-drop, arith,
}
use local_llms.Canonical.{CanonicalMessage}
use local_llms.Tokens.{Encoder}
use local_llms.Context.Turns.{Turn, or_else, sorted_history, history_messages, system_of}
use local_llms.Context.Turns.Sorting.{IsSortOf, sorted_history-IsSortOf}
use local_llms.Context.Counting.{
  Fails, messages_texts, system_texts, system_counts, per_message_counts, drop-Fails,
  append_left-Fails, append_right-Fails,
}
use local_llms.Context.{
  provided, incoming_dropped, tokenizer_throws, trimmed_by, if_counted, finished, ContextStrategy,
  truncate, sliding_window, ProvideContextOpts, ProvideContextResult, budget_of, strategy_of, Item,
  with_refs, messages_of, refs_of, cap_by, trim_tokens, all_included, system_count,
  per_message_tokens, total, trimmed, finish, provide_context,
}
use local_llms.Context.Trim.{
  cap_turns-drop, trim_tokens-drop, drop-append_left, messages_of-drop, messages_of-with_refs,
  length-with_refs, all_included-append, all_included_self,
}

drop_nil : {A : Type 0} (n : ℕ) → drop {A = A} n [] ≡ []
drop_nil zero = refl
drop_nil (suc n) = refl

drop-drop : {A : Type 0} (c d : ℕ) (xs : List A) → drop d (drop c xs) ≡ drop (c + d) xs
drop-drop zero d xs = let same : d ≡ 0 + d = omega arith in ap (λ n. drop n xs) same
drop-drop (suc c) d [] = drop_nil d ∙ sym (drop_nil (suc c + d))
drop-drop (suc c) d (x ∷ xs) =
    let shift : suc (c + d) ≡ suc c + d = omega arith in
    drop-drop c d xs ∙ ap (λ n. drop n (x ∷ xs)) shift

module _ {J : Type 0} where
  pub cap_by-drop :
      (strategy : ContextStrategy) (n : ℕ) (is : List (Item J))
      → n ≤ length is
      → ((cap_by strategy n is).1 ≡ drop (cap_by strategy n is).0 is)
        × ((cap_by strategy n is).0 + n ≤ length is)
  unfolding cap_by
  cap_by-drop truncate n is h = cap_turns-drop n is h
  cap_by-drop sliding_window n is h = (refl, omega (arith, h))

  module _ (en : Encoder J) where
    -- Behind the older items the newer ones are kept whole.
    pub trimmed_by-drop :
        (opts : ProvideContextOpts) (xs ys : List (Item J)) (base : ℕ) (counts : List ℕ)
        → let t =
            trimmed_by en opts
              (length ys)
              (cap_by (strategy_of opts) (length ys) (xs ++ ys))
              base
              counts in
          (t.2 ≡ drop t.0 xs ++ ys) × (t.0 ≤ length xs)
    unfolding trimmed_by
    trimmed_by-drop opts xs ys base counts =
        let n = length ys in
        let whole = length-append xs ys in
        let cap = cap_by (strategy_of opts) n (xs ++ ys) in
        let (e, le) = cap_by-drop (strategy_of opts) n (xs ++ ys) (omega (arith, whole)) in
        let items = e ∙ drop-append_left cap.0 xs ys le in
        let size : length cap.1 ≡ length (xs ++ ys) - cap.0 =
          ap length e ∙ length-drop cap.0 (xs ++ ys) in
        let running = base + total en counts in
        let trim = trim_tokens n (budget_of opts) running counts cap.1 in
        let (f, le') =
          trim_tokens-drop n (budget_of opts) running counts cap.1 (omega (arith, size, le)) in
        let fits : trim.0 + n ≤ length (drop cap.0 xs ++ ys) =
          subst (λ is. trim.0 + n ≤ length is) items le' in
        let rest = f ∙ ap (drop trim.0) items ∙ drop-append_left trim.0 (drop cap.0 xs) ys fits in
        (
          rest ∙ ap (λ is. is ++ ys) (drop-drop cap.0 trim.0 xs),
          omega (arith, whole, size, le, le'),
        )

    abbrev pub result : Option Bool → Option Text → ℕ × ℕ × List (Item J) → ProvideContextResult J
    result pending system (d, n, rest) = record {
      messages = messages_of rest;
      system = system;
      dropped_count = d;
      estimated_tokens = n;
      has_pending_tool_call = or_else pending false;
    }

    finish_lem :
        (pending : Option Bool) (system : Option Text) (incoming : List (CanonicalMessage J))
        (trim : ℕ × ℕ × List (Item J))
        → all_included (refs_of trim.2) (refs_of (with_refs 0 incoming)) ≡ true
        → finish en system (or_else pending false) incoming trim
          ≡ provided (result pending system trim)
    unfolding finish
    finish_lem pending system incoming (d, n, rest) e =
        ap (λ b. if b then provided (result pending system (d, n, rest)) else incoming_dropped) e

    -- The items that the trim starts from: older ones, then incoming ones, under the cap.
    abbrev pub older_items : List (Turn J) → List (CanonicalMessage J) → List (Item J)
    older_items history incoming =
        with_refs (length (with_refs {J = J} 0 incoming))
          (history_messages (sorted_history history))

    abbrev pub capped :
        List (Turn J) → List (CanonicalMessage J) → ProvideContextOpts → ℕ × List (Item J)
    capped history incoming opts =
        let ys = with_refs 0 incoming in
        cap_by (strategy_of opts) (length ys) (older_items history incoming ++ ys)

    abbrev pub trim_of :
        List (Turn J)
        → List (CanonicalMessage J)
        → ProvideContextOpts
        → ℕ
        → List ℕ
        → ℕ × ℕ × List (Item J)
    trim_of history incoming opts base counts =
        trimmed_by en opts (length (with_refs {J = J} 0 incoming)) (capped history incoming opts)
          base counts

    -- The texts whose tokens the call may count.
    abbrev pub counted_texts : List (Turn J) → List (CanonicalMessage J) → Option Text → List Text
    counted_texts history incoming system =
        system_texts en (system_of history system)
        ++ messages_texts en (history_messages (sorted_history history) ++ incoming)

    -- The counts and the result, or a text that the tokenizer throws on.
    abbrev pub Provides :
        List (Turn J) → List (CanonicalMessage J) → Option Text → ProvideContextOpts → Type 0
    Provides history incoming system opts =
        ((base : ℕ) × (counts : List ℕ) × (system_count en opts.backend_model
              (system_of history system)
            ≡ some base)
          × (per_message_tokens en opts.backend_model (capped history incoming opts).1
              ≡ some counts)
          × (provide_context en history incoming system opts
              ≡ provided (
                  result opts.has_pending_tool_call (system_of history system)
                    (trim_of history incoming opts base counts))))
        ⊎ (Fails en (counted_texts history incoming system)
            × (provide_context en history incoming system opts ≡ tokenizer_throws))

    finished_lem :
        (history : List (Turn J)) (incoming : List (CanonicalMessage J)) (system : Option Text)
        (opts : ProvideContextOpts)
        → provide_context en history incoming system opts
          ≡ finished en
              (system_of history system)
              (or_else opts.has_pending_tool_call false)
              incoming
              (if_counted en opts
                (length (with_refs {J = J} 0 incoming))
                (capped history incoming opts)
                (system_count en opts.backend_model (system_of history system))
                (per_message_tokens en opts.backend_model (capped history incoming opts).1))
    unfolding provide_context trimmed
    finished_lem history incoming system opts = refl

    throws_lem :
        (system : Option Text) (pending : Bool) (incoming : List (CanonicalMessage J))
        → finished en system pending incoming none ≡ tokenizer_throws
    unfolding finished
    throws_lem system pending incoming = refl

    counted_lem :
        (system : Option Text) (pending : Bool) (incoming : List (CanonicalMessage J))
        (trim : ℕ × ℕ × List (Item J))
        → finished en system pending incoming (some trim) ≡ finish en system pending incoming trim
    unfolding finished
    counted_lem system pending incoming trim = refl

    capped-Fails :
        (history : List (Turn J)) (incoming : List (CanonicalMessage J)) (opts : ProvideContextOpts)
        → Fails en (messages_texts en (messages_of (capped history incoming opts).1))
        → Fails en (messages_texts en (history_messages (sorted_history history) ++ incoming))
    capped-Fails history incoming opts h =
        let ys = with_refs 0 incoming in
        let older = history_messages (sorted_history history) in
        let xs = older_items history incoming in
        let (e, le) =
          cap_by-drop (strategy_of opts) (length ys) (xs ++ ys)
            (omega (arith, length-append xs ys)) in
        let all : messages_of (xs ++ ys) ≡ older ++ incoming =
          messages_of-drop 0 (length ys) older ys
          ∙ ap (λ ms. older ++ ms) (messages_of-with_refs 0 incoming) in
        subst (λ ms. Fails en (messages_texts en ms)) all
          (drop-Fails en (capped history incoming opts).0 (xs ++ ys)
            (subst (λ is. Fails en (messages_texts en (messages_of is))) e h))

    pub provide_cases :
        (history : List (Turn J)) (incoming : List (CanonicalMessage J)) (system : Option Text)
        (opts : ProvideContextOpts)
        → Provides history incoming system opts
    provide_cases history incoming system opts =
        let ys = with_refs 0 incoming in
        let xs = older_items history incoming in
        let cap = capped history incoming opts in
        let model = opts.backend_model in
        let system' = system_of history system in
        let pending = or_else opts.has_pending_tool_call false in
        let start = finished_lem history incoming system opts in
        let per = per_message_tokens en model cap.1 in
        elim (system_counts en model system') [
          | inr (f, b) ↦ inr (
            append_left-Fails en (system_texts en system') _ f,
            start
                ∙ ap
                    (λ o.
                      finished en system' pending incoming
                        (if_counted en opts (length ys) cap o per))
                    b
                ∙ throws_lem system' pending incoming,
          )
          | inl (base, b) ↦ elim (per_message_counts en model cap.1) [
            | inr (f, c) ↦ inr (
              append_right-Fails en (system_texts en system') _
                  (capped-Fails history incoming opts f),
              start
                  ∙ ap
                      (λ o.
                        finished en system' pending incoming
                          (if_counted en opts (length ys) cap o per))
                      b
                  ∙ ap
                      (λ o.
                        finished en system' pending incoming
                          (if_counted en opts (length ys) cap (some base) o))
                      c
                  ∙ throws_lem system' pending incoming,
            )
            | inl (counts, c) ↦
                let trim = trim_of history incoming opts base counts in
                let (e, le) = trimmed_by-drop opts xs ys base counts in
                inl (
                  base,
                  counts,
                  b,
                  c,
                  start
                      ∙ ap
                          (λ o.
                            finished en system' pending incoming
                              (if_counted en opts (length ys) cap o per))
                          b
                      ∙ ap
                          (λ o.
                            finished en system' pending incoming
                              (if_counted en opts (length ys) cap (some base) o))
                          c
                      ∙ counted_lem system' pending incoming trim
                      ∙ finish_lem opts.has_pending_tool_call system' incoming trim (
                          subst (λ is. all_included (refs_of is) (refs_of ys) ≡ true) (sym e)
                            (all_included-append (drop trim.0 xs) ys (refs_of ys)
                              (all_included_self (refs_of ys)))),
                )
          ]
        ]

    -- If the tokenizer throws on a text that is counted, the system prompt, a text of the history or
    -- of the incoming messages, or the empty text beside the system prompt, the provider may throw
    -- that error. It throws no other: else it keeps every incoming message, behind what is left of
    -- the history after the oldest messages are dropped, as many as it reports. The history is in
    -- the order of the turns' indices, and turns of one index are as they were.
    pub provide_context-drop :
        (history : List (Turn J)) (incoming : List (CanonicalMessage J)) (system : Option Text)
        (opts : ProvideContextOpts)
        → ((r : ProvideContextResult J) × (turns : List (Turn J)) × (provide_context en history
                incoming system opts
              ≡ provided r)
            × IsSortOf history turns
            × (r.messages ≡ drop r.dropped_count (history_messages turns) ++ incoming)
            × (r.dropped_count ≤ length (history_messages turns))
            × (r.system ≡ system_of history system))
          ⊎ (Fails en (counted_texts history incoming system)
              × (provide_context en history incoming system opts ≡ tokenizer_throws))
    provide_context-drop history incoming system opts =
        elim (provide_cases history incoming system opts) [
          | inr f ↦ inr f
          | inl (base, counts, b, c, e) ↦
              let ys = with_refs 0 incoming in
              let older = history_messages (sorted_history history) in
              let trim = trim_of history incoming opts base counts in
              let (kept, le) = trimmed_by-drop opts (older_items history incoming) ys base counts in
              let messages : messages_of trim.2 ≡ drop trim.0 older ++ incoming =
                ap messages_of kept
                ∙ messages_of-drop trim.0 (length ys) older ys
                ∙ ap (λ ms. drop trim.0 older ++ ms) (messages_of-with_refs 0 incoming) in
              inl (
                result opts.has_pending_tool_call (system_of history system) trim,
                sorted_history history,
                e,
                sorted_history-IsSortOf history,
                messages,
                subst (λ n. trim.0 ≤ n) (length-with_refs (length ys) older) le,
                refl,
              )
        ]
