-- ===== src/Context/Cap.antt =====
-- The cap on turns of the strategy `truncate` in router/src/providers/context-provider.ts.
use local_llms.Base.{
  ℕ, ◌+◌, ◌-◌, ◌≤◌, ◌≡◌, refl, sym, ap, ◌∙◌, subst, Option, List, [], ◌∷◌, ◌++◌, Text, length,
  length-append, length-drop, inl, inr, ◌⊎◌, arith,
}
use local_llms.Canonical.{CanonicalMessage}
use local_llms.Tokens.{Encoder}
use local_llms.Context.Turns.{Turn, system_of}
use local_llms.Context.{
  truncate_max_turns, truncate, ProvideContextOpts, ProvideContextResult, budget_of, strategy_of,
  Item, with_refs, messages_of, cap_by, trim_tokens, total, trimmed_by, provided, provide_context,
}
use local_llms.Context.Trim.{cap_turns_end, trim_tokens-drop, messages_of-with_refs}
use local_llms.Context.Window.{
  result, older_items, trim_of, provide_cases, trimmed_by-drop, cap_by-drop,
}
use local_llms.Context.Estimate.{nothing_before}

module _ {J : Type 0} where
  length-messages_of : (is : List (Item J)) → length (messages_of is) ≡ length is
  length-messages_of [] = refl
  length-messages_of ((r, m) ∷ is) = omega (arith, length-messages_of is)

  module _ (en : Encoder J) where
    trim_of_capped :
        (history : List (Turn J)) (incoming : List (CanonicalMessage J)) (opts : ProvideContextOpts)
        (base : ℕ) (counts : List ℕ)
        → strategy_of opts ≡ truncate
        → let t = trim_of en history incoming opts base counts in
          (length t.2 ≤ truncate_max_turns) ⊎ (t.2 ≡ with_refs 0 incoming)
    unfolding trimmed_by cap_by
    trim_of_capped history incoming opts base counts t =
        let ys = with_refs 0 incoming in
        let xs = older_items en history incoming in
        let n = length ys in
        let items = (cap_by (strategy_of opts) n (xs ++ ys)).1 in
        let trim = trim_tokens n (budget_of opts) (base + total en counts) counts items in
        let (c, size) =
          cap_by-drop (strategy_of opts) n (xs ++ ys) (omega (arith, length-append xs ys)) in
        let left : length items ≡ length (xs ++ ys) - (cap_by (strategy_of opts) n (xs ++ ys)).0 =
          ap length c ∙ length-drop _ (xs ++ ys) in
        let (f, fits) =
          trim_tokens-drop n (budget_of opts) (base + total en counts) counts items
            (omega (arith, left, size)) in
        let shorter : length trim.2 ≡ length items - trim.0 =
          ap length f ∙ length-drop trim.0 items in
        let (e, le) = trimmed_by-drop en opts xs ys base counts in
        let small_or_few =
          subst
            (λ s.
              (length (cap_by s n (xs ++ ys)).1 ≤ truncate_max_turns)
              ⊎ (length (cap_by s n (xs ++ ys)).1 ≤ n))
            (sym t) (cap_turns_end n (xs ++ ys)) in
        elim small_or_few [
          | inl small ↦ inl (omega (arith, small, shorter))
          | inr few ↦ inr (
              e
              ∙ nothing_before en _ ys
                  (subst (λ is. length is ≤ n) e (omega (arith, few, shorter))))
        ]

    -- With the strategy `truncate` at most 100 messages are returned, unless only the incoming
    -- messages are left.
    pub provide_context_capped :
        (history : List (Turn J)) (incoming : List (CanonicalMessage J)) (system : Option Text)
        (opts : ProvideContextOpts) (r : ProvideContextResult J)
        → strategy_of opts ≡ truncate
        → provide_context en history incoming system opts ≡ provided r
        → (length r.messages ≤ 100) ⊎ (r.messages ≡ incoming)
    provide_context_capped history incoming system opts r t p =
        elim (provide_cases en history incoming system opts) [
          | inr (f, e) ↦ absurd (cc (sym p ∙ e))
          | inl (base, counts, b, c, e) ↦
              let trim = trim_of en history incoming opts base counts in
              let q : result en opts.has_pending_tool_call (system_of history system) trim ≡ r =
                cc (sym e ∙ p) in
              subst (λ r. (length r.messages ≤ 100) ⊎ (r.messages ≡ incoming)) q
                (elim (trim_of_capped history incoming opts base counts t) [
                  | inl small ↦ inl (omega (arith, small, length-messages_of trim.2))
                  | inr only ↦ inr (ap messages_of only ∙ messages_of-with_refs 0 incoming)
                ])
        ]
