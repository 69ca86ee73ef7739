-- ===== src/Context/Estimate.antt =====
-- The token estimate of the window of router/src/providers/context-provider.ts.
use local_llms.Base.{
  ℕ, ◌+◌, ◌-◌, ◌≤◌, ◌≡◌, refl, sym, ap, ◌∙◌, subst, ◌&&◌, Option, none, some, List, [], ◌∷◌, ◌++◌,
  Text, length, ltb, length-append, Bool-cases, inl, inr, ◌⊎◌, arith,
}
use local_llms.Canonical.{CanonicalMessage}
use local_llms.Tokens.{Encoder, added, count_tokens, messages_tokens, system_tokens}
use local_llms.Context.Turns.{Turn, system_of}
use local_llms.Context.{
  ProvideContextOpts, ProvideContextResult, provided, tokenizer_throws, budget_of, Item, with_refs,
  messages_of, trim_tokens, probe, system_count, cons_count, per_message_tokens, total, trimmed_by,
  provide_context,
}
use local_llms.Context.Counting.{Fails, one_message, system_prompt}
use local_llms.Context.Trim.{trim_tokens_end, messages_of-with_refs}
use local_llms.Context.Window.{
  result, older_items, capped, trim_of, counted_texts, provide_cases, trimmed_by-drop,
}

module _ {J : Type 0} (en : Encoder J) where
  cons_count-some :
      (c : Option ℕ) (cs : Option (List ℕ)) (ns : List ℕ)
      → cons_count en c cs ≡ some ns
      → (m : ℕ) × (ms : List ℕ) × (c ≡ some m) × (cs ≡ some ms) × (ns ≡ m ∷ ms)
  cons_count-some none cs ns e = absurd (cc e)
  cons_count-some (some m) none ns e = absurd (cc e)
  cons_count-some (some m) (some ms) ns e = (m, ms, refl, refl, cc e)

  messages_tokens-total :
      (model : Text) (is : List (Item J)) (counts : List ℕ)
      → per_message_tokens en model is ≡ some counts
      → messages_tokens en (messages_of is) ≡ some (total en counts)
  unfolding total per_message_tokens messages_tokens
  messages_tokens-total model [] counts e =
      let q : [] ≡ counts = cc e in ap (λ ns. some (total en ns)) q
  messages_tokens-total model ((r, m) ∷ is) counts e =
      let (n, ns, c, cs, q) =
        cons_count-some (count_tokens en (probe model none (m ∷ [])))
          (per_message_tokens en model is) counts e in
      ap (λ o. added o (messages_tokens en (messages_of is))) (sym (one_message en model m) ∙ c)
      ∙ ap (added (some n)) (messages_tokens-total model is ns cs)
      ∙ ap (λ l. some (total en l)) (sym q)

  system_count_lem :
      (model : Text) (system : Option Text)
      → en.encode [] ≡ some 0
      → system_count en model system ≡ system_tokens en system
  unfolding system_count
  system_count_lem model none z = refl
  system_count_lem model (some []) z = refl
  system_count_lem model (some (c ∷ s)) z =
      system_prompt en model c s ∙ ap (added (en.encode (c ∷ s))) z ∙ no_more (en.encode (c ∷ s))
    where
      no_more : (o : Option ℕ) → added o (some 0) ≡ o
      no_more none = refl
      no_more (some n) = ap some (omega arith)

  trim_tokens-total :
      (model : Text) (n budget base running : ℕ) (is : List (Item J)) (counts : List ℕ)
      → per_message_tokens en model is ≡ some counts
      → running ≡ base + total en counts
      → let t = trim_tokens n budget running counts is in
        (left : List ℕ) × (per_message_tokens en model t.2 ≡ some left)
        × (t.1 ≡ base + total en left)
  unfolding trim_tokens per_message_tokens total
  trim_tokens-total model n budget base running [] counts e h =
      let q : [] ≡ counts = cc e in ([], refl, h ∙ ap (λ ns. base + total en ns) (sym q))
  trim_tokens-total model n budget base running ((r, m) ∷ is) counts e h =
      elim (Bool-cases (ltb n (length ((r, m) ∷ is)) && ltb budget running)) [
        | inr off ↦ rw off (counts, e, h)
        | inl on ↦
            let (k, ks, c, cs, q) =
              cons_count-some (count_tokens en (probe model none (m ∷ [])))
                (per_message_tokens en model is) counts e in
            let split : running ≡ base + (k + total en ks) = h ∙ ap (λ ns. base + total en ns) q in
            rw (on, q)
              (trim_tokens-total model n budget base (running - k) is ks cs (omega (arith, split)))
      ]

  pub nothing_before : (zs ys : List (Item J)) → length (zs ++ ys) ≤ length ys → zs ++ ys ≡ ys
  nothing_before [] ys h = refl
  nothing_before (z ∷ zs) ys h = absurd (omega (arith, h, length-append zs ys))

  trim_of-total :
      (history : List (Turn J)) (incoming : List (CanonicalMessage J)) (opts : ProvideContextOpts)
      (base : ℕ) (counts : List ℕ)
      → per_message_tokens en opts.backend_model (capped en history incoming opts).1 ≡ some counts
      → let t = trim_of en history incoming opts base counts in
        (left : List ℕ) × (per_message_tokens en opts.backend_model t.2 ≡ some left)
        × (t.1 ≡ base + total en left)
  unfolding trimmed_by
  trim_of-total history incoming opts base counts c =
      let (left, p, q) =
        trim_tokens-total opts.backend_model (length (with_refs {J = J} 0 incoming))
          (budget_of opts) base (base + total en counts) (capped en history incoming opts).1 counts
          c refl in
      (left, p, q)

  trim_of_fits :
      (history : List (Turn J)) (incoming : List (CanonicalMessage J)) (opts : ProvideContextOpts)
      (base : ℕ) (counts : List ℕ)
      → let t = trim_of en history incoming opts base counts in
        (t.1 ≤ budget_of opts) ⊎ (t.2 ≡ with_refs 0 incoming)
  unfolding trimmed_by
  trim_of_fits history incoming opts base counts =
      let ys = with_refs 0 incoming in
      let n = length ys in
      let items = (capped en history incoming opts).1 in
      let (e, le) = trimmed_by-drop en opts (older_items en history incoming) ys base counts in
      elim (trim_tokens_end n (budget_of opts) (base + total en counts) counts items) [
        | inl fits ↦ inl fits
        | inr short ↦ inr (e ∙ nothing_before _ ys (subst (λ is. length is ≤ n) e short))
      ]

  -- If the tokenizer gives the empty text no token, then either the estimate is the count of a
  -- request with the system prompt and the messages that are returned, and it is within the budget
  -- unless only the incoming messages are left; or the tokenizer throws on a text that is counted,
  -- and so does the call.
  pub provide_context-counts :
      (history : List (Turn J)) (incoming : List (CanonicalMessage J)) (system : Option Text)
      (opts : ProvideContextOpts)
      → en.encode [] ≡ some 0
      → ((r : ProvideContextResult J) × (provide_context en history incoming system opts
            ≡ provided r)
          × (count_tokens en (probe opts.backend_model r.system r.messages)
              ≡ some r.estimated_tokens)
          × ((r.estimated_tokens ≤ budget_of opts) ⊎ (r.messages ≡ incoming)))
        ⊎ (Fails en (counted_texts en history incoming system)
            × (provide_context en history incoming system opts ≡ tokenizer_throws))
  unfolding count_tokens
  provide_context-counts history incoming system opts z =
      elim (provide_cases en history incoming system opts) [
        | inr f ↦ inr f
        | inl (base, counts, b, c, e) ↦
            let system' = system_of history system in
            let trim = trim_of en history incoming opts base counts in
            let (left, p, q) = trim_of-total history incoming opts base counts c in
            let rest = messages_tokens-total opts.backend_model trim.2 left p in
            let prompt : system_tokens en system' ≡ some base =
              sym (system_count_lem opts.backend_model system' z) ∙ b in
            let sum : base + (total en left + 0) ≡ trim.1 = omega (arith, q) in
            inl (
              result en opts.has_pending_tool_call system' trim,
              e,
              ap (λ o. added o (added (messages_tokens en (messages_of trim.2)) (some 0))) prompt
                  ∙ ap (λ o. added (some base) (added o (some 0))) rest
                  ∙ ap some sum,
              elim (trim_of_fits history incoming opts base counts) [
                | inl fits ↦ inl fits
                | inr only ↦ inr (ap messages_of only ∙ messages_of-with_refs 0 incoming)
              ],
            )
      ]
