-- ===== src/Context/Counting.antt =====
-- The texts that provideContext of router/src/providers/context-provider.ts has counted, and what
-- happens where the tokenizer throws on one of them.
use local_llms.Base.{
  ℕ, zero, suc, ◌+◌, ◌≡◌, refl, sym, ap, ◌∙◌, subst, arith, Option, none, some, List, [], ◌∷◌, ◌++◌,
  Text, drop, ◌⊎◌, inl, inr,
}
use local_llms.Canonical.{ContentBlock, text, image, tool_use, tool_result, CanonicalMessage}
use local_llms.Tokens.{
  Encoder, added, result_text, block_tokens, content_tokens, messages_tokens, count_tokens,
}
use local_llms.Context.{Item, messages_of, probe, system_count, cons_count, per_message_tokens}

-- A count or a failure.
abbrev pub Counts : {A : Type 0} → Option A → Type 0 → Type 0
Counts {A} o F = ((n : A) × (o ≡ some n)) ⊎ (F × (o ≡ none))

module _ {J : Type 0} (en : Encoder J) where
  -- The tokenizer throws on one of the texts.
  abbrev pub Fails : List Text → Type 0
  Fails [] = ⊥
  Fails (t ∷ ts) = (en.encode t ≡ none) ⊎ Fails ts

  -- The texts that are counted: of a block, of messages, and for a system prompt, which is counted
  -- beside a message with the empty text.
  abbrev pub block_texts : ContentBlock J → List Text
  block_texts (text t) = t ∷ []
  block_texts (image source) = []
  block_texts (tool_use id name input) = en.stringify input ∷ []
  block_texts (tool_result id content is_error) = result_text en content ∷ []

  abbrev pub content_texts : List (ContentBlock J) → List Text
  content_texts [] = []
  content_texts (b ∷ bs) = block_texts b ++ content_texts bs

  abbrev pub messages_texts : List (CanonicalMessage J) → List Text
  messages_texts [] = []
  messages_texts (m ∷ ms) = content_texts m.content ++ messages_texts ms

  abbrev pub system_texts : Option Text → List Text
  system_texts none = []
  system_texts (some s) = s ∷ [] ∷ []

  pub append_left-Fails : (ts us : List Text) → Fails ts → Fails (ts ++ us)
  append_left-Fails [] us h = absurd h
  append_left-Fails (t ∷ ts) us (inl e) = inl e
  append_left-Fails (t ∷ ts) us (inr h) = inr (append_left-Fails ts us h)

  pub append_right-Fails : (ts us : List Text) → Fails us → Fails (ts ++ us)
  append_right-Fails [] us h = h
  append_right-Fails (t ∷ ts) us h = inr (append_right-Fails ts us h)

  encode_counts :
      (t : Text) (o : Option ℕ) → en.encode t ≡ o → Counts (en.encode t) (Fails (t ∷ []))
  encode_counts t none e = inr (inl e, e)
  encode_counts t (some n) e = inl (n, e)

  added_counts :
      (a b : Option ℕ) (ts us : List Text)
      → Counts a (Fails ts)
      → Counts b (Fails us)
      → Counts (added a b) (Fails (ts ++ us))
  added_counts a b ts us (inr (h, e)) k = inr (append_left-Fails ts us h, ap (λ x. added x b) e)
  added_counts a b ts us (inl (m, e)) (inr (h, f)) =
      inr (append_right-Fails ts us h, ap (λ x. added x b) e ∙ ap (added (some m)) f)
  added_counts a b ts us (inl (m, e)) (inl (n, f)) =
      inl (m + n, ap (λ x. added x b) e ∙ ap (added (some m)) f)

  block_counts : (b : ContentBlock J) → Counts (block_tokens en b) (Fails (block_texts b))
  unfolding block_tokens
  block_counts (text t) = encode_counts t (en.encode t) refl
  block_counts (image source) = inl (_, refl)
  block_counts (tool_use id name input) =
      encode_counts (en.stringify input) (en.encode (en.stringify input)) refl
  block_counts (tool_result id content is_error) =
      encode_counts (result_text en content) (en.encode (result_text en content)) refl

  content_counts :
      (bs : List (ContentBlock J)) → Counts (content_tokens en bs) (Fails (content_texts bs))
  unfolding content_tokens
  content_counts [] = inl (0, refl)
  content_counts (b ∷ bs) =
      added_counts (block_tokens en b) (content_tokens en bs) (block_texts b) (content_texts bs)
        (block_counts b) (content_counts bs)

  -- The count of a request with one message alone.
  pub one_message :
      (model : Text) (m : CanonicalMessage J)
      → count_tokens en (probe model none (m ∷ [])) ≡ content_tokens en m.content
  unfolding count_tokens messages_tokens
  one_message model m = one_count (content_tokens en m.content)
    where
      one_count : (o : Option ℕ) → added (some 0) (added (added o (some 0)) (some 0)) ≡ o
      one_count none = refl
      one_count (some n) = ap some (omega arith)

  cons_counts :
      (c : Option ℕ) (cs : Option (List ℕ)) (ts us : List Text)
      → Counts c (Fails ts)
      → Counts cs (Fails us)
      → Counts (cons_count en c cs) (Fails (ts ++ us))
  cons_counts c cs ts us (inr (h, e)) k =
      inr (append_left-Fails ts us h, ap (λ x. cons_count en x cs) e)
  cons_counts c cs ts us (inl (n, e)) (inr (h, f)) =
      inr
        (append_right-Fails ts us h, ap (λ x. cons_count en x cs) e ∙ ap (cons_count en (some n)) f)
  cons_counts c cs ts us (inl (n, e)) (inl (ns, f)) =
      inl (n ∷ ns, ap (λ x. cons_count en x cs) e ∙ ap (cons_count en (some n)) f)

  pub per_message_counts :
      (model : Text) (is : List (Item J))
      → Counts (per_message_tokens en model is) (Fails (messages_texts (messages_of is)))
  unfolding per_message_tokens
  per_message_counts model [] = inl ([], refl)
  per_message_counts model ((r, m) ∷ is) =
      subst
        (λ o.
          Counts (cons_count en o (per_message_tokens en model is))
            (Fails (messages_texts (messages_of ((r, m) ∷ is)))))
        (sym (one_message model m))
        (cons_counts (content_tokens en m.content) (per_message_tokens en model is)
          (content_texts m.content) (messages_texts (messages_of is)) (content_counts m.content)
          (per_message_counts model is))

  -- The count of a system prompt alone.
  pub system_prompt :
      (model : Text) (c : ℕ) (s : Text)
      → system_count en model (some (c ∷ s)) ≡ added (en.encode (c ∷ s)) (en.encode [])
  unfolding system_count count_tokens messages_tokens content_tokens block_tokens
  system_prompt model c s = prompt_count (en.encode (c ∷ s)) (en.encode [])
    where
      prompt_count :
          (a b : Option ℕ)
          → added a (added (added (added b (some 0)) (some 0)) (some 0)) ≡ added a b
      prompt_count none b = refl
      prompt_count (some m) none = refl
      prompt_count (some m) (some n) = ap some (omega arith)

  pub system_counts :
      (model : Text) (system : Option Text)
      → Counts (system_count en model system) (Fails (system_texts system))
  unfolding system_count
  system_counts model none = inl (0, refl)
  system_counts model (some []) = inl (0, refl)
  system_counts model (some (c ∷ s)) =
      subst (λ o. Counts o (Fails (system_texts (some (c ∷ s))))) (sym (system_prompt model c s))
        (added_counts (en.encode (c ∷ s)) (en.encode []) ((c ∷ s) ∷ []) ([] ∷ [])
          (encode_counts (c ∷ s) (en.encode (c ∷ s)) refl) (encode_counts [] (en.encode []) refl))

  pub drop-Fails :
      (k : ℕ) (is : List (Item J))
      → Fails (messages_texts (messages_of (drop k is)))
      → Fails (messages_texts (messages_of is))
  drop-Fails zero is h = h
  drop-Fails (suc k) [] h = h
  drop-Fails (suc k) ((r, m) ∷ is) h =
      append_right-Fails (content_texts m.content) (messages_texts (messages_of is))
        (drop-Fails k is h)
