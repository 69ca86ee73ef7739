-- ===== src/Translation/Content.antt =====
-- What the canonical stream events (router/src/translation/canonical.ts) say: the text, and the
-- tool calls by the indices of their blocks.
use local_llms.Base.{
  ℕ, ◌==◌, ◌||◌, Bool, true, false, Option, none, some, List, [], ◌∷◌, ◌++◌, Text, if◌then◌else◌,
  arith, ◌≡◌, refl, ap, sym, ◌∙◌, append_assoc, Option-cases, inl, inr,
}
use local_llms.Canonical.{tool_use}
use local_llms.Canonical.Stream.{
  ContentBlockDelta, text_delta, input_json_delta, CanonicalStreamEvent, message_start,
  content_block_start, content_block_delta, content_block_stop, message_delta, message_stop, ping,
}

pub record Call : Type 0 where
  pub id : Text
  pub name : Text
  pub arguments : Text

abbrev pub extend : Call → Text → Call
extend c p = record c { arguments = c.arguments ++ p }

abbrev pub has_key : ℕ → List (ℕ × Call) → Bool
has_key i [] = false
has_key i ((j, c) ∷ m) = j == i || has_key i m

-- The entry of the key, extended; unchanged where there is none.
abbrev pub extend_at : ℕ → Text → List (ℕ × Call) → List (ℕ × Call)
extend_at i p [] = []
extend_at i p ((j, c) ∷ m) = if j == i then (j, extend c p) ∷ m else (j, c) ∷ extend_at i p m

abbrev pub calls : List (ℕ × Call) → List Call
calls [] = []
calls ((j, c) ∷ m) = c ∷ calls m

abbrev pub delta_text : ContentBlockDelta → Text
delta_text (text_delta t) = t
delta_text (input_json_delta p) = []

module _ {J : Type 0} where
  abbrev pub text_of : List (CanonicalStreamEvent J) → Text
  text_of [] = []
  text_of (content_block_delta i d ∷ es) = delta_text d ++ text_of es
  text_of (_ ∷ es) = text_of es

  -- One event; `none` where a tool call starts at an index that has one, or a fragment comes for
  -- an index that has none.
  abbrev pub call_step : CanonicalStreamEvent J → List (ℕ × Call) → Option (List (ℕ × Call))
  call_step (content_block_start i (tool_use id name input)) m =
      if has_key i m
      then none
      else some (m ++ ((i, record { id = id; name = name; arguments = [] }) ∷ []))
  call_step (content_block_delta i (input_json_delta p)) m =
      if has_key i m then some (extend_at i p m) else none
  call_step _ m = some m

  abbrev pub calls_of : List (CanonicalStreamEvent J) → List (ℕ × Call) → Option (List (ℕ × Call))
  calls_of [] m = some m
  calls_of (e ∷ es) m = elim (call_step e m) [ none ↦ none | some m' ↦ calls_of es m' ]

  pub text_of-append :
      (es es' : List (CanonicalStreamEvent J)) → text_of (es ++ es') ≡ text_of es ++ text_of es'
  text_of-append [] es' = refl
  text_of-append (content_block_delta i d ∷ es) es' =
      ap (◌++◌ (delta_text d)) (text_of-append es es')
      ∙ sym (append_assoc (delta_text d) (text_of es) (text_of es'))
  text_of-append (content_block_start i b ∷ es) es' = text_of-append es es'
  text_of-append (content_block_stop i ∷ es) es' = text_of-append es es'
  text_of-append (message_start u m ∷ es) es' = text_of-append es es'
  text_of-append (message_delta r q u ∷ es) es' = text_of-append es es'
  text_of-append (message_stop ∷ es) es' = text_of-append es es'
  text_of-append (ping ∷ es) es' = text_of-append es es'

  pub calls_of-append :
      (es es' : List (CanonicalStreamEvent J)) (m m' : List (ℕ × Call))
      → calls_of es m ≡ some m'
      → calls_of (es ++ es') m ≡ calls_of es' m'
  calls_of-append [] es' m m' h = ap (calls_of es') (ap (λ o. elim o [ none ↦ m | some z ↦ z ]) h)
  calls_of-append (e ∷ es) es' m m' h = elim (Option-cases (call_step e m)) [
    | inl q ↦ absurd (grind arith)
    | inr (m1, q) ↦
        let ih : calls_of es m1 ≡ some m' → calls_of (es ++ es') m1 ≡ calls_of es' m' =
          calls_of-append es es' m1 m' in
        let h' : calls_of es m1 ≡ some m' = grind arith in rw (calls_of, q) (ih h')
  ]

  pub calls_of-start :
      (i : ℕ) (id name : Text) (input : J) (es : List (CanonicalStreamEvent J))
      (m : List (ℕ × Call))
      → has_key i m ≡ false
      → calls_of (content_block_start i (tool_use id name input) ∷ es) m
        ≡ calls_of es (m ++ ((i, record { id = id; name = name; arguments = [] }) ∷ []))
  calls_of-start i id name input es m h = rw (calls_of, call_step, h) refl

pub calls_of-fragment :
    (J : Type 0) (i : ℕ) (p : Text) (m : List (ℕ × Call))
    → has_key i m ≡ true
    → calls_of {J = J} (content_block_delta i (input_json_delta p) ∷ []) m ≡ some (extend_at i p m)
calls_of-fragment J i p m h = rw (calls_of, call_step, h) refl
