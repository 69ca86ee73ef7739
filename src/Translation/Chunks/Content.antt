-- ===== src/Translation/Chunks/Content.antt =====
-- What the events of openAIChunksToCanonicalEvents say (router/src/translation/openai-out.ts), and
-- what the chunks say.
use local_llms.Base.{
  ℕ, suc, ◌+◌, ◌<◌, ◌==◌, Bool, true, false, Option, none, some, List, [], ◌∷◌, ◌++◌, Text,
  if◌then◌else◌, length, arith, ◌≡◌, refl, ap, append-nil, Bool-cases, inl, inr,
}
use local_llms.Translation.Content.{Call, extend, has_key, extend_at, calls}
use local_llms.Translation.Chunks.{
  ToolState, ToolCallDelta, Choice, Chunk, get_state, set_state, filled,
}
use local_llms.Translation.Chunks.Table.{Numbered, get_state_bound}

-- The text and the tool calls of the chunks: a slot is new where it comes with an id and a name.
abbrev pub or_empty : Option Text → Text
or_empty none = []
or_empty (some t) = t

abbrev pub spec_new : ToolCallDelta → Option Text → Option Text → List (ℕ × Call) → List (ℕ × Call)
spec_new tc (some id) (some name) m =
    m
    ++ ((tc.index, record { id = id; name = name; arguments = or_empty (filled tc.arguments) })
        ∷ [])
spec_new tc (some id) none m = m
spec_new tc none name m = m

abbrev pub spec_call : ToolCallDelta → List (ℕ × Call) → List (ℕ × Call)
spec_call tc m =
    if has_key tc.index m
    then extend_at tc.index (or_empty (filled tc.arguments)) m
    else spec_new tc (filled tc.id) (filled tc.name) m

abbrev pub spec_calls : List ToolCallDelta → List (ℕ × Call) → List (ℕ × Call)
spec_calls [] m = m
spec_calls (tc ∷ tcs) m = spec_calls tcs (spec_call tc m)

abbrev pub choice_text : Option Choice → Text
choice_text none = []
choice_text (some c) = or_empty (filled c.content)

abbrev pub choice_calls : Option Choice → List (ℕ × Call) → List (ℕ × Call)
choice_calls none m = m
choice_calls (some c) m = spec_calls c.tool_calls m

abbrev pub chunks_text : List Chunk → Text
chunks_text [] = []
chunks_text (c ∷ cs) = choice_text c.choice ++ chunks_text cs

abbrev pub chunks_calls : List Chunk → List (ℕ × Call) → List (ℕ × Call)
chunks_calls [] m = m
chunks_calls (c ∷ cs) m = chunks_calls cs (choice_calls c.choice m)

-- The usage comes with the last chunk, or not at all.
abbrev pub is_usage_last : List Chunk → Bool
is_usage_last [] = true
is_usage_last (c ∷ []) = true
is_usage_last (c ∷ d ∷ cs) = elim c.usage [ none ↦ is_usage_last (d ∷ cs) | some u ↦ false ]

-- The tool calls of the variables, by their blocks and by their slots.
abbrev pub call_of : ToolState → Call
call_of st = record { id = st.id; name = st.name; arguments = st.args_buffer }

abbrev pub by_block : List (ℕ × ToolState) → List (ℕ × Call)
by_block [] = []
by_block ((k, st) ∷ m) = (st.block_index, call_of st) ∷ by_block m

abbrev pub by_slot : List (ℕ × ToolState) → List (ℕ × Call)
by_slot [] = []
by_slot ((k, st) ∷ m) = (k, call_of st) ∷ by_slot m

pub same_calls : (m : List (ℕ × ToolState)) → calls (by_block m) ≡ calls (by_slot m)
same_calls [] = refl
same_calls ((k, st) ∷ m) = ap (◌∷◌ (call_of st)) (same_calls m)

pub by_block-snoc :
    (m : List (ℕ × ToolState)) (k : ℕ) (st : ToolState)
    → by_block (m ++ ((k, st) ∷ [])) ≡ by_block m ++ ((st.block_index, call_of st) ∷ [])
by_block-snoc [] k st = refl
by_block-snoc ((j, old) ∷ m) k st = ap (◌∷◌ (old.block_index, call_of old)) (by_block-snoc m k st)

pub by_slot-snoc :
    (m : List (ℕ × ToolState)) (k : ℕ) (st : ToolState)
    → by_slot (m ++ ((k, st) ∷ [])) ≡ by_slot m ++ ((k, call_of st) ∷ [])
by_slot-snoc [] k st = refl
by_slot-snoc ((j, old) ∷ m) k st = ap (◌∷◌ (j, call_of old)) (by_slot-snoc m k st)

pub key_absent :
    (m : List (ℕ × ToolState)) (k : ℕ) → get_state k m ≡ none → has_key k (by_slot m) ≡ false
key_absent [] k e = refl
key_absent ((j, old) ∷ m) k e = ground (arith, key_absent m k)

pub key_present :
    (m : List (ℕ × ToolState)) (k : ℕ) (st : ToolState)
    → get_state k m ≡ some st
    → has_key k (by_slot m) ≡ true
key_present [] k st e = ground arith
key_present ((j, old) ∷ m) k st e = ground (arith, key_present m k st)

pub block_present :
    (m : List (ℕ × ToolState)) (k : ℕ) (st : ToolState)
    → get_state k m ≡ some st
    → has_key st.block_index (by_block m) ≡ true
block_present [] k st e = ground arith
block_present ((j, old) ∷ m) k st e = ground (arith, block_present m k st)

pub block_absent :
    (n b : ℕ) (m : List (ℕ × ToolState))
    → Numbered n m
    → n + length m < b
    → has_key b (by_block m) ≡ false
block_absent n b [] h l = refl
block_absent n b ((j, old) ∷ m) (e, h) l = ground (arith, block_absent (suc n) b m h)

-- The state of a slot with a longer buffer.
abbrev pub longer : ToolState → Text → ToolState
longer st p = record st { opened = true; args_buffer = st.args_buffer ++ p }

pub by_slot-set :
    (m : List (ℕ × ToolState)) (k : ℕ) (st : ToolState) (p : Text)
    → get_state k m ≡ some st
    → by_slot (set_state k (longer st p) m) ≡ extend_at k p (by_slot m)
by_slot-set [] k st p e = ground arith
by_slot-set ((j, old) ∷ m) k st p e = ground (arith, by_slot-set m k st p)

pub by_block-set :
    (n : ℕ) (m : List (ℕ × ToolState)) (k : ℕ) (st : ToolState) (p : Text)
    → Numbered n m
    → get_state k m ≡ some st
    → by_block (set_state k (longer st p) m) ≡ extend_at st.block_index p (by_block m)
by_block-set n [] k st p h e = ground arith
by_block-set n ((j, old) ∷ m) k st p (b, h) e =
    ground (arith, by_block-set (suc n) m k st p, get_state_bound k (suc n) m st)

pub extend_at_nothing : (k : ℕ) (m : List (ℕ × Call)) → extend_at k [] m ≡ m
extend_at_nothing k [] = refl
extend_at_nothing k ((j, c) ∷ m) = elim (Bool-cases (j == k)) [
  | inl q ↦ rw q (ap (λ a. (j, record c { arguments = a }) ∷ m) (append-nil c.arguments))
  | inr q ↦ rw q (ap (◌∷◌ (j, c)) (extend_at_nothing k m))
]

pub set_last :
    (m : List (ℕ × ToolState)) (k : ℕ) (st st' : ToolState)
    → get_state k m ≡ none
    → set_state k st' (m ++ ((k, st) ∷ [])) ≡ m ++ ((k, st') ∷ [])
set_last [] k st st' e = ground arith
set_last ((j, old) ∷ m) k st st' e = ground (arith, set_last m k st st')

pub extend_last :
    (m : List (ℕ × Call)) (b : ℕ) (c : Call) (p : Text)
    → has_key b m ≡ false
    → extend_at b p (m ++ ((b, c) ∷ [])) ≡ m ++ ((b, extend c p) ∷ [])
extend_last [] b c p h = ground arith
extend_last ((j, d) ∷ m) b c p h = ground (arith, extend_last m b c p)

pub has_last : (m : List (ℕ × Call)) (b : ℕ) (c : Call) → has_key b (m ++ ((b, c) ∷ [])) ≡ true
has_last [] b c = ground arith
has_last ((j, d) ∷ m) b c = ground (arith, has_last m b c)
