-- ===== src/Translation/Chunks/Table.antt =====
-- The map of the tool calls in openAIChunksToCanonicalEvents (router/src/translation/openai-out.ts):
-- the n-th entry has the block n, counted from 1.
use local_llms.Base.{
  ℕ, suc, Bool, false, none, some, List, [], ◌∷◌, ◌++◌, ◌≡◌, refl, ◌≤◌, ◌<◌, ◌+◌, ◌==◌, ◌&&◌, ◌||◌,
  if◌then◌else◌, length, arith, ap,
}
use local_llms.Translation.Chunks.{ToolState, get_state, set_state, closed_states}

abbrev pub Numbered : ℕ → List (ℕ × ToolState) → Type 0
Numbered n [] = Unit
Numbered n ((k, st) ∷ m) = (st.block_index ≡ suc n) × Numbered (suc n) m

-- Whether the block `i` is open.
abbrev pub opened_at : ℕ → List (ℕ × ToolState) → Bool
opened_at i [] = false
opened_at i ((k, st) ∷ m) = st.block_index == i && st.opened || opened_at i m

pub opened_at_early :
    (i n : ℕ) (m : List (ℕ × ToolState)) → Numbered n m → i ≤ n → opened_at i m ≡ false
opened_at_early i n [] h l = refl
opened_at_early i n ((k, st) ∷ m) (e, h) l = ground (arith, opened_at_early i (suc n) m)

pub get_state_bound :
    (k n : ℕ) (m : List (ℕ × ToolState)) (st : ToolState)
    → Numbered n m
    → get_state k m ≡ some st
    → n < st.block_index
get_state_bound k n [] st h e = ground arith
get_state_bound k n ((j, old) ∷ m) st (b, h) e = ground (arith, get_state_bound k (suc n) m st)

pub opened_at-get :
    (k n : ℕ) (m : List (ℕ × ToolState)) (st : ToolState)
    → Numbered n m
    → get_state k m ≡ some st
    → opened_at st.block_index m ≡ st.opened
opened_at-get k n [] st h e = ground arith
opened_at-get k n ((j, old) ∷ m) st (b, h) e = ground (
  arith,
  opened_at-get k (suc n) m st,
  opened_at_early st.block_index (suc n) m,
  get_state_bound k (suc n) m st,
)

pub opened_at-set :
    (i k n : ℕ) (m : List (ℕ × ToolState)) (st st' : ToolState)
    → Numbered n m
    → get_state k m ≡ some st
    → st'.block_index ≡ st.block_index
    → opened_at i (set_state k st' m) ≡ (if st.block_index == i then st'.opened else opened_at i m)
opened_at-set i k n [] st st' h e b = ground arith
opened_at-set i k n ((j, old) ∷ m) st st' (b', h) e b = ground (
  arith,
  opened_at-set i k (suc n) m st st',
  opened_at_early i (suc n) m,
  get_state_bound k (suc n) m st,
)

pub set_state-Numbered :
    (k n : ℕ) (m : List (ℕ × ToolState)) (st st' : ToolState)
    → Numbered n m
    → get_state k m ≡ some st
    → st'.block_index ≡ st.block_index
    → Numbered n (set_state k st' m)
set_state-Numbered k n [] st st' h e b = ground arith
set_state-Numbered k n ((j, old) ∷ m) st st' (b', h) e b =
    ground (arith, set_state-Numbered k (suc n) m st st')

pub length-set :
    (k : ℕ) (m : List (ℕ × ToolState)) (st st' : ToolState)
    → get_state k m ≡ some st
    → length (set_state k st' m) ≡ length m
length-set k [] st st' e = ground arith
length-set k ((j, old) ∷ m) st st' e = ground (arith, length-set k m st st')

pub get-set :
    (k : ℕ) (m : List (ℕ × ToolState)) (st : ToolState) → get_state k (set_state k st m) ≡ some st
get-set k [] st = ground arith
get-set k ((j, old) ∷ m) st = ground (arith, get-set k m st)

-- A new key goes to the end.
pub set_state_new :
    (k : ℕ) (m : List (ℕ × ToolState)) (st : ToolState)
    → get_state k m ≡ none
    → set_state k st m ≡ m ++ ((k, st) ∷ [])
set_state_new k [] st e = refl
set_state_new k ((j, old) ∷ m) st e = ground (arith, set_state_new k m st)

pub append-Numbered :
    (k n : ℕ) (m : List (ℕ × ToolState)) (st : ToolState)
    → Numbered n m
    → st.block_index ≡ suc (n + length m)
    → Numbered n (m ++ ((k, st) ∷ []))
append-Numbered k n [] st h b = (omega arith, tt)
append-Numbered k n ((j, old) ∷ m) st (b', h) b =
    (b', append-Numbered k (suc n) m st h (omega arith))

pub opened_at-append :
    (i k : ℕ) (m : List (ℕ × ToolState)) (st : ToolState)
    → st.opened ≡ false
    → opened_at i (m ++ ((k, st) ∷ [])) ≡ opened_at i m
opened_at-append i k [] st e = ground arith
opened_at-append i k ((j, old) ∷ m) st e =
    ap (◌||◌ (old.block_index == i && old.opened)) (opened_at-append i k m st e)

pub closed_states-Numbered :
    (n : ℕ) (m : List (ℕ × ToolState)) → Numbered n m → Numbered n (closed_states m)
closed_states-Numbered n [] h = tt
closed_states-Numbered n ((k, st) ∷ m) (b, h) = (b, closed_states-Numbered (suc n) m h)

pub opened_at-closed : (i : ℕ) (m : List (ℕ × ToolState)) → opened_at i (closed_states m) ≡ false
opened_at-closed i [] = refl
opened_at-closed i ((k, st) ∷ m) = ground (arith, opened_at-closed i m)

pub length-closed : (m : List (ℕ × ToolState)) → length (closed_states m) ≡ length m
length-closed [] = refl
length-closed ((k, st) ∷ m) = ap suc (length-closed m)
