-- ===== src/Context.antt =====
-- The context window of a session in router/src/providers/context-provider.ts.
pub mod Turns
pub mod Trim
pub mod Counting
pub mod Window
pub mod Estimate
pub mod Cap
mod Tests
use local_llms.Base.{
  ℕ, zero, suc, ◌+◌, ◌-◌, ◌/◌, max, Bool, true, false, ◌&&◌, not, Option, none, some, List, [], ◌∷◌,
  ◌++◌, map, Text, text_eq, includes_text, includes, join_texts, length, drop, ltb, leb,
  if◌then◌else◌,
}
use local_llms.Canonical.{text, user, CanonicalMessage, CanonicalRequest}
use local_llms.Tokens.{Encoder, count_tokens}
use Turns.{Turn, or_else, sorted_history, history_messages, system_of}

abbrev pub truncate_max_turns : ℕ
truncate_max_turns = 100

abbrev default_ctx_size : ℕ
default_ctx_size = 8192

abbrev min_reserve : ℕ
min_reserve = 512

pub data ContextStrategy : Type 0 where
  truncate sliding_window : ContextStrategy

-- The options, with the fields `ctx_size`, `context_strategy` and `backend_model` of the entry.
pub record ProvideContextOpts : Type 0 where
  pub backend_model : Text
  pub ctx_size : Option ℕ
  pub context_strategy : Option ContextStrategy
  pub max_tokens_reserve : Option ℕ
  pub strategy : Option ContextStrategy
  pub has_pending_tool_call : Option Bool

pub record ProvideContextResult (J : Type 0) : Type 0 where
  pub messages : List (CanonicalMessage J)
  pub system : Option Text
  pub dropped_count : ℕ
  pub estimated_tokens : ℕ
  pub has_pending_tool_call : Bool

-- How the call ends: with a result, with the error of its own last test, or with an error of the
-- tokenizer.
pub data Provision (J : Type 0) : Type 0 where
  provided : ProvideContextResult J → Provision J
  incoming_dropped tokenizer_throws : Provision J

pub budget_of : ProvideContextOpts → ℕ
budget_of opts =
    let size = or_else opts.ctx_size default_ctx_size in
    size - or_else opts.max_tokens_reserve (max min_reserve (size / 10))

unfoldable pub strategy_of : ProvideContextOpts → ContextStrategy
strategy_of opts = or_else opts.strategy (or_else opts.context_strategy sliding_window)

-- The reference of a message object, with the message.
abbrev pub Item : Type 0 → Type 0
Item J = ℕ × CanonicalMessage J

-- `shift() ?? 0`.
abbrev first_count : List ℕ → ℕ
first_count [] = 0
first_count (c ∷ cs) = c

-- `evictable.includes(inc)` for each incoming message.
pub all_included : List ℕ → List ℕ → Bool
all_included refs [] = true
all_included refs (r ∷ rs) = includes r refs && all_included refs rs

module _ {J : Type 0} where
  -- Objects that differ have references that differ, counted from `n`.
  abbrev pub with_refs : ℕ → List (CanonicalMessage J) → List (Item J)
  with_refs n [] = []
  with_refs n (m ∷ ms) = (n, m) ∷ with_refs (suc n) ms

  abbrev pub messages_of : List (Item J) → List (CanonicalMessage J)
  messages_of [] = []
  messages_of ((r, m) ∷ is) = m ∷ messages_of is

  abbrev pub refs_of : List (Item J) → List ℕ
  refs_of [] = []
  refs_of ((r, m) ∷ is) = r ∷ refs_of is

  -- The loop of the strategy `truncate`: the number of turns that it drops, and the rest.
  pub cap_turns : ℕ → List (Item J) → ℕ × List (Item J)
  cap_turns incoming [] = (0, [])
  cap_turns incoming (i ∷ is) =
      let rest = cap_turns incoming is in
      if ltb truncate_max_turns (length (i ∷ is)) && ltb incoming (length (i ∷ is))
      then (suc rest.0, rest.1)
      else (0, i ∷ is)

  pub cap_by : ContextStrategy → ℕ → List (Item J) → ℕ × List (Item J)
  unfolding cap_turns
  cap_by truncate incoming is = cap_turns incoming is
  cap_by sliding_window incoming is = (0, is)

  -- The loop on the budget: what it drops, the running count of tokens, and the rest.
  pub trim_tokens : ℕ → ℕ → ℕ → List ℕ → List (Item J) → ℕ × ℕ × List (Item J)
  trim_tokens incoming budget running counts [] = (0, running, [])
  trim_tokens incoming budget running counts (i ∷ is) =
      let rest = trim_tokens incoming budget (running - first_count counts) (drop 1 counts) is in
      if ltb incoming (length (i ∷ is)) && ltb budget running
      then (suc rest.0, rest.1, rest.2)
      else (0, running, i ∷ is)

  -- A request with these messages and nothing else.
  abbrev pub probe : Text → Option Text → List (CanonicalMessage J) → CanonicalRequest J
  probe model system messages = record {
    model = model;
    system = system;
    messages = messages;
    max_tokens = none;
    temperature = none;
    top_p = none;
    top_k = none;
    stop_sequences = none;
    stream = none;
    tools = none;
    tool_choice = none;
  }

-- The estimate with the system prompt alone, which needs a message for the tokenizer.
module _ {J : Type 0} (en : Encoder J) where
  abbrev pub empty_message : CanonicalMessage J
  empty_message = record { role = user; content = text [] ∷ [] }

  pub system_count : Text → Option Text → Option ℕ
  system_count model none = some 0
  system_count model (some []) = some 0
  system_count model (some (c ∷ s)) =
      count_tokens en (probe model (some (c ∷ s)) (empty_message ∷ []))

  abbrev pub cons_count : Option ℕ → Option (List ℕ) → Option (List ℕ)
  cons_count none ns = none
  cons_count (some n) none = none
  cons_count (some n) (some ns) = some (n ∷ ns)

  pub per_message_tokens : Text → List (Item J) → Option (List ℕ)
  per_message_tokens model [] = some []
  per_message_tokens model ((r, m) ∷ is) =
      cons_count (count_tokens en (probe model none (m ∷ []))) (per_message_tokens model is)

  pub total : List ℕ → ℕ
  total [] = 0
  total (n ∷ ns) = n + total ns

  -- The trim on the budget, once the tokens are counted.
  pub trimmed_by : ProvideContextOpts → ℕ → ℕ × List (Item J) → ℕ → List ℕ → ℕ × ℕ × List (Item J)
  unfolding trim_tokens total
  trimmed_by opts incoming (capped, items) base counts =
      let (dropped, final_tokens, rest) =
        trim_tokens incoming (budget_of opts) (base + total counts) counts items in
      (capped + dropped, final_tokens, rest)

  abbrev pub if_counted :
      ProvideContextOpts
      → ℕ
      → ℕ × List (Item J)
      → Option ℕ
      → Option (List ℕ)
      → Option (ℕ × ℕ × List (Item J))
  if_counted opts incoming cap none counts = none
  if_counted opts incoming cap (some base) none = none
  if_counted opts incoming cap (some base) (some counts) =
      some (trimmed_by opts incoming cap base counts)

  -- The trimmed items, with what the two loops drop and the final count.
  pub trimmed :
      ProvideContextOpts → Option Text → ℕ → List (Item J) → Option (ℕ × ℕ × List (Item J))
  unfolding cap_by trimmed_by system_count per_message_tokens
  trimmed opts system incoming evictable =
      let cap = cap_by (strategy_of opts) incoming evictable in
      if_counted opts incoming cap (system_count opts.backend_model system)
        (per_message_tokens opts.backend_model cap.1)

  -- The last test, and the result.
  pub finish : Option Text → Bool → List (CanonicalMessage J) → ℕ × ℕ × List (Item J) → Provision J
  unfolding all_included
  finish system pending incoming_messages (dropped, final_tokens, rest) =
      if all_included (refs_of rest) (refs_of (with_refs 0 incoming_messages))
      then provided record {
        messages = messages_of rest;
        system = system;
        dropped_count = dropped;
        estimated_tokens = final_tokens;
        has_pending_tool_call = pending;
      }
      else incoming_dropped

  abbrev pub finished :
      Option Text → Bool → List (CanonicalMessage J) → Option (ℕ × ℕ × List (Item J)) → Provision J
  unfolding finish
  finished system pending incoming_messages none = tokenizer_throws
  finished system pending incoming_messages (some trim) =
      finish system pending incoming_messages trim

  pub provide_context :
      List (Turn J) → List (CanonicalMessage J) → Option Text → ProvideContextOpts → Provision J
  unfolding trimmed finished
  provide_context history incoming_messages incoming_system opts =
      let incoming = with_refs 0 incoming_messages in
      let older = with_refs (length incoming) (history_messages (sorted_history history)) in
      let system = system_of history incoming_system in
      finished system (or_else opts.has_pending_tool_call false) incoming_messages
        (trimmed opts system (length incoming) (older ++ incoming))
