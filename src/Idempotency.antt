-- ===== src/Idempotency.antt =====
-- The stream of events from the leader of an idempotency key to a follower
-- (router/src/resilience/idempotency.ts). Commands of the Valkey server that fail are left out. The
-- channel of the key is the list of the messages published on it: a follower that subscribes at
-- some moment receives the messages published after it.
pub mod Replay
mod Tests
use local_llms.Base.{
  ℕ, suc, ◌+◌, Bool, true, false, Option, none, some, List, [], ◌∷◌, ◌++◌, length, ltb,
  if◌then◌else◌,
}

pub data TerminalStatus : Type 0 where
  done error aborted : TerminalStatus

-- A stream event with its seq, or a terminal marker.
pub data Message (E : Type 0) : Type 0 where
  live_event : E → Option ℕ → Message E
  marker : TerminalStatus → Message E

-- The list `chunks`, the key `result`, and what has been published.
pub record Keys (E : Type 0) : Type 0 where
  pub chunks : List E
  pub result : Option TerminalStatus
  pub published : List (Message E)

-- What the iterator yields.
pub data Item (E : Type 0) : Type 0 where
  event : E → Item E
  terminal : TerminalStatus → Item E

-- `maxReplayedSeq` is one less than the number of chunks that were replayed.
abbrev is_duplicate_live_event : ℕ → Option ℕ → Bool
is_duplicate_live_event replayed none = false
is_duplicate_live_event replayed (some seq) = ltb seq replayed

-- Before the leader's first event.
abbrev pub no_keys : {E : Type 0} → Keys E
no_keys = record { chunks = []; result = none; published = [] }

module _ {E : Type 0} where
  -- RPUSH replies the new length, so the seq is the length before it.
  pub publish_stream_event : Keys E → E → Keys E
  publish_stream_event k e = record k {
    chunks = k.chunks ++ e ∷ [];
    published = k.published ++ live_event e (some (length k.chunks)) ∷ [];
  }

  pub finalize_stream : Keys E → TerminalStatus → Keys E
  finalize_stream k status = record k {
    result = some status;
    published = k.published ++ marker status ∷ [];
  }

  abbrev pub events : List E → List (Item E)
  events [] = []
  events (e ∷ es) = event e ∷ events es

  -- The loop over `drainQueued`, with the flag `done`.
  pub drain_queued : ℕ → List (Message E) → List (Item E) × Bool
  drain_queued replayed [] = ([], false)
  drain_queued replayed (marker status ∷ ms) =
      let rest = drain_queued replayed ms in (terminal status ∷ rest.0, true)
  drain_queued replayed (live_event e seq ∷ ms) =
      let rest = drain_queued replayed ms in
      if is_duplicate_live_event replayed seq then rest else (event e ∷ rest.0, rest.1)

  -- The loop over `sub.next`, for as long as messages come.
  pub wait_live : ℕ → List (Message E) → List (Item E)
  wait_live replayed [] = []
  wait_live replayed (marker status ∷ ms) = terminal status ∷ []
  wait_live replayed (live_event e seq ∷ ms) =
      let rest = wait_live replayed ms in
      if is_duplicate_live_event replayed seq then rest else event e ∷ rest

  pub after_drain : ℕ → List (Message E) → List (Item E) × Bool → List (Item E)
  unfolding wait_live
  after_drain replayed later (items, true) = items
  after_drain replayed later (items, false) = items ++ wait_live replayed later

  after_replay :
      List E → Option TerminalStatus → List (Message E) → List (Message E) → List (Item E)
  unfolding after_drain drain_queued
  after_replay cached (some status) queued later = events cached ++ terminal status ∷ []
  after_replay cached none queued later =
      events cached ++ after_drain (length cached) later (drain_queued (length cached) queued)

  -- All that a follower yields, given the reply to LRANGE, the reply to the GET after it, the
  -- messages that are queued since the subscription when the replay is over, and those that come
  -- later.
  pub await_stream_result :
      List E → Option TerminalStatus → List (Message E) → List (Message E) → List (Item E)
  unfolding after_replay
  await_stream_result cached result queued later = after_replay cached result queued later
