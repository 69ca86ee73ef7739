-- ===== src/Valkey.antt =====
-- What the router relies on of the Valkey server, which is not part of this repository: the
-- commands that router/src/resilience/circuitBreaker.ts sends, with their documented effect on
-- the value and the expiry of each key. A command takes the server's time.
pub mod Table
use local_llms.Base.{
  ℕ, suc, ◌+◌, ◌≡◌, Bool, true, false, Option, none, some, Text, text_eq, ltb, if◌then◌else◌,
}

-- A stored string: `number n` is the decimal text of `n`, `text` any other string.
pub data Value : Type 0 where
  text : Text → Value
  number : ℕ → Value

-- A value and the time, if any, at which it expires.
abbrev pub Entry : Type 0
Entry = Value × Option ℕ

abbrev pub live : ℕ → Option Entry → Option Value
live t none = none
live t (some (v, none)) = some v
live t (some (v, some at)) = if ltb t at then some v else none

-- The reply of INCR; `none` is its error reply for a value that is no number.
abbrev pub bump : Option Value → Option ℕ
bump none = some 1
bump (some (number n)) = some (n + 1)
bump (some (text s)) = none

abbrev bump_entry : Option Value → Option Entry → Option Entry
bump_entry none e = some (number 1, none)
bump_entry (some (number n)) (some (v, at)) = some (number (n + 1), at)
bump_entry (some (number n)) none = none
bump_entry (some (text s)) e = e

-- INCR keeps the expiry of a live key, and starts an expired one anew with none.
abbrev pub incremented : ℕ → Option Entry → Option Entry
incremented t e = bump_entry (live t e) e

abbrev expire_entry : ℕ → Option Value → Option Entry → Option Entry
expire_entry at none e = e
expire_entry at (some v) e = some (v, some at)

abbrev pub expiring : ℕ → ℕ → Option Entry → Option Entry
expiring t ttl e = expire_entry (t + ttl) (live t e) e

pub record Valkey : Type 1 where
  pub Store : Type 0
  pub entry : Store → Text → Option Entry
  pub get : ℕ → Text → Store → Option Value
  pub set_px : ℕ → Text → Value → ℕ → Store → Store
  pub set_nx_px : ℕ → Text → Value → ℕ → Store → Store × Bool
  pub del : Text → Store → Store
  pub incr : ℕ → Text → Store → Store × Option ℕ
  pub pexpire : ℕ → Text → ℕ → Store → Store
  pub get_lem : (t : ℕ) (k : Text) (s : Store) → get t k s ≡ live t (entry s k)
  pub entry-set_px :
      (t : ℕ) (k : Text) (v : Value) (ttl : ℕ) (s : Store) (j : Text)
      → entry (set_px t k v ttl s) j ≡ (if text_eq k j then some (v, some (t + ttl)) else entry s j)
  pub set_nx_px_lem :
      (t : ℕ) (k : Text) (v : Value) (ttl : ℕ) (s : Store)
      → set_nx_px t k v ttl s ≡ (
          let free : Store × Bool = (set_px t k v ttl s, true) in
          elim (get t k s) [ none ↦ free | some _ ↦ (s, false) ])
  pub entry-del :
      (k : Text) (s : Store) (j : Text)
      → entry (del k s) j ≡ (if text_eq k j then none else entry s j)
  pub incr_reply : (t : ℕ) (k : Text) (s : Store) → (incr t k s).1 ≡ bump (live t (entry s k))
  pub entry-incr :
      (t : ℕ) (k : Text) (s : Store) (j : Text)
      → entry (incr t k s).0 j ≡ (if text_eq k j then incremented t (entry s k) else entry s j)
  pub entry-pexpire :
      (t : ℕ) (k : Text) (ttl : ℕ) (s : Store) (j : Text)
      → entry (pexpire t k ttl s) j
        ≡ (if text_eq k j then expiring t ttl (entry s k) else entry s j)
