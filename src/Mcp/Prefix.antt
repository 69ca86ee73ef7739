-- ===== src/Mcp/Prefix.antt =====
-- Tool names with their server's alias in front (router/src/mcp/client/prefix.ts).
use local_llms.Base.{
  includes_text, ℕ, suc, ◌+◌, ◌<◌, ◌≡◌, ◌≢◌, refl, sym, ap, ◌∙◌, Bool, true, false, Option, none,
  some, List, [], ◌∷◌, ◌++◌, arith, Text, codes, index_of, later, length, take, drop,
  take-length-append, drop-length-append, length-append, zero, append_assoc, Option-cases, inl, inr,
  length-take,
}

abbrev pub separator : Text
separator = codes "__"

unfoldable pub prefix_tool_name : Text → Text → Text
prefix_tool_name alias tool_name = alias ++ (separator ++ tool_name)

-- What follows the reply of `indexOf`.
abbrev split_at : Text → Option ℕ → Option (Text × Text)
split_at prefixed none = none
split_at prefixed (some i) = some (take i prefixed, drop (i + length separator) prefixed)

unfoldable pub strip_prefix : Text → Option (Text × Text)
strip_prefix prefixed = split_at prefixed (index_of separator prefixed)

abbrev alias_enabled : List Text → Option (Text × Text) → Bool
alias_enabled enabled none = false
alias_enabled enabled (some (alias, tool_name)) = includes_text alias enabled

pub is_external_mcp_tool_call : Text → List Text → Bool
unfolding strip_prefix
is_external_mcp_tool_call name enabled = alias_enabled enabled (strip_prefix name)

-- The first separator of `alias ++ "__" ++ …` is the one that was put there.
abbrev pub IsClean : Text → Type 0
IsClean alias = index_of separator (alias ++ codes "_") ≡ none

later-none : (o : Option ℕ) → later o ≡ none → o ≡ none
later-none none e = refl
later-none (some i) e = absurd (cc e)

index_of_clean :
    (alias rest : Text)
    → IsClean alias
    → index_of separator (alias ++ (separator ++ rest)) ≡ some (length alias)
unfolding index_of
index_of_clean [] rest h = refl
index_of_clean (c ∷ []) rest h = ground arith
index_of_clean (c ∷ d ∷ alias) rest h = ground (
  arith,
  index_of_clean (d ∷ alias) rest,
  later-none (index_of separator (d ∷ (alias ++ codes "_"))),
)

drop-append :
    (alias rest : Text)
    → drop (length alias + length separator) (alias ++ (separator ++ rest)) ≡ rest
drop-append alias rest =
    let joined : alias ++ (separator ++ rest) ≡ (alias ++ separator) ++ rest =
      sym (append_assoc alias separator rest) in
    let size : length alias + length separator ≡ length (alias ++ separator) =
      sym (length-append alias separator) in
    rw (joined, size) (drop-length-append (alias ++ separator) rest)

-- Stripping a prefixed tool name gives back the alias and the tool name, also where the tool name
-- holds the separator, if the alias neither holds the separator nor ends in an underscore.
pub strip_prefix-prefix_tool_name :
    (alias tool_name : Text)
    → IsClean alias
    → strip_prefix (prefix_tool_name alias tool_name) ≡ some (alias, tool_name)
unfolding strip_prefix prefix_tool_name
strip_prefix-prefix_tool_name alias tool_name h =
    rw
      (
        index_of_clean alias tool_name h,
        take-length-append alias (separator ++ tool_name),
        drop-append alias tool_name,
      )
      refl

index_of_dirty :
    (alias rest : Text) (i : ℕ)
    → index_of separator (alias ++ codes "_") ≡ some i
    → (i < length alias) × (index_of separator (alias ++ (separator ++ rest)) ≡ some i)
unfolding index_of
index_of_dirty [] rest i h = absurd (cc h)
index_of_dirty (c ∷ []) rest i h = ground arith
index_of_dirty (c ∷ d ∷ alias) rest i h =
    elim (Option-cases (index_of separator (d ∷ (alias ++ codes "_")))) [
      | inl e ↦ ground arith
      | inr (j, e) ↦ ground (arith, index_of_dirty (d ∷ alias) rest j e)
    ]

take-append_left : (i : ℕ) (xs ys : Text) → i < length xs → take i (xs ++ ys) ≡ take i xs
take-append_left i [] ys h = absurd (omega arith)
take-append_left zero (x ∷ xs) ys h = refl
take-append_left (suc i) (x ∷ xs) ys h = ap (◌∷◌ x) (take-append_left i xs ys (omega arith))

length-take_lt : (i : ℕ) (xs : Text) → i < length xs → take i xs ≢ xs
length-take_lt i xs h e = absurd (omega (arith, ap length e, length-take i xs))

-- An alias that holds the separator or ends in an underscore is cut at the first separator: the
-- alias that comes back is a proper prefix of it, so it is another alias.
pub strip_prefix_cuts :
    (alias tool_name : Text) (i : ℕ)
    → index_of separator (alias ++ codes "_") ≡ some i
    → (strip_prefix (prefix_tool_name alias tool_name)
        ≡ some (take i alias, drop (i + length separator) (prefix_tool_name alias tool_name)))
      × (take i alias ≢ alias)
unfolding strip_prefix prefix_tool_name
strip_prefix_cuts alias tool_name i h =
    let (lt, found) = index_of_dirty alias tool_name i h in
    (
      rw (found, take-append_left i alias (separator ++ tool_name) lt) refl,
      length-take_lt i alias lt,
    )

-- A prefixed tool of a clean alias is taken for an external call exactly if the alias is enabled.
pub is_external-prefix_tool_name :
    (alias tool_name : Text) (enabled : List Text)
    → IsClean alias
    → is_external_mcp_tool_call (prefix_tool_name alias tool_name) enabled
      ≡ includes_text alias enabled
unfolding is_external_mcp_tool_call
is_external-prefix_tool_name alias tool_name enabled h =
    ap (alias_enabled enabled) (strip_prefix-prefix_tool_name alias tool_name h)

-- What is taken for an external call has a separator.
pub external_is_prefixed :
    (name : Text) (enabled : List Text)
    → is_external_mcp_tool_call name enabled ≡ true
    → (parts : Text × Text) × (strip_prefix name ≡ some parts)
      × (includes_text parts.0 enabled ≡ true)
unfolding is_external_mcp_tool_call
external_is_prefixed name enabled h = elim (Option-cases (strip_prefix name)) [
  | inl e ↦ absurd (cc (h, ap (alias_enabled enabled) e))
  | inr ((alias, tool_name), e) ↦ ((alias, tool_name), e, sym (ap (alias_enabled enabled) e) ∙ h)
]
