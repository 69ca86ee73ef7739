-- ===== src/Mcp/Sanitize.antt =====
-- What is taken in of a tool that an external server describes
-- (router/src/mcp/client/sanitize.ts).
use mathlib.Core.Option.{some-injective}
use local_llms.Base.{
  ltb_false→le, ℕ, ◌+◌, ◌≤◌, ◌<◌, ◌≡◌, refl, subst, Bool, true, false, ◌||◌, ◌&&◌, Option, none,
  some, List, [], ◌∷◌, ◌++◌, arith, Text, codes, length, take, leb, ltb, ◌==◌, if◌then◌else◌, All,
  Bool-cases, inl, inr, ltb→lt, length-append, length-take, ◌⊎◌, ◌↔◌,
}

-- The class `[a-z0-9_]`.
abbrev pub is_name_char : ℕ → Bool
is_name_char c = (leb 97 c && leb c 122) || ((leb 48 c && leb c 57) || c == 95)

abbrev all_name_chars : Text → Bool
all_name_chars [] = true
all_name_chars (c ∷ s) = is_name_char c && all_name_chars s

abbrev pub IsNameChar : ℕ → Type 0
IsNameChar c = ((97 ≤ c) × (c ≤ 122)) ⊎ (((48 ≤ c) × (c ≤ 57)) ⊎ (c ≡ 95))

-- One to 64 characters, all small letters, digits or underscores.
abbrev pub IsToolName : Text → Type 0
IsToolName s = All IsNameChar s × ((1 ≤ length s) × (length s ≤ 64))

-- TOOL_NAME_REGEX, `/^[a-z0-9_]{1,64}$/`.
unfoldable pub tool_name_regex : Text → Bool
tool_name_regex s = all_name_chars s && (leb 1 (length s) && leb (length s) 64)

abbrev pub description_max_chars : ℕ
description_max_chars = 512

-- "…[truncated]"; the ellipsis is U+2026.
abbrev pub truncation_mark : Text
truncation_mark = 8230 ∷ codes "[truncated]"

pub record ExternalTool (J : Type 0) : Type 0 where
  pub name : Text
  pub description : Option Text
  pub input_schema : J

pub record SanitizedTool (J : Type 0) : Type 0 where
  pub name : Text
  pub description : Text
  pub input_schema : J
  pub warnings : List Text

abbrev pub given : Option Text → Text
given none = []
given (some d) = d

module _ {J : Type 0} where
  -- The code below the test of the name.
  unfoldable pub sanitized : ExternalTool J → Text → SanitizedTool J
  sanitized raw description =
      if ltb description_max_chars (length description)
      then record {
        name = raw.name;
        description = take description_max_chars description ++ truncation_mark;
        input_schema = raw.input_schema;
        warnings = codes "description_truncated" ∷ [];
      }
      else record {
        name = raw.name;
        description = description;
        input_schema = raw.input_schema;
        warnings = [];
      }

  unfoldable pub sanitize_external_tool : ExternalTool J → Option (SanitizedTool J)
  unfolding sanitized
  sanitize_external_tool raw =
      if tool_name_regex raw.name then some (sanitized raw (given raw.description)) else none

  -- What is taken in of a tool keeps its name, which is a tool name, and its schema; its description
  -- is the one given if that has at most 512 characters, and else the first 512 of it with a mark of
  -- 12 characters, and only then there is a warning.
  pub record IsSafe (raw : ExternalTool J) (tool : SanitizedTool J) : Type 0 where
    pub named : (tool.name ≡ raw.name) × IsToolName tool.name
    pub described :
        ((length (given raw.description) ≤ description_max_chars)
          × (tool.description ≡ given raw.description)
          × (tool.warnings ≡ []))
        ⊎ ((description_max_chars < length (given raw.description))
            × (tool.description
                ≡ take description_max_chars (given raw.description) ++ truncation_mark)
            × (tool.warnings ≡ codes "description_truncated" ∷ []))
    pub bounded : length tool.description ≤ description_max_chars + 12
    pub schema_kept : tool.input_schema ≡ raw.input_schema

all_name_chars-All : (s : Text) → all_name_chars s ≡ true → All IsNameChar s
all_name_chars-All [] h = tt
all_name_chars-All (c ∷ s) h = (ground arith, all_name_chars-All s (ground arith))

all_name_chars_of_All : (s : Text) → All IsNameChar s → all_name_chars s ≡ true
all_name_chars_of_All [] h = refl
all_name_chars_of_All (c ∷ s) h = ground (arith, all_name_chars_of_All s h.1)

tool_name_regex_iff : (s : Text) → (tool_name_regex s ≡ true) ↔ IsToolName s
unfolding tool_name_regex
tool_name_regex_iff s = (
  (λ e. (all_name_chars-All s (ground arith), (ground arith, ground arith))),
  (λ h. ground (arith, all_name_chars_of_All s h.0)),
)

module _ {J : Type 0} where
  sanitized-IsSafe :
      (raw : ExternalTool J)
      → IsToolName raw.name
      → IsSafe raw (sanitized raw (given raw.description))
  unfolding sanitized
  sanitized-IsSafe raw n =
      let d = given raw.description in
      let size = length-append (take description_max_chars d) truncation_mark in
      let taken = length-take description_max_chars d in
      elim (Bool-cases (ltb description_max_chars (length d))) [
        | inl long ↦ rw long record {
          named = (refl, n);
          described = inr (ltb→lt _ _ long, refl, refl);
          bounded = omega (arith, size, taken);
          schema_kept = refl;
        }
        | inr short ↦
            let fits = ltb_false→le _ _ short in
            rw short record {
              named = (refl, n);
              described = inl (fits, refl, refl);
              bounded = omega (arith, fits);
              schema_kept = refl;
            }
      ]

  taken_in-IsSafe :
      (raw : ExternalTool J) (tool : SanitizedTool J) (b : Bool)
      → tool_name_regex raw.name ≡ b
      → (if b then some (sanitized raw (given raw.description)) else none) ≡ some tool
      → IsSafe raw tool
  taken_in-IsSafe raw tool true n e =
      subst (IsSafe raw) (some-injective _ _ e)
        (sanitized-IsSafe raw ((tool_name_regex_iff raw.name).0 n))
  taken_in-IsSafe raw tool false n e = absurd (cc e)

  -- Every tool that is taken in is safe in the sense of `IsSafe`.
  pub sanitize_external_tool-IsSafe :
      (raw : ExternalTool J) (tool : SanitizedTool J)
      → sanitize_external_tool raw ≡ some tool
      → IsSafe raw tool
  unfolding sanitize_external_tool
  sanitize_external_tool-IsSafe raw tool e =
      taken_in-IsSafe raw tool (tool_name_regex raw.name) refl e

  -- A tool is rejected exactly if its name is no tool name.
  pub sanitize_external_tool_rejects :
      (raw : ExternalTool J) → (sanitize_external_tool raw ≡ none) ↔ (¬ IsToolName raw.name)
  unfolding sanitize_external_tool
  sanitize_external_tool_rejects raw = elim (Bool-cases (tool_name_regex raw.name)) [
    | inl n ↦ rw n ((λ e. absurd (cc e)), λ h. absurd (h ((tool_name_regex_iff raw.name).0 n)))
    | inr n ↦ rw n ((λ e h. cc (n, (tool_name_regex_iff raw.name).1 h)), λ h. refl)
  ]
