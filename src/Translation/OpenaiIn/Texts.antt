-- ===== src/Translation/OpenaiIn/Texts.antt =====
-- The regular expressions of router/src/translation/openai-in.ts: DATA_URL_RE and
-- IS_ERROR_WRAP_RE.
use local_llms.Base.{
  ℕ, ◌==◌, ◌&&◌, ◌||◌, Bool, false, not, Option, none, some, [], ◌∷◌, ◌++◌, Text, codes, text_eq,
  slice, drop, length, leb, if◌then◌else◌,
}

-- The class of DATA_URL_RE, `[\w+.-]`.
abbrev is_media_char : ℕ → Bool
is_media_char c =
    leb 65 c && leb c 90
    || leb 97 c && leb c 122
    || leb 48 c && leb c 57
    || c == 95
    || c == 43
    || c == 46
    || c == 45

abbrev is_line_end : ℕ → Bool
is_line_end c = c == 10 || c == 13 || c == 8232 || c == 8233

abbrev has_line_end : Text → Bool
has_line_end [] = false
has_line_end (c ∷ t) = is_line_end c || has_line_end t

-- The longest run of the class, and the rest.
abbrev media_run : Text → Text × Text
media_run [] = ([], [])
media_run (c ∷ t) =
    let (run, rest) = media_run t in if is_media_char c then (c ∷ run, rest) else ([], c ∷ t)

abbrev pub starts_with : Text → Text → Bool
starts_with prefix t = text_eq (slice (length prefix) t) prefix

-- The groups of DATA_URL_RE after `data:image/`.
abbrev data_groups : Text × Text → Option (Text × Text)
data_groups ([], rest) = none
data_groups (c ∷ run, rest) =
    let data_part = drop 8 rest in
    if starts_with (codes ";base64,") rest
      && not (text_eq data_part [])
      && not (has_line_end data_part)
    then some (codes "image/" ++ (c ∷ run), data_part)
    else none

abbrev pub data_url : Text → Option (Text × Text)
data_url t =
    if starts_with (codes "data:image/") t then data_groups (media_run (drop 11 t)) else none

-- Regular expressions' `\s`.
abbrev is_space : ℕ → Bool
is_space c =
    leb 9 c && leb c 13
    || c == 32
    || c == 160
    || c == 5760
    || leb 8192 c && leb c 8202
    || c == 8232
    || c == 8233
    || c == 8239
    || c == 8287
    || c == 12288
    || c == 65279

abbrev skip_spaces : Text → Text
skip_spaces [] = []
skip_spaces (c ∷ t) = let rest = skip_spaces t in if is_space c then rest else c ∷ t

abbrev after_colon : Text → Bool
after_colon [] = false
after_colon (c ∷ t) = c == 58 && starts_with (codes "true") (skip_spaces t)

-- IS_ERROR_WRAP_RE.
abbrev pub is_error_wrap : Text → Bool
is_error_wrap t = starts_with (codes "{\"is_error\"") t && after_colon (skip_spaces (drop 11 t))
