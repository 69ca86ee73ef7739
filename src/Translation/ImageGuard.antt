-- ===== src/Translation/ImageGuard.antt =====
-- The address checks of router/src/translation/ollama-native-out.ts: isDeniedIPv4, expandIPv6,
-- isDeniedIPv6 and isDenied. `&` and `>>` on 16-bit groups are written as division and remainder,
-- `toLowerCase` on the letters of ASCII, the only ones that a group may have.
pub mod Fetch
pub mod Ranges
pub mod Mapped
pub mod Tests
use local_llms.Base.{
  ℕ, zero, suc, ◌==◌, ◌&&◌, ◌||◌, Bool, true, false, not, Option, none, some, List, [], ◌∷◌, ◌++◌,
  Text, codes, text_eq, join_texts, length, leb, ltb, decimal, if◌then◌else◌, ◌+◌, ◌-◌, ◌*◌, ◌/◌,
  ◌%◌,
}

-- `String.split` on one code unit.
abbrev pub pieces : ℕ → List Text → Bool → List Text
pieces c rest true = [] ∷ rest
pieces c [] false = (c ∷ []) ∷ []
pieces c (t ∷ ts) false = (c ∷ t) ∷ ts

abbrev pub split : ℕ → Text → List Text
split sep [] = [] ∷ []
split sep (c ∷ t) = pieces c (split sep t) (c == sep)

abbrev pub is_digit : ℕ → Bool
is_digit c = leb 48 c && leb c 57

-- The number that the leading digits make, from the number read so far.
abbrev pub read_digits : ℕ → Text → ℕ
read_digits n [] = n
read_digits n (c ∷ t) =
    let rest = read_digits (n * 10 + (c - 48)) t in if is_digit c then rest else n

abbrev pub read_number : Text → Option ℕ
read_number [] = none
read_number (c ∷ t) = if is_digit c then some (read_digits 0 (c ∷ t)) else none

-- A negative number is refused as NaN is; minus zero is zero.
abbrev pub non_negative : Option ℕ → Option ℕ
non_negative (some zero) = some zero
non_negative (some (suc n)) = none
non_negative none = none

abbrev pub is_blank : ℕ → Bool
is_blank c =
    leb 9 c && leb c 13
    || c == 32
    || c == 160
    || c == 5760
    || leb 8192 c && leb c 8202
    || c == 8232
    || c == 8233
    || c == 8239
    || c == 8287
    || c == 12288
    || c == 65279

abbrev pub signed : Text → Option ℕ
signed [] = none
signed (c ∷ t) =
    if c == 45
    then non_negative (read_number t)
    else if c == 43
    then read_number t
    else read_number (c ∷ t)

-- `Number.parseInt(p, 10)`; `none` for NaN and below zero.
abbrev pub parse_int : Text → Option ℕ
parse_int [] = none
parse_int (c ∷ t) = let rest = parse_int t in if is_blank c then rest else signed (c ∷ t)

abbrev pub octet_of : Option ℕ → Option ℕ
octet_of none = none
octet_of (some n) = if leb n 255 then some n else none

abbrev pub cons_octet : Option ℕ → Option (List ℕ) → Option (List ℕ)
cons_octet (some n) (some ns) = some (n ∷ ns)
cons_octet none _ = none
cons_octet (some n) none = none

abbrev pub octets : List Text → Option (List ℕ)
octets [] = some []
octets (p ∷ ps) = cons_octet (octet_of (parse_int p)) (octets ps)

-- The four octets of a dotted address, or `none` where it is malformed.
abbrev pub four : Option (List ℕ) → Option (ℕ × ℕ × ℕ × ℕ)
four (some (a ∷ b ∷ c ∷ d ∷ [])) = some (a, b, c, d)
four _ = none

abbrev pub dotted : Text → Option (ℕ × ℕ × ℕ × ℕ)
dotted t = four (octets (split 46 t))

abbrev pub is_denied_octets : ℕ → ℕ → Bool
is_denied_octets a b =
    a == 10
    || a == 172 && leb 16 b && leb b 31
    || a == 192 && b == 168
    || a == 127
    || a == 169 && b == 254
    || a == 0
    || a == 100 && leb 64 b && leb b 127

abbrev pub is_denied_ipv4 : Text → Bool
is_denied_ipv4 t = elim (dotted t) [ none ↦ true | some o ↦ is_denied_octets o.0 o.1 ]

-- `toLowerCase`.
abbrev pub lower : Text → Text
lower [] = []
lower (c ∷ t) = (if leb 65 c && leb c 90 then c + 32 else c) ∷ lower t

-- A text before and after its last colon, if it has one.
abbrev put_before : ℕ → Option (Text × Text) → Text → Option (Text × Text)
put_before c (some (before, after)) t = some (c ∷ before, after)
put_before c none t = if c == 58 then some ([], t) else none

abbrev last_colon : Text → Option (Text × Text)
last_colon [] = none
last_colon (c ∷ t) = put_before c (last_colon t) t

abbrev has_code : ℕ → Text → Bool
has_code c [] = false
has_code c (x ∷ t) = x == c || has_code c t

-- A text before and after its first double colon, if it has one.
abbrev cons_before : ℕ → Option (Text × Text) → Option (Text × Text)
cons_before c none = none
cons_before c (some (before, after)) = some (c ∷ before, after)

abbrev double_colon : Text → Option (Text × Text)
double_colon [] = none
double_colon (c ∷ []) = none
double_colon (c ∷ d ∷ t) =
    let rest = double_colon (d ∷ t) in
    if c == 58 && d == 58 then some ([], t) else cons_before c rest

abbrev groups_in : Text → List Text
groups_in [] = []
groups_in (c ∷ t) = split 58 (c ∷ t)

-- A hexadecimal digit, in lower case.
abbrev hex_digit : ℕ → Option ℕ
hex_digit c =
    if is_digit c then some (c - 48) else if leb 97 c && leb c 102 then some (c - 87) else none

abbrev next_digit : ℕ → Option ℕ → Option ℕ
next_digit n none = none
next_digit n (some d) = some (n * 16 + d)

abbrev read_hex : ℕ → Text → Option ℕ
read_hex n [] = some n
read_hex n (c ∷ t) = elim (next_digit n (hex_digit c)) [ none ↦ none | some m ↦ read_hex m t ]

-- One to four hexadecimal digits.
abbrev hex_group : Text → Option ℕ
hex_group [] = none
hex_group (c ∷ t) = if leb (length t) 3 then read_hex 0 (c ∷ t) else none

abbrev hex_groups : List Text → Option (List ℕ)
hex_groups [] = some []
hex_groups (g ∷ gs) = cons_octet (hex_group g) (hex_groups gs)

abbrev zeros : ℕ → List ℕ
zeros zero = []
zeros (suc n) = 0 ∷ zeros n

-- The groups without a zero run.
abbrev all_given : List ℕ → List ℕ → Option (List ℕ)
all_given groups v4 = if length (groups ++ v4) == 8 then some (groups ++ v4) else none

-- The groups with a run of zeros between head and tail.
abbrev compressed : List ℕ → List ℕ → Option (List ℕ)
compressed head tail =
    let explicit = length (head ++ tail) in
    if leb 8 explicit then none else some (head ++ (zeros (8 - explicit) ++ tail))

abbrev with_groups : Option (List ℕ) → Option (List ℕ) → List ℕ → Option (List ℕ)
with_groups (some head) (some tail) v4 = compressed head (tail ++ v4)
with_groups none _ v4 = none
with_groups (some head) none v4 = none

abbrev groups_of : Text → List ℕ → Option (List ℕ)
groups_of address v4 = elim (double_colon address) [
  | none ↦ elim (hex_groups (groups_in address)) [ none ↦ none | some gs ↦ all_given gs v4 ]
  | some parts ↦ elim (double_colon parts.1) [
    | some more ↦ none
    | none ↦ with_groups (hex_groups (groups_in parts.0)) (hex_groups (groups_in parts.1)) v4
  ]
]

-- The address with its IPv4 tail split off, or with none.
abbrev with_tail : Text → Option (ℕ × ℕ × ℕ × ℕ) → Option (List ℕ)
with_tail before none = none
with_tail before (some (a, b, c, d)) = groups_of before ((a * 256 + b) ∷ (c * 256 + d) ∷ [])

abbrev tail_or_none : Text → Option (Text × Text) → Option (List ℕ)
tail_or_none address none = groups_of address []
tail_or_none address (some (before, after)) =
    if has_code 46 after then with_tail before (dotted after) else groups_of address []

abbrev pub expand_ipv6 : Text → Option (List ℕ)
expand_ipv6 address = tail_or_none address (last_colon address)

-- The last two groups as a dotted address.
abbrev pub dotted_text : ℕ → ℕ → Text
dotted_text hi lo = join_texts (46 ∷ []) (
    decimal (hi / 256 % 256)
    ∷ decimal (hi % 256)
    ∷ decimal (lo / 256 % 256)
    ∷ decimal (lo % 256)
    ∷ [])

abbrev all_zero : List ℕ → Bool
all_zero [] = true
all_zero (g ∷ gs) = g == 0 && all_zero gs

abbrev pub is_denied_groups : List ℕ → Bool
is_denied_groups (a ∷ b ∷ c ∷ d ∷ e ∷ f ∷ hi ∷ lo ∷ []) =
    if all_zero (a ∷ b ∷ c ∷ d ∷ e ∷ f ∷ hi ∷ []) && lo == 1
    then true
    else if all_zero (a ∷ b ∷ c ∷ d ∷ e ∷ f ∷ hi ∷ lo ∷ [])
    then true
    else if a / 64 == 1018
    then true  -- fe80::/10
    else if a / 512 == 126
    then true  -- fc00::/7
    else if all_zero (a ∷ b ∷ c ∷ d ∷ e ∷ []) && f == 65535
    then is_denied_ipv4 (dotted_text hi lo)
    else if all_zero (a ∷ b ∷ c ∷ d ∷ []) && e == 65535 && f == 0
    then is_denied_ipv4 (dotted_text hi lo)
    else false
is_denied_groups _ = false

abbrev pub is_denied_ipv6 : Text → Bool
is_denied_ipv6 raw = elim (expand_ipv6 (lower raw)) [
  | none ↦ true
  | some groups ↦ is_denied_groups groups
]

abbrev pub is_denied : Text → ℕ → Bool
is_denied address family =
    if family == 4
    then is_denied_ipv4 address
    else if family == 6
    then is_denied_ipv6 address
    else true
