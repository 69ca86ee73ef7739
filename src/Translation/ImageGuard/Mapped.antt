-- ===== src/Translation/ImageGuard/Mapped.antt =====
-- The IPv4 address in an IPv6 address, for isDeniedIPv6 of
-- router/src/translation/ollama-native-out.ts: it is printed and parsed again.
use local_llms.Base.{
  ℕ, zero, suc, ◌==◌, Bool, true, false, none, some, List, [], ◌∷◌, ◌++◌, Text, leb, ltb, digits,
  decimal, ◌+◌, ◌*◌, ◌-◌, ◌/◌, ◌%◌, ◌<◌, ◌≡◌, ◌≢◌, ◌↔◌, refl, sym, ap, subst, ◌∙◌, All, arith,
  Bool-cases, inl, inr, join_texts, if◌then◌else◌,
}
use local_llms.Translation.ImageGuard.{
  is_digit, is_blank, non_negative, read_digits, read_number, signed, parse_int, pieces, split,
  dotted, is_denied_octets, is_denied_groups, octets, octet_of, four, cons_octet,
}
use local_llms.Translation.ImageGuard.Ranges.{
  number_of, IsInOneOf, denied_blocks, is_denied_octets_iff,
}

abbrev IsDigit : ℕ → Type 0
IsDigit c = is_digit c ≡ true

add-IsDigit : (n : ℕ) → n < 10 → IsDigit (48 + n)
add-IsDigit n l = ground arith

append-IsDigit : (t u : Text) → All IsDigit t → All IsDigit u → All IsDigit (t ++ u)
append-IsDigit [] u h k = k
append-IsDigit (c ∷ t) u (d, h) k = (d, append-IsDigit t u h k)

read_digits-append :
    (k : ℕ) (t : Text) (d : ℕ)
    → All IsDigit t
    → d < 10
    → read_digits k (t ++ ((48 + d) ∷ [])) ≡ read_digits k t * 10 + d
read_digits-append k [] d h l = ground arith
read_digits-append k (c ∷ t) d (e, h) l =
    let n = k * 10 + (c - 48) in
    ap (λ b. if b then read_digits n (t ++ ((48 + d) ∷ [])) else k) e
    ∙ read_digits-append n t d h l
    ∙ sym (ap (λ b. (if b then read_digits n t else k) * 10 + d) e)

-- Digits that read as the number they print.
abbrev Reads : ℕ → Text → Type 0
Reads n t = All IsDigit t × (t ≢ []) × (read_digits 0 t ≡ n)

zero_add : (n : ℕ) → 0 * 10 + n ≡ n
zero_add n = omega arith

at_most_255 : (n : ℕ) → n < 256 → leb n 255 ≡ true
at_most_255 n l = ground arith

append-not_nil : (t : Text) (c : ℕ) → t ++ (c ∷ []) ≢ []
append-not_nil [] c e = cc e
append-not_nil (x ∷ t) c e = cc e

-- A round of `digits`, by whether the number has one digit.
abbrev round : ℕ → ℕ → Bool → Text
round fuel n small = elim small [
  | true ↦ (48 + n) ∷ []
  | false ↦ digits fuel (n / 10) ++ ((48 + n % 10) ∷ [])
]

last_digit : (n : ℕ) → n % 10 < 10
last_digit n = omega arith

one_digit : (n : ℕ) → ltb n 10 ≡ true → n < 10
one_digit n c = ground arith

more_digits : (fuel n : ℕ) → ltb n 10 ≡ false → n < suc fuel → n / 10 < fuel
more_digits fuel n c l = ground arith

digits-Reads : (fuel n : ℕ) → n < fuel → Reads n (digits fuel n)
digits-Reads zero n l = absurd (omega arith)
digits-Reads (suc fuel) n l = elim (Bool-cases (ltb n 10)) [
  | inl c ↦
      let s = one_digit n c in
      subst (λ b. Reads n (round fuel n b)) (sym c)
        ((add-IsDigit n s, tt), (λ e. cc e), read_digits-append 0 [] n tt s ∙ zero_add n)
  | inr c ↦
      let (h, m, r) = digits-Reads fuel (n / 10) (more_digits fuel n c l) in
      let t = digits fuel (n / 10) in
      let d = last_digit n in
      subst (λ b. Reads n (round fuel n b)) (sym c)
        (
          append-IsDigit t ((48 + n % 10) ∷ []) h (add-IsDigit (n % 10) d, tt),
          append-not_nil t (48 + n % 10),
          read_digits-append 0 t (n % 10) h d ∙ ap (λ x. x * 10 + n % 10) r ∙ omega arith,
        )
]

not_blank : (c : ℕ) → IsDigit c → is_blank c ≡ false
not_blank c d = ground arith

not_sign : (c : ℕ) → IsDigit c → ((c == 45) ≡ false) × ((c == 43) ≡ false) × ((c == 46) ≡ false)
not_sign c d = ground arith

parse_int-digits : (t : Text) → All IsDigit t → t ≢ [] → parse_int t ≡ some (read_digits 0 t)
parse_int-digits [] h n = absurd (n refl)
parse_int-digits (c ∷ t) (d, h) n =
    let (minus, plus, dot) = not_sign c d in
    ap (λ b. if b then parse_int t else signed (c ∷ t)) (not_blank c d)
    ∙ ap
        (λ b.
          if b
          then non_negative (read_number t)
          else if c == 43
          then read_number t
          else read_number (c ∷ t))
        minus
    ∙ ap (λ b. if b then read_number t else read_number (c ∷ t)) plus
    ∙ ap (λ b. if b then some (read_digits 0 (c ∷ t)) else none) d

split-digits : (t u : Text) → All IsDigit t → split 46 (t ++ (46 ∷ u)) ≡ t ∷ split 46 u
split-digits [] u h = refl
split-digits (c ∷ t) u (d, h) =
    ap (pieces c (split 46 (t ++ (46 ∷ u)))) (not_sign c d).2
    ∙ ap (λ l. pieces c l false) (split-digits t u h)

split_last : (t : Text) → All IsDigit t → split 46 t ≡ t ∷ []
split_last [] h = refl
split_last (c ∷ t) (d, h) =
    ap (pieces c (split 46 t)) (not_sign c d).2 ∙ ap (λ l. pieces c l false) (split_last t h)

decimal-Reads : (n : ℕ) → Reads n (decimal n)
decimal-Reads n = digits-Reads (suc n) n (omega arith)

octet_of-decimal : (n : ℕ) → n < 256 → octet_of (parse_int (decimal n)) ≡ some n
octet_of-decimal n l =
    let (h, m, r) = decimal-Reads n in
    ap octet_of (parse_int-digits (decimal n) h m ∙ ap some r)
    ∙ ap (λ b. if b then some n else none) (at_most_255 n l)

abbrev joined : List Text → Text
joined = join_texts (46 ∷ [])

split_four :
    (s t u v : Text)
    → All IsDigit s
    → All IsDigit t
    → All IsDigit u
    → All IsDigit v
    → split 46 (joined (s ∷ t ∷ u ∷ v ∷ [])) ≡ s ∷ t ∷ u ∷ v ∷ []
split_four s t u v hs ht hu hv =
    split-digits s (joined (t ∷ u ∷ v ∷ [])) hs
    ∙ ap (◌∷◌ s) (
        split-digits t (joined (u ∷ v ∷ [])) ht
        ∙ ap (◌∷◌ t) (split-digits u v hu ∙ ap (◌∷◌ u) (split_last v hv)))

four-octets :
    (s t u v : Text) (a b c d : ℕ)
    → octet_of (parse_int s) ≡ some a
    → octet_of (parse_int t) ≡ some b
    → octet_of (parse_int u) ≡ some c
    → octet_of (parse_int v) ≡ some d
    → four (octets (s ∷ t ∷ u ∷ v ∷ [])) ≡ some (a, b, c, d)
four-octets s t u v a b c d ea eb ec ed =
    ap (λ o. four (cons_octet o (octets (t ∷ u ∷ v ∷ [])))) ea
    ∙ ap (λ o. four (cons_octet (some a) (cons_octet o (octets (u ∷ v ∷ []))))) eb
    ∙ ap (λ o. four (cons_octet (some a) (cons_octet (some b) (cons_octet o (octets (v ∷ [])))))) ec
    ∙ ap
        (λ o. four (
          cons_octet (some a) (cons_octet (some b) (cons_octet (some c) (cons_octet o (some []))))))
        ed

-- Four octets in decimal, with dots, are the four octets.
dotted-decimal :
    (a b c d : ℕ)
    → a < 256
    → b < 256
    → c < 256
    → d < 256
    → dotted (joined (decimal a ∷ decimal b ∷ decimal c ∷ decimal d ∷ [])) ≡ some (a, b, c, d)
dotted-decimal a b c d la lb lc ld =
    ap (λ ps. four (octets ps))
      (split_four (decimal a) (decimal b) (decimal c) (decimal d) (decimal-Reads a).0
        (decimal-Reads b).0 (decimal-Reads c).0 (decimal-Reads d).0)
    ∙ four-octets (decimal a) (decimal b) (decimal c) (decimal d) a b c d (octet_of-decimal a la)
        (octet_of-decimal b lb) (octet_of-decimal c lc) (octet_of-decimal d ld)

byte : (n : ℕ) → n % 256 < 256
byte n = omega arith

number_of_groups :
    (hi lo : ℕ)
    → hi < 65536
    → lo < 65536
    → number_of (hi / 256 % 256) (hi % 256) (lo / 256 % 256) (lo % 256) ≡ hi * 65536 + lo
number_of_groups hi lo lh ll = omega arith

-- isDeniedIPv6 refuses an IPv4-mapped address, eight groups of which five are 0 and the sixth is
-- 0xffff, exactly where the 32-bit number of its last two groups lies in one of the blocks
-- 10.0.0.0/8, 172.16.0.0/12, 192.168.0.0/16, 127.0.0.0/8, 169.254.0.0/16, 0.0.0.0/8 and
-- 100.64.0.0/10.
pub is_denied_mapped_iff :
    (hi lo : ℕ)
    → hi < 65536
    → lo < 65536
    → (is_denied_groups (0 ∷ 0 ∷ 0 ∷ 0 ∷ 0 ∷ 65535 ∷ hi ∷ lo ∷ []) ≡ true)
      ↔ IsInOneOf denied_blocks (hi * 65536 + lo)
is_denied_mapped_iff hi lo lh ll =
    let a = hi / 256 % 256 in
    let b = hi % 256 in
    let c = lo / 256 % 256 in
    let d = lo % 256 in
    let e : is_denied_groups (0 ∷ 0 ∷ 0 ∷ 0 ∷ 0 ∷ 65535 ∷ hi ∷ lo ∷ []) ≡ is_denied_octets a b =
      ap (λ o. elim o [ none ↦ true | some x ↦ is_denied_octets x.0 x.1 ])
        (dotted-decimal a b c d (byte (hi / 256)) (byte hi) (byte (lo / 256)) (byte lo)) in
    let k = is_denied_octets_iff a b c d (byte (hi / 256)) (byte hi) (byte (lo / 256)) (byte lo) in
    let n = number_of_groups hi lo lh ll in
    (
      λ h. subst (IsInOneOf denied_blocks) n (k.0 (sym e ∙ h)),
      λ h. e ∙ k.1 (subst (IsInOneOf denied_blocks) (sym n) h),
    )
