-- ===== src/Translation/ImageGuard/Ranges.antt =====
-- The address blocks that isDeniedIPv4 of router/src/translation/ollama-native-out.ts lists in its
-- comments.
use local_llms.Base.{ℕ, true, List, [], ◌∷◌, ◌+◌, ◌*◌, ◌≤◌, ◌<◌, ◌≡◌, ◌⊎◌, ◌↔◌, arith}
use local_llms.Translation.ImageGuard.{is_denied_octets}

-- The 32-bit number of a dotted address.
abbrev pub number_of : ℕ → ℕ → ℕ → ℕ → ℕ
number_of a b c d = a * 16777216 + b * 65536 + c * 256 + d

-- A block of addresses: the two first octets of its first address, and how many it has.
abbrev IsIn : ℕ × ℕ × ℕ → ℕ → Type 0
IsIn (a, b, size) n = (number_of a b 0 0 ≤ n) × (n < number_of a b 0 0 + size)

abbrev pub IsInOneOf : List (ℕ × ℕ × ℕ) → ℕ → Type 0
IsInOneOf [] n = ⊥
IsInOneOf (r ∷ rs) n = IsIn r n ⊎ IsInOneOf rs n

-- 10/8, 172.16/12, 192.168/16, 127/8, 169.254/16, 0/8 and 100.64/10.
abbrev pub denied_blocks : List (ℕ × ℕ × ℕ)
denied_blocks =
    (10, 0, 16777216)
    ∷ (172, 16, 1048576)
    ∷ (192, 168, 65536)
    ∷ (127, 0, 16777216)
    ∷ (169, 254, 65536)
    ∷ (0, 0, 16777216)
    ∷ (100, 64, 4194304)
    ∷ []

-- isDeniedIPv4 refuses the four octets of an address exactly where the 32-bit number of the
-- address lies in one of the blocks 10.0.0.0/8, 172.16.0.0/12, 192.168.0.0/16, 127.0.0.0/8,
-- 169.254.0.0/16, 0.0.0.0/8 and 100.64.0.0/10.
pub is_denied_octets_iff :
    (a b c d : ℕ)
    → a < 256
    → b < 256
    → c < 256
    → d < 256
    → (is_denied_octets a b ≡ true) ↔ IsInOneOf denied_blocks (number_of a b c d)
is_denied_octets_iff a b c d la lb lc ld = (λ h. ground arith, λ h. ground arith)
