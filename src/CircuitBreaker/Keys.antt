-- ===== src/CircuitBreaker/Keys.antt =====
-- `keys` of router/src/resilience/circuitBreaker.ts, and why no two of them collide.
use mathlib.Core.List.{reverse, reverse-append, reverse-reverse}
use local_llms.Base.{
  ◌≡◌, refl, sym, ap, ◌∙◌, subst, inl, inr, Bool, true, false, ◌&&◌, ◌++◌, arith, Text, codes,
  text_eq, text_eq_iff, text_eq_refl, Bool-cases,
}

pub data Kind : Type 0 where
  fail_count state probe_at probe_lock : Kind

abbrev suffix : Kind → Text
suffix fail_count = codes ":fail_count"
suffix state = codes ":state"
suffix probe_at = codes ":probe_at"
suffix probe_lock = codes ":probe_lock"

unfoldable pub key : Kind → Text → Text
key k backend = codes "breaker:" ++ (backend ++ suffix k)

abbrev pub kind_eq : Kind → Kind → Bool
kind_eq fail_count fail_count = true
kind_eq state state = true
kind_eq probe_at probe_at = true
kind_eq probe_lock probe_lock = true
kind_eq _ _ = false

reversed : Kind → Text → Text
reversed k b = reverse (suffix k) ++ reverse b

reversed-eq :
    (k j : Kind) (b c : Text)
    → reversed k b ≡ reversed j c
    → (kind_eq k j ≡ true) × (reverse b ≡ reverse c)
unfolding reversed
reversed-eq fail_count fail_count b c e = ground arith
reversed-eq state state b c e = ground arith
reversed-eq probe_at probe_at b c e = ground arith
reversed-eq probe_lock probe_lock b c e = ground arith
reversed-eq _ _ b c e = ground arith

key_injective : (k j : Kind) (b c : Text) → key k b ≡ key j c → (kind_eq k j ≡ true) × (b ≡ c)
unfolding key reversed
key_injective k j b c e =
    let tails : b ++ suffix k ≡ c ++ suffix j = ground arith in
    let turned : reversed k b ≡ reversed j c =
      sym (reverse-append b (suffix k)) ∙ (ap reverse tails ∙ reverse-append c (suffix j)) in
    let r = reversed-eq k j b c turned in
    (r.0, sym (reverse-reverse b) ∙ (ap reverse r.1 ∙ reverse-reverse c))

kind_eq_sound : (k j : Kind) → kind_eq k j ≡ true → k ≡ j
kind_eq_sound fail_count fail_count e = refl
kind_eq_sound state state e = refl
kind_eq_sound probe_at probe_at e = refl
kind_eq_sound probe_lock probe_lock e = refl
kind_eq_sound _ _ e = absurd (cc e)

-- Two keys are equal exactly when they are of one kind and of one backend.
pub key_eq : (k j : Kind) (b c : Text) → text_eq (key k b) (key j c) ≡ (kind_eq k j && text_eq b c)
key_eq k j b c = elim (Bool-cases (text_eq (key k b) (key j c))) [
  | inl e ↦
      let same = key_injective k j b c ((text_eq_iff _ _).0 e) in
      rw (e, same.0, same.1, text_eq_refl c)
  | inr e ↦ elim (Bool-cases (kind_eq k j && text_eq b c)) [
    | inr d ↦ rw (e, d)
    | inl d ↦
        absurd (clash (kind_eq_sound k j (ground arith)) ((text_eq_iff b c).0 (ground arith)) e)
  ]
]
  where
    clash : k ≡ j → b ≡ c → text_eq (key k b) (key j c) ≡ false → ⊥
    clash same_kind same_backend e =
        let r : text_eq (key j c) (key j c) ≡ false =
          subst (λ b'. text_eq (key j b') (key j c) ≡ false) same_backend
            (subst (λ k'. text_eq (key k' b) (key j c) ≡ false) same_kind e) in
        cc (r, text_eq_refl (key j c))
