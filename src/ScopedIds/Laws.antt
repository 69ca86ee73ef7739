-- ===== src/ScopedIds/Laws.antt =====
-- Which headers the handler of router/src/middleware/scopedIds.ts takes and which it rejects.
use local_llms.Base.{
  ℕ, ◌+◌, ◌≤◌, ◌<◌, ◌≡◌, refl, true, Option, none, some, [], ◌∷◌, Text, codes, length, All, ◌⊎◌,
  inl, inr, ◌↔◌, Bool-cases, arith,
}
use local_llms.ScopedIds.{
  is_class_char, is_id_char, every, id_re, wc_re, Header, first_value, Extracted, missing, valid,
  invalid, extracted, extract_scoped_id, lower_char, to_lower_case, workload, Handled, stamped,
  rejected, with_tenant, scoped_ids_pre_handler,
}

-- A letter, a digit, or one of `.`, `_` and `-`.
abbrev pub IsClassChar : ℕ → Type 0
IsClassChar c =
    ((65 ≤ c) × (c ≤ 90))
    ⊎ (((97 ≤ c) × (c ≤ 122)) ⊎ (((48 ≤ c) × (c ≤ 57)) ⊎ ((c ≡ 46) ⊎ ((c ≡ 95) ⊎ (c ≡ 45)))))

-- Such a character or `:`.
abbrev pub IsIdChar : ℕ → Type 0
IsIdChar c = IsClassChar c ⊎ (c ≡ 58)

abbrev pub IsId : Text → Type 0
IsId s = All IsIdChar s × ((1 ≤ length s) × (length s ≤ 128))

-- A workload class: 1 to 64 letters, digits, `.`, `_` and `-`.
abbrev pub IsClass : Text → Type 0
IsClass s = All IsClassChar s × ((1 ≤ length s) × (length s ≤ 64))

-- The small letter for a capital, and any other character itself.
abbrev IsLowerOf : ℕ → ℕ → Type 0
IsLowerOf c d = (((65 ≤ c) × (c ≤ 90)) × (d ≡ c + 32)) ⊎ (((c < 65) ⊎ (90 < c)) × (d ≡ c))

-- The same text in small letters.
abbrev pub IsLowered : Text → Text → Type 0
IsLowered [] [] = Unit
IsLowered [] (d ∷ t) = ⊥
IsLowered (c ∷ s) [] = ⊥
IsLowered (c ∷ s) (d ∷ t) = IsLowerOf c d × IsLowered s t

every-All : (s : Text) → every is_id_char s ≡ true → All IsIdChar s
every-All [] h = tt
every-All (c ∷ s) h = (ground arith, every-All s (ground arith))

every_of_ids : (s : Text) → All IsIdChar s → every is_id_char s ≡ true
every_of_ids [] h = refl
every_of_ids (c ∷ s) h = ground (arith, every_of_ids s h.1)

id_re_iff : (s : Text) → (id_re s ≡ true) ↔ IsId s
unfolding id_re
id_re_iff s = (
  (λ e. (every-All s (ground arith), (ground arith, ground arith))),
  (λ h. ground (arith, every_of_ids s h.0)),
)

-- The value of a header is present and no id.
abbrev pub IsBad : Option (Option Text) → Text → Type 0
IsBad none value = ⊥
IsBad (some none) value = value ≡ []
IsBad (some (some v)) value = (value ≡ v) × (¬ IsId v)

abbrev IsExtracted : Text → Option (Option Text) → Extracted → Type 0
IsExtracted label o missing = o ≡ none
IsExtracted label o (valid v) = (o ≡ some (some v)) × IsId v
IsExtracted label o (invalid l v) = (l ≡ label) × IsBad o v

extracted-IsExtracted :
    (label : Text) (o : Option (Option Text)) → IsExtracted label o (extracted label o)
unfolding extracted
extracted-IsExtracted label none = refl
extracted-IsExtracted label (some none) = (refl, refl)
extracted-IsExtracted label (some (some v)) = elim (Bool-cases (id_re v)) [
  | inl e ↦ rw e (refl, (id_re_iff v).0 e)
  | inr e ↦ rw e (refl, (refl, λ h. cc (e, (id_re_iff v).1 h)))
]

class-All : (s : Text) → every is_class_char s ≡ true → All IsClassChar s
class-All [] h = tt
class-All (c ∷ s) h = (ground arith, class-All s (ground arith))

every_of_class : (s : Text) → All IsClassChar s → every is_class_char s ≡ true
every_of_class [] h = refl
every_of_class (c ∷ s) h = ground (arith, every_of_class s h.1)

wc_re_iff : (s : Text) → (wc_re s ≡ true) ↔ IsClass s
unfolding wc_re
wc_re_iff s = (
  (λ e. (class-All s (ground arith), (ground arith, ground arith))),
  (λ h. ground (arith, every_of_class s h.0)),
)

lower_char-IsLowerOf : (c : ℕ) → IsLowerOf c (lower_char c)
lower_char-IsLowerOf c = ground arith

to_lower_case-IsLowered : (s : Text) → IsLowered s (to_lower_case s)
to_lower_case-IsLowered [] = tt
to_lower_case-IsLowered (c ∷ s) = (lower_char-IsLowerOf c, to_lower_case-IsLowered s)

-- How the stamp of a tenant or project follows from the header.
abbrev pub IsTaken : Option (Option Text) → Option Text → Type 0
IsTaken o none = o ≡ none
IsTaken o (some v) = (o ≡ some (some v)) × IsId v

-- How the stamp of the workload class follows from the header.
abbrev pub IsTakenClass : Option (Option Text) → Option Text → Type 0
IsTakenClass none none = Unit
IsTakenClass (some none) none = Unit
IsTakenClass (some (some v)) none = ¬ IsClass v
IsTakenClass none (some w) = ⊥
IsTakenClass (some none) (some w) = ⊥
IsTakenClass (some (some v)) (some w) = IsClass v × IsLowered v w

workload-IsTakenClass : (o : Option (Option Text)) → IsTakenClass o (workload o)
unfolding workload
workload-IsTakenClass none = tt
workload-IsTakenClass (some none) = tt
workload-IsTakenClass (some (some v)) = elim (Bool-cases (wc_re v)) [
  | inl e ↦ rw e ((wc_re_iff v).0 e, to_lower_case-IsLowered v)
  | inr e ↦ rw e (λ h. cc (e, (wc_re_iff v).1 h))
]

-- Either every stamp is that of an absent header or a value that is allowed, as it stands for tenant
-- and project and in small letters for the workload class, which is left out exactly where it
-- is absent or not 1 to 64 letters, digits, `.`, `_` and `-`; or the request is rejected for the first of tenant and project whose value is no id.
abbrev pub IsHandled : Header → Header → Header → Handled → Type 0
IsHandled tenant project class (stamped st) =
    IsTaken (first_value tenant) st.tenant_id
    × (IsTaken (first_value project) st.project_id
        × IsTakenClass (first_value class) st.workload_class)
IsHandled tenant project class (rejected label value) =
    ((label ≡ codes "X-Tenant-ID") × IsBad (first_value tenant) value)
    ⊎ ((label ≡ codes "X-Project-ID")
        × (IsBad (first_value project) value
            × ((t : Option Text) × IsTaken (first_value tenant) t)))

with_tenant-IsHandled :
    (tenant project class : Header) (x y : Extracted)
    → IsExtracted (codes "X-Tenant-ID") (first_value tenant) x
    → IsExtracted (codes "X-Project-ID") (first_value project) y
    → IsHandled tenant project class (with_tenant (workload (first_value class)) x y)
with_tenant-IsHandled tenant project class (invalid l v) y h k = inl h
with_tenant-IsHandled tenant project class missing missing h k =
    (h, (k, workload-IsTakenClass (first_value class)))
with_tenant-IsHandled tenant project class missing (valid p) h k =
    (h, (k, workload-IsTakenClass (first_value class)))
with_tenant-IsHandled tenant project class missing (invalid l v) h k = inr (k.0, (k.1, (none, h)))
with_tenant-IsHandled tenant project class (valid t) missing h k =
    (h, (k, workload-IsTakenClass (first_value class)))
with_tenant-IsHandled tenant project class (valid t) (valid p) h k =
    (h, (k, workload-IsTakenClass (first_value class)))
with_tenant-IsHandled tenant project class (valid t) (invalid l v) h k =
    inr (k.0, (k.1, (some t, h)))

-- Every request is handled in the sense of `IsHandled`.
pub scoped_ids_pre_handler-IsHandled :
    (tenant project class : Header)
    → IsHandled tenant project class (scoped_ids_pre_handler tenant project class)
unfolding scoped_ids_pre_handler extract_scoped_id
scoped_ids_pre_handler-IsHandled tenant project class =
    with_tenant-IsHandled tenant project class _ _
      (extracted-IsExtracted (codes "X-Tenant-ID") (first_value tenant))
      (extracted-IsExtracted (codes "X-Project-ID") (first_value project))
