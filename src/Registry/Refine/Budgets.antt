-- ===== src/Registry/Refine/Budgets.antt =====
-- The VRAM test of router/src/config/registry.ts and the totals of the backends.
use local_llms.Base.{
  text_eq_comm, ℕ, ◌+◌, ◌≤◌, ◌≡◌, refl, sym, ap, ◌∙◌, subst, true, false, List, [], ◌∷◌, Text,
  text_eq, text_eq_iff, text_eq_refl, includes_text, if◌then◌else◌, All, ◌↔◌, arith, Bool-cases,
  inl, inr,
}
use local_llms.Registry.{backend_name, ModelEntry}
use local_llms.Registry.Refine.{add_budget, budget_sums, vram_issues}

-- What the enabled entries of a backend need together.
abbrev pub needed : Text → List ModelEntry → ℕ
needed b [] = 0
needed b (m ∷ ms) =
    (if m.disabled then 0 else if text_eq (backend_name m.backend) b then m.vram_budget_gb else 0)
    + needed b ms

abbrev pub keys : {A : Type 0} → List (Text × A) → List Text
keys [] = []
keys ((k, a) ∷ ps) = k ∷ keys ps

abbrev pub HasDistinctKeys : {A : Type 0} → List (Text × A) → Type 0
HasDistinctKeys [] = Unit
HasDistinctKeys ((k, a) ∷ ps) = (includes_text k (keys ps) ≡ false) × HasDistinctKeys ps

abbrev tally : Text → List (Text × ℕ) → ℕ
tally b [] = 0
tally b ((k, n) ∷ ps) = (if text_eq k b then n else 0) + tally b ps

abbrev IsWithin : ℕ → Text × ℕ → Type 0
IsWithin envelope p = p.1 ≤ envelope

pub text_eq_trans : (s t u : Text) → text_eq s t ≡ true → text_eq s u ≡ text_eq t u
text_eq_trans s t u e = ap (λ x. text_eq x u) ((text_eq_iff s t).0 e)

tally-add_budget :
    (b k : Text) (gb : ℕ) (sums : List (Text × ℕ))
    → tally b (add_budget k gb sums) ≡ tally b sums + (if text_eq k b then gb else 0)
unfolding add_budget
tally-add_budget b k gb [] = omega arith
tally-add_budget b k gb ((k', n) ∷ sums) = elim (Bool-cases (text_eq k' k)) [
  | inl e ↦ ground (arith, e, text_eq_trans k' k b e)
  | inr e ↦ ground (arith, e, tally-add_budget b k gb sums)
]

tally-budget_sums :
    (b : Text) (ms : List ModelEntry) (sums : List (Text × ℕ))
    → tally b (budget_sums ms sums) ≡ tally b sums + needed b ms
unfolding budget_sums
tally-budget_sums b [] sums = omega arith
tally-budget_sums b (m ∷ ms) sums = elim (Bool-cases m.disabled) [
  | inl d ↦ ground (arith, d, tally-budget_sums b ms sums)
  | inr d ↦
      let k = backend_name m.backend in
      let rest = tally-budget_sums b ms (add_budget k m.vram_budget_gb sums) in
      ground (arith, d, rest, tally-add_budget b k m.vram_budget_gb sums)
]

keys-add_budget :
    (b k : Text) (gb : ℕ) (sums : List (Text × ℕ))
    → text_eq k b ≡ false
    → includes_text b (keys sums) ≡ false
    → includes_text b (keys (add_budget k gb sums)) ≡ false
unfolding add_budget
keys-add_budget b k gb [] n h = ground (arith, n)
keys-add_budget b k gb ((k', v) ∷ sums) n h = ground (arith, n, keys-add_budget b k gb sums n)

add_budget-HasDistinctKeys :
    (k : Text) (gb : ℕ) (sums : List (Text × ℕ))
    → HasDistinctKeys sums
    → HasDistinctKeys (add_budget k gb sums)
unfolding add_budget
add_budget-HasDistinctKeys k gb [] h = ground arith
add_budget-HasDistinctKeys k gb ((k', v) ∷ sums) h = elim (Bool-cases (text_eq k' k)) [
  | inl e ↦ ground (arith, e)
  | inr e ↦
      let fresh = keys-add_budget k' k gb sums (text_eq_comm k k' ∙ e) h.0 in
      ground (arith, e, fresh, add_budget-HasDistinctKeys k gb sums h.1)
]

budget_sums-HasDistinctKeys :
    (ms : List ModelEntry) (sums : List (Text × ℕ))
    → HasDistinctKeys sums
    → HasDistinctKeys (budget_sums ms sums)
unfolding budget_sums
budget_sums-HasDistinctKeys [] sums h = h
budget_sums-HasDistinctKeys (m ∷ ms) sums h =
    let k = backend_name m.backend in
    let added = add_budget-HasDistinctKeys k m.vram_budget_gb sums h in
    ground (
      arith,
      budget_sums-HasDistinctKeys ms sums h,
      budget_sums-HasDistinctKeys ms (add_budget k m.vram_budget_gb sums) added,
    )

tally_absent :
    (b : Text) (sums : List (Text × ℕ)) → includes_text b (keys sums) ≡ false → tally b sums ≡ 0
tally_absent b [] h = refl
tally_absent b ((k, n) ∷ sums) h = ground (arith, tally_absent b sums)

-- Entries with distinct keys bound the tallies.
tally_bound :
    (envelope : ℕ) (b : Text) (sums : List (Text × ℕ))
    → HasDistinctKeys sums
    → All (IsWithin envelope) sums
    → tally b sums ≤ envelope
tally_bound envelope b [] d h = omega arith
tally_bound envelope b ((k, n) ∷ sums) d h = elim (Bool-cases (text_eq k b)) [
  | inl e ↦
      let absent =
        tally_absent b sums
          (subst (λ x. includes_text x (keys sums) ≡ false) ((text_eq_iff k b).0 e) d.0) in
      ground (arith, e, absent, h.0)
  | inr e ↦ ground (arith, e, tally_bound envelope b sums d.1 h.1)
]

-- What holds of the backends of the entries holds of the keys of the sums.
module _ (P : Text → Type 0) where
  add_budget-keys :
      (k : Text) (gb : ℕ) (sums : List (Text × ℕ))
      → P k
      → All (λ p. P p.0) sums
      → All (λ p. P p.0) (add_budget k gb sums)
  unfolding add_budget
  add_budget-keys k gb [] p h = (p, tt)
  add_budget-keys k gb ((k', n) ∷ sums) p h = elim (Bool-cases (text_eq k' k)) [
    | inl e ↦ rw e h
    | inr e ↦ rw e (h.0, add_budget-keys k gb sums p h.1)
  ]

  budget_sums-keys :
      (ms : List ModelEntry) (sums : List (Text × ℕ))
      → All (λ m. P (backend_name m.backend)) ms
      → All (λ p. P p.0) sums
      → All (λ p. P p.0) (budget_sums ms sums)
  unfolding budget_sums
  budget_sums-keys [] sums p h = h
  budget_sums-keys (m ∷ ms) sums p h = elim (Bool-cases m.disabled) [
    | inl d ↦ simp d (budget_sums-keys ms sums p.1 h)
    | inr d ↦ simp d (budget_sums-keys ms _ p.1 (add_budget-keys _ _ sums p.0 h))
  ]

tally_tail : (b k : Text) (n : ℕ) (sums : List (Text × ℕ)) → tally b sums ≤ tally b ((k, n) ∷ sums)
tally_tail b k n sums = omega arith

tally_head : (k : Text) (n : ℕ) (sums : List (Text × ℕ)) → n ≤ tally k ((k, n) ∷ sums)
tally_head k n sums = ground (arith, text_eq_refl k)

tallies_bound_entries :
    (envelope : ℕ) (whole sums : List (Text × ℕ))
    → ((b : Text) → tally b sums ≤ tally b whole)
    → All (λ p. tally p.0 whole ≤ envelope) sums
    → All (IsWithin envelope) sums
tallies_bound_entries envelope whole [] le h = tt
tallies_bound_entries envelope whole ((k, n) ∷ sums) le (p, h) = (
  omega (arith, tally_head k n sums, le k, p),
  tallies_bound_entries envelope whole sums (λ b. omega (arith, tally_tail b k n sums, le b)) h,
)

vram_issues_iff :
    (envelope : ℕ) (sums : List (Text × ℕ))
    → (vram_issues envelope sums ≡ []) ↔ All (IsWithin envelope) sums
unfolding vram_issues
vram_issues_iff envelope [] = ((λ e. tt), (λ h. refl))
vram_issues_iff envelope ((k, n) ∷ sums) = ground (arith, vram_issues_iff envelope sums)

pub each_of {ℓ κ} : {A : Type ℓ} (P : A → Type κ) (xs : List A) → ((x : A) → P x) → All P xs
each_of P [] f = tt
each_of P (x ∷ xs) f = (f x, each_of P xs f)

pub weaken_each {ℓ κ} :
    {A : Type ℓ} (P Q : A → Type κ) (xs : List A) → ((x : A) → P x → Q x) → All P xs → All Q xs
weaken_each P Q [] f h = tt
weaken_each P Q (x ∷ xs) f (p, h) = (f x p, weaken_each P Q xs f h)

-- The VRAM test raises no issue exactly if no backend of an entry needs more than the envelope.
pub vram_issues-budget_sums_iff :
    (envelope : ℕ) (ms : List ModelEntry)
    → (vram_issues envelope (budget_sums ms []) ≡ [])
      ↔ All (λ m. needed (backend_name m.backend) ms ≤ envelope) ms
vram_issues-budget_sums_iff envelope ms =
    let sums = budget_sums ms [] in
    let total : (b : Text) → tally b sums ≡ needed b ms =
      λ b. omega (arith, tally-budget_sums b ms []) in
    (
      (λ e. each_of _ ms (λ m.
          let bound =
            tally_bound envelope (backend_name m.backend) sums
              (budget_sums-HasDistinctKeys ms [] tt) ((vram_issues_iff envelope sums).0 e) in
          subst (λ n. n ≤ envelope) (total (backend_name m.backend)) bound)),
      (λ h.
          let totals = budget_sums-keys (λ b. needed b ms ≤ envelope) ms [] h tt in
          let within =
            weaken_each (λ p. needed p.0 ms ≤ envelope) (λ p. tally p.0 sums ≤ envelope) sums
              (λ p. subst (λ n. n ≤ envelope) (sym (total p.0))) totals in
          (vram_issues_iff envelope sums).1
            (tallies_bound_entries envelope sums sums (λ b. omega arith) within)),
    )
