-- ===== src/Registry/Lookup.antt =====
-- What `resolve` of router/src/config/registry.ts serves and what it hides.
use mathlib.Core.Option.{some-injective}
use local_llms.Base.{
  All, ◌↔◌, ◌≡◌, refl, sym, ap, ◌∙◌, Bool, true, false, Option, none, some, List, [], ◌∷◌, Text,
  text_eq, text_eq_iff, includes_text, if◌then◌else◌, arith, Bool-cases, inl, inr, subst,
}
use local_llms.Registry.{
  ModelEntry, enabled_models, names, find_model, Resolved, found, unknown_model, resolved,
  RegistryStore, resolve,
}

abbrev pub HasDistinctNames : List ModelEntry → Type 0
HasDistinctNames [] = Unit
HasDistinctNames (m ∷ ms) = (includes_text m.name (names ms) ≡ false) × HasDistinctNames ms

abbrev if_enabled : Option ModelEntry → Option ModelEntry
if_enabled none = none
if_enabled (some m) = if m.disabled then none else some m

find_model_absent :
    (name : Text) (ms : List ModelEntry)
    → includes_text name (names ms) ≡ false
    → find_model name (enabled_models ms) ≡ none
unfolding find_model enabled_models
find_model_absent name [] h = refl
find_model_absent name (m ∷ ms) h = ground (arith, find_model_absent name ms)

first_absent :
    (name other : Text) (ms : List ModelEntry)
    → text_eq other name ≡ true
    → includes_text other (names ms) ≡ false
    → find_model name (enabled_models ms) ≡ none
first_absent name other ms e h =
    find_model_absent name ms
      (subst (λ n. includes_text n (names ms) ≡ false) ((text_eq_iff other name).0 e) h)

find_model-enabled_models :
    (name : Text) (ms : List ModelEntry)
    → HasDistinctNames ms
    → find_model name (enabled_models ms) ≡ if_enabled (find_model name ms)
unfolding find_model enabled_models
find_model-enabled_models name [] h = refl
find_model-enabled_models name (m ∷ ms) h =
    let rest = find_model-enabled_models name ms h.1 in
    elim (Bool-cases (text_eq m.name name)) [
      | inl e ↦ ground (arith, first_absent name m.name ms e h.0, e)
      | inr e ↦ ground (arith, rest, e)
    ]

find_model_of_name :
    (name : Text) (ms : List ModelEntry)
    → includes_text name (names ms) ≡ true
    → (m : ModelEntry) × (find_model name ms ≡ some m)
unfolding find_model
find_model_of_name name [] h = absurd (cc h)
find_model_of_name name (m ∷ ms) h = elim (Bool-cases (text_eq m.name name)) [
  | inl e ↦ (m, ground (arith, e))
  | inr e ↦
      let (m', f) = find_model_of_name name ms (ground (arith, e, h)) in (m', ground (arith, e, f))
]

enabled_models_twice :
    (ms : List ModelEntry) → enabled_models (enabled_models ms) ≡ enabled_models ms
unfolding enabled_models
enabled_models_twice [] = refl
enabled_models_twice (m ∷ ms) = ground (arith, enabled_models_twice ms)

-- The store with the disabled entries taken out of its snapshot.
abbrev pub without_disabled : RegistryStore → RegistryStore
without_disabled store = record store {
  snapshot = record store.snapshot { models = enabled_models store.snapshot.models };
}

resolved-if_enabled :
    (name : Text) (available : List Text) (o : Option ModelEntry)
    → resolved name available o ≡ resolved name available (if_enabled o)
resolved-if_enabled name available none = refl
resolved-if_enabled name available (some m) = elim (Bool-cases m.disabled) [
  | inl d ↦ ground (arith, d)
  | inr d ↦ ground (arith, d)
]

-- If no two entries have one name, the registry answers every name as if its disabled entries were
-- not there: with the same entry, or with the same error and the same list of available names.
pub resolve-without_disabled :
    (store : RegistryStore) (name : Text)
    → HasDistinctNames store.snapshot.models
    → resolve store name ≡ resolve (without_disabled store) name
unfolding resolve
resolve-without_disabled store name h =
    let ms = store.snapshot.models in
    let available = names (enabled_models ms) in
    resolved-if_enabled name available (find_model name ms)
    ∙ ap (resolved name available) (sym (find_model-enabled_models name ms h))
    ∙ ap (λ xs. resolved name (names xs) (find_model name (enabled_models ms)))
        (sym (enabled_models_twice ms))

-- An entry has the name asked for, is enabled, and the name is one of an enabled entry. An error
-- names what was asked for, which no enabled entry has, and lists the names of the enabled entries.
abbrev pub IsAnswer : List ModelEntry → Text → Resolved → Type 0
IsAnswer models name (found entry) =
    (entry.name ≡ name)
    × (entry.disabled ≡ false)
    × (includes_text name (names (enabled_models models)) ≡ true)
IsAnswer models name (unknown_model asked available) =
    (asked ≡ name)
    × (available ≡ names (enabled_models models))
    × (includes_text name (names (enabled_models models)) ≡ false)

module _ (P : ModelEntry → Type 0) (name : Text) where
  first_found :
      (m x : ModelEntry) (o : Option ModelEntry) (b : Bool)
      → P x
      → text_eq x.name name ≡ b
      → (o ≡ some m → P m × (text_eq m.name name ≡ true))
      → (if b then some x else o) ≡ some m
      → P m × (text_eq m.name name ≡ true)
  first_found m x o true p t rest e =
      subst (λ z. P z × (text_eq z.name name ≡ true)) (some-injective _ _ e) (p, t)
  first_found m x o false p t rest e = rest e

  find_model-All :
      (xs : List ModelEntry) (m : ModelEntry)
      → All P xs
      → find_model name xs ≡ some m
      → P m × (text_eq m.name name ≡ true)
  unfolding find_model
  find_model-All [] m h e = absurd (cc e)
  find_model-All (x ∷ xs) m (p, h) e =
      first_found m x (find_model name xs) (text_eq x.name name) p refl (find_model-All xs m h) e

enabled_models-All : (ms : List ModelEntry) → All (λ m. m.disabled ≡ false) (enabled_models ms)
unfolding enabled_models
enabled_models-All [] = tt
enabled_models-All (m ∷ ms) = ground (arith, enabled_models-All ms)

includes_text_find :
    (name : Text) (xs : List ModelEntry)
    → (includes_text name (names xs) ≡ false) ↔ (find_model name xs ≡ none)
unfolding find_model
includes_text_find name [] = ground arith
includes_text_find name (x ∷ xs) = ground (arith, includes_text_find name xs)

resolved_lem :
    (models : List ModelEntry) (name : Text) (o : Option ModelEntry)
    → find_model name (enabled_models models) ≡ o
    → IsAnswer models name (resolved name (names (enabled_models models)) o)
resolved_lem models name none e =
    (refl, refl, (includes_text_find name (enabled_models models)).1 e)
resolved_lem models name (some m) e =
    let (on, t) =
      find_model-All (λ m. m.disabled ≡ false) name (enabled_models models) m
        (enabled_models-All models) e in
    elim (Bool-cases (includes_text name (names (enabled_models models)))) [
      | inl i ↦ ground (arith, on, i, (text_eq_iff m.name name).0 t)
      | inr i ↦ absurd (cc (e, (includes_text_find name (enabled_models models)).0 i))
    ]

-- If no two entries have one name, `resolve` answers in the sense of `IsAnswer`: it finds an entry
-- exactly for the names of the enabled ones.
pub resolve-IsAnswer :
    (store : RegistryStore) (name : Text)
    → HasDistinctNames store.snapshot.models
    → IsAnswer store.snapshot.models name (resolve store name)
unfolding resolve
resolve-IsAnswer store name h =
    let ms = store.snapshot.models in
    let available = names (enabled_models ms) in
    let e = resolved-if_enabled name available (find_model name ms) in
    let e' = ap (resolved name available) (sym (find_model-enabled_models name ms h)) in
    subst (IsAnswer ms name) (sym (e ∙ e'))
      (resolved_lem ms name (find_model name (enabled_models ms)) refl)

pub resolve_first_disabled :
    (store : RegistryStore) (name : Text) (entry : ModelEntry)
    → find_model name store.snapshot.models ≡ some entry
    → entry.disabled ≡ true
    → resolve store name ≡ unknown_model name (names (enabled_models store.snapshot.models))
unfolding resolve
resolve_first_disabled store name entry f d =
    ap (resolved name (names (enabled_models store.snapshot.models))) f
    ∙ ap
        (λ b.
          if b
          then unknown_model name (names (enabled_models store.snapshot.models))
          else found entry)
        d
