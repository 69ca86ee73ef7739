-- ===== src/Dispatch/Redirects.antt =====
-- Where deprecated aliases lead (router/src/config/deprecation.ts and
-- router/src/dispatch/preflight.ts) in a registry that the validation accepts.
use mathlib.Core.Option.{some-injective}
use local_llms.Base.{
  ℕ, ◌≡◌, refl, sym, ap, ◌∙◌, subst, Bool, true, false, Option, some, List, [], ◌∷◌, Text, text_eq,
  includes_text, if◌then◌else◌, All,
}
use local_llms.Valkey.{Valkey}
use local_llms.CircuitBreaker.{Config}
use local_llms.Registry.{
  ModelEntry, DeprecatedAlias, Registry, or_empty, enabled_models, names, find_model, Resolved,
  found, unknown_model, RegistryStore, resolve,
}
use local_llms.Registry.Lookup.{
  HasDistinctNames, IsAnswer, resolve-IsAnswer, resolve_first_disabled,
}
use local_llms.Registry.Refine.{super_refine}
use local_llms.Registry.Refine.Validity.{super_refine_iff}
use local_llms.Dispatch.{
  own_key, redirected, resolve_alias, not_found, after_resolve, apply_preflight,
}

found_dep :
    (P : Text × DeprecatedAlias → Type 0) (alias : Text) (p : Text × DeprecatedAlias)
    (dep : DeprecatedAlias) (o : Option DeprecatedAlias) (b : Bool)
    → P p
    → (o ≡ some dep → (name : Text) × P (name, dep))
    → (if b then some p.1 else o) ≡ some dep
    → (name : Text) × P (name, dep)
found_dep P alias p dep o true h rest e = (p.0, subst (λ d. P (p.0, d)) (some-injective _ _ e) h)
found_dep P alias p dep o false h rest e = rest e

own_key-All :
    (P : Text × DeprecatedAlias → Type 0) (alias : Text) (deps : List (Text × DeprecatedAlias))
    (dep : DeprecatedAlias)
    → All P deps
    → own_key alias deps ≡ some dep
    → (name : Text) × P (name, dep)
unfolding own_key
own_key-All P alias [] dep h e = absurd (cc e)
own_key-All P alias ((name, d) ∷ deps) dep (p, h) e =
    found_dep P alias (name, d) dep (own_key alias deps) (text_eq name alias) p
      (own_key-All P alias deps dep h) e

served_of_answer :
    (models : List ModelEntry) (name : Text) (r : Resolved)
    → includes_text name (names (enabled_models models)) ≡ true
    → IsAnswer models name r
    → (entry : ModelEntry) × (r ≡ found entry) × (entry.name ≡ name)
served_of_answer models name (found entry) i a = (entry, refl, a.0)
served_of_answer models name (unknown_model asked available) i a = absurd (cc (i, a.2))

target_enabled :
    (envelope : ℕ) (reg : Registry) (alias : Text) (dep : DeprecatedAlias)
    → super_refine envelope reg ≡ []
    → own_key alias (or_empty reg.deprecated_aliases) ≡ some dep
    → includes_text dep.target (names (enabled_models reg.models)) ≡ true
target_enabled envelope reg alias dep v k =
    let valid = (super_refine_iff envelope reg).0 v in
    (own_key-All _ alias (or_empty reg.deprecated_aliases) dep valid.redirects_known k).1.0

-- In a registry that the validation accepts and in which no two entries have one name, a deprecated
-- alias leads to an entry with the name of its target, and the metadata names both.
pub resolve_alias-found :
    (envelope : ℕ) (registry : RegistryStore) (alias : Text) (dep : DeprecatedAlias)
    → super_refine envelope registry.snapshot ≡ []
    → HasDistinctNames registry.snapshot.models
    → own_key alias (or_empty registry.snapshot.deprecated_aliases) ≡ some dep
    → (entry : ModelEntry) × (resolve registry (resolve_alias alias registry.snapshot).canonical
        ≡ found entry)
      × (entry.name ≡ dep.target)
      × ((resolve_alias alias registry.snapshot).deprecation_meta
          ≡ some record {
            old_name = alias;
            new_name = entry.name;
            deprecated_since = dep.deprecated_since;
            removal_target = dep.removal_target;
          })
unfolding resolve_alias
resolve_alias-found envelope registry alias dep v d k =
    let enabled = target_enabled envelope registry.snapshot alias dep v k in
    let (entry, r, n) = served_of_answer _ _ _ enabled (resolve-IsAnswer registry dep.target d) in
    (
      entry,
      ap (λ o. resolve registry (redirected alias o).canonical) k ∙ r,
      n,
      ap (λ o. (redirected alias o).deprecation_meta) k
          ∙ ap
              (λ name. some record {
                old_name = alias;
                new_name = name;
                deprecated_since = dep.deprecated_since;
                removal_target = dep.removal_target;
              })
              (sym n),
    )

-- Where the first entry with the name of the target is disabled and a later one is enabled, the
-- validation still accepts the registry, but a request for the deprecated alias fails: the target
-- is reported as unknown, in an error that lists it as available.
pub disabled_duplicate_hides_target :
    (db : Valkey) (cfg : Config) (t envelope : ℕ) (registry : RegistryStore) (alias : Text)
    (dep : DeprecatedAlias) (entry : ModelEntry) (s : Valkey.Store db)
    → super_refine envelope registry.snapshot ≡ []
    → own_key alias (or_empty registry.snapshot.deprecated_aliases) ≡ some dep
    → find_model dep.target registry.snapshot.models ≡ some entry
    → entry.disabled ≡ true
    → (apply_preflight db cfg t registry alias s
        ≡ (s, not_found dep.target (names (enabled_models registry.snapshot.models))))
      × (includes_text dep.target (names (enabled_models registry.snapshot.models)) ≡ true)
unfolding apply_preflight after_resolve resolve_alias
disabled_duplicate_hides_target db cfg t envelope registry alias dep entry s v k f d =
    let models = registry.snapshot.models in
    let unknown = resolve_first_disabled registry dep.target entry f d in
    let policies = registry.snapshot.model_allowlist in
    (
      ap
            (λ o.
              after_resolve db cfg t policies (redirected alias o)
                (resolve registry (redirected alias o).canonical) s)
            k
          ∙ ap (λ r. after_resolve db cfg t policies (redirected alias (some dep)) r s) unknown,
      target_enabled envelope registry.snapshot alias dep v k,
    )
