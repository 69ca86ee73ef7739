-- ===== src/Dispatch.antt =====
-- What comes before the dispatch of a request to a backend: deprecated aliases
-- (router/src/config/deprecation.ts), the policy gate (router/src/policy/gate.ts), and the
-- preflight that runs them with the circuit breaker (router/src/dispatch/preflight.ts).
pub mod Gate
pub mod Outcomes
pub mod Redirects
mod Tests
use local_llms.Base.{
  ℕ, Bool, true, false, ◌&&◌, not, Option, none, some, List, [], ◌∷◌, Text, codes, text_eq,
  includes_text, length, ltb, if◌then◌else◌,
}
use local_llms.Valkey.{Valkey}
use local_llms.CircuitBreaker.{BreakerState, Config, check}
use local_llms.Registry.{
  Backend, backend_name, ModelEntry, DeprecatedAlias, Registry, or_empty, Resolved, found,
  unknown_model, RegistryStore, resolve,
}

pub record DeprecationMeta : Type 0 where
  pub old_name : Text
  pub new_name : Text
  pub deprecated_since : Text
  pub removal_target : Text

pub record ResolveAliasResult : Type 0 where
  pub canonical : Text
  pub deprecation_meta : Option DeprecationMeta

-- The access `deprecated_aliases?.[alias]` to a record's own keys. The few names that every object
-- inherits, such as `constructor`, are taken not to be asked for: for them the source finds a
-- function, and goes on with the target `undefined`, which names no entry.
unfoldable pub own_key : Text → List (Text × DeprecatedAlias) → Option DeprecatedAlias
own_key alias [] = none
own_key alias ((name, dep) ∷ deps) = if text_eq name alias then some dep else own_key alias deps

abbrev redirected : Text → Option DeprecatedAlias → ResolveAliasResult
redirected alias none = record { canonical = alias; deprecation_meta = none }
redirected alias (some dep) = record {
  canonical = dep.target;
  deprecation_meta = some record {
    old_name = alias;
    new_name = dep.target;
    deprecated_since = dep.deprecated_since;
    removal_target = dep.removal_target;
  };
}

pub resolve_alias : Text → Registry → ResolveAliasResult
unfolding own_key
resolve_alias alias registry =
    redirected alias (own_key alias (or_empty registry.deprecated_aliases))

-- The errors that the gate throws.
pub data Violation : Type 0 where
  allowlist_violation : Text → Violation
  cloud_not_allowed : Text → Violation

abbrev is_cloud : Backend → Bool
is_cloud backend = text_eq (backend_name backend) (codes "ollama-cloud")

-- `cloud_allowed === false`.
abbrev forbids_cloud : Option Bool → Bool
forbids_cloud none = false
forbids_cloud (some allowed) = not allowed

-- `none` if the gate throws nothing. The policies are read for their allowlist alone.
pub apply_policy_gate : Option (List Text) → ModelEntry → Text → Option Violation
apply_policy_gate model_allowlist entry requested_model =
    let allow = or_empty model_allowlist in
    if ltb 0 (length allow) && not (includes_text requested_model allow)
    then some (allowlist_violation requested_model)
    else if is_cloud entry.backend && forbids_cloud entry.cloud_allowed
    then some (cloud_not_allowed requested_model)
    else none

pub data Preflight : Type 0 where
  passed : ModelEntry → BreakerState → Option DeprecationMeta → Preflight
  not_found : Text → List Text → Preflight
  refused : Violation → Preflight

module _ (db : Valkey) (cfg : Config) where
  open db use {Store}

  checked : ModelEntry → Option DeprecationMeta → Store × BreakerState → Store × Preflight
  checked entry meta (s, state) = (s, passed entry state meta)

  -- What follows the policy gate.
  after_gate :
      ℕ → ModelEntry → Option DeprecationMeta → Option Violation → Store → Store × Preflight
  unfolding checked
  after_gate t entry meta none s =
      checked entry meta (check db cfg (backend_name entry.backend) t s)
  after_gate t entry meta (some violation) s = (s, refused violation)

  -- What follows the resolution of the canonical name.
  after_resolve : ℕ → Option (List Text) → ResolveAliasResult → Resolved → Store → Store × Preflight
  unfolding apply_policy_gate after_gate
  after_resolve t policies alias (unknown_model name available) s = (s, not_found name available)
  after_resolve t policies alias (found entry) s =
      after_gate t entry alias.deprecation_meta (apply_policy_gate policies entry alias.canonical) s

  -- The call at time `t`. The snapshot and the resolution are read in one go, so they are of one
  -- registry.
  pub apply_preflight : ℕ → RegistryStore → Text → Store → Store × Preflight
  unfolding resolve_alias after_resolve
  apply_preflight t registry requested_model s =
      let snapshot = registry.snapshot in
      let alias = resolve_alias requested_model snapshot in
      after_resolve t snapshot.model_allowlist alias (resolve registry alias.canonical) s
