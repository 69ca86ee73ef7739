-- ===== src/Dispatch/Outcomes.antt =====
-- The outcomes of the preflight of router/src/dispatch/preflight.ts, and when the circuit breaker
-- is asked.
use local_llms.Base.{ℕ, ◌≡◌, refl, Option, none, some, Text}
use local_llms.Valkey.{Valkey}
use local_llms.CircuitBreaker.{Config, check}
use local_llms.Registry.{
  backend_name, ModelEntry, Resolved, found, unknown_model, RegistryStore, resolve,
}
use local_llms.Dispatch.{
  resolve_alias, Violation, apply_policy_gate, Preflight, passed, not_found, refused, checked,
  after_gate, after_resolve, apply_preflight,
}
use local_llms.Dispatch.Gate.{IsPermitted, apply_policy_gate_iff}

module _ (db : Valkey) (cfg : Config) where
  open db use {Store}

  -- A request passes if its canonical name is found and permitted, with the answer of the breaker of
  -- the entry's backend; otherwise the breaker is not asked and its keys are as they were.
  abbrev pub IsOutcome : ℕ → RegistryStore → Text → Store → Store × Preflight → Type 0
  IsOutcome t registry model s (s', passed entry state meta) =
      (resolve registry (resolve_alias model registry.snapshot).canonical ≡ found entry)
      × IsPermitted registry.snapshot.model_allowlist entry
          (resolve_alias model registry.snapshot).canonical
      × (meta ≡ (resolve_alias model registry.snapshot).deprecation_meta)
      × ((s', state) ≡ check db cfg (backend_name entry.backend) t s)
  IsOutcome t registry model s (s', not_found name available) =
      (resolve registry (resolve_alias model registry.snapshot).canonical
        ≡ unknown_model name available)
      × (s' ≡ s)
  IsOutcome t registry model s (s', refused violation) =
      (entry : ModelEntry) × (resolve registry (resolve_alias model registry.snapshot).canonical
        ≡ found entry)
      × (¬ IsPermitted registry.snapshot.model_allowlist entry
          (resolve_alias model registry.snapshot).canonical)
      × (s' ≡ s)

  after_gate-IsOutcome :
      (t : ℕ) (registry : RegistryStore) (model : Text) (s : Store) (entry : ModelEntry)
      (o : Option Violation)
      → resolve registry (resolve_alias model registry.snapshot).canonical ≡ found entry
      → apply_policy_gate registry.snapshot.model_allowlist entry
          (resolve_alias model registry.snapshot).canonical
        ≡ o
      → IsOutcome t registry model s
          (after_gate db cfg t entry (resolve_alias model registry.snapshot).deprecation_meta o s)
  unfolding after_gate checked
  after_gate-IsOutcome t registry model s entry none r g =
      (r, (apply_policy_gate_iff registry.snapshot.model_allowlist entry _).0 g, refl, refl)
  after_gate-IsOutcome t registry model s entry (some violation) r g = (
    entry,
    r,
    (λ p. cc (g, (apply_policy_gate_iff registry.snapshot.model_allowlist entry _).1 p)),
    refl,
  )

  after_resolve-IsOutcome :
      (t : ℕ) (registry : RegistryStore) (model : Text) (s : Store) (o : Resolved)
      → resolve registry (resolve_alias model registry.snapshot).canonical ≡ o
      → IsOutcome t registry model s (
          after_resolve db cfg t registry.snapshot.model_allowlist
            (resolve_alias model registry.snapshot)
            o
            s)
  unfolding after_resolve
  after_resolve-IsOutcome t registry model s (unknown_model name available) r = (r, refl)
  after_resolve-IsOutcome t registry model s (found entry) r =
      after_gate-IsOutcome t registry model s entry _ r refl

  -- Every preflight has an outcome in the sense of `IsOutcome`.
  pub apply_preflight-IsOutcome :
      (t : ℕ) (registry : RegistryStore) (model : Text) (s : Store)
      → IsOutcome t registry model s (apply_preflight db cfg t registry model s)
  unfolding apply_preflight
  apply_preflight-IsOutcome t registry model s = after_resolve-IsOutcome t registry model s _ refl
