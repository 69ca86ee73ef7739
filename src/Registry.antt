-- ===== src/Registry.antt =====
-- The model registry of router/src/config/registry.ts: the data of models.yaml, the snapshot that
-- the router serves from, and the operations on it. Fields that no operation here reads are left
-- out of the records.
pub mod Lookup
pub mod Refine
mod Tests
use local_llms.Base.{
  ℕ, ◌/◌, Bool, true, false, ◌&&◌, not, Option, none, some, List, [], ◌∷◌, ◌++◌, map, Text, codes,
  text_eq, if◌then◌else◌,
}

pub data Capability : Type 0 where
  chat embeddings vision tools json_mode rerank : Capability

pub data Backend : Type 0 where
  ollama llamacpp vllm vllm_embed ollama_cloud : Backend

abbrev pub backend_name : Backend → Text
backend_name ollama = codes "ollama"
backend_name llamacpp = codes "llamacpp"
backend_name vllm = codes "vllm"
backend_name vllm_embed = codes "vllm-embed"
backend_name ollama_cloud = codes "ollama-cloud"

-- The tags of the source with `for` in front, since capabilities have some of the names.
pub data RecommendedForTag : Type 0 where
  for_chat for_chat_tools for_chat_json_strict for_embeddings for_rerank for_vision
        for_function_calling :
      RecommendedForTag

-- `cloud_allowed` is `policy?.cloud_allowed`. Budgets are whole multiples of a unit, which sums keep
-- exact.
pub record ModelEntry : Type 0 where
  pub name : Text
  pub backend : Backend
  pub backend_url : Text
  pub capabilities : List Capability
  pub vram_budget_gb : ℕ
  pub dims : Option ℕ
  pub cloud_allowed : Option Bool
  pub disabled : Bool
  pub recommended_for : Option (List RecommendedForTag)
  pub mcp_servers_enabled : Option (List Text)

pub record DeprecatedAlias : Type 0 where
  pub target : Text
  pub deprecated_since : Text
  pub removal_target : Text

-- `model_allowlist` is `policies?.default?.model_allowlist`, and an MCP server stands for its alias.
pub record Registry : Type 0 where
  pub models : List ModelEntry
  pub model_allowlist : Option (List Text)
  pub mcp_servers : Option (List Text)
  pub deprecated_aliases : Option (List (Text × DeprecatedAlias))
  pub recommendations : Option (List (Text × Text))

-- `?? []`, and `?? {}` for a record of entries.
abbrev pub or_empty : {A : Type 0} → Option (List A) → List A
or_empty none = []
or_empty (some xs) = xs

unfoldable pub enabled_models : List ModelEntry → List ModelEntry
enabled_models [] = []
enabled_models (m ∷ ms) = let rest = enabled_models ms in if not m.disabled then m ∷ rest else rest

abbrev pub names : List ModelEntry → List Text
names [] = []
names (m ∷ ms) = m.name ∷ names ms

-- `Array.find` by the name.
unfoldable pub find_model : Text → List ModelEntry → Option ModelEntry
find_model name [] = none
find_model name (m ∷ ms) = if text_eq m.name name then some m else find_model name ms

-- The entry, or the error with the names that it lists as available.
pub data Resolved : Type 0 where
  found : ModelEntry → Resolved
  unknown_model : Text → List Text → Resolved

abbrev resolved : Text → List Text → Option ModelEntry → Resolved
resolved name available none = unknown_model name available
resolved name available (some m) = if m.disabled then unknown_model name available else found m

pub record RegistryStore : Type 0 where
  pub snapshot : Registry
  pub created_at_sec : ℕ

-- `now` is the time in milliseconds.
pub make_registry_store : Registry → ℕ → RegistryStore
make_registry_store initial now = record { snapshot = initial; created_at_sec = now / 1000 }

unfoldable pub resolve : RegistryStore → Text → Resolved
unfolding find_model enabled_models
resolve store name =
    resolved name (names (enabled_models store.snapshot.models))
      (find_model name store.snapshot.models)

pub swap : RegistryStore → Registry → ℕ → RegistryStore
swap store next now = record { snapshot = next; created_at_sec = now / 1000 }
