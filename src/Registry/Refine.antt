-- ===== src/Registry/Refine.antt =====
-- The cross-field validation of models.yaml, `superRefine` of `RegistrySchema` in
-- router/src/config/registry.ts. An issue stands for the message with these parts.
pub mod Budgets
pub mod Urls
pub mod Validity
use local_llms.Base.{
  ℕ, ◌+◌, Bool, true, false, ◌&&◌, not, Option, none, some, List, [], ◌∷◌, ◌++◌, Text, text_eq,
  includes_text, ltb, if◌then◌else◌,
}
use local_llms.Registry.{
  Capability, chat, embeddings, vision, tools, json_mode, rerank, backend_name, ModelEntry,
  DeprecatedAlias, Registry, or_empty, enabled_models, names,
}

pub data Issue : Type 0 where
  over_envelope : Text → ℕ → ℕ → Issue
  shared_url : Text → List Text → Issue
  missing_dims : Text → Issue
  unknown_mcp_server : Text → Text → Issue
  target_not_enabled : Text → Text → Issue
  unknown_deprecated_key : Text → Issue
  recommendation_not_enabled : Text → Text → Issue

abbrev issue_if : Bool → Issue → List Issue → List Issue
issue_if true i rest = i ∷ rest
issue_if false i rest = rest

-- `sums.set(backend, (sums.get(backend) ?? 0) + gb)`.
unfoldable pub add_budget : Text → ℕ → List (Text × ℕ) → List (Text × ℕ)
add_budget backend gb [] = (backend, gb) ∷ []
add_budget backend gb ((name, sum) ∷ sums) =
    let rest = add_budget backend gb sums in
    if text_eq name backend then (name, sum + gb) ∷ sums else (name, sum) ∷ rest

unfoldable pub budget_sums : List ModelEntry → List (Text × ℕ) → List (Text × ℕ)
unfolding add_budget
budget_sums [] sums = sums
budget_sums (m ∷ ms) sums =
    if m.disabled
    then budget_sums ms sums
    else budget_sums ms (add_budget (backend_name m.backend) m.vram_budget_gb sums)

unfoldable pub vram_issues : ℕ → List (Text × ℕ) → List Issue
vram_issues envelope [] = []
vram_issues envelope ((name, sum) ∷ sums) =
    issue_if (ltb envelope sum) (over_envelope name sum envelope) (vram_issues envelope sums)

-- `Set.add`.
abbrev add_text : Text → List Text → List Text
add_text t ts = if includes_text t ts then ts else ts ++ t ∷ []

-- `urlToBackends` with the backend of an entry added under its URL.
unfoldable pub add_url : Text → Text → List (Text × List Text) → List (Text × List Text)
add_url url backend [] = (url, backend ∷ []) ∷ []
add_url url backend ((u, backends) ∷ urls) =
    let rest = add_url url backend urls in
    if text_eq u url then (u, add_text backend backends) ∷ urls else (u, backends) ∷ rest

unfoldable pub url_backends : List ModelEntry → List (Text × List Text) → List (Text × List Text)
unfolding add_url
url_backends [] urls = urls
url_backends (m ∷ ms) urls =
    if m.disabled
    then url_backends ms urls
    else url_backends ms (add_url m.backend_url (backend_name m.backend) urls)

-- `backends.size > 1`; the message sorts the backends.
abbrev is_shared : List Text → Bool
is_shared [] = false
is_shared (b ∷ []) = false
is_shared (b ∷ c ∷ bs) = true

unfoldable pub url_issues : List (Text × List Text) → List Issue
url_issues [] = []
url_issues ((url, backends) ∷ urls) =
    issue_if (is_shared backends) (shared_url url backends) (url_issues urls)

abbrev pub is_embeddings : Capability → Bool
is_embeddings embeddings = true
is_embeddings chat = false
is_embeddings vision = false
is_embeddings tools = false
is_embeddings json_mode = false
is_embeddings rerank = false

abbrev pub embeds : List Capability → Bool
embeds [] = false
embeds (c ∷ cs) = if is_embeddings c then true else embeds cs

abbrev undeclared : Option ℕ → Bool
undeclared none = true
undeclared (some dims) = false

unfoldable pub dims_issues : List ModelEntry → List Issue
dims_issues [] = []
dims_issues (m ∷ ms) =
    let rest = dims_issues ms in
    if m.disabled
    then rest
    else issue_if (embeds m.capabilities && undeclared m.dims) (missing_dims m.name) rest

unfoldable pub server_issues : List Text → Text → List Text → List Issue
server_issues declared name [] = []
server_issues declared name (ref ∷ refs) =
    issue_if (not (includes_text ref declared)) (unknown_mcp_server name ref)
      (server_issues declared name refs)

-- Disabled entries are checked too.
unfoldable pub mcp_issues : List Text → List ModelEntry → List Issue
unfolding server_issues
mcp_issues declared [] = []
mcp_issues declared (m ∷ ms) =
    server_issues declared m.name (or_empty m.mcp_servers_enabled) ++ mcp_issues declared ms

unfoldable pub deprecation_issues :
    List Text → List Text → List (Text × DeprecatedAlias) → List Issue
deprecation_issues enabled all [] = []
deprecation_issues enabled all ((old_name, entry) ∷ deps) =
    issue_if (not (includes_text entry.target enabled)) (target_not_enabled old_name entry.target) (
      issue_if (not (includes_text old_name all)) (unknown_deprecated_key old_name)
        (deprecation_issues enabled all deps))

unfoldable pub recommendation_issues : List Text → List (Text × Text) → List Issue
recommendation_issues enabled [] = []
recommendation_issues enabled ((key, target) ∷ recs) =
    issue_if (not (includes_text target enabled)) (recommendation_not_enabled key target)
      (recommendation_issues enabled recs)

-- `parse` succeeds if there is no issue. The envelope is read from the environment.
unfoldable pub super_refine : ℕ → Registry → List Issue
unfolding budget_sums vram_issues url_backends url_issues dims_issues mcp_issues deprecation_issues
    recommendation_issues
super_refine envelope reg =
    let enabled = names (enabled_models reg.models) in
    vram_issues envelope (budget_sums reg.models [])
    ++ (url_issues (url_backends reg.models [])
        ++ (dims_issues reg.models
            ++ (mcp_issues (or_empty reg.mcp_servers) reg.models
                ++ (deprecation_issues enabled (names reg.models) (or_empty reg.deprecated_aliases)
                    ++ recommendation_issues enabled (or_empty reg.recommendations)))))
