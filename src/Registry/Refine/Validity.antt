-- ===== src/Registry/Refine/Validity.antt =====
-- What a registry satisfies that the validation of router/src/config/registry.ts accepts.
use local_llms.Base.{
  ℕ, ◌≤◌, ◌≡◌, ◌≢◌, refl, Bool, true, false, Option, none, some, List, [], ◌∷◌, ◌++◌, Text,
  includes_text, All, ◌↔◌, ◌⊎◌, arith, Bool-cases, inl, inr, ◌&&◌,
}
use local_llms.Registry.{
  backend_name, ModelEntry, DeprecatedAlias, Registry, or_empty, enabled_models, names,
}
use local_llms.Registry.Refine.{
  Issue, issue_if, missing_dims, embeds, undeclared, vram_issues, budget_sums, url_issues,
  url_backends, dims_issues, server_issues, mcp_issues, deprecation_issues, recommendation_issues,
  super_refine,
}
use local_llms.Registry.Refine.Budgets.{needed, vram_issues-budget_sums_iff}
use local_llms.Registry.Refine.Urls.{HasUniqueUrls, url_issues-url_backends_iff}

abbrev pub HasDims : ModelEntry → Type 0
HasDims m = (embeds m.capabilities ≡ false) ⊎ (m.dims ≢ none)

abbrev pub IsDeclared : List Text → Text → Type 0
IsDeclared declared name = includes_text name declared ≡ true

-- No backend of an entry needs more memory than the envelope, a URL has one backend, embeddings
-- have dimensions, MCP servers are declared, redirects lead from known to enabled names, and
-- recommended names are enabled.
pub record IsValid (envelope : ℕ) (reg : Registry) : Type 0 where
  pub within_envelope : All (λ m. needed (backend_name m.backend) reg.models ≤ envelope) reg.models
  pub unique_urls : HasUniqueUrls (enabled_models reg.models)
  pub dims_declared : All HasDims (enabled_models reg.models)
  pub servers_declared :
      All
        (λ m. All (IsDeclared (or_empty reg.mcp_servers)) (or_empty m.mcp_servers_enabled))
        reg.models
  pub redirects_known :
      All
        (λ p.
          IsDeclared (names (enabled_models reg.models)) p.1.target
          × IsDeclared (names reg.models) p.0)
        (or_empty reg.deprecated_aliases)
  pub recommended_enabled :
      All (λ p. IsDeclared (names (enabled_models reg.models)) p.1) (or_empty reg.recommendations)

has_dims_iff :
    (b : Bool) (o : Option ℕ) → ((b && undeclared o) ≡ false) ↔ ((b ≡ false) ⊎ (o ≢ none))
has_dims_iff false o = ((λ e. inl refl), (λ h. refl))
has_dims_iff true none =
    ((λ e. absurd (cc e)), (λ h. elim h [ inl e ↦ absurd (cc e) | inr n ↦ absurd (n refl) ]))
has_dims_iff true (some d) = ((λ e. inr (λ h. cc h)), (λ h. refl))

issue_if_iff :
    (b : Bool) (i : Issue) (rest : List Issue)
    → (issue_if b i rest ≡ []) ↔ ((b ≡ false) × (rest ≡ []))
issue_if_iff true i rest = ((λ e. absurd (cc e)), (λ h. absurd (cc h.0)))
issue_if_iff false i rest = ((λ e. (refl, e)), (λ h. h.1))

dims_issues_iff : (ms : List ModelEntry) → (dims_issues ms ≡ []) ↔ All HasDims (enabled_models ms)
unfolding dims_issues enabled_models
dims_issues_iff [] = ((λ e. tt), (λ h. refl))
dims_issues_iff (m ∷ ms) =
    let rest = dims_issues_iff ms in
    let dims = has_dims_iff (embeds m.capabilities) m.dims in
    let split =
      issue_if_iff (embeds m.capabilities && undeclared m.dims) (missing_dims m.name)
        (dims_issues ms) in
    elim (Bool-cases m.disabled) [
      | inl d ↦ simp d rest
      | inr d ↦ simp d (
        (λ e. let (here, later) = split.0 e in (dims.0 here, rest.0 later)),
        (λ h. split.1 (dims.1 h.0, rest.1 h.1)),
      )
    ]

server_issues_iff :
    (declared : List Text) (name : Text) (refs : List Text)
    → (server_issues declared name refs ≡ []) ↔ All (IsDeclared declared) refs
unfolding server_issues
server_issues_iff declared name [] = ((λ e. tt), (λ h. refl))
server_issues_iff declared name (ref ∷ refs) = ground (arith, server_issues_iff declared name refs)

append_nil_iff : (xs ys : List Issue) → (xs ++ ys ≡ []) ↔ ((xs ≡ []) × (ys ≡ []))
append_nil_iff [] ys = ((λ e. (refl, e)), (λ h. h.1))
append_nil_iff (x ∷ xs) ys = ((λ e. absurd (cc e)), (λ h. absurd (cc h.0)))

mcp_issues_iff :
    (declared : List Text) (ms : List ModelEntry)
    → (mcp_issues declared ms ≡ [])
      ↔ All (λ m. All (IsDeclared declared) (or_empty m.mcp_servers_enabled)) ms
unfolding mcp_issues
mcp_issues_iff declared [] = ((λ e. tt), (λ h. refl))
mcp_issues_iff declared (m ∷ ms) =
    let (down, up) =
      append_nil_iff (server_issues declared m.name (or_empty m.mcp_servers_enabled))
        (mcp_issues declared ms) in
    let here = server_issues_iff declared m.name (or_empty m.mcp_servers_enabled) in
    let rest = mcp_issues_iff declared ms in
    ((λ e. (here.0 (down e).0, rest.0 (down e).1)), (λ h. up (here.1 h.0, rest.1 h.1)))

deprecation_issues_iff :
    (enabled all : List Text) (deps : List (Text × DeprecatedAlias))
    → (deprecation_issues enabled all deps ≡ [])
      ↔ All (λ p. IsDeclared enabled p.1.target × IsDeclared all p.0) deps
unfolding deprecation_issues
deprecation_issues_iff enabled all [] = ((λ e. tt), (λ h. refl))
deprecation_issues_iff enabled all ((name, dep) ∷ deps) =
    ground (arith, deprecation_issues_iff enabled all deps)

recommendation_issues_iff :
    (enabled : List Text) (recs : List (Text × Text))
    → (recommendation_issues enabled recs ≡ []) ↔ All (λ p. IsDeclared enabled p.1) recs
unfolding recommendation_issues
recommendation_issues_iff enabled [] = ((λ e. tt), (λ h. refl))
recommendation_issues_iff enabled ((key, target) ∷ recs) =
    ground (arith, recommendation_issues_iff enabled recs)

-- The validation raises no issue exactly if the registry is valid in the sense of `IsValid`.
pub super_refine_iff :
    (envelope : ℕ) (reg : Registry) → (super_refine envelope reg ≡ []) ↔ IsValid envelope reg
unfolding super_refine
super_refine_iff envelope reg =
    let enabled = names (enabled_models reg.models) in
    let vram = vram_issues-budget_sums_iff envelope reg.models in
    let urls = url_issues-url_backends_iff reg.models in
    let dims = dims_issues_iff reg.models in
    let mcp = mcp_issues_iff (or_empty reg.mcp_servers) reg.models in
    let deps =
      deprecation_issues_iff enabled (names reg.models) (or_empty reg.deprecated_aliases) in
    let recs = recommendation_issues_iff enabled (or_empty reg.recommendations) in
    let a = append_nil_iff (vram_issues envelope (budget_sums reg.models [])) _ in
    let b = append_nil_iff (url_issues (url_backends reg.models [])) _ in
    let c = append_nil_iff (dims_issues reg.models) _ in
    let d = append_nil_iff (mcp_issues (or_empty reg.mcp_servers) reg.models) _ in
    let f =
      append_nil_iff
        (deprecation_issues enabled (names reg.models) (or_empty reg.deprecated_aliases))
        (recommendation_issues enabled (or_empty reg.recommendations)) in
    (
      (λ e.
          let (p, e) = a.0 e in
          let (q, e) = b.0 e in
          let (r, e) = c.0 e in
          let (s, e) = d.0 e in
          let (t, u) = f.0 e in
          record {
            within_envelope = vram.0 p;
            unique_urls = urls.0 q;
            dims_declared = dims.0 r;
            servers_declared = mcp.0 s;
            redirects_known = deps.0 t;
            recommended_enabled = recs.0 u;
          }),
      (λ v. a.1 (
        vram.1 v.within_envelope,
        b.1 (
          urls.1 v.unique_urls,
          c.1 (
            dims.1 v.dims_declared,
            d.1 (
              mcp.1 v.servers_declared,
              f.1 (deps.1 v.redirects_known, recs.1 v.recommended_enabled),
            ),
          ),
        ),
      )),
    )
