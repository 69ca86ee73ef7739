-- ===== src/Dispatch/Gate.antt =====
-- What the policy gate of router/src/policy/gate.ts lets through.
use local_llms.Base.{
  ◌≡◌, ◌≢◌, refl, Bool, true, false, Option, none, some, List, [], ◌∷◌, Text, includes_text, ◌⊎◌,
  inl, inr, ◌↔◌, arith, length, ltb, not, ◌&&◌,
}
use local_llms.Registry.{
  Backend, ollama, llamacpp, vllm, vllm_embed, ollama_cloud, ModelEntry, or_empty,
}
use local_llms.Dispatch.{is_cloud, forbids_cloud, apply_policy_gate}

-- The allowlist is empty or has the model, and the entry is no cloud entry that forbids the cloud.
abbrev pub IsPermitted : Option (List Text) → ModelEntry → Text → Type 0
IsPermitted allowlist entry model =
    ((or_empty allowlist ≡ []) ⊎ (includes_text model (or_empty allowlist) ≡ true))
    × ((entry.backend ≢ ollama_cloud) ⊎ (entry.cloud_allowed ≢ some false))

is_cloud_iff : (b : Backend) → (is_cloud b ≡ true) ↔ (b ≡ ollama_cloud)
is_cloud_iff ollama = ((λ e. absurd (cc e)), (λ e. absurd (cc e)))
is_cloud_iff llamacpp = ((λ e. absurd (cc e)), (λ e. absurd (cc e)))
is_cloud_iff vllm = ((λ e. absurd (cc e)), (λ e. absurd (cc e)))
is_cloud_iff vllm_embed = ((λ e. absurd (cc e)), (λ e. absurd (cc e)))
is_cloud_iff ollama_cloud = ((λ e. refl), (λ e. refl))

forbids_cloud_iff : (o : Option Bool) → (forbids_cloud o ≡ true) ↔ (o ≡ some false)
forbids_cloud_iff none = ground arith
forbids_cloud_iff (some true) = ground arith
forbids_cloud_iff (some false) = ground arith

blocks_model : Text → List Text → Bool
blocks_model model allow = ltb 0 (length allow) && not (includes_text model allow)

blocks_model_iff :
    (model : Text) (allow : List Text)
    → (blocks_model model allow ≡ false) ↔ ((allow ≡ []) ⊎ (includes_text model allow ≡ true))
unfolding blocks_model
blocks_model_iff model [] = ((λ e. inl refl), (λ h. refl))
blocks_model_iff model (a ∷ allow) = ground arith

not_both_iff :
    (a b : Bool) {P Q : Type 0}
    → ((a ≡ true) ↔ P)
    → ((b ≡ true) ↔ Q)
    → ((a && b) ≡ false) ↔ ((¬ P) ⊎ (¬ Q))
not_both_iff false b p q = ((λ e. inl (λ h. cc (p.1 h))), (λ h. refl))
not_both_iff true false p q = ((λ e. inr (λ h. cc (q.1 h))), (λ h. refl))
not_both_iff true true p q = (
  (λ e. absurd (cc e)),
  (λ h. elim h [ inl n ↦ absurd (n (p.0 refl)) | inr n ↦ absurd (n (q.0 refl)) ]),
)

blocks_cloud_iff :
    (entry : ModelEntry)
    → ((is_cloud entry.backend && forbids_cloud entry.cloud_allowed) ≡ false)
      ↔ ((entry.backend ≢ ollama_cloud) ⊎ (entry.cloud_allowed ≢ some false))
blocks_cloud_iff entry =
    not_both_iff (is_cloud entry.backend) (forbids_cloud entry.cloud_allowed) (is_cloud_iff _)
      (forbids_cloud_iff _)

-- The gate throws nothing exactly if the request is permitted.
pub apply_policy_gate_iff :
    (allowlist : Option (List Text)) (entry : ModelEntry) (model : Text)
    → (apply_policy_gate allowlist entry model ≡ none) ↔ IsPermitted allowlist entry model
unfolding apply_policy_gate blocks_model
apply_policy_gate_iff allowlist entry model =
    ground (arith, blocks_model_iff model (or_empty allowlist), blocks_cloud_iff entry)
