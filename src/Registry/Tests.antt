-- ===== src/Registry/Tests.antt =====
-- The theorems on the model registry at a small models.yaml.
use local_llms.Base.{◌≡◌, refl, true, false, none, some, [], ◌∷◌, codes, ◌↔◌}
use local_llms.Registry.{
  chat, tools, embeddings, ollama, llamacpp, ModelEntry, Registry, RegistryStore, enabled_models,
}
use local_llms.Registry.Refine.{super_refine}
use local_llms.Registry.Refine.Validity.{IsValid, super_refine_iff}

abbrev chat_local : ModelEntry
chat_local = record {
  name = codes "chat-local";
  backend = ollama;
  backend_url = codes "http://ollama:11434/v1";
  capabilities = chat ∷ tools ∷ [];
  vram_budget_gb = 6;
  dims = none;
  cloud_allowed = none;
  disabled = false;
  recommended_for = none;
  mcp_servers_enabled = none;
}

abbrev embed_local : ModelEntry
embed_local = record chat_local {
  name = codes "embed-local";
  backend = llamacpp;
  backend_url = codes "http://llamacpp:8080/v1";
  capabilities = embeddings ∷ [];
  dims = some 1024;
}

abbrev old_chat : ModelEntry
old_chat = record chat_local { name = codes "old-chat"; vram_budget_gb = 40; disabled = true }

abbrev two_models : Registry
two_models = record {
  models = chat_local ∷ embed_local ∷ old_chat ∷ [];
  model_allowlist = none;
  mcp_servers = none;
  deprecated_aliases = some (
      (
        codes "old-chat",
        record {
          target = codes "chat-local";
          deprecated_since = codes "v0.12.0";
          removal_target = codes "v0.14.0";
        },
      )
      ∷ []);
  recommendations = some ((codes "chat", codes "chat-local") ∷ []);
}

abbrev store : RegistryStore
store = record { snapshot = two_models; created_at_sec = 0 }

super_refine_iff_example : (super_refine 16 two_models ≡ []) ↔ IsValid 16 two_models
super_refine_iff_example = super_refine_iff 16 two_models

accepted : super_refine 16 two_models ≡ []
unfolding super_refine enabled_models
accepted = refl
