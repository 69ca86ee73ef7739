-- ===== src/Dispatch/Tests.antt =====
-- The theorems on the preflight at a small models.yaml and a table as the Valkey server.
use local_llms.Base.{◌≡◌, refl, true, false, none, some, List, [], ◌∷◌, codes, includes_text}
use local_llms.Valkey.Table.{Table, table}
use local_llms.CircuitBreaker.{Config}
use local_llms.Registry.{
  chat, ollama, ollama_cloud, ModelEntry, DeprecatedAlias, RegistryStore, enabled_models, names,
  find_model, found, resolve,
}
use local_llms.Registry.Refine.{super_refine}
use local_llms.Dispatch.{own_key, resolve_alias, not_found, apply_preflight}
use local_llms.Dispatch.Outcomes.{IsOutcome, apply_preflight-IsOutcome}
use local_llms.Dispatch.Redirects.{resolve_alias-found, disabled_duplicate_hides_target}

abbrev three : Config
three = record { failure_threshold = 3; window_ms = 30000; cooldown_ms = 30000 }

abbrev blank : Table
blank k = none

abbrev big_cloud : ModelEntry
big_cloud = record {
  name = codes "big-cloud";
  backend = ollama_cloud;
  backend_url = codes "https://ollama.com/v1";
  capabilities = chat ∷ [];
  vram_budget_gb = 0;
  dims = none;
  cloud_allowed = some false;
  disabled = false;
  recommended_for = none;
  mcp_servers_enabled = none;
}

abbrev chat_local : ModelEntry
chat_local = record big_cloud {
  name = codes "chat-local";
  backend = ollama;
  backend_url = codes "http://ollama:11434/v1";
  vram_budget_gb = 6;
}

abbrev old_chat : DeprecatedAlias
old_chat = record {
  target = codes "chat-local";
  deprecated_since = codes "v0.12.0";
  removal_target = codes "v0.14.0";
}

abbrev served : List ModelEntry → RegistryStore
served models = record {
  snapshot = record {
    models = models;
    model_allowlist = some [];
    mcp_servers = none;
    deprecated_aliases = some ((codes "old-chat", old_chat) ∷ []);
    recommendations = none;
  };
  created_at_sec = 0;
}

abbrev stub : ModelEntry
stub = record chat_local { name = codes "old-chat"; disabled = true }

abbrev store : RegistryStore
store = served (big_cloud ∷ chat_local ∷ stub ∷ [])

-- A second entry named chat-local, disabled, stands before the first.
abbrev hidden : ModelEntry
hidden = record chat_local { disabled = true }

abbrev with_duplicate : RegistryStore
with_duplicate = served (hidden ∷ chat_local ∷ stub ∷ [])

apply_preflight-IsOutcome_example :
    IsOutcome table three 5 store
      (codes "old-chat")
      blank
      (apply_preflight table three 5 store (codes "old-chat") blank)
apply_preflight-IsOutcome_example =
    apply_preflight-IsOutcome table three 5 store (codes "old-chat") blank

resolve_alias-found_example :
    (entry : ModelEntry) × (resolve store
        (resolve_alias (codes "old-chat") store.snapshot).canonical
      ≡ found entry)
    × (entry.name ≡ codes "chat-local")
    × ((resolve_alias (codes "old-chat") store.snapshot).deprecation_meta
        ≡ some record {
          old_name = codes "old-chat";
          new_name = entry.name;
          deprecated_since = codes "v0.12.0";
          removal_target = codes "v0.14.0";
        })
unfolding super_refine own_key enabled_models
resolve_alias-found_example =
    resolve_alias-found 16 store (codes "old-chat") old_chat refl (refl, (refl, (refl, tt))) refl

disabled_duplicate_hides_target_example :
    (apply_preflight table three 5 with_duplicate (codes "old-chat") blank ≡ (
      blank,
      not_found (codes "chat-local") (names (enabled_models with_duplicate.snapshot.models)),
    ))
    × (includes_text (codes "chat-local") (names (enabled_models with_duplicate.snapshot.models))
        ≡ true)
unfolding super_refine own_key find_model enabled_models
disabled_duplicate_hides_target_example =
    disabled_duplicate_hides_target table three 5 16 with_duplicate (codes "old-chat") old_chat
      hidden blank refl refl refl refl
