-- ===== src/Diagnostics/Intelligence/Catalog.antt =====
-- src_local/engines/diagnostics/intelligence_control_engine.ts: the catalog of technologies and the
-- personas.
use personas_agentes.Common.{
  codes, includes, ℕ, String, Bool, false, ◌||◌, List, [], ◌∷◌, none, some, map, length, ltb, get,
  text_eq,
}

pub data Category : Type 0 where
  language runtime ai_slm database ipc_rpc security frontend search_engine : Category

-- The contents of the manifests that were read, by name.
abbrev pub Manifests : Type 0
Manifests = List (List ℕ × List ℕ)

pub record TechEntry : Type 0 where
  pub id : List ℕ
  pub name : List ℕ
  pub category : Category
  pub manifest_check : Manifests → Bool

pub record PersonaCapability : Type 0 where
  pub persona_key : List ℕ
  pub display_name : List ℕ
  pub service_file : List ℕ
  pub handled_technologies : List (List ℕ)
  pub rule_patterns_count : ℕ

abbrev pub package_json : List ℕ
package_json = codes "package.json"

abbrev pub manifests : List (List ℕ)
manifests = map codes (
    "package.json" ∷ "opencode.jsonc" ∷ "Cargo.toml" ∷ "go.mod" ∷ "build.zig" ∷ ".env.example" ∷ [])

-- `!!m[name]`
abbrev pub present : String → Manifests → Bool
present name m = elim (get (codes name) m) [ none ↦ false | some content ↦ ltb 0 (length content) ]

-- `!!m[name] && m[name].includes(word)`, for a word that is not empty.
abbrev pub mentions : String → String → Manifests → Bool
mentions name word m = elim (get (codes name) m) [
  | none ↦ false
  | some content ↦ includes (codes word) content
]

abbrev pub catalog_entry : String → String → Category → (Manifests → Bool) → TechEntry
catalog_entry id name category check = record {
  id = codes id;
  name = codes name;
  category = category;
  manifest_check = check;
}

unfoldable pub tech_catalog : List TechEntry
tech_catalog =
    catalog_entry "ts_bun" "TypeScript / Bun Runtime" runtime
      (λ m. mentions "package.json" "typescript" m)
    ∷ catalog_entry "slm_gguf" "SLM / Local GGUF (Llama.cpp)" ai_slm (λ m. false)
    ∷ catalog_entry "local_slm_engine" "Local SLM Engine (Llama.cpp / GGUF)" ai_slm (λ m. false)
    ∷ catalog_entry "zvec_grep" "ZvecGrep (Hybrid Vector/BM25 Search)" search_engine
        (λ m. mentions "package.json" "@zvec/zvec-grep" m)
    ∷ catalog_entry "wasm_micro_agents" "WASM Micro-Agents (WASI Runtime)" runtime
        (λ m. mentions "package.json" "wasm" m || mentions "package.json" "agents_registry" m)
    ∷ catalog_entry "zig_native_ffi" "Zig Native Analyzer & FFI" language
        (λ m. present "build.zig" m)
    ∷ catalog_entry "go_hub_grpc" "Go Hub gRPC Proxy" ipc_rpc
        (λ m. mentions "package.json" "@grpc/grpc-js" m)
    ∷ catalog_entry "rust_simd" "Rust SIMD Analyzer & FFI" language (λ m. false)
    ∷ catalog_entry "winui_dsh_desktop" "Native WinUI 3 XAML Desktop Interface" frontend
        (λ m. mentions "package.json" "ui" m)
    ∷ catalog_entry "sqlite_persistence" "SQLite Persistence & Stability Ledger" database
        (λ m. false)
    ∷ catalog_entry "micro_gpt_neural" "MicroGPT Neural Subsystem" ai_slm (λ m. false)
    ∷ []

abbrev pub capability : (List ℕ → ℕ) → String → String → String → List String → PersonaCapability
capability rules key name file handled = record {
  persona_key = codes key;
  display_name = codes name;
  service_file = codes file;
  handled_technologies = map codes handled;
  rule_patterns_count = rules (codes file);
}

-- `evaluatePersonaCapabilities`, with the number of rules in a file.
unfoldable pub super_personas : (List ℕ → ℕ) → List PersonaCapability
super_personas rules =
    capability rules "strategic_cognitive_architect" "Strategic Cognitive Architect"
      "src_local/engines/strategic/strategic_cognitive_architect_service.ts"
      ("slm_gguf" ∷ "local_slm_engine" ∷ "zvec_grep" ∷ "micro_gpt_neural" ∷ "ts_bun" ∷ [])
    ∷ capability rules "audit_code_guardian" "Audit Code Guardian"
        "src_local/engines/diagnostics/audit_code_guardian_service.ts"
        ("rust_simd" ∷ "go_hub_grpc" ∷ "ts_bun" ∷ [])
    ∷ capability rules "security_cloud_guardian" "Security Cloud Guardian"
        "src_local/engines/security/security_cloud_guardian_service.ts"
        ("ts_bun" ∷ "local_slm_engine" ∷ [])
    ∷ capability rules "architecture_types" "Architecture Types"
        "src_local/engines/analysis/architecture_types_service.ts"
        ("go_hub_grpc" ∷ "rust_simd" ∷ "ts_bun" ∷ [])
    ∷ capability rules "resilience_healing_architect" "Resilience Healing Architect"
        "src_local/engines/healing/resilience_healing_architect_service.ts"
        ("sqlite_persistence" ∷ "ts_bun" ∷ "zig_native_ffi" ∷ [])
    ∷ capability rules "sys_perf_architect" "Sys Perf Architect"
        "src_local/engines/maintenance/sys_perf_architect_service.ts"
        ("ts_bun" ∷ "wasm_micro_agents" ∷ [])
    ∷ capability rules "sync_devops_architect" "Sync DevOps Architect"
        "src_local/engines/automation/sync_devops_architect_service.ts"
        ("go_hub_grpc" ∷ "ts_bun" ∷ [])
    ∷ capability rules "ui_ux_architect" "UI/UX Architect"
        "src_local/engines/reporting/ui_ux_architect_service.ts"
        ("winui_dsh_desktop" ∷ "ts_bun" ∷ [])
    ∷ []

abbrev pub default_persona : List ℕ
default_persona = codes "strategic_cognitive_architect"

-- `techToPersonaRecommendation`
abbrev pub tech_to_persona : List (List ℕ × List ℕ)
tech_to_persona =
    (codes "wasm_micro_agents", codes "sys_perf_architect")
    ∷ (codes "zig_native_ffi", codes "resilience_healing_architect")
    ∷ []
