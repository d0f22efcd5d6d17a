-- ===== src/Kernel/Plugins.antt =====
-- src_local/psa/tools/psa_tool_service.ts (the registry) and src_local/psa/kernel/psa_plugin.ts.
-- A tool is its name, its `isExclusive` and a number that stands for the rest of the definition
-- (description, schema and code). Of a plugin, `apply` is modelled by what it does to the registry:
-- the tools that it registers, in order, after which it may throw; `teardown` by nothing, since the
-- manager catches what it throws. A plugin that touches the registry in another way is not modelled.
pub mod Unload
pub mod Names
mod Examples
use personas_agentes.Common.{
  ℕ, String, Bool, true, false, not, List, [], ◌∷◌, Option, none, some, if◌then◌else◌, get, has,
  put, delete, keys, keep, contains, string_eq,
}

pub record Tool : Type 0 where
  pub name : String
  pub is_exclusive : Bool
  pub code : ℕ

abbrev pub Registry : Type 0
Registry = List (String × Tool)

pub register_tool : Tool → Registry → Registry
register_tool t r = put t.name t r

pub unregister_tool : String → Registry → Registry
unregister_tool name r = delete name r

pub record Plugin : Type 0 where
  pub name : String
  pub version : String
  pub tools : List Tool
  pub apply_throws : Bool

pub record Kernel : Type 0 where
  pub tools : Registry
  pub plugins : List (String × Plugin)
  pub plugin_tools : List (String × List String)

pub apply : List Tool → Registry → Registry
unfolding register_tool
apply [] r = r
apply (t ∷ ts) r = apply ts (register_tool t r)

-- The names that the registry has afterwards and had not before.
pub newly_added : Registry → Registry → List String
newly_added before after = keep (λ n. not (contains (keys before) n)) (keys after)

pub unregister_all : List String → Registry → Registry
unfolding unregister_tool
unregister_all [] r = r
unregister_all (n ∷ ns) r = unregister_all ns (unregister_tool n r)

-- `PsaPluginManager.unregister`.
pub unregister : String → Kernel → Kernel × Bool
unregister name k = elim (get name k.plugins) [
  | none ↦ (k, false)
  | some plugin ↦ elim (get name k.plugin_tools) [
    | none ↦ (record k { plugins = delete name k.plugins }, true)
    | some names ↦ (
      record {
        tools = unregister_all names k.tools;
        plugins = delete name k.plugins;
        plugin_tools = delete name k.plugin_tools;
      },
      true,
    )
  ]
]

pub unload_previous : String → Kernel → Kernel
unload_previous name k = if has name k.plugins then (unregister name k).0 else k

-- The second half of `register`. Where `apply` throws, the plugin stays, with no tools noted.
pub load : Plugin → Kernel → Kernel × Bool
load p k =
    let after = apply p.tools k.tools in
    if p.apply_throws
    then (record k { tools = after; plugins = put p.name p k.plugins }, false)
    else (
      record {
        tools = after;
        plugins = put p.name p k.plugins;
        plugin_tools = put p.name (newly_added k.tools after) k.plugin_tools;
      },
      true,
    )

-- `PsaPluginManager.register`; the flag says that the promise resolves.
pub register : Plugin → Kernel → Kernel × Bool
register p k = load p (unload_previous p.name k)
