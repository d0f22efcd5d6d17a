-- ===== src/Kernel/Loading.antt =====
-- src_local/psa/kernel/psa_plugin_loader.ts: PsaPluginLoader.
-- What a path leads to is an argument: nothing, a module whose import throws, or the exports of a
-- module in the order of its keys. A path that is passed in is absolute, and `join` puts a name
-- behind a path; a directory that does not exist is empty.
pub mod Reported
mod Examples
use personas_agentes.Common.{
  codes, codes_eq, ends_with, ℕ, String, Bool, true, false, not, ◌&&◌, ◌||◌, List, [], ◌∷◌, ◌++◌,
  Option, none, some, if◌then◌else◌, Entry, plain, directory, Entries, end, entry,
}
use personas_agentes.Kernel.Plugins.{Kernel, Plugin, unload_previous, register}

-- An export: no function, a function that cannot be constructed, one whose instance is no plugin,
-- or one whose instance is.
pub data Export : Type 0 where
  value throwing stranger : Export
  plugin_class : Plugin → Export

pub data Imported : Type 0 where
  missing failing : Imported
  module_of : List Export → Imported

-- A plugin that was loaded, if any, and the kernel.
abbrev pub Loaded : Type 0
Loaded = Option Plugin × Kernel

abbrev pub export_or : Plugin → Kernel × Bool → Loaded → Loaded
export_or p (k, true) rest = (some p, k)
export_or p (k, false) rest = rest

-- The loop over the exports. A registration that throws is caught, and the loop goes on.
pub load_exports : List Export → Kernel → Loaded
load_exports [] k = (none, k)
load_exports (value ∷ es) k = load_exports es k
load_exports (throwing ∷ es) k = load_exports es k
load_exports (stranger ∷ es) k = load_exports es k
load_exports (plugin_class p ∷ es) k = export_or p (register p k) (load_exports es (register p k).0)

pub load_imported : Imported → Kernel → Loaded
unfolding load_exports
load_imported missing k = (none, k)
load_imported failing k = (none, k)
load_imported (module_of es) k = load_exports es k

abbrev pub is_plugin_file : List ℕ → Bool
is_plugin_file name =
    (ends_with (codes ".ts") name || ends_with (codes ".js") name)
    && not (
        ends_with (codes ".test.ts") name
        || ends_with (codes ".d.ts") name
        || codes_eq name (codes "index.ts"))

-- The plugins that were loaded, and the kernel.
abbrev pub Batch : Type 0
Batch = List Plugin × Kernel

abbrev pub push_loaded : Loaded → Batch
push_loaded (none, k) = ([], k)
push_loaded (some p, k) = (p ∷ [], k)

-- `plugin !== null`
abbrev pub reported : Loaded → Bool × Kernel
reported (none, k) = (false, k)
reported (some p, k) = (true, k)

module _ (imported : List ℕ → Imported) where
  pub load_from_file : List ℕ → Kernel → Loaded
  unfolding load_imported
  load_from_file path k = load_imported (imported path) k

  pub reload_plugin : String → List ℕ → Kernel → Bool × Kernel
  unfolding load_from_file
  reload_plugin name path k = reported (load_from_file path (unload_previous name k))

  module _ (join : List ℕ → List ℕ → List ℕ) where
    unfoldable mutual
      unfolding load_from_file

      pub load_entry : List ℕ → Entry → Kernel → Batch
      load_entry path (plain name) k =
          if is_plugin_file name then push_loaded (load_from_file (join path name) k) else ([], k)
      load_entry path (directory name inside) k = load_from_directory (join path name) inside k

      pub load_from_directory : List ℕ → Entries → Kernel → Batch
      load_from_directory path end k = ([], k)
      load_from_directory path (entry e es) k =
          let first = load_entry path e k in
          let rest = load_from_directory path es first.1 in (first.0 ++ rest.0, rest.1)
