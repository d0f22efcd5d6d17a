-- ===== src/Kernel/Loading/Examples.antt =====
-- A directory with a plugin that works and one that throws.
use personas_agentes.Common.{
  codes, ends_with, ℕ, String, ◌≡◌, refl, ◌++◌, inl, true, false, List, [], ◌∷◌, none, get,
  if◌then◌else◌, Entries, end, entry, plain, directory, string_eq, ◌==◌,
}
use personas_agentes.Kernel.Plugins.{Kernel, Plugin}
use personas_agentes.Kernel.Loading.{
  Imported, missing, module_of, plugin_class, stranger, load_from_file, load_from_directory,
  reload_plugin,
}
use personas_agentes.Kernel.Loading.Reported.{
  IsThere, IsReported, AllThere, load_from_directory-AllThere, reload_plugin-lost,
}

abbrev working : Plugin
working = record { name = "a"; version = "1"; tools = []; apply_throws = false }

abbrev throwing_plugin : Plugin
throwing_plugin = record { name = "b"; version = "1"; tools = []; apply_throws = true }

abbrev imported : List ℕ → Imported
imported path =
    if ends_with (codes "a.ts") path
    then module_of (stranger ∷ plugin_class working ∷ [])
    else if ends_with (codes "b.ts") path
    then module_of (plugin_class throwing_plugin ∷ [])
    else missing

abbrev join : List ℕ → List ℕ → List ℕ
join path name = path ++ codes "/" ++ name

abbrev inside : Entries
inside =
    entry (plain (codes "b.ts"))
      (entry (directory (codes "core") (entry (plain (codes "a.ts")) end)) end)

abbrev bare : Kernel
bare = record { tools = []; plugins = []; plugin_tools = [] }

load_from_directory-AllThere_example :
    AllThere
      (load_from_directory imported join (codes "p") inside bare).0
      (load_from_directory imported join (codes "p") inside bare).1
    × (((n : String)
          → IsThere n bare
          → IsThere n (load_from_directory imported join (codes "p") inside bare).1)
        × IsReported (load_from_file imported (codes "p") bare))
load_from_directory-AllThere_example =
    load_from_directory-AllThere imported join (codes "p") inside bare

abbrev warm : Kernel
warm = record { tools = []; plugins = ("a", working) ∷ []; plugin_tools = ("a", []) ∷ [] }

reload_plugin-lost_holds :
    ((reload_plugin imported "a" (codes "gone.ts") warm).0 ≡ false)
    × ((n : String)
        → get n (reload_plugin imported "a" (codes "gone.ts") warm).1.plugins
          ≡ (if "a" == n then none else get n warm.plugins))
reload_plugin-lost_holds = reload_plugin-lost imported "a" (codes "gone.ts") warm (inl refl)
