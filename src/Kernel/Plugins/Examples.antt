-- ===== src/Kernel/Plugins/Examples.antt =====
-- A plugin with one tool of its own and one that overrides a tool of the kernel.
use personas_agentes.Common.{String, ◌≡◌, refl, true, false, List, [], ◌∷◌, some, get, string_eq}
use personas_agentes.Kernel.Plugins.{
  Tool, Plugin, Kernel, register_tool, unregister_tool, apply, newly_added, unregister_all,
  unregister, unload_previous, load, register,
}
use personas_agentes.Kernel.Plugins.Unload.{
  visited, unregister-register, unregister-register_new, unregister-register_thrown,
}

plugins_run : Kernel → Kernel
unfolding register unload_previous load unregister apply newly_added unregister_all register_tool
    unregister_tool
plugins_run k = k

abbrev tool : String → Tool
tool name = record { name = name; is_exclusive = false; code = 1 }

abbrev kernel : Kernel
kernel = record { tools = ("fs.read", tool "fs.read") ∷ []; plugins = []; plugin_tools = [] }

abbrev better_read : Tool
better_read = record { name = "fs.read"; is_exclusive = true; code = 2 }

abbrev plugin : List Tool → Plugin
plugin ts = record { name = "p"; version = "1"; tools = ts; apply_throws = false }

unregister-register_example :
    get "fs.read" (visited (plugin (better_read ∷ tool "x" ∷ [])) kernel).tools ≡ some better_read
unfolding plugins_run
unregister-register_example =
    (unregister-register (plugin (better_read ∷ tool "x" ∷ [])) kernel (refl, refl) refl).2
      "fs.read"

unregister-register_new_holds :
    get "fs.read" (visited (plugin (tool "x" ∷ tool "y" ∷ [])) kernel).tools ≡ some (tool "fs.read")
unfolding plugins_run
unregister-register_new_holds =
    unregister-register_new (plugin (tool "x" ∷ tool "y" ∷ [])) kernel (refl, refl) refl
      (refl, (refl, tt)) "fs.read"

abbrev broken : Plugin
broken = record { name = "p"; version = "1"; tools = tool "x" ∷ []; apply_throws = true }

unregister-register_thrown_holds :
    ((register broken kernel).1 ≡ false)
    × ((unregister "p" (register broken kernel).0).1 ≡ true)
    × ((visited broken kernel).tools ≡ apply (tool "x" ∷ []) kernel.tools)
unregister-register_thrown_holds = unregister-register_thrown broken kernel (refl, refl) refl
