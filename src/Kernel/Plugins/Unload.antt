-- ===== src/Kernel/Plugins/Unload.antt =====
-- What is left of a plugin after it is unloaded.
use personas_agentes.Common.{
  String, ◌≡◌, refl, ap, ◌∙◌, Bool, true, false, not, ◌&&◌, ◌||◌, List, [], ◌∷◌, none,
  if◌then◌else◌, get, has, put, delete, keys, keep, contains, string_eq, arith, eq_iff, get-put,
  get-delete, has-put, delete-put, contains-keys, has_iff_get, All,
}
use personas_agentes.Kernel.Plugins.{
  Tool, Registry, register_tool, unregister_tool, Plugin, Kernel, apply, newly_added,
  unregister_all, unregister, unload_previous, load, register,
}

abbrev pub names : List Tool → List String
names [] = []
names (t ∷ ts) = t.name ∷ names ts

-- None of the tools is in the registry.
abbrev pub AllNew : List Tool → Registry → Type 0
AllNew ts r = All (λ t. has t.name r ≡ false) ts

get-apply :
    (ts : List Tool) (r : Registry) (n : String)
    → contains (names ts) n ≡ false
    → get n (apply ts r) ≡ get n r
unfolding apply register_tool
get-apply [] r n h = refl
get-apply (t ∷ ts) r n h = ground (arith, get-apply ts (put t.name t r) n, get-put t.name n t r)

get-unregister_all :
    (ns : List String) (r : Registry) (n : String)
    → get n (unregister_all ns r) ≡ (if contains ns n then none else get n r)
unfolding unregister_all unregister_tool
get-unregister_all [] r n = refl
get-unregister_all (m ∷ ns) r n =
    ground (arith, get-unregister_all ns (delete m r) n, get-delete m n r)

has-apply :
    (ts : List Tool) (r : Registry) (n : String)
    → has n (apply ts r) ≡ (contains (names ts) n || has n r)
unfolding apply register_tool
has-apply [] r n = refl
has-apply (t ∷ ts) r n = ground (arith, has-apply ts (put t.name t r) n, has-put t.name n t r)

contains-keep :
    (p : String → Bool) (l : List String) (n : String)
    → contains (keep p l) n ≡ (contains l n && p n)
contains-keep p [] n = refl
contains-keep p (m ∷ l) n = ground (arith, contains-keep p l n, eq_iff m n, ap p {x = m} {y = n})

contains-newly_added :
    (ts : List Tool) (r : Registry) (n : String)
    → contains (newly_added r (apply ts r)) n ≡ (contains (names ts) n && not (has n r))
unfolding newly_added
contains-newly_added ts r n = ground (
  arith,
  contains-keep (λ m. not (contains (keys r) m)) (keys (apply ts r)) n,
  contains-keys n r,
  contains-keys n (apply ts r),
  has-apply ts r n,
)

-- Neither map of the manager knows the name.
abbrev pub IsUnknown : String → Kernel → Type 0
IsUnknown name k = (has name k.plugins ≡ false) × (has name k.plugin_tools ≡ false)

abbrev loaded : Plugin → Kernel → Kernel
loaded p k = record {
  tools = apply p.tools k.tools;
  plugins = put p.name p k.plugins;
  plugin_tools = put p.name (newly_added k.tools (apply p.tools k.tools)) k.plugin_tools;
}

register_lem :
    (p : Plugin) (k : Kernel)
    → has p.name k.plugins ≡ false
    → p.apply_throws ≡ false
    → register p k ≡ (loaded p k, true)
unfolding register unload_previous load
register_lem p k absent works = ground arith

unregister-loaded :
    (p : Plugin) (k : Kernel)
    → IsUnknown p.name k
    → unregister p.name (loaded p k) ≡ (
      record {
        tools =
            unregister_all (newly_added k.tools (apply p.tools k.tools)) (apply p.tools k.tools);
        plugins = k.plugins;
        plugin_tools = k.plugin_tools;
      },
      true,
    )
unfolding unregister
unregister-loaded p k u = ground (
  arith,
  eq_iff p.name p.name,
  get-put p.name p.name p k.plugins,
  get-put p.name p.name (newly_added k.tools (apply p.tools k.tools)) k.plugin_tools,
  delete-put p.name p k.plugins u.0,
  delete-put p.name (newly_added k.tools (apply p.tools k.tools)) k.plugin_tools u.1,
)

-- The kernel after `p` is registered and unregistered again.
abbrev pub visited : Plugin → Kernel → Kernel
visited p k = (unregister p.name (register p k).0).0

visited_lem :
    (p : Plugin) (k : Kernel)
    → IsUnknown p.name k
    → p.apply_throws ≡ false
    → visited p k ≡ record {
      tools = unregister_all (newly_added k.tools (apply p.tools k.tools)) (apply p.tools k.tools);
      plugins = k.plugins;
      plugin_tools = k.plugin_tools;
    }
visited_lem p k u works =
    ap (λ t. (unregister p.name t.0).0) (register_lem p k u.0 works)
    ∙ ap (λ t. t.0) (unregister-loaded p k u)

-- After a plugin that was unknown, and whose `apply` does not throw, is registered and unregistered
-- again, the manager's maps are as they were; a tool whose name was free before is gone, and a tool whose name was taken is the one
-- that the plugin left there: what it overrode does not come back.
pub unregister-register :
    (p : Plugin) (k : Kernel)
    → IsUnknown p.name k
    → p.apply_throws ≡ false
    → ((visited p k).plugins ≡ k.plugins)
      × ((visited p k).plugin_tools ≡ k.plugin_tools)
      × ((n : String)
          → get n (visited p k).tools
            ≡ (if has n k.tools then get n (apply p.tools k.tools) else none))
unregister-register p k u works = rw (visited_lem p k u works) (
  refl,
  refl,
  λ n. ground (
    arith,
    get-unregister_all (newly_added k.tools (apply p.tools k.tools)) (apply p.tools k.tools) n,
    contains-newly_added p.tools k.tools n,
    has-apply p.tools k.tools n,
    has_iff_get n (apply p.tools k.tools),
  ),
)

AllNew-absent :
    (ts : List Tool) (r : Registry) (n : String)
    → AllNew ts r
    → has n r ≡ true
    → contains (names ts) n ≡ false
AllNew-absent [] r n h there = refl
AllNew-absent (t ∷ ts) r n h there =
    ground
      (arith, AllNew-absent ts r n h.1, eq_iff t.name n, ap (λ m. has m r) {x = t.name} {y = n})

-- So a plugin whose tools all have free names leaves no trace: every look-up gives what it gave.
pub unregister-register_new :
    (p : Plugin) (k : Kernel)
    → IsUnknown p.name k
    → p.apply_throws ≡ false
    → AllNew p.tools k.tools
    → (n : String) → get n (visited p k).tools ≡ get n k.tools
unregister-register_new p k u works new n = ground (
  arith,
  (unregister-register p k u works).2 n,
  get-apply p.tools k.tools n,
  AllNew-absent p.tools k.tools n new,
  has_iff_get n k.tools,
)

-- A plugin whose `apply` throws stays registered with no tools noted: unregistering it succeeds and
-- leaves every tool that it registered in the registry.
pub unregister-register_thrown :
    (p : Plugin) (k : Kernel)
    → IsUnknown p.name k
    → p.apply_throws ≡ true
    → ((register p k).1 ≡ false)
      × ((unregister p.name (register p k).0).1 ≡ true)
      × ((visited p k).tools ≡ apply p.tools k.tools)
unfolding register unload_previous load unregister
unregister-register_thrown p k u fails = ground (
  arith,
  eq_iff p.name p.name,
  get-put p.name p.name p k.plugins,
  has_iff_get p.name k.plugin_tools,
)
