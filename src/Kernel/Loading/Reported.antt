-- ===== src/Kernel/Loading/Reported.antt =====
-- What the loader reports and what the manager has.
use personas_agentes.Common.{
  ℕ, String, ◌≡◌, refl, ◌∙◌, inl, inr, ◌⊎◌, Bool, true, false, List, [], ◌∷◌, none, some, get,
  if◌then◌else◌, string_eq, arith, Bool-cases, ◌==◌, All, All-append, Entry, plain, directory,
  Entries, end, entry,
}
use personas_agentes.Kernel.Plugins.{Kernel, Plugin, register}
use personas_agentes.Kernel.Plugins.Names.{unload_previous-get, register-get}
use personas_agentes.Kernel.Loading.{
  Export, value, throwing, stranger, plugin_class, Imported, missing, failing, module_of, Loaded,
  export_or, load_exports, load_imported, is_plugin_file, load_from_file, push_loaded,
  reload_plugin, load_entry, load_from_directory,
}

-- A plugin of the name is registered.
abbrev pub IsThere : String → Kernel → Type 0
IsThere n k = (p : Plugin) × (get n k.plugins ≡ some p)

abbrev Keeps : Kernel → Kernel → Type 0
Keeps k after = (n : String) → IsThere n k → IsThere n after

-- What is reported is there.
abbrev pub IsReported : Loaded → Type 0
IsReported (none, k) = Unit
IsReported (some p, k) = get p.name k.plugins ≡ some p

register-Keeps : (p : Plugin) (k : Kernel) → Keeps k (register p k).0
register-Keeps p k n (q, g) = elim (Bool-cases (p.name == n)) [
  | inl e ↦ (p, register-get p n k ∙ rw e refl)
  | inr e ↦ (q, register-get p n k ∙ rw e g)
]

register-there : (p : Plugin) (k : Kernel) → get p.name (register p k).0.plugins ≡ some p
register-there p k = register-get p p.name k ∙ ground (arith, string_eq.correct p.name p.name)

export_or-Good :
    (p : Plugin) (k : Kernel) (r : Kernel × Bool) (rest : Loaded)
    → get p.name r.0.plugins ≡ some p
    → Keeps k r.0
    → IsReported rest × Keeps r.0 rest.1
    → IsReported (export_or p r rest) × Keeps k (export_or p r rest).1
export_or-Good p k (after, true) rest there kept h = (there, kept)
export_or-Good p k (after, false) rest there kept h = (h.0, λ n i. h.1 n (kept n i))

load_exports-Good :
    (es : List Export) (k : Kernel) → IsReported (load_exports es k) × Keeps k (load_exports es k).1
unfolding load_exports
load_exports-Good [] k = (tt, λ n i. i)
load_exports-Good (value ∷ es) k = load_exports-Good es k
load_exports-Good (throwing ∷ es) k = load_exports-Good es k
load_exports-Good (stranger ∷ es) k = load_exports-Good es k
load_exports-Good (plugin_class p ∷ es) k =
    export_or-Good p k (register p k) (load_exports es (register p k).0) (register-there p k)
      (register-Keeps p k) (load_exports-Good es (register p k).0)

load_imported-Good :
    (i : Imported) (k : Kernel) → IsReported (load_imported i k) × Keeps k (load_imported i k).1
unfolding load_imported
load_imported-Good missing k = (tt, λ n h. h)
load_imported-Good failing k = (tt, λ n h. h)
load_imported-Good (module_of es) k = load_exports-Good es k

-- Every plugin of a list is registered under its name.
abbrev pub AllThere : List Plugin → Kernel → Type 0
AllThere ps k = All (λ p. IsThere p.name k) ps

AllThere-Keeps :
    (ps : List Plugin) (k after : Kernel) → Keeps k after → AllThere ps k → AllThere ps after
AllThere-Keeps [] k after h a = tt
AllThere-Keeps (p ∷ ps) k after h a = (h p.name a.0, AllThere-Keeps ps k after h a.1)

push_loaded-Good :
    (k : Kernel) (l : Loaded)
    → IsReported l × Keeps k l.1
    → AllThere (push_loaded l).0 (push_loaded l).1 × Keeps k (push_loaded l).1
push_loaded-Good k (none, after) h = (tt, h.1)
push_loaded-Good k (some p, after) h = (((p, h.0), tt), h.1)

module _ (imported : List ℕ → Imported) where
  -- A file that is missing or whose import throws is reported as not reloaded, and the plugin of the
  -- name is not registered any more; the other plugins are.
  pub reload_plugin-lost :
      (name : String) (path : List ℕ) (k : Kernel)
      → (imported path ≡ missing) ⊎ (imported path ≡ failing)
      → ((reload_plugin imported name path k).0 ≡ false)
        × ((n : String)
            → get n (reload_plugin imported name path k).1.plugins
              ≡ (if name == n then none else get n k.plugins))
  unfolding reload_plugin load_from_file load_imported
  reload_plugin-lost name path k h = elim h [
    | inl e ↦ (rw e refl, λ n. rw e (unload_previous-get name n k))
    | inr e ↦ (rw e refl, λ n. rw e (unload_previous-get name n k))
  ]

  module _ (join : List ℕ → List ℕ → List ℕ) where
    mutual
      unfolding load_from_directory load_from_file

      load_entry-Good :
          (path : List ℕ) (e : Entry) (k : Kernel)
          → AllThere (load_entry imported join path e k).0 (load_entry imported join path e k).1
            × Keeps k (load_entry imported join path e k).1
      load_entry-Good path (plain name) k = elim (Bool-cases (is_plugin_file name)) [
        | inl y ↦ rw y (
            push_loaded-Good k (load_imported (imported (join path name)) k)
              (load_imported-Good (imported (join path name)) k))
        | inr n ↦ rw n (tt, λ n i. i)
      ]
      load_entry-Good path (directory name inside) k =
          load_from_directory-Good (join path name) inside k

      load_from_directory-Good :
          (path : List ℕ) (es : Entries) (k : Kernel)
          → AllThere
              (load_from_directory imported join path es k).0
              (load_from_directory imported join path es k).1
            × Keeps k (load_from_directory imported join path es k).1
      load_from_directory-Good path end k = (tt, λ n i. i)
      load_from_directory-Good path (entry e es) k =
          let first = load_entry-Good path e k in
          let rest = load_from_directory-Good path es (load_entry imported join path e k).1 in
          (
            All-append _ _ _
                (AllThere-Keeps _ (load_entry imported join path e k).1
                  (load_from_directory imported join path es
                    (load_entry imported join path e k).1).1
                  rest.1 first.0)
                rest.0,
            λ n i. rest.1 n (first.1 n i),
          )

    -- After a directory is loaded, some plugin is registered under the name of every plugin that is
    -- reported and under every name that was registered before, whatever fails on the way: a plugin is
    -- only ever replaced by one of the same name. A file that is loaded alone and reported is itself
    -- what is registered under its name.
    pub load_from_directory-AllThere :
        (path : List ℕ) (es : Entries) (k : Kernel)
        → AllThere
            (load_from_directory imported join path es k).0
            (load_from_directory imported join path es k).1
          × (((n : String)
                → IsThere n k
                → IsThere n (load_from_directory imported join path es k).1)
              × IsReported (load_from_file imported path k))
    unfolding load_from_file
    load_from_directory-AllThere path es k =
        let h = load_from_directory-Good path es k in
        (h.0, (h.1, (load_imported-Good (imported path) k).0))
