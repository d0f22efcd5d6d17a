-- ===== src/Kernel/Plugins/Names.antt =====
-- Which plugins the manager has after a call.
use personas_agentes.Common.{
  String, ◌≡◌, refl, ap, ◌∙◌, inl, inr, none, some, get, has, put, delete, get-put, get-delete,
  has_iff_get, if◌then◌else◌, string_eq, arith, Bool-cases, Option-cases, ◌==◌,
}
use personas_agentes.Kernel.Plugins.{Kernel, Plugin, unregister, unload_previous, load, register}

unregister-plugins :
    (name : String) (p : Plugin) (k : Kernel)
    → get name k.plugins ≡ some p
    → (unregister name k).0.plugins ≡ delete name k.plugins
unfolding unregister
unregister-plugins name p k g = elim (Option-cases (get name k.plugin_tools)) [
  | inl n ↦ rw (unregister, g, n) refl
  | inr (ts, t) ↦ rw (unregister, g, t) refl
]

absent :
    (name n : String) (k : Kernel)
    → get name k.plugins ≡ none
    → get n k.plugins ≡ (if name == n then none else get n k.plugins)
absent name n k g = ground (arith, string_eq.correct name n, g)

-- A plugin that is unloaded is not there any more, and the others are.
pub unload_previous-get :
    (name n : String) (k : Kernel)
    → get n (unload_previous name k).plugins ≡ (if name == n then none else get n k.plugins)
unfolding unload_previous
unload_previous-get name n k = elim (Option-cases (get name k.plugins)) [
  | inl g ↦ rw ((has_iff_get name k.plugins).1 g) (absent name n k g)
  | inr (p, g) ↦ elim (Bool-cases (has name k.plugins)) [
    | inl h ↦ rw h (ap (get n) (unregister-plugins name p k g) ∙ get-delete name n k.plugins)
    | inr h ↦ ground (arith, g, (has_iff_get name k.plugins).0 h)
  ]
]

load-plugins : (p : Plugin) (k : Kernel) → (load p k).0.plugins ≡ put p.name p k.plugins
unfolding load
load-plugins p k = elim (Bool-cases p.apply_throws) [ inl e ↦ rw e refl | inr e ↦ rw e refl ]

-- A plugin is there after its registration, even where `apply` threw, beside the others.
pub register-get :
    (p : Plugin) (n : String) (k : Kernel)
    → get n (register p k).0.plugins ≡ (if p.name == n then some p else get n k.plugins)
unfolding register
register-get p n k =
    ap (get n) (load-plugins p (unload_previous p.name k))
    ∙ get-put p.name n p (unload_previous p.name k).plugins
    ∙ ground (arith, unload_previous-get p.name n k)
