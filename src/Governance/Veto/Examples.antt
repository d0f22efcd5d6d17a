-- ===== src/Governance/Veto/Examples.antt =====
-- Paths inside and outside of ignored directories.
use personas_agentes.Common.{codes, ◌≡◌, refl, true, false, some, any}
use personas_agentes.Governance.Veto.{
  is_ignored_dir, scan, is_ignored_path, should_veto, infrastructure, legacy_artifact, should_skip,
}
use personas_agentes.Governance.Veto.Paths.{segments, is_ignored_path-segments}
use personas_agentes.Governance.Veto.Order.{join-vetoed}

ignores_inside : is_ignored_path (codes "a/dist\\b") ≡ true
unfolding is_ignored_path scan is_ignored_dir
ignores_inside = refl

reads_distance : is_ignored_path (codes "a/distance/b") ≡ false
unfolding is_ignored_path scan is_ignored_dir
reads_distance = refl

vetoes_object : should_veto (codes "a/b.o") ≡ some legacy_artifact
unfolding should_veto is_ignored_path scan is_ignored_dir
vetoes_object = refl

is_ignored_path-segments_example :
    is_ignored_path (codes "a/dist/b") ≡ any is_ignored_dir (segments (codes "a/dist/b"))
is_ignored_path-segments_example = is_ignored_path-segments (codes "a/dist/b")

ignores_modules : is_ignored_path (codes "node_modules") ≡ true
unfolding is_ignored_path scan is_ignored_dir
ignores_modules = refl

join-vetoed_holds :
    (should_veto (codes "node_modules/x.ts") ≡ some infrastructure)
    × (should_skip (λ t. t) (λ t. t) (codes "let y = 1") (codes "node_modules/x.ts") false ≡ true)
join-vetoed_holds =
    join-vetoed (λ t. t) (λ t. t) (codes "node_modules") (codes "x.ts") (codes "let y = 1") 47 false
      refl (rw ignores_modules refl)
