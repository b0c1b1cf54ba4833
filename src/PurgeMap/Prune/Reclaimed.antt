-- ===== src/PurgeMap/Prune/Reclaimed.antt =====
-- The map that a reclaim builds, and its verdicts (src/vmod_cachetag_purgemap.c).
use libvmod_cachetag.Base.{ℕ, ◌/◌, ◌≤◌, ◌≡◌, ap, ◌∙◌, refl}
use libvmod_cachetag.Base.{false, not, List, arith}
use libvmod_cachetag.Base.{length}
use mathlib.Core.Option.{or_else}
use libvmod_cachetag.PurgeMap.Table.{Entry, Table, table_new}
use libvmod_cachetag.PurgeMap.Table.Walk.{IsSized}
use libvmod_cachetag.PurgeMap.Table.View.{view, count_total}
use libvmod_cachetag.PurgeMap.Table.Assoc.{assoc, Distinct}
use libvmod_cachetag.PurgeMap.Map.{initial_slots, size_max, double_until, overloaded, insert_live}
use libvmod_cachetag.PurgeMap.Rebuild.{Moves, insert_live-Moves}
use libvmod_cachetag.PurgeMap.Well.{IsLoaded, table_new-IsProbed, view-table_new, count-table_new}
use libvmod_cachetag.PurgeMap.Grow.{or_else-none, double_until-IsSized, le-double_until}
use libvmod_cachetag.PurgeMap.Prune.{survivors, insert_all}
use libvmod_cachetag.PurgeMap.Prune.Rebuilt.{double_until_ends}
use libvmod_cachetag.PurgeMap.Prune.Reclaim.{
  trim, assoc-survivors, survivors-Distinct, count-survivors, insert_all-survivors,
}

module _ (cutoff : ℕ) (es : List Entry) where
  abbrev pub kept : ℕ
  kept = length (survivors cutoff es)

  abbrev nslot : ℕ
  nslot = double_until 64 (λ n. not (overloaded kept n)) initial_slots

  abbrev pub built : Table
  built = insert_all (survivors cutoff es) (table_new nslot)

  module _ (distinct : Distinct es) (few : length (survivors cutoff es) ≤ size_max / 8) where
    fits : overloaded kept nslot ≡ false
    fits =
        let end =
          double_until_ends 64 (λ n. not (overloaded kept n)) initial_slots (ground arith) in
        ground arith

    wide : initial_slots ≤ nslot
    wide = le-double_until 64 (λ n. not (overloaded kept n)) initial_slots

    sized : IsSized nslot
    sized = double_until-IsSized 64 (λ n. not (overloaded kept n)) initial_slots (4, refl)

    moved :
        Moves
          (survivors cutoff es)
          (table_new nslot)
          (insert_live (survivors cutoff es) (table_new nslot))
    moved =
        let (empty, tombs, width) = count-table_new nslot in
        let light = fits in
        let size = wide in
        insert_live-Moves (survivors cutoff es) (table_new nslot) (table_new-IsProbed nslot sized)
          (survivors-Distinct cutoff es distinct) (λ g h. view-table_new nslot sized g)
          (let c = count-survivors cutoff es in ground arith)

    same : built ≡ insert_live (survivors cutoff es) (table_new nslot)
    same = insert_all-survivors cutoff es (table_new nslot)

    pub built-IsLoaded : IsLoaded kept built
    built-IsLoaded =
        let (empty, tombs, width) = count-table_new nslot in
        let m = moved in
        let light = fits in
        rw same (record {
          probed = m.probed;
          live = omega (
            arith,
            count_total (insert_live (survivors cutoff es) (table_new nslot)),
            m.empties,
            m.tombstones,
            m.width,
            count-survivors cutoff es,
          );
          tombstones = m.tombstones ∙ tombs;
          size = rw (m.width, width) wide;
          load = rw (m.width, width) (ground arith);
        })

    pub view-built : (g : ℕ) → view built g ≡ trim cutoff (assoc es g)
    view-built g =
        ap (λ r. view r g) same
        ∙ moved.views g
        ∙ ap (λ o. or_else (assoc (survivors cutoff es) g) o) (view-table_new nslot sized g)
        ∙ or_else-none (assoc (survivors cutoff es) g)
        ∙ assoc-survivors cutoff g es distinct
