-- ===== src/PurgeMap/Rebuild.antt =====
-- Moving live entries to a new table (src/vmod_cachetag_purgemap.c).
use libvmod_cachetag.Base.{ℕ, ◌+◌, ◌<◌, ◌≡◌, ◌≢◌, ap, ◌∙◌, refl}
use libvmod_cachetag.Base.{true, none, some, List, [], ◌∷◌, arith}
use libvmod_cachetag.Base.{◌==◌, if◌then◌else◌, ==_iff, Bool-cases, inl, inr}
use libvmod_cachetag.Base.{length}
use mathlib.Core.Option.{or_else}
use libvmod_cachetag.PurgeMap.Table.{Entry, Table, is_live, table_insert_existing}
use libvmod_cachetag.PurgeMap.Table.View.{
  view, seqs, IsProbed, count, is_empty, is_tombstone, find-ne-endless,
}
use libvmod_cachetag.PurgeMap.Table.Assoc.{assoc, Distinct}
use libvmod_cachetag.PurgeMap.Map.{insert_live}
use libvmod_cachetag.PurgeMap.Insert.{absent_of_view, table_insert_existing-Adds}

-- `t'` is `t` with the live entries of `es`.
pub record Moves (es : List Entry) (t t' : Table) : Type 0 where
  pub probed : IsProbed t'
  pub views : (g : ℕ) → view t' g ≡ or_else (assoc es g) (view t g)
  pub width : length t' ≡ length t
  pub empties : count is_empty t' + count is_live es ≡ count is_empty t
  pub tombstones : count is_tombstone t' ≡ count is_tombstone t

-- The folds further on are still new once `e` is in the table.
new_apart :
    (e : Entry) (es : List Entry) (t t' : Table)
    → is_live e.fold ≡ true
    → (is_live e.fold ≡ true → assoc es e.fold ≡ none)
    → ((g : ℕ) → assoc (e ∷ es) g ≢ none → view t g ≡ none)
    → ((g : ℕ) → view t' g ≡ (if g == e.fold then some (seqs e) else view t g))
    → (g : ℕ) → assoc es g ≢ none
    → view t' g ≡ none
unfolding assoc
new_apart e es t t' live single apart views g h = elim (Bool-cases (g == e.fold)) [
  | inl same ↦ absurd (h (ap (assoc es) ((==_iff g e.fold).0 same) ∙ single live))
  | inr other ↦ views g ∙ rw other (apart g (ground arith))
]

pub insert_live-Moves :
    (es : List Entry) (t : Table)
    → IsProbed t
    → Distinct es
    → ((g : ℕ) → assoc es g ≢ none → view t g ≡ none)
    → count is_live es < count is_empty t
    → Moves es t (insert_live es t)
unfolding insert_live count assoc or_else
insert_live-Moves [] t probed distinct apart room = record {
  probed = probed;
  views = λ g. refl;
  width = refl;
  empties = omega arith;
  tombstones = refl;
}
insert_live-Moves (e ∷ es) t probed distinct apart room = elim (Bool-cases (is_live e.fold)) [
  | inr dead ↦
      let rest =
        insert_live-Moves es t probed distinct.1 (λ g h. apart g (rw dead h)) (ground arith) in
      rw dead (record {
        probed = rest.probed;
        views = λ g. rw dead (rest.views g);
        width = rest.width;
        empties = rw dead (omega (arith, rest.empties));
        tombstones = rest.tombstones;
      })
  | inl live ↦
      let new = apart e.fold (ground arith) in
      let gone = absent_of_view t e.fold (find-ne-endless t probed e.fold (omega arith)) new in
      let added = table_insert_existing-Adds t e probed live gone in
      let still_apart =
        new_apart e es t (table_insert_existing t e) live distinct.0 apart added.views in
      let rest =
        insert_live-Moves es (table_insert_existing t e) added.probed distinct.1 still_apart
          (ground (arith, added.counts is_empty)) in
      rw live (record {
        probed = rest.probed;
        views = λ g. rw live (
            rest.views g ∙ elim (Bool-cases (g == e.fold)) [
              | inl same ↦
                  let eq = (==_iff g e.fold).0 same in
                  let clear = ap (assoc es) eq ∙ distinct.0 live in
                  rw (clear, added.views g) (ground arith)
              | inr other ↦ rw (added.views g, other) (ground arith)
            ]);
        width = rest.width ∙ added.width;
        empties = rw live (ground (arith, rest.empties, added.counts is_empty));
        tombstones = ground (arith, rest.tombstones, added.counts is_tombstone);
      })
]
