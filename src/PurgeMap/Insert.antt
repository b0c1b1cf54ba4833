-- ===== src/PurgeMap/Insert.antt =====
-- What the insertions do to the history: an entry added, raised, or moved to another table.
use libvmod_cachetag.Base.{ℕ, ◌+◌, ◌<◌, ◌≡◌, ◌≢◌, refl}
use libvmod_cachetag.Base.{Bool, true, false, none, some, arith}
use libvmod_cachetag.Base.{◌==◌, if◌then◌else◌}
use libvmod_cachetag.Base.{length, set}
use libvmod_cachetag.Base.{length-set}
use libvmod_cachetag.PurgeMap.Table.{Entry, Table, slot, home, is_live, empty_fold}
use libvmod_cachetag.PurgeMap.Table.{at, absent, endless, find, table_insert_existing}
use libvmod_cachetag.PurgeMap.Table.Walk.{home-lt}
use libvmod_cachetag.PurgeMap.Table.Spots.{empty_loop_found}
use libvmod_cachetag.PurgeMap.Table.View.{view, seqs, IsProbed, count, count-set, to_ℕ}
use libvmod_cachetag.PurgeMap.Table.View.{IsProbed-set_new, view-set_new}

-- A fold that has no entry is absent, when the probe ends.
pub absent_of_view : (t : Table) (g : ℕ) → find t g ≢ endless → view t g ≡ none → find t g ≡ absent
unfolding view
absent_of_view t g ends h = ground arith

-- `t'` is `t` with one more entry, `e`, in a slot that held the dead fold `d`.
pub record Adds (t : Table) (e : Entry) (d : ℕ) (t' : Table) : Type 0 where
  pub probed : IsProbed t'
  pub views : (g : ℕ) → view t' g ≡ (if g == e.fold then some (seqs e) else view t g)
  pub width : length t' ≡ length t
  pub counts : (p : ℕ → Bool) → count p t' + to_ℕ (p d) ≡ count p t + to_ℕ (p e.fold)

module _ (t : Table) (e : Entry) (probed : IsProbed t) (live : is_live e.fold ≡ true)
    (new : find t e.fold ≡ absent) where
  pub set-Adds :
      (q d : ℕ)
      → q < length t
      → (slot t q).fold ≡ d
      → is_live d ≡ false
      → find (set t q e) e.fold ≡ at q
      → Adds t e d (set t q e)
  set-Adds q d hq at_q dead reach =
      let dead' : is_live (slot t q).fold ≡ false = rw at_q dead in
      record {
        probed = IsProbed-set_new t probed q e hq dead' live new reach;
        views = view-set_new t probed q e hq dead' live new reach;
        width = length-set t q e;
        counts = λ p. rw at_q at (count-set p t q e hq);
      }

  pub table_insert_existing-Adds : Adds t e empty_fold (table_insert_existing t e)
  unfolding table_insert_existing
  table_insert_existing-Adds =
      let n = length t in
      let (q, eq, hq, at_q, reach) =
        empty_loop_found t n e.fold live e n (home e.fold n) probed.sized refl refl
          (home-lt e.fold probed.sized) (unfold find in new) in
      rw eq (set-Adds q empty_fold hq at_q refl (unfold find in rw (length-set t q e) reach))
