-- ===== src/PurgeMap/Upsert.antt =====
-- The upsert as a change of the history (src/vmod_cachetag_purgemap.c).
use libvmod_cachetag.Base.{ℕ, ◌+◌, ◌-◌, ◌*◌, ◌≤◌, ◌<◌, ◌≡◌, ap, ◌∙◌, refl, sym}
use libvmod_cachetag.Base.{Bool, true, false, Option, none, some, arith}
use libvmod_cachetag.Base.{ltb, ◌==◌, if◌then◌else◌}
use libvmod_cachetag.Base.{length, set}
use libvmod_cachetag.Base.{length-set}
use libvmod_cachetag.PurgeMap.Table.{
  Entry, Table, slot, home, is_live, empty_fold, tombstone_fold, find, at, absent,
}
use libvmod_cachetag.PurgeMap.Table.{Spot, hit, vacant, lost, upsert_loop}
use libvmod_cachetag.PurgeMap.Table.Walk.{home-lt}
use libvmod_cachetag.PurgeMap.Table.Spots.{
  upsert_hit, upsert_lost, upsert_vacant, upsert_vacant_found,
}
use libvmod_cachetag.PurgeMap.Table.View.{
  view, seqs, found_at, count, count-set, to_ℕ, is_empty, is_tombstone, count_total, find_sound,
  find-ne-endless, IsProbed-set_same, view-set_same,
}
use libvmod_cachetag.PurgeMap.Map.{
  PurgeMap, Mode, hard, soft, raise_entry, fresh_entry, upsert_at, upsert_in, apply_upsert,
  max_load_percent,
}
use libvmod_cachetag.PurgeMap.Insert.{Adds, set-Adds}
use libvmod_cachetag.PurgeMap.Well.{IsLoaded, hard_part, soft_part}

-- The larger of an old sequence and a new one.
abbrev pub raise_to : ℕ → ℕ → ℕ
raise_to old seq = if ltb old seq then seq else old

-- What an upsert at `seq` makes of an entry of the history.
abbrev pub raised : Option (ℕ × ℕ) → ℕ → Mode → ℕ × ℕ
raised o seq hard = (raise_to (hard_part o) seq, soft_part o)
raised o seq soft = (hard_part o, raise_to (soft_part o) seq)

-- `pm'` is `pm` with the purge of `fold` at `seq` in its table `t`.
pub record Upserts (pm : PurgeMap) (t : Table) (fold seq : ℕ) (mode : Mode) (pm' : PurgeMap)
    : Type 0 where
  pub t' : Table
  pub table : pm'.table ≡ some t'
  pub loaded : IsLoaded pm'.nentry t'
  pub width : length t' ≡ length t
  pub views :
      (g : ℕ) → view t' g ≡ (if g == fold then some (raised (view t fold) seq mode) else view t g)
  pub rest :
      (pm'.ntombstone ≡ pm.ntombstone)
      × (pm'.seq ≡ pm.seq)
      × (pm'.memo_seq ≡ pm.memo_seq)
      × (pm'.hard_floor ≡ pm.hard_floor)
      × (pm'.soft_floor ≡ pm.soft_floor)
      × (pm'.nentry ≤ pm.nentry + 1)

raise_entry_fold : (e : Entry) (seq : ℕ) (mode : Mode) → (raise_entry e seq mode).fold ≡ e.fold
raise_entry_fold e seq hard = ground arith
raise_entry_fold e seq soft = ground arith

seqs-raise_entry :
    (e : Entry) (seq : ℕ) (mode : Mode)
    → seqs (raise_entry e seq mode) ≡ raised (some (seqs e)) seq mode
seqs-raise_entry e seq hard = ground arith
seqs-raise_entry e seq soft = ground arith

fresh_entry_lem :
    (fold seq : ℕ) (mode : Mode)
    → 0 < seq
    → ((fresh_entry fold seq mode).fold ≡ fold)
      × (seqs (fresh_entry fold seq mode) ≡ raised none seq mode)
fresh_entry_lem fold seq hard h = (refl, ground arith)
fresh_entry_lem fold seq soft h = (refl, ground arith)

not_dead : (fold : ℕ) → is_live fold ≡ true → to_ℕ (is_tombstone fold) ≡ 0
not_dead fold live = ground arith

abbrev spot : Table → ℕ → Spot
spot t fold = upsert_loop (length t) t (length t) fold (home fold (length t)) none

module _ (pm : PurgeMap) (t : Table) (fold seq : ℕ) (mode : Mode) (live : is_live fold ≡ true)
    (pos_seq : 0 < seq) (loaded : IsLoaded pm.nentry t)
    (room : (pm.nentry + 1) * 100 ≤ length t * max_load_percent) where
  room_left : 0 < count is_empty t
  room_left = omega (arith, count_total t, loaded.live, loaded.tombstones, loaded.size)

  -- The upsert of a fold that has an entry.
  hit-Upserts :
      (pos : ℕ)
      → spot t fold ≡ hit pos
      → Upserts pm t fold seq mode
          (record pm { table = some (set t pos (raise_entry (slot t pos) seq mode)) })
  hit-Upserts pos at_pos =
      let v = raise_entry (slot t pos) seq mode in
      let hit_pos : find t fold ≡ at pos =
        unfold find in
        upsert_hit t (length t) fold live (length t) (home fold (length t)) none pos at_pos in
      let (hq, fq, l) = find_sound t fold pos loaded.probed.sized hit_pos in
      let same = raise_entry_fold (slot t pos) seq mode in
      let vf : v.fold ≡ fold = same ∙ fq in
      let vt : view t fold ≡ some (seqs (slot t pos)) = unfold view in found_at t pos hit_pos in
      let sv : seqs v ≡ raised (view t fold) seq mode =
        seqs-raise_entry (slot t pos) seq mode ∙ ap (λ o. raised o seq mode) (sym vt) in
      let counted = λ (p : ℕ → Bool). count-set p t pos v hq in
      record {
        t' = set t pos v;
        table = refl;
        loaded = record {
          probed = IsProbed-set_same t loaded.probed pos v hq same;
          live = omega (arith, counted is_live, ap (λ f. to_ℕ (is_live f)) same, loaded.live);
          tombstones = omega (
            arith,
            counted is_tombstone,
            ap (λ f. to_ℕ (is_tombstone f)) same,
            loaded.tombstones,
          );
          size = rw (length-set t pos v) loaded.size;
          load = rw (length-set t pos v) loaded.load;
        };
        width = length-set t pos v;
        views = λ g. view-set_same t loaded.probed pos v hq same g (rw vf hit_pos) ∙ λ i.
            if g == vf i then some (sv i) else view t g;
        rest = (refl, refl, refl, refl, refl, omega arith);
      }

  -- The upsert of a new fold.
  module _ (pos : ℕ) (reused : Bool) (at_pos : spot t fold ≡ vacant pos reused) where
    abbrev taken : ℕ
    taken = if reused then tombstone_fold else empty_fold

    new_fold : find t fold ≡ absent
    unfolding find
    new_fold =
        upsert_vacant t (length t) fold live (length t) (home fold (length t)) none pos reused
          at_pos

    vacant-Adds : Adds t (fresh_entry fold seq mode) taken (set t pos (fresh_entry fold seq mode))
    vacant-Adds =
        let v = fresh_entry fold seq mode in
        let vf = (fresh_entry_lem fold seq mode pos_seq).0 in
        let (hq, fq, reach) =
          upsert_vacant_found t (length t) fold live v (length t) (home fold (length t)) pos reused
            loaded.probed.sized refl vf (home-lt fold loaded.probed.sized) at_pos in
        set-Adds t v loaded.probed (rw vf live) (rw vf new_fold) pos taken hq fq (ground arith)
          (rw vf (unfold find in rw (length-set t pos v) reach))

    -- There is no tombstone to reuse.
    not_reused : reused ≡ false
    not_reused =
        let v = fresh_entry fold seq mode in
        let vf = (fresh_entry_lem fold seq mode pos_seq).0 in
        let counted = vacant-Adds.counts is_tombstone in
        let dead = ap (λ f. to_ℕ (is_tombstone f)) vf in ground (arith, loaded.tombstones)

    vacant-Upserts : Upserts pm t fold seq mode (record pm {
      table = some (set t pos (fresh_entry fold seq mode));
      ntombstone = if reused then pm.ntombstone - 1 else pm.ntombstone;
      nentry = pm.nentry + 1;
    })
    vacant-Upserts =
        let v = fresh_entry fold seq mode in
        let (vf, vs) = fresh_entry_lem fold seq mode pos_seq in
        let added = vacant-Adds in
        let vt : view t fold ≡ none = unfold view in rw new_fold in
        let sv : seqs v ≡ raised (view t fold) seq mode =
          vs ∙ ap (λ o. raised o seq mode) (sym vt) in
        let tl = ap (λ b. to_ℕ (is_live (if b then tombstone_fold else empty_fold))) not_reused in
        let td =
          ap (λ b. to_ℕ (is_tombstone (if b then tombstone_fold else empty_fold))) not_reused in
        let lv = ap (λ f. to_ℕ (is_live f)) vf in
        let dv = ap (λ f. to_ℕ (is_tombstone f)) vf in
        record {
          t' = set t pos v;
          table = refl;
          loaded = record {
            probed = added.probed;
            live = omega (arith, added.counts is_live, lv, ap to_ℕ live, tl, loaded.live);
            tombstones =
                omega
                  (arith, added.counts is_tombstone, dv, td, not_dead fold live, loaded.tombstones);
            size = rw added.width loaded.size;
            load = rw added.width room;
          };
          width = added.width;
          views = λ g. added.views g ∙ λ i. if g == vf i then some (sv i) else view t g;
          rest = (rw not_reused, refl, refl, refl, refl, omega arith);
        }

  pub upsert_at-Upserts :
      (s : Spot)
      → spot t fold ≡ s
      → (r : PurgeMap × Bool) × (upsert_at pm t fold seq mode s ≡ some r)
        × Upserts pm t fold seq mode r.0
  upsert_at-Upserts (hit pos) e = (_, refl, hit-Upserts pos e)
  upsert_at-Upserts (vacant pos reused) e = (_, refl, vacant-Upserts pos reused e)
  upsert_at-Upserts lost e = absurd (
      find-ne-endless t loaded.probed fold room_left (
        unfold find in upsert_lost t (length t) fold live (length t) (home fold (length t)) none e))

-- For a live fold, a positive sequence and a loaded table with room for one more entry,
-- `apply_upsert_locked` ends, and its map has the purge of the fold, all else that was there, and a
-- loaded table again.
pub apply_upsert-Upserts :
    (pm : PurgeMap) (t : Table) (fold seq : ℕ) (mode : Mode)
    → is_live fold ≡ true
    → 0 < seq
    → pm.table ≡ some t
    → IsLoaded pm.nentry t
    → (pm.nentry + 1) * 100 ≤ length t * max_load_percent
    → (r : PurgeMap × Bool) × (apply_upsert pm fold seq mode ≡ some r)
      × Upserts pm t fold seq mode r.0
unfolding apply_upsert
apply_upsert-Upserts pm t fold seq mode live pos_seq table loaded room =
    let (r, e, up) =
      upsert_at-Upserts pm t fold seq mode live pos_seq loaded room (spot t fold) refl in
    (r, ap (λ o. upsert_in o pm fold seq mode) table ∙ e, up)
