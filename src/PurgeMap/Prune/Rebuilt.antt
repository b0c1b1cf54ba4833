-- ===== src/PurgeMap/Prune/Rebuilt.antt =====
-- The map that a prune builds from a cutoff (src/vmod_cachetag_purgemap.c).
use libvmod_cachetag.Base.{ℕ, zero, suc, ◌-◌, ◌*◌, ◌/◌, ◌^◌, ◌≤◌, ◌≡◌, ap, ◌∙◌, refl}
use libvmod_cachetag.Base.{Bool, true, false, not, Option, none, some, arith}
use libvmod_cachetag.Base.{Bool-cases, ◌⊎◌, inl, inr}
use libvmod_cachetag.Base.{length, ltb, ◌<◌, ◌+◌, ◌%◌}
use native.Mathlib.Nat.{pow-suc}
use mathlib.Core.Option.{or_else}
use libvmod_cachetag.PurgeMap.Table.{Table, is_live, table_new}
use libvmod_cachetag.PurgeMap.Table.Walk.{IsSized}
use libvmod_cachetag.PurgeMap.Table.View.{view, count, count_total}
use libvmod_cachetag.PurgeMap.Table.Assoc.{assoc, Distinct, IsProbed-Distinct, view-assoc}
use libvmod_cachetag.PurgeMap.Map.{
  PurgeMap, initial_slots, size_max, double_until, overloaded, insert_live,
}
use libvmod_cachetag.PurgeMap.Rebuild.{Moves, insert_live-Moves}
use libvmod_cachetag.PurgeMap.Well.{
  IsWell, IsLoaded, history, hard_part, soft_part, table_new-IsProbed, view-table_new,
  count-table_new,
}
use libvmod_cachetag.PurgeMap.Grow.{or_else-none, double_until-IsSized, le-double_until}
use libvmod_cachetag.PurgeMap.Prune.{newest_of, count_upto, Pruning, prune_entries}
use libvmod_cachetag.PurgeMap.Prune.Scan.{tally}
use libvmod_cachetag.PurgeMap.Prune.Floors.{
  kept_of, prune_entries-replacement, length-newest_of, count-kept_of, Raised, prune_entries-hard,
  prune_entries-soft, KeptOrGone, prune_entries-KeptOrGone, kept_of-Distinct,
}

-- The doubling ends by its test, whatever the test, if that holds for the last value in reach.
pub double_until_ends :
    (fuel : ℕ) (enough : ℕ → Bool) (n : ℕ)
    → enough (n * 2 ^ fuel) ≡ true
    → enough (double_until fuel enough n) ≡ true
unfolding double_until
double_until_ends zero enough n h = let e : n * 2 ^ 0 ≡ n = omega arith in rw e at h
double_until_ends (suc fuel) enough n h = elim (Bool-cases (enough n)) [
  | inl now ↦ rw now now
  | inr later ↦
      let e : n * 2 ^ suc fuel ≡ n * 2 * 2 ^ fuel = rw (pow-suc 2 fuel) (omega arith) in
      rw later (double_until_ends fuel enough (n * 2) (rw e at h))
]

-- How many of the folds were last purged before `cutoff`.
abbrev pub older : Option Table → ℕ → ℕ
older none cutoff = 0
older (some t) cutoff = tally (λ n. ltb n cutoff) (newest_of t)

-- The cutoff of a prune to `limit` leaves three quarters of the limit, and one fold, that were purged
-- at the cutoff or later; without a prune it is 0.
abbrev pub IsSparing : PurgeMap → ℕ → ℕ → Type 0
IsSparing pm limit cutoff =
    (cutoff ≡ 0) ⊎ (older pm.table cutoff + limit * 75 % 2 ^ 64 / 100 < pm.nentry)

-- What a prune to `limit` makes of a map: each fold's history is kept or is gone to the floors, and
-- the floors rise to the cutoff at most.
pub record Prunes (pm : PurgeMap) (limit cutoff : ℕ) (pm' : PurgeMap) : Type 0 where
  pub well : IsWell pm'
  pub same_seq : pm'.seq ≡ pm.seq
  pub same_memo : pm'.memo_seq ≡ pm.memo_seq
  pub recent : cutoff ≤ pm.seq
  pub sparing : IsSparing pm limit cutoff
  pub bounded : (limit ≡ 0) ⊎ (pm'.nentry ≤ limit)
  pub fates :
      (g : ℕ)
      → KeptOrGone cutoff (history pm.table g) (history pm'.table g) pm'.hard_floor pm'.soft_floor
  pub hard : Raised pm.hard_floor pm'.hard_floor cutoff
  pub soft : Raised pm.soft_floor pm'.soft_floor cutoff

pub unpruned :
    (pm : PurgeMap) (limit : ℕ)
    → IsWell pm
    → (limit ≡ 0) ⊎ (pm.nentry ≤ limit)
    → Prunes pm limit 0 pm
unpruned pm limit well small = record {
  well = well;
  same_seq = refl;
  same_memo = refl;
  recent = omega arith;
  sparing = inl refl;
  bounded = small;
  fates = λ g. inl refl;
  hard = record { grows = omega arith; bound = inl (omega arith) };
  soft = record { grows = omega arith; bound = inl (omega arith) };
}

module _ (pm : PurgeMap) (t : Table) (limit cutoff : ℕ) (well : IsWell pm)
    (table : pm.table ≡ some t) (loaded : IsLoaded pm.nentry t) (recent : cutoff ≤ pm.seq) where
  pub distinct : Distinct t
  distinct = IsProbed-Distinct t loaded.probed

  abbrev pub kept : ℕ
  kept = length (newest_of t) - count_upto cutoff (newest_of t)

  abbrev pub nslot : ℕ
  nslot = double_until 64 (λ n. not (overloaded kept n)) initial_slots

  abbrev pub start : Pruning
  start = record {
    replacement = table_new nslot;
    hard_floor = pm.hard_floor;
    soft_floor = pm.soft_floor;
    pruned = 0;
  }

  abbrev pub loop : Pruning
  loop = prune_entries cutoff t start

  abbrev pub pruned_map : PurgeMap
  pruned_map = record pm {
    table = some loop.replacement;
    nentry = kept;
    ntombstone = 0;
    hard_floor = loop.hard_floor;
    soft_floor = loop.soft_floor;
  }

  count-kept : count is_live (kept_of cutoff t) ≡ kept
  count-kept = omega (arith, count-kept_of cutoff t, length-newest_of t)

  module _ (few : pm.nentry ≤ size_max / 8) where
    fits : overloaded kept nslot ≡ false
    fits =
        let end =
          double_until_ends 64 (λ n. not (overloaded kept n)) initial_slots
            (let small : kept ≤ size_max / 8 = omega (arith, length-newest_of t, loaded.live) in
              ground arith) in
        ground arith

    wide : initial_slots ≤ nslot
    wide = le-double_until 64 (λ n. not (overloaded kept n)) initial_slots

    sized : IsSized nslot
    sized = double_until-IsSized 64 (λ n. not (overloaded kept n)) initial_slots (4, refl)

    moved :
        Moves
          (kept_of cutoff t)
          (table_new nslot)
          (insert_live (kept_of cutoff t) (table_new nslot))
    moved =
        let (empty, tombs, width) = count-table_new nslot in
        let light = fits in
        let size = wide in
        insert_live-Moves (kept_of cutoff t) (table_new nslot) (table_new-IsProbed nslot sized)
          (kept_of-Distinct cutoff t start distinct) (λ g h. view-table_new nslot sized g)
          (let c = count-kept in ground arith)

    replaced : loop.replacement ≡ insert_live (kept_of cutoff t) (table_new nslot)
    replaced = prune_entries-replacement cutoff t start

    loop-IsLoaded : IsLoaded kept loop.replacement
    loop-IsLoaded =
        let (empty, tombs, width) = count-table_new nslot in
        let m = moved in
        let light = fits in
        rw replaced (record {
          probed = m.probed;
          live = omega (
            arith,
            count_total (insert_live (kept_of cutoff t) (table_new nslot)),
            m.empties,
            m.tombstones,
            m.width,
            count-kept,
          );
          tombstones = m.tombstones ∙ tombs;
          size = rw (m.width, width) wide;
          load = rw (m.width, width) (ground arith);
        })

    fate :
        (g : ℕ)
        → KeptOrGone cutoff
            (history pm.table g)
            (history (some loop.replacement) g)
            loop.hard_floor
            loop.soft_floor
    fate g =
        let new : view loop.replacement g ≡ assoc (kept_of cutoff t) g =
          ap (λ r. view r g) replaced
          ∙ moved.views g
          ∙ ap (λ o. or_else (assoc (kept_of cutoff t) g) o) (view-table_new nslot sized g)
          ∙ or_else-none (assoc (kept_of cutoff t) g) in
        let old : history pm.table g ≡ assoc t g =
          ap (λ o. history o g) table ∙ view-assoc t loaded.probed g in
        rw (old, new) (prune_entries-KeptOrGone cutoff g t start distinct)

    floor_past : (old new : ℕ) → old ≤ pm.seq → Raised old new cutoff → new ≤ pm.seq
    floor_past old new h r = elim r.bound [ inl b ↦ omega arith | inr b ↦ omega arith ]

    part_past :
        (part : Option (ℕ × ℕ) → ℕ) (g : ℕ)
        → part none ≡ 0
        → part (history pm.table g) ≤ pm.seq
        → part (history (some loop.replacement) g) ≤ pm.seq
    part_past part g zeroed h = elim (fate g) [
      | inl same ↦ rw same h
      | inr gone ↦ rw (gone.0, zeroed) (omega arith)
    ]

    pub pruned-Prunes : kept ≤ limit → IsSparing pm limit cutoff → Prunes pm limit cutoff pruned_map
    pruned-Prunes small sparing =
        let hard = prune_entries-hard cutoff t start in
        let soft = prune_entries-soft cutoff t start in
        record {
          well = record {
            tabled = loop-IsLoaded;
            clean = refl;
            hard_past = λ g. part_past hard_part g refl (well.hard_past g);
            soft_past = λ g. part_past soft_part g refl (well.soft_past g);
            hard_floor_past = floor_past pm.hard_floor loop.hard_floor well.hard_floor_past hard;
            soft_floor_past = floor_past pm.soft_floor loop.soft_floor well.soft_floor_past soft;
            memo_past = well.memo_past;
          };
          same_seq = refl;
          same_memo = refl;
          recent = recent;
          sparing = sparing;
          bounded = inr small;
          fates = fate;
          hard = hard;
          soft = soft;
        }
