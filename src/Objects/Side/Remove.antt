-- ===== src/Objects/Side/Remove.antt =====
-- A removal from a side table, as a change of what it stands for (src/vmod_cachetag_index.c).
use libvmod_cachetag.Base.{ℕ, ◌+◌, ◌-◌, ◌<◌, ◌≡◌, ◌≢◌, ap, ◌∙◌, refl, sym}
use libvmod_cachetag.Base.{true, false, none, some, arith}
use libvmod_cachetag.Base.{◌==◌, if◌then◌else◌}
use libvmod_cachetag.Base.{length, set, length-set, get_or-set_self, get_or-set_ne, count_if-set}
use libvmod_cachetag.Objects.Side.{
  Objects, object_at, bucket, bucket_of, no_bucket, bucket_tombstone, bucket_live, tombstone,
  table_tombstone, SideTable,
}
use libvmod_cachetag.Objects.Side.Probe.{slot_of}
use libvmod_cachetag.Objects.Side.Writes.{slot_found, IsMapped-tombstone, seek-removed}
use libvmod_cachetag.Objects.Side.Tables.{IsTable, slot_in, table_find-seek}

-- A removal of the address that a live bucket names.
pub record Removes (os : Objects) (bits : ℕ) (t : SideTable) (q oc : ℕ) (t' : SideTable)
    : Type 0 where
  pub table : IsTable os bits t'
  pub size : t'.buckets ≡ t.buckets
  pub live : t'.live + 1 ≡ t.live
  pub used : t'.live + t'.tombstones ≡ t.live + t.tombstones
  pub here : bucket_live (bucket_of t'.map q) ≡ false
  pub others : (p : ℕ) → p ≢ q → bucket_of t'.map p ≡ bucket_of t.map p
  pub slots : (g : ℕ) → slot_in os bits t' g ≡ (if g == oc then none else slot_in os bits t g)

module _ (os : Objects) (bits : ℕ) (t : SideTable) (table : IsTable os bits t) (q : ℕ)
    (hq : q < length table.m) (living : bucket_live (bucket table.m q) ≡ true) where
  abbrev removed : SideTable
  removed = record t {
    map = some (set table.m q tombstone);
    live = t.live - 1;
    tombstones = t.tombstones + 1;
  }

  -- The object that a live bucket names is counted.
  some_live : 0 < t.live
  some_live =
      let counted = count_if-set bucket_live table.m q tombstone no_bucket hq in
      let l = table.live in ground arith

  removed-IsTable : IsTable os bits removed
  removed-IsTable = record {
    m = set table.m q tombstone;
    holds = refl;
    size = table.size ∙ sym (length-set table.m q tombstone);
    mapped = IsMapped-tombstone os bits table.m table.mapped q hq living;
    live =
        let counted = count_if-set bucket_live table.m q tombstone no_bucket hq in
        let l = table.live in ground arith;
    tombs =
        let counted = count_if-set bucket_tombstone table.m q tombstone no_bucket hq in
        let l = table.tombs in ground arith;
  }

  -- On a side table in order, a live bucket becomes a tombstone: the table stays in order, the address
  -- that the bucket named is found no more, and every other address as before.
  pub table_tombstone-Removes :
      (t' : SideTable) × (table_tombstone t q ≡ some t')
      × Removes os bits t q (object_at os (slot_of (bucket table.m q))).oc t'
  unfolding table_tombstone removed-IsTable
  table_tombstone-Removes =
      let counted = some_live in
      let some_left : (t.live == 0) ≡ false = ground arith in
      (
        removed,
        rw (table.holds, living, some_left) refl,
        record {
          table = removed-IsTable;
          size = refl;
          live = omega arith;
          used = omega arith;
          here = ap bucket_live (get_or-set_self table.m q tombstone no_bucket hq);
          others = λ p ne.
              get_or-set_ne table.m q p tombstone no_bucket (λ e. ne (sym e))
              ∙ ap (λ o. bucket_of o p) (sym table.holds);
          slots = λ g.
              ap slot_found (table_find-seek os bits removed removed-IsTable g)
              ∙ seek-removed os bits table.m table.mapped q hq living g
              ∙ rw (table_find-seek os bits t table g) refl;
        },
      )
