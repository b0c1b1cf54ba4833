-- ===== src/Objects/Side/Insert.antt =====
-- An insertion into a side table, as a change of what it stands for (src/vmod_cachetag_index.c).
use libvmod_cachetag.Base.{ℕ, ◌+◌, ◌-◌, ◌<◌, ◌≤◌, ◌≡◌, ◌≢◌, ap, ◌∙◌, refl, sym}
use libvmod_cachetag.Base.{true, false, none, some, List, arith}
use libvmod_cachetag.Base.{◌==◌, if◌then◌else◌}
use libvmod_cachetag.Base.{length, set, length-set, ok, Result, count_if-set}
use libvmod_cachetag.PurgeMap.Table.{home}
use libvmod_cachetag.PurgeMap.Table.Walk.{IsSized-pos, home-lt}
use libvmod_cachetag.Objects.Side.{
  Objects, object_at, Bucket, bucket, no_bucket, bucket_tombstone, bucket_live, max_objects, found,
  missing, find_loop, insert_loop, table_find, table_insert, SideTable, side_hash, side_fingerprint,
}
use libvmod_cachetag.Objects.Side.Probe.{slot_of, Names, insert_loop-found}
use libvmod_cachetag.Objects.Side.Writes.{seek, slot_found, IsMapped-set, seek-set}
use libvmod_cachetag.Objects.Side.Tables.{
  IsTable, slot_in, table_find-seek, table_find-ne-broken, encode_lem, missing_of,
}

-- An insertion of an address for its slot, when the table does not have it and keeps an empty
-- bucket, succeeds.
pub record Inserts (os : Objects) (bits : ℕ) (t : SideTable) (oc slot : ℕ) (t' : SideTable)
    : Type 0 where
  pub table : IsTable os bits t'
  pub size : t'.buckets ≡ t.buckets
  pub live : t'.live ≡ t.live + 1
  pub used : t'.live + t'.tombstones ≤ t.live + t.tombstones + 1
  pub slots : (g : ℕ) → slot_in os bits t' g ≡ (if g == oc then some slot else slot_in os bits t g)

module _ (os : Objects) (bits : ℕ) (t : SideTable) (oc slot : ℕ) (table : IsTable os bits t)
    (there : slot < os.nobjects) (fits : slot < max_objects) (owner : (object_at os slot).oc ≡ oc)
    (valid : oc ≢ 0) (room : t.live + t.tombstones < t.buckets)
    (new : slot_in os bits t oc ≡ none) where
  abbrev m : List Bucket
  m = table.m

  abbrev v : Bucket
  v = record { fingerprint = side_fingerprint bits (side_hash oc); slot_code = slot + 1 }

  to_slot : slot_of v ≡ slot
  to_slot = omega arith

  abbrev taken_at : ℕ → Result ℕ
  taken_at fuel =
      insert_loop fuel os m (length m) (side_fingerprint bits (side_hash oc)) oc
        (home (side_hash oc) (length m)) none

  owner_v : (object_at os (slot_of v)).oc ≡ oc
  owner_v = rw to_slot owner

  named_v : Names os v
  named_v = rw to_slot (there, rw owner valid)

  absent : seek os bits m oc ≡ missing
  absent =
      sym (table_find-seek os bits t table oc)
      ∙ missing_of (table_find os bits t oc) new (table_find-ne-broken os bits t oc table room)

  live_v : bucket_live v ≡ true
  live_v = ground arith

  plain_v : bucket_tombstone v ≡ false
  plain_v = ground arith

  -- The table with the new bucket.
  module _ (q : ℕ) (hq : q < length m) (dead : bucket_live (bucket m q) ≡ false)
      (seen : seek os bits (set m q v) oc ≡ found q (slot_of v)) where
    abbrev t' : SideTable
    t' = record t {
      map = some (set m q v);
      tombstones = if bucket_tombstone (bucket m q) then t.tombstones - 1 else t.tombstones;
      live = t.live + 1;
    }

    absent_v : seek os bits m (object_at os (slot_of v)).oc ≡ missing
    absent_v = ap (seek os bits m) owner_v ∙ absent

    seen_v : seek os bits (set m q v) (object_at os (slot_of v)).oc ≡ found q (slot_of v)
    seen_v = ap (seek os bits (set m q v)) owner_v ∙ seen

    in_order : IsTable os bits t'
    in_order = record {
      m = set m q v;
      holds = refl;
      size = table.size ∙ sym (length-set m q v);
      mapped = IsMapped-set os bits m table.mapped q v hq dead live_v named_v absent_v seen_v;
      live =
          let l = table.live in
          let counted = count_if-set bucket_live m q v no_bucket hq in
          let h = live_v in ground arith;
      tombs =
          let l = table.tombs in
          let counted = count_if-set bucket_tombstone m q v no_bucket hq in
          let h = plain_v in ground arith;
    }

    inserted : Inserts os bits t oc slot t'
    unfolding in_order
    inserted = record {
      table = in_order;
      size = refl;
      live = refl;
      used = ground arith;
      slots = λ g.
          ap slot_found (table_find-seek os bits t' in_order g)
          ∙ seek-set os bits m table.mapped q v hq dead live_v named_v absent_v seen_v g
          ∙ (λ i.
              if g == owner_v i
              then some (to_slot i)
              else slot_found (sym (table_find-seek os bits t table g) i));
    }

    insert_at : taken_at (length m) ≡ ok q → table_insert os bits t oc slot ≡ ok t'
    unfolding table_insert
    insert_at taken =
        let pos = IsSized-pos table.mapped.sized in
        let full : (length m == 0) ≡ false = ground arith in
        rw (table.holds, table.size, full, encode_lem slot fits, taken) refl

  -- On a side table in order with an empty bucket, an address that it does not have is inserted for
  -- its object's slot: the table stays in order, and finds this address at this slot and every other
  -- address as before.
  pub table_insert-Inserts :
      (t' : SideTable) × (table_insert os bits t oc slot ≡ ok t') × Inserts os bits t oc slot t'
  table_insert-Inserts =
      let sized = table.mapped.sized in
      let (q, taken, hq, dead, seen) =
        insert_loop-found os m (length m) sized (side_fingerprint bits (side_hash oc)) oc v live_v
          refl named_v.0 owner_v (length m) (home (side_hash oc) (length m)) refl
          (home-lt (side_hash oc) sized) absent in
      let seen' : seek os bits (set m q v) oc ≡ found q (slot_of v) =
        ap
          (λ n.
            find_loop n os (set m q v) n (side_fingerprint bits (side_hash oc)) oc
              (home (side_hash oc) n))
          (length-set m q v)
        ∙ seen in
      (t' q hq dead seen', insert_at q hq dead seen' taken, inserted q hq dead seen')
