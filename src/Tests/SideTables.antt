-- ===== src/Tests/SideTables.antt =====
-- The object index at concrete inputs (src/vmod_cachetag_index.c).
use libvmod_cachetag.Base.{ℕ, zero, suc, ◌+◌, ◌-◌, ◌<◌, ◌≡◌, ◌≢◌, refl}
use libvmod_cachetag.Base.{true, false, none, some, List, [], ◌∷◌, arith, ok, replicate}
use libvmod_cachetag.Base.{set, length, count_if}
use libvmod_cachetag.PurgeMap.Table.{home}
use libvmod_cachetag.Objects.Segments.{
  segment_base, segment_slots, object_spot, segment_count_for_capacity,
}
use libvmod_cachetag.Objects.Segments.Bounds.{
  object_spot-bounds, object_spot-distinct, segment_count_for_capacity-capacity,
}
use libvmod_cachetag.Objects.Interning.{sort_loop, intern_sort}
use libvmod_cachetag.Objects.Interning.Sorting.{
  occurs, IsAscending, Sorts, sort_loop-sorts, intern_sort-IsAscending,
}
use libvmod_cachetag.Objects.Interning.Canonical.{intern_sort-canonical}
use libvmod_cachetag.Objects.Side.{
  Objects, Bucket, bucket, no_bucket, bucket_live, tombstone, find_loop, SideTable, table_find,
  table_insert, table_tombstone, broken, side_hash, side_fingerprint,
}
use libvmod_cachetag.Objects.Side.Writes.{IsMapped-set}
use libvmod_cachetag.Objects.Side.Tables.{IsTable, table_find-ne-broken}
use libvmod_cachetag.Objects.Side.Insert.{Inserts, table_insert-Inserts}
use libvmod_cachetag.Objects.Side.Remove.{Removes, table_tombstone-Removes}
use libvmod_cachetag.Objects.Migrate.{
  SideIndex, idle, grow, rebuild, cleared, side_find, migrate_some, publish_migration,
  publish_allocated_for_insert, prepare_insert,
}
use libvmod_cachetag.Objects.Migrate.Steps.{located, Migrating}
use libvmod_cachetag.Objects.Migrate.Batch.{Done, Migrated, migrate_some-Migrated}
use libvmod_cachetag.Objects.Migrate.Search.{answer_of, side_find-located}
use libvmod_cachetag.Objects.Migrate.Publish.{
  fresh, fresh-IsTable, fresh-no_slot, fresh_dead, begun-Migrating, publish_migration-Migrating,
}
use libvmod_cachetag.Objects.Migrate.Resize.{prepare_insert-publish}

object_spot-bounds_example :
    (segment offset base slots : ℕ) × (object_spot 256 200 ≡ some (segment, offset))
    × (segment < 3)
    × (segment_base segment ≡ some base)
    × (segment_slots segment ≡ some slots)
    × (offset < slots)
    × (base + offset ≡ 200)
object_spot-bounds_example = object_spot-bounds 3 256 200 refl (omega arith)

object_spot-distinct_example : object_spot 256 70 ≢ object_spot 256 200
object_spot-distinct_example =
    object_spot-distinct 3 256 70 200 refl (omega arith) (omega arith) (λ e. omega (arith, e))

segment_count_for_capacity-capacity_example : segment_count_for_capacity 256 ≡ some 3
segment_count_for_capacity-capacity_example = segment_count_for_capacity-capacity 3 256 refl

abbrev one_object : Objects
one_object = record {
  entries = record { oc = 4096; reg_seq = 1; membership = 7; count_code = 1 } ∷ [];
  nobjects = 1;
}

abbrev no_objects : Objects
no_objects = record { entries = []; nobjects = 0 }

table_insert-Inserts_example :
    (t' : SideTable) × (table_insert one_object 32 (fresh 4) 4096 0 ≡ ok t')
    × Inserts one_object 32 (fresh 4) 4096 0 t'
table_insert-Inserts_example =
    table_insert-Inserts one_object 32 (fresh 4) 4096 0 (fresh-IsTable one_object 32 4 (2, refl))
      (omega arith) (omega arith) refl (λ e. omega (arith, e)) (omega arith)
      (fresh-no_slot one_object 32 4 (2, refl) 4096)

table_find-ne-broken_example : table_find one_object 32 (fresh 4) 4096 ≢ broken
table_find-ne-broken_example =
    table_find-ne-broken one_object 32 (fresh 4) 4096 (fresh-IsTable one_object 32 4 (2, refl))
      (omega arith)

-- The bucket of the one object, and where it is put.
abbrev place : ℕ
place = home (side_hash 4096) 4

abbrev only : Bucket
only = record { fingerprint = side_fingerprint 32 (side_hash 4096); slot_code = 1 }

abbrev one_table : SideTable
one_table = record {
  map = some (set (replicate 4 no_bucket) place only);
  buckets = 4;
  tombstones = 0;
  live = 1;
}

one_table-IsTable : IsTable one_object 32 one_table
unfolding home side_hash count_if find_loop side_fingerprint
one_table-IsTable = record {
  m = set (replicate 4 no_bucket) place only;
  holds = refl;
  size = refl;
  mapped =
      IsMapped-set one_object 32 (replicate 4 no_bucket)
        (record {
          sized = (2, refl);
          names = λ p live. cc (fresh_dead one_object 32 4 (2, refl) p, live);
          reach = λ p h live. cc (fresh_dead one_object 32 4 (2, refl) p, live);
        })
        0 only (omega arith) refl refl (omega arith, λ e. omega (arith, e)) refl refl;
  live = refl;
  tombs = refl;
}

table_tombstone-Removes_example :
    (t' : SideTable) × (table_tombstone one_table 0 ≡ some t')
    × Removes one_object 32 one_table 0 4096 t'
unfolding one_table-IsTable
table_tombstone-Removes_example =
    table_tombstone-Removes one_object 32 one_table one_table-IsTable 0
      (unfold home side_hash in omega arith) (unfold home side_hash in refl)

abbrev settled : SideIndex
settled = record {
  primary = one_table;
  retiring = cleared;
  cursor = 0;
  active = false;
  reason = idle;
  auto = false;
}

settled-Done : Done one_object 32 settled
settled-Done = record { idle = refl; alone = refl; table = one_table-IsTable; total = refl }

publish_migration-Migrating_example :
    (sx' : SideIndex) × (publish_migration settled true 8 grow ≡ ok sx')
    × (sx'.active ≡ true)
    × Migrating one_object 32 sx'
    × ((g : ℕ) → located one_object 32 sx' g ≡ located one_object 32 settled g)
publish_migration-Migrating_example =
    publish_migration-Migrating one_object 32 settled settled-Done (omega arith) (omega arith) 8
      grow (3, refl) (omega arith)

-- A migration on its way, from four buckets to eight.
abbrev on_its_way : SideIndex
on_its_way = record {
  primary = fresh 8;
  retiring = one_table;
  cursor = 0;
  active = true;
  reason = grow;
  auto = false;
}

on_its_way-Migrating : Migrating one_object 32 on_its_way
on_its_way-Migrating =
    begun-Migrating one_object 32 settled settled-Done (omega arith) (omega arith) 8 grow (3, refl)
      (omega arith)

migrate_some-Migrated_example :
    (sx' : SideIndex) × (migrate_some one_object 32 on_its_way 8192 ≡ some (sx', none))
    × Migrated one_object 32 8192 on_its_way sx'
migrate_some-Migrated_example =
    migrate_some-Migrated one_object 32 8192 on_its_way on_its_way-Migrating refl

side_find-located_example :
    answer_of (side_find one_object 32 on_its_way 4096)
    ≡ some (located one_object 32 on_its_way 4096)
side_find-located_example =
    side_find-located one_object 32 on_its_way 4096 on_its_way-Migrating (λ e. omega (arith, e))

-- A table that two removed objects have left with two tombstones.
abbrev worn_table : SideTable
worn_table = record {
  map = some (tombstone ∷ tombstone ∷ no_bucket ∷ no_bucket ∷ []);
  buckets = 4;
  tombstones = 2;
  live = 0;
}

worn_dead :
    (p : ℕ) → bucket_live (bucket (tombstone ∷ tombstone ∷ no_bucket ∷ no_bucket ∷ []) p) ≡ false
worn_dead zero = refl
worn_dead (suc zero) = refl
worn_dead (suc (suc zero)) = refl
worn_dead (suc (suc (suc zero))) = refl
worn_dead (suc (suc (suc (suc p)))) = refl

abbrev worn : SideIndex
worn = record {
  primary = worn_table;
  retiring = cleared;
  cursor = 0;
  active = false;
  reason = idle;
  auto = false;
}

worn-Done : Done no_objects 32 worn
unfolding count_if
worn-Done = record {
  idle = refl;
  alone = refl;
  table = record {
    m = tombstone ∷ tombstone ∷ no_bucket ∷ no_bucket ∷ [];
    holds = refl;
    size = refl;
    mapped = record {
      sized = (2, refl);
      names = λ p live. cc (worn_dead p, live);
      reach = λ p h live. cc (worn_dead p, live);
    };
    live = refl;
    tombs = refl;
  };
  total = refl;
}

prepare_insert-publish_example :
    (sx' : SideIndex) × (publish_allocated_for_insert worn true 4 rebuild ≡ ok sx')
    × (sx'.active ≡ true)
    × Migrating no_objects 32 sx'
    × ((g : ℕ) → located no_objects 32 sx' g ≡ located no_objects 32 worn g)
unfolding prepare_insert
prepare_insert-publish_example =
    prepare_insert-publish no_objects 32 worn worn-Done (omega arith) (omega arith) worn 4 rebuild
      refl

-- A sort that keeps what `qsort` documents: the insertion sort for any length.
abbrev a_sort : List ℕ → List ℕ
a_sort folds = sort_loop (length folds - 1) 1 folds

sorts :
    (folds : List ℕ)
    → IsAscending (a_sort folds) × ((x : ℕ) → occurs x (a_sort folds) ≡ occurs x folds)
sorts [] = unfold sort_loop in (λ k b. absurd (omega arith), λ x. refl)
sorts (f ∷ folds) =
    sort_loop-sorts (length (f ∷ folds) - 1) 1 (f ∷ folds) (omega arith) λ k b. absurd (omega arith)

a_sort-Sorts : Sorts a_sort
a_sort-Sorts = record { ascending = λ folds. (sorts folds).0; same = λ folds. (sorts folds).1 }

intern_sort-IsAscending_example :
    IsAscending (intern_sort a_sort (5 ∷ 3 ∷ 4 ∷ []))
    × ((x : ℕ) → occurs x (intern_sort a_sort (5 ∷ 3 ∷ 4 ∷ [])) ≡ occurs x (5 ∷ 3 ∷ 4 ∷ []))
intern_sort-IsAscending_example = intern_sort-IsAscending a_sort (5 ∷ 3 ∷ 4 ∷ []) a_sort-Sorts

same_folds : (x : ℕ) → occurs x (5 ∷ 3 ∷ 4 ∷ []) ≡ occurs x (4 ∷ 5 ∷ 3 ∷ [])
unfolding count_if
same_folds x = ground arith

intern_sort-canonical_example :
    intern_sort a_sort (5 ∷ 3 ∷ 4 ∷ []) ≡ intern_sort a_sort (4 ∷ 5 ∷ 3 ∷ [])
intern_sort-canonical_example =
    intern_sort-canonical a_sort (5 ∷ 3 ∷ 4 ∷ []) (4 ∷ 5 ∷ 3 ∷ []) a_sort-Sorts same_folds
