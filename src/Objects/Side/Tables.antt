-- ===== src/Objects/Side/Tables.antt =====
-- A side table in order, and what it stands for
-- (src/vmod_cachetag_index.c).
use libvmod_cachetag.Base.{ℕ, ◌+◌, ◌-◌, ◌%◌, ◌^◌, ◌<◌, ◌≡◌, ◌≢◌, ap, ◌∙◌, refl, sym}
use libvmod_cachetag.Base.{false, not, Option, none, some, List, [], ◌∷◌, arith}
use libvmod_cachetag.Base.{◌==◌, bit_and}
use libvmod_cachetag.Base.{
  length, bit_and_mask, two_pow-pos, mod_unique, ◌*◌, count_if, count_if-found,
}
use libvmod_cachetag.PurgeMap.Table.{home}
use libvmod_cachetag.PurgeMap.Table.Walk.{IsSized, IsSized-pos, home-lt, distance-lt}
use libvmod_cachetag.Objects.Side.{
  Objects, Bucket, no_bucket, bucket_empty, bucket_tombstone, bucket_live, slot_encode, max_objects,
  SideFind, found, missing, broken, table_find, SideTable, side_hash, side_fingerprint,
}
use libvmod_cachetag.Objects.Side.Probe.{find_loop_ends}
use libvmod_cachetag.Objects.Side.Writes.{seek, IsMapped, slot_found}

-- A side table in order: its map, with the counts of its buckets.
pub record IsTable (os : Objects) (bits : ℕ) (t : SideTable) : Type 0 where
  pub m : List Bucket
  pub holds : t.map ≡ some m
  pub size : t.buckets ≡ length m
  pub mapped : IsMapped os bits m
  pub live : count_if bucket_live m ≡ t.live
  pub tombs : count_if bucket_tombstone m ≡ t.tombstones

-- The slot that a table has for an address.
abbrev pub slot_in : Objects → ℕ → SideTable → ℕ → Option ℕ
slot_in os bits t oc = slot_found (table_find os bits t oc)

pub power_test : (n : ℕ) → IsSized n → bit_and n (n - 1) ≡ 0
power_test n (k, e) =
    let once : 2 ^ k ≡ 1 * 2 ^ k + 0 = omega arith in
    rw e
      (bit_and_mask k (2 ^ k) ∙ ap (λ x. x % 2 ^ k) once ∙ mod_unique (2 ^ k) 1 0 (two_pow-pos k))

pub table_find-seek :
    (os : Objects) (bits : ℕ) (t : SideTable) (table : IsTable os bits t) (oc : ℕ)
    → table_find os bits t oc ≡ seek os bits table.m oc
unfolding table_find
table_find-seek os bits t table oc =
    let pos = IsSized-pos table.mapped.sized in
    let full : (length table.m == 0) ≡ false = ground arith in
    let power : (not (bit_and (length table.m) (length table.m - 1) == 0)) ≡ false =
      rw (power_test (length table.m) table.mapped.sized) refl in
    rw (table.holds, table.size, full, power) refl

total_buckets :
    (m : List Bucket)
    → count_if bucket_live m + count_if bucket_empty m + count_if bucket_tombstone m ≡ length m
unfolding count_if
total_buckets [] = refl
total_buckets (b ∷ m) = ground (arith, total_buckets m)

-- A table with an empty bucket never breaks off a search.
pub table_find-ne-broken :
    (os : Objects) (bits : ℕ) (t : SideTable) (oc : ℕ)
    → IsTable os bits t
    → t.live + t.tombstones < t.buckets
    → table_find os bits t oc ≢ broken
table_find-ne-broken os bits t oc table room e =
    let total = total_buckets table.m in
    let a = table.live in
    let b = table.tombs in
    let c = table.size in
    let sized = table.mapped.sized in
    let (i, hi, empty) = count_if-found bucket_empty table.m no_bucket (omega arith) in
    let start = home-lt (side_hash oc) sized in
    find_loop_ends os table.m (length table.m) sized (side_fingerprint bits (side_hash oc)) oc
      (length table.m) (home (side_hash oc) (length table.m)) i table.mapped.names start hi empty
      (distance-lt (length table.m) (home (side_hash oc) (length table.m)) i start hi)
      (sym (table_find-seek os bits t table oc) ∙ e)

pub encode_lem : (slot : ℕ) → slot < max_objects → slot_encode slot ≡ some (slot + 1)
encode_lem slot h = ground arith

pub missing_of : (f : SideFind) → slot_found f ≡ none → f ≢ broken → f ≡ missing
missing_of (found p s) e h = cc
missing_of missing e h = refl
missing_of broken e h = absurd (h refl)
