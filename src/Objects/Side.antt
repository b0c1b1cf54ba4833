-- ===== src/Objects/Side.antt =====
-- The side table: from an object's address to its slot in the dense object table, by open
-- addressing on 8-byte buckets (src/vmod_cachetag_index.c). An address is a number, 0 for NULL. The
-- loops take one round of fuel for each bucket, as the source's do.
pub mod Probe
pub mod Writes
pub mod Tables
pub mod Insert
pub mod Remove
use libvmod_cachetag.Base.{ℕ, zero, suc, ◌+◌, ◌-◌, ◌*◌, ◌/◌, ◌%◌, ◌^◌, bit_and, bit_xor}
use libvmod_cachetag.Base.{Bool, true, false, not, ◌&&◌, ◌||◌, Option, none, some, List}
use libvmod_cachetag.Base.{leb, ◌==◌, if◌then◌else◌, get_or, set, Result, ok, err}
use libvmod_cachetag.Base.{efault, eexist, eoverflow}
use libvmod_cachetag.PurgeMap.Table.{home, next}

-- One object: its address, its registration and its membership, with the fold count that the source
-- keeps in a sidecar of the same segment.
pub record Objent : Type 0 where
  pub oc : ℕ
  pub reg_seq : ℕ
  pub membership : ℕ
  pub count_code : ℕ

-- The dense object table: the entries of the segments in the order of their slots.
pub record Objects : Type 0 where
  pub entries : List Objent
  pub nobjects : ℕ

abbrev pub blank : Objent
blank = record { oc = 0; reg_seq = 0; membership = 0; count_code = 0 }

abbrev pub object_at : Objects → ℕ → Objent
object_at os slot = get_or os.entries slot blank

pub record Bucket : Type 0 where
  pub fingerprint : ℕ
  pub slot_code : ℕ

-- `map` is NULL exactly when the table has no buckets.
pub record SideTable : Type 0 where
  pub map : Option (List Bucket)
  pub buckets : ℕ
  pub tombstones : ℕ
  pub live : ℕ

-- TAG_SIDE_SLOT_EMPTY, TAG_SIDE_SLOT_TOMBSTONE and TAG_SIDE_MAX_OBJECTS
abbrev pub slot_empty : ℕ
slot_empty = 0

abbrev pub slot_tombstone : ℕ
slot_tombstone = 2 ^ 32 - 1

abbrev pub max_objects : ℕ
max_objects = 2 ^ 32 - 1 - 1

-- The states of a bucket.
abbrev pub bucket_empty : Bucket → Bool
bucket_empty b = b.slot_code == slot_empty

abbrev pub bucket_tombstone : Bucket → Bool
bucket_tombstone b = b.slot_code == slot_tombstone

abbrev pub bucket_live : Bucket → Bool
bucket_live b = not (bucket_empty b || bucket_tombstone b)

abbrev pub slot_encode : ℕ → Option ℕ
slot_encode slot = if leb max_objects slot then none else some ((slot % 2 ^ 32 + 1) % 2 ^ 32)

abbrev pub slot_decode : ℕ → Option ℕ
slot_decode code = if code == slot_empty || code == slot_tombstone then none else some (code - 1)

unfoldable pub side_hash : ℕ → ℕ
side_hash oc =
    let a : ℕ = bit_xor oc (oc / 2 ^ 30) * 0xbf58476d1ce4e5b9 % 2 ^ 64 in
    let b : ℕ = bit_xor a (a / 2 ^ 27) * 0x94d049bb133111eb % 2 ^ 64 in bit_xor b (b / 2 ^ 31)

-- `bits` is a setting of the tests, 32 otherwise.
unfoldable pub side_fingerprint : ℕ → ℕ → ℕ
side_fingerprint bits hash =
    let fingerprint : ℕ = hash / 2 ^ 32 % 2 ^ 32 in
    if bits == 32
    then fingerprint
    else if bits == 0
    then 0
    else bit_and fingerprint ((2 ^ 32 - 1) / 2 ^ (32 - bits))

abbrev pub no_bucket : Bucket
no_bucket = record { fingerprint = 0; slot_code = 0 }

abbrev pub bucket : List Bucket → ℕ → Bucket
bucket m at = get_or m at no_bucket

abbrev pub bucket_of : Option (List Bucket) → ℕ → Bucket
bucket_of none at = no_bucket
bucket_of (some m) at = bucket m at

-- The returns 1, 0 and -1 of a search, with the bucket's place and the slot.
pub data SideFind : Type 0 where
  found : ℕ → ℕ → SideFind
  missing broken : SideFind

-- A live bucket with the right fingerprint.
abbrev pub find_check : Objects → ℕ → ℕ → SideFind → Option ℕ → SideFind
find_check os oc at further none = broken
find_check os oc at further (some slot) =
    if leb os.nobjects slot
    then broken
    else if (object_at os slot).oc == oc
    then found at slot
    else if (object_at os slot).oc == 0
    then broken
    else further

unfoldable pub find_loop : ℕ → Objects → List Bucket → ℕ → ℕ → ℕ → ℕ → SideFind
find_loop zero os m buckets fingerprint oc at = broken
find_loop (suc fuel) os m buckets fingerprint oc at =
    let b = bucket m at in
    let further = find_loop fuel os m buckets fingerprint oc (next at buckets) in
    if bucket_empty b
    then missing
    else if bucket_live b && b.fingerprint == fingerprint
    then find_check os oc at further (slot_decode b.slot_code)
    else further

abbrev pub find_in : Objects → ℕ → List Bucket → ℕ → ℕ → SideFind
find_in os bits m buckets oc =
    if not (bit_and buckets (buckets - 1) == 0)
    then broken
    else find_loop buckets os m buckets (side_fingerprint bits (side_hash oc)) oc
        (home (side_hash oc) buckets)

abbrev pub table_find_map : Objects → ℕ → ℕ → Option (List Bucket) → ℕ → SideFind
table_find_map os bits buckets none oc = missing
table_find_map os bits buckets (some m) oc =
    if buckets == 0 then missing else find_in os bits m buckets oc

unfoldable pub table_find : Objects → ℕ → SideTable → ℕ → SideFind
table_find os bits t oc = table_find_map os bits t.buckets t.map oc

abbrev pub note_first : Bucket → ℕ → Option ℕ → Option ℕ
note_first b at (some p) = some p
note_first b at none = if bucket_tombstone b then some at else none

abbrev pub first_or : Option ℕ → ℕ → ℕ
first_or (some p) at = p
first_or none at = at

abbrev pub insert_check : Objects → ℕ → Result ℕ → Option ℕ → Result ℕ
insert_check os oc further none = err efault
insert_check os oc further (some slot) =
    if leb os.nobjects slot
    then err efault
    else if (object_at os slot).oc == oc
    then err eexist
    else if (object_at os slot).oc == 0
    then err efault
    else further

-- The bucket that an insertion takes.
unfoldable pub insert_loop : ℕ → Objects → List Bucket → ℕ → ℕ → ℕ → ℕ → Option ℕ → Result ℕ
insert_loop zero os m buckets fingerprint oc at first_tomb = err efault
insert_loop (suc fuel) os m buckets fingerprint oc at first_tomb =
    let b = bucket m at in
    let further =
      insert_loop fuel os m buckets fingerprint oc (next at buckets) (note_first b at first_tomb) in
    if bucket_live b && b.fingerprint == fingerprint
    then insert_check os oc further (slot_decode b.slot_code)
    else if bucket_empty b
    then ok (first_or first_tomb at)
    else further

abbrev pub put : SideTable → List Bucket → ℕ → ℕ → Result ℕ → Result SideTable
put t m fingerprint code (err e) = err e
put t m fingerprint code (ok at) = ok (record t {
  map = some (set m at (record { fingerprint = fingerprint; slot_code = code }));
  tombstones = if bucket_tombstone (bucket m at) then t.tombstones - 1 else t.tombstones;
  live = t.live + 1;
})

abbrev pub insert_coded : Objects → ℕ → SideTable → List Bucket → ℕ → Option ℕ → Result SideTable
insert_coded os bits t m oc none = err eoverflow
insert_coded os bits t m oc (some code) =
    let fingerprint = side_fingerprint bits (side_hash oc) in
    put t m fingerprint code
      (insert_loop t.buckets os m t.buckets fingerprint oc (home (side_hash oc) t.buckets) none)

abbrev pub table_insert_map :
    Objects → ℕ → SideTable → Option (List Bucket) → ℕ → ℕ → Result SideTable
table_insert_map os bits t none oc slot = err efault
table_insert_map os bits t (some m) oc slot =
    if t.buckets == 0 then err efault else insert_coded os bits t m oc (slot_encode slot)

unfoldable pub table_insert : Objects → ℕ → SideTable → ℕ → ℕ → Result SideTable
table_insert os bits t oc slot = table_insert_map os bits t t.map oc slot

abbrev pub tombstone : Bucket
tombstone = record { fingerprint = 0; slot_code = slot_tombstone }

abbrev pub tombstone_map : SideTable → ℕ → Option (List Bucket) → Option SideTable
tombstone_map t at none = none
tombstone_map t at (some m) =
    if not (bucket_live (bucket m at)) || t.live == 0
    then none
    else some (record t {
      map = some (set m at tombstone);
      live = t.live - 1;
      tombstones = t.tombstones + 1;
    })

-- `none` means that an assertion fails.
unfoldable pub table_tombstone : SideTable → ℕ → Option SideTable
table_tombstone t at = tombstone_map t at t.map
