-- ===== src/PurgeMap/Table.antt =====
-- The open-addressing table of purge entries and its probe loops (src/vmod_cachetag_purgemap.c).
-- `nslot` is the length of the list. A loop `for (pos = fold & mask;; pos = (pos + 1) & mask)` takes
-- `nslot` rounds of fuel, one for each slot; `endless` means that no slot ended it.
pub mod Walk
pub mod Loops
pub mod Spots
pub mod View
pub mod Assoc
use libvmod_cachetag.Base.{ℕ, zero, suc, ◌+◌, ◌-◌, ◌^◌, Bool, true, false, not, ◌||◌, bit_and}
use libvmod_cachetag.Base.{Option, none, some, List, length, get_or, set, replicate, ◌==◌}
use libvmod_cachetag.Base.{if◌then◌else◌}

pub record Entry : Type 0 where
  pub fold : ℕ
  pub hard_seq : ℕ
  pub soft_seq : ℕ

abbrev pub Table : Type 0
Table = List Entry

-- TAG_PURGEMAP_EMPTY and TAG_PURGEMAP_TOMBSTONE
abbrev pub empty_fold : ℕ
empty_fold = 0

abbrev pub tombstone_fold : ℕ
tombstone_fold = 2 ^ 64 - 1

-- what `calloc` leaves in a slot
abbrev pub zeroed : Entry
zeroed = record { fold = 0; hard_seq = 0; soft_seq = 0 }

-- the test that skips empty and tombstone slots
abbrev pub is_live : ℕ → Bool
is_live fold = not (fold == empty_fold || fold == tombstone_fold)

unfoldable pub table_new : ℕ → Table
table_new nslot = replicate nslot zeroed

abbrev pub slot : Table → ℕ → Entry
slot t pos = get_or t pos zeroed

-- `fold & mask` and `(pos + 1) & mask`, where `mask = nslot - 1`
unfoldable pub home : ℕ → ℕ → ℕ
home fold nslot = bit_and fold (nslot - 1)

unfoldable pub next : ℕ → ℕ → ℕ
next pos nslot = bit_and (pos + 1) (nslot - 1)

pub data Find : Type 0 where
  at : ℕ → Find
  absent : Find
  endless : Find

-- The loop of a reader: it ends at an empty slot or at the slot of `fold`.
unfoldable pub find_loop : ℕ → Table → ℕ → ℕ → ℕ → Find
find_loop zero t nslot fold pos = endless
find_loop (suc fuel) t nslot fold pos =
    let seen = (slot t pos).fold in
    let rest = find_loop fuel t nslot fold (next pos nslot) in
    if seen == empty_fold
    then absent
    else if seen == tombstone_fold || not (seen == fold)
    then rest
    else at pos

unfoldable pub find : Table → ℕ → Find
find t fold = find_loop (length t) t (length t) fold (home fold (length t))

-- The loop of `apply_upsert_locked` ends at the slot of `fold`, or at an empty slot: then it yields
-- the first tombstone on the way, with `true`, or else that empty slot.
pub data Spot : Type 0 where
  hit : ℕ → Spot
  vacant : ℕ → Bool → Spot
  lost : Spot

abbrev pub note_tombstone : ℕ → ℕ → Option ℕ → Option ℕ
note_tombstone seen pos (some p) = some p
note_tombstone seen pos none = if seen == tombstone_fold then some pos else none

abbrev pub vacant_spot : Option ℕ → ℕ → Spot
vacant_spot (some p) pos = vacant p true
vacant_spot none pos = vacant pos false

unfoldable pub upsert_loop : ℕ → Table → ℕ → ℕ → ℕ → Option ℕ → Spot
upsert_loop zero t nslot fold pos first_tombstone = lost
upsert_loop (suc fuel) t nslot fold pos first_tombstone =
    let seen = (slot t pos).fold in
    let rest =
      upsert_loop fuel t nslot fold (next pos nslot) (note_tombstone seen pos first_tombstone) in
    if seen == fold
    then hit pos
    else if seen == tombstone_fold
    then rest
    else if seen == empty_fold
    then vacant_spot first_tombstone pos
    else rest

-- The loop of `table_insert_existing`: the first empty slot.
unfoldable pub empty_loop : ℕ → Table → ℕ → ℕ → Option ℕ
empty_loop zero t nslot pos = none
empty_loop (suc fuel) t nslot pos =
    let rest = empty_loop fuel t nslot (next pos nslot) in
    if (slot t pos).fold == empty_fold then some pos else rest

abbrev pub write_at : Table → Entry → Option ℕ → Table
write_at t src none = t
write_at t src (some pos) = set t pos src

unfoldable pub table_insert_existing : Table → Entry → Table
unfolding empty_loop
table_insert_existing t src =
    write_at t src (empty_loop (length t) t (length t) (home src.fold (length t)))
