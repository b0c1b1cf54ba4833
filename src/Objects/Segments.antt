-- ===== src/Objects/Segments.antt =====
-- The dense object table: a directory of segments that double in size, so that growing it never
-- moves an object (src/vmod_cachetag_index.c). `none` means that an assertion fails.
pub mod Bounds
use libvmod_cachetag.Base.{ℕ, zero, suc, ◌+◌, ◌-◌, ◌*◌, ◌/◌, ◌^◌}
use libvmod_cachetag.Base.{Bool, ◌||◌, not, Option, none, some, List}
use libvmod_cachetag.Base.{ltb, leb, ◌==◌, if◌then◌else◌, get_or, and_then}

-- TAG_OBJECT_SEGMENTS and TAG_OBJECT_SEGMENT0_SLOTS
abbrev pub segments_max : ℕ
segments_max = 32

abbrev pub segment0_slots : ℕ
segment0_slots = 64

-- A shift by at most 31 of 64 does not overflow.
abbrev pub segment_slots : ℕ → Option ℕ
segment_slots segment =
    if not (ltb segment segments_max)
    then none
    else if segment == 0 || segment == 1
    then some segment0_slots
    else some (segment0_slots * 2 ^ (segment - 1))

abbrev pub segment_base : ℕ → Option ℕ
segment_base segment =
    if not (ltb segment segments_max)
    then none
    else if segment == 0
    then some 0
    else some (segment0_slots * 2 ^ (segment - 1))

abbrev pub capacity_for_segments : ℕ → Option ℕ
capacity_for_segments nsegments =
    if not (leb nsegments segments_max)
    then none
    else if nsegments == 0
    then some 0
    else if nsegments == 1
    then some segment0_slots
    else some (segment0_slots * 2 ^ (nsegments - 1))

-- The loop over `nsegments`, from the given one on; the fuel counts the rounds up to the last.
unfoldable pub count_loop : ℕ → ℕ → ℕ → Option ℕ
count_loop zero nsegments capacity = some (segments_max + 1)
count_loop (suc fuel) nsegments capacity =
    let further = count_loop fuel (nsegments + 1) capacity in
    and_then (capacity_for_segments nsegments)
      λ held. if leb capacity held then some nsegments else further

unfoldable pub segment_count_for_capacity : ℕ → Option ℕ
unfolding count_loop
segment_count_for_capacity capacity =
    if capacity == 0 then some 0 else count_loop segments_max 1 capacity

-- The leading zeros of a number of `width` bits, for `__builtin_clzll`.
unfoldable pub leading_zeros : ℕ → ℕ → ℕ
leading_zeros zero value = 0
leading_zeros (suc width) value =
    let further = leading_zeros width value in if ltb value (2 ^ width) then suc further else 0

abbrev pub segment_for_slot : ℕ → Option ℕ
segment_for_slot slot =
    let segment = 64 - leading_zeros 64 (slot / 2 ^ 6) in
    if ltb slot segment0_slots
    then some 0
    else if leb segments_max segment
    then none
    else some segment

-- The segment and the place in it that `cachetag_object_at` reads.
pub object_spot : ℕ → ℕ → Option (ℕ × ℕ)
object_spot capobjects slot =
    if not (ltb slot capobjects)
    then none
    else and_then (segment_for_slot slot)
        λ segment. and_then (segment_base segment) λ base. some (segment, slot - base)
