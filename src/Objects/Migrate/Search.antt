-- ===== src/Objects/Migrate/Search.antt =====
-- The search in both tables, during a migration (src/vmod_cachetag_index.c).
use libvmod_cachetag.Base.{ℕ, ◌+◌, ◌≡◌, ◌≢◌, refl}
use libvmod_cachetag.Base.{false, not, Option, none, some, arith}
use libvmod_cachetag.Base.{◌==◌, Bool-cases, ◌⊎◌, inl, inr}
use libvmod_cachetag.Objects.Side.{Objects, SideFind, found, missing, broken, table_find, SideTable}
use libvmod_cachetag.Objects.Side.Writes.{slot_found}
use libvmod_cachetag.Objects.Side.Tables.{table_find-ne-broken}
use libvmod_cachetag.Objects.Migrate.{
  SideIndex, Located, in_primary, in_retiring, nowhere, fault, side_find, found_primary, has_map,
}
use libvmod_cachetag.Objects.Migrate.Steps.{first_of, located, Migrating}

-- The slot of a located address, if the search does not fail.
abbrev pub answer_of : Located → Option (Option ℕ)
answer_of (in_primary p s) = some (some s)
answer_of (in_retiring p s) = some (some s)
answer_of nowhere = some none
answer_of fault = none

-- The two searches agree on where an address can be.
combined :
    (r : SideTable) (again first : SideFind)
    → first ≢ broken
    → again ≢ broken
    → (slot_found first ≡ none) ⊎ (slot_found again ≡ none)
    → answer_of (found_primary r again first)
      ≡ some (first_of (slot_found first) (slot_found again))
combined r again broken h k apart = absurd (h refl)
combined r broken first h k apart = absurd (k refl)
combined r (found q u) missing h k apart = refl
combined r missing missing h k apart = refl
combined r missing (found p s) h k apart = elim (Bool-cases (has_map r.map)) [
  | inl on ↦ rw on refl
  | inr off ↦ rw off refl
]
combined r (found q u) (found p s) h k (inl e) = cc
combined r (found q u) (found p s) h k (inr e) = cc

-- In a migration that is in order (both tables are in order and share no address, each has an empty
-- bucket, and the primary table has room for all objects still in the old one), the search in both
-- tables for an address other than 0 succeeds: it answers with the slot that one of the two tables
-- has for the address.
pub side_find-located :
    (os : Objects) (bits : ℕ) (sx : SideIndex) (oc : ℕ)
    → Migrating os bits sx
    → oc ≢ 0
    → answer_of (side_find os bits sx oc) ≡ some (located os bits sx oc)
unfolding side_find
side_find-located os bits sx oc mig valid =
    let some_oc : (oc == 0) ≡ false = ground arith in
    let counted : (not (os.nobjects == sx.primary.live + sx.retiring.live)) ≡ false =
      rw mig.total (ground arith) in
    let room = mig.room in
    rw (some_oc, counted)
      (combined sx.retiring (table_find os bits sx.retiring oc) (table_find os bits sx.primary oc)
        (table_find-ne-broken os bits sx.primary oc mig.primary (omega arith))
        (table_find-ne-broken os bits sx.retiring oc mig.retiring mig.retiring_room) (mig.apart oc))
