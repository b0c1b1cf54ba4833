-- ===== src/Objects/Migrate/Steps.antt =====
-- A migration keeps every object where it can be found (src/vmod_cachetag_index.c).
use libvmod_cachetag.Base.{ℕ, ◌+◌, ◌<◌, ◌≤◌, ◌≡◌, ap, ◌∙◌, refl}
use libvmod_cachetag.Base.{true, false, ◌||◌, Option, none, some, arith}
use libvmod_cachetag.Base.{leb, ◌==◌, if◌then◌else◌, ==_iff, Bool-cases, ◌⊎◌, inl, inr}
use libvmod_cachetag.Base.{length}
use libvmod_cachetag.Objects.Side.{
  Objects, object_at, Bucket, bucket, bucket_of, bucket_live, slot_decode, max_objects, SideTable,
}
use libvmod_cachetag.Objects.Side.Probe.{slot_of}
use libvmod_cachetag.Objects.Side.Writes.{slot_found}
use libvmod_cachetag.Objects.Side.Tables.{IsTable, slot_in, table_find-seek}
use libvmod_cachetag.Objects.Side.Insert.{Inserts, table_insert-Inserts}
use libvmod_cachetag.Objects.Side.Remove.{Removes, table_tombstone-Removes}
use libvmod_cachetag.Objects.Migrate.{SideIndex, move_bucket}

abbrev pub first_of : Option ℕ → Option ℕ → Option ℕ
first_of (some s) o = some s
first_of none o = o

-- The slot that the two tables have for an address.
abbrev pub located : Objects → ℕ → SideIndex → ℕ → Option ℕ
located os bits sx oc = first_of (slot_in os bits sx.primary oc) (slot_in os bits sx.retiring oc)

-- A migration on its way: both tables are in order and share no address, the buckets before the
-- cursor are done, and the primary table has room for all that is still to come. A migration begins
-- like this; an insertion during a migration reserves no such room (`has_room` of `prepare_insert`
-- leaves out the objects still in the old table), so that `room` is a condition and not an invariant
-- of the program.
pub record Migrating (os : Objects) (bits : ℕ) (sx : SideIndex) : Type 0 where
  pub small : os.nobjects ≤ max_objects
  pub primary : IsTable os bits sx.primary
  pub retiring : IsTable os bits sx.retiring
  pub apart :
      (oc : ℕ) → (slot_in os bits sx.primary oc ≡ none) ⊎ (slot_in os bits sx.retiring oc ≡ none)
  pub behind : (p : ℕ) → p < sx.cursor → bucket_live (bucket_of sx.retiring.map p) ≡ false
  pub within : sx.cursor ≤ sx.retiring.buckets
  pub total : os.nobjects ≡ sx.primary.live + sx.retiring.live
  pub room : sx.primary.live + sx.primary.tombstones + sx.retiring.live < sx.primary.buckets
  pub retiring_room : sx.retiring.live + sx.retiring.tombstones < sx.retiring.buckets

-- What a round of a migration keeps: the migration's order, and every object's slot.
pub record Keeps (os : Objects) (bits : ℕ) (sx sx' : SideIndex) : Type 0 where
  pub migrating : Migrating os bits sx'
  pub slots : (g : ℕ) → located os bits sx' g ≡ located os bits sx g
  pub buckets : sx'.retiring.buckets ≡ sx.retiring.buckets
  pub cursor : sx'.cursor ≡ sx.cursor + 1
  pub active : sx'.active ≡ sx.active

none_or_other : (o p : Option ℕ) (s : ℕ) → (o ≡ none) ⊎ (p ≡ none) → p ≡ some s → o ≡ none
none_or_other o p s (inl e) h = e
none_or_other o p s (inr e) h = cc

moved_first :
    (g oc s : ℕ) (o p : Option ℕ)
    → (g ≡ oc → p ≡ some s)
    → (g ≡ oc → o ≡ none)
    → first_of (if g == oc then some s else o) (if g == oc then none else p) ≡ first_of o p
moved_first g oc s o p h k = elim (Bool-cases (g == oc)) [
  | inl this ↦ let e = (==_iff g oc).0 this in rw (this, h e, k e) refl
  | inr other ↦ rw other refl
]

moved_apart :
    (g oc s : ℕ) (o p : Option ℕ)
    → (o ≡ none) ⊎ (p ≡ none)
    → ((if g == oc then some s else o) ≡ none) ⊎ ((if g == oc then none else p) ≡ none)
moved_apart g oc s o p h = elim (Bool-cases (g == oc)) [
  | inl this ↦ inr (rw this refl)
  | inr other ↦ rw other h
]

module _ (os : Objects) (bits : ℕ) (sx : SideIndex) (mig : Migrating os bits sx)
    (more : sx.cursor < sx.retiring.buckets) where
  abbrev b : Bucket
  b = bucket mig.retiring.m sx.cursor

  here : bucket_of sx.retiring.map sx.cursor ≡ b
  here = ap (λ o. bucket_of o sx.cursor) mig.retiring.holds

  -- A dead bucket is passed over.
  passed :
      bucket_live b ≡ false
      → (move_bucket os bits sx ≡ some (sx, none))
        × Keeps os bits sx (record sx { cursor = sx.cursor + 1 })
  unfolding move_bucket
  passed dead = (
    rw (here, dead) refl,
    record {
      migrating = record {
        small = mig.small;
        primary = mig.primary;
        retiring = mig.retiring;
        apart = mig.apart;
        behind = λ p lt. elim (Bool-cases (p == sx.cursor)) [
          | inl last ↦
              ap (λ i. bucket_live (bucket_of sx.retiring.map i)) ((==_iff p sx.cursor).0 last)
              ∙ ap bucket_live here
              ∙ dead
          | inr before ↦ mig.behind p (ground arith)
        ];
        within = omega arith;
        total = mig.total;
        room = mig.room;
        retiring_room = mig.retiring_room;
      };
      slots = λ g. refl;
      buckets = refl;
      cursor = refl;
      active = refl;
    },
  )

  module _ (live : bucket_live b ≡ true) where
    abbrev s : ℕ
    s = slot_of b

    abbrev oc : ℕ
    oc = (object_at os s).oc

    inside : sx.cursor < length mig.retiring.m
    inside = let e = mig.retiring.size in omega arith

    stored : slot_in os bits sx.retiring oc ≡ some s
    stored = ap slot_found (
        table_find-seek os bits sx.retiring mig.retiring oc
        ∙ mig.retiring.mapped.reach sx.cursor inside live)

    absent : slot_in os bits sx.primary oc ≡ none
    absent = none_or_other _ _ s (mig.apart oc) stored

    -- The tables after an object has moved.
    module _ (p r : SideTable) (ins : Inserts os bits sx.primary oc s p)
        (rem : Removes os bits sx.retiring sx.cursor oc r) where
      abbrev next : SideIndex
      next = record sx { primary = p; retiring = r; cursor = sx.cursor + 1 }

      next-slots : (g : ℕ) → located os bits next g ≡ located os bits sx g
      next-slots g =
          (λ i. first_of (ins.slots g i) (rem.slots g i))
          ∙ moved_first g oc s (slot_in os bits sx.primary g) (slot_in os bits sx.retiring g)
              (λ e. ap (slot_in os bits sx.retiring) e ∙ stored)
              (λ e. ap (slot_in os bits sx.primary) e ∙ absent)

      next-apart : (g : ℕ) → (slot_in os bits p g ≡ none) ⊎ (slot_in os bits r g ≡ none)
      next-apart g =
          rw (ins.slots g, rem.slots g)
            (moved_apart g oc s (slot_in os bits sx.primary g) (slot_in os bits sx.retiring g)
              (mig.apart g))

      next-behind : (i : ℕ) → i < sx.cursor + 1 → bucket_live (bucket_of r.map i) ≡ false
      next-behind i lt = elim (Bool-cases (i == sx.cursor)) [
        | inl last ↦
            ap (λ k. bucket_live (bucket_of r.map k)) ((==_iff i sx.cursor).0 last) ∙ rem.here
        | inr before ↦ ap bucket_live (rem.others i (ground arith)) ∙ mig.behind i (ground arith)
      ]

      next-Keeps : Keeps os bits sx next
      next-Keeps =
          let total = mig.total in
          let room = mig.room in
          let left = mig.retiring_room in
          let a = ins.live in
          let u = ins.used in
          let n = ins.size in
          let d = rem.live in
          let v = rem.used in
          let k = rem.size in
          record {
            migrating = record {
              small = mig.small;
              primary = ins.table;
              retiring = rem.table;
              apart = next-apart;
              behind = next-behind;
              within = omega arith;
              total = omega arith;
              room = omega arith;
              retiring_room = omega arith;
            };
            slots = next-slots;
            buckets = k;
            cursor = refl;
            active = refl;
          }

    -- An object in a live bucket moves.
    moved :
        (sx' : SideIndex) × (move_bucket os bits sx ≡ some (sx', none))
        × Keeps os bits sx (record sx' { cursor = sx'.cursor + 1 })
    unfolding move_bucket
    moved =
        let named = mig.retiring.mapped.names sx.cursor live in
        let room = mig.room in
        let small = mig.small in
        let (p, put, ins) =
          table_insert-Inserts os bits sx.primary oc s mig.primary named.0 (omega arith) refl
            named.1 (omega arith) absent in
        let (r, taken, rem) =
          table_tombstone-Removes os bits sx.retiring mig.retiring sx.cursor inside live in
        let decoded : slot_decode b.slot_code ≡ some s = ground arith in
        let valid : (leb os.nobjects s || (object_at os s).oc == 0) ≡ false = ground arith in
        (
          record sx { primary = p; retiring = r },
          rw (here, live, decoded, valid, put, taken) refl,
          next-Keeps p r ins rem,
        )

  -- The bucket at the cursor is done.
  pub move_bucket-Keeps :
      (sx' : SideIndex) × (move_bucket os bits sx ≡ some (sx', none))
      × Keeps os bits sx (record sx' { cursor = sx'.cursor + 1 })
  move_bucket-Keeps = elim (Bool-cases (bucket_live b)) [
    | inl live ↦ moved live
    | inr dead ↦ (sx, (passed dead).0, (passed dead).1)
  ]
