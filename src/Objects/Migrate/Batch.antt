-- ===== src/Objects/Migrate/Batch.antt =====
-- A batch of a migration, up to its end (src/vmod_cachetag_index.c).
use libvmod_cachetag.Base.{ℕ, zero, suc, ◌+◌, ◌<◌, ◌≤◌, ◌≡◌, ap, ◌∙◌, refl, sym}
use libvmod_cachetag.Base.{Bool, true, false, not, ◌&&◌, ◌||◌, Option, none, some, List, arith}
use libvmod_cachetag.Base.{
  and_then, efault, ltb, ◌==◌, if◌then◌else◌, ==_iff, Bool-cases, ◌⊎◌, inl, inr,
}
use libvmod_cachetag.Base.{length, count_if-found, Errno}
use libvmod_cachetag.Objects.Side.{
  Objects, Bucket, bucket, bucket_of, no_bucket, bucket_live, table_find, SideTable,
}
use libvmod_cachetag.Objects.Side.Writes.{slot_found, seek, not_found, seek_sound}
use libvmod_cachetag.Objects.Side.Tables.{IsTable, slot_in, table_find-seek}
use libvmod_cachetag.Objects.Migrate.{
  idle, finish_migration, has_map, SideIndex, migrate_loop, migrate_some, cleared,
}
use libvmod_cachetag.Objects.Migrate.Steps.{first_of, located, Migrating, Keeps, move_bucket-Keeps}
use libvmod_cachetag.PurgeMap.Table.Walk.{IsSized-pos}

-- What the loop over a batch keeps, and how far it gets.
record Rounds (os : Objects) (bits max : ℕ) (sx sx' : SideIndex) : Type 0 where
  migrating : Migrating os bits sx'
  slots : (g : ℕ) → located os bits sx' g ≡ located os bits sx g
  buckets : sx'.retiring.buckets ≡ sx.retiring.buckets
  active : sx'.active ≡ sx.active
  far : (sx.cursor + max ≤ sx'.cursor) ⊎ (sx'.cursor ≡ sx.retiring.buckets)

one_more :
    (os : Objects) (bits max : ℕ) (sx sx1 sx' : SideIndex)
    → Keeps os bits sx sx1
    → Rounds os bits max sx1 sx'
    → Rounds os bits (suc max) sx sx'
one_more os bits max sx sx1 sx' k r = record {
  migrating = r.migrating;
  slots = λ g. r.slots g ∙ k.slots g;
  buckets = r.buckets ∙ k.buckets;
  active = r.active ∙ k.active;
  far = elim r.far [
    | inl far ↦ inl (let c = k.cursor in omega arith)
    | inr end ↦ inr (end ∙ k.buckets)
  ];
}

migrate_loop-Rounds :
    (max : ℕ) (os : Objects) (bits : ℕ) (sx : SideIndex)
    → Migrating os bits sx
    → (sx' : SideIndex) × (migrate_loop max os bits sx ≡ some (sx', none))
      × Rounds os bits max sx sx'
unfolding migrate_loop
migrate_loop-Rounds zero os bits sx mig = (
  sx,
  refl,
  record {
    migrating = mig;
    slots = λ g. refl;
    buckets = refl;
    active = refl;
    far = inl (omega arith);
  },
)
migrate_loop-Rounds (suc max) os bits sx mig =
    elim (Bool-cases (ltb sx.cursor sx.retiring.buckets)) [
      | inr end ↦ (
        sx,
        rw end refl,
        record {
          migrating = mig;
          slots = λ g. refl;
          buckets = refl;
          active = refl;
          far = inr (let w = mig.within in ground arith);
        },
      )
      | inl more ↦
          let (sx1, e, keeps) = move_bucket-Keeps os bits sx mig (ground arith) in
          let (sx', e', rounds) =
            migrate_loop-Rounds max os bits (record sx1 { cursor = sx1.cursor + 1 })
              keeps.migrating in
          (
            sx',
            rw (more, e) e',
            one_more os bits max sx (record sx1 { cursor = sx1.cursor + 1 }) sx' keeps rounds,
          )
    ]

-- A finished migration: one table, in order, with every object.
pub record Done (os : Objects) (bits : ℕ) (sx : SideIndex) : Type 0 where
  pub idle : sx.active ≡ false
  pub alone : sx.retiring ≡ cleared
  pub table : IsTable os bits sx.primary
  pub total : os.nobjects ≡ sx.primary.live

-- What a batch leaves: the same slots, and a migration on its way or done. A batch as long as what
-- is left of the old table ends it.
pub record Migrated (os : Objects) (bits max : ℕ) (sx sx' : SideIndex) : Type 0 where
  pub slots : (g : ℕ) → located os bits sx' g ≡ located os bits sx g
  pub after : ((sx'.active ≡ true) × Migrating os bits sx') ⊎ Done os bits sx'
  pub ends : 0 < max → sx.retiring.buckets ≤ sx.cursor + max → Done os bits sx'

-- A table without a live bucket has no address.
module _ (os : Objects) (bits : ℕ) (t : SideTable) (table : IsTable os bits t)
    (dead : (p : ℕ) → p < length table.m → bucket_live (bucket table.m p) ≡ false) where
  none_live : t.live ≡ 0
  none_live = elim (Bool-cases (t.live == 0)) [
    | inl zero_live ↦ (==_iff t.live 0).0 zero_live
    | inr some_live ↦
        let l = table.live in
        let (i, lt, live) = count_if-found bucket_live table.m no_bucket (ground arith) in
        absurd (cc (dead i lt, live))
  ]

  pub no_slot : (g : ℕ) → slot_in os bits t g ≡ none
  no_slot g =
      ap slot_found (table_find-seek os bits t table g)
      ∙ not_found (seek os bits table.m g) λ p s e.
        let (lt, live, at_s, owner) = seek_sound os bits table.m g p s table.mapped.sized e in
        cc (dead p lt, live)

module _ (os : Objects) (bits : ℕ) (sx : SideIndex) (mig : Migrating os bits sx)
    (end : sx.cursor ≡ sx.retiring.buckets) where
  all_dead : (p : ℕ) → p < length mig.retiring.m → bucket_live (bucket mig.retiring.m p) ≡ false
  all_dead p lt =
      ap (λ o. bucket_live (bucket_of o p)) (sym mig.retiring.holds)
      ∙ mig.behind p (let e = mig.retiring.size in omega arith)

  ended : SideIndex
  ended = record sx { retiring = cleared; cursor = 0; active = false; reason = idle; auto = false }

  ended_lem : finish_migration sx ≡ (ended, none)
  unfolding ended
  ended_lem =
      let at_end : (not (sx.cursor == sx.retiring.buckets)) ≡ false = ground arith in
      let empty : (not (sx.retiring.live == 0)) ≡ false =
        rw (none_live os bits sx.retiring mig.retiring all_dead) refl in
      rw (at_end, empty) refl

  first_none : (o : Option ℕ) → first_of o none ≡ o
  first_none none = refl
  first_none (some s) = refl

  ended-slots : (g : ℕ) → located os bits ended g ≡ located os bits sx g
  unfolding ended table_find
  ended-slots g =
      ap (λ o. first_of (slot_in os bits sx.primary g) o)
        (sym (no_slot os bits sx.retiring mig.retiring all_dead g))

  ended-Done : Done os bits ended
  unfolding ended
  ended-Done = record {
    idle = refl;
    alone = refl;
    table = mig.primary;
    total =
        let t = mig.total in
        let z = none_live os bits sx.retiring mig.retiring all_dead in omega arith;
  }

-- The guards of `migrate_some`, on a migration on its way.
last_of_four {ℓ} :
    {A : Type ℓ} (x y z w : A) (a b c : Bool)
    → a ≡ false
    → b ≡ false
    → c ≡ false
    → (if a then x else if b then y else if c then z else w) ≡ w
last_of_four x y z w a b c p q r = rw (p, q, r) refl

third_of_four {ℓ} :
    {A : Type ℓ} (x y z w : A) (a b c : Bool)
    → a ≡ false
    → b ≡ false
    → c ≡ true
    → (if a then x else if b then y else if c then z else w) ≡ z
third_of_four x y z w a b c p q r = rw (p, q, r) refl

pub with_map : (o : Option (List Bucket)) (m : List Bucket) → o ≡ some m → has_map o ≡ true
with_map o m e = ap has_map e

full_tables :
    (os : Objects) (bits : ℕ) (sx : SideIndex)
    → Migrating os bits sx
    → (not (has_map sx.retiring.map && has_map sx.primary.map)
        || (sx.retiring.buckets == 0 || sx.primary.buckets == 0))
      ≡ false
full_tables os bits sx mig =
    let p = IsSized-pos mig.primary.mapped.sized in
    let r = IsSized-pos mig.retiring.mapped.sized in
    let a = mig.primary.size in
    let b = mig.retiring.size in
    let c = with_map sx.primary.map mig.primary.m mig.primary.holds in
    let d = with_map sx.retiring.map mig.retiring.m mig.retiring.holds in ground arith

abbrev after_loop : Option (SideIndex × Option Errno) → Option (SideIndex × Option Errno)
after_loop o =
    and_then o λ r. elim r.1 [ some e ↦ some (r.0, some e) | none ↦ some (finish_migration r.0) ]

batch_lem :
    (os : Objects) (bits max : ℕ) (sx : SideIndex)
    → Migrating os bits sx
    → sx.active ≡ true
    → migrate_some os bits sx (suc max) ≡ after_loop (migrate_loop (suc max) os bits sx)
unfolding migrate_some
batch_lem os bits max sx mig on =
    last_of_four _ _ _ _ (not sx.active) _ (suc max == 0) (ap not on) (full_tables os bits sx mig)
      (ground arith)

unfinished :
    (sx : SideIndex) → (sx.cursor == sx.retiring.buckets) ≡ false → finish_migration sx ≡ (sx, none)
unfinished sx more =
    ap
      (λ (x : Bool).
        if not x then (sx, none) else if not (sx.retiring.live == 0) then (sx, some efault) else (
          record sx { retiring = cleared; cursor = 0; active = false; reason = idle; auto = false },
          none,
        ))
      more

-- A batch succeeds on a migration on its way that is in order: both tables are in order and share no
-- address, the buckets before the cursor are done, the old table has an empty bucket, and the primary
-- table has more buckets than its used ones, tombstones included, and the objects still in the old
-- table together. The batch leaves every address with the slot that it had before, in a migration
-- that is again in order, or done; it is done if the batch is as long as what was left of the old
-- table.
pub migrate_some-Migrated :
    (os : Objects) (bits max : ℕ) (sx : SideIndex)
    → Migrating os bits sx
    → sx.active ≡ true
    → (sx' : SideIndex) × (migrate_some os bits sx max ≡ some (sx', none))
      × Migrated os bits max sx sx'
unfolding migrate_some
migrate_some-Migrated os bits zero sx mig on = (
  sx,
  third_of_four (some (sx, none)) (some (sx, some efault)) (some (sx, none)) (some (sx, none))
      (not sx.active) _ true (ap not on) (full_tables os bits sx mig) refl,
  record { slots = λ g. refl; after = inl (on, mig); ends = λ h. absurd (omega arith) },
)
migrate_some-Migrated os bits (suc max) sx mig on =
    let (sx1, looped, rounds) = migrate_loop-Rounds (suc max) os bits sx mig in
    let batch = batch_lem os bits max sx mig on ∙ ap after_loop looped in
    elim (Bool-cases (sx1.cursor == sx1.retiring.buckets)) [
      | inl end ↦
          let at_end = (==_iff sx1.cursor sx1.retiring.buckets).0 end in
          let done = ended-Done os bits sx1 rounds.migrating at_end in
          (
            ended os bits sx1 rounds.migrating at_end,
            batch ∙ ap some (ended_lem os bits sx1 rounds.migrating at_end),
            record {
              slots = λ g. ended-slots os bits sx1 rounds.migrating at_end g ∙ rounds.slots g;
              after = inr done;
              ends = λ h k. done;
            },
          )
      | inr more ↦ (
        sx1,
        batch ∙ ap some (unfinished sx1 more),
        record {
          slots = rounds.slots;
          after = inl (rounds.active ∙ on, rounds.migrating);
          ends = λ h k.
              let w = rounds.migrating.within in
              let n = rounds.buckets in
              absurd (elim rounds.far [ inl far ↦ ground arith | inr end ↦ ground arith ]);
        },
      )
    ]
