-- ===== src/Objects/Sizing/Quiet.antt =====
-- What a shrink waits for (src/vmod_cachetag_index.c).
use libvmod_cachetag.Base.{ℕ, zero, suc, ◌+◌, ◌-◌, ◌*◌, ◌^◌, ◌≤◌, ◌≡◌, ap, refl, sym, ◌<◌, ◌/◌}
use libvmod_cachetag.Base.{Bool, true, false, not, ◌&&◌, ◌||◌, Option, none, some, arith}
use libvmod_cachetag.Base.{ltb, leb, ◌==◌, Bool-cases, ◌⊎◌, inl, inr}
use libvmod_cachetag.Objects.Segments.{segments_max, capacity_for_segments}
use libvmod_cachetag.Objects.Segments.Bounds.{capacity_lem, segment_count_for_capacity-capacity}
use libvmod_cachetag.Objects.Migrate.{SideIndex, hard_limit, default_buckets}
use libvmod_cachetag.Objects.Sizing.{
  LowWater, object_soft_growth, growth_runway, overrun, elapsed_usec, observe_usec, can_reclaim,
  has_growth, is_growth, side_soft_resize, soft_grow_limit, side_target_loop,
  object_low_water_target, side_low_water_target,
}
use libvmod_cachetag.PurgeMap.Map.{size_max}

capacity_some : (k : ℕ) → k ≤ segments_max → (c : ℕ) × (capacity_for_segments k ≡ some c)
capacity_some zero h = (0, refl)
capacity_some (suc m) h = (64 * 2 ^ m, capacity_lem m (omega arith))

-- The early growth of the dense table meets no failing assertion.
pub object_soft_growth-some :
    (n capacity nobjects : ℕ) (published : ℕ → Bool)
    → capacity_for_segments n ≡ some capacity
    → (g : Option (ℕ × ℕ)) × (object_soft_growth nobjects capacity published ≡ some g)
unfolding object_soft_growth
object_soft_growth-some n capacity nobjects published e = elim (Bool-cases (capacity == 0)) [
  | inl empty ↦ (none, rw empty refl)
  | inr full ↦
      let asserted : (not (leb (growth_runway capacity) capacity)) ≡ false = ground arith in
      elim (Bool-cases (ltb nobjects (capacity - growth_runway capacity))) [
        | inl early ↦ (none, rw (full, asserted, early) refl)
        | inr late ↦
            let counted = segment_count_for_capacity-capacity n capacity e in
            elim (Bool-cases (leb segments_max n || published n)) [
              | inl done ↦ (none, rw (full, asserted, late, counted, done) refl)
              | inr more ↦
                  let (c, held) = capacity_some (n + 1) (ground arith) in
                  (some (n, c), rw (full, asserted, late, counted, more, held) refl)
            ]
      ]
]

-- No more objects than at the start of the observation and an eighth, or one more.
abbrev pub IsSteady : LowWater → ℕ → Type 0
IsSteady lw nobjects =
    (nobjects ≤ lw.live)
    ⊎ ((0 < lw.live) × ((nobjects ≤ lw.live + 1) ⊎ (nobjects * 8 ≤ lw.live * 9)))

-- The dense table is within its margin of the capacity, and its next segment is to be had.
abbrev pub IsDenseFull : ℕ → ℕ → ℕ → (ℕ → Bool) → Type 0
IsDenseFull n capacity nobjects published =
    (0 < capacity)
    × (capacity ≤ nobjects + capacity / 8)
    × (capacity ≤ nobjects + 32768)
    × (n < segments_max)
    × (published n ≡ false)

-- Five eighths of the buckets are in use, no migration is on its way and few are tombstones.
abbrev pub IsSideFull : SideIndex → Type 0
IsSideFull sx =
    (sx.active ≡ false)
    × (0 < sx.primary.buckets)
    × (sx.primary.tombstones ≤ sx.primary.buckets / 4)
    × (sx.primary.buckets ≤ size_max / 2)
    × (sx.primary.buckets * 5 / 8 ≤ sx.primary.live + sx.primary.tombstones)

-- A table is more than four times as large as needed, or an index without objects has a table.
abbrev pub IsSpacious : ℕ → ℕ → SideIndex → Type 0
IsSpacious nobjects capacity sx =
    ((0 < capacity) × (nobjects * 4 ≤ capacity))
    ⊎ ((nobjects * 4 < sx.primary.buckets)
        ⊎ ((nobjects ≡ 0) × (0 < sx.primary.buckets + sx.retiring.buckets)))

-- What each outcome says: of a decision to shrink, and of an observation that goes on or ends.
abbrev pub Outcome : LowWater → ℕ → ℕ → ℕ → (ℕ → Bool) → SideIndex → ℕ → LowWater × Bool → Type 0
Outcome lw n capacity nobjects published sx now (lw', true) =
    (lw' ≡ lw)
    × (lw.active ≡ true)
    × IsSteady lw nobjects
    × (¬ IsDenseFull n capacity nobjects published)
    × (¬ IsSideFull sx)
    × ((lw.force ≡ true) ⊎ ((0 < lw.start_usec) × (lw.start_usec + 5000000 ≤ now)))
    × IsSpacious nobjects capacity sx
Outcome lw n capacity nobjects published sx now (lw', false) =
    (lw'.active ≡ false)
    ⊎ ((lw' ≡ lw) × (lw.force ≡ false) × ((lw.start_usec ≡ 0) ⊎ (now < lw.start_usec + 5000000)))

pub IsSteady-overrun :
    (lw : LowWater) (nobjects : ℕ)
    → lw.active ≡ true
    → overrun lw nobjects ≡ false
    → IsSteady lw nobjects
IsSteady-overrun lw nobjects on calm = elim (Bool-cases (lw.live == 0)) [
  | inl none_live ↦ inl (ground arith)
  | inr live ↦ elim (Bool-cases (lw.live / 8 == 0)) [
    | inl small ↦ inr (ground arith, inl (ground arith))
    | inr large ↦ inr (ground arith, inr (ground arith))
  ]
]

pub long_enough :
    (lw : LowWater) (now : ℕ)
    → (not lw.force && ltb (elapsed_usec lw.start_usec now) observe_usec) ≡ false
    → (lw.force ≡ true) ⊎ ((0 < lw.start_usec) × (lw.start_usec + 5000000 ≤ now))
long_enough lw now h = elim (Bool-cases lw.force) [
  | inl forced ↦ inl forced
  | inr patient ↦ inr (ground arith, ground arith)
]

pub too_short :
    (lw : LowWater) (now : ℕ)
    → (not lw.force && ltb (elapsed_usec lw.start_usec now) observe_usec) ≡ true
    → (lw.force ≡ false) × ((lw.start_usec ≡ 0) ⊎ (now < lw.start_usec + 5000000))
too_short lw now h = elim (Bool-cases (lw.start_usec == 0)) [
  | inl unset ↦ (ground arith, inl (ground arith))
  | inr set ↦ (ground arith, inr (ground arith))
]

soft_grow_limit_le : (buckets : ℕ) → soft_grow_limit buckets ≤ buckets * 5 / 8
soft_grow_limit_le buckets = ground arith

pub side_grows : (sx : SideIndex) → IsSideFull sx → is_growth (side_soft_resize sx) ≡ true
unfolding side_soft_resize
side_grows sx (idle, some_buckets, few, small, used) =
    let limit = soft_grow_limit_le sx.primary.buckets in
    let a : (sx.active || sx.primary.buckets == 0) ≡ false = ground arith in
    let b : (ltb (sx.primary.buckets / 4) sx.primary.tombstones
          && leb sx.primary.live (hard_limit sx.primary.buckets))
        ≡ false =
      ground arith in
    let c : ltb (sx.primary.live + sx.primary.tombstones) (soft_grow_limit sx.primary.buckets)
        ≡ false =
      ground arith in
    let d : ltb (size_max / 2) sx.primary.buckets ≡ false = ground arith in rw (a, b, c, d) refl

-- With its margin used up, the dense table grows.
pub dense_grows :
    (n capacity nobjects : ℕ) (published : ℕ → Bool) (growth : Option (ℕ × ℕ))
    → capacity_for_segments n ≡ some capacity
    → object_soft_growth nobjects capacity published ≡ some growth
    → IsDenseFull n capacity nobjects published
    → has_growth growth ≡ true
unfolding object_soft_growth
dense_grows n capacity nobjects published growth e looked
      (full, eighth, margin, inside, unpublished) =
    let a : (capacity == 0) ≡ false = ground arith in
    let asserted : (not (leb (growth_runway capacity) capacity)) ≡ false = ground arith in
    let late : ltb nobjects (capacity - growth_runway capacity) ≡ false = ground arith in
    let counted = segment_count_for_capacity-capacity n capacity e in
    let more : (leb segments_max n || published n) ≡ false = ground arith in
    let (c, held) = capacity_some (n + 1) (omega arith) in
    let same : some (some (n, c)) ≡ some growth =
      rw (a, asserted, late, counted, more, held) at looked in
    let is : some (n, c) ≡ growth = cc in ap has_growth (sym is)

side_target-least :
    (fuel nobjects old buckets : ℕ)
    → (side_target_loop fuel nobjects old buckets ≡ old)
      ⊎ (nobjects * 4 ≤ side_target_loop fuel nobjects old buckets)
unfolding side_target_loop
side_target-least zero nobjects old buckets = inl refl
side_target-least (suc fuel) nobjects old buckets =
    let rec = side_target-least fuel nobjects old (buckets * 2) in
    elim (Bool-cases (not (ltb (buckets / 4) nobjects))) [
      | inl enough ↦ rw enough (inr (ground arith))
      | inr small ↦ elim (Bool-cases (ltb (size_max / 2) buckets)) [
        | inl last ↦ rw (small, last) (inl refl)
        | inr next ↦ rw (small, next) rec
      ]
    ]

dense_spacious :
    (nobjects capacity : ℕ)
    → ltb (object_low_water_target nobjects capacity) capacity ≡ true
    → (0 < capacity) × (nobjects * 4 ≤ capacity)
dense_spacious nobjects capacity h = elim (Bool-cases (nobjects == 0)) [
  | inl empty ↦ (ground arith, ground arith)
  | inr full ↦ elim (Bool-cases (ltb (capacity / 4) nobjects)) [
    | inl high ↦
        absurd (let t : ltb capacity capacity ≡ true = rw (full, high) at h in ground arith)
    | inr low ↦ (ground arith, ground arith)
  ]
]

side_spacious :
    (nobjects : ℕ) (sx : SideIndex)
    → (not sx.active && ltb (side_low_water_target nobjects sx) sx.primary.buckets) ≡ true
    → nobjects * 4 < sx.primary.buckets
side_spacious nobjects sx h =
    let least = side_target-least 64 nobjects sx.primary.buckets default_buckets in
    elim (Bool-cases (nobjects == 0)) [
      | inl empty ↦ ground arith
      | inr full ↦ elim least [ inl same ↦ ground arith | inr large ↦ ground arith ]
    ]

pub IsSpacious-can_reclaim :
    (nobjects capacity : ℕ) (sx : SideIndex)
    → can_reclaim nobjects capacity sx ≡ true
    → IsSpacious nobjects capacity sx
IsSpacious-can_reclaim nobjects capacity sx h =
    elim (Bool-cases (ltb (object_low_water_target nobjects capacity) capacity)) [
      | inl dense ↦ inl (dense_spacious nobjects capacity dense)
      | inr tight ↦
          elim (Bool-cases
            (not sx.active && ltb (side_low_water_target nobjects sx) sx.primary.buckets)) [
              | inl side ↦ inr (inl (side_spacious nobjects sx side))
              | inr none_else ↦ elim (Bool-cases (capacity == 0)) [
                | inl bare ↦ inr (inr (ground arith, ground arith))
                | inr held ↦ inl (ground arith, ground arith)
              ]
            ]
    ]
