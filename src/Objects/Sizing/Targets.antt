-- ===== src/Objects/Sizing/Targets.antt =====
-- The sizes that a shrink aims at (src/vmod_cachetag_index.c).
use libvmod_cachetag.Base.{ℕ, zero, suc, ◌+◌, ◌*◌, ◌/◌, ◌^◌, ◌≤◌, ◌<◌, ◌≡◌, ap, ◌∙◌, refl}
use libvmod_cachetag.Base.{Bool, true, false, some, arith}
use libvmod_cachetag.Base.{ltb, leb, ◌==◌, Bool-cases, inl, inr}
use native.Mathlib.Nat.{pow-suc}
use libvmod_cachetag.PurgeMap.Map.{size_max, double_until}
use libvmod_cachetag.PurgeMap.Table.Walk.{IsSized}
use libvmod_cachetag.Objects.Segments.{capacity_for_segments}
use libvmod_cachetag.Objects.Segments.Bounds.{capacity_cases, capacity_lem, pow_mono}
use libvmod_cachetag.Objects.Migrate.{SideIndex}
use libvmod_cachetag.Objects.Side.{max_objects}
use libvmod_cachetag.Objects.Sizing.{
  object_low_water_target, side_low_water_target, side_target_loop,
}

-- A doubling from `64 * 2 ^ j` ends at the first value in turn that is enough.
doubling :
    (fuel j m : ℕ) (enough : ℕ → Bool)
    → j ≤ m
    → m < j + fuel
    → enough (64 * 2 ^ m) ≡ true
    → (k : ℕ) × (double_until fuel enough (64 * 2 ^ j) ≡ 64 * 2 ^ k)
      × (k ≤ m)
      × (enough (64 * 2 ^ k) ≡ true)
unfolding double_until
doubling zero j m enough le lt h = absurd (omega arith)
doubling (suc fuel) j m enough le lt h = elim (Bool-cases (enough (64 * 2 ^ j))) [
  | inl now ↦ (j, rw now refl, le, now)
  | inr later ↦
      let twice : 64 * 2 ^ j * 2 ≡ 64 * 2 ^ suc j = rw (pow-suc 2 j) (omega arith) in
      elim (Bool-cases (j == m)) [
        | inl last ↦ absurd (let e : j ≡ m = ground arith in cc (rw (← e) at h, later))
        | inr more ↦
            let (k, e, b, c) = doubling fuel (suc j) m enough (ground arith) (omega arith) h in
            (k, rw (later, twice) e, b, c)
      ]
]

-- The target for the dense table keeps all objects, is no larger than the table, and is none or a
-- capacity of whole segments.
pub object_low_water_target-fits :
    (n capacity nobjects : ℕ)
    → capacity_for_segments n ≡ some capacity
    → nobjects ≤ capacity
    → (nobjects ≤ object_low_water_target nobjects capacity)
      × (object_low_water_target nobjects capacity ≤ capacity)
      × ((k : ℕ) × (k ≤ n)
          × (capacity_for_segments k ≡ some (object_low_water_target nobjects capacity)))
object_low_water_target-fits n capacity nobjects e fits = elim (Bool-cases (nobjects == 0)) [
  | inl empty ↦ rw empty (ground arith, omega arith, (0, omega arith, refl))
  | inr full ↦ elim (Bool-cases (ltb (capacity / 4) nobjects)) [
    | inl high ↦ rw (full, high) (fits, omega arith, (n, omega arith, e))
    | inr low ↦
        let (m, en, small, ec) = capacity_cases n capacity e (ground arith) in
        let (k, target, le, enough) =
          doubling 64 0 m (λ cap. leb (nobjects * 2) cap) (omega arith) (omega arith)
            (ground arith) in
        let reaches = pow_mono k m le in
        rw (full, low, target)
          (ground arith, omega arith, (suc k, omega arith, capacity_lem k (omega arith)))
  ]
]

side_doubling :
    (fuel j m nobjects old : ℕ)
    → j ≤ m
    → m < 57
    → m < j + fuel
    → nobjects ≤ 64 * 2 ^ m / 4
    → (k : ℕ) × (side_target_loop fuel nobjects old (64 * 2 ^ j) ≡ 64 * 2 ^ k)
      × (nobjects ≤ 64 * 2 ^ k / 4)
unfolding side_target_loop
side_doubling zero j m nobjects old le small lt h = absurd (omega arith)
side_doubling (suc fuel) j m nobjects old le small lt h =
    elim (Bool-cases (ltb (64 * 2 ^ j / 4) nobjects)) [
      | inr now ↦ (j, rw now refl, ground arith)
      | inl later ↦
          let twice : 64 * 2 ^ j * 2 ≡ 64 * 2 ^ suc j = rw (pow-suc 2 j) (omega arith) in
          let bounded = pow_mono j 56 (omega arith) in
          let no_overflow : ltb (size_max / 2) (64 * 2 ^ j) ≡ false = ground arith in
          elim (Bool-cases (j == m)) [
            | inl last ↦
                absurd (let e : j ≡ m = ground arith in let b = rw (← e) at h in ground arith)
            | inr more ↦
                let (k, e, c) =
                  side_doubling fuel (suc j) m nobjects old (ground arith) small (omega arith) h in
                (k, rw (later, no_overflow, twice) e, c)
          ]
    ]

-- For as many objects as slots can be encoded, at least one, and with no migration on its way: the
-- target for the side table is a power of two with at least four buckets for each object.
pub side_low_water_target-fits :
    (nobjects : ℕ) (sx : SideIndex)
    → 0 < nobjects
    → nobjects ≤ max_objects
    → sx.active ≡ false
    → 0 < sx.primary.buckets
    → IsSized (side_low_water_target nobjects sx)
      × (nobjects * 4 ≤ side_low_water_target nobjects sx)
side_low_water_target-fits nobjects sx some_objects small idle some_buckets =
    let (k, target, enough) =
      side_doubling 64 0 28 nobjects sx.primary.buckets (omega arith) (omega arith) (omega arith)
        (omega arith) in
    let full : (nobjects == 0) ≡ false = ground arith in
    let has : (sx.primary.buckets == 0) ≡ false = ground arith in
    let e : side_low_water_target nobjects sx ≡ 64 * 2 ^ k = rw (full, has, idle) target in
    rw e ((k + 6, rw (let p : 2 ^ (k + 6) ≡ 64 * 2 ^ k = six k in p) refl), omega arith)
  where
    six : (k : ℕ) → 2 ^ (k + 6) ≡ 64 * 2 ^ k
    six zero = refl
    six (suc k) =
        let r = six k in
        let a = pow-suc 2 k in
        let b = pow-suc 2 (k + 6) in
        ap (λ n. 2 ^ n) (let e : suc k + 6 ≡ suc (k + 6) = omega arith in e)
        ∙ omega (arith, r, a, b)
