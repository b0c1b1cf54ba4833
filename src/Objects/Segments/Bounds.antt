-- ===== src/Objects/Segments/Bounds.antt =====
-- Every slot below the capacity has its own place in the segments (src/vmod_cachetag_index.c).
use libvmod_cachetag.Base.{
  ℕ, zero, suc, ◌+◌, ◌-◌, ◌*◌, ◌/◌, ◌^◌, ◌≤◌, ◌<◌, ◌≡◌, ◌≢◌, ◌∙◌, refl, sym, ap,
}
use libvmod_cachetag.Base.{true, false, not, some, arith}
use libvmod_cachetag.Base.{ltb, leb, ◌==◌, Bool-cases, inl, inr, two_pow-pos}
use native.Mathlib.Nat.{pow-suc}
use libvmod_cachetag.Objects.Segments.{
  segments_max, segment0_slots, segment_slots, segment_base, capacity_for_segments, count_loop,
  segment_count_for_capacity, leading_zeros, segment_for_slot, object_spot,
}

pub pow_mono : (m n : ℕ) → m ≤ n → 2 ^ m ≤ 2 ^ n
pow_mono m zero h = let e : m ≡ 0 = omega arith in rw e (omega arith)
pow_mono m (suc n) h = elim (Bool-cases (leb m n)) [
  | inl le ↦ let tail = pow_mono m n (ground arith) in rw (pow-suc 2 n) (omega arith)
  | inr last ↦ let e : m ≡ suc n = ground arith in rw e (omega arith)
]

pow_lt-cancel : (m n : ℕ) → 2 ^ m < 2 ^ n → m < n
pow_lt-cancel m n h = elim (Bool-cases (ltb m n)) [
  | inl lt ↦ ground arith
  | inr ge ↦ let mono = pow_mono n m (ground arith) in absurd (omega arith)
]

-- The bits of a value that is not 0.
leading_zeros-bounds :
    (width value : ℕ)
    → 0 < value
    → value < 2 ^ width
    → (k : ℕ) × (width - leading_zeros width value ≡ suc k) × (2 ^ k ≤ value) × (value < 2 ^ suc k)
unfolding leading_zeros
leading_zeros-bounds zero value pos lt = absurd (omega arith)
leading_zeros-bounds (suc width) value pos lt = elim (Bool-cases (ltb value (2 ^ width))) [
  | inl small ↦
      let (k, e, low, high) = leading_zeros-bounds width value pos (ground arith) in
      (k, rw small (omega arith), low, high)
  | inr big ↦ (width, rw big (omega arith), ground arith, lt)
]

some_injective {ℓ} : {A : Type ℓ} {a b : A} → some a ≡ some b → a ≡ b
some_injective e = cc

-- The capacity of some segments.
pub capacity_lem : (m : ℕ) → m < segments_max → capacity_for_segments (suc m) ≡ some (64 * 2 ^ m)
capacity_lem zero fits = refl
capacity_lem (suc m) fits = ground arith

over_capacity :
    (m capacity : ℕ) → ltb m segments_max ≡ false → capacity_for_segments (suc m) ≢ some capacity
over_capacity m capacity over e = ground arith

pub capacity_cases :
    (n capacity : ℕ)
    → capacity_for_segments n ≡ some capacity
    → 0 < capacity
    → (m : ℕ) × (n ≡ suc m) × (m < segments_max) × (capacity ≡ 64 * 2 ^ m)
capacity_cases zero capacity e pos = ground arith
capacity_cases (suc m) capacity e pos = elim (Bool-cases (ltb m segments_max)) [
  | inl fits ↦ (m, refl, ground arith, some_injective (sym e ∙ capacity_lem m (ground arith)))
  | inr over ↦ absurd (over_capacity m capacity over e)
]

base_lem : (k : ℕ) → suc k < segments_max → segment_base (suc k) ≡ some (64 * 2 ^ k)
base_lem k fits = ground arith

slots_lem : (k : ℕ) → suc k < segments_max → segment_slots (suc k) ≡ some (64 * 2 ^ k)
slots_lem zero fits = refl
slots_lem (suc k) fits = ground arith

-- Where a slot past the first segment lies.
later_segment :
    (slot n : ℕ)
    → 64 ≤ slot
    → n < segments_max
    → slot < 64 * 2 ^ n
    → (k : ℕ) × (segment_for_slot slot ≡ some (suc k))
      × (k < n)
      × (64 * 2 ^ k ≤ slot)
      × (slot < 64 * 2 ^ suc k)
later_segment slot n past fits inside =
    let low6 : slot / 2 ^ 6 < 2 ^ n = omega arith in
    let wide : 2 ^ n ≤ 2 ^ 64 = pow_mono n 64 (omega arith) in
    let (k, e, low, high) = leading_zeros-bounds 64 (slot / 2 ^ 6) (omega arith) (omega arith) in
    let below : k < n = pow_lt-cancel k n (omega arith) in
    let far : ltb slot segment0_slots ≡ false = ground arith in
    let near : leb segments_max (suc k) ≡ false = ground arith in
    (k, rw (e, far, near) refl, below, omega arith, omega arith)

-- For a slot below the capacity of `n` segments, no assertion fails: `cachetag_object_at` reads one
-- of these segments, within its slots, at the slot's distance from the segment's base.
pub object_spot-bounds :
    (n capacity slot : ℕ)
    → capacity_for_segments n ≡ some capacity
    → slot < capacity
    → (segment offset base slots : ℕ) × (object_spot capacity slot ≡ some (segment, offset))
      × (segment < n)
      × (segment_base segment ≡ some base)
      × (segment_slots segment ≡ some slots)
      × (offset < slots)
      × (base + offset ≡ slot)
unfolding object_spot
object_spot-bounds n capacity slot e inside =
    let (m, en, fits, ec) = capacity_cases n capacity e (omega arith) in
    let read : (not (ltb slot capacity)) ≡ false = ground arith in
    elim (Bool-cases (ltb slot segment0_slots)) [
      | inl first ↦ (
        0,
        slot,
        0,
        64,
        rw (read, first) (ap (λ o. some (0, o)) (let z : slot - 0 ≡ slot = omega arith in z)),
        omega arith,
        refl,
        refl,
        ground arith,
        omega arith,
      )
      | inr later ↦
          let (k, es, below, low, high) = later_segment slot m (ground arith) fits (omega arith) in
          let size : 64 * 2 ^ suc k ≡ 64 * 2 ^ k + 64 * 2 ^ k = rw (pow-suc 2 k) (omega arith) in
          (
            suc k,
            slot - 64 * 2 ^ k,
            64 * 2 ^ k,
            64 * 2 ^ k,
            rw (read, es, base_lem k (omega arith)) refl,
            omega arith,
            base_lem k (omega arith),
            slots_lem k (omega arith),
            omega arith,
            omega arith,
          )
    ]

-- Two slots below the capacity never share a place.
pub object_spot-distinct :
    (n capacity slot slot' : ℕ)
    → capacity_for_segments n ≡ some capacity
    → slot < capacity
    → slot' < capacity
    → slot ≢ slot'
    → object_spot capacity slot ≢ object_spot capacity slot'
object_spot-distinct n capacity slot slot' e inside inside' ne same =
    let (g, o, b, s, spot, lt, base, size, within, sum) =
      object_spot-bounds n capacity slot e inside in
    let (g', o', b', s', spot', lt', base', size', within', sum') =
      object_spot-bounds n capacity slot' e inside' in
    let pair : Path (ℕ × ℕ) (g, o) (g', o') =
      some_injective {a = (g, o)} {b = (g', o')} (sym spot ∙ same ∙ spot') in
    let same_base : b ≡ b' =
      some_injective (sym base ∙ ap segment_base (ap (λ (p : ℕ × ℕ). p.0) pair) ∙ base') in
    let same_offset : o ≡ o' = ap (λ (p : ℕ × ℕ). p.1) pair in ne (omega arith)

held_below :
    (n : ℕ) (m : ℕ)
    → 0 < m
    → m < n
    → n ≤ segments_max
    → (c : ℕ) × (capacity_for_segments m ≡ some c) × (c < 64 * 2 ^ (n - 1))
held_below n zero pos lt fits = elim pos [ ]
held_below n (suc zero) pos lt fits =
    let mono = pow_mono 1 (n - 1) (omega arith) in (64, refl, omega arith)
held_below n (suc (suc m)) pos lt fits =
    let mono = pow_mono (suc (suc m)) (n - 1) (omega arith) in
    let double = pow-suc 2 (suc m) in
    let some_room = two_pow-pos (suc m) in (64 * 2 ^ suc m, ground arith, omega arith)

count_loop-capacity :
    (fuel m n capacity : ℕ)
    → 0 < m
    → m ≤ n
    → n < m + fuel
    → n ≤ segments_max
    → capacity_for_segments n ≡ some capacity
    → capacity ≡ 64 * 2 ^ (n - 1)
    → count_loop fuel m capacity ≡ some n
unfolding count_loop
count_loop-capacity zero m n capacity pos le lt fits e ec = absurd (omega arith)
count_loop-capacity (suc fuel) m n capacity pos le lt fits e ec = elim (Bool-cases (m == n)) [
  | inl this ↦
      let same : m ≡ n = ground arith in
      let holds : leb capacity capacity ≡ true = ground arith in rw (same, e, holds) refl
  | inr other ↦
      let (c, held, less) = held_below n m pos (ground arith) fits in
      let short : leb capacity c ≡ false = ground arith in
      rw (held, short)
        (count_loop-capacity fuel (m + 1) n capacity (omega arith) (ground arith) (omega arith) fits
          e ec)
]

-- The number of segments is recovered from their capacity.
pub segment_count_for_capacity-capacity :
    (n capacity : ℕ)
    → capacity_for_segments n ≡ some capacity
    → segment_count_for_capacity capacity ≡ some n
unfolding segment_count_for_capacity
segment_count_for_capacity-capacity zero capacity e = ground arith
segment_count_for_capacity-capacity (suc n) capacity e = elim (Bool-cases (ltb n segments_max)) [
  | inr over ↦ absurd (over_capacity n capacity over e)
  | inl fits ↦
      let held : capacity ≡ 64 * 2 ^ n = some_injective (sym e ∙ capacity_lem n (ground arith)) in
      let full = two_pow-pos n in
      let some_slots : (capacity == 0) ≡ false = ground arith in
      rw some_slots (
        count_loop-capacity segments_max 1 (suc n) capacity (omega arith) (omega arith)
          (ground arith) (ground arith) e
          (rw held (ap (λ k. 64 * 2 ^ k) (let z : n ≡ suc n - 1 = omega arith in z))))
]
