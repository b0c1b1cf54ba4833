-- ===== src/Objects/Sizing.antt =====
-- How the tables of the object index grow early and shrink after a time of low water
-- (src/vmod_cachetag_index.c). The clock's answer is an argument.
pub mod Targets
pub mod Quiet
pub mod Ready
use libvmod_cachetag.Base.{ℕ, zero, suc, ◌+◌, ◌-◌, ◌*◌, ◌/◌}
use libvmod_cachetag.Base.{Bool, true, false, not, ◌&&◌, ◌||◌, Option, none, some, List}
use libvmod_cachetag.Base.{ltb, leb, ◌==◌, if◌then◌else◌, and_then, get_or}
use libvmod_cachetag.PurgeMap.Map.{size_max, double_until}
use libvmod_cachetag.Objects.Segments.{
  segments_max, segment0_slots, capacity_for_segments, segment_count_for_capacity,
}
use libvmod_cachetag.Objects.Migrate.{SideIndex, Reason, grow, rebuild, default_buckets, hard_limit}

-- TAG_OBJECT_GROW_RUNWAY_DIVISOR and TAG_OBJECT_GROW_RUNWAY_ABSOLUTE
abbrev pub growth_runway : ℕ → ℕ
growth_runway capacity = let runway : ℕ = capacity / 8 in if ltb 32768 runway then 32768 else runway

-- `5 / 8` of the buckets, but 32 before the hard limit
abbrev pub soft_grow_limit : ℕ → ℕ
soft_grow_limit buckets =
    let soft : ℕ = buckets * 5 / 8 in
    if ltb buckets default_buckets
    then soft
    else if leb (hard_limit buckets) 32
    then 1
    else if ltb (hard_limit buckets - 32) soft
    then hard_limit buckets - 32
    else soft

-- The next segment to allocate, with the capacity that it gives; the inner `none` means that nothing
-- is to be done, the outer one that an assertion fails. `published` tells the segments in place.
unfoldable pub object_soft_growth : ℕ → ℕ → (ℕ → Bool) → Option (Option (ℕ × ℕ))
object_soft_growth nobjects capobjects published =
    if capobjects == 0
    then some none
    else if not (leb (growth_runway capobjects) capobjects)
    then none
    else if ltb nobjects (capobjects - growth_runway capobjects)
    then some none
    else and_then (segment_count_for_capacity capobjects) λ segment.
      if leb segments_max segment || published segment
      then some none
      else and_then (capacity_for_segments (segment + 1))
          λ capacity. some (some (segment, capacity))

-- A doubling of at most 64 rounds: at a fourth of the capacity or less, `nobjects * 2` fits.
abbrev pub object_low_water_target : ℕ → ℕ → ℕ
object_low_water_target nobjects capobjects =
    if nobjects == 0
    then 0
    else if ltb (capobjects / 4) nobjects
    then capobjects
    else double_until 64 (λ cap. leb (nobjects * 2) cap) segment0_slots

-- The loop of the next function; `old` is what it yields when a doubling would overflow.
unfoldable pub side_target_loop : ℕ → ℕ → ℕ → ℕ → ℕ
side_target_loop zero nobjects old buckets = old
side_target_loop (suc fuel) nobjects old buckets =
    let more = side_target_loop fuel nobjects old (buckets * 2) in
    if not (ltb (buckets / 4) nobjects)
    then buckets
    else if ltb (size_max / 2) buckets
    then old
    else more

abbrev pub side_low_water_target : ℕ → SideIndex → ℕ
side_low_water_target nobjects sx =
    if nobjects == 0
    then 0
    else if sx.primary.buckets == 0 || sx.active
    then sx.primary.buckets
    else side_target_loop 64 nobjects sx.primary.buckets default_buckets

-- The size and the reason of an early resize.
unfoldable pub side_soft_resize : SideIndex → Option (ℕ × Reason)
side_soft_resize sx =
    let t = sx.primary in
    if sx.active || t.buckets == 0
    then none
    else if ltb (t.buckets / 4) t.tombstones && leb t.live (hard_limit t.buckets)
    then some (t.buckets, rebuild)
    else if ltb (t.live + t.tombstones) (soft_grow_limit t.buckets)
    then none
    else if ltb (size_max / 2) t.buckets
    then none
    else some (t.buckets * 2, grow)

-- The observation of low water.
pub record LowWater : Type 0 where
  pub active : Bool
  pub start_usec : ℕ
  pub live : ℕ
  pub force : Bool
  pub rearm_at_usec : ℕ

-- TAG_RESIZE_LOW_WATER_OBSERVE_USEC and TAG_RESIZE_LOW_WATER_REARM_USEC
abbrev pub observe_usec : ℕ
observe_usec = 5000000

abbrev pub rearm_usec : ℕ
rearm_usec = 100000

abbrev pub elapsed_usec : ℕ → ℕ → ℕ
elapsed_usec start end = if start == 0 || leb end start then 0 else end - start

abbrev pub overrun : LowWater → ℕ → Bool
overrun lw nobjects =
    let tolerance : ℕ = lw.live / 8 in
    let ceiling : ℕ = lw.live + (if tolerance == 0 then 1 else tolerance) in
    if not lw.active
    then false
    else if lw.live == 0
    then not (nobjects == 0)
    else ltb ceiling nobjects

abbrev pub cancel : LowWater → LowWater
cancel lw = record lw { active = false; start_usec = 0; live = 0; force = false }

abbrev pub start : ℕ → ℕ → LowWater
start nobjects start_usec = record {
  active = true;
  start_usec = start_usec;
  live = nobjects;
  force = false;
  rearm_at_usec = 0;
}

abbrev pub rearm : LowWater → ℕ → LowWater
rearm lw now = record lw { rearm_at_usec = now + rearm_usec }

abbrev pub wake_at : LowWater → ℕ
wake_at lw =
    if lw.active && not lw.force
    then lw.start_usec + observe_usec
    else if not lw.active && not (lw.rearm_at_usec == 0)
    then lw.rearm_at_usec
    else 0

-- The worker's step that starts a postponed observation.
abbrev pub promote_rearm : LowWater → ℕ → ℕ → LowWater × Bool
promote_rearm lw nobjects now =
    if not lw.active && (not (lw.rearm_at_usec == 0) && leb lw.rearm_at_usec now)
    then (start nobjects now, true)
    else (lw, false)

abbrev is_growth : Option (ℕ × Reason) → Bool
is_growth (some (buckets, grow)) = true
is_growth _ = false

abbrev pub has_growth : Option (ℕ × ℕ) → Bool
has_growth none = false
has_growth (some g) = true

-- The tests that something can be given back.
abbrev pub can_reclaim : ℕ → ℕ → SideIndex → Bool
can_reclaim nobjects capobjects sx =
    nobjects == 0 && (not (capobjects == 0) || not (sx.primary.buckets + sx.retiring.buckets == 0))
    || (ltb (object_low_water_target nobjects capobjects) capobjects
        || not sx.active && ltb (side_low_water_target nobjects sx) sx.primary.buckets)

-- The tests that follow once the observation has not been overrun.
abbrev pub after_growth :
    LowWater → ℕ → ℕ → SideIndex → ℕ → Option (Option (ℕ × ℕ)) → Option (LowWater × Bool)
after_growth lw nobjects capobjects sx now none = none
after_growth lw nobjects capobjects sx now (some growth) =
    if has_growth growth
    then some (cancel lw, false)
    else if is_growth (side_soft_resize sx)
    then some (cancel lw, false)
    else if not lw.force && ltb (elapsed_usec lw.start_usec now) observe_usec
    then some (lw, false)
    else if can_reclaim nobjects capobjects sx
    then some (lw, true)
    else some (cancel lw, false)

-- Whether to shrink now, and the observation that goes on. `none` means that an assertion fails.
unfoldable pub low_water_ready :
    LowWater → ℕ → ℕ → (ℕ → Bool) → SideIndex → ℕ → Option (LowWater × Bool)
low_water_ready lw nobjects capobjects published sx now =
    if not lw.active
    then some (lw, false)
    else if overrun lw nobjects
    then some (rearm (cancel lw) now, false)
    else after_growth lw nobjects capobjects sx now
        (object_soft_growth nobjects capobjects published)
