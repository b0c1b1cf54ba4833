-- ===== src/Tests/Sizes.antt =====
-- The sizes of the object index at concrete inputs (src/vmod_cachetag_index.c).
use libvmod_cachetag.Base.{ℕ, ◌*◌, ◌≤◌, ◌≡◌, refl, true, false, some, arith}
use libvmod_cachetag.PurgeMap.Table.Walk.{IsSized}
use libvmod_cachetag.Objects.Segments.{capacity_for_segments}
use libvmod_cachetag.Objects.Migrate.{SideIndex, idle, cleared}
use libvmod_cachetag.Objects.Migrate.Publish.{fresh}
use libvmod_cachetag.Objects.Sizing.{LowWater, object_low_water_target, side_low_water_target}
use libvmod_cachetag.Objects.Sizing.Targets.{
  object_low_water_target-fits, side_low_water_target-fits,
}

object_low_water_target-fits_example :
    (20 ≤ object_low_water_target 20 256)
    × (object_low_water_target 20 256 ≤ 256)
    × ((k : ℕ) × (k ≤ 3) × (capacity_for_segments k ≡ some (object_low_water_target 20 256)))
object_low_water_target-fits_example = object_low_water_target-fits 3 256 20 refl (omega arith)

abbrev wide : SideIndex
wide = record {
  primary = fresh 1024;
  retiring = cleared;
  cursor = 0;
  active = false;
  reason = idle;
  auto = false;
}

side_low_water_target-fits_example :
    IsSized (side_low_water_target 20 wide) × (20 * 4 ≤ side_low_water_target 20 wide)
side_low_water_target-fits_example =
    side_low_water_target-fits 20 wide (omega arith) (omega arith) refl (omega arith)

-- An observation that began at 7 seconds.
abbrev observed : LowWater
observed = record {
  active = true;
  start_usec = 7000000;
  live = 20;
  force = false;
  rearm_at_usec = 0;
}
