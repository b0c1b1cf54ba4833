-- ===== src/Objects/Migrate/Publish.antt =====
-- How a migration begins (src/vmod_cachetag_index.c).
use libvmod_cachetag.Base.{ℕ, zero, suc, ◌+◌, ◌-◌, ◌<◌, ◌≤◌, ◌≡◌, ap, ◌∙◌, refl, sym}
use libvmod_cachetag.Base.{Bool, true, false, not, ◌&&◌, ◌||◌, Option, none, some, arith}
use libvmod_cachetag.Base.{◌==◌, if◌then◌else◌, inl}
use libvmod_cachetag.Base.{replicate, length-replicate, get_or-replicate, ok, count_if, bit_and}
use libvmod_cachetag.PurgeMap.Table.Walk.{IsSized, IsSized-pos}
use libvmod_cachetag.Objects.Side.{
  Objects, Bucket, bucket, no_bucket, bucket_live, bucket_tombstone, max_objects, table_find,
  SideTable,
}
use libvmod_cachetag.Objects.Side.Tables.{IsTable, slot_in, power_test}
use libvmod_cachetag.Objects.Migrate.{SideIndex, Reason, has_map, publish_migration}
use libvmod_cachetag.Objects.Migrate.Steps.{first_of, located, Migrating}
use libvmod_cachetag.Objects.Migrate.Batch.{Done, no_slot, with_map}

abbrev pub fresh : ℕ → SideTable
fresh n = record { map = some (replicate n no_bucket); buckets = n; tombstones = 0; live = 0 }

pub count_if-replicate :
    (p : Bucket → Bool) (n : ℕ) → p no_bucket ≡ false → count_if p (replicate n no_bucket) ≡ 0
unfolding count_if
count_if-replicate p zero h = refl
count_if-replicate p (suc n) h = rw h (count_if-replicate p n h)

-- A new table is in order, and empty.
module _ (os : Objects) (bits n : ℕ) (sized : IsSized n) where
  pub fresh_dead : (p : ℕ) → bucket_live (bucket (replicate n no_bucket) p) ≡ false
  fresh_dead p = ap bucket_live (get_or-replicate n p no_bucket)

  pub fresh-IsTable : IsTable os bits (fresh n)
  fresh-IsTable = record {
    m = replicate n no_bucket;
    holds = refl;
    size = sym (length-replicate n no_bucket);
    mapped = record {
      sized = rw length-replicate sized;
      names = λ p live. cc (fresh_dead p, live);
      reach = λ p h live. cc (fresh_dead p, live);
    };
    live = count_if-replicate bucket_live n refl;
    tombs = count_if-replicate bucket_tombstone n refl;
  }

  pub fresh-no_slot : (g : ℕ) → slot_in os bits (fresh n) g ≡ none
  unfolding fresh-IsTable
  fresh-no_slot = no_slot os bits (fresh n) fresh-IsTable λ p h. fresh_dead p

-- A migration from a table in order to a new one.
module _ (os : Objects) (bits : ℕ) (sx : SideIndex) (done : Done os bits sx)
    (small : os.nobjects ≤ max_objects)
    (room : sx.primary.live + sx.primary.tombstones < sx.primary.buckets) (buckets : ℕ)
    (reason : Reason) (sized : IsSized buckets) (enough : sx.primary.live < buckets) where
  abbrev pub begun : SideIndex
  begun = record {
    primary = fresh buckets;
    retiring = sx.primary;
    cursor = 0;
    active = true;
    reason = reason;
    auto = false;
  }

  pub begun-slots : (g : ℕ) → located os bits begun g ≡ located os bits sx g
  unfolding table_find
  begun-slots g =
      (λ i. first_of (fresh-no_slot os bits buckets sized g i) (slot_in os bits sx.primary g))
      ∙ sym (first_none (slot_in os bits sx.primary g))
      ∙ ap (λ t. first_of (slot_in os bits sx.primary g) (slot_in os bits t g)) (sym done.alone)
    where
      first_none : (o : Option ℕ) → first_of o none ≡ o
      first_none none = refl
      first_none (some s) = refl

  pub begun-Migrating : Migrating os bits begun
  begun-Migrating = record {
    small = small;
    primary = fresh-IsTable os bits buckets sized;
    retiring = done.table;
    apart = λ g. inl (fresh-no_slot os bits buckets sized g);
    behind = λ p h. absurd (omega arith);
    within = omega arith;
    total = let t = done.total in omega arith;
    room = omega arith;
    retiring_room = room;
  }

  first_guard : (not true || (buckets == 0 || not (bit_and buckets (buckets - 1) == 0))) ≡ false
  first_guard =
      let pos = IsSized-pos sized in
      let power = power_test buckets sized in
      let some_buckets : (buckets == 0) ≡ false = ground arith in rw (some_buckets, power) refl

  has_primary : (has_map sx.primary.map && not (sx.primary.buckets == 0)) ≡ true
  has_primary =
      let on = with_map sx.primary.map done.table.m done.table.holds in
      let some_buckets : (sx.primary.buckets == 0) ≡ false = ground arith in
      rw (on, some_buckets) refl

  branches {ℓ} :
      {A : Type ℓ} (x y z w : A) (a b c : Bool)
      → a ≡ false
      → b ≡ false
      → c ≡ true
      → (if a then x else if b then y else if c then z else w) ≡ z
  branches x y z w a b c p q r = rw (p, q, r) refl

  -- When no migration is on its way, a new table of a power of two of buckets, more than there are
  -- objects, starts one that is in order and keeps every address's slot.
  pub publish_migration-Migrating :
      (sx' : SideIndex) × (publish_migration sx true buckets reason ≡ ok sx')
      × (sx'.active ≡ true)
      × Migrating os bits sx'
      × ((g : ℕ) → located os bits sx' g ≡ located os bits sx g)
  unfolding publish_migration
  publish_migration-Migrating = (
    begun,
    branches _ _ _ _ _ sx.active _ first_guard done.idle has_primary,
    refl,
    begun-Migrating,
    begun-slots,
  )

  pub published_auto : publish_migration sx true buckets reason ≡ ok begun
  unfolding publish_migration
  published_auto = branches _ _ _ _ _ sx.active _ first_guard done.idle has_primary
