-- ===== src/Objects/Migrate/Resize.antt =====
-- The resize that an insertion asks for, from its request to the migration (src/vmod_cachetag_index.c).
use libvmod_cachetag.Base.{ℕ, suc, ◌+◌, ◌*◌, ◌/◌, ◌<◌, ◌≤◌, ◌≡◌, ap, ◌∙◌, refl, sym}
use libvmod_cachetag.Base.{Bool, true, false, ◌&&◌, arith}
use libvmod_cachetag.Base.{leb, ltb, ◌==◌, if◌then◌else◌, Bool-cases, inl, inr}
use libvmod_cachetag.Base.{ok}
use native.Mathlib.Nat.{pow-suc}
use mathlib.Core.Path.{subst}
use libvmod_cachetag.PurgeMap.Table.Walk.{IsSized}
use libvmod_cachetag.PurgeMap.Map.{size_max}
use libvmod_cachetag.Objects.Side.{Objects, max_objects}
use libvmod_cachetag.Objects.Migrate.{
  SideIndex, Reason, grow, rebuild, publish_migration, publish_allocated_for_insert, prepare_insert,
  Prepared, ready, resize, refused, prepare_idle, has_room, hard_limit, publish_fitting,
  reason_fits, set_auto,
}
use libvmod_cachetag.Objects.Migrate.Steps.{located, Migrating}
use libvmod_cachetag.Objects.Migrate.Batch.{Done}
use libvmod_cachetag.Objects.Migrate.Publish.{begun, begun-slots, begun-Migrating, published_auto}

twice-IsSized : (n : ℕ) → IsSized n → IsSized (n * 2)
twice-IsSized n (k, e) = (suc k, rw e (sym (pow-suc 2 k)))

-- With the flag that lets the worker go on.
Migrating-auto :
    (os : Objects) (bits : ℕ) (sx : SideIndex) (auto : Bool)
    → Migrating os bits sx
    → Migrating os bits (record sx { auto = auto })
Migrating-auto os bits sx auto mig = record {
  small = mig.small;
  primary = mig.primary;
  retiring = mig.retiring;
  apart = mig.apart;
  behind = mig.behind;
  within = mig.within;
  total = mig.total;
  room = mig.room;
  retiring_room = mig.retiring_room;
}

-- A resize that an insertion asks for.
module _ (os : Objects) (bits : ℕ) (sx : SideIndex) (done : Done os bits sx)
    (small : os.nobjects ≤ max_objects)
    (room : sx.primary.live + sx.primary.tombstones < sx.primary.buckets) where
  abbrev Begins : ℕ → Reason → Type 0
  Begins buckets reason =
      (sx' : SideIndex) × (publish_allocated_for_insert sx true buckets reason ≡ ok sx')
      × (sx'.active ≡ true)
      × Migrating os bits sx'
      × ((g : ℕ) → located os bits sx' g ≡ located os bits sx g)

  some_buckets : (sx.primary.buckets == 0) ≡ false
  some_buckets = ground arith

  four {ℓ} :
      {A : Type ℓ} (x y z w : A) (a b c : Bool)
      → a ≡ false
      → b ≡ false
      → c ≡ false
      → (if a then x else if b then y else if c then z else w) ≡ w
  four x y z w a b c p q r = rw (p, q, r) refl

  sized : IsSized sx.primary.buckets
  sized = rw done.table.size done.table.mapped.sized

  begins :
      (buckets : ℕ) (reason : Reason)
      → IsSized buckets
      → sx.primary.live < buckets
      → has_room sx.primary ≡ false
      → publish_fitting sx true buckets reason (reason_fits reason buckets sx.primary.buckets)
        ≡ set_auto (publish_migration sx true buckets reason)
      → Begins buckets reason
  unfolding publish_allocated_for_insert
  begins buckets reason power enough full fits = (
    record (begun os bits sx done small room buckets reason power enough) { auto = true },
    four _ _ _ _ (sx.primary.buckets == 0) sx.active (has_room sx.primary) some_buckets done.idle
          full
        ∙ fits
        ∙ ap set_auto (published_auto os bits sx done small room buckets reason power enough),
    refl,
    Migrating-auto os bits (begun os bits sx done small room buckets reason power enough) true
        (begun-Migrating os bits sx done small room buckets reason power enough),
    begun-slots os bits sx done small room buckets reason power enough,
  )

  rebuilds :
      leb (sx.primary.live + 1) (hard_limit sx.primary.buckets) ≡ true
      → has_room sx.primary ≡ false
      → Begins sx.primary.buckets rebuild
  rebuilds few full =
      let same : (sx.primary.buckets == sx.primary.buckets) ≡ true = ground arith in
      begins sx.primary.buckets rebuild sized (ground arith) full
        (ap (λ x. publish_fitting sx true sx.primary.buckets rebuild (ok x)) same)

  grows : has_room sx.primary ≡ false → Begins (sx.primary.buckets * 2) grow
  grows full =
      let same : (sx.primary.buckets * 2 == sx.primary.buckets * 2) ≡ true = ground arith in
      begins (sx.primary.buckets * 2) grow (twice-IsSized sx.primary.buckets sized) (ground arith)
        full (ap (λ x. publish_fitting sx true (sx.primary.buckets * 2) grow (ok x)) same)

  asked_buckets : Prepared → ℕ
  asked_buckets (ready _) = 0
  asked_buckets (resize _ b _) = b
  asked_buckets (refused _ _) = 0

  asked_reason : Prepared → Reason
  asked_reason (ready _) = grow
  asked_reason (resize _ _ r) = r
  asked_reason (refused _ _) = grow

  Begun :
      (a b : Prepared)
      → a ≡ b
      → Begins (asked_buckets a) (asked_reason a)
      → Begins (asked_buckets b) (asked_reason b)
  Begun a b e h = subst (λ p. Begins (asked_buckets p) (asked_reason p)) e h

  -- When no migration is on its way and the table keeps an empty bucket, the resize that an insertion
  -- asks for is accepted when its memory comes and nothing has changed since: a migration begins that
  -- is in order and keeps every address's slot.
  pub prepare_insert-publish :
      (sx1 : SideIndex) (buckets : ℕ) (reason : Reason)
      → prepare_insert sx ≡ resize sx1 buckets reason
      → (sx' : SideIndex) × (publish_allocated_for_insert sx true buckets reason ≡ ok sx')
        × (sx'.active ≡ true)
        × Migrating os bits sx'
        × ((g : ℕ) → located os bits sx' g ≡ located os bits sx g)
  unfolding prepare_insert asked_buckets asked_reason
  prepare_insert-publish sx1 buckets reason e = elim (Bool-cases (has_room sx.primary)) [
    | inl roomy ↦ cc (e, rw (some_buckets, roomy) at e)
    | inr full ↦
        let asked : prepare_idle sx ≡ resize sx1 buckets reason =
          sym (
            four _ _ _ (prepare_idle sx) (sx.primary.buckets == 0) (has_room sx.primary) sx.active
              some_buckets full done.idle)
          ∙ e in
        elim (Bool-cases (
          ltb (sx.primary.buckets / 4) sx.primary.tombstones
          && leb (sx.primary.live + 1) (hard_limit sx.primary.buckets))) [
            | inl few ↦
                let a : resize sx sx.primary.buckets rebuild ≡ resize sx1 buckets reason =
                  rw few at asked in
                Begun _ _ a (rebuilds (ground arith) full)
            | inr many ↦ elim (Bool-cases (ltb (size_max / 2) sx.primary.buckets)) [
              | inl huge ↦ cc (asked, rw (many, huge) at asked)
              | inr fits ↦
                  let a : resize sx (sx.primary.buckets * 2) grow ≡ resize sx1 buckets reason =
                    rw (many, fits) at asked in
                  Begun _ _ a (grows full)
            ]
          ]
  ]
