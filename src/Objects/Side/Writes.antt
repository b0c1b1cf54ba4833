-- ===== src/Objects/Side/Writes.antt =====
-- What a side table stands for, and how insertions and tombstones change it
-- (src/vmod_cachetag_index.c).
use libvmod_cachetag.Base.{ℕ, ◌<◌, ◌≡◌, ◌≢◌, ap, ◌∙◌, refl, sym}
use libvmod_cachetag.Base.{true, false, Option, none, some, List, arith}
use libvmod_cachetag.Base.{◌==◌, if◌then◌else◌, ==_iff, Bool-cases, ◌⊎◌, inl, inr}
use libvmod_cachetag.Base.{length, set, length-set, get_or-set_self, get_or-set_ne}
use libvmod_cachetag.PurgeMap.Table.{home}
use libvmod_cachetag.PurgeMap.Table.Walk.{IsSized, home-lt}
use libvmod_cachetag.Objects.Side.{
  Objects, object_at, Bucket, bucket, no_bucket, bucket_live, tombstone, SideFind, found, missing,
  broken, find_loop, side_hash, side_fingerprint,
}
use libvmod_cachetag.Objects.Side.Probe.{
  slot_of, Names, find_loop_sound, find_loop-set, find_loop-tombstone,
}

-- A search in a map, from the address's home.
abbrev pub seek : Objects → ℕ → List Bucket → ℕ → SideFind
seek os bits m oc =
    find_loop (length m) os m (length m) (side_fingerprint bits (side_hash oc)) oc
      (home (side_hash oc) (length m))

-- Every live bucket names an object, and is where the search for that object ends.
pub record IsMapped (os : Objects) (bits : ℕ) (m : List Bucket) : Type 0 where
  pub sized : IsSized (length m)
  pub names : (p : ℕ) → bucket_live (bucket m p) ≡ true → Names os (bucket m p)
  pub reach :
      (p : ℕ)
      → p < length m
      → bucket_live (bucket m p) ≡ true
      → seek os bits m (object_at os (slot_of (bucket m p))).oc ≡ found p (slot_of (bucket m p))

-- The slot of an address.
abbrev pub slot_found : SideFind → Option ℕ
slot_found (found p s) = some s
slot_found missing = none
slot_found broken = none

pub SideFind-cases : (f : SideFind) → ((p s : ℕ) × (f ≡ found p s)) ⊎ ((p s : ℕ) → f ≢ found p s)
SideFind-cases (found p s) = inl (p, s, refl)
SideFind-cases missing = inr (λ p s e. cc)
SideFind-cases broken = inr (λ p s e. cc)

pub not_found : (f : SideFind) → ((p s : ℕ) → f ≢ found p s) → slot_found f ≡ none
not_found (found p s) h = absurd (h p s refl)
not_found missing h = refl
not_found broken h = refl

pub seek_sound :
    (os : Objects) (bits : ℕ) (m : List Bucket) (oc p s : ℕ)
    → IsSized (length m)
    → seek os bits m oc ≡ found p s
    → (p < length m)
      × (bucket_live (bucket m p) ≡ true)
      × (slot_of (bucket m p) ≡ s)
      × ((object_at os s).oc ≡ oc)
seek_sound os bits m oc p s sized e =
    find_loop_sound os m (length m) sized (side_fingerprint bits (side_hash oc)) oc (length m)
      (home (side_hash oc) (length m)) p s (home-lt (side_hash oc) sized) e

module _ (os : Objects) (bits : ℕ) (m : List Bucket) (mapped : IsMapped os bits m) where
  -- A new bucket for an address that the map does not have.
  module _ (q : ℕ) (v : Bucket) (hq : q < length m) (dead : bucket_live (bucket m q) ≡ false)
      (live : bucket_live v ≡ true) (named : Names os v)
      (new : seek os bits m (object_at os (slot_of v)).oc ≡ missing)
      (reached : seek os bits (set m q v) (object_at os (slot_of v)).oc ≡ found q (slot_of v)) where
    abbrev owner : ℕ
    owner = (object_at os (slot_of v)).oc

    seek-kept :
        (oc p s : ℕ)
        → owner ≢ oc
        → seek os bits m oc ≡ found p s
        → seek os bits (set m q v) oc ≡ found p s
    seek-kept oc p s other e = rw (length-set m q v) (
        find_loop-set os m (length m) mapped.sized (side_fingerprint bits (side_hash oc)) oc q v
          (length m) (home (side_hash oc) (length m)) p s hq dead live named other e)

    -- The buckets of the new map.
    bucket_cases :
        (p : ℕ)
        → ((q ≡ p) × (bucket (set m q v) p ≡ v)) ⊎ ((q ≢ p) × (bucket (set m q v) p ≡ bucket m p))
    bucket_cases p = elim (Bool-cases (q == p)) [
      | inl here ↦
          let e = (==_iff q p).0 here in
          inl (e, ap (λ i. bucket (set m q v) i) (sym e) ∙ get_or-set_self m q v no_bucket hq)
      | inr off ↦ let ne : q ≢ p = ground arith in inr (ne, get_or-set_ne m q p v no_bucket ne)
    ]

    pub IsMapped-set : IsMapped os bits (set m q v)
    IsMapped-set = record {
      sized = rw (length-set m q v) mapped.sized;
      names = λ p lp. elim (bucket_cases p) [
        | inl (e, b) ↦ rw b named
        | inr (ne, b) ↦ rw b (mapped.names p (rw b at lp))
      ];
      reach = λ p hp lp. elim (bucket_cases p) [
        | inl (e, b) ↦ rw b (reached ∙ ap (λ i. found i (slot_of v)) e)
        | inr (ne, b) ↦
            let r = mapped.reach p (rw length-set at hp) (rw b at lp) in
            rw b (seek-kept _ p _ (λ e. cc (new, r)) r)
      ];
    }

    -- Any other address that is found now was found before.
    seek_back :
        (oc p s : ℕ)
        → oc ≢ owner
        → seek os bits (set m q v) oc ≡ found p s
        → seek os bits m oc ≡ found p s
    seek_back oc p s other e =
        let (hp, lp, sp, op) = seek_sound os bits (set m q v) oc p s IsMapped-set.sized e in
        elim (bucket_cases p) [
          | inl (qe, b) ↦
              absurd (other (sym op ∙ ap (λ k. (object_at os k).oc) (sym sp ∙ ap slot_of b)))
          | inr (ne, b) ↦
              let same : slot_of (bucket m p) ≡ s = ap slot_of (sym b) ∙ sp in
              let r = mapped.reach p (rw length-set at hp) (rw b at lp) in rw (same, op) at r
        ]

    pub seek-set :
        (oc : ℕ)
        → slot_found (seek os bits (set m q v) oc)
          ≡ (if oc == owner then some (slot_of v) else slot_found (seek os bits m oc))
    seek-set oc = elim (Bool-cases (oc == owner)) [
      | inl here ↦ let e = (==_iff oc owner).0 here in rw (here, e, reached) refl
      | inr off ↦ rw off (elim (SideFind-cases (seek os bits m oc)) [
        | inl (p, s, e) ↦ rw (seek-kept oc p s (ground arith) e, e) refl
        | inr never ↦
            not_found (seek os bits (set m q v) oc)
              (λ p s e. never p s (seek_back oc p s (ground arith) e))
            ∙ sym (not_found (seek os bits m oc) never)
      ])
    ]

  -- A tombstone in place of a live bucket.
  module _ (q : ℕ) (hq : q < length m) (live : bucket_live (bucket m q) ≡ true) where
    abbrev gone : ℕ
    gone = (object_at os (slot_of (bucket m q))).oc

    seek-tombstone : (oc : ℕ) → gone ≢ oc → seek os bits (set m q tombstone) oc ≡ seek os bits m oc
    seek-tombstone oc other = rw (length-set m q tombstone) (
        find_loop-tombstone os m (length m) mapped.sized (side_fingerprint bits (side_hash oc)) oc q
          (length m) (home (side_hash oc) (length m)) hq live (mapped.names q live) other)

    tombstone_cases :
        (p : ℕ)
        → bucket_live (bucket (set m q tombstone) p) ≡ true
        → (q ≢ p) × (bucket (set m q tombstone) p ≡ bucket m p)
    tombstone_cases p lp = elim (Bool-cases (q == p)) [
      | inl here ↦
          let e = (==_iff q p).0 here in
          let b =
            ap (λ i. bucket (set m q tombstone) i) (sym e)
            ∙ get_or-set_self m q tombstone no_bucket hq in
          absurd (cc (rw b at lp))
      | inr off ↦ let ne : q ≢ p = ground arith in (ne, get_or-set_ne m q p tombstone no_bucket ne)
    ]

    -- Another live bucket names another object.
    elsewhere :
        (p : ℕ)
        → p < length m
        → bucket_live (bucket m p) ≡ true
        → q ≢ p
        → gone ≢ (object_at os (slot_of (bucket m p))).oc
    elsewhere p hp lp ne e =
        let a = mapped.reach q hq live in
        let b = mapped.reach p hp lp in
        let same : found q (slot_of (bucket m q)) ≡ found p (slot_of (bucket m p)) =
          sym a ∙ ap (seek os bits m) e ∙ b in
        ne cc

    pub IsMapped-tombstone : IsMapped os bits (set m q tombstone)
    IsMapped-tombstone = record {
      sized = rw (length-set m q tombstone) mapped.sized;
      names = λ p lp. let (ne, b) = tombstone_cases p lp in rw b (mapped.names p (rw b at lp));
      reach = λ p hp lp.
          let (ne, b) = tombstone_cases p lp in
          let h = rw length-set at hp in
          let l = rw b at lp in rw b (seek-tombstone _ (elsewhere p h l ne) ∙ mapped.reach p h l);
    }

    pub seek-removed :
        (oc : ℕ)
        → slot_found (seek os bits (set m q tombstone) oc)
          ≡ (if oc == gone then none else slot_found (seek os bits m oc))
    seek-removed oc = elim (Bool-cases (oc == gone)) [
      | inr off ↦ rw off (ap slot_found (seek-tombstone oc (ground arith)))
      | inl here ↦
          let e = (==_iff oc gone).0 here in
          rw here (
            not_found (seek os bits (set m q tombstone) oc) λ p s f.
              let (hp, lp, sp, op) =
                seek_sound os bits (set m q tombstone) oc p s IsMapped-tombstone.sized f in
              let (ne, b) = tombstone_cases p lp in
              let same : slot_of (bucket m p) ≡ s = ap slot_of (sym b) ∙ sp in
              elsewhere p (rw length-set at hp) (rw b at lp) ne
                (sym e ∙ sym op ∙ ap (λ k. (object_at os k).oc) (sym same)))
    ]
