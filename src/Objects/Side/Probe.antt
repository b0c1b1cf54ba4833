-- ===== src/Objects/Side/Probe.antt =====
-- Where the searches of the side table end (src/vmod_cachetag_index.c).
use libvmod_cachetag.Base.{ℕ, zero, suc, ◌-◌, ◌<◌, ◌≡◌, ◌≢◌, ap, ◌∙◌, refl, sym}
use libvmod_cachetag.Base.{true, false, Option, none, some, List, arith}
use libvmod_cachetag.Base.{◌==◌, ==_iff, Bool-cases, inl, inr}
use libvmod_cachetag.Base.{length, set, get_or-set_self, get_or-set_ne, ok}
use libvmod_cachetag.PurgeMap.Table.{next}
use libvmod_cachetag.PurgeMap.Table.Walk.{IsSized, next-lt, distance, distance-next}
use libvmod_cachetag.Objects.Side.{
  Objects, object_at, Bucket, bucket, no_bucket, bucket_empty, bucket_tombstone, bucket_live,
  tombstone, found, missing, broken, find_loop, insert_loop, note_first,
}

-- The slot that a live bucket names.
abbrev pub slot_of : Bucket → ℕ
slot_of b = b.slot_code - 1

-- A live bucket names an object.
abbrev pub Names : Objects → Bucket → Type 0
Names os b = (slot_of b < os.nobjects) × ((object_at os (slot_of b)).oc ≢ 0)

module _ (os : Objects) (m : List Bucket) (n : ℕ) (sized : IsSized n) (fp oc : ℕ) where
  -- A bucket that is found is live and names the address.
  pub find_loop_sound :
      (fuel at p s : ℕ)
      → at < n
      → find_loop fuel os m n fp oc at ≡ found p s
      → (p < n)
        × (bucket_live (bucket m p) ≡ true)
        × (slot_of (bucket m p) ≡ s)
        × ((object_at os s).oc ≡ oc)
  unfolding find_loop
  find_loop_sound zero at p s h e = cc
  find_loop_sound (suc fuel) at p s h e =
      ground (arith, next-lt at sized h, find_loop_sound fuel (next at n) p s)

  -- On live buckets that name objects, an empty bucket within the fuel ends the search.
  pub find_loop_ends :
      (fuel at e : ℕ)
      → ((p : ℕ) → bucket_live (bucket m p) ≡ true → Names os (bucket m p))
      → at < n
      → e < n
      → bucket_empty (bucket m e) ≡ true
      → distance n at e < fuel
      → find_loop fuel os m n fp oc at ≢ broken
  unfolding find_loop
  find_loop_ends zero at e names h he empty d = absurd (omega arith)
  find_loop_ends (suc fuel) at e names h he empty d = elim (Bool-cases (at == e)) [
    | inl same ↦ ground (arith, ap (λ i. (bucket m i).slot_code) ((==_iff at e).0 same))
    | inr other ↦
        let step = distance-next at e sized h he (ground arith) in
        let rec =
          find_loop_ends fuel (next at n) e names (next-lt at sized h) he empty (omega arith) in
        let named = names at in ground (arith, rec)
  ]

  -- Where the search is missing, an insertion takes the first tombstone on the way.
  insert_first :
      (fuel at p : ℕ)
      → find_loop fuel os m n fp oc at ≡ missing
      → insert_loop fuel os m n fp oc at (some p) ≡ ok p
  unfolding find_loop insert_loop
  insert_first zero at p e = cc
  insert_first (suc fuel) at p e = ground (arith, insert_first fuel (next at n) p)

  -- A new bucket for the address.
  module _ (v : Bucket) (live : bucket_live v ≡ true) (marked : v.fingerprint ≡ fp)
      (named : slot_of v < os.nobjects) (owner : (object_at os (slot_of v)).oc ≡ oc) where
    stop_here :
        (fuel at : ℕ)
        → at < length m
        → find_loop (suc fuel) os (set m at v) n fp oc at ≡ found at (slot_of v)
    unfolding find_loop
    stop_here fuel at h = rw (get_or-set_self m at v no_bucket h) (ground arith)

    go_on :
        (fuel at q : ℕ)
        → q ≢ at
        → bucket_empty (bucket m at) ≡ false
        → find_loop (suc fuel) os m n fp oc at ≡ missing
        → find_loop (suc fuel) os (set m q v) n fp oc at
          ≡ find_loop fuel os (set m q v) n fp oc (next at n)
    unfolding find_loop
    go_on fuel at q ne full e = rw (get_or-set_ne m q at v no_bucket ne) (ground arith)

    -- The bucket that an insertion takes is dead, and once it holds the address it is found there.
    pub insert_loop-found :
        (fuel at : ℕ)
        → length m ≡ n
        → at < n
        → find_loop fuel os m n fp oc at ≡ missing
        → (q : ℕ) × (insert_loop fuel os m n fp oc at none ≡ ok q)
          × (q < n)
          × (bucket_live (bucket m q) ≡ false)
          × (find_loop fuel os (set m q v) n fp oc at ≡ found q (slot_of v))
    unfolding insert_loop find_loop
    insert_loop-found zero at len h e = cc
    insert_loop-found (suc fuel) at len h e =
        let stop = stop_here fuel at (rw len h) in
        elim (Bool-cases (bucket_empty (bucket m at))) [
          | inl empty ↦ (at, ground arith, h, ground arith, stop)
          | inr full ↦
              let rest : find_loop fuel os m n fp oc (next at n) ≡ missing = ground arith in
              elim (Bool-cases (bucket_tombstone (bucket m at))) [
                | inl tomb ↦
                    let first = insert_first fuel (next at n) at rest in
                    (at, ground (arith, first), h, ground arith, stop)
                | inr living ↦
                    let (q, eq, hq, dead, seen) =
                      insert_loop-found fuel (next at n) len (next-lt at sized h) rest in
                    let ne : q ≢ at = λ qe. ground (arith, ap (λ i. (bucket m i).slot_code) qe) in
                    (q, ground (arith, eq), hq, dead, go_on fuel at q ne full e ∙ seen)
              ]
        ]

module _ (os : Objects) (m : List Bucket) (n : ℕ) (sized : IsSized n) (fp oc : ℕ) where
  -- A bucket for another address in a dead place keeps what was found.
  pub find_loop-set :
      (q : ℕ) (v : Bucket) (fuel at p s : ℕ)
      → q < length m
      → bucket_live (bucket m q) ≡ false
      → bucket_live v ≡ true
      → Names os v
      → (object_at os (slot_of v)).oc ≢ oc
      → find_loop fuel os m n fp oc at ≡ found p s
      → find_loop fuel os (set m q v) n fp oc at ≡ found p s
  unfolding find_loop
  find_loop-set q v zero at p s hq dead live named other e = cc
  find_loop-set q v (suc fuel) at p s hq dead live named other e =
      let rec = find_loop-set q v fuel (next at n) p s hq dead live named other in
      elim (Bool-cases (q == at)) [
        | inl same ↦
            let qe = (==_iff q at).0 same in
            let self : bucket (set m q v) at ≡ v =
              ap (λ i. bucket (set m q v) i) (sym qe) ∙ get_or-set_self m q v no_bucket hq in
            rw self (ground (arith, rec, ap (λ i. (bucket m i).slot_code) qe))
        | inr off ↦ rw (get_or-set_ne m q at v no_bucket (ground arith)) (ground (arith, rec))
      ]

  -- A tombstone in the place of another address keeps every search.
  pub find_loop-tombstone :
      (q fuel at : ℕ)
      → q < length m
      → bucket_live (bucket m q) ≡ true
      → Names os (bucket m q)
      → (object_at os (slot_of (bucket m q))).oc ≢ oc
      → find_loop fuel os (set m q tombstone) n fp oc at ≡ find_loop fuel os m n fp oc at
  unfolding find_loop
  find_loop-tombstone q zero at hq live named other = refl
  find_loop-tombstone q (suc fuel) at hq live named other =
      let rec = find_loop-tombstone q fuel (next at n) hq live named other in
      elim (Bool-cases (q == at)) [
        | inl same ↦
            let qe = (==_iff q at).0 same in
            let self : bucket (set m q tombstone) at ≡ tombstone =
              ap (λ i. bucket (set m q tombstone) i) (sym qe)
              ∙ get_or-set_self m q tombstone no_bucket hq in
            let here : bucket m at ≡ bucket m q = ap (λ i. bucket m i) (sym qe) in
            rw (self, here) (ground (arith, rec))
        | inr off ↦ rw (get_or-set_ne m q at tombstone no_bucket (ground arith), rec) refl
      ]

-- Searches and insertions read the objects only through the live buckets.
module _ (os os' : Objects) (m : List Bucket) (n fp oc : ℕ)
    (same : (p : ℕ)
      → bucket_live (bucket m p) ≡ true
      → (slot_of (bucket m p) < os.nobjects)
        × (slot_of (bucket m p) < os'.nobjects)
        × ((object_at os (slot_of (bucket m p))).oc
            ≡ (object_at os' (slot_of (bucket m p))).oc)) where
  pub find_loop-objects :
      (fuel at : ℕ) → find_loop fuel os m n fp oc at ≡ find_loop fuel os' m n fp oc at
  unfolding find_loop
  find_loop-objects zero at = refl
  find_loop-objects (suc fuel) at = ground (arith, same at, find_loop-objects fuel (next at n))

  pub insert_loop-objects :
      (fuel at : ℕ) (first : Option ℕ)
      → insert_loop fuel os m n fp oc at first ≡ insert_loop fuel os' m n fp oc at first
  unfolding insert_loop
  insert_loop-objects zero at first = refl
  insert_loop-objects (suc fuel) at first =
      ground
        (arith, same at, insert_loop-objects fuel (next at n) (note_first (bucket m at) at first))
