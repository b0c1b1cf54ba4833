-- ===== src/PurgeMap/Table/Loops.antt =====
-- Where the probe loops end, and what a write to a dead slot does to them.
use libvmod_cachetag.Base.{ℕ, zero, suc, ◌<◌, ◌≡◌, ◌≢◌, ap, ◌∙◌, refl}
use libvmod_cachetag.Base.{true, false, arith}
use libvmod_cachetag.Base.{◌==◌, if◌then◌else◌, ==_iff, Bool-cases, inl, inr}
use libvmod_cachetag.Base.{length, set}
use libvmod_cachetag.Base.{get_or-set_self, get_or-set_ne}
use libvmod_cachetag.PurgeMap.Table.{Entry, Table, zeroed, slot, next, empty_fold}
use libvmod_cachetag.PurgeMap.Table.{at, endless, find_loop, is_live}
use libvmod_cachetag.PurgeMap.Table.Walk.{IsSized, next-lt, distance, distance-next}

pub slot-set :
    (t : Table) (q p : ℕ) (v : Entry)
    → q < length t
    → slot (set t q v) p ≡ (if q == p then v else slot t p)
slot-set t q p v h = elim (Bool-cases (q == p)) [
  | inl same ↦ rw (same, ← (==_iff q p).0 same) (get_or-set_self t q v zeroed h)
  | inr other ↦ rw other (get_or-set_ne t q p v zeroed (ground arith))
]

pub fold-set :
    (t : Table) (q p : ℕ) (v : Entry)
    → q < length t
    → v.fold ≡ (slot t q).fold
    → (slot (set t q v) p).fold ≡ (slot t p).fold
fold-set t q p v h same = elim (Bool-cases (q == p)) [
  | inl here ↦
      let e = (==_iff q p).0 here in
      rw (slot-set t q p v h, here) (same ∙ ap (λ i. (slot t i).fold) e)
  | inr other ↦ rw (slot-set t q p v h, other)
]

module _ (t : Table) (n : ℕ) (sized : IsSized n) (g : ℕ) where
  -- A slot that is found holds the fold, which is live.
  pub find_loop_sound :
      (fuel pos p : ℕ)
      → pos < n
      → find_loop fuel t n g pos ≡ at p
      → (p < n) × ((slot t p).fold ≡ g) × (is_live g ≡ true)
  unfolding find_loop
  find_loop_sound zero pos p h e = cc
  find_loop_sound (suc fuel) pos p h e =
      ground (arith, next-lt pos sized h, find_loop_sound fuel (next pos n) p)

  -- An empty slot within the fuel ends the loop.
  pub find_loop_ends :
      (fuel pos e : ℕ)
      → pos < n
      → e < n
      → (slot t e).fold ≡ empty_fold
      → distance n pos e < fuel
      → find_loop fuel t n g pos ≢ endless
  unfolding find_loop
  find_loop_ends zero pos e h he empty d = absurd (omega arith)
  find_loop_ends (suc fuel) pos e h he empty d = elim (Bool-cases (pos == e)) [
    | inl same ↦ ground (arith, ap (λ i. (slot t i).fold) ((==_iff pos e).0 same))
    | inr other ↦
        let step = distance-next pos e sized h he (ground arith) in
        let rec = find_loop_ends fuel (next pos n) e (next-lt pos sized h) he empty (omega arith) in
        ground (arith, rec)
  ]

  -- Writing another fold to a dead slot keeps what was found.
  pub find_loop-set :
      (q : ℕ) (v : Entry) (fuel pos p : ℕ)
      → q < length t
      → is_live (slot t q).fold ≡ false
      → is_live v.fold ≡ true
      → v.fold ≢ g
      → pos < n
      → find_loop fuel t n g pos ≡ at p
      → find_loop fuel (set t q v) n g pos ≡ at p
  unfolding find_loop
  find_loop-set q v zero pos p hq dead live ne h e = cc
  find_loop-set q v (suc fuel) pos p hq dead live ne h e =
      let rec = find_loop-set q v fuel (next pos n) p hq dead live ne (next-lt pos sized h) in
      rw (slot-set t q pos v hq) (elim (Bool-cases (q == pos)) [
        | inl same ↦ ground (arith, rec, ap (λ i. (slot t i).fold) ((==_iff q pos).0 same))
        | inr other ↦ ground (arith, rec)
      ])

  -- Changing the sequences of an entry changes no probe.
  pub find_loop-set_same :
      (q : ℕ) (v : Entry) (fuel pos : ℕ)
      → q < length t
      → v.fold ≡ (slot t q).fold
      → find_loop fuel (set t q v) n g pos ≡ find_loop fuel t n g pos
  unfolding find_loop
  find_loop-set_same q v zero pos hq same = refl
  find_loop-set_same q v (suc fuel) pos hq same =
      rw (find_loop-set_same q v fuel (next pos n) hq same, fold-set t q pos v hq same)
