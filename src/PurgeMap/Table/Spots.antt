-- ===== src/PurgeMap/Table/Spots.antt =====
-- The slots that the inserting loops choose, and the probe that finds them afterwards.
use libvmod_cachetag.Base.{ℕ, zero, suc, ◌<◌, ◌≡◌, ◌≢◌, ap, ◌∙◌, refl}
use libvmod_cachetag.Base.{Bool, true, false, Option, none, some, arith}
use libvmod_cachetag.Base.{◌==◌, if◌then◌else◌, ==_iff, Bool-cases, inl, inr}
use libvmod_cachetag.Base.{length, set}
use libvmod_cachetag.Base.{get_or-set_self, get_or-set_ne}
use libvmod_cachetag.PurgeMap.Table.{Entry, Table, zeroed, slot, next, empty_fold, tombstone_fold}
use libvmod_cachetag.PurgeMap.Table.{at, absent, endless, find_loop, is_live}
use libvmod_cachetag.PurgeMap.Table.{hit, vacant, lost, upsert_loop, empty_loop, note_tombstone}
use libvmod_cachetag.PurgeMap.Table.Walk.{IsSized, next-lt}

module _ (t : Table) (n : ℕ) (g : ℕ) (live : is_live g ≡ true) where
  apart : (a q pos : ℕ) → (slot t q).fold ≡ a → ((slot t pos).fold == a) ≡ false → q ≢ pos
  apart a q pos h other e = ground (arith, ap (λ i. (slot t i).fold) e)

  -- One round of the probe, after a write of the fold at its slot or further on.
  stop_here :
      (v : Entry) (fuel pos : ℕ)
      → pos < length t
      → v.fold ≡ g
      → find_loop (suc fuel) (set t pos v) n g pos ≡ at pos
  unfolding find_loop
  stop_here v fuel pos h same = rw (get_or-set_self t pos v zeroed h, same) (ground arith)

  go_on :
      (v : Entry) (fuel pos q : ℕ)
      → q ≢ pos
      → (slot t pos).fold ≢ empty_fold
      → (slot t pos).fold ≢ g
      → find_loop (suc fuel) (set t q v) n g pos ≡ find_loop fuel (set t q v) n g (next pos n)
  unfolding find_loop
  go_on v fuel pos q ne full other = rw (get_or-set_ne t q pos v zeroed ne) (ground arith)

  pub upsert_hit :
      (fuel pos : ℕ) (first : Option ℕ) (p : ℕ)
      → upsert_loop fuel t n g pos first ≡ hit p
      → find_loop fuel t n g pos ≡ at p
  unfolding upsert_loop find_loop
  upsert_hit zero pos first p e = cc
  upsert_hit (suc fuel) pos first p e =
      ground (arith, upsert_hit fuel (next pos n) (note_tombstone (slot t pos).fold pos first) p)

  pub upsert_lost :
      (fuel pos : ℕ) (first : Option ℕ)
      → upsert_loop fuel t n g pos first ≡ lost
      → find_loop fuel t n g pos ≡ endless
  unfolding upsert_loop find_loop
  upsert_lost zero pos first e = refl
  upsert_lost (suc fuel) pos first e =
      ground (arith, upsert_lost fuel (next pos n) (note_tombstone (slot t pos).fold pos first))

  pub upsert_vacant :
      (fuel pos : ℕ) (first : Option ℕ) (q : ℕ) (reused : Bool)
      → upsert_loop fuel t n g pos first ≡ vacant q reused
      → find_loop fuel t n g pos ≡ absent
  unfolding upsert_loop find_loop
  upsert_vacant zero pos first q reused e = cc
  upsert_vacant (suc fuel) pos first q reused e =
      ground (
        arith,
        upsert_vacant fuel (next pos n) (note_tombstone (slot t pos).fold pos first) q reused,
      )

  upsert_first :
      (fuel pos p q : ℕ) (reused : Bool)
      → upsert_loop fuel t n g pos (some p) ≡ vacant q reused
      → (q ≡ p) × (reused ≡ true)
  unfolding upsert_loop
  upsert_first zero pos p q reused e = cc
  upsert_first (suc fuel) pos p q reused e =
      ground (arith, upsert_first fuel (next pos n) p q reused)

  -- The chosen slot is dead, and once it holds the fold the probe finds it.
  pub upsert_vacant_found :
      (v : Entry) (fuel pos q : ℕ) (reused : Bool)
      → IsSized n
      → length t ≡ n
      → v.fold ≡ g
      → pos < n
      → upsert_loop fuel t n g pos none ≡ vacant q reused
      → (q < n)
        × ((slot t q).fold ≡ (if reused then tombstone_fold else empty_fold))
        × (find_loop fuel (set t q v) n g pos ≡ at q)
  unfolding upsert_loop
  upsert_vacant_found v zero pos q reused sized len same h e = cc
  upsert_vacant_found v (suc fuel) pos q reused sized len same h e =
      let seen : ℕ = (slot t pos).fold in
      let stop = stop_here v fuel pos (rw len h) same in
      elim (Bool-cases (seen == tombstone_fold)) [
        | inl tomb ↦
            let (qe, re) = upsert_first fuel (next pos n) pos q reused (ground arith) in
            rw (qe, re) (h, (==_iff _ _).0 tomb, stop)
        | inr full ↦ elim (Bool-cases (seen == empty_fold)) [
          | inl here ↦ ground (arith, stop)
          | inr more ↦
              let (hq, dead, found) =
                upsert_vacant_found v fuel (next pos n) q reused sized len same
                  (next-lt pos sized h) (ground arith) in
              (
                hq,
                dead,
                go_on v fuel pos q (λ qe. ground (arith, ap (λ i. (slot t i).fold) qe, dead))
                      (ground arith) (ground arith)
                    ∙ found,
              )
        ]
      ]

  -- Where the probe is absent, `table_insert_existing` has a slot.
  pub empty_loop_found :
      (v : Entry) (fuel pos : ℕ)
      → IsSized n
      → length t ≡ n
      → v.fold ≡ g
      → pos < n
      → find_loop fuel t n g pos ≡ absent
      → (q : ℕ) × (empty_loop fuel t n pos ≡ some q)
        × (q < n)
        × ((slot t q).fold ≡ empty_fold)
        × (find_loop fuel (set t q v) n g pos ≡ at q)
  unfolding empty_loop find_loop
  empty_loop_found v zero pos sized len same h e = cc
  empty_loop_found v (suc fuel) pos sized len same h e =
      elim (Bool-cases ((slot t pos).fold == empty_fold)) [
        | inl here ↦ (pos, rw here, h, (==_iff _ _).0 here, stop_here v fuel pos (rw len h) same)
        | inr more ↦
            let (q, eq, hq, dead, found) =
              empty_loop_found v fuel (next pos n) sized len same (next-lt pos sized h)
                (ground arith) in
            (
              q,
              rw more eq,
              hq,
              dead,
              go_on v fuel pos q (apart empty_fold q pos dead more) (ground arith) (ground arith)
                  ∙ found,
            )
      ]
