-- ===== src/PurgeMap/Verdict.antt =====
-- What a probe answers, in terms of the history and the floors (src/vmod_cachetag_purgemap.c).
use libvmod_cachetag.Base.{ℕ, zero, suc, ◌<◌, ◌≡◌, ap, refl}
use libvmod_cachetag.Base.{Bool, true, false, ◌||◌, Option, none, some, List, [], ◌∷◌, arith}
use libvmod_cachetag.Base.{ltb, if◌then◌else◌, Bool-cases, inl, inr}
use libvmod_cachetag.Base.{length}
use libvmod_cachetag.Base.{any}
use libvmod_cachetag.PurgeMap.Table.{Table, slot, is_live, find}
use libvmod_cachetag.PurgeMap.Table.View.{view, count, find_sound, view-absent, to_ℕ}
use libvmod_cachetag.PurgeMap.Map.{PurgeMap}
use libvmod_cachetag.PurgeMap.Probe.{
  ProbeResult, probe_none, probe_soft, probe_hard, verdict, probe_one, probe_folds, has_history,
  probe_reader_guarded,
}
use libvmod_cachetag.PurgeMap.Well.{
  HasTable, history, hard_part, soft_part, hard_of, soft_of, IsWell,
}

-- The specification: an object registered at `reg_seq` under `folds` is hard stale if a hard purge
-- of one of the folds, or a hard floor, came after its registration; soft stale likewise.
abbrev pub hard_after : PurgeMap → ℕ → List ℕ → Bool
hard_after pm reg_seq folds =
    any (λ g. ltb reg_seq (hard_of pm g)) folds || ltb reg_seq pm.hard_floor

abbrev pub soft_after : PurgeMap → ℕ → List ℕ → Bool
soft_after pm reg_seq folds =
    any (λ g. ltb reg_seq (soft_of pm g)) folds || ltb reg_seq pm.soft_floor

abbrev pub staleness : PurgeMap → ℕ → List ℕ → ProbeResult
staleness pm reg_seq folds =
    if hard_after pm reg_seq folds
    then probe_hard
    else if soft_after pm reg_seq folds
    then probe_soft
    else probe_none

probe_one-view :
    (o : Option Table) (reg_seq g : ℕ)
    → probe_one o reg_seq g ≡ verdict reg_seq (hard_part (history o g), soft_part (history o g))
unfolding probe_one view
probe_one-view none reg_seq g = ground arith
probe_one-view (some t) reg_seq g = ground arith

probe_folds-staleness :
    (pm : PurgeMap) (reg_seq : ℕ) (folds : List ℕ) (soft_seen : Bool)
    → probe_folds pm reg_seq folds soft_seen ≡ (
        if hard_after pm reg_seq folds
        then probe_hard
        else if soft_seen || soft_after pm reg_seq folds
        then probe_soft
        else probe_none)
unfolding probe_folds
probe_folds-staleness pm reg_seq [] soft_seen = ground arith
probe_folds-staleness pm reg_seq (g ∷ folds) soft_seen = ground (
  arith,
  probe_one-view pm.table reg_seq g,
  probe_folds-staleness pm reg_seq folds soft_seen,
  probe_folds-staleness pm reg_seq folds true,
)

-- A live slot is counted.
count_pos :
    (t : Table) (p : ℕ) → p < length t → is_live (slot t p).fold ≡ true → 0 < count is_live t
unfolding count
count_pos [] p h live = absurd (omega arith)
count_pos (e ∷ t) zero h live = omega (arith, ap to_ℕ live)
count_pos (e ∷ t) (suc p) h live = omega (arith, count_pos t p (omega arith) live)

no_history : (o : Option Table) (g : ℕ) → HasTable 0 o → history o g ≡ none
unfolding view
no_history none g h = refl
no_history (some t) g h = view-absent t (find t g) λ p e.
    let (lt, eq, live) = find_sound t g p h.probed.sized e in
    let counted = count_pos t p lt (rw eq live) in omega (arith, h.live)

quiet_folds :
    (pm : PurgeMap) (reg_seq : ℕ) (folds : List ℕ)
    → HasTable 0 pm.table
    → (any (λ g. ltb reg_seq (hard_of pm g)) folds ≡ false)
      × (any (λ g. ltb reg_seq (soft_of pm g)) folds ≡ false)
quiet_folds pm reg_seq [] h = (refl, refl)
quiet_folds pm reg_seq (g ∷ folds) h =
    let (a, b) = quiet_folds pm reg_seq folds h in
    rw (no_history pm.table g h, a, b) (ground arith, ground arith)

zero_entries : (pm : PurgeMap) → has_history pm ≡ false → pm.nentry ≡ 0
zero_entries pm h = ground arith

-- On a well-formed map, `probe_reader_guarded` with its early exits answers as the specification:
-- hard if a hard purge of one of the folds, or the hard floor, is after the registration, else soft if
-- a soft purge of one of them, or the soft floor, is.
pub probe-staleness :
    (pm : PurgeMap) (reg_seq : ℕ) (folds : List ℕ)
    → IsWell pm
    → probe_reader_guarded pm reg_seq folds ≡ staleness pm reg_seq folds
unfolding probe_reader_guarded
probe-staleness pm reg_seq folds well = elim (Bool-cases (has_history pm)) [
  | inl some_history ↦ rw some_history (probe_folds-staleness pm reg_seq folds false)
  | inr nothing ↦
      let (a, b) = quiet_folds pm reg_seq folds (rw (zero_entries pm nothing) at well.tabled) in
      rw (nothing, a, b) (ground arith)
]
