-- ===== src/PurgeMap/Prune/Verdicts.antt =====
-- What the readers see after a prune (src/vmod_cachetag_purgemap.c).
use libvmod_cachetag.Base.{ℕ, ◌≤◌, ◌≡◌, ap, ◌∙◌, refl, sym}
use libvmod_cachetag.Base.{Bool, true, false, ◌||◌, some, List, [], ◌∷◌, arith}
use libvmod_cachetag.Base.{ltb, Bool-cases, ◌⊎◌, inl, inr}
use libvmod_cachetag.Base.{any, ok, ◌+◌, ◌*◌, ◌%◌, ◌/◌, ◌^◌, ◌<◌}
use libvmod_cachetag.PurgeMap.Map.{PurgeMap}
use libvmod_cachetag.PurgeMap.Probe.{
  ProbeResult, probe_none, probe_soft, probe_hard, probe_reader_guarded,
}
use libvmod_cachetag.PurgeMap.Well.{IsWell, hard_part, soft_part, hard_of, soft_of}
use libvmod_cachetag.PurgeMap.Verdict.{hard_after, soft_after, probe-staleness}
use libvmod_cachetag.PurgeMap.Prune.{prune}
use libvmod_cachetag.PurgeMap.Prune.Floors.{Raised}
use libvmod_cachetag.PurgeMap.Prune.Rebuilt.{Prunes, older}
use libvmod_cachetag.PurgeMap.Prune.Keeps.{PruneAnswer, prune-Prunes}
use mathlib.Core.Path.{subst}

-- How strict a verdict is.
abbrev pub strictness : ProbeResult → ℕ
strictness probe_none = 0
strictness probe_soft = 1
strictness probe_hard = 2

-- A sequence that is kept, or is covered by the floor.
abbrev Covered : ℕ → ℕ → ℕ → Type 0
Covered floor old new = (old ≤ new) ⊎ (old ≤ floor)

module _ (p q : ℕ → ℕ) (reg_seq floor floor' : ℕ) (grows : floor ≤ floor')
    (covered : (g : ℕ) → Covered floor' (p g) (q g)) where
  covered_any :
      (folds : List ℕ)
      → (any (λ g. ltb reg_seq (p g)) folds || ltb reg_seq floor) ≡ true
      → (any (λ g. ltb reg_seq (q g)) folds || ltb reg_seq floor') ≡ true
  covered_any [] h = ground arith
  covered_any (g ∷ folds) h =
      elim (Bool-cases (any (λ x. ltb reg_seq (p x)) folds || ltb reg_seq floor)) [
        | inl rest ↦ let tail = covered_any folds rest in ground arith
        | inr off ↦ elim (covered g) [ inl kept ↦ ground arith | inr gone ↦ ground arith ]
      ]

-- A sequence that is as before, or is lost and no later than the cutoff.
abbrev pub Settled : ℕ → ℕ → ℕ → Type 0
Settled cutoff old new = (new ≡ old) ⊎ ((new ≡ 0) × (old ≤ cutoff))

pub Settled-ltb :
    (cutoff reg_seq old new : ℕ)
    → cutoff ≤ reg_seq
    → Settled cutoff old new
    → ltb reg_seq new ≡ ltb reg_seq old
Settled-ltb cutoff reg_seq old new h (inl same) = ap (λ k. ltb reg_seq k) same
Settled-ltb cutoff reg_seq old new h (inr lost) =
    let off : ltb reg_seq old ≡ false = let b = lost.1 in ground arith in
    rw (lost.0, off) (ground arith)

pub Settled-any :
    (p q : ℕ → ℕ) (cutoff reg_seq : ℕ) (folds : List ℕ)
    → cutoff ≤ reg_seq
    → ((g : ℕ) → Settled cutoff (p g) (q g))
    → any (λ g. ltb reg_seq (q g)) folds ≡ any (λ g. ltb reg_seq (p g)) folds
Settled-any p q cutoff reg_seq [] h settled = refl
Settled-any p q cutoff reg_seq (g ∷ folds) h settled = λ i.
    Settled-ltb cutoff reg_seq (p g) (q g) h (settled g) i
    || Settled-any p q cutoff reg_seq folds h settled i

settled_floor :
    (old new cutoff reg_seq : ℕ)
    → Raised old new cutoff
    → cutoff ≤ reg_seq
    → ltb reg_seq new ≡ ltb reg_seq old
settled_floor old new cutoff reg_seq raised h =
    let g = raised.grows in elim raised.bound [ inl b ↦ ground arith | inr b ↦ ground arith ]

module _ (pm pm' : PurgeMap) (limit cutoff : ℕ) (well : IsWell pm)
    (prunes : Prunes pm limit cutoff pm') where
  hard-Covered : (g : ℕ) → Covered pm'.hard_floor (hard_of pm g) (hard_of pm' g)
  hard-Covered g = elim (prunes.fates g) [
    | inl same ↦ inl (rw same (omega arith))
    | inr gone ↦ inr gone.1
  ]

  soft-Covered : (g : ℕ) → Covered pm'.soft_floor (soft_of pm g) (soft_of pm' g)
  soft-Covered g = elim (prunes.fates g) [
    | inl same ↦ inl (rw same (omega arith))
    | inr gone ↦ inr gone.2
  ]

  hard-Settled : (g : ℕ) → Settled cutoff (hard_of pm g) (hard_of pm' g)
  hard-Settled g = elim (prunes.fates g) [
    | inl same ↦ inl (ap hard_part same)
    | inr gone ↦ inr (ap hard_part gone.0, gone.3)
  ]

  soft-Settled : (g : ℕ) → Settled cutoff (soft_of pm g) (soft_of pm' g)
  soft-Settled g = elim (prunes.fates g) [
    | inl same ↦ inl (ap soft_part same)
    | inr gone ↦ inr (ap soft_part gone.0, gone.4)
  ]

  -- No verdict becomes milder.
  pub Prunes-stricter :
      (reg_seq : ℕ) (folds : List ℕ)
      → strictness (probe_reader_guarded pm reg_seq folds)
        ≤ strictness (probe_reader_guarded pm' reg_seq folds)
  Prunes-stricter reg_seq folds =
      let hard =
        covered_any (hard_of pm) (hard_of pm') reg_seq pm.hard_floor pm'.hard_floor
          prunes.hard.grows hard-Covered folds in
      let soft =
        covered_any (soft_of pm) (soft_of pm') reg_seq pm.soft_floor pm'.soft_floor
          prunes.soft.grows soft-Covered folds in
      rw (probe-staleness pm reg_seq folds well, probe-staleness pm' reg_seq folds prunes.well)
        (elim (Bool-cases (hard_after pm reg_seq folds)) [
          | inl on ↦ rw (on, hard on) (omega arith)
          | inr off ↦ elim (Bool-cases (soft_after pm reg_seq folds)) [
            | inl on ↦ rw (off, on, soft on) (ground arith)
            | inr fresh ↦ rw (off, fresh) (ground arith)
          ]
        ])

  Prunes-same :
      (reg_seq : ℕ) (folds : List ℕ)
      → cutoff ≤ reg_seq
      → probe_reader_guarded pm' reg_seq folds ≡ probe_reader_guarded pm reg_seq folds
  Prunes-same reg_seq folds late =
      probe-staleness pm' reg_seq folds prunes.well
      ∙ rw
          (
            Settled-any (hard_of pm) (hard_of pm') cutoff reg_seq folds late hard-Settled,
            Settled-any (soft_of pm) (soft_of pm') cutoff reg_seq folds late soft-Settled,
            settled_floor pm.hard_floor pm'.hard_floor cutoff reg_seq prunes.hard late,
            settled_floor pm.soft_floor pm'.soft_floor cutoff reg_seq prunes.soft late,
          )
          (sym (probe-staleness pm reg_seq folds well))

some_injective {ℓ} : {A : Type ℓ} (a b : A) → some a ≡ some b → a ≡ b
some_injective a b e = cc

-- When a prune of a well-formed map succeeds, the map that it leaves answers every probe at least as
-- strictly as the map before, and there is a cutoff such that every object registered at the cutoff or
-- later gets the same verdict as before. The cutoff is 0, or spares much of the history: the folds
-- last purged before the cutoff, and three quarters of the limit (its 64-bit product by 75, over 100),
-- are together fewer than the entries of the map.
pub prune-verdicts :
    (pm pm' : PurgeMap) (limit pruned : ℕ) (alloc : Bool)
    → IsWell pm
    → prune pm limit alloc ≡ some (ok (pm', pruned))
    → ((reg_seq : ℕ) (folds : List ℕ)
        → strictness (probe_reader_guarded pm reg_seq folds)
          ≤ strictness (probe_reader_guarded pm' reg_seq folds))
      × ((cutoff : ℕ) × ((cutoff ≡ 0)
            ⊎ (older pm.table cutoff + limit * 75 % 2 ^ 64 / 100 < pm.nentry))
          × ((reg_seq : ℕ) (folds : List ℕ)
              → cutoff ≤ reg_seq
              → probe_reader_guarded pm' reg_seq folds ≡ probe_reader_guarded pm reg_seq folds))
prune-verdicts pm pm' limit pruned alloc well e =
    let (r, e', answer) = prune-Prunes pm limit alloc well in
    let (cutoff, prunes) : PruneAnswer pm limit alloc (ok (pm', pruned)) =
      subst (PruneAnswer pm limit alloc) (some_injective r (ok (pm', pruned)) (sym e' ∙ e))
        answer in
    (
      Prunes-stricter pm pm' limit cutoff well prunes,
      (cutoff, prunes.sparing, Prunes-same pm pm' limit cutoff well prunes),
    )
