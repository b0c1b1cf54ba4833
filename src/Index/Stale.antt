-- ===== src/Index/Stale.antt =====
-- What the readers see after a purge (src/vmod_cachetag_purgemap.c).
use libvmod_cachetag.Base.{ℕ, ◌+◌, ◌≤◌, ◌<◌, ◌≡◌, ap, ◌∙◌, refl, sym}
use libvmod_cachetag.Base.{true, false, ◌||◌, some, List, [], ◌∷◌, arith}
use libvmod_cachetag.Base.{ltb, ◌==◌, ==_iff, Bool-cases, inl, inr}
use libvmod_cachetag.Base.{any}
use libvmod_cachetag.PurgeMap.Map.{PurgeMap, Mode, hard}
use libvmod_cachetag.PurgeMap.Probe.{probe_none, probe_hard, probe_reader_guarded}
use libvmod_cachetag.PurgeMap.Well.{IsWell, history, hard_part, soft_part, hard_of, soft_of}
use libvmod_cachetag.PurgeMap.Verdict.{probe-staleness}
use libvmod_cachetag.Index.Purge.{Journal, Memory, Index, accepted, purge}
use libvmod_cachetag.Index.Accept.{purge-Answers}
use libvmod_cachetag.Persist.{PurgeKey}
use libvmod_cachetag.PurgeMap.Probe.{fold_digest}
use libvmod_cachetag.Base.{ok}
use mathlib.Core.Path.{subst}
use libvmod_cachetag.Index.Answer.{Answers}

none_after :
    (p : ℕ → ℕ) (reg_seq : ℕ) (folds : List ℕ)
    → ((g : ℕ) → p g ≤ reg_seq)
    → any (λ g. ltb reg_seq (p g)) folds ≡ false
none_after p reg_seq [] h = refl
none_after p reg_seq (g ∷ folds) h =
    let past = h g in
    let off : ltb reg_seq (p g) ≡ false = ground arith in rw (off, none_after p reg_seq folds h)

some_after :
    (p : ℕ → ℕ) (reg_seq fold : ℕ) (folds : List ℕ)
    → reg_seq < p fold
    → any (λ g. g == fold) folds ≡ true
    → any (λ g. ltb reg_seq (p g)) folds ≡ true
some_after p reg_seq fold [] past h = cc
some_after p reg_seq fold (g ∷ folds) past h = elim (Bool-cases (g == fold)) [
  | inl this ↦
      let eq = (==_iff g fold).0 this in
      let on : ltb reg_seq (p g) ≡ true = rw eq (ground arith) in rw on
  | inr other ↦
      let rest = some_after p reg_seq fold folds past (rw other at h) in ground (arith, rest)
]

-- On a well-formed map, an object that is registered at the map's sequence, or later, is fresh
-- whatever its folds.
pub probe-registered_now :
    (pm : PurgeMap) (reg_seq : ℕ) (folds : List ℕ)
    → IsWell pm
    → pm.seq ≤ reg_seq
    → probe_reader_guarded pm reg_seq folds ≡ probe_none
probe-registered_now pm reg_seq folds well now =
    probe-staleness pm reg_seq folds well
    ∙ (let h = none_after (hard_of pm) reg_seq folds λ g. let b = well.hard_past g in omega arith in
        let s =
          none_after (soft_of pm) reg_seq folds λ g. let b = well.soft_past g in omega arith in
        let hf = well.hard_floor_past in let sf = well.soft_floor_past in rw (h, s) (ground arith))

pub hard_effect :
    {J : Type 0} (pm : PurgeMap) (fold : ℕ) (idx : Index J)
    (a : Answers J pm fold hard idx accepted) (reg_seq : ℕ) (folds : List ℕ)
    → IsWell pm
    → reg_seq ≤ pm.seq
    → any (λ g. g == fold) folds ≡ true
    → probe_reader_guarded a.pm' reg_seq folds ≡ probe_hard
hard_effect pm fold idx a reg_seq folds well before has =
    let views = a.effect.0 in
    let self : (fold == fold) ≡ true = ground arith in
    let old = well.hard_past fold in
    let at_fold : hard_of a.pm' fold ≡ pm.seq + 1 = rw (views fold, self) (ground arith) in
    let past = some_after (hard_of a.pm') reg_seq fold folds (rw at_fold (omega arith)) has in
    probe-staleness a.pm' reg_seq folds a.well ∙ rw past

same_any :
    (p q : ℕ → ℕ) (reg_seq fold : ℕ) (folds : List ℕ)
    → ((g : ℕ) → (g == fold) ≡ false → p g ≡ q g)
    → any (λ g. g == fold) folds ≡ false
    → any (λ g. ltb reg_seq (p g)) folds ≡ any (λ g. ltb reg_seq (q g)) folds
same_any p q reg_seq fold [] h away = refl
same_any p q reg_seq fold (g ∷ folds) h away =
    let one : (g == fold) ≡ false = ground arith in
    let rest : any (λ x. x == fold) folds ≡ false = ground arith in
    λ i. ltb reg_seq (h g one i) || same_any p q reg_seq fold folds h rest i

no_effect :
    {J : Type 0} (pm : PurgeMap) (fold : ℕ) (mode : Mode) (idx : Index J)
    (a : Answers J pm fold mode idx accepted) (reg_seq : ℕ) (folds : List ℕ)
    → IsWell pm
    → any (λ g. g == fold) folds ≡ false
    → probe_reader_guarded a.pm' reg_seq folds ≡ probe_reader_guarded pm reg_seq folds
no_effect pm fold mode idx a reg_seq folds well away =
    let (views, s, memo, hf, sf) = a.effect in
    let other : (g : ℕ) → (g == fold) ≡ false → history a.pm'.table g ≡ history pm.table g =
      λ g e. rw e at (views g) in
    let h =
      same_any (hard_of a.pm') (hard_of pm) reg_seq fold folds (λ g e. ap hard_part (other g e))
        away in
    let k =
      same_any (soft_of a.pm') (soft_of pm) reg_seq fold folds (λ g e. ap soft_part (other g e))
        away in
    probe-staleness a.pm' reg_seq folds a.well
    ∙ rw (h, k, hf, sf) (sym (probe-staleness pm reg_seq folds well))

pub some_injective {ℓ} : {A : Type ℓ} (a b : A) → some a ≡ some b → a ≡ b
some_injective a b e = cc

-- The answer of a purge that is known to be accepted.
accepted_answer :
    {J : Type 0} (wal : Journal J) (idx : Index J) (mem : Memory) (pm : PurgeMap) (key : PurgeKey)
    (mode : Mode) (idx' : Index J)
    → IsWell pm
    → idx.purgemap ≡ some pm
    → idx.history_max ≡ 0
    → purge wal idx mem (ok key) mode ≡ some (idx', accepted)
    → Answers J pm (fold_digest key.digest_hi key.digest_lo) mode idx' accepted
accepted_answer {J = J} wal idx mem pm key mode idx' well table unlimited e =
    let (out, e', a) = purge-Answers wal idx mem pm key mode well table unlimited in
    let same : out ≡ (idx', accepted) = some_injective out (idx', accepted) (sym e' ∙ e) in
    subst (λ o. Answers J pm (fold_digest key.digest_hi key.digest_lo) mode o.0 o.1) same a

-- When a purge on a well-formed map with an unlimited history is accepted, the verdict on an object
-- that does not have the purged fold is what it was before.
pub probe-not_purged :
    {J : Type 0} (wal : Journal J) (idx : Index J) (mem : Memory) (pm : PurgeMap) (key : PurgeKey)
    (mode : Mode) (idx' : Index J) (reg_seq : ℕ) (folds : List ℕ)
    → IsWell pm
    → idx.purgemap ≡ some pm
    → idx.history_max ≡ 0
    → purge wal idx mem (ok key) mode ≡ some (idx', accepted)
    → any (λ g. g == fold_digest key.digest_hi key.digest_lo) folds ≡ false
    → (pm' : PurgeMap) × (idx'.purgemap ≡ some pm')
      × (probe_reader_guarded pm' reg_seq folds ≡ probe_reader_guarded pm reg_seq folds)
probe-not_purged wal idx mem pm key mode idx' reg_seq folds well table unlimited e away =
    let a = accepted_answer wal idx mem pm key mode idx' well table unlimited e in
    (
      a.pm',
      a.purgemap,
      no_effect pm (fold_digest key.digest_hi key.digest_lo) mode idx' a reg_seq folds well away,
    )
