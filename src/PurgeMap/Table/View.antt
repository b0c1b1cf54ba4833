-- ===== src/PurgeMap/Table/View.antt =====
-- The history that a table stands for, and how a write to one slot changes it.
use libvmod_cachetag.Base.{ℕ, zero, suc, ◌+◌, ◌<◌, ◌≡◌, ◌≢◌, ap, ◌∙◌, refl, sym}
use libvmod_cachetag.Base.{Bool, true, false, Option, none, some, [], ◌∷◌, arith}
use libvmod_cachetag.Base.{◌==◌, if◌then◌else◌, ==_iff, Bool-cases, ◌⊎◌, inl, inr}
use libvmod_cachetag.Base.{length, set}
use libvmod_cachetag.Base.{length-set, get_or-set_self, get_or-set_ne}
use libvmod_cachetag.PurgeMap.Table.{Entry, Table, zeroed, slot, home, empty_fold, tombstone_fold}
use libvmod_cachetag.PurgeMap.Table.{Find, at, absent, endless, find, is_live}
use libvmod_cachetag.PurgeMap.Table.Walk.{IsSized, home-lt, distance-lt}
use mathlib.Core.Path.{subst}
use libvmod_cachetag.PurgeMap.Table.Loops.{
  fold-set, find_loop_sound, find_loop_ends, find_loop-set, find_loop-set_same,
}

-- The sequences under a fold, if the probe ends at its slot.
abbrev pub seqs : Entry → ℕ × ℕ
seqs e = (e.hard_seq, e.soft_seq)

abbrev pub found : Table → Find → Option (ℕ × ℕ)
found t (at p) = some (seqs (slot t p))
found t absent = none
found t endless = none

unfoldable pub view : Table → ℕ → Option (ℕ × ℕ)
view t fold = found t (find t fold)

-- Every live entry is where the probe for its fold ends.
pub record IsProbed (t : Table) : Type 0 where
  pub sized : IsSized (length t)
  pub reach :
      (p : ℕ) → p < length t → is_live (slot t p).fold ≡ true → find t (slot t p).fold ≡ at p

pub Find-cases : (f : Find) → ((p : ℕ) × (f ≡ at p)) ⊎ ((p : ℕ) → f ≢ at p)
Find-cases (at p) = inl (p, refl)
Find-cases absent = inr (λ p e. cc)
Find-cases endless = inr (λ p e. cc)

pub found_at : (t : Table) {f : Find} (p : ℕ) → f ≡ at p → found t f ≡ some (seqs (slot t p))
found_at t p e = rw e

pub view-absent : (t : Table) (f : Find) → ((p : ℕ) → f ≢ at p) → found t f ≡ none
view-absent t (at p) h = absurd (h p refl)
view-absent t absent h = refl
view-absent t endless h = refl

abbrev pub to_ℕ : Bool → ℕ
to_ℕ true = 1
to_ℕ false = 0

-- the slots whose fold passes a test
unfoldable pub count : (ℕ → Bool) → Table → ℕ
count p [] = 0
count p (e ∷ t) = to_ℕ (p e.fold) + count p t

abbrev pub is_empty : ℕ → Bool
is_empty fold = fold == empty_fold

abbrev pub is_tombstone : ℕ → Bool
is_tombstone fold = fold == tombstone_fold

pub count-set :
    (p : ℕ → Bool) (t : Table) (q : ℕ) (v : Entry)
    → q < length t
    → count p (set t q v) + to_ℕ (p (slot t q).fold) ≡ count p t + to_ℕ (p v.fold)
unfolding count
count-set p [] q v h = absurd (omega arith)
count-set p (e ∷ t) zero v h = omega arith
count-set p (e ∷ t) (suc q) v h = omega (arith, count-set p t q v (omega arith))

pub count_total : (t : Table) → count is_live t + count is_empty t + count is_tombstone t ≡ length t
unfolding count
count_total [] = refl
count_total (e ∷ t) = ground (arith, count_total t)

-- A table with a vacancy has an empty slot.
vacancy :
    (t : Table) → 0 < count is_empty t → (e : ℕ) × (e < length t) × ((slot t e).fold ≡ empty_fold)
unfolding count
vacancy [] h = absurd (omega arith)
vacancy (e ∷ t) h = elim (Bool-cases (is_empty e.fold)) [
  | inl here ↦ (0, omega arith, (==_iff _ _).0 here)
  | inr other ↦ let (i, lt, empty) = vacancy t (ground arith) in (suc i, omega arith, empty)
]

-- A slot that is found holds the fold.
pub find_sound :
    (t : Table) (g p : ℕ)
    → IsSized (length t)
    → find t g ≡ at p
    → (p < length t) × ((slot t p).fold ≡ g) × (is_live g ≡ true)
unfolding find
find_sound t g p sized e =
    find_loop_sound t (length t) sized g (length t) (home g (length t)) p (home-lt g sized) e

module _ (t : Table) (probed : IsProbed t) where
  -- In a probed table with an empty slot, the reader's loop ends for every fold.
  pub find-ne-endless : (g : ℕ) → 0 < count is_empty t → find t g ≢ endless
  unfolding find
  find-ne-endless g room =
      let (e, lt, empty) = vacancy t room in
      find_loop_ends t (length t) probed.sized g (length t) (home g (length t)) e
        (home-lt g probed.sized) lt empty
        (distance-lt (length t) (home g (length t)) e (home-lt g probed.sized) lt)

  module _ (q : ℕ) (v : Entry) (hq : q < length t) where
    find-set_kept :
        (g p : ℕ)
        → is_live (slot t q).fold ≡ false
        → is_live v.fold ≡ true
        → v.fold ≢ g
        → find t g ≡ at p
        → find (set t q v) g ≡ at p
    unfolding find
    find-set_kept g p dead live ne e = rw (length-set t q v) (
        find_loop-set t (length t) probed.sized g q v (length t) (home g (length t)) p hq dead live
          ne (home-lt g probed.sized) e)

    find-set_same : (g : ℕ) → v.fold ≡ (slot t q).fold → find (set t q v) g ≡ find t g
    unfolding find
    find-set_same g same =
        rw (length-set t q v) (
          find_loop-set_same t (length t) probed.sized g q v (length t) (home g (length t)) hq same)

    -- A new fold in a dead slot.
    module _ (dead : is_live (slot t q).fold ≡ false) (live : is_live v.fold ≡ true)
        (new : find t v.fold ≡ absent) (reached : find (set t q v) v.fold ≡ at q) where
      pub IsProbed-set_new : IsProbed (set t q v)
      IsProbed-set_new = record {
        sized = rw (length-set t q v) probed.sized;
        reach = λ p hp lp. elim (Bool-cases (q == p)) [
          | inl here ↦
              subst (λ i. find (set t q v) (slot (set t q v) i).fold ≡ at i) ((==_iff q p).0 here)
                (rw (get_or-set_self t q v zeroed hq) reached)
          | inr other ↦
              let kept = get_or-set_ne t q p v zeroed (ground arith) in
              let r = probed.reach p (rw length-set at hp) (rw kept at lp) in
              rw kept
                (find-set_kept (slot t p).fold p dead live (λ e. cc (new, r, ap (find t) e)) r)
        ];
      }

      -- Any other fold that is found now was found before.
      moved_back : (g p : ℕ) → g ≢ v.fold → find (set t q v) g ≡ at p → find t g ≡ at p
      moved_back g p other e =
          let (hp, fp, lg) = find_sound (set t q v) g p IsProbed-set_new.sized e in
          let self = get_or-set_self t q v zeroed hq in
          let ne : q ≢ p = λ qp.
            other (sym fp ∙ ap (λ i. (slot (set t q v) i).fold) (sym qp) ∙ ap (λ x. x.fold) self) in
          let same = ap (λ x. x.fold) (get_or-set_ne t q p v zeroed ne) in
          let eq : (slot t p).fold ≡ g = sym same ∙ fp in
          rw (← eq) (probed.reach p (rw length-set at hp) (rw eq lg))

      pub view-set_new :
          (g : ℕ) → view (set t q v) g ≡ (if g == v.fold then some (seqs v) else view t g)
      unfolding view
      view-set_new g = elim (Bool-cases (g == v.fold)) [
        | inl here ↦
            let e = (==_iff g v.fold).0 here in
            rw (here, e, reached, get_or-set_self t q v zeroed hq)
        | inr other ↦ rw other (elim (Find-cases (find t g)) [
          | inl (p, e) ↦
              let (hp, at_p, lg) = find_sound t g p probed.sized e in
              let ne : q ≢ p = λ qp. ground (arith, ap (λ i. (slot t i).fold) qp) in
              found_at (set t q v) p (find-set_kept g p dead live (ground arith) e)
              ∙ ap (λ x. some (seqs x)) (get_or-set_ne t q p v zeroed ne)
              ∙ sym (found_at t p e)
          | inr never ↦
              view-absent (set t q v) (find (set t q v) g)
                (λ p e. never p (moved_back g p (ground arith) e))
              ∙ sym (view-absent t (find t g) never)
        ])
      ]

    -- New sequences for an entry.
    module _ (same : v.fold ≡ (slot t q).fold) where
      pub IsProbed-set_same : IsProbed (set t q v)
      IsProbed-set_same = record {
        sized = rw (length-set t q v) probed.sized;
        reach = λ p hp lp.
            let fs = fold-set t q p v hq same in
            rw fs (
              find-set_same (slot t p).fold same
              ∙ probed.reach p (rw length-set at hp) (rw fs at lp));
      }

      pub view-set_same :
          (g : ℕ)
          → find t v.fold ≡ at q
          → view (set t q v) g ≡ (if g == v.fold then some (seqs v) else view t g)
      unfolding view
      view-set_same g e = elim (Bool-cases (g == v.fold)) [
        | inl here ↦
            let eq = (==_iff g v.fold).0 here in
            rw (here, find-set_same g same, eq, e, get_or-set_self t q v zeroed hq)
        | inr other ↦
            rw (other, find-set_same g same)
              (elim (Find-cases (find t g)) [
                | inl (p, at_p) ↦
                    let (hp, fp, lg) = find_sound t g p probed.sized at_p in
                    let ne : q ≢ p = λ qp. ground (arith, ap (λ i. (slot t i).fold) qp) in
                    found_at (set t q v) p at_p
                    ∙ ap (λ x. some (seqs x)) (get_or-set_ne t q p v zeroed ne)
                    ∙ sym (found_at t p at_p)
                | inr never ↦
                    view-absent (set t q v) (find t g) never ∙ sym (view-absent t (find t g) never)
              ])
      ]
