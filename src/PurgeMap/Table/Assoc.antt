-- ===== src/PurgeMap/Table/Assoc.antt =====
-- A probed table read as a list: each live fold stands in one slot, so that the first slot with
-- a fold holds what the probe finds.
use libvmod_cachetag.Base.{ℕ, zero, suc, ◌<◌, ◌≡◌, ◌≢◌, ap, refl, sym}
use libvmod_cachetag.Base.{true, ◌&&◌, Option, none, some, List, [], ◌∷◌, arith}
use libvmod_cachetag.Base.{◌==◌, if◌then◌else◌, Bool-cases, ◌⊎◌, inl, inr}
use libvmod_cachetag.Base.{length}
use libvmod_cachetag.PurgeMap.Table.{Entry, Table, slot, is_live, find}
use libvmod_cachetag.PurgeMap.Table.View.{view, seqs, IsProbed, find_sound, found_at, view-absent}

unfoldable pub assoc : List Entry → ℕ → Option (ℕ × ℕ)
assoc [] g = none
assoc (e ∷ es) g = if is_live e.fold && e.fold == g then some (seqs e) else assoc es g

-- No fold stands in two live entries.
abbrev pub Distinct : List Entry → Type 0
Distinct [] = Unit
Distinct (e ∷ es) = (is_live e.fold ≡ true → assoc es e.fold ≡ none) × Distinct es

pub assoc-cases :
    (es : List Entry) (g : ℕ)
    → ((p : ℕ) × (p < length es)
        × ((slot es p).fold ≡ g)
        × (is_live g ≡ true)
        × (assoc es g ≡ some (seqs (slot es p))))
      ⊎ ((assoc es g ≡ none) × ((p : ℕ) → p < length es → is_live g ≡ true → (slot es p).fold ≢ g))
unfolding assoc
assoc-cases [] g = inr (refl, λ p h. absurd (omega arith))
assoc-cases (e ∷ es) g = elim (Bool-cases (is_live e.fold && e.fold == g)) [
  | inl here ↦ inl (0, omega arith, ground arith, ground arith, rw here)
  | inr other ↦ elim (assoc-cases es g) [
    | inl (p, h, eq, live, a) ↦ inl (suc p, omega arith, eq, live, rw other a)
    | inr (a, never) ↦ inr (
      rw other a,
      elim [
        | zero ↦ λ h live eq. ground arith
        | suc p ↦ λ h live eq. never p (omega arith) live eq
      ],
    )
  ]
]

-- The positions of live folds are apart.
apart_tail :
    (es : List Entry)
    → ((p q : ℕ)
        → p < length es
        → q < length es
        → is_live (slot es p).fold ≡ true
        → (slot es p).fold ≡ (slot es q).fold
        → p ≡ q)
    → Distinct es
apart_tail [] h = tt
apart_tail (e ∷ es) h = (
  λ live. elim (assoc-cases es e.fold) [
    | inl (p, lt, eq, l, a) ↦
        absurd (omega (arith, h 0 (suc p) (omega arith) (omega arith) live (sym eq)))
    | inr (a, never) ↦ a
  ],
  apart_tail es
      (λ p q hp hq live eq. omega (arith, h (suc p) (suc q) (omega arith) (omega arith) live eq)),
)

module _ (t : Table) (probed : IsProbed t) where
  pub IsProbed-Distinct : Distinct t
  IsProbed-Distinct = apart_tail t λ p q hp hq live eq.
      let at_p = probed.reach p hp live in
      let at_q = probed.reach q hq (rw (← eq) live) in cc (at_p, at_q, ap (find t) eq)

  pub view-assoc : (g : ℕ) → view t g ≡ assoc t g
  unfolding view
  view-assoc g = elim (assoc-cases t g) [
    | inl (p, h, eq, live, a) ↦ rw a (found_at t p (rw (← eq) (probed.reach p h (rw eq live))))
    | inr (a, never) ↦ rw a (
        view-absent t (find t g)
          λ p e. let (h, eq, live) = find_sound t g p probed.sized e in never p h live eq)
  ]
