-- ===== src/PurgeMap/Prune/Bounds.antt =====
-- How large the selected cutoff can be (src/vmod_cachetag_purgemap.c).
use libvmod_cachetag.Base.{ℕ, zero, suc, ◌≤◌, ◌<◌, ◌≡◌}
use libvmod_cachetag.Base.{true, List, [], ◌∷◌, arith}
use libvmod_cachetag.Base.{ltb, leb, ◌==◌, ==_iff, Bool-cases, inl, inr}
use libvmod_cachetag.Base.{length, get_or}
use libvmod_cachetag.PurgeMap.Table.{Entry, is_live}
use libvmod_cachetag.PurgeMap.Table.Assoc.{assoc, Distinct}
use libvmod_cachetag.PurgeMap.Well.{hard_part, soft_part}
use libvmod_cachetag.PurgeMap.Prune.{entry_newest, newest_of}
use libvmod_cachetag.PurgeMap.Prune.Select.{HasRank, le-tally}

cons_bound :
    (x : ℕ) (v : List ℕ) (b : ℕ)
    → x ≤ b
    → ((k : ℕ) → get_or v k 0 ≤ b)
    → (k : ℕ) → get_or (x ∷ v) k 0 ≤ b
cons_bound x v b h t zero = h
cons_bound x v b h t (suc k) = t k

-- The newest sequences are bounded as the history is.
pub newest_of-bound :
    (es : List Entry) (b k : ℕ)
    → Distinct es
    → ((g : ℕ) → (hard_part (assoc es g) ≤ b) × (soft_part (assoc es g) ≤ b))
    → get_or (newest_of es) k 0 ≤ b
unfolding newest_of assoc
newest_of-bound [] b k distinct h = omega arith
newest_of-bound (e ∷ es) b k (alone, distinct) h = elim (Bool-cases (is_live e.fold)) [
  | inr dead ↦ rw dead (newest_of-bound es b k distinct λ g. rw dead at (h g))
  | inl live ↦
      let self : (e.fold == e.fold) ≡ true = ground arith in
      let here = rw (live, self) at (h e.fold) in
      let tail : (g : ℕ) → (hard_part (assoc es g) ≤ b) × (soft_part (assoc es g) ≤ b) = λ g.
        elim (Bool-cases (e.fold == g)) [
          | inl this ↦ rw (← (==_iff e.fold g).0 this, alone live) (omega arith, omega arith)
          | inr other ↦ rw (live, other) at (h g)
        ] in
      rw live (
        cons_bound (entry_newest e) (newest_of es) b (ground arith)
          (λ j. newest_of-bound es b j distinct tail) k)
]

-- A value of a rank within the list is no larger than a bound of all values.
pub HasRank-bound :
    (v : List ℕ) (kth r b : ℕ)
    → kth < length v
    → HasRank v kth r
    → ((k : ℕ) → get_or v k 0 ≤ b)
    → r ≤ b
HasRank-bound v kth r b lt rank h = elim (Bool-cases (leb r b)) [
  | inl fine ↦ ground arith
  | inr above ↦
      let all =
        le-tally (λ x. ltb x r) v (length v) (omega arith) λ k kn. let c = h k in ground arith in
      absurd (omega (arith, all, rank.below))
]
