-- ===== src/PurgeMap/Prune/Select.antt =====
-- The selection of the k-th smallest value (src/vmod_cachetag_purgemap.c).
use libvmod_cachetag.Base.{ℕ, zero, suc, ◌+◌, ◌-◌, ◌/◌, ◌≤◌, ◌<◌, ◌≡◌, refl}
use libvmod_cachetag.Base.{Bool, true, false, some, List, [], ◌∷◌, arith}
use libvmod_cachetag.Base.{ltb, leb, ◌==◌, if◌then◌else◌, ==_iff, Bool-cases, inl, inr}
use libvmod_cachetag.Base.{length, get_or}
use libvmod_cachetag.PurgeMap.Prune.{select, count_upto}
use libvmod_cachetag.PurgeMap.Prune.Scan.{tally}
use libvmod_cachetag.PurgeMap.Prune.Partition.{IsSplit, Parting, partition-Parted}

pub le-tally :
    (q : ℕ → Bool) (v : List ℕ) (c : ℕ)
    → c ≤ length v
    → ((k : ℕ) → k < c → q (get_or v k 0) ≡ true)
    → c ≤ tally q v
unfolding tally
le-tally q [] c h all = h
le-tally q (x ∷ v) zero h all = omega arith
le-tally q (x ∷ v) (suc c) h all =
    let rest = le-tally q v c (omega arith) (λ k lt. all (suc k) (omega arith)) in
    rw (all 0 (omega arith)) (omega arith)

tally-le :
    (q : ℕ → Bool) (v : List ℕ) (c : ℕ)
    → ((k : ℕ) → c ≤ k → k < length v → q (get_or v k 0) ≡ false)
    → tally q v ≤ c
unfolding tally
tally-le q [] c none_from = omega arith
tally-le q (x ∷ v) zero none_from =
    rw (none_from 0 (omega arith) (omega arith))
      (tally-le q v 0 λ k le lt. none_from (suc k) (omega arith) (omega arith))
tally-le q (x ∷ v) (suc c) none_from =
    let rest = tally-le q v c (λ k le lt. none_from (suc k) (omega arith) (omega arith)) in
    ground arith

-- `r` is the value at rank `kth`: more than `kth` values are at most `r`, and no more are less.
pub record HasRank (v : List ℕ) (kth r : ℕ) : Type 0 where
  pub upto : kth < tally (λ x. leb x r) v
  pub below : tally (λ x. ltb x r) v ≤ kth

HasRank-same :
    (v w : List ℕ) (kth r : ℕ)
    → ((q : ℕ → Bool) → tally q w ≡ tally q v)
    → HasRank w kth r
    → HasRank v kth r
HasRank-same v w kth r same h = record {
  upto = omega (arith, same (λ x. leb x r), h.upto);
  below = omega (arith, same (λ x. ltb x r), h.below);
}

-- A value with a cut on either side of it.
HasRank-cut :
    (v : List ℕ) (lo hi kth : ℕ)
    → kth < length v
    → IsSplit v lo kth
    → IsSplit v hi (kth + 1)
    → HasRank v kth (get_or v kth 0)
HasRank-cut v lo hi kth lt below above =
    let at_lo = (below kth lt).1 (omega arith) in
    let at_hi = (above kth lt).0 (omega arith) in
    record {
      upto = omega (
        arith,
        le-tally (λ x. leb x (get_or v kth 0)) v (kth + 1) (omega arith)
            λ k c. elim (Bool-cases (k == kth)) [
              | inl e ↦ rw ((==_iff k kth).0 e) (ground arith)
              | inr n ↦ let b = (below k (omega arith)).0 (ground arith) in ground arith
            ],
      );
      below =
          tally-le (λ x. ltb x (get_or v kth 0)) v kth
            λ k c kn. elim (Bool-cases (k == kth)) [
              | inl e ↦ rw ((==_iff k kth).0 e) (ground arith)
              | inr n ↦ let b = (above k kn).1 (ground arith) in ground arith
            ];
    }

-- The first partition of a range of two values or more.
first-Parting :
    (v : List ℕ) (left right lo hi : ℕ)
    → left < right
    → right < length v
    → IsSplit v lo left
    → IsSplit v hi (right + 1)
    → Parting v (get_or v (left + (right - left) / 2) 0) left right left right
first-Parting v left right lo hi lt inside below above =
    let m : ℕ = left + (right - left) / 2 in
    let m_right : m < right = omega arith in
    let at_lo = (below m (omega arith)).1 (omega arith) in
    let at_hi = (above m (omega arith)).0 (omega arith) in
    record {
      inside = inside;
      low = λ k kl. let b = (below k (omega arith)).0 kl in omega arith;
      high = λ k kr kn. let b = (above k kn).1 (omega arith) in omega arith;
      left_i = omega arith;
      j_right = omega arith;
      close = omega arith;
      a = m;
      i_a = omega arith;
      a_right = omega arith;
      a_stops = omega arith;
      b = m;
      left_b = omega arith;
      b_j = omega arith;
      b_stops = omega arith;
      shrinks = inl m_right;
    }

select-HasRank :
    (fuel : ℕ) (v : List ℕ) (left right kth lo hi : ℕ)
    → right < left + fuel
    → left ≤ kth
    → kth ≤ right
    → right < length v
    → IsSplit v lo left
    → IsSplit v hi (right + 1)
    → (r : ℕ) × (select fuel v left right kth ≡ some r) × HasRank v kth r
unfolding select
select-HasRank zero v left right kth lo hi f lk kr inside below above = absurd (omega arith)
select-HasRank (suc fuel) v left right kth lo hi f lk kr inside below above =
    elim (Bool-cases (left == right)) [
      | inl one ↦
          let eq : left ≡ kth = ground arith in
          let eq' : right ≡ kth = ground arith in
          (
            get_or v left 0,
            rw one,
            rw eq (HasRank-cut v lo hi kth (omega arith) (rw eq at below) (rw eq' at above)),
          )
      | inr more ↦
          let p : ℕ = get_or v (left + (right - left) / 2) 0 in
          let start = first-Parting v left right lo hi (ground arith) inside below above in
          let (part, e, parted) =
            partition-Parted (length v) v p left right left right start (omega arith) in
          elim (Bool-cases (leb kth part.1)) [
            | inl low ↦
                let (r, e', rank) =
                  select-HasRank fuel part.0 left part.1 kth lo p (omega (arith, parted.j_right)) lk
                    (ground arith) (omega (arith, parted.moved.same_length, parted.j_right))
                    (parted.moved.splits lo left (inl (omega arith)) below) parted.cut in
                (r, rw (more, e, low) e', HasRank-same v part.0 kth r parted.moved.tallies rank)
            | inr high ↦
                let (r, e', rank) =
                  select-HasRank fuel part.0 (part.1 + 1) right kth p hi
                    (omega (arith, parted.left_j)) (ground arith) kr
                    (omega (arith, parted.moved.same_length)) parted.cut
                    (parted.moved.splits hi (right + 1) (inr (omega arith)) above) in
                (r, rw (more, e, high) e', HasRank-same v part.0 kth r parted.moved.tallies rank)
          ]
    ]

max_of : List ℕ → ℕ
max_of [] = 0
max_of (x ∷ v) = if ltb (max_of v) x then x else max_of v

get_or-le-max_of : (v : List ℕ) (k : ℕ) → get_or v k 0 ≤ max_of v
unfolding max_of
get_or-le-max_of [] k = omega arith
get_or-le-max_of (x ∷ v) zero = ground arith
get_or-le-max_of (x ∷ v) (suc k) = let h = get_or-le-max_of v k in ground arith

pub count_upto-tally : (cutoff : ℕ) (v : List ℕ) → count_upto cutoff v ≡ tally (λ x. leb x cutoff) v
unfolding count_upto tally
count_upto-tally cutoff [] = refl
count_upto-tally cutoff (x ∷ v) = ground (arith, count_upto-tally cutoff v)

-- For an index within the array, the selection with as much fuel as there are values ends, reads
-- nothing outside of the array, and returns the value of that rank: more than `kth` values are at
-- most the result, and at most `kth` values are less.
pub select_lem :
    (v : List ℕ) (kth : ℕ)
    → kth < length v
    → (r : ℕ) × (select (length v) v 0 (length v - 1) kth ≡ some r) × HasRank v kth r
select_lem v kth lt =
    select-HasRank (length v) v 0 (length v - 1) kth 0 (max_of v) (omega arith) (omega arith)
      (omega arith) (omega arith) (λ k kn. (λ k0. absurd (omega arith), λ k0. omega arith))
      (λ k kn. (λ c. get_or-le-max_of v k, λ c. absurd (omega arith)))
