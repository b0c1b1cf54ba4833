-- ===== src/PurgeMap/Prune/Partition.antt =====
-- The partition loop of `purgemap_select` (src/vmod_cachetag_purgemap.c).
use libvmod_cachetag.Base.{ℕ, zero, suc, ◌+◌, ◌-◌, ◌*◌, ◌≤◌, ◌<◌, ◌≡◌, ◌≢◌, ◌∙◌, refl}
use libvmod_cachetag.Base.{Bool, some, List, arith}
use libvmod_cachetag.Base.{ltb, leb, ◌==◌, ==_iff, Bool-cases, ◌⊎◌, inl, inr}
use libvmod_cachetag.Base.{length, get_or}
use libvmod_cachetag.PurgeMap.Prune.{scan_up, scan_down, partition}
use libvmod_cachetag.PurgeMap.Prune.Scan.{
  Up, scan_up-Up, Down, scan_down-Down, tally, exchange, length-exchange, get_or-exchange_right,
  get_or-exchange_left, get_or-exchange_other, tally-exchange,
}

-- The values before `c` are at most `x`, and those from `c` on at least.
abbrev pub IsSplit : List ℕ → ℕ → ℕ → Type 0
IsSplit v x c = (k : ℕ) → k < length v → (k < c → get_or v k 0 ≤ x) × (c ≤ k → x ≤ get_or v k 0)

-- `v'` is `v` with the values from `left` to `right` in another order.
pub record Rearranged (v v' : List ℕ) (left right : ℕ) : Type 0 where
  pub same_length : length v' ≡ length v
  pub tallies : (q : ℕ → Bool) → tally q v' ≡ tally q v
  pub splits : (x c : ℕ) → (c ≤ left) ⊎ (right < c) → IsSplit v x c → IsSplit v' x c

Rearranged-refl : (v : List ℕ) (left right : ℕ) → Rearranged v v left right
Rearranged-refl v left right = record {
  same_length = refl;
  tallies = λ q. refl;
  splits = λ x c side s. s;
}

pub Rearranged-trans :
    (u v w : List ℕ) (left right : ℕ)
    → Rearranged u v left right
    → Rearranged v w left right
    → Rearranged u w left right
Rearranged-trans u v w left right r s = record {
  same_length = s.same_length ∙ r.same_length;
  tallies = λ q. s.tallies q ∙ r.tallies q;
  splits = λ x c side h. s.splits x c side (r.splits x c side h);
}

module _ (v : List ℕ) (left right a b : ℕ) (la : left ≤ a) (ab : a < b) (br : b ≤ right)
    (rn : right < length v) where
  apart : a ≢ b
  apart e = omega (arith, e)

  -- the two values that change places are on one side of every outer cut
  exchange-IsSplit :
      (x c : ℕ) → (c ≤ left) ⊎ (right < c) → IsSplit v x c → IsSplit (exchange v a b) x c
  exchange-IsSplit x c side h k kn =
      let len = length-exchange v a b (omega arith) (omega arith) apart in
      let at_a = h a (omega arith) in
      let at_b = h b (omega arith) in
      elim (Bool-cases (b == k)) [
        | inl e ↦
            let value = get_or-exchange_right v a b (omega arith) (omega arith) apart in
            let eq = (==_iff b k).0 e in
            (
              λ lt.
                  rw (← eq, value)
                    (at_a.0 (elim side [ inl s ↦ absurd (omega arith) | inr s ↦ omega arith ])),
              λ le.
                  rw (← eq, value)
                    (at_a.1 (elim side [ inl s ↦ omega arith | inr s ↦ absurd (omega arith) ])),
            )
        | inr nb ↦ elim (Bool-cases (a == k)) [
          | inl e ↦
              let value = get_or-exchange_left v a b (omega arith) (omega arith) apart in
              let eq = (==_iff a k).0 e in
              (
                λ lt.
                    rw (← eq, value)
                      (at_b.0 (elim side [ inl s ↦ absurd (omega arith) | inr s ↦ omega arith ])),
                λ le.
                    rw (← eq, value)
                      (at_b.1 (elim side [ inl s ↦ omega arith | inr s ↦ absurd (omega arith) ])),
              )
          | inr na ↦
              let value =
                get_or-exchange_other v a b (omega arith) (omega arith) apart k (λ e. ground arith)
                  (λ e. ground arith) in
              let at_k = h k (omega (arith, len)) in
              (λ lt. rw value (at_k.0 lt), λ le. rw value (at_k.1 le))
        ]
      ]

  exchange-Rearranged : Rearranged v (exchange v a b) left right
  exchange-Rearranged = record {
    same_length = length-exchange v a b (omega arith) (omega arith) apart;
    tallies = tally-exchange v a b (omega arith) (omega arith) apart;
    splits = exchange-IsSplit;
  }

-- The invariant at the head of the loop. `a` and `b` are where the scans stop at the latest, and one
-- of the two keeps the last `j` below `right`.
pub record Parting (v : List ℕ) (p left right i j : ℕ) : Type 0 where
  pub inside : right < length v
  pub low : (k : ℕ) → k < i → get_or v k 0 ≤ p
  pub high : (k : ℕ) → j < k → k < length v → p ≤ get_or v k 0
  pub left_i : left ≤ i
  pub j_right : j ≤ right
  pub close : i ≤ j + 1
  pub a : ℕ
  pub i_a : i ≤ a
  pub a_right : a ≤ right
  pub a_stops : p ≤ get_or v a 0
  pub b : ℕ
  pub left_b : left ≤ b
  pub b_j : b ≤ j
  pub b_stops : get_or v b 0 ≤ p
  pub shrinks : (a < right) ⊎ (j < right)

-- The result: a cut at `j + 1`, with both sides in the range.
pub record Parted (v : List ℕ) (p left right : ℕ) (r : List ℕ × ℕ) : Type 0 where
  pub moved : Rearranged v r.0 left right
  pub cut : IsSplit r.0 p (r.1 + 1)
  pub left_j : left ≤ r.1
  pub j_right : r.1 < right

module _ (v : List ℕ) (p left right i j : ℕ) (h : Parting v p left right i j)
    (u : Up v p i (scan_up (length v - i) v p i)) (ua : u.up ≤ h.a)
    (d : Down v p j (scan_down v p j)) (bd : h.b ≤ d.down) where
  below_up : (k : ℕ) → k < u.up → get_or v k 0 ≤ p
  below_up k lt = elim (Bool-cases (ltb k i)) [
    | inl before ↦ h.low k (ground arith)
    | inr after ↦ u.passed k (ground arith) lt
  ]

  above_down : (k : ℕ) → d.down < k → k < length v → p ≤ get_or v k 0
  above_down k gt kn = elim (Bool-cases (leb k j)) [
    | inl before ↦ d.passed k gt (ground arith)
    | inr after ↦ h.high k (ground arith) kn
  ]

  -- The scans have met.
  met-Parted : d.down ≤ u.up → Parted v p left right (v, d.down)
  met-Parted met = record {
    moved = Rearranged-refl v left right;
    cut = λ k kn. (
      λ lt. elim (Bool-cases (k == d.down)) [
        | inl e ↦ rw ((==_iff k d.down).0 e) d.stop
        | inr n ↦ below_up k (ground arith)
      ],
      λ le. above_down k (omega arith) kn,
    );
    left_j = omega (arith, h.left_b);
    j_right = elim h.shrinks [ inl s ↦ omega (arith, d.to) | inr s ↦ omega (arith, d.to) ];
  }

  module _ (lt : u.up < d.down) where
    up_left : left ≤ u.up
    up_left = omega (arith, h.left_i, u.from)

    down_right : d.down ≤ right
    down_right = omega (arith, h.j_right, d.to)

    ne : u.up ≢ d.down
    ne e = omega (arith, e)

    next_values : List ℕ
    next_values = exchange v u.up d.down

    exchanged : Rearranged v (exchange v u.up d.down) left right
    exchanged = exchange-Rearranged v left right u.up d.down up_left lt down_right h.inside

    next_other :
        (k : ℕ) → u.up ≢ k → d.down ≢ k → get_or (exchange v u.up d.down) k 0 ≡ get_or v k 0
    next_other =
        get_or-exchange_other v u.up d.down (omega (arith, h.inside, down_right))
          (omega (arith, h.inside, down_right)) ne

    next_up : get_or (exchange v u.up d.down) u.up 0 ≤ p
    next_up =
        rw
          (get_or-exchange_left v u.up d.down (omega (arith, h.inside, down_right))
            (omega (arith, h.inside, down_right)) ne)
          d.stop

    next_down : p ≤ get_or (exchange v u.up d.down) d.down 0
    next_down =
        rw
          (get_or-exchange_right v u.up d.down (omega (arith, h.inside, down_right))
            (omega (arith, h.inside, down_right)) ne)
          u.stop

    next-Parting : Parting (exchange v u.up d.down) p left right (u.up + 1) (d.down - 1)
    next-Parting = record {
      inside = rw exchanged.same_length h.inside;
      low = λ k lo. elim (Bool-cases (k == u.up)) [
        | inl e ↦ rw ((==_iff k u.up).0 e) next_up
        | inr n ↦
            rw (next_other k (λ e. ground arith) (λ e. ground arith)) (below_up k (ground arith))
      ];
      high = λ k hi kn. elim (Bool-cases (k == d.down)) [
        | inl e ↦ rw ((==_iff k d.down).0 e) next_down
        | inr n ↦
            rw (next_other k (λ e. ground arith) (λ e. ground arith))
              (above_down k (ground arith) (omega (arith, exchanged.same_length)))
      ];
      left_i = omega (arith, up_left);
      j_right = omega (arith, down_right);
      close = omega arith;
      a = d.down;
      i_a = omega arith;
      a_right = down_right;
      a_stops = next_down;
      b = u.up;
      left_b = up_left;
      b_j = omega arith;
      b_stops = next_up;
      shrinks = inr (omega (arith, down_right));
    }

-- The loop ends, with enough fuel for one swap in two values.
pub partition-Parted :
    (fuel : ℕ) (v : List ℕ) (p left right i j : ℕ)
    → Parting v p left right i j
    → j + 1 < i + fuel * 2
    → (r : List ℕ × ℕ) × (partition fuel v p i j ≡ some r) × Parted v p left right r
unfolding partition
partition-Parted zero v p left right i j h f = absurd (omega (arith, h.close))
partition-Parted (suc fuel) v p left right i j h f =
    let (u, ua) =
      scan_up-Up (length v - i) v p i h.a h.i_a (omega (arith, h.a_right, h.inside, h.i_a))
        h.a_stops in
    let (d, bd) = scan_down-Down v p j h.b h.b_j h.b_stops in
    elim (Bool-cases (leb d.down u.up)) [
      | inl met ↦ (
        (v, d.down),
        rw (u.stops, d.stops, met),
        met-Parted v p left right i j h u ua d bd (ground arith),
      )
      | inr crossing ↦
          let lt : u.up < d.down = ground arith in
          let (r, e, parted) =
            partition-Parted fuel (exchange v u.up d.down) p left right (u.up + 1) (d.down - 1)
              (next-Parting v p left right i j h u ua d bd lt) (omega (arith, u.from, d.to)) in
          (
            r,
            rw (u.stops, d.stops, crossing) e,
            record {
              moved =
                  Rearranged-trans v (exchange v u.up d.down) r.0 left right
                    (exchanged v p left right i j h u ua d bd lt) parted.moved;
              cut = parted.cut;
              left_j = parted.left_j;
              j_right = parted.j_right;
            },
          )
    ]
