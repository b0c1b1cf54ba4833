-- ===== src/PurgeMap/Prune/Scan.antt =====
-- The two scans of `purgemap_select` and the swap between them (src/vmod_cachetag_purgemap.c).
use libvmod_cachetag.Base.{ℕ, zero, suc, ◌+◌, ◌≤◌, ◌<◌, ◌≡◌, ◌≢◌, ap, ◌∙◌, sym}
use libvmod_cachetag.Base.{Bool, true, false, Option, some, List, [], ◌∷◌, arith}
use libvmod_cachetag.Base.{ltb, ◌==◌, if◌then◌else◌, ==_iff, Bool-cases, inl, inr}
use libvmod_cachetag.Base.{length, get_or, set, length-set, get_or-set_self, get_or-set_ne}
use libvmod_cachetag.PurgeMap.Prune.{scan_up, scan_down}

-- The upward scan stops at the first value from `i` on that is no less than the pivot.
pub record Up (v : List ℕ) (p i : ℕ) (r : Option ℕ) : Type 0 where
  pub up : ℕ
  pub stops : r ≡ some up
  pub from : i ≤ up
  pub stop : p ≤ get_or v up 0
  pub passed : (k : ℕ) → i ≤ k → k < up → get_or v k 0 ≤ p

pub scan_up-Up :
    (fuel : ℕ) (v : List ℕ) (p i a : ℕ)
    → i ≤ a
    → a < i + fuel
    → p ≤ get_or v a 0
    → (u : Up v p i (scan_up fuel v p i)) × (u.up ≤ a)
unfolding scan_up
scan_up-Up zero v p i a h f s = absurd (omega arith)
scan_up-Up (suc fuel) v p i a h f s = elim (Bool-cases (ltb (get_or v i 0) p)) [
  | inl less ↦
      let off : i ≢ a = λ e. ground (arith, rw (sym e) at s) in
      let (u, b) = scan_up-Up fuel v p (i + 1) a (ground (arith, off)) (omega arith) s in
      (
        record {
          up = u.up;
          stops = rw less u.stops;
          from = omega (arith, u.from);
          stop = u.stop;
          passed = λ k lo hi. elim (Bool-cases (k == i)) [
            | inl e ↦ rw ((==_iff k i).0 e) (ground arith)
            | inr n ↦ u.passed k (ground arith) hi
          ];
        },
        b,
      )
  | inr here ↦ (
    record {
      up = i;
      stops = rw here;
      from = omega arith;
      stop = ground arith;
      passed = λ k lo hi. absurd (omega arith);
    },
    h,
  )
]

-- The downward scan stops at the last value up to `j` that is no more than the pivot.
pub record Down (v : List ℕ) (p j : ℕ) (r : Option ℕ) : Type 0 where
  pub down : ℕ
  pub stops : r ≡ some down
  pub to : down ≤ j
  pub stop : get_or v down 0 ≤ p
  pub passed : (k : ℕ) → down < k → k ≤ j → p ≤ get_or v k 0

pub scan_down-Down :
    (v : List ℕ) (p j b : ℕ)
    → b ≤ j
    → get_or v b 0 ≤ p
    → (d : Down v p j (scan_down v p j)) × (b ≤ d.down)
unfolding scan_down
scan_down-Down v p zero b h s =
    let e : b ≡ 0 = omega arith in
    let s' = rw e at s in
    let off : ltb p (get_or v 0 0) ≡ false = ground arith in
    (
      record {
        down = 0;
        stops = rw off;
        to = omega arith;
        stop = s';
        passed = λ k lo hi. absurd (omega arith);
      },
      omega arith,
    )
scan_down-Down v p (suc j) b h s = elim (Bool-cases (ltb p (get_or v (suc j) 0))) [
  | inl more ↦
      let off : b ≢ suc j = λ e. ground (arith, rw e at s) in
      let (d, c) = scan_down-Down v p j b (ground (arith, off)) s in
      (
        record {
          down = d.down;
          stops = rw more d.stops;
          to = omega (arith, d.to);
          stop = d.stop;
          passed = λ k lo hi. elim (Bool-cases (k == suc j)) [
            | inl e ↦ rw ((==_iff k (suc j)).0 e) (ground arith)
            | inr n ↦ d.passed k lo (ground arith)
          ];
        },
        c,
      )
  | inr here ↦ (
    record {
      down = suc j;
      stops = rw here;
      to = omega arith;
      stop = ground arith;
      passed = λ k lo hi. absurd (omega arith);
    },
    h,
  )
]

-- How many values pass a test.
unfoldable pub tally : (ℕ → Bool) → List ℕ → ℕ
tally q [] = 0
tally q (x ∷ v) = if q x then suc (tally q v) else tally q v

abbrev pub one_if : Bool → ℕ
one_if true = 1
one_if false = 0

tally-set :
    (q : ℕ → Bool) (v : List ℕ) (i x : ℕ)
    → i < length v
    → tally q (set v i x) + one_if (q (get_or v i 0)) ≡ tally q v + one_if (q x)
unfolding tally
tally-set q [] i x h = absurd (omega arith)
tally-set q (y ∷ v) zero x h = ground arith
tally-set q (y ∷ v) (suc i) x h = ground (arith, tally-set q v i x)

abbrev pub exchange : List ℕ → ℕ → ℕ → List ℕ
exchange v a b = set (set v a (get_or v b 0)) b (get_or v a 0)

module _ (v : List ℕ) (a b : ℕ) (ha : a < length v) (hb : b < length v) (ne : a ≢ b) where
  pub length-exchange : length (exchange v a b) ≡ length v
  length-exchange =
      length-set (set v a (get_or v b 0)) b (get_or v a 0) ∙ length-set v a (get_or v b 0)

  pub get_or-exchange_right : get_or (exchange v a b) b 0 ≡ get_or v a 0
  get_or-exchange_right =
      get_or-set_self (set v a (get_or v b 0)) b (get_or v a 0) 0
        (rw (length-set v a (get_or v b 0)) hb)

  pub get_or-exchange_left : get_or (exchange v a b) a 0 ≡ get_or v b 0
  get_or-exchange_left =
      get_or-set_ne (set v a (get_or v b 0)) b a (get_or v a 0) 0 (λ e. ne (sym e))
      ∙ get_or-set_self v a (get_or v b 0) 0 ha

  pub get_or-exchange_other : (k : ℕ) → a ≢ k → b ≢ k → get_or (exchange v a b) k 0 ≡ get_or v k 0
  get_or-exchange_other k na nb =
      get_or-set_ne (set v a (get_or v b 0)) b k (get_or v a 0) 0 nb
      ∙ get_or-set_ne v a k (get_or v b 0) 0 na

  pub tally-exchange : (q : ℕ → Bool) → tally q (exchange v a b) ≡ tally q v
  tally-exchange q =
      let first = tally-set q v a (get_or v b 0) ha in
      let second =
        tally-set q (set v a (get_or v b 0)) b (get_or v a 0)
          (rw (length-set v a (get_or v b 0)) hb) in
      let kept : get_or (set v a (get_or v b 0)) b 0 ≡ get_or v b 0 =
        get_or-set_ne v a b (get_or v b 0) 0 ne in
      omega (arith, first, second, ap (λ x. one_if (q x)) kept)
