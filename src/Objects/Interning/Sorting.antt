-- ===== src/Objects/Interning/Sorting.antt =====
-- The sort yields the same folds in ascending order (src/vmod_cachetag_index.c).
use libvmod_cachetag.Base.{ℕ, zero, suc, ◌+◌, ◌-◌, ◌<◌, ◌≤◌, ◌≡◌, ◌≢◌, ap, ◌∙◌, refl, sym}
use libvmod_cachetag.Base.{List, [], ◌∷◌, arith}
use libvmod_cachetag.Base.{ltb, ◌==◌, if◌then◌else◌, ==_iff, Bool-cases, inl, inr}
use libvmod_cachetag.Base.{
  length, get_or, set, length-set, get_or-set_self, get_or-set_ne, count_if, count_if-set,
}
use libvmod_cachetag.Objects.Interning.{shift_down, sort_loop, intern_sort, lookup_first_max}

-- How often a fold occurs.
abbrev pub occurs : ℕ → List ℕ → ℕ
occurs x folds = count_if (λ y. y == x) folds

-- In ascending order.
abbrev pub IsAscending : List ℕ → Type 0
IsAscending folds = (k : ℕ) → suc k < length folds → get_or folds k 0 ≤ get_or folds (suc k) 0

get_set :
    (a : List ℕ) (q p v : ℕ)
    → q < length a
    → get_or (set a q v) p 0 ≡ (if q == p then v else get_or a p 0)
get_set a q p v h = elim (Bool-cases (q == p)) [
  | inl same ↦
      let e = (==_iff q p).0 same in
      rw same (ap (λ i. get_or (set a q v) i 0) (sym e) ∙ get_or-set_self a q v 0 h)
  | inr other ↦ rw other (get_or-set_ne a q p v 0 (ground arith))
]

length-shift_down : (j : ℕ) (a : List ℕ) (fold : ℕ) → length (shift_down j a fold) ≡ length a
unfolding shift_down
length-shift_down zero a fold = length-set a 0 fold
length-shift_down (suc j) a fold =
    let rec = length-shift_down j (set a (suc j) (get_or a j 0)) fold in
    let put = length-set a (suc j) (get_or a j 0) in
    let done = length-set a (suc j) fold in
    elim (Bool-cases (ltb fold (get_or a j 0))) [
      | inl down ↦ rw down (rec ∙ put)
      | inr stop ↦ rw stop done
    ]

-- The loop puts the fold in place of the entry at `j`.
occurs-shift_down :
    (x j : ℕ) (a : List ℕ) (fold : ℕ)
    → j < length a
    → occurs x (shift_down j a fold) + (if get_or a j 0 == x then 1 else 0)
      ≡ occurs x a + (if fold == x then 1 else 0)
unfolding shift_down
occurs-shift_down x zero a fold h = count_if-set (λ y. y == x) a 0 fold 0 h
occurs-shift_down x (suc j) a fold h =
    let a' : List ℕ = set a (suc j) (get_or a j 0) in
    let rec = occurs-shift_down x j a' fold (rw length-set (omega arith)) in
    let put = count_if-set (λ y. y == x) a (suc j) (get_or a j 0) 0 h in
    let same : get_or a' j 0 ≡ get_or a j 0 =
      get_or-set_ne a (suc j) j (get_or a j 0) 0 (λ e. omega (arith, e)) in
    elim (Bool-cases (ltb fold (get_or a j 0))) [
      | inl down ↦ rw down (let r = rw same at rec in omega (arith, r, put))
      | inr stop ↦ rw stop (count_if-set (λ y. y == x) a (suc j) fold 0 h)
    ]

-- What the inner loop needs of the entries up to `i`: ascending but for the hole at `j`.
record Holed (i j : ℕ) (a : List ℕ) (fold : ℕ) : Type 0 where
  inside : i < length a
  hole : j ≤ i
  low : (k : ℕ) → suc k < j → get_or a k 0 ≤ get_or a (suc k) 0
  high : (k : ℕ) → j < k → suc k ≤ i → get_or a k 0 ≤ get_or a (suc k) 0
  above : j < i → fold ≤ get_or a (suc j) 0
  over : (k : ℕ) → suc k ≡ j → j < i → get_or a k 0 ≤ get_or a (suc j) 0

module _ (i j : ℕ) (a : List ℕ) (fold : ℕ) (h : Holed i (suc j) a fold) where
  inside_hole : suc j < length a
  inside_hole = let b = h.hole in let c = h.inside in omega arith

  -- An entry other than the hole.
  kept : (v k : ℕ) → suc j ≢ k → get_or (set a (suc j) v) k 0 ≡ get_or a k 0
  kept v k ne = get_or-set_ne a (suc j) k v 0 ne

  filled : (v k : ℕ) → suc j ≡ k → get_or (set a (suc j) v) k 0 ≡ v
  filled v k e =
      ap (λ n. get_or (set a (suc j) v) n 0) (sym e) ∙ get_or-set_self a (suc j) v 0 inside_hole

  next_Holed : fold < get_or a j 0 → Holed i j (set a (suc j) (get_or a j 0)) fold
  next_Holed lt = record {
    inside = rw length-set h.inside;
    hole = let b = h.hole in omega arith;
    low = λ k b.
        rw
          (
            kept (get_or a j 0) k (λ e. omega (arith, e)),
            kept (get_or a j 0) (suc k) (λ e. omega (arith, e)),
          )
          (h.low k (omega arith));
    high = λ k b c.
        let after = kept (get_or a j 0) (suc k) (λ e. omega (arith, e)) in
        elim (Bool-cases (suc j == k)) [
          | inl here ↦
              let e = (==_iff (suc j) k).0 here in
              rw (after, filled (get_or a j 0) k e)
                (let o = h.over j refl (omega (arith, e)) in rw e at o)
          | inr off ↦ rw (after, kept (get_or a j 0) k (ground arith)) (h.high k (ground arith) c)
        ];
    above = λ b. rw (filled (get_or a j 0) (suc j) refl) (omega arith);
    over = λ k e b.
        rw (filled (get_or a j 0) (suc j) refl, kept (get_or a j 0) k (λ d. omega (arith, d, e)))
          (let l = h.low k (omega (arith, e)) in rw e at l);
  }

  -- The hole takes the fold.
  stop_ascending :
      get_or a j 0 ≤ fold
      → (k : ℕ) → suc k ≤ i
      → get_or (set a (suc j) fold) k 0 ≤ get_or (set a (suc j) fold) (suc k) 0
  stop_ascending le k b = elim (Bool-cases (suc j == k)) [
    | inl here ↦
        let e = (==_iff (suc j) k).0 here in
        rw (filled fold k e, kept fold (suc k) (λ d. omega (arith, d, e)))
          (let o = h.above (omega (arith, e)) in rw e at o)
    | inr off ↦ elim (Bool-cases (j == k)) [
      | inl before ↦
          let e = (==_iff j k).0 before in
          rw (filled fold (suc k) (ap suc e), kept fold k (ground arith)) (rw e at le)
      | inr away ↦
          rw (kept fold k (ground arith), kept fold (suc k) (ground arith))
            (elim (Bool-cases (ltb k (suc j))) [
              | inl below ↦ h.low k (ground arith)
              | inr beyond ↦ h.high k (ground arith) b
            ])
    ]
  ]

start_ascending :
    (i : ℕ) (a : List ℕ) (fold : ℕ)
    → Holed i 0 a fold
    → (k : ℕ) → suc k ≤ i
    → get_or (set a 0 fold) k 0 ≤ get_or (set a 0 fold) (suc k) 0
start_ascending i a fold h zero b =
    let inside = h.inside in
    rw
      (get_or-set_self a 0 fold 0 (omega arith), get_or-set_ne a 0 1 fold 0 (λ e. omega (arith, e)))
      (h.above b)
start_ascending i a fold h (suc k) b =
    rw
      (
        get_or-set_ne a 0 (suc k) fold 0 (λ e. omega (arith, e)),
        get_or-set_ne a 0 (suc (suc k)) fold 0 (λ e. omega (arith, e)),
      )
      (h.high (suc k) (omega arith) b)

shift_down-ascending :
    (j i : ℕ) (a : List ℕ) (fold : ℕ)
    → Holed i j a fold
    → (k : ℕ) → suc k ≤ i
    → get_or (shift_down j a fold) k 0 ≤ get_or (shift_down j a fold) (suc k) 0
unfolding shift_down
shift_down-ascending zero i a fold h k b = start_ascending i a fold h k b
shift_down-ascending (suc j) i a fold h k b =
    let rec = shift_down-ascending j i (set a (suc j) (get_or a j 0)) fold in
    elim (Bool-cases (ltb fold (get_or a j 0))) [
      | inl down ↦ rw down (rec (next_Holed i j a fold h (ground arith)) k b)
      | inr stop ↦ rw stop (stop_ascending i j a fold h (ground arith) k b)
    ]

-- The list is ascending up to `i` before its round, and up to the next after it.
pub sort_loop-sorts :
    (rounds i : ℕ) (a : List ℕ)
    → i + rounds ≡ length a
    → ((k : ℕ) → suc k < i → get_or a k 0 ≤ get_or a (suc k) 0)
    → IsAscending (sort_loop rounds i a) × ((x : ℕ) → occurs x (sort_loop rounds i a) ≡ occurs x a)
unfolding sort_loop
sort_loop-sorts zero i a len low = (λ k b. low k (omega arith), λ x. refl)
sort_loop-sorts (suc rounds) i a len low =
    let fold : ℕ = get_or a i 0 in
    let holed : Holed i i a fold = record {
      inside = omega arith;
      hole = omega arith;
      low = low;
      high = λ k b c. absurd (omega arith);
      above = λ b. absurd (omega arith);
      over = λ k e b. absurd (omega arith);
    } in
    let (ascending, same) =
      sort_loop-sorts rounds (i + 1) (shift_down i a fold) (rw length-shift_down (omega arith))
        λ k b. shift_down-ascending i i a fold holed k (omega arith) in
    (ascending, λ x. same x ∙ (let c = occurs-shift_down x i a fold (omega arith) in omega arith))

-- What the C library documents of `qsort` with the order of the folds.
pub record Sorts (qsort : List ℕ → List ℕ) : Type 0 where
  pub ascending : (folds : List ℕ) → IsAscending (qsort folds)
  pub same : (folds : List ℕ) (x : ℕ) → occurs x (qsort folds) ≡ occurs x folds

-- The sort yields the same folds in ascending order.
pub intern_sort-IsAscending :
    (qsort : List ℕ → List ℕ) (folds : List ℕ)
    → Sorts qsort
    → IsAscending (intern_sort qsort folds)
      × ((x : ℕ) → occurs x (intern_sort qsort folds) ≡ occurs x folds)
unfolding intern_sort
intern_sort-IsAscending qsort [] sorts =
    unfold sort_loop in (λ k b. absurd (omega arith), λ x. refl)
intern_sort-IsAscending qsort (f ∷ folds) sorts =
    elim (Bool-cases (ltb lookup_first_max (length (f ∷ folds)))) [
      | inl many ↦ rw many (sorts.ascending (f ∷ folds), sorts.same (f ∷ folds))
      | inr few ↦ rw few (
          sort_loop-sorts (length (f ∷ folds) - 1) 1 (f ∷ folds) (omega arith)
            λ k b. absurd (omega arith))
    ]
