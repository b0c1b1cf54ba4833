-- ===== src/Objects/Interning/Canonical.antt =====
-- The sort yields one list for all orders of the same folds (src/vmod_cachetag_index.c).
use libvmod_cachetag.Base.{ℕ, zero, suc, ◌<◌, ◌≤◌, ◌≡◌, ◌∙◌, refl, sym}
use libvmod_cachetag.Base.{true, List, [], ◌∷◌, arith}
use libvmod_cachetag.Base.{◌==◌}
use libvmod_cachetag.Base.{length, get_or, count_if, count_if-found}
use libvmod_cachetag.Objects.Interning.{intern_sort}
use libvmod_cachetag.Objects.Interning.Sorting.{occurs, IsAscending, Sorts, intern_sort-IsAscending}

IsAscending-tail : (x : ℕ) (xs : List ℕ) → IsAscending (x ∷ xs) → IsAscending xs
IsAscending-tail x xs h k b = h (suc k) (omega arith)

-- The first entry is the least.
least :
    (x : ℕ) (xs : List ℕ) (i : ℕ)
    → IsAscending (x ∷ xs)
    → i < length (x ∷ xs)
    → x ≤ get_or (x ∷ xs) i 0
least x xs zero h b = omega arith
least x xs (suc i) h b =
    let before = least x xs i h (omega arith) in let step = h i b in omega arith

head_le : (x y : ℕ) (ys : List ℕ) → IsAscending (y ∷ ys) → 0 < occurs x (y ∷ ys) → y ≤ x
head_le x y ys h some_x =
    let (i, lt, e) = count_if-found (λ z. z == x) (y ∷ ys) 0 some_x in
    let l = least y ys i h lt in ground arith

occurs_head : (x : ℕ) (xs : List ℕ) → 0 < occurs x (x ∷ xs)
unfolding count_if
occurs_head x xs = let self : (x == x) ≡ true = ground arith in rw self (omega arith)

ascending_unique :
    (xs ys : List ℕ)
    → IsAscending xs
    → IsAscending ys
    → ((x : ℕ) → occurs x xs ≡ occurs x ys)
    → xs ≡ ys
unfolding count_if
ascending_unique [] [] h k same = refl
ascending_unique [] (y ∷ ys) h k same =
    let s = same y in let o = occurs_head y ys in absurd (omega arith)
ascending_unique (x ∷ xs) [] h k same =
    let s = same x in let o = occurs_head x xs in absurd (omega arith)
ascending_unique (x ∷ xs) (y ∷ ys) h k same =
    let a = head_le x y ys k (let s = same x in let o = occurs_head x xs in omega arith) in
    let b = head_le y x xs h (let s = same y in let o = occurs_head y ys in omega arith) in
    let e : x ≡ y = omega arith in
    let rest =
      ascending_unique xs ys (IsAscending-tail x xs h) (IsAscending-tail y ys k)
        λ z. let s = same z in ground (arith, s, e) in
    λ i. e i ∷ rest i

-- Two registrations that list the same folds, in any order, are sorted into the same list.
pub intern_sort-canonical :
    (qsort : List ℕ → List ℕ) (folds folds' : List ℕ)
    → Sorts qsort
    → ((x : ℕ) → occurs x folds ≡ occurs x folds')
    → intern_sort qsort folds ≡ intern_sort qsort folds'
intern_sort-canonical qsort folds folds' sorts same =
    let (a, s) = intern_sort-IsAscending qsort folds sorts in
    let (a', s') = intern_sort-IsAscending qsort folds' sorts in
    ascending_unique (intern_sort qsort folds) (intern_sort qsort folds') a a'
      λ x. s x ∙ same x ∙ sym (s' x)
