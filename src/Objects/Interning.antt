-- ===== src/Objects/Interning.antt =====
-- The canonical order of an object's folds, so that objects with the same folds share one set
-- (src/vmod_cachetag_index.c). `qsort` is the C library's.
pub mod Sorting
pub mod Registry
pub mod Moves
pub mod Steps
pub mod Counts
pub mod Canonical
use libvmod_cachetag.Base.{ℕ, zero, suc, ◌+◌, ◌-◌}
use libvmod_cachetag.Base.{List, ltb, if◌then◌else◌, length, get_or, set}

-- The inner loop of the insertion sort, from `j` down, and the write that ends it.
unfoldable pub shift_down : ℕ → List ℕ → ℕ → List ℕ
shift_down zero folds fold = set folds 0 fold
shift_down (suc j) folds fold =
    let moved = shift_down j (set folds (suc j) (get_or folds j 0)) fold in
    if ltb fold (get_or folds j 0) then moved else set folds (suc j) fold

-- The outer loop, with the rounds that are left.
unfoldable pub sort_loop : ℕ → ℕ → List ℕ → List ℕ
sort_loop zero i folds = folds
sort_loop (suc rounds) i folds = sort_loop rounds (i + 1) (shift_down i folds (get_or folds i 0))

-- TAG_INTERN_LOOKUP_FIRST_MAX_FOLDS
abbrev pub lookup_first_max : ℕ
lookup_first_max = 8

unfoldable pub intern_sort : (List ℕ → List ℕ) → List ℕ → List ℕ
unfolding sort_loop
intern_sort qsort folds =
    if ltb lookup_first_max (length folds)
    then qsort folds
    else sort_loop (length folds - 1) 1 folds
