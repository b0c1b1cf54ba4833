-- ===== src/Objects/Interning/Counts.antt =====
-- The count of the references to the shared sets (src/vmod_cachetag_index.c).
use libvmod_cachetag.Base.{ℕ, zero, suc, ◌+◌, ◌<◌, ◌≤◌, ◌≡◌, ap, ◌∙◌, refl, sym}
use libvmod_cachetag.Base.{true, false, not, ◌&&◌, Option, none, some, List, [], ◌∷◌, arith}
use libvmod_cachetag.Base.{ltb, ◌==◌, if◌then◌else◌, ==_iff, Bool-cases, ◌⊎◌, inl, inr}
use libvmod_cachetag.Base.{length, get_or, set}
use mathlib.Core.Path.{subst}
use libvmod_cachetag.PurgeMap.Table.{home}
use libvmod_cachetag.PurgeMap.Table.Walk.{home-lt}
use libvmod_cachetag.Objects.Interning.Registry.{
  InternedSet, Chains, Registry, matches, find_set, chain_of, lookup_table, push, reference,
  reference_in, in_old, in_new, lookup, finish, step_at, migrate_steps, publish_set,
}
use libvmod_cachetag.Objects.Interning.Moves.{IsChained}
use libvmod_cachetag.Objects.Interning.Steps.{Moving, step_keeps, stepped_active}

abbrev chain_refs : List InternedSet → ℕ
chain_refs [] = 0
chain_refs (s ∷ chain) = s.refs + chain_refs chain

-- The references of all sets in the buckets.
abbrev pub refs_of : Chains → ℕ
refs_of [] = 0
refs_of (chain ∷ buckets) = chain_refs chain + refs_of buckets

-- The registry's count is the sum of its sets' counts.
abbrev pub IsCounted : Registry → Type 0
IsCounted r = refs_of r.buckets + refs_of r.old_buckets ≡ r.refs

-- A migration is on its way and in order, or there is none and the buckets are in order.
abbrev pub IsOrderly : Registry → Type 0
IsOrderly r =
    ((r.active ≡ true) × Moving r)
    ⊎ ((r.active ≡ false) × (r.old_buckets ≡ []) × IsChained r.buckets)

refs_of-set :
    (bs : Chains) (i : ℕ) (chain : List InternedSet)
    → i < length bs
    → refs_of (set bs i chain) + chain_refs (get_or bs i []) ≡ refs_of bs + chain_refs chain
refs_of-set [] i chain h = absurd (omega arith)
refs_of-set (b ∷ bs) zero chain h = omega arith
refs_of-set (b ∷ bs) (suc i) chain h = omega (arith, refs_of-set bs i chain (omega arith))

refs_of-push :
    (bs : Chains) (s : InternedSet)
    → home s.hash (length bs) < length bs
    → refs_of (push bs s) ≡ refs_of bs + s.refs
refs_of-push bs s inside =
    omega (arith, refs_of-set bs (home s.hash (length bs)) (s ∷ chain_of bs s.hash) inside)

chain_refs-reference :
    (hash : ℕ) (folds : List ℕ) (chain : List InternedSet) (s : InternedSet)
    → find_set hash folds chain ≡ some s
    → chain_refs (reference hash folds chain) ≡ chain_refs chain + 1
unfolding find_set reference
chain_refs-reference hash folds [] s e = cc
chain_refs-reference hash folds (t ∷ chain) s e = elim (Bool-cases (matches hash folds t)) [
  | inl hit ↦ rw hit (omega arith)
  | inr miss ↦
      let later : find_set hash folds chain ≡ some s = rw miss at e in
      rw miss (omega (arith, chain_refs-reference hash folds chain s later))
]

get_or-past : (bs : Chains) (i : ℕ) → length bs ≤ i → get_or bs i [] ≡ []
get_or-past [] i h = refl
get_or-past (b ∷ bs) zero h = absurd (omega arith)
get_or-past (b ∷ bs) (suc i) h = get_or-past bs i (omega arith)

-- A bucket in which a set is found is inside the table.
found_inside :
    (bs : Chains) (hash : ℕ) (folds : List ℕ) (s : InternedSet)
    → lookup_table bs hash folds ≡ some s
    → home hash (length bs) < length bs
unfolding find_set
found_inside bs hash folds s e = elim (Bool-cases (ltb (home hash (length bs)) (length bs))) [
  | inl inside ↦ ground arith
  | inr past ↦
      let empty : chain_of bs hash ≡ [] = get_or-past bs (home hash (length bs)) (ground arith) in
      absurd (let nothing : none ≡ some s = rw empty at e in cc)
]

refs_of-reference_in :
    (bs : Chains) (hash : ℕ) (folds : List ℕ) (s : InternedSet)
    → lookup_table bs hash folds ≡ some s
    → refs_of (reference_in bs hash folds) ≡ refs_of bs + 1
refs_of-reference_in bs hash folds s e = omega (
  arith,
  refs_of-set bs (home hash (length bs)) (reference hash folds (chain_of bs hash))
      (found_inside bs hash folds s e),
  chain_refs-reference hash folds (chain_of bs hash) s e,
)

refs_of-empty : (bs : Chains) → ((i : ℕ) → i < length bs → get_or bs i [] ≡ []) → refs_of bs ≡ 0
refs_of-empty [] empty = refl
refs_of-empty (b ∷ bs) empty =
    let first : chain_refs b ≡ 0 = ap chain_refs (empty 0 (omega arith)) in
    omega (arith, first, refs_of-empty bs λ i h. empty (suc i) (omega arith))

module _ (r : Registry) (hash : ℕ) (folds : List ℕ) (counted : IsCounted r) where
  in_old-IsCounted :
      (o : Option InternedSet)
      → lookup_table r.old_buckets hash folds ≡ o
      → IsCounted (in_old r hash folds o).1
  in_old-IsCounted none e = counted
  in_old-IsCounted (some s) e =
      omega (arith, counted, refs_of-reference_in r.old_buckets hash folds s e)

  in_new-IsCounted :
      (o : Option InternedSet)
      → lookup_table r.buckets hash folds ≡ o
      → IsCounted (in_new r hash folds o).1
  in_new-IsCounted none e = in_old-IsCounted (lookup_table r.old_buckets hash folds) refl
  in_new-IsCounted (some s) e =
      omega (arith, counted, refs_of-reference_in r.buckets hash folds s e)

step_at-IsCounted :
    (r : Registry) (chain : List InternedSet)
    → IsCounted r
    → Moving r
    → r.cursor < length r.old_buckets
    → get_or r.old_buckets r.cursor [] ≡ chain
    → IsCounted (step_at r chain)
step_at-IsCounted r [] counted mov inside e = counted
step_at-IsCounted r (s ∷ chain) counted mov inside e = omega (
  arith,
  counted,
  refs_of-push r.buckets s (home-lt s.hash mov.new.sized),
  refs_of-set r.old_buckets r.cursor chain inside,
  ap chain_refs e,
)

finish-IsCounted :
    (r : Registry) → IsCounted r → Moving r → r.cursor ≡ length r.old_buckets → IsCounted (finish r)
finish-IsCounted r counted mov end =
    let none_left = refs_of-empty r.old_buckets λ i h. mov.behind i (omega (arith, end)) in
    omega (arith, counted)

migrate_steps-IsCounted :
    (steps : ℕ) (r : Registry)
    → IsCounted r
    → Moving r
    → r.active ≡ true
    → IsCounted (migrate_steps steps r)
unfolding migrate_steps
migrate_steps-IsCounted zero r counted mov on =
    elim (Bool-cases (r.cursor == length r.old_buckets)) [
      | inl end ↦
          let ends : migrate_steps zero r ≡ finish r =
            (λ i. if on i && end i then finish r else r) in
          subst IsCounted (sym ends) (finish-IsCounted r counted mov ((==_iff _ _).0 end))
      | inr more ↦
          let stays : migrate_steps zero r ≡ r = (λ i. if on i && more i then finish r else r) in
          subst IsCounted (sym stays) counted
    ]
migrate_steps-IsCounted (suc steps) r counted mov on =
    let first : List InternedSet = get_or r.old_buckets r.cursor [] in
    let rest : Registry = migrate_steps steps (step_at r first) in
    elim (Bool-cases (r.cursor == length r.old_buckets)) [
      | inl end ↦
          let ends : migrate_steps (suc steps) r ≡ finish r =
            (λ i. if not (on i) then r else if end i then finish r else rest) in
          subst IsCounted (sym ends) (finish-IsCounted r counted mov ((==_iff _ _).0 end))
      | inr more ↦
          let goes : migrate_steps (suc steps) r ≡ rest =
            (λ i. if not (on i) then r else if more i then finish r else rest) in
          let inside : r.cursor < length r.old_buckets = let w = mov.within in ground arith in
          subst IsCounted (sym goes) (
            migrate_steps-IsCounted steps (step_at r first)
              (step_at-IsCounted r first counted mov inside refl)
              (step_keeps r mov inside first refl).0 (stepped_active r first ∙ on))
    ]

migrate_steps-idle : (steps : ℕ) (r : Registry) → r.active ≡ false → migrate_steps steps r ≡ r
unfolding migrate_steps
migrate_steps-idle zero r off = rw off refl
migrate_steps-idle (suc steps) r off = rw off refl

-- In a registry in order, the count of references stays the sum of the sets' counts over both tables:
-- when a set is published, when a set is looked up, found or not, and over any number of steps of a
-- migration, also when it ends.
pub registry-IsCounted :
    (r : Registry) (s : InternedSet) (hash : ℕ) (folds : List ℕ) (steps : ℕ)
    → IsOrderly r
    → IsCounted r
    → IsCounted (publish_set r s)
      × IsCounted (lookup r hash folds).1
      × IsCounted (migrate_steps steps r)
registry-IsCounted r s hash folds steps (inl (on, mov)) counted = (
  omega (
    arith,
    counted,
    refs_of-push r.buckets (record s { refs = 1 }) (home-lt s.hash mov.new.sized),
  ),
  in_new-IsCounted r hash folds counted (lookup_table r.buckets hash folds) refl,
  migrate_steps-IsCounted steps r counted mov on,
)
registry-IsCounted r s hash folds steps (inr (off, cleared, chained)) counted = (
  omega (
    arith,
    counted,
    refs_of-push r.buckets (record s { refs = 1 }) (home-lt s.hash chained.sized),
  ),
  in_new-IsCounted r hash folds counted (lookup_table r.buckets hash folds) refl,
  subst IsCounted (sym (migrate_steps-idle steps r off)) counted,
)
