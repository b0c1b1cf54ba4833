-- ===== src/Objects/Interning/Steps.antt =====
-- A migration of the registry keeps every set where it is found (src/vmod_cachetag_index.c).
use libvmod_cachetag.Base.{ℕ, zero, suc, ◌+◌, ◌<◌, ◌≤◌, ◌≡◌, ap, ◌∙◌, refl, sym}
use libvmod_cachetag.Base.{Bool, true, false, not, ◌&&◌, Option, none, some, List, [], ◌∷◌, arith}
use libvmod_cachetag.Base.{◌==◌, if◌then◌else◌, ==_iff, Bool-cases, ◌⊎◌, inl, inr}
use libvmod_cachetag.Base.{length, get_or, length-set, get_or-set_ne}
use mathlib.Core.Path.{subst}
use libvmod_cachetag.PurgeMap.Table.{home}
use libvmod_cachetag.PurgeMap.Table.Walk.{home-lt}
use libvmod_cachetag.Objects.Interning.Registry.{
  InternedSet, Registry, matches, find_set, lookup_table, or_old, search_set, referenced, in_old,
  in_new, lookup, finish, step_at, migrate_steps, publish_set,
}
use libvmod_cachetag.Objects.Interning.Moves.{
  IsChained, matches_eq, lookup-push, push-IsChained, lookup-first, lookup-pop, pop-IsChained,
}

-- A migration on its way: both tables of chains are in order and share no set, and the buckets before
-- the cursor are empty.
pub record Moving (r : Registry) : Type 0 where
  pub new : IsChained r.buckets
  pub old : IsChained r.old_buckets
  pub apart :
      (hash : ℕ) (folds : List ℕ)
      → (lookup_table r.buckets hash folds ≡ none) ⊎ (lookup_table r.old_buckets hash folds ≡ none)
  pub behind : (i : ℕ) → i < r.cursor → get_or r.old_buckets i [] ≡ []
  pub within : r.cursor ≤ length r.old_buckets

moved_found :
    (hit : Bool) (s : InternedSet) (a b : Option InternedSet)
    → (hit ≡ true → a ≡ none)
    → (hit ≡ true → b ≡ some s)
    → or_old (if hit then some s else a) (if hit then none else b) ≡ or_old a b
moved_found true s a b h k = rw (h refl, k refl) refl
moved_found false s a b h k = refl

moved_apart :
    (hit : Bool) (s : InternedSet) (a b : Option InternedSet)
    → (a ≡ none) ⊎ (b ≡ none)
    → ((if hit then some s else a) ≡ none) ⊎ ((if hit then none else b) ≡ none)
moved_apart true s a b h = inr refl
moved_apart false s a b h = h

new_none :
    (a b : Option InternedSet) (s : InternedSet) → (a ≡ none) ⊎ (b ≡ none) → b ≡ some s → a ≡ none
new_none a b s (inl e) h = e
new_none a b s (inr e) h = cc

module _ (r : Registry) (mov : Moving r) (inside : r.cursor < length r.old_buckets) where
  -- An empty bucket is passed over.
  passed : get_or r.old_buckets r.cursor [] ≡ [] → Moving (record r { cursor = r.cursor + 1 })
  passed empty = record {
    new = mov.new;
    old = mov.old;
    apart = mov.apart;
    behind = λ i lt. elim (Bool-cases (i == r.cursor)) [
      | inl last ↦ ap (λ k. get_or r.old_buckets k []) ((==_iff i r.cursor).0 last) ∙ empty
      | inr before ↦ mov.behind i (ground arith)
    ];
    within = omega arith;
  }

  -- The first set of a bucket moves.
  module _ (s : InternedSet) (chain : List InternedSet)
      (first : get_or r.old_buckets r.cursor [] ≡ s ∷ chain) where
    held :
        (hash : ℕ) (folds : List ℕ)
        → matches hash folds s ≡ true
        → lookup_table r.old_buckets hash folds ≡ some s
    held hash folds hit =
        let (h, f) = matches_eq hash folds s hit in
        (λ i. lookup_table r.old_buckets (sym h i) (sym f i))
        ∙ lookup-first r.old_buckets mov.old r.cursor s chain inside first

    unheld :
        (hash : ℕ) (folds : List ℕ)
        → matches hash folds s ≡ true
        → lookup_table r.buckets hash folds ≡ none
    unheld hash folds hit = new_none _ _ s (mov.apart hash folds) (held hash folds hit)

    search-step :
        (hash : ℕ) (folds : List ℕ)
        → search_set (step_at r (s ∷ chain)) hash folds ≡ search_set r hash folds
    search-step hash folds =
        (λ i.
          or_old (lookup-push r.buckets mov.new s hash folds i)
            (lookup-pop r.old_buckets mov.old r.cursor s chain inside first hash folds i))
        ∙ moved_found (matches hash folds s) s (lookup_table r.buckets hash folds)
            (lookup_table r.old_buckets hash folds) (unheld hash folds) (held hash folds)

    step-Moving : Moving (step_at r (s ∷ chain))
    step-Moving = record {
      new = push-IsChained r.buckets mov.new s (
          new_none _ _ s (mov.apart s.hash s.folds)
            (lookup-first r.old_buckets mov.old r.cursor s chain inside first));
      old = pop-IsChained r.old_buckets mov.old r.cursor s chain inside first;
      apart = λ hash folds.
          rw
            (
              lookup-push r.buckets mov.new s hash folds,
              lookup-pop r.old_buckets mov.old r.cursor s chain inside first hash folds,
            )
            (moved_apart (matches hash folds s) s _ _ (mov.apart hash folds));
      behind = λ i lt.
          get_or-set_ne r.old_buckets r.cursor i chain [] (λ e. omega (arith, e)) ∙ mov.behind i lt;
      within = rw (length-set r.old_buckets r.cursor chain) mov.within;
    }

  -- A step keeps what is found.
  pub step_keeps :
      (chain : List InternedSet)
      → get_or r.old_buckets r.cursor [] ≡ chain
      → Moving (step_at r chain)
        × ((hash : ℕ) (folds : List ℕ)
            → search_set (step_at r chain) hash folds ≡ search_set r hash folds)
  step_keeps [] e = (passed e, λ hash folds. refl)
  step_keeps (s ∷ chain) e = (step-Moving s chain e, search-step s chain e)

-- Behind the last bucket no set is left.
search-finish :
    (r : Registry)
    → Moving r
    → r.cursor ≡ length r.old_buckets
    → (hash : ℕ) (folds : List ℕ) → search_set (finish r) hash folds ≡ search_set r hash folds
unfolding find_set
search-finish r mov end hash folds =
    let at_home = home-lt hash mov.old.sized in
    let empty = mov.behind (home hash (length r.old_buckets)) (omega arith) in
    let nothing : lookup_table r.old_buckets hash folds ≡ none = rw empty refl in
    ap (λ o. or_old (lookup_table r.buckets hash folds) o) (sym nothing)

-- What a batch of steps leaves: the same sets found, in a migration on its way or ended.
pub record Stepped (r r' : Registry) : Type 0 where
  pub found : (hash : ℕ) (folds : List ℕ) → search_set r' hash folds ≡ search_set r hash folds
  pub after : Moving r' ⊎ ((r'.active ≡ false) × (r'.old_buckets ≡ []) × IsChained r'.buckets)

finish-Stepped : (r : Registry) → Moving r → r.cursor ≡ length r.old_buckets → Stepped r (finish r)
finish-Stepped r mov end = record {
  found = search-finish r mov end;
  after = inr (refl, refl, mov.new);
}

pub stepped_active : (r : Registry) (chain : List InternedSet) → (step_at r chain).active ≡ r.active
stepped_active r [] = refl
stepped_active r (s ∷ chain) = refl

-- While a migration of the registry is on its way, any number of its steps leaves every set where a
-- lookup searches for it, with the migration on its way or ended.
pub migrate_steps-Stepped :
    (steps : ℕ) (r : Registry) → Moving r → r.active ≡ true → Stepped r (migrate_steps steps r)
unfolding migrate_steps
migrate_steps-Stepped zero r mov on = elim (Bool-cases (r.cursor == length r.old_buckets)) [
  | inl end ↦
      let ends : migrate_steps zero r ≡ finish r = (λ i. if on i && end i then finish r else r) in
      subst (Stepped r) (sym ends) (finish-Stepped r mov ((==_iff _ _).0 end))
  | inr more ↦
      let stays : migrate_steps zero r ≡ r = (λ i. if on i && more i then finish r else r) in
      subst (Stepped r) (sym stays) (record { found = λ hash folds. refl; after = inl mov })
]
migrate_steps-Stepped (suc steps) r mov on =
    let first : List InternedSet = get_or r.old_buckets r.cursor [] in
    let rest : Registry = migrate_steps steps (step_at r first) in
    elim (Bool-cases (r.cursor == length r.old_buckets)) [
      | inl end ↦
          let ends : migrate_steps (suc steps) r ≡ finish r =
            (λ i. if not (on i) then r else if end i then finish r else rest) in
          subst (Stepped r) (sym ends) (finish-Stepped r mov ((==_iff _ _).0 end))
      | inr more ↦
          let goes : migrate_steps (suc steps) r ≡ rest =
            (λ i. if not (on i) then r else if more i then finish r else rest) in
          let (next, same) = step_keeps r mov (let w = mov.within in ground arith) first refl in
          let later =
            migrate_steps-Stepped steps (step_at r first) next (stepped_active r first ∙ on) in
          subst (Stepped r) (sym goes) (record {
            found = λ hash folds. later.found hash folds ∙ same hash folds;
            after = later.after;
          })
    ]

-- A set with one more reference, if there is a set.
abbrev pub referenced_one : Option InternedSet → Option InternedSet
referenced_one none = none
referenced_one (some s) = some (referenced s)

lookup_old :
    (r : Registry) (hash : ℕ) (folds : List ℕ) (o : Option InternedSet)
    → (in_old r hash folds o).0 ≡ referenced_one o
lookup_old r hash folds none = refl
lookup_old r hash folds (some s) = refl

lookup_new :
    (r : Registry) (hash : ℕ) (folds : List ℕ) (o : Option InternedSet)
    → (in_new r hash folds o).0 ≡ referenced_one (or_old o (lookup_table r.old_buckets hash folds))
lookup_new r hash folds none = lookup_old r hash folds (lookup_table r.old_buckets hash folds)
lookup_new r hash folds (some s) = refl

search_set-publish_set :
    (r : Registry) (s : InternedSet) (hash : ℕ) (folds : List ℕ)
    → IsChained r.buckets
    → search_set (publish_set r s) hash folds
      ≡ (if matches hash folds s then some (record s { refs = 1 }) else search_set r hash folds)
search_set-publish_set r s hash folds chained =
    ap (λ o. or_old o (lookup_table r.old_buckets hash folds))
      (lookup-push r.buckets chained (record s { refs = 1 }) hash folds)
    ∙ in_front (matches hash folds s)
  where
    in_front :
        (hit : Bool)
        → or_old
            (if hit then some (record s { refs = 1 }) else lookup_table r.buckets hash folds)
            (lookup_table r.old_buckets hash folds)
          ≡ (if hit then some (record s { refs = 1 }) else search_set r hash folds)
    in_front true = refl
    in_front false = refl

-- A lookup after the publication of a set yields that set by its hash and folds, with two references:
-- the publisher's and its own. Every other lookup yields what it did before.
pub publish_set-lookup :
    (r : Registry) (s : InternedSet) (hash : ℕ) (folds : List ℕ)
    → IsChained r.buckets
    → (lookup (publish_set r s) hash folds).0
      ≡ (if matches hash folds s then some (record s { refs = 2 }) else (lookup r hash folds).0)
publish_set-lookup r s hash folds chained =
    lookup_new (publish_set r s) hash folds (lookup_table (publish_set r s).buckets hash folds)
    ∙ ap referenced_one (search_set-publish_set r s hash folds chained)
    ∙ yielded (matches hash folds s)
    ∙ ap (λ o. if matches hash folds s then some (record s { refs = 2 }) else o)
        (sym (lookup_new r hash folds (lookup_table r.buckets hash folds)))
  where
    yielded :
        (hit : Bool)
        → referenced_one (if hit then some (record s { refs = 1 }) else search_set r hash folds)
          ≡ (if hit then some (record s { refs = 2 }) else referenced_one (search_set r hash folds))
    yielded true = refl
    yielded false = refl
