-- ===== src/Tests/Registry.antt =====
-- The registry of fold sets at concrete inputs (src/vmod_cachetag_index.c).
use libvmod_cachetag.Base.{ℕ, zero, suc, ◌≡◌, refl, true, none, some, List, [], ◌∷◌, arith}
use libvmod_cachetag.Base.{get_or, All, inl}
use libvmod_cachetag.PurgeMap.Table.{home}
use libvmod_cachetag.Objects.Interning.Registry.{
  InternedSet, Registry, Chains, find_set, lookup, lookup_table, publish_set, migrate_steps,
}
use libvmod_cachetag.Objects.Interning.Moves.{IsChained, Single}
use libvmod_cachetag.Objects.Interning.Counts.{IsCounted, registry-IsCounted}
use libvmod_cachetag.Objects.Interning.Steps.{
  Moving, Stepped, migrate_steps-Stepped, publish_set-lookup,
}

-- One set, still in the old table of one bucket.
abbrev pair : InternedSet
pair = record { hash = 9; refs = 2; folds = 3 ∷ 5 ∷ [] }

abbrev two_buckets : Chains
two_buckets = [] ∷ [] ∷ []

abbrev one_bucket : Chains
one_bucket = (pair ∷ []) ∷ []

abbrev growing : Registry
growing = record {
  buckets = two_buckets;
  old_buckets = one_bucket;
  cursor = 0;
  generation = 2;
  active = true;
  sets = 1;
  refs = 2;
}

no_chain : (i : ℕ) → get_or two_buckets i [] ≡ []
no_chain zero = refl
no_chain (suc zero) = refl
no_chain (suc (suc i)) = refl

two_buckets-IsChained : IsChained two_buckets
two_buckets-IsChained = record {
  sized = (1, refl);
  placed = λ i. rw (no_chain i) tt;
  single = λ i. rw (no_chain i) tt;
}

in_place : (i : ℕ) → All (λ s. home s.hash 1 ≡ i) (get_or one_bucket i [])
unfolding home
in_place zero = (refl, tt)
in_place (suc i) = tt

once : (i : ℕ) → Single (get_or one_bucket i [])
unfolding find_set
once zero = (refl, tt)
once (suc i) = tt

nothing_new : (hash : ℕ) (folds : List ℕ) → lookup_table two_buckets hash folds ≡ none
unfolding find_set
nothing_new hash folds = rw (no_chain (home hash 2)) refl

growing-Moving : Moving growing
growing-Moving = record {
  new = two_buckets-IsChained;
  old = record { sized = (0, refl); placed = in_place; single = once };
  apart = λ hash folds. inl (nothing_new hash folds);
  behind = λ i lt. absurd (omega arith);
  within = omega arith;
}

migrate_steps-Stepped_example : Stepped growing (migrate_steps 4 growing)
migrate_steps-Stepped_example = migrate_steps-Stepped 4 growing growing-Moving refl

publish_set-lookup_example :
    (lookup (publish_set growing pair) 9 (3 ∷ 5 ∷ [])).0 ≡ some (record pair { refs = 2 })
publish_set-lookup_example = publish_set-lookup growing pair 9 (3 ∷ 5 ∷ []) two_buckets-IsChained

registry-IsCounted_example :
    IsCounted (publish_set growing (record { hash = 4; refs = 0; folds = 7 ∷ 8 ∷ [] }))
    × IsCounted (lookup growing 9 (3 ∷ 5 ∷ [])).1
    × IsCounted (migrate_steps 4 growing)
registry-IsCounted_example =
    registry-IsCounted growing (record { hash = 4; refs = 0; folds = 7 ∷ 8 ∷ [] }) 9 (3 ∷ 5 ∷ []) 4
      (inl (refl, growing-Moving)) refl
