-- ===== src/Objects/Interning/Registry.antt =====
-- The registry of shared fold sets: chains in a table of buckets, which grows by moving one set at a
-- time from the old buckets to the new ones (src/vmod_cachetag_index.c). The table of buckets is NULL
-- when it has none. The counts of hits, misses and bytes, and the list of what is to be freed, are
-- left out.
use libvmod_cachetag.Base.{ℕ, zero, suc, ◌+◌, ◌*◌, ◌/◌, ◌-◌, bit_and}
use libvmod_cachetag.Base.{Bool, true, false, not, ◌&&◌, ◌||◌, Option, none, some, List, [], ◌∷◌}
use libvmod_cachetag.Base.{ltb, leb, ◌==◌, if◌then◌else◌, length, get_or, set, replicate}
use libvmod_cachetag.Base.{Result, ok, err, einval, estale}
use libvmod_cachetag.PurgeMap.Table.{home}
use libvmod_cachetag.PurgeMap.Map.{size_max}

pub record InternedSet : Type 0 where
  pub hash : ℕ
  pub refs : ℕ
  pub folds : List ℕ

abbrev pub Chains : Type 0
Chains = List (List InternedSet)

pub record Registry : Type 0 where
  pub buckets : Chains
  pub old_buckets : Chains
  pub cursor : ℕ
  pub generation : ℕ
  pub active : Bool
  pub sets : ℕ
  pub refs : ℕ

-- `memcmp` on the folds
abbrev pub same_folds : List ℕ → List ℕ → Bool
same_folds [] [] = true
same_folds [] (y ∷ ys) = false
same_folds (x ∷ xs) [] = false
same_folds (x ∷ xs) (y ∷ ys) = x == y && same_folds xs ys

abbrev pub matches : ℕ → List ℕ → InternedSet → Bool
matches hash folds s =
    s.hash == hash && (length s.folds == length folds && same_folds s.folds folds)

unfoldable pub find_set : ℕ → List ℕ → List InternedSet → Option InternedSet
find_set hash folds [] = none
find_set hash folds (s ∷ chain) = if matches hash folds s then some s else find_set hash folds chain

abbrev pub chain_of : Chains → ℕ → List InternedSet
chain_of buckets hash = get_or buckets (home hash (length buckets)) []

abbrev pub lookup_table : Chains → ℕ → List ℕ → Option InternedSet
lookup_table buckets hash folds = find_set hash folds (chain_of buckets hash)

-- The set of the folds, in the new buckets or else in the old ones: the search of
-- `cachetag_intern_lookup_locked`.
abbrev pub or_old : Option InternedSet → Option InternedSet → Option InternedSet
or_old (some s) old = some s
or_old none old = old

abbrev pub search_set : Registry → ℕ → List ℕ → Option InternedSet
search_set r hash folds =
    or_old (lookup_table r.buckets hash folds) (lookup_table r.old_buckets hash folds)

abbrev pub referenced : InternedSet → InternedSet
referenced s = record s { refs = s.refs + 1 }

-- `set->refs++`, in the chain that holds the set
unfoldable pub reference : ℕ → List ℕ → List InternedSet → List InternedSet
reference hash folds [] = []
reference hash folds (s ∷ chain) =
    if matches hash folds s then referenced s ∷ chain else s ∷ reference hash folds chain

abbrev pub reference_in : Chains → ℕ → List ℕ → Chains
reference_in buckets hash folds =
    set buckets (home hash (length buckets)) (reference hash folds (chain_of buckets hash))

abbrev pub in_old : Registry → ℕ → List ℕ → Option InternedSet → Option InternedSet × Registry
in_old r hash folds none = (none, r)
in_old r hash folds (some s) = (
  some (referenced s),
  record r { old_buckets = reference_in r.old_buckets hash folds; refs = r.refs + 1 },
)

abbrev pub in_new : Registry → ℕ → List ℕ → Option InternedSet → Option InternedSet × Registry
in_new r hash folds none = in_old r hash folds (lookup_table r.old_buckets hash folds)
in_new r hash folds (some s) = (
  some (referenced s),
  record r { buckets = reference_in r.buckets hash folds; refs = r.refs + 1 },
)

-- `cachetag_intern_lookup_locked`: a set that is found is referenced once more.
abbrev pub lookup : Registry → ℕ → List ℕ → Option InternedSet × Registry
lookup r hash folds = in_new r hash folds (lookup_table r.buckets hash folds)

abbrev pub push : Chains → InternedSet → Chains
push buckets s = set buckets (home s.hash (length buckets)) (s ∷ chain_of buckets s.hash)

-- The end of a migration.
abbrev pub finish : Registry → Registry
finish r = record r { old_buckets = []; cursor = 0; active = false }

-- One step at an old bucket: the bucket is done, or its first set moves.
abbrev pub step_at : Registry → List InternedSet → Registry
step_at r [] = record r { cursor = r.cursor + 1 }
step_at r (s ∷ chain) = record r {
  buckets = push r.buckets s;
  old_buckets = set r.old_buckets r.cursor chain;
}

-- The loop of `cachetag_intern_migrate_locked`, and the test behind it.
unfoldable pub migrate_steps : ℕ → Registry → Registry
migrate_steps zero r = if r.active && r.cursor == length r.old_buckets then finish r else r
migrate_steps (suc steps) r =
    if not r.active
    then r
    else if r.cursor == length r.old_buckets
    then finish r
    else migrate_steps steps (step_at r (get_or r.old_buckets r.cursor []))

-- `cachetag_intern_publish_locked`: a new set comes with one reference.
abbrev pub publish_set : Registry → InternedSet → Registry
publish_set r s = record r {
  buckets = push r.buckets (record s { refs = 1 });
  sets = r.sets + 1;
  refs = r.refs + 1;
}

-- TAG_INTERN_INITIAL_BUCKETS
abbrev pub initial_buckets : ℕ
initial_buckets = 64

-- The number of buckets to allocate first (EAGAIN), if any. `initial` is a setting of the tests, 0
-- for none.
abbrev pub prepare_set : Registry → ℕ → Option ℕ
prepare_set r initial =
    if length r.buckets == 0
    then some (if initial == 0 then initial_buckets else initial)
    else if leb (r.sets + 1) (length r.buckets) || r.active
    then none
    else if ltb (size_max / 2) (length r.buckets) || ltb (size_max / 8) (length r.buckets * 2)
    then none
    else some (length r.buckets * 2)

-- `alloc` says whether there is a table to publish.
abbrev pub publish_table : Registry → Bool → ℕ → ℕ → ℕ → Result Registry
publish_table r alloc nbuckets generation initial =
    if not alloc
      || (nbuckets == 0
          || (not (bit_and nbuckets (nbuckets - 1) == 0)
              || (r.active || not (generation == r.generation))))
    then err einval
    else if length r.buckets == 0
    then (if not (nbuckets == (if initial == 0 then initial_buckets else initial))
        then err estale
        else ok (record r { buckets = replicate nbuckets []; generation = r.generation + 1 }))
    else if not (nbuckets == length r.buckets * 2) || leb (r.sets + 1) (length r.buckets)
    then err estale
    else ok (record r {
      buckets = replicate nbuckets [];
      old_buckets = r.buckets;
      cursor = 0;
      active = true;
      generation = r.generation + 1;
    })
