-- ===== src/PurgeMap/Prune/Floors.antt =====
-- The last loop of `prune_locked`: which entries go to the floors (src/vmod_cachetag_purgemap.c).
use libvmod_cachetag.Base.{ℕ, ◌+◌, ◌≤◌, ◌≡◌, ap, ◌∙◌, refl, sym}
use libvmod_cachetag.Base.{Bool, true, false, not, ◌&&◌, Option, none, List, [], ◌∷◌, arith}
use libvmod_cachetag.Base.{ltb, leb, ◌==◌, if◌then◌else◌, ==_iff, Bool-cases, ◌⊎◌, inl, inr}
use libvmod_cachetag.Base.{length}
use libvmod_cachetag.PurgeMap.Table.{Entry, Table, is_live, table_insert_existing}
use libvmod_cachetag.PurgeMap.Table.View.{count}
use libvmod_cachetag.PurgeMap.Table.Assoc.{assoc, Distinct}
use libvmod_cachetag.PurgeMap.Map.{insert_live}
use libvmod_cachetag.PurgeMap.Well.{hard_part, soft_part}
use libvmod_cachetag.PurgeMap.Prune.{
  entry_newest, newest_of, count_upto, Pruning, prune_entry, prune_entries,
}

-- An entry that is live and newer than the cutoff.
abbrev pub stays : ℕ → Entry → Bool
stays cutoff e = is_live e.fold && not (leb (entry_newest e) cutoff)

unfoldable pub kept_of : ℕ → List Entry → List Entry
kept_of cutoff [] = []
kept_of cutoff (e ∷ es) = if stays cutoff e then e ∷ kept_of cutoff es else kept_of cutoff es

-- The rounds of the loop, by what they do to the entry.
module _ (cutoff : ℕ) (e : Entry) (es : List Entry) (p : Pruning) where
  abbrev to_floors : Pruning
  to_floors = record p {
    hard_floor = if ltb p.hard_floor e.hard_seq then e.hard_seq else p.hard_floor;
    soft_floor = if ltb p.soft_floor e.soft_seq then e.soft_seq else p.soft_floor;
    pruned = p.pruned + 1;
  }

  abbrev to_table : Pruning
  to_table = record p { replacement = table_insert_existing p.replacement e }

  dead_round : is_live e.fold ≡ false → prune_entries cutoff (e ∷ es) p ≡ prune_entries cutoff es p
  unfolding prune_entries
  dead_round h =
      ap (λ (b : Bool). prune_entries cutoff es (if b then prune_entry cutoff e p else p)) h

  old_round :
      is_live e.fold ≡ true
      → leb (entry_newest e) cutoff ≡ true
      → prune_entries cutoff (e ∷ es) p ≡ prune_entries cutoff es to_floors
  unfolding prune_entries
  old_round h k =
      (λ i. prune_entries cutoff es (if h i then (if k i then to_floors else to_table) else p))

  new_round :
      is_live e.fold ≡ true
      → leb (entry_newest e) cutoff ≡ false
      → prune_entries cutoff (e ∷ es) p ≡ prune_entries cutoff es to_table
  unfolding prune_entries
  new_round h k =
      (λ i. prune_entries cutoff es (if h i then (if k i then to_floors else to_table) else p))

no_round : (cutoff : ℕ) (p : Pruning) → prune_entries cutoff [] p ≡ p
unfolding prune_entries
no_round cutoff p = refl

insert_live-live :
    (e : Entry) (es : List Entry) (t : Table)
    → is_live e.fold ≡ true
    → insert_live (e ∷ es) t ≡ insert_live es (table_insert_existing t e)
unfolding insert_live
insert_live-live e es t h =
    ap (λ (b : Bool). insert_live es (if b then table_insert_existing t e else t)) h

insert_live-none : (t : Table) → insert_live [] t ≡ t
unfolding insert_live
insert_live-none t = refl

pub prune_entries-replacement :
    (cutoff : ℕ) (es : List Entry) (p : Pruning)
    → (prune_entries cutoff es p).replacement ≡ insert_live (kept_of cutoff es) p.replacement
unfolding kept_of
prune_entries-replacement cutoff [] p = rw (no_round cutoff p, insert_live-none p.replacement)
prune_entries-replacement cutoff (e ∷ es) p = elim (Bool-cases (is_live e.fold)) [
  | inr dead ↦ rw (dead_round cutoff e es p dead, prune_entries-replacement cutoff es p, dead)
  | inl live ↦ elim (Bool-cases (leb (entry_newest e) cutoff)) [
    | inl old ↦ rw (
      old_round cutoff e es p live old,
      prune_entries-replacement cutoff es (to_floors cutoff e es p),
      live,
      old,
    )
    | inr new ↦
        rw
          (
            new_round cutoff e es p live new,
            prune_entries-replacement cutoff es (to_table cutoff e es p),
            live,
            new,
          )
          (sym (insert_live-live e (kept_of cutoff es) p.replacement live))
  ]
]

pub prune_entries-pruned :
    (cutoff : ℕ) (es : List Entry) (p : Pruning)
    → (prune_entries cutoff es p).pruned ≡ p.pruned + count_upto cutoff (newest_of es)
unfolding newest_of count_upto
prune_entries-pruned cutoff [] p = rw (no_round cutoff p) (omega arith)
prune_entries-pruned cutoff (e ∷ es) p = elim (Bool-cases (is_live e.fold)) [
  | inr dead ↦ rw (dead_round cutoff e es p dead, dead) (prune_entries-pruned cutoff es p)
  | inl live ↦ elim (Bool-cases (leb (entry_newest e) cutoff)) [
    | inl old ↦
        rw
          (
            old_round cutoff e es p live old,
            prune_entries-pruned cutoff es (to_floors cutoff e es p),
            live,
            old,
          )
          (omega arith)
    | inr new ↦ rw (
      new_round cutoff e es p live new,
      prune_entries-pruned cutoff es (to_table cutoff e es p),
      live,
      new,
    )
  ]
]

-- The counts of the two loops agree.
pub length-newest_of : (es : List Entry) → length (newest_of es) ≡ count is_live es
unfolding newest_of count
length-newest_of [] = refl
length-newest_of (e ∷ es) = ground (arith, length-newest_of es)

pub count-kept_of :
    (cutoff : ℕ) (es : List Entry)
    → count is_live (kept_of cutoff es) + count_upto cutoff (newest_of es) ≡ count is_live es
unfolding kept_of newest_of count_upto count
count-kept_of cutoff [] = refl
count-kept_of cutoff (e ∷ es) = ground (arith, count-kept_of cutoff es)

-- The floors after the loop: they have risen, at most to the cutoff or the old floor, and at least
-- to what the pruned entries recorded.
pub record Raised (old new cutoff : ℕ) : Type 0 where
  pub grows : old ≤ new
  pub bound : (new ≤ old) ⊎ (new ≤ cutoff)

raise_floor : ℕ → ℕ → ℕ
raise_floor floor seq = if ltb floor seq then seq else floor

module _ (cutoff : ℕ) where
  raise_floor-Raised :
      (floor seq new : ℕ)
      → seq ≤ cutoff
      → Raised (raise_floor floor seq) new cutoff
      → Raised floor new cutoff
  unfolding raise_floor
  raise_floor-Raised floor seq new h r = record {
    grows = let g = r.grows in ground arith;
    bound = elim r.bound [
      | inr b ↦ inr b
      | inl b ↦ elim (Bool-cases (ltb floor seq)) [
        | inl up ↦ inr (ground arith)
        | inr same ↦ inl (ground arith)
      ]
    ];
  }

  pub prune_entries-hard :
      (es : List Entry) (p : Pruning)
      → Raised p.hard_floor (prune_entries cutoff es p).hard_floor cutoff
  unfolding raise_floor
  prune_entries-hard [] p =
      rw (no_round cutoff p) (record { grows = omega arith; bound = inl (omega arith) })
  prune_entries-hard (e ∷ es) p = elim (Bool-cases (is_live e.fold)) [
    | inr dead ↦ rw (dead_round cutoff e es p dead) (prune_entries-hard es p)
    | inl live ↦ elim (Bool-cases (leb (entry_newest e) cutoff)) [
      | inr new ↦
          rw (new_round cutoff e es p live new) (prune_entries-hard es (to_table cutoff e es p))
      | inl old ↦ rw (old_round cutoff e es p live old) (
          raise_floor-Raised p.hard_floor e.hard_seq _ (ground arith)
            (prune_entries-hard es (to_floors cutoff e es p)))
    ]
  ]

  pub prune_entries-soft :
      (es : List Entry) (p : Pruning)
      → Raised p.soft_floor (prune_entries cutoff es p).soft_floor cutoff
  unfolding raise_floor
  prune_entries-soft [] p =
      rw (no_round cutoff p) (record { grows = omega arith; bound = inl (omega arith) })
  prune_entries-soft (e ∷ es) p = elim (Bool-cases (is_live e.fold)) [
    | inr dead ↦ rw (dead_round cutoff e es p dead) (prune_entries-soft es p)
    | inl live ↦ elim (Bool-cases (leb (entry_newest e) cutoff)) [
      | inr new ↦
          rw (new_round cutoff e es p live new) (prune_entries-soft es (to_table cutoff e es p))
      | inl old ↦ rw (old_round cutoff e es p live old) (
          raise_floor-Raised p.soft_floor e.soft_seq _ (ground arith)
            (prune_entries-soft es (to_floors cutoff e es p)))
    ]
  ]

-- What the loop makes of a fold's history: it is kept, or it is gone to the floors.
abbrev pub KeptOrGone : ℕ → Option (ℕ × ℕ) → Option (ℕ × ℕ) → ℕ → ℕ → Type 0
KeptOrGone cutoff old new hard_floor soft_floor =
    (new ≡ old)
    ⊎ ((new ≡ none)
        × (hard_part old ≤ hard_floor)
        × (soft_part old ≤ soft_floor)
        × (hard_part old ≤ cutoff)
        × (soft_part old ≤ cutoff))

none_kept :
    {cutoff : ℕ} {old new : Option (ℕ × ℕ)} {h s : ℕ}
    → KeptOrGone cutoff old new h s
    → old ≡ none
    → new ≡ none
none_kept (inl e) o = e ∙ o
none_kept (inr gone) o = gone.0

module _ (cutoff g : ℕ) where
  abbrev Result : List Entry → Pruning → Type 0
  Result es p =
      KeptOrGone cutoff (assoc es g) (assoc (kept_of cutoff es) g)
        (prune_entries cutoff es p).hard_floor (prune_entries cutoff es p).soft_floor

  -- An entry that is pruned.
  old_entry :
      (e : Entry) (es : List Entry) (p : Pruning)
      → is_live e.fold ≡ true
      → leb (entry_newest e) cutoff ≡ true
      → (is_live e.fold ≡ true → assoc es e.fold ≡ none)
      → Result es (to_floors cutoff e es p)
      → Result (e ∷ es) p
  unfolding assoc kept_of
  old_entry e es p live old alone rest =
      let hard = (prune_entries-hard cutoff es (to_floors cutoff e es p)).grows in
      let soft = (prune_entries-soft cutoff es (to_floors cutoff e es p)).grows in
      rw (old_round cutoff e es p live old, live, old)
        (elim (Bool-cases (e.fold == g)) [
          | inr other ↦ rw other rest
          | inl this ↦
              let gone : assoc (kept_of cutoff es) g ≡ none =
                none_kept rest (ap (assoc es) (sym ((==_iff e.fold g).0 this)) ∙ alone live) in
              rw this (inr (gone, ground arith, ground arith, ground arith, ground arith))
        ])

  pub prune_entries-KeptOrGone : (es : List Entry) (p : Pruning) → Distinct es → Result es p
  unfolding assoc kept_of
  prune_entries-KeptOrGone [] p distinct = inl refl
  prune_entries-KeptOrGone (e ∷ es) p (alone, distinct) = elim (Bool-cases (is_live e.fold)) [
    | inr dead ↦ rw (dead_round cutoff e es p dead, dead) (prune_entries-KeptOrGone es p distinct)
    | inl live ↦ elim (Bool-cases (leb (entry_newest e) cutoff)) [
      | inl old ↦
          old_entry e es p live old alone
            (prune_entries-KeptOrGone es (to_floors cutoff e es p) distinct)
      | inr new ↦
          let rest = prune_entries-KeptOrGone es (to_table cutoff e es p) distinct in
          rw (new_round cutoff e es p live new, live, new)
            (elim (Bool-cases (e.fold == g)) [
              | inr other ↦ rw (live, other) rest
              | inl this ↦ inl (rw (live, this))
            ])
    ]
  ]

-- The survivors have distinct folds again.
pub kept_of-Distinct :
    (cutoff : ℕ) (es : List Entry) (p : Pruning) → Distinct es → Distinct (kept_of cutoff es)
unfolding kept_of
kept_of-Distinct cutoff [] p distinct = tt
kept_of-Distinct cutoff (e ∷ es) p (alone, distinct) = elim (Bool-cases (stays cutoff e)) [
  | inr out ↦ rw out (kept_of-Distinct cutoff es p distinct)
  | inl in_table ↦ rw in_table (
    λ live. none_kept (prune_entries-KeptOrGone cutoff e.fold es p distinct) (alone live),
    kept_of-Distinct cutoff es p distinct,
  )
]
