-- ===== src/PurgeMap/Prune/Keeps.antt =====
-- Pruning as a whole, on a well-formed map (src/vmod_cachetag_purgemap.c).
use libvmod_cachetag.Base.{ℕ, ◌-◌, ◌/◌, ◌≤◌, ◌<◌, ◌≡◌, ap, ◌∙◌, refl}
use libvmod_cachetag.Base.{Bool, true, false, not, ◌||◌, Option, none, some, arith}
use libvmod_cachetag.Base.{ltb, leb, ◌==◌, if◌then◌else◌, ==_iff, Bool-cases, ◌⊎◌, inl, inr}
use libvmod_cachetag.Base.{length, ◌+◌, ◌*◌, ◌%◌, ◌^◌, Result, ok, err, einval, enomem, efbig}
use libvmod_cachetag.PurgeMap.Table.{Table}
use libvmod_cachetag.PurgeMap.Table.Assoc.{assoc, IsProbed-Distinct, view-assoc}
use libvmod_cachetag.PurgeMap.Map.{PurgeMap, size_max}
use libvmod_cachetag.PurgeMap.Well.{IsWell, IsLoaded, HasTable, history, hard_part, soft_part}
use libvmod_cachetag.PurgeMap.Prune.{newest_of, count_upto, prune_target, prune_in, prune}
use libvmod_cachetag.PurgeMap.Prune.Select.{HasRank, select_lem, count_upto-tally}
use libvmod_cachetag.PurgeMap.Prune.Scan.{tally}
use libvmod_cachetag.PurgeMap.Prune.Floors.{prune_entries-pruned, length-newest_of, count-kept_of}
use libvmod_cachetag.PurgeMap.Prune.Bounds.{newest_of-bound, HasRank-bound}
use libvmod_cachetag.PurgeMap.Prune.Rebuilt.{
  older, Prunes, unpruned, pruned_map, loop, start, pruned-Prunes,
}

-- What a prune answers: a pruned map, or an error for want of memory.
abbrev pub PruneAnswer : PurgeMap → ℕ → Bool → Result (PurgeMap × ℕ) → Type 0
PruneAnswer pm limit alloc (ok (pm', pruned)) = (cutoff : ℕ) × Prunes pm limit cutoff pm'
PruneAnswer pm limit alloc (err e) = (alloc ≡ false) ⊎ (size_max / 8 < pm.nentry)

prune_target-lt : (limit : ℕ) → 0 < limit → prune_target limit < limit
prune_target-lt limit h = ground arith

-- The target is three quarters of the limit, as a 64-bit product.
prune_target-least : (limit : ℕ) → 0 < limit → limit * 75 % 2 ^ 64 / 100 ≤ prune_target limit
prune_target-least limit h =
    let wrapped : limit * 75 % 2 ^ 64 ≤ limit * 75 = omega arith in ground arith

last_branch {ℓ} :
    {A : Type ℓ} (a b c d : A) (x y z : Bool)
    → x ≡ false
    → y ≡ true
    → z ≡ true
    → (if x then a else if not y then b else if not z then c else d) ≡ d
last_branch a b c d x y z p q r = rw (p, q, r)

module _ (pm : PurgeMap) (t : Table) (limit : ℕ) (alloc : Bool) (well : IsWell pm)
    (table : pm.table ≡ some t) (loaded : IsLoaded pm.nentry t) (limited : 0 < limit)
    (over : limit < pm.nentry) where
  abbrev need : ℕ
  need = pm.nentry - prune_target limit

  past : (g : ℕ) → (hard_part (assoc t g) ≤ pm.seq) × (soft_part (assoc t g) ≤ pm.seq)
  past g =
      let same : history pm.table g ≡ assoc t g =
        ap (λ o. history o g) table ∙ view-assoc t loaded.probed g in
      (rw same at (well.hard_past g), rw same at (well.soft_past g))

  few_older :
      (cutoff : ℕ)
      → HasRank (newest_of t) (need - 1) cutoff
      → older pm.table cutoff + limit * 75 % 2 ^ 64 / 100 < pm.nentry
  few_older cutoff rank =
      let few : tally (λ n. ltb n cutoff) (newest_of t) ≤ need - 1 = rank.below in
      let target = prune_target-least limit limited in
      let at = prune_target-lt limit limited in rw table (omega arith)

  prune_in-Prunes :
      (r : Result (PurgeMap × ℕ)) × (prune_in (some t) pm limit alloc ≡ some r)
      × PruneAnswer pm limit alloc r
  unfolding prune_in
  prune_in-Prunes =
      let target = prune_target-lt limit limited in
      let some_need : (need == 0) ≡ false = ground arith in
      elim (Bool-cases (ltb (size_max / 8) pm.nentry)) [
        | inl many ↦ (err efbig, rw (some_need, many), inr (ground arith))
        | inr few ↦ elim (Bool-cases alloc) [
          | inr oom ↦ (err enomem, rw (some_need, few, oom), inl oom)
          | inl mem ↦
              let values = newest_of t in
              let same : length (newest_of t) ≡ pm.nentry = length-newest_of t ∙ loaded.live in
              let counted : (not (length (newest_of t) == pm.nentry)
                    || ltb (length (newest_of t)) need)
                  ≡ false =
                ground arith in
              let (cutoff, selected, rank) = select_lem (newest_of t) (need - 1) (ground arith) in
              let recent =
                HasRank-bound (newest_of t) (need - 1) cutoff pm.seq (ground arith) rank
                  λ k. newest_of-bound t pm.seq k (IsProbed-Distinct t loaded.probed) past in
              let enough = rank.upto in
              let actual = count_upto-tally cutoff (newest_of t) in
              let part = count-kept_of cutoff t in
              let all = length-newest_of t in
              (
                ok (
                  pruned_map pm t limit cutoff well table loaded recent,
                  (loop pm t limit cutoff well table loaded recent).pruned,
                ),
                rw (some_need, few, mem, counted, selected)
                    (ap some (
                      last_branch (err einval) (err enomem) (err einval)
                        (ok (
                          pruned_map pm t limit cutoff well table loaded recent,
                          (loop pm t limit cutoff well table loaded recent).pruned,
                        ))
                        (ltb (count_upto cutoff (newest_of t)) need
                          || ltb (length (newest_of t)) (count_upto cutoff (newest_of t)))
                        true
                        ((loop pm t limit cutoff well table loaded recent).pruned
                          == count_upto cutoff (newest_of t))
                        (ground arith) refl
                        (let p =
                            prune_entries-pruned cutoff t
                              (start pm t limit cutoff well table loaded recent) in
                          ground arith))),
                (
                  cutoff,
                  pruned-Prunes pm t limit cutoff well table loaded recent (ground arith)
                      (ground arith) (inr (few_older cutoff rank)),
                ),
              )
        ]
      ]

-- A prune of a well-formed map always ends. Unless memory fails or the map is too large for its
-- array, it leaves a well-formed map with the same sequence that holds no more entries than the
-- limit, if there is one. Every fold's history is kept, or is gone and covered by the floors, which
-- have risen at most to a cutoff; the cutoff is 0, or the folds last purged before it and three
-- quarters of the limit are together fewer than the entries.
pub prune-Prunes :
    (pm : PurgeMap) (limit : ℕ) (alloc : Bool)
    → IsWell pm
    → (r : Result (PurgeMap × ℕ)) × (prune pm limit alloc ≡ some r) × PruneAnswer pm limit alloc r
unfolding prune
prune-Prunes pm limit alloc well = elim (Bool-cases (limit == 0 || leb pm.nentry limit)) [
  | inl small ↦ (
    ok (pm, 0),
    rw small,
    (
      0,
      unpruned pm limit well (elim (Bool-cases (limit == 0)) [
        | inl unlimited ↦ inl ((==_iff limit 0).0 unlimited)
        | inr limited ↦ inr (ground arith)
      ]),
    ),
  )
  | inr large ↦ rw large (over_limit pm.table refl well.tabled (ground arith) (ground arith))
]
  where
    over_limit :
        (o : Option Table)
        → pm.table ≡ o
        → HasTable pm.nentry o
        → 0 < limit
        → limit < pm.nentry
        → (r : Result (PurgeMap × ℕ)) × (prune_in o pm limit alloc ≡ some r)
          × PruneAnswer pm limit alloc r
    over_limit none table tabled limited over = absurd (omega (arith, tabled))
    over_limit (some t) table tabled limited over =
        prune_in-Prunes pm t limit alloc well table tabled limited over
