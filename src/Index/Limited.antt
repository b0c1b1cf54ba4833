-- ===== src/Index/Limited.antt =====
-- The answer to `cachetag_purge` when the history is limited (src/vmod_cachetag_purgemap.c).
use libvmod_cachetag.Base.{ℕ, ◌+◌, ◌≤◌, ◌≡◌, refl}
use libvmod_cachetag.Base.{Bool, true, false, ◌⊎◌, Option, none, some, [], ◌∷◌, arith}
use libvmod_cachetag.Base.{◌==◌, Bool-cases, inl, inr}
use libvmod_cachetag.Base.{Result, ok, err, Errno}
use libvmod_cachetag.PurgeMap.Table.{is_live}
use libvmod_cachetag.PurgeMap.Map.{PurgeMap, Mode}
use libvmod_cachetag.PurgeMap.Well.{IsWell}
use libvmod_cachetag.PurgeMap.Grow.{IsReady}
use libvmod_cachetag.PurgeMap.Upsert.{apply_upsert-Upserts}
use libvmod_cachetag.PurgeMap.Prune.Rebuilt.{Prunes}
use libvmod_cachetag.PurgeMap.Prune.Keeps.{PruneAnswer, prune-Prunes}
use libvmod_cachetag.Index.Purge.{
  Journal, Index, Memory, Reply, accepted, log_failed, prune_checkpoint, after_prune,
  keep_or_roll_back, answer, commit, logged,
}
use libvmod_cachetag.Index.Answer.{
  SameHistory, Effect, IsReady-IsWell, at_next, memoed, memoed-OnePurge, memoed-IsWell,
}
use libvmod_cachetag.Index.Accept.{apply_one}

-- A map as it is, or as a prune to the limit has left it.
abbrev pub Pruned : ℕ → PurgeMap → PurgeMap → Type 0
Pruned limit pm pm' = (pm' ≡ pm) ⊎ ((cutoff : ℕ) × Prunes pm limit cutoff pm')

-- The answer to a purge: first the effect that the reply names, on a well-formed map, and then
-- perhaps a prune.
pub record Settles (J : Type 0) (pm : PurgeMap) (fold : ℕ) (mode : Mode) (limit : ℕ) (idx : Index J)
    (reply : Reply) : Type 0 where
  pub pm1 : PurgeMap
  pub pm' : PurgeMap
  pub well : IsWell pm1
  pub effect : Effect pm fold mode pm1 reply
  pub purgemap : idx.purgemap ≡ some pm'
  pub pruned : Pruned limit pm1 pm'

IsWell-memo :
    (pm : PurgeMap) (memo : ℕ) → IsWell pm → memo ≤ pm.seq → IsWell (record pm { memo_seq = memo })
IsWell-memo pm memo well past = record {
  tabled = well.tabled;
  clean = well.clean;
  hard_past = well.hard_past;
  soft_past = well.soft_past;
  hard_floor_past = well.hard_floor_past;
  soft_floor_past = well.soft_floor_past;
  memo_past = past;
}

-- A memo that is set on both sides of a prune.
Pruned-memo :
    (limit memo : ℕ) (pm pm' : PurgeMap)
    → memo ≤ pm.seq
    → Pruned limit pm pm'
    → Pruned limit (record pm { memo_seq = memo }) (record pm' { memo_seq = memo })
Pruned-memo limit memo pm pm' past (inl same) = inl (λ i. record (same i) { memo_seq = memo })
Pruned-memo limit memo pm pm' past (inr (cutoff, p)) = inr (
  cutoff,
  record {
    well = IsWell-memo pm' memo p.well (rw p.same_seq past);
    same_seq = p.same_seq;
    same_memo = refl;
    recent = p.recent;
    sparing = p.sparing;
    bounded = p.bounded;
    fates = p.fates;
    hard = p.hard;
    soft = p.soft;
  },
)

module _ {J : Type 0} (wal : Journal J) where
  -- A rollback gives the old map back.
  rolled_back :
      (limit cutoff : ℕ) (old pm : PurgeMap) (pruned : ℕ) (r : J × Option Errno)
      → Prunes old limit cutoff pm
      → Pruned limit old (keep_or_roll_back old pm pruned r).0
  rolled_back limit cutoff old pm pruned (j, none) p = inr (cutoff, p)
  rolled_back limit cutoff old pm pruned (j, some e) p = elim (Bool-cases (pruned == 0)) [
    | inl none_gone ↦ rw none_gone (inr (cutoff, p))
    | inr some_gone ↦
        rw some_gone (inl (λ i. record old { seq = p.same_seq i; memo_seq = p.same_memo i }))
  ]

  after_prune-Pruned :
      (limit : ℕ) (alloc : Bool) (old : PurgeMap) (j : J) (force : Bool) (r : Result (PurgeMap × ℕ))
      → PruneAnswer old limit alloc r
      → Pruned limit old (after_prune wal old j force r).0
  after_prune-Pruned limit alloc old j force (err e) a = inl refl
  after_prune-Pruned limit alloc old j force (ok (pm, pruned)) (cutoff, p) =
      elim (Bool-cases (wal.enabled j)) [
        | inl on ↦ rw on (rolled_back limit cutoff old pm pruned _ p)
        | inr off ↦ rw off (inr (cutoff, p))
      ]

  prune_checkpoint-Pruned :
      (limit : ℕ) (alloc force : Bool) (old : PurgeMap) (j : J)
      → IsWell old
      → (r : PurgeMap × J × Option Errno) × (prune_checkpoint wal old j limit alloc force ≡ some r)
        × Pruned limit old r.0
  unfolding prune_checkpoint
  prune_checkpoint-Pruned limit alloc force old j well =
      let (r, e, a) = prune-Prunes old limit alloc well in
      (after_prune wal old j force r, rw e refl, after_prune-Pruned limit alloc old j force r a)

  module _ (idx : Index J) (mem : Memory) (pm : PurgeMap) (fold : ℕ) (mode : Mode)
      (well : IsWell pm) (live : is_live fold ≡ true) where
    abbrev pub Settled : Option (Index J × Reply) → Type 0
    Settled o =
        (out : Index J × Reply) × (o ≡ some out)
        × Settles J pm fold mode idx.history_max out.0 out.1

    commit-Settled :
        (pm1 : PurgeMap) (j : J)
        → IsReady pm 1 pm1
        → Settled (commit wal idx mem pm1 j (fold ∷ []) (pm1.seq + 1) mode)
    unfolding commit
    commit-Settled pm1 j ready =
        let (n, tombs, s, memo, hf, sf) = ready.rest in
        let ((pm2, created), applied, up) =
          apply_upsert-Upserts (at_next pm pm1 fold mode well ready) ready.t fold (pm1.seq + 1) mode
            live (omega arith) ready.table (rw n ready.loaded) (rw n ready.room) in
        let (tombs2, s2, memo2, hf2, sf2, n2) = up.rest in
        let set_memo = memoed-IsWell pm pm1 fold mode well ready pm2 up in
        let old_memo = well.memo_past in
        let well2 : IsWell pm2 =
          IsWell-memo (memoed pm pm1 fold mode well ready pm2) pm2.memo_seq set_memo
            (omega (arith, memo2, s2, memo, s, old_memo)) in
        let (r, ended, pruned) =
          prune_checkpoint-Pruned idx.history_max mem.prune_alloc false pm2 j well2 in
        (
          (
            record idx { purgemap = some (record r.0 { memo_seq = pm1.seq + 1 }); journal = r.1 },
            accepted,
          ),
          rw (apply_one _ fold (pm1.seq + 1) mode (pm2, created) applied, ended) refl,
          record {
            pm1 = memoed pm pm1 fold mode well ready pm2;
            pm' = record r.0 { memo_seq = pm1.seq + 1 };
            well = set_memo;
            effect = memoed-OnePurge pm pm1 fold mode well ready pm2 up;
            purgemap = refl;
            pruned = Pruned-memo idx.history_max (pm1.seq + 1) pm2 r.0 (omega (arith, s2)) pruned;
          },
        )

    pub refused :
        (pm1 : PurgeMap) (j : J) (reply : Reply)
        → IsWell pm1
        → Effect pm fold mode pm1 reply
        → Settled (answer wal idx (some pm1) j reply)
    refused pm1 j reply well1 same = (
      (record idx { purgemap = some pm1; journal = j }, reply),
      refl,
      record {
        pm1 = pm1;
        pm' = pm1;
        well = well1;
        effect = same;
        purgemap = refl;
        pruned = inl refl;
      },
    )

    pub ready_same : (pm1 : PurgeMap) → IsReady pm 1 pm1 → SameHistory pm pm1
    ready_same pm1 ready =
        let (n, tombs, s, memo, hf, sf) = ready.rest in (ready.views, s, memo, hf, sf)

    pub logged-Settled :
        (pm1 : PurgeMap) (r : J × Option Errno)
        → IsReady pm 1 pm1
        → Settled (logged wal idx mem pm1 (fold ∷ []) (pm1.seq + 1) mode (λ e. log_failed) r)
    logged-Settled pm1 (j, some e) ready =
        refused pm1 j log_failed (IsReady-IsWell pm 1 pm1 well ready) (ready_same pm1 ready)
    logged-Settled pm1 (j, none) ready = commit-Settled pm1 j ready
