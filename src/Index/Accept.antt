-- ===== src/Index/Accept.antt =====
-- The answer to `cachetag_purge` (src/vmod_cachetag_purgemap.c).
use libvmod_cachetag.Base.{ℕ, ◌+◌, ◌≡◌, refl}
use libvmod_cachetag.Base.{Bool, true, false, Option, none, some, [], ◌∷◌, arith}
use libvmod_cachetag.Base.{◌==◌, Bool-cases, inl, inr}
use libvmod_cachetag.Base.{Result, ok, err, Errno}
use libvmod_cachetag.PurgeMap.Table.{is_live}
use libvmod_cachetag.PurgeMap.Map.{PurgeMap, Mode, size_max, prepare_upsert, apply_upsert}
use libvmod_cachetag.PurgeMap.Probe.{fold_digest}
use libvmod_cachetag.PurgeMap.Well.{IsWell}
use libvmod_cachetag.PurgeMap.Grow.{IsReady, prepare_upsert-IsReady}
use libvmod_cachetag.PurgeMap.Upsert.{apply_upsert-Upserts}
use libvmod_cachetag.Persist.{PurgeKey}
use libvmod_cachetag.Index.Purge.{
  Journal, Index, Memory, Reply, accepted, rejected, log_failed, apply_all, prune_checkpoint,
  checkpoint_locked, after_prune, keep_or_roll_back, persist_key_purge, answer, commit, logged,
  purge_prepared, purge,
}
use libvmod_cachetag.Index.Answer.{
  fold_digest-is_live, SameHistory, Effect, Answers, IsReady-IsWell, at_next, memoed,
  memoed-OnePurge, memoed-IsWell,
}

pub apply_one :
    (pm : PurgeMap) (fold seq : ℕ) (mode : Mode) (r : PurgeMap × Bool)
    → apply_upsert pm fold seq mode ≡ some r
    → apply_all pm (fold ∷ []) seq mode ≡ some r.0
unfolding apply_all
apply_one pm fold seq mode r e = rw e

module _ {J : Type 0} (wal : Journal J) where
  kept_map : (pm : PurgeMap) (r : J × Option Errno) → (keep_or_roll_back pm pm 0 r).0 ≡ pm
  kept_map pm (j, none) = refl
  kept_map pm (j, some e) = refl

  after_prune_none : (pm : PurgeMap) (j : J) → (after_prune wal pm j false (ok (pm, 0))).0 ≡ pm
  after_prune_none pm j = elim (Bool-cases (wal.enabled j)) [
    | inl on ↦ rw on (kept_map pm (checkpoint_locked wal pm j false))
    | inr off ↦ rw off
  ]

  module _ (idx : Index J) (mem : Memory) (pm : PurgeMap) (fold : ℕ) (mode : Mode)
      (well : IsWell pm) (unlimited : idx.history_max ≡ 0) (live : is_live fold ≡ true) where
    abbrev Answered : Option (Index J × Reply) → Type 0
    Answered o = (out : Index J × Reply) × (o ≡ some out) × Answers J pm fold mode out.0 out.1

    commit-Answered :
        (pm1 : PurgeMap) (j : J)
        → IsReady pm 1 pm1
        → Answered (commit wal idx mem pm1 j (fold ∷ []) (pm1.seq + 1) mode)
    unfolding commit prune_checkpoint
    commit-Answered pm1 j ready =
        let (n, tombs, s, memo, hf, sf) = ready.rest in
        let ((pm2, created), applied, up) =
          apply_upsert-Upserts (at_next pm pm1 fold mode well ready) ready.t fold (pm1.seq + 1) mode
            live (omega arith) ready.table (rw n ready.loaded) (rw n ready.room) in
        let kept = after_prune_none pm2 j in
        let final = memoed pm pm1 fold mode well ready pm2 in
        let ended : PurgeMap × J × Option Errno = after_prune wal pm2 j false (ok (pm2, 0)) in
        (
          (
            record idx {
              purgemap = some (record ended.0 { memo_seq = pm1.seq + 1 });
              journal = ended.1;
            },
            accepted,
          ),
          rw (apply_one _ fold (pm1.seq + 1) mode (pm2, created) applied, unlimited) refl,
          record {
            pm' = final;
            purgemap = λ i. some (record (kept i) { memo_seq = pm1.seq + 1 });
            well = memoed-IsWell pm pm1 fold mode well ready pm2 up;
            effect = memoed-OnePurge pm pm1 fold mode well ready pm2 up;
          },
        )

    -- An answer that leaves the history as it was.
    refused :
        (pm1 : PurgeMap) (j : J) (reply : Reply)
        → IsWell pm1
        → Effect pm fold mode pm1 reply
        → Answered (answer wal idx (some pm1) j reply)
    refused pm1 j reply well1 same = (
      (record idx { purgemap = some pm1; journal = j }, reply),
      refl,
      record { pm' = pm1; purgemap = refl; well = well1; effect = same },
    )

    ready_same : (pm1 : PurgeMap) → IsReady pm 1 pm1 → SameHistory pm pm1
    ready_same pm1 ready =
        let (n, tombs, s, memo, hf, sf) = ready.rest in (ready.views, s, memo, hf, sf)

    logged-Answered :
        (pm1 : PurgeMap) (r : J × Option Errno)
        → IsReady pm 1 pm1
        → Answered (logged wal idx mem pm1 (fold ∷ []) (pm1.seq + 1) mode (λ e. log_failed) r)
    logged-Answered pm1 (j, some e) ready =
        refused pm1 j log_failed (IsReady-IsWell pm 1 pm1 well ready) (ready_same pm1 ready)
    logged-Answered pm1 (j, none) ready = commit-Answered pm1 j ready

prepared-Answered :
    {J : Type 0} (wal : Journal J) (idx : Index J) (mem : Memory) (pm : PurgeMap) (key : PurgeKey)
    (mode : Mode)
    → IsWell pm
    → idx.history_max ≡ 0
    → (r : Result PurgeMap) → prepare_upsert pm mem.table_alloc ≡ r
    → (out : Index J × Reply) × (purge_prepared wal idx mem pm key mode r ≡ some out)
      × Answers J pm (fold_digest key.digest_hi key.digest_lo) mode out.0 out.1
prepared-Answered wal idx mem pm key mode well unlimited (err e) eq =
    refused wal idx mem pm (fold_digest key.digest_hi key.digest_lo) mode well unlimited
      (fold_digest-is_live key.digest_hi key.digest_lo) pm idx.journal rejected well
      (λ g. refl, refl, refl, refl, refl)
prepared-Answered wal idx mem pm key mode well unlimited (ok pm1) eq =
    let fold = fold_digest key.digest_hi key.digest_lo in
    let live = fold_digest-is_live key.digest_hi key.digest_lo in
    let ready = prepare_upsert-IsReady pm well mem.table_alloc pm1 eq in
    elim (Bool-cases (pm1.seq == size_max)) [
      | inl last ↦ rw last (
          refused wal idx mem pm fold mode well unlimited live pm1 idx.journal rejected
            (IsReady-IsWell pm 1 pm1 well ready)
            (ready_same wal idx mem pm fold mode well unlimited live pm1 ready))
      | inr more ↦ rw more (
          logged-Answered wal idx mem pm fold mode well unlimited live pm1
            (persist_key_purge wal idx.journal key mode (pm1.seq + 1)) ready)
    ]

-- `cachetag_purge` with a digested key, on an index that has a well-formed map and no history limit,
-- always ends. Its answer is a well-formed map, with exactly the one purge more at the next sequence
-- if the reply is that it was accepted, and with the same history otherwise.
pub purge-Answers :
    {J : Type 0} (wal : Journal J) (idx : Index J) (mem : Memory) (pm : PurgeMap) (key : PurgeKey)
    (mode : Mode)
    → IsWell pm
    → idx.purgemap ≡ some pm
    → idx.history_max ≡ 0
    → (out : Index J × Reply) × (purge wal idx mem (ok key) mode ≡ some out)
      × Answers J pm (fold_digest key.digest_hi key.digest_lo) mode out.0 out.1
unfolding purge
purge-Answers wal idx mem pm key mode well table unlimited = rw table (
    prepared-Answered wal idx mem pm key mode well unlimited (prepare_upsert pm mem.table_alloc)
      refl)
