-- ===== src/Index/Limits.antt =====
-- A purge on an index with any limit of its history, as a whole (src/vmod_cachetag_purgemap.c).
use libvmod_cachetag.Base.{ℕ, ◌+◌, ◌≤◌, ◌≡◌, ap, ◌∙◌, refl, sym}
use libvmod_cachetag.Base.{true, some, List, arith}
use libvmod_cachetag.Base.{◌==◌, Bool-cases, inl, inr, any}
use libvmod_cachetag.Base.{Result, ok, err}
use mathlib.Core.Path.{subst}
use libvmod_cachetag.PurgeMap.Map.{PurgeMap, Mode, hard, size_max, prepare_upsert}
use libvmod_cachetag.PurgeMap.Probe.{
  fold_digest, probe_hard, ProbeResult, probe_none, probe_soft, probe_reader_guarded,
}
use libvmod_cachetag.PurgeMap.Well.{IsWell}
use libvmod_cachetag.PurgeMap.Grow.{prepare_upsert-IsReady}
use libvmod_cachetag.PurgeMap.Prune.Verdicts.{strictness, Prunes-stricter}
use libvmod_cachetag.Persist.{PurgeKey}
use libvmod_cachetag.Index.Purge.{
  Journal, Index, Memory, Reply, accepted, rejected, persist_key_purge, purge_prepared, purge,
}
use libvmod_cachetag.Index.Answer.{fold_digest-is_live, Answers, IsReady-IsWell}
use libvmod_cachetag.Index.Stale.{hard_effect, some_injective}
use libvmod_cachetag.Index.Limited.{Pruned, Settles, refused, ready_same, logged-Settled}

prepared-Settled :
    {J : Type 0} (wal : Journal J) (idx : Index J) (mem : Memory) (pm : PurgeMap) (key : PurgeKey)
    (mode : Mode)
    → IsWell pm
    → (r : Result PurgeMap) → prepare_upsert pm mem.table_alloc ≡ r
    → (out : Index J × Reply) × (purge_prepared wal idx mem pm key mode r ≡ some out)
      × Settles J pm (fold_digest key.digest_hi key.digest_lo) mode idx.history_max out.0 out.1
prepared-Settled wal idx mem pm key mode well (err e) eq =
    refused wal idx mem pm (fold_digest key.digest_hi key.digest_lo) mode well
      (fold_digest-is_live key.digest_hi key.digest_lo) pm idx.journal rejected well
      (λ g. refl, refl, refl, refl, refl)
prepared-Settled wal idx mem pm key mode well (ok pm1) eq =
    let fold = fold_digest key.digest_hi key.digest_lo in
    let live = fold_digest-is_live key.digest_hi key.digest_lo in
    let ready = prepare_upsert-IsReady pm well mem.table_alloc pm1 eq in
    elim (Bool-cases (pm1.seq == size_max)) [
      | inl last ↦ rw last (
          refused wal idx mem pm fold mode well live pm1 idx.journal rejected
            (IsReady-IsWell pm 1 pm1 well ready)
            (ready_same wal idx mem pm fold mode well live pm1 ready))
      | inr more ↦ rw more (
          logged-Settled wal idx mem pm fold mode well live pm1
            (persist_key_purge wal idx.journal key mode (pm1.seq + 1)) ready)
    ]

-- `cachetag_purge` with a digested key, on an index that has a well-formed map and any limit of its
-- history, always ends. The effect that its reply names, one purge more or none, is had on a
-- well-formed map, and the map that it leaves is this one, or is what a prune to the limit makes of it.
pub purge-Settles :
    {J : Type 0} (wal : Journal J) (idx : Index J) (mem : Memory) (pm : PurgeMap) (key : PurgeKey)
    (mode : Mode)
    → IsWell pm
    → idx.purgemap ≡ some pm
    → (out : Index J × Reply) × (purge wal idx mem (ok key) mode ≡ some out)
      × Settles J pm (fold_digest key.digest_hi key.digest_lo) mode idx.history_max out.0 out.1
unfolding purge
purge-Settles wal idx mem pm key mode well table =
    rw table
      (prepared-Settled wal idx mem pm key mode well (prepare_upsert pm mem.table_alloc) refl)

hardest : (v : ProbeResult) → 2 ≤ strictness v → v ≡ probe_hard
hardest probe_none h = absurd (omega arith)
hardest probe_soft h = absurd (omega arith)
hardest probe_hard h = refl

hard_after_prune :
    (limit : ℕ) (pm pm' : PurgeMap) (reg_seq : ℕ) (folds : List ℕ)
    → IsWell pm
    → Pruned limit pm pm'
    → probe_reader_guarded pm reg_seq folds ≡ probe_hard
    → probe_reader_guarded pm' reg_seq folds ≡ probe_hard
hard_after_prune limit pm pm' reg_seq folds well (inl same) h =
    ap (λ p. probe_reader_guarded p reg_seq folds) same ∙ h
hard_after_prune limit pm pm' reg_seq folds well (inr (cutoff, p)) h =
    let s = Prunes-stricter pm pm' limit cutoff well p reg_seq folds in
    hardest (probe_reader_guarded pm' reg_seq folds) (rw h at s)

-- When a hard purge on a well-formed map is accepted, whatever the limit of the history: every object
-- that has the purged fold among its folds, and was registered at a sequence of the map before the
-- purge, is hard stale in the map that the purge leaves.
pub probe-purge :
    {J : Type 0} (wal : Journal J) (idx : Index J) (mem : Memory) (pm : PurgeMap) (key : PurgeKey)
    (idx' : Index J) (reg_seq : ℕ) (folds : List ℕ)
    → IsWell pm
    → idx.purgemap ≡ some pm
    → purge wal idx mem (ok key) hard ≡ some (idx', accepted)
    → reg_seq ≤ pm.seq
    → any (λ g. g == fold_digest key.digest_hi key.digest_lo) folds ≡ true
    → (pm' : PurgeMap) × (idx'.purgemap ≡ some pm')
      × (probe_reader_guarded pm' reg_seq folds ≡ probe_hard)
probe-purge {J = J} wal idx mem pm key idx' reg_seq folds well table e before has =
    let fold : ℕ = fold_digest key.digest_hi key.digest_lo in
    let (out, e', settled) = purge-Settles wal idx mem pm key hard well table in
    let same : out ≡ (idx', accepted) = some_injective out (idx', accepted) (sym e' ∙ e) in
    let s : Settles J pm fold hard idx.history_max idx' accepted =
      subst (λ o. Settles J pm fold hard idx.history_max o.0 o.1) same settled in
    let a : Answers J pm fold hard (record idx' { purgemap = some s.pm1 }) accepted = record {
      pm' = s.pm1;
      purgemap = refl;
      well = s.well;
      effect = s.effect;
    } in
    (
      s.pm',
      s.purgemap,
      hard_after_prune idx.history_max s.pm1 s.pm' reg_seq folds s.well s.pruned (
          hard_effect pm fold (record idx' { purgemap = some s.pm1 }) a reg_seq folds well before
            has),
    )
