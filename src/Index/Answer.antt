-- ===== src/Index/Answer.antt =====
-- The effect of a purge on the history, for each of its replies (src/vmod_cachetag_purgemap.c).
use libvmod_cachetag.Base.{ℕ, ◌+◌, ◌≤◌, ◌≡◌, ap, ◌∙◌, sym}
use libvmod_cachetag.Base.{true, Option, some, arith}
use libvmod_cachetag.Base.{◌==◌, if◌then◌else◌, Bool-cases, inl, inr}
use libvmod_cachetag.PurgeMap.Table.{is_live}
use libvmod_cachetag.PurgeMap.Table.View.{view}
use libvmod_cachetag.PurgeMap.Map.{PurgeMap, Mode, hard, soft}
use libvmod_cachetag.PurgeMap.Probe.{fold_digest}
use libvmod_cachetag.PurgeMap.Well.{IsWell, history, hard_part, soft_part, hard_of, soft_of}
use libvmod_cachetag.PurgeMap.Grow.{IsReady}
use libvmod_cachetag.PurgeMap.Upsert.{raised, Upserts}
use libvmod_cachetag.Index.Purge.{Index, Reply, accepted, rejected, bad_key, log_failed}

pub fold_digest-is_live : (hi lo : ℕ) → is_live (fold_digest hi lo) ≡ true
unfolding fold_digest
fold_digest-is_live hi lo = ground arith

-- The same history, and the same sequences and floors.
abbrev pub SameHistory : PurgeMap → PurgeMap → Type 0
SameHistory pm pm' =
    ((g : ℕ) → history pm'.table g ≡ history pm.table g)
    × (pm'.seq ≡ pm.seq)
    × (pm'.memo_seq ≡ pm.memo_seq)
    × (pm'.hard_floor ≡ pm.hard_floor)
    × (pm'.soft_floor ≡ pm.soft_floor)

-- The history with one more purge, at the next sequence, and nothing else changed.
abbrev pub OnePurge : PurgeMap → ℕ → Mode → PurgeMap → Type 0
OnePurge pm fold mode pm' =
    ((g : ℕ)
      → history pm'.table g ≡ (
          if g == fold
          then some (raised (history pm.table fold) (pm.seq + 1) mode)
          else history pm.table g))
    × (pm'.seq ≡ pm.seq + 1)
    × (pm'.memo_seq ≡ pm.seq + 1)
    × (pm'.hard_floor ≡ pm.hard_floor)
    × (pm'.soft_floor ≡ pm.soft_floor)

abbrev pub Effect : PurgeMap → ℕ → Mode → PurgeMap → Reply → Type 0
Effect pm fold mode pm' accepted = OnePurge pm fold mode pm'
Effect pm fold mode pm' rejected = SameHistory pm pm'
Effect pm fold mode pm' bad_key = SameHistory pm pm'
Effect pm fold mode pm' log_failed = SameHistory pm pm'

-- The answer to a purge: a well-formed map with the effect that the reply names.
pub record Answers (J : Type 0) (pm : PurgeMap) (fold : ℕ) (mode : Mode) (idx : Index J)
    (reply : Reply) : Type 0 where
  pub pm' : PurgeMap
  pub purgemap : idx.purgemap ≡ some pm'
  pub well : IsWell pm'
  pub effect : Effect pm fold mode pm' reply

pub IsReady-IsWell :
    (pm : PurgeMap) (extra : ℕ) (pm' : PurgeMap) → IsWell pm → IsReady pm extra pm' → IsWell pm'
IsReady-IsWell pm extra pm' well ready =
    let (n, tombs, s, memo, hf, sf) = ready.rest in
    record {
      tabled = rw (ready.table, n) ready.loaded;
      clean = tombs;
      hard_past = λ g. rw (ready.views g, s) (well.hard_past g);
      soft_past = λ g. rw (ready.views g, s) (well.soft_past g);
      hard_floor_past = rw (hf, s) well.hard_floor_past;
      soft_floor_past = rw (sf, s) well.soft_floor_past;
      memo_past = rw (memo, s) well.memo_past;
    }

raised_past :
    (o : Option (ℕ × ℕ)) (s : ℕ) (mode : Mode)
    → hard_part o ≤ s
    → soft_part o ≤ s
    → (hard_part (some (raised o (s + 1) mode)) ≤ s + 1)
      × (soft_part (some (raised o (s + 1) mode)) ≤ s + 1)
raised_past o s hard h k = (ground arith, ground arith)
raised_past o s soft h k = (ground arith, ground arith)

module _ (pm pm1 : PurgeMap) (fold : ℕ) (mode : Mode) (well : IsWell pm)
    (ready : IsReady pm 1 pm1) where
  abbrev pub at_next : PurgeMap
  at_next = record pm1 { seq = pm1.seq + 1 }

  -- What the map becomes, once its memo is set.
  abbrev pub memoed : PurgeMap → PurgeMap
  memoed pm2 = record pm2 { memo_seq = pm1.seq + 1 }

  module _ (pm2 : PurgeMap) (up : Upserts at_next ready.t fold (pm1.seq + 1) mode pm2) where
    same_view : (g : ℕ) → view ready.t g ≡ history pm.table g
    same_view g = ap (λ o. history o g) (sym ready.table) ∙ ready.views g

    pub memoed-OnePurge : OnePurge pm fold mode (memoed pm2)
    memoed-OnePurge =
        let (n, tombs, s, memo, hf, sf) = ready.rest in
        let (tombs2, s2, memo2, hf2, sf2, n2) = up.rest in
        (
          λ g. ap (λ o. history o g) up.table ∙ up.views g ∙ λ i.
              if g == fold then some (raised (same_view fold i) (s i + 1) mode) else same_view g i,
          s2 ∙ ap (λ k. k + 1) s,
          ap (λ k. k + 1) s,
          hf2 ∙ hf,
          sf2 ∙ sf,
        )

    past_next :
        (g : ℕ) → (hard_of (memoed pm2) g ≤ pm.seq + 1) × (soft_of (memoed pm2) g ≤ pm.seq + 1)
    past_next g =
        let h = memoed-OnePurge.0 in
        let new =
          raised_past (history pm.table fold) pm.seq mode (well.hard_past fold)
            (well.soft_past fold) in
        elim (Bool-cases (g == fold)) [
          | inl this ↦ rw (h g, this) new
          | inr other ↦
              rw (h g, other)
                (let a = well.hard_past g in omega arith, let b = well.soft_past g in omega arith)
        ]

    pub memoed-IsWell : IsWell (memoed pm2)
    memoed-IsWell =
        let (n, tombs, s, memo, hf, sf) = ready.rest in
        let (tombs2, s2, memo2, hf2, sf2, n2) = up.rest in
        let next : pm2.seq ≡ pm.seq + 1 = s2 ∙ ap (λ k. k + 1) s in
        record {
          tabled = rw up.table up.loaded;
          clean = tombs2 ∙ tombs;
          hard_past = λ g. rw next (past_next g).0;
          soft_past = λ g. rw next (past_next g).1;
          hard_floor_past = rw (hf2, hf, next) (let a = well.hard_floor_past in omega arith);
          soft_floor_past = rw (sf2, sf, next) (let a = well.soft_floor_past in omega arith);
          memo_past = rw s2 (omega arith);
        }
