-- ===== src/PurgeMap/Prune/Kept.antt =====
-- What the readers see after a reclaim (src/vmod_cachetag_purgemap.c).
use libvmod_cachetag.Base.{ℕ, ◌/◌, ◌≤◌, ◌≡◌, ap, ◌∙◌, refl, sym}
use libvmod_cachetag.Base.{◌&&◌, Option, none, some, List, [], ◌∷◌, arith}
use libvmod_cachetag.Base.{leb, Bool-cases, ◌==◌, if◌then◌else◌, ==_iff, inl, inr, length}
use mathlib.Core.Path.{subst}
use libvmod_cachetag.PurgeMap.Table.{Entry, Table}
use libvmod_cachetag.PurgeMap.Table.Assoc.{assoc, Distinct, IsProbed-Distinct, view-assoc}
use libvmod_cachetag.PurgeMap.Map.{PurgeMap, size_max}
use libvmod_cachetag.PurgeMap.Well.{IsWell, HasTable, history, hard_part, soft_part}
use libvmod_cachetag.PurgeMap.Prune.{past_cutoff, survivors}
use libvmod_cachetag.PurgeMap.Prune.Verdicts.{Settled}
use libvmod_cachetag.PurgeMap.Prune.Reclaim.{trim, assoc-survivors, survivors-fewer}
use libvmod_cachetag.PurgeMap.Prune.Reclaimed.{kept, built, built-IsLoaded, view-built}

-- What a reclaim at `cutoff` makes of a map: the purges up to the cutoff are gone, all else is kept.
pub record Reclaims (pm : PurgeMap) (cutoff : ℕ) (pm' : PurgeMap) : Type 0 where
  pub well : IsWell pm'
  pub same_seq : pm'.seq ≡ pm.seq
  pub same_memo : pm'.memo_seq ≡ pm.memo_seq
  pub fates : (g : ℕ) → history pm'.table g ≡ trim cutoff (history pm.table g)
  pub hard : pm'.hard_floor ≡ past_cutoff cutoff pm.hard_floor
  pub soft : pm'.soft_floor ≡ past_cutoff cutoff pm.soft_floor

past-Settled : (cutoff n : ℕ) → Settled cutoff n (past_cutoff cutoff n)
past-Settled cutoff n = elim (Bool-cases (leb n cutoff)) [
  | inl old ↦ inr (rw old refl, ground arith)
  | inr new ↦ inl (rw new refl)
]

hard_part-Settled :
    (cutoff : ℕ) (o : Option (ℕ × ℕ)) → Settled cutoff (hard_part o) (hard_part (trim cutoff o))
hard_part-Settled cutoff none = inl refl
hard_part-Settled cutoff (some (h, s)) =
    elim (Bool-cases (past_cutoff cutoff h == 0 && past_cutoff cutoff s == 0)) [
      | inl old ↦ let bound : h ≤ cutoff = ground arith in rw old (inr (refl, bound))
      | inr new ↦ rw new (past-Settled cutoff h)
    ]

soft_part-Settled :
    (cutoff : ℕ) (o : Option (ℕ × ℕ)) → Settled cutoff (soft_part o) (soft_part (trim cutoff o))
soft_part-Settled cutoff none = inl refl
soft_part-Settled cutoff (some (h, s)) =
    elim (Bool-cases (past_cutoff cutoff h == 0 && past_cutoff cutoff s == 0)) [
      | inl old ↦ let bound : s ≤ cutoff = ground arith in rw old (inr (refl, bound))
      | inr new ↦ rw new (past-Settled cutoff s)
    ]

Settled-le : (cutoff old new : ℕ) → Settled cutoff old new → new ≤ old
Settled-le cutoff old new (inl same) = omega arith
Settled-le cutoff old new (inr lost) = let z = lost.0 in omega arith

-- The slots that a reclaim reads.
abbrev pub slots : Option Table → List Entry
slots o = elim o [ none ↦ [] | some t ↦ t ]

abbrev pub reclaimed : PurgeMap → ℕ → PurgeMap
reclaimed pm cutoff = record pm {
  table = if kept cutoff (slots pm.table) == 0 then none else some (built cutoff (slots pm.table));
  nentry = kept cutoff (slots pm.table);
  ntombstone = 0;
  hard_floor = past_cutoff cutoff pm.hard_floor;
  soft_floor = past_cutoff cutoff pm.soft_floor;
}

slots-assoc :
    (entries : ℕ) (o : Option Table) (g : ℕ) → HasTable entries o → history o g ≡ assoc (slots o) g
unfolding assoc
slots-assoc entries none g h = refl
slots-assoc entries (some t) g h = view-assoc t h.probed g

slots-Distinct : (entries : ℕ) (o : Option Table) → HasTable entries o → Distinct (slots o)
slots-Distinct entries none h = tt
slots-Distinct entries (some t) h = IsProbed-Distinct t h.probed

slots-fewer :
    (entries cutoff : ℕ) (o : Option Table)
    → HasTable entries o
    → length (survivors cutoff (slots o)) ≤ entries
unfolding survivors
slots-fewer entries cutoff none h = omega arith
slots-fewer entries cutoff (some t) h = omega (arith, survivors-fewer cutoff t, h.live)

module _ (pm : PurgeMap) (cutoff : ℕ) (well : IsWell pm) (few : pm.nentry ≤ size_max / 8) where
  abbrev entries : List Entry
  entries = slots pm.table

  distinct : Distinct entries
  distinct = slots-Distinct pm.nentry pm.table well.tabled

  room : length (survivors cutoff entries) ≤ size_max / 8
  room = omega (arith, few, slots-fewer pm.nentry cutoff pm.table well.tabled)

  empty_assoc : (l : List Entry) (g : ℕ) → length l ≡ 0 → assoc l g ≡ none
  unfolding assoc
  empty_assoc [] g e = refl
  empty_assoc (x ∷ l) g e = absurd (omega arith)

  fate : (g : ℕ) → history (reclaimed pm cutoff).table g ≡ trim cutoff (history pm.table g)
  fate g =
      let old = slots-assoc pm.nentry pm.table g well.tabled in
      elim (Bool-cases (kept cutoff entries == 0)) [
        | inl zeroed ↦
            ap (λ b. history (if b then none else some (built cutoff entries)) g) zeroed
            ∙ sym (
                empty_assoc (survivors cutoff entries) g
                  ((==_iff (kept cutoff entries) 0).0 zeroed))
            ∙ assoc-survivors cutoff g entries distinct
            ∙ ap (trim cutoff) (sym old)
        | inr more ↦
            ap (λ b. history (if b then none else some (built cutoff entries)) g) more
            ∙ view-built cutoff entries distinct room g
            ∙ ap (trim cutoff) (sym old)
      ]

  tabled : HasTable (kept cutoff entries) (reclaimed pm cutoff).table
  tabled = elim (Bool-cases (kept cutoff entries == 0)) [
    | inl zeroed ↦
        subst
          (λ b. HasTable (kept cutoff entries) (if b then none else some (built cutoff entries)))
          (sym zeroed) ((==_iff (kept cutoff entries) 0).0 zeroed)
    | inr more ↦
        subst
          (λ b. HasTable (kept cutoff entries) (if b then none else some (built cutoff entries)))
          (sym more) (built-IsLoaded cutoff entries distinct room)
  ]

  part_past :
      (part : Option (ℕ × ℕ) → ℕ) (g : ℕ)
      → ((o : Option (ℕ × ℕ)) → Settled cutoff (part o) (part (trim cutoff o)))
      → part (history pm.table g) ≤ pm.seq
      → part (history (reclaimed pm cutoff).table g) ≤ pm.seq
  part_past part g settled h =
      let o = history pm.table g in
      omega
        (arith, h, ap part (fate g), Settled-le cutoff (part o) (part (trim cutoff o)) (settled o))

  pub reclaimed-Reclaims : Reclaims pm cutoff (reclaimed pm cutoff)
  reclaimed-Reclaims = record {
    well = record {
      tabled = tabled;
      clean = refl;
      hard_past = λ g. part_past hard_part g (hard_part-Settled cutoff) (well.hard_past g);
      soft_past = λ g. part_past soft_part g (soft_part-Settled cutoff) (well.soft_past g);
      hard_floor_past = omega (
        arith,
        well.hard_floor_past,
        Settled-le cutoff pm.hard_floor (past_cutoff cutoff pm.hard_floor)
            (past-Settled cutoff pm.hard_floor),
      );
      soft_floor_past = omega (
        arith,
        well.soft_floor_past,
        Settled-le cutoff pm.soft_floor (past_cutoff cutoff pm.soft_floor)
            (past-Settled cutoff pm.soft_floor),
      );
      memo_past = well.memo_past;
    };
    same_seq = refl;
    same_memo = refl;
    fates = fate;
    hard = refl;
    soft = refl;
  }
