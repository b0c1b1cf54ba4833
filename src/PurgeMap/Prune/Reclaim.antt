-- ===== src/PurgeMap/Prune/Reclaim.antt =====
-- What a reclaim keeps, once a sweep has shown that no object is older than its cutoff
-- (src/vmod_cachetag_purgemap.c).
use libvmod_cachetag.Base.{ℕ, ◌≤◌, ◌≡◌, ap, ◌∙◌, refl, sym}
use libvmod_cachetag.Base.{
  Bool, true, false, not, ◌&&◌, ◌||◌, Option, none, some, List, [], ◌∷◌, arith,
}
use libvmod_cachetag.Base.{◌==◌, if◌then◌else◌, ==_iff, Bool-cases, inl, inr}
use libvmod_cachetag.Base.{length}
use libvmod_cachetag.PurgeMap.Table.{Entry, Table, is_live, table_insert_existing}
use libvmod_cachetag.PurgeMap.Table.View.{count}
use libvmod_cachetag.PurgeMap.Table.Assoc.{assoc, Distinct}
use libvmod_cachetag.PurgeMap.Map.{insert_live}
use libvmod_cachetag.PurgeMap.Prune.{past_cutoff, survivors, insert_all}

-- A fold's history without the purges up to the cutoff, if that leaves any.
abbrev pub trim : ℕ → Option (ℕ × ℕ) → Option (ℕ × ℕ)
trim cutoff none = none
trim cutoff (some (h, s)) =
    if past_cutoff cutoff h == 0 && past_cutoff cutoff s == 0
    then none
    else some (past_cutoff cutoff h, past_cutoff cutoff s)

abbrev gone : ℕ → Entry → Bool
gone cutoff e =
    not (is_live e.fold)
    || (past_cutoff cutoff e.hard_seq == 0 && past_cutoff cutoff e.soft_seq == 0)

abbrev trimmed : ℕ → Entry → Entry
trimmed cutoff e = record e {
  hard_seq = past_cutoff cutoff e.hard_seq;
  soft_seq = past_cutoff cutoff e.soft_seq;
}

pick :
    (b : Bool) (e : Entry) (rest : List Entry)
    → elim (if b then none else some e) as (λ _. List Entry) [ none ↦ rest | some e' ↦ e' ∷ rest ]
      ≡ (if b then rest else e ∷ rest)
pick true e rest = refl
pick false e rest = refl

survivors_lem :
    (cutoff : ℕ) (e : Entry) (es : List Entry)
    → survivors cutoff (e ∷ es)
      ≡ (if gone cutoff e then survivors cutoff es else trimmed cutoff e ∷ survivors cutoff es)
unfolding survivors
survivors_lem cutoff e es = pick (gone cutoff e) (trimmed cutoff e) (survivors cutoff es)

kept_cons :
    (cutoff : ℕ) (e : Entry) (es : List Entry)
    → gone cutoff e ≡ false
    → survivors cutoff (e ∷ es) ≡ trimmed cutoff e ∷ survivors cutoff es
kept_cons cutoff e es stays =
    survivors_lem cutoff e es
    ∙ ap (λ b. if b then survivors cutoff es else trimmed cutoff e ∷ survivors cutoff es) stays

trim-none : (cutoff : ℕ) (o : Option (ℕ × ℕ)) → o ≡ none → trim cutoff o ≡ none
trim-none cutoff o e = ap (trim cutoff) e

pub assoc-survivors :
    (cutoff g : ℕ) (es : List Entry)
    → Distinct es
    → assoc (survivors cutoff es) g ≡ trim cutoff (assoc es g)
unfolding assoc
assoc-survivors cutoff g [] distinct = unfold survivors in refl
assoc-survivors cutoff g (e ∷ es) (alone, distinct) =
    let rec = assoc-survivors cutoff g es distinct in
    elim (Bool-cases (gone cutoff e)) [
      | inr stays ↦
          rw (survivors_lem cutoff e es, stays)
            (elim (Bool-cases (is_live e.fold && e.fold == g)) [
              | inl here ↦
                  let left : (past_cutoff cutoff e.hard_seq == 0
                        && past_cutoff cutoff e.soft_seq == 0)
                      ≡ false =
                    ground arith in
                  rw (here, left) refl
              | inr other ↦ rw other rec
            ])
      | inl out ↦
          rw (survivors_lem cutoff e es, out)
            (elim (Bool-cases (is_live e.fold && e.fold == g)) [
              | inl here ↦
                  let live : is_live e.fold ≡ true = ground arith in
                  let same : (e.fold == g) ≡ true = ground arith in
                  let nothing : assoc es g ≡ none =
                    ap (assoc es) (sym ((==_iff e.fold g).0 same)) ∙ alone live in
                  let old : (past_cutoff cutoff e.hard_seq == 0
                        && past_cutoff cutoff e.soft_seq == 0)
                      ≡ true =
                    ground arith in
                  rw (here, old) (rec ∙ trim-none cutoff (assoc es g) nothing)
              | inr other ↦ rw other rec
            ])
    ]

pub survivors-Distinct :
    (cutoff : ℕ) (es : List Entry) → Distinct es → Distinct (survivors cutoff es)
survivors-Distinct cutoff [] distinct = unfold survivors in tt
survivors-Distinct cutoff (e ∷ es) (alone, distinct) =
    let rec = survivors-Distinct cutoff es distinct in
    elim (Bool-cases (gone cutoff e)) [
      | inl out ↦ rw (survivors_lem cutoff e es, out) rec
      | inr stays ↦
          rw (survivors_lem cutoff e es, stays)
            (
              λ live.
                  assoc-survivors cutoff e.fold es distinct
                  ∙ trim-none cutoff (assoc es e.fold) (alone live),
              rec,
            )
    ]

-- All survivors are live, so that both insertion loops do the same.
pub count-survivors :
    (cutoff : ℕ) (es : List Entry)
    → count is_live (survivors cutoff es) ≡ length (survivors cutoff es)
unfolding count
count-survivors cutoff [] = unfold survivors in refl
count-survivors cutoff (e ∷ es) =
    let rec = count-survivors cutoff es in
    elim (Bool-cases (gone cutoff e)) [
      | inl out ↦ rw (survivors_lem cutoff e es, out) rec
      | inr stays ↦
          let live : is_live e.fold ≡ true = ground arith in
          rw (survivors_lem cutoff e es, stays, live) (omega (arith, rec))
    ]

pub survivors-fewer :
    (cutoff : ℕ) (es : List Entry) → length (survivors cutoff es) ≤ count is_live es
unfolding count
survivors-fewer cutoff [] = unfold survivors in omega arith
survivors-fewer cutoff (e ∷ es) =
    let rec = survivors-fewer cutoff es in
    elim (Bool-cases (gone cutoff e)) [
      | inl out ↦ rw (survivors_lem cutoff e es, out) (omega (arith, rec))
      | inr stays ↦
          let live : is_live e.fold ≡ true = ground arith in
          rw (survivors_lem cutoff e es, stays, live) (omega (arith, rec))
    ]

insert_live_cons :
    (e : Entry) (es : List Entry) (t : Table)
    → is_live e.fold ≡ true
    → insert_live (e ∷ es) t ≡ insert_live es (table_insert_existing t e)
unfolding insert_live
insert_live_cons e es t live = rw live refl

pub insert_all-survivors :
    (cutoff : ℕ) (es : List Entry) (t : Table)
    → insert_all (survivors cutoff es) t ≡ insert_live (survivors cutoff es) t
unfolding insert_all
insert_all-survivors cutoff [] t = unfold survivors insert_live in refl
insert_all-survivors cutoff (e ∷ es) t = elim (Bool-cases (gone cutoff e)) [
  | inl out ↦ rw (survivors_lem cutoff e es, out) (insert_all-survivors cutoff es t)
  | inr stays ↦
      let live : is_live e.fold ≡ true = ground arith in
      ap (λ l. insert_all l t) (kept_cons cutoff e es stays)
      ∙ (insert_all-survivors cutoff es (table_insert_existing t (trimmed cutoff e))
          ∙ (sym (insert_live_cons (trimmed cutoff e) (survivors cutoff es) t live)
              ∙ sym (ap (λ l. insert_live l t) (kept_cons cutoff e es stays))))
]
