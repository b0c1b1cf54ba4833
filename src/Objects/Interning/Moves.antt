-- ===== src/Objects/Interning/Moves.antt =====
-- Moving the sets from the old buckets to the new ones keeps what is found
-- (src/vmod_cachetag_index.c).
use libvmod_cachetag.Base.{ℕ, ◌<◌, ◌≡◌, ap, ◌∙◌, refl, sym}
use libvmod_cachetag.Base.{true, false, none, some, List, [], ◌∷◌, arith}
use libvmod_cachetag.Base.{◌==◌, if◌then◌else◌, ==_iff, Bool-cases, inl, inr, All}
use libvmod_cachetag.Base.{length, get_or, set, length-set, get_or-set_self, get_or-set_ne}
use mathlib.Core.Path.{subst}
use libvmod_cachetag.PurgeMap.Table.{home}
use libvmod_cachetag.PurgeMap.Table.Walk.{IsSized, home-lt}
use libvmod_cachetag.Objects.Interning.Registry.{
  InternedSet, Chains, same_folds, matches, find_set, chain_of, lookup_table, push,
}

same_folds_refl : (xs : List ℕ) → same_folds xs xs ≡ true
same_folds_refl [] = refl
same_folds_refl (x ∷ xs) =
    let self : (x == x) ≡ true = ground arith in rw (self, same_folds_refl xs) refl

same_folds-eq : (xs ys : List ℕ) → same_folds xs ys ≡ true → xs ≡ ys
same_folds-eq [] [] e = refl
same_folds-eq [] (y ∷ ys) e = cc
same_folds-eq (x ∷ xs) [] e = cc
same_folds-eq (x ∷ xs) (y ∷ ys) e =
    let head : (x == y) ≡ true = ground arith in
    let tail = same_folds-eq xs ys (ground arith) in λ i. (==_iff x y).0 head i ∷ tail i

matches_self : (s : InternedSet) → matches s.hash s.folds s ≡ true
matches_self s =
    let a : (s.hash == s.hash) ≡ true = ground arith in
    let b : (length s.folds == length s.folds) ≡ true = ground arith in
    rw (a, b, same_folds_refl s.folds) refl

-- A set that matches has the hash and the folds.
pub matches_eq :
    (hash : ℕ) (folds : List ℕ) (s : InternedSet)
    → matches hash folds s ≡ true
    → (s.hash ≡ hash) × (s.folds ≡ folds)
matches_eq hash folds s e =
    ((==_iff s.hash hash).0 (ground arith), same_folds-eq s.folds folds (ground arith))

-- No set of a chain is there twice.
abbrev pub Single : List InternedSet → Type 0
Single [] = Unit
Single (s ∷ chain) = (find_set s.hash s.folds chain ≡ none) × Single chain

-- Chains in order: each set is in the bucket of its hash, once.
pub record IsChained (buckets : Chains) : Type 0 where
  pub sized : IsSized (length buckets)
  pub placed : (i : ℕ) → All (λ s. home s.hash (length buckets) ≡ i) (get_or buckets i [])
  pub single : (i : ℕ) → Single (get_or buckets i [])

get_set :
    (bs : Chains) (q p : ℕ) (v : List InternedSet)
    → q < length bs
    → get_or (set bs q v) p [] ≡ (if q == p then v else get_or bs p [])
get_set bs q p v h = elim (Bool-cases (q == p)) [
  | inl same ↦
      let e = (==_iff q p).0 same in
      rw same (ap (λ i. get_or (set bs q v) i []) (sym e) ∙ get_or-set_self bs q v [] h)
  | inr other ↦ rw other (get_or-set_ne bs q p v [] (ground arith))
]

-- A set in another bucket does not match.
other_home :
    (n hash : ℕ) (folds : List ℕ) (s : InternedSet)
    → (home s.hash n == home hash n) ≡ false
    → matches hash folds s ≡ false
other_home n hash folds s off = elim (Bool-cases (matches hash folds s)) [
  | inr miss ↦ miss
  | inl hit ↦
      let same = (matches_eq hash folds s hit).0 in
      let e : home s.hash n ≡ home hash n = ap (λ h. home h n) same in ground (arith, e, off)
]

module _ (bs : Chains) (chained : IsChained bs) where
  chain-set :
      (q hash : ℕ) (v : List InternedSet)
      → q < length bs
      → chain_of (set bs q v) hash ≡ (if q == home hash (length bs) then v else chain_of bs hash)
  chain-set q hash v h = rw (length-set bs q v) (get_set bs q (home hash (length bs)) v h)

  -- A set in front of its chain is found, and hides nothing else.
  pub lookup-push :
      (s : InternedSet) (hash : ℕ) (folds : List ℕ)
      → lookup_table (push bs s) hash folds
        ≡ (if matches hash folds s then some s else lookup_table bs hash folds)
  unfolding find_set
  lookup-push s hash folds =
      let at_home = home-lt s.hash chained.sized in
      let chain = chain-set (home s.hash (length bs)) hash (s ∷ chain_of bs s.hash) at_home in
      elim (Bool-cases (home s.hash (length bs) == home hash (length bs))) [
        | inl here ↦ let same = (==_iff _ _).0 here in rw (chain, here, same) refl
        | inr off ↦
            let no_match = other_home (length bs) hash folds s off in rw (chain, off, no_match) refl
      ]

  All-set :
      (s : InternedSet) (i : ℕ) → All (λ t. home t.hash (length bs) ≡ i) (get_or (push bs s) i [])
  All-set s i = elim (Bool-cases (home s.hash (length bs) == i)) [
    | inl here ↦
        let e = (==_iff _ _).0 here in
        rw
          (
            get_set bs (home s.hash (length bs)) i (s ∷ chain_of bs s.hash)
                (home-lt s.hash chained.sized),
            here,
          )
          (
            e,
            subst (λ k. All (λ t. home t.hash (length bs) ≡ k) (chain_of bs s.hash)) e
                (chained.placed (home s.hash (length bs))),
          )
    | inr off ↦
        rw
          (
            get_set bs (home s.hash (length bs)) i (s ∷ chain_of bs s.hash)
                (home-lt s.hash chained.sized),
            off,
          )
          (chained.placed i)
  ]

  pub push-IsChained :
      (s : InternedSet) → lookup_table bs s.hash s.folds ≡ none → IsChained (push bs s)
  push-IsChained s new = record {
    sized = rw (length-set bs (home s.hash (length bs)) (s ∷ chain_of bs s.hash)) chained.sized;
    placed =
        λ i. rw (length-set bs (home s.hash (length bs)) (s ∷ chain_of bs s.hash)) (All-set s i);
    single = λ i.
        rw
          (get_set bs (home s.hash (length bs)) i (s ∷ chain_of bs s.hash)
            (home-lt s.hash chained.sized))
          (elim (Bool-cases (home s.hash (length bs) == i)) [
            | inl here ↦ rw here (new, chained.single (home s.hash (length bs)))
            | inr off ↦ rw off (chained.single i)
          ]);
  }

  -- The first set of a bucket.
  module _ (c : ℕ) (s : InternedSet) (chain : List InternedSet) (inside : c < length bs)
      (first : get_or bs c [] ≡ s ∷ chain) where
    home_first : home s.hash (length bs) ≡ c
    home_first = (rw first at (chained.placed c)).0

    Single-first : Single (s ∷ chain)
    Single-first = rw first at (chained.single c)

    pub lookup-first : lookup_table bs s.hash s.folds ≡ some s
    unfolding find_set
    lookup-first = rw (home_first, first, matches_self s) refl

    first_of_chain :
        (hash : ℕ) (folds : List ℕ)
        → find_set s.hash s.folds chain ≡ none
        → find_set hash folds chain
          ≡ (if matches hash folds s then none else find_set hash folds (s ∷ chain))
    unfolding find_set
    first_of_chain hash folds once = elim (Bool-cases (matches hash folds s)) [
      | inl hit ↦
          let (h, f) = matches_eq hash folds s hit in
          rw hit (
            ap (λ x. find_set x folds chain) (sym h)
            ∙ ap (λ x. find_set s.hash x chain) (sym f)
            ∙ once)
      | inr miss ↦ rw miss refl
    ]

    pub lookup-pop :
        (hash : ℕ) (folds : List ℕ)
        → lookup_table (set bs c chain) hash folds
          ≡ (if matches hash folds s then none else lookup_table bs hash folds)
    lookup-pop hash folds = elim (Bool-cases (c == home hash (length bs))) [
      | inr off ↦
          let no = other_home (length bs) hash folds s (rw home_first off) in
          rw (chain-set c hash chain inside, off, no) refl
      | inl here ↦
          let at_c : chain_of bs hash ≡ s ∷ chain =
            ap (λ i. get_or bs i []) (sym ((==_iff _ _).0 here)) ∙ first in
          rw (chain-set c hash chain inside, here, at_c) (first_of_chain hash folds Single-first.0)
    ]

    pub pop-IsChained : IsChained (set bs c chain)
    pop-IsChained = record {
      sized = rw (length-set bs c chain) chained.sized;
      placed = λ i.
          rw (length-set bs c chain, get_set bs c i chain inside)
            (elim (Bool-cases (c == i)) [
              | inl here ↦ rw here (
                  subst (λ k. All (λ t. home t.hash (length bs) ≡ k) chain) ((==_iff c i).0 here)
                    (rw first at (chained.placed c)).1)
              | inr off ↦ rw off (chained.placed i)
            ]);
      single = λ i. rw (get_set bs c i chain inside) (elim (Bool-cases (c == i)) [
        | inl here ↦ rw here Single-first.1
        | inr off ↦ rw off (chained.single i)
      ]);
    }
