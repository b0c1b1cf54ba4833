-- ===== src/Persist/Order.antt =====
-- The order of a batch's keys (src/vmod_cachetag_index.c).
use libvmod_cachetag.Base.{◌<◌, ◌≡◌, ◌≢◌, refl}
use libvmod_cachetag.Base.{true, false, List, [], ◌∷◌, arith}
use libvmod_cachetag.Base.{◌==◌, Bool-cases, ◌⊎◌, inl, inr, All}
use mathlib.Core.List.{Perm}
use mathlib.Core.List.Perm
use libvmod_cachetag.Persist.{PurgeKey, key_le, key_eq, insert_key, sort_keys, adjacent_equal}

-- The order of the digests as numbers of 128 bits.
abbrev pub Precedes : PurgeKey → PurgeKey → Type 0
Precedes a b =
    (a.digest_hi < b.digest_hi) ⊎ ((a.digest_hi ≡ b.digest_hi) × (a.digest_lo < b.digest_lo))

abbrev pub Differs : PurgeKey → PurgeKey → Type 0
Differs a b = (a.digest_hi ≢ b.digest_hi) ⊎ (a.digest_lo ≢ b.digest_lo)

-- Each key precedes all that follow it.
abbrev pub IsAscending : List PurgeKey → Type 0
IsAscending [] = Unit
IsAscending (k ∷ keys) = All (Precedes k) keys × IsAscending keys

-- No key occurs twice.
abbrev pub AllDiffer : List PurgeKey → Type 0
AllDiffer [] = Unit
AllDiffer (k ∷ keys) = All (Differs k) keys × AllDiffer keys

Precedes-key_le : (a b : PurgeKey) → Differs a b → key_le a b ≡ true → Precedes a b
Precedes-key_le a b (inl d) h = elim (Bool-cases (a.digest_hi == b.digest_hi)) [
  | inl e ↦ absurd (ground arith)
  | inr n ↦ inl (ground arith)
]
Precedes-key_le a b (inr d) h = elim (Bool-cases (a.digest_hi == b.digest_hi)) [
  | inl e ↦ inr (ground arith, ground arith)
  | inr n ↦ inl (ground arith)
]

Precedes-not_key_le : (a b : PurgeKey) → key_le a b ≡ false → Precedes b a
Precedes-not_key_le a b h = elim (Bool-cases (a.digest_hi == b.digest_hi)) [
  | inl e ↦ inr (ground arith, ground arith)
  | inr n ↦ inl (ground arith)
]

Precedes-trans : (a b c : PurgeKey) → Precedes a b → Precedes b c → Precedes a c
Precedes-trans a b c (inl h) (inl k) = inl (omega arith)
Precedes-trans a b c (inl h) (inr k) = inl (omega (arith, k.0))
Precedes-trans a b c (inr h) (inl k) = inl (omega (arith, h.0))
Precedes-trans a b c (inr h) (inr k) = inr (omega (arith, h.0, k.0), omega (arith, h.1, k.1))

Precedes-ne : (a b : PurgeKey) → Precedes a b → key_eq a b ≡ false
Precedes-ne a b (inl h) = ground arith
Precedes-ne a b (inr h) = let l = h.1 in ground arith

All-map :
    (P Q : PurgeKey → Type 0) (keys : List PurgeKey)
    → ((k : PurgeKey) → P k → Q k)
    → All P keys
    → All Q keys
All-map P Q [] f h = tt
All-map P Q (k ∷ keys) f h = (f k h.0, All-map P Q keys f h.1)

All-insert_key :
    (P : PurgeKey → Type 0) (k : PurgeKey) (keys : List PurgeKey)
    → P k
    → All P keys
    → All P (insert_key k keys)
unfolding insert_key
All-insert_key P k [] h all = (h, tt)
All-insert_key P k (j ∷ keys) h all = elim (Bool-cases (key_le k j)) [
  | inl first ↦ rw first (h, all)
  | inr later ↦ rw later (all.0, All-insert_key P k keys h all.1)
]

All-sort_keys : (P : PurgeKey → Type 0) (keys : List PurgeKey) → All P keys → All P (sort_keys keys)
unfolding sort_keys
All-sort_keys P [] all = tt
All-sort_keys P (k ∷ keys) all =
    All-insert_key P k (sort_keys keys) all.0 (All-sort_keys P keys all.1)

insert_key-IsAscending :
    (k : PurgeKey) (keys : List PurgeKey)
    → All (Differs k) keys
    → IsAscending keys
    → IsAscending (insert_key k keys)
unfolding insert_key
insert_key-IsAscending k [] apart asc = (tt, tt)
insert_key-IsAscending k (j ∷ keys) apart asc = elim (Bool-cases (key_le k j)) [
  | inl first ↦
      let before = Precedes-key_le k j apart.0 first in
      rw first (
        (
          before,
          All-map (Precedes j) (Precedes k) keys (λ x h. Precedes-trans k j x before h) asc.0,
        ),
        asc,
      )
  | inr later ↦ rw later (
    All-insert_key (Precedes j) k keys (Precedes-not_key_le k j later) asc.0,
    insert_key-IsAscending k keys apart.1 asc.1,
  )
]

pub sort_keys-IsAscending : (keys : List PurgeKey) → AllDiffer keys → IsAscending (sort_keys keys)
unfolding sort_keys
sort_keys-IsAscending [] apart = tt
sort_keys-IsAscending (k ∷ keys) apart =
    insert_key-IsAscending k (sort_keys keys) (All-sort_keys (Differs k) keys apart.0)
      (sort_keys-IsAscending keys apart.1)

insert_key-Perm : (k : PurgeKey) (keys : List PurgeKey) → Perm (insert_key k keys) (k ∷ keys)
unfolding insert_key
insert_key-Perm k [] = Perm.refl (k ∷ [])
insert_key-Perm k (j ∷ keys) = elim (Bool-cases (key_le k j)) [
  | inl first ↦ rw first (Perm.refl (k ∷ j ∷ keys))
  | inr later ↦ rw later (Perm.trans (Perm.cons j (insert_key-Perm k keys)) (Perm.swap k j keys))
]

pub sort_keys-Perm : (keys : List PurgeKey) → Perm (sort_keys keys) keys
unfolding sort_keys
sort_keys-Perm [] = Perm.refl []
sort_keys-Perm (k ∷ keys) =
    Perm.trans (insert_key-Perm k (sort_keys keys)) (Perm.cons k (sort_keys-Perm keys))

pub adjacent_equal-IsAscending :
    (keys : List PurgeKey) → IsAscending keys → adjacent_equal keys ≡ false
unfolding adjacent_equal
adjacent_equal-IsAscending [] asc = refl
adjacent_equal-IsAscending (a ∷ []) asc = refl
adjacent_equal-IsAscending (a ∷ b ∷ keys) asc =
    rw (Precedes-ne a b asc.0.0) (adjacent_equal-IsAscending (b ∷ keys) asc.1)
