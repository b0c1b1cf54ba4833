-- ===== src/Wal/Checkpoint/RoundTrip.antt =====
-- The entries of a checkpoint, written and read (src/vmod_cachetag_wal.c).
use libvmod_cachetag.Base.{ℕ, ◌+◌, ◌^◌, ◌<◌, ◌≡◌, ap, ◌∙◌, refl}
use libvmod_cachetag.Base.{Bool, true, false, not, ◌||◌, Option, none, some, List, [], ◌∷◌, ◌++◌}
use libvmod_cachetag.Base.{leb, Bool-cases, inl, inr}
use libvmod_cachetag.Base.{length, take, drop, append_assoc}
use libvmod_cachetag.Base.{Errno}
use libvmod_cachetag.Codec.{le64enc, le64dec-le64enc}
use libvmod_cachetag.Wal.Meta.{CheckpointMeta, CheckpointEntry}
use libvmod_cachetag.Wal.Checkpoint.{
  Restorer, checkpoint_entry_len, entry_fits, entry_bytes, emit_entries, before_rest, decode_entry,
  when_ok, read_entries,
}

pub record EntryFits (c : CheckpointEntry) : Type 0 where
  pub fold_fits : c.fold < 2 ^ 64
  pub hard_fits : c.hard_sequence < 2 ^ 64
  pub soft_fits : c.soft_sequence < 2 ^ 64

abbrev pub AllEntriesFit : List CheckpointEntry → Type 0
AllEntriesFit [] = Unit
AllEntriesFit (c ∷ cs) = EntryFits c × AllEntriesFit cs

decode_entry-entry_bytes :
    (c : CheckpointEntry) (rest : List ℕ) → EntryFits c → decode_entry (entry_bytes c ++ rest) ≡ c
unfolding entry_bytes le64enc decode_entry
decode_entry-entry_bytes c rest fits =
    let f =
      le64dec-le64enc c.fold (le64enc c.hard_sequence ++ le64enc c.soft_sequence ++ rest)
        fits.fold_fits in
    let h = le64dec-le64enc c.hard_sequence (le64enc c.soft_sequence ++ rest) fits.hard_fits in
    let s = le64dec-le64enc c.soft_sequence rest fits.soft_fits in
    λ i. record { fold = f i; hard_sequence = h i; soft_sequence = s i }

pub take-entry_bytes :
    (c : CheckpointEntry) (rest : List ℕ)
    → length (take checkpoint_entry_len (entry_bytes c ++ rest)) ≡ checkpoint_entry_len
unfolding entry_bytes le64enc
take-entry_bytes c rest = refl

pub length-entry_bytes : (c : CheckpointEntry) → length (entry_bytes c) ≡ checkpoint_entry_len
unfolding entry_bytes le64enc
length-entry_bytes c = refl

drop-entry_bytes :
    (c : CheckpointEntry) (rest : List ℕ) → drop checkpoint_entry_len (entry_bytes c ++ rest) ≡ rest
unfolding entry_bytes le64enc
drop-entry_bytes c rest = refl

-- The entries in turn, up to the first that the callback refuses.
unfoldable pub hand_over {ℓ} :
    {S : Type ℓ}
    → (S → CheckpointEntry → S × Option Errno)
    → List CheckpointEntry
    → S
    → S × Option Errno
hand_over entry [] s = (s, none)
hand_over entry (c ∷ cs) s = when_ok (entry s c) λ s'. hand_over entry cs s'

pub when_ok_congr {ℓ} :
    {S : Type ℓ} (r : S × Option Errno) (f g : S → S × Option Errno)
    → ((s : S) → f s ≡ g s)
    → when_ok r f ≡ when_ok r g
when_ok_congr (s, none) f g h = h s
when_ok_congr (s, some e) f g h = refl

fits_of : (full fits : Bool) → (full || not fits) ≡ false → fits ≡ true
fits_of true fits h = cc
fits_of false true h = refl
fits_of false false h = cc

before_rest-some :
    (c : CheckpointEntry) (o : Option (List ℕ)) (bytes : List ℕ)
    → before_rest c o ≡ some bytes
    → (further : List ℕ) × (o ≡ some further) × (bytes ≡ entry_bytes c ++ further)
before_rest-some c none bytes e = cc
before_rest-some c (some further) bytes e = (further, refl, cc)

-- What a successful emission of a first entry means.
pub emit_first :
    (m : CheckpointMeta) (emitted : ℕ) (c : CheckpointEntry) (cs : List CheckpointEntry)
    (bytes : List ℕ)
    → emit_entries m emitted (c ∷ cs) ≡ some bytes
    → (further : List ℕ) × (emit_entries m (emitted + 1) cs ≡ some further)
      × (bytes ≡ entry_bytes c ++ further)
      × (entry_fits m c ≡ true)
unfolding emit_entries
emit_first m emitted c cs bytes e =
    elim (Bool-cases (leb m.entries emitted || not (entry_fits m c))) [
      | inl bad ↦ cc (rw bad at e)
      | inr good ↦
          let (further, rest, all) =
            before_rest-some c (emit_entries m (emitted + 1) cs) bytes (rw good at e) in
          (further, rest, all, fits_of (leb m.entries emitted) (entry_fits m c) good)
    ]

-- The entries that a checkpoint writes are read back, in order.
module _ {ℓ} {S : Type ℓ} (cb : Restorer S) (m : CheckpointMeta) where
  pub read_entries-emit_entries :
      (cs : List CheckpointEntry) (emitted : ℕ) (bytes rest : List ℕ) (s : S)
      → AllEntriesFit cs
      → emit_entries m emitted cs ≡ some bytes
      → read_entries cb m (length cs) (bytes ++ rest) s ≡ hand_over cb.entry cs s
  unfolding read_entries hand_over
  read_entries-emit_entries [] emitted bytes rest s fits e = refl
  read_entries-emit_entries (c ∷ cs) emitted bytes rest s (fit, fits) e =
      let (further, e', all, ok_entry) = emit_first m emitted c cs bytes e in
      let file : bytes ++ rest ≡ entry_bytes c ++ (further ++ rest) =
        ap (λ b. b ++ rest) all ∙ append_assoc (entry_bytes c) further rest in
      rw
        (
          file,
          take-entry_bytes c (further ++ rest),
          decode_entry-entry_bytes c (further ++ rest) fit,
          ok_entry,
          drop-entry_bytes c (further ++ rest),
        )
        (when_ok_congr (cb.entry s c) _ _
          λ s'. read_entries-emit_entries cs (emitted + 1) further rest s' fits e')
