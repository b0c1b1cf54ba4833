-- ===== src/Wal/Recovery.antt =====
-- Lemmas on the replay of written records and of torn ends (src/vmod_cachetag_wal.c).
pub mod Torn
use libvmod_cachetag.Base.{
  ℕ, zero, suc, ◌+◌, ◌-◌, ◌*◌, ◌/◌, ◌%◌, ◌^◌, ◌≤◌, ◌<◌, ◌≡◌, ◌≢◌, ap, ◌∙◌, refl, sym,
}
use libvmod_cachetag.Base.{
  Bool, true, false, not, ◌&&◌, ◌||◌, Option, none, some, List, [], ◌∷◌, ◌++◌, arith,
}
use libvmod_cachetag.Base.{ltb, leb, ◌==◌, if◌then◌else◌, ==_iff, Bool-cases, ◌⊎◌, inl, inr, ◌↔◌}
use libvmod_cachetag.Base.{
  length, get_or, set, replicate, All, take, drop, append_assoc, append-nil,
}
use libvmod_cachetag.Base.{
  length-set, length-append, length-replicate, get_or-replicate, get_or-set_self, get_or-set_ne,
}
use libvmod_cachetag.Base.{
  Errno, einval, eio, enomem, efbig, length-take, length-drop, take-append, drop-append, drop-add,
  take-take,
}
use libvmod_cachetag.Codec.{le64dec}
use libvmod_cachetag.Wal.Frame.{
  LogRecord, header_len, header_csum, wal_magic, record_checksum, header_start, header, frame, Fits,
}
use libvmod_cachetag.Wal.Frame.{
  length-header, header_type, header_checksum, header_sequence, header_payload_len, header_stored,
  take-frame, drop-frame_header, header_magic, frame-header,
}
use libvmod_cachetag.Wal.Replay.{
  u64_max, has_wal_magic, Stop, done, failed, stuck, tolerated, Segment, Run, accept, called,
  checked, segment_loop, settle, replay_segment,
}

later : (m s : ℕ) → s ≡ m + 1 → (if ltb m s then s else m) ≡ m + 1
later m s h = ground arith

eq_self : (n : ℕ) → (n == n) ≡ true
eq_self n = ground arith

and_not-true : (b : Bool) → (b && not true) ≡ false
and_not-true b = ground arith

-- What the reads find in a record that is cut after `k` bytes.
module _ (xxh3 : List ℕ → ℕ) (rec : LogRecord) (k : ℕ) where
  pub length-frame : length (frame xxh3 rec) ≡ header_len + length rec.payload
  length-frame =
      ap length (frame-header xxh3 rec)
      ∙ length-append (header xxh3 rec) rec.payload
      ∙ ap (λ n. n + length rec.payload) (length-header xxh3 rec)

  short_header : k < header_len → length (take header_len (take k (frame xxh3 rec))) ≡ k
  short_header h = omega (
    arith,
    length-take header_len (take k (frame xxh3 rec)),
    length-take k (frame xxh3 rec),
    length-frame,
  )

  whole_header : header_len ≤ k → take header_len (take k (frame xxh3 rec)) ≡ header xxh3 rec
  whole_header h =
      take-take header_len k (frame xxh3 rec) h
      ∙ ap (take header_len) (sym (append-nil (frame xxh3 rec)))
      ∙ take-frame xxh3 rec []

  short_payload :
      header_len ≤ k
      → k < header_len + length rec.payload
      → length (take (length rec.payload) (drop header_len (take k (frame xxh3 rec))))
        ≡ k - header_len
  short_payload h torn = omega (
    arith,
    length-take (length rec.payload) (drop header_len (take k (frame xxh3 rec))),
    length-drop header_len (take k (frame xxh3 rec)),
    length-take k (frame xxh3 rec),
    length-frame,
  )

-- What the log holds: the records' frames, one after the other.
unfoldable pub frames : (List ℕ → ℕ) → List LogRecord → List ℕ
frames xxh3 [] = []
frames xxh3 (rec ∷ recs) = frame xxh3 rec ++ frames xxh3 recs

-- Records as `cachetag_wal_append` numbers them, that fit their fields and memory.
abbrev pub IsLog : (List ℕ → ℕ) → (ℕ → Bool) → ℕ → List LogRecord → Type 0
IsLog xxh3 alloc last [] = Unit
IsLog xxh3 alloc last (rec ∷ recs) =
    Fits xxh3 rec
    × (alloc (length rec.payload) ≡ true)
    × (rec.sequence ≡ last + 1)
    × IsLog xxh3 alloc (last + 1) recs

module _ {ℓ} {S : Type ℓ} (func : S → LogRecord → S × Option Errno) where
  -- The callback on each record in turn, up to the first that it refuses, and then `k`.
  unfoldable pub deliver : List LogRecord → Run S → (Run S → Stop × Run S) → Stop × Run S
  deliver [] run k = k run
  deliver (rec ∷ recs) run k = called run rec (func run.priv rec) (λ r. deliver recs r k)

called_congr {ℓ} :
    {S : Type ℓ} (run : Run S) (rec : LogRecord) (answer : S × Option Errno)
    (f g : Run S → Stop × Run S)
    → ((priv : S) → f (accept run rec priv) ≡ g (accept run rec priv))
    → called run rec answer f ≡ called run rec answer g
called_congr run rec (priv, some e) f g h = refl
called_congr run rec (priv, none) f g h = h priv

module _ {ℓ} {S : Type ℓ} (xxh3 : List ℕ → ℕ) (xxh3_fits : (bytes : List ℕ) → xxh3 bytes < 2 ^ 64)
    (alloc : ℕ → Bool) (func : S → LogRecord → S × Option Errno) where
  drop-frame :
      (rec : LogRecord) (rest : List ℕ)
      → drop (header_len + length rec.payload) (frame xxh3 rec ++ rest) ≡ rest
  drop-frame rec rest =
      drop-add header_len (length rec.payload) (frame xxh3 rec ++ rest)
      ∙ ap (drop (length rec.payload)) (drop-frame_header xxh3 rec rest)
      ∙ drop-append rec.payload rest

  take-payload :
      (rec : LogRecord) (rest : List ℕ)
      → take (length rec.payload) (drop header_len (frame xxh3 rec ++ rest)) ≡ rec.payload
  take-payload rec rest =
      ap (take (length rec.payload)) (drop-frame_header xxh3 rec rest)
      ∙ take-append rec.payload rest

  -- One round of the loop over a record that was written whole.
  segment_step :
      (fuel : ℕ) (active : Bool) (rec : LogRecord) (rest : List ℕ) (run : Run S)
      → Fits xxh3 rec
      → alloc (length rec.payload) ≡ true
      → rec.sequence ≡ run.max_seq + 1
      → segment_loop xxh3 alloc func (suc fuel) active (frame xxh3 rec ++ rest) run
        ≡ called run rec (func run.priv rec) (λ r. segment_loop xxh3 alloc func fuel active rest r)
  unfolding segment_loop
  segment_step fuel active rec rest run fits mem next =
      let size = header_payload_len xxh3 rec (omega (arith, fits.payload_fits)) in
      let small : ltb (u64_max - header_csum) (length rec.payload) ≡ false =
        let f = fits.payload_fits in ground arith in
      let not_last : (run.max_seq == u64_max) ≡ false =
        let f = fits.sequence_fits in ground arith in
      let in_turn : (rec.sequence == run.max_seq + 1) ≡ true = ground arith in
      let (m0, m1, m2, m3, m4) = header_magic xxh3 rec in
      rw
        (
          take-frame xxh3 rec rest,
          size,
          take-payload rec rest,
          drop-frame rec rest,
          length-header xxh3 rec,
          m0,
          m1,
          m2,
          m3,
          m4,
          header_checksum xxh3 rec,
          header_stored xxh3 rec xxh3_fits,
          header_sequence xxh3 rec fits.sequence_fits,
          header_type xxh3 rec,
        )
        (rw (
          small,
          mem,
          eq_self,
          eq_self (record_checksum xxh3 (header_start rec) rec.payload),
          not_last,
          in_turn,
          and_not-true,
        ))

  -- The loop hands over the records that were written whole, and goes on behind them.
  pub segment_loop-frames :
      (recs : List LogRecord) (fuel : ℕ) (active : Bool) (tail : List ℕ) (run : Run S)
      → IsLog xxh3 alloc run.max_seq recs
      → segment_loop xxh3 alloc func (length recs + fuel) active (frames xxh3 recs ++ tail) run
        ≡ deliver func recs run (λ r. segment_loop xxh3 alloc func fuel active tail r)
  unfolding frames deliver
  segment_loop-frames [] fuel active tail run log =
      ap (λ n. segment_loop xxh3 alloc func n active tail run)
        (let e : 0 + fuel ≡ fuel = omega arith in e)
  segment_loop-frames (rec ∷ recs) fuel active tail run (fits, mem, next, log) =
      let n : ℕ = length recs + fuel in
      let e : suc (length recs) + fuel ≡ suc n = omega arith in
      let last : (priv : S) → (accept run rec priv).max_seq ≡ run.max_seq + 1 =
        λ priv. later run.max_seq rec.sequence next in
      (λ i.
        segment_loop xxh3 alloc func (e i) active
          (append_assoc (frame xxh3 rec) (frames xxh3 recs) tail i) run)
      ∙ segment_step n active rec (frames xxh3 recs ++ tail) run fits mem next
      ∙ called_congr run rec (func run.priv rec) _ _ λ priv.
        segment_loop-frames recs fuel active tail (accept run rec priv) (rw (last priv) log)

  -- The beginning of a record, as a crash during its append leaves it.
  pub torn_end :
      (fuel k : ℕ) (active : Bool) (rec : LogRecord) (run : Run S)
      → Fits xxh3 rec
      → alloc (length rec.payload) ≡ true
      → k < header_len + length rec.payload
      → segment_loop xxh3 alloc func (suc fuel) active (take k (frame xxh3 rec)) run
        ≡ (if k == 0 then done else tolerated active eio, run)
  unfolding segment_loop
  torn_end fuel k active rec run fits mem torn = elim (Bool-cases (k == 0)) [
    | inl none_left ↦ rw ((==_iff k 0).0 none_left)
    | inr some_left ↦ elim (Bool-cases (ltb k header_len)) [
      | inl cut ↦
          let off : (k == header_len) ≡ false = ground arith in
          rw (short_header xxh3 rec k (ground arith), some_left, off)
      | inr whole ↦
          let (m0, m1, m2, m3, m4) = header_magic xxh3 rec in
          let small : ltb (u64_max - header_csum) (length rec.payload) ≡ false =
            let f = fits.payload_fits in ground arith in
          let off : (k - header_len == length rec.payload) ≡ false = ground arith in
          rw (
            whole_header xxh3 rec k (ground arith),
            length-header xxh3 rec,
            m0,
            m1,
            m2,
            m3,
            m4,
            header_payload_len xxh3 rec (omega (arith, fits.payload_fits)),
            small,
            mem,
            and_not-true,
            short_payload xxh3 rec k (ground arith) torn,
            off,
            some_left,
          )
    ]
  ]
