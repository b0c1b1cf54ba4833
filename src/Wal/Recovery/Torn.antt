-- ===== src/Wal/Recovery/Torn.antt =====
-- The replay of a segment that ends in a torn record (src/vmod_cachetag_wal.c).
use libvmod_cachetag.Base.{ℕ, suc, ◌+◌, ◌-◌, ◌^◌, ◌≤◌, ◌<◌, ◌≡◌, ap, ◌∙◌}
use libvmod_cachetag.Base.{Bool, true, false, Option, List, [], ◌∷◌, ◌++◌, arith}
use libvmod_cachetag.Base.{◌==◌, if◌then◌else◌}
use libvmod_cachetag.Base.{length, take}
use libvmod_cachetag.Base.{length-append}
use libvmod_cachetag.Base.{Errno, eio}
use libvmod_cachetag.Wal.Frame.{LogRecord, header_len, frame, Fits}
use libvmod_cachetag.Wal.Replay.{
  u64_max, done, tolerated, Segment, Run, segment_loop, settle, replay_segment,
}
use libvmod_cachetag.Wal.Recovery.{
  frames, deliver, IsLog, segment_loop-frames, torn_end, length-frame,
}

-- Every record takes a byte at least.
length-frames :
    (xxh3 : List ℕ → ℕ) (recs : List LogRecord) (tail : List ℕ)
    → length recs ≤ length (frames xxh3 recs ++ tail)
unfolding frames
length-frames xxh3 [] tail = omega arith
length-frames xxh3 (rec ∷ recs) tail = omega (
  arith,
  length-append (frame xxh3 rec ++ frames xxh3 recs) tail,
  length-append (frame xxh3 rec) (frames xxh3 recs),
  length-append (frames xxh3 recs) tail,
  length-frame xxh3 rec,
  length-frames xxh3 recs tail,
)

abbrev pub start {ℓ} : {S : Type ℓ} → S → ℕ → ℕ → Run S
start priv max_seq replay_records = record {
  priv = priv;
  max_seq = max_seq;
  valid_records = 0;
  valid_bytes = 0;
  replay_records = replay_records;
}

module _ {ℓ} {S : Type ℓ} (xxh3 : List ℕ → ℕ) (xxh3_fits : (bytes : List ℕ) → xxh3 bytes < 2 ^ 64)
    (alloc : ℕ → Bool) (func : S → LogRecord → S × Option Errno) where
  -- For a hash that fits in 64 bits: the file of a segment in turn, with the records `recs` numbered on
  -- from `max_seq` and behind them the first `k` bytes of a further record, `k` less than its length,
  -- all of which fit their fields and memory, is replayed: `recs` are handed over in order, up to the
  -- first that the callback refuses, of the further record nothing is, and its part, if any, is forgiven
  -- in the active segment and an I/O error in a sealed one.
  pub replay_segment-torn_log :
      (recs : List LogRecord) (rec : LogRecord) (k : ℕ) (seg : Segment) (priv : S) (max_seq n : ℕ)
      → seg.first_seq ≡ max_seq + 1
      → max_seq < u64_max
      → IsLog xxh3 alloc max_seq recs
      → Fits xxh3 rec
      → alloc (length rec.payload) ≡ true
      → k < header_len + length rec.payload
      → replay_segment xxh3 alloc func
          (frames xxh3 recs ++ take k (frame xxh3 rec))
          seg
          priv
          max_seq
          n
        ≡ settle seg (
            deliver func recs
              (start priv max_seq n)
              λ r. (if k == 0 then done else tolerated (seg.last_seq == 0) eio, r))
  unfolding replay_segment
  replay_segment-torn_log recs rec k seg priv max_seq n first small log fits mem torn =
      let file : List ℕ = frames xxh3 recs ++ take k (frame xxh3 rec) in
      let active = seg.last_seq == 0 in
      let fuel : ℕ = length file - length recs in
      let enough : suc (length file) ≡ length recs + suc fuel =
        omega (arith, length-frames xxh3 recs (take k (frame xxh3 rec))) in
      let not_last : (max_seq == u64_max) ≡ false = ground arith in
      let in_turn : (seg.first_seq == max_seq + 1) ≡ true = ground arith in
      rw (not_last, in_turn)
        (ap (settle seg) (
          (λ i. segment_loop xxh3 alloc func (enough i) active file (start priv max_seq n))
          ∙ segment_loop-frames xxh3 xxh3_fits alloc func recs (suc fuel) active
              (take k (frame xxh3 rec)) (start priv max_seq n) log
          ∙ ap (deliver func recs (start priv max_seq n))
              (λ i r. torn_end xxh3 xxh3_fits alloc func fuel k active rec r fits mem torn i)))
