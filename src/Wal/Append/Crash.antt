-- ===== src/Wal/Append/Crash.antt =====
-- A replay after an append that may have failed (src/vmod_cachetag_wal.c).
use libvmod_cachetag.Base.{ℕ, zero, suc, ◌+◌, ◌-◌, ◌^◌, ◌≤◌, ◌<◌, ◌≡◌, ap, ◌∙◌, refl, sym}
use libvmod_cachetag.Base.{
  Bool, true, false, Option, none, some, List, [], ◌∷◌, ◌++◌, arith, append_assoc, append-nil,
}
use libvmod_cachetag.Base.{
  ltb, ◌==◌, if◌then◌else◌, Bool-cases, ◌⊎◌, inl, inr, length, take, Errno, eio,
}
use libvmod_cachetag.Wal.Frame.{LogRecord, header_len, frame, Fits}
use libvmod_cachetag.Wal.Replay.{u64_max, Segment, done, tolerated, settle, replay_segment}
use libvmod_cachetag.Wal.Recovery.{frames, deliver, IsLog, length-frame}
use libvmod_cachetag.Wal.Recovery.Torn.{start, replay_segment-torn_log}
use libvmod_cachetag.Wal.Log.{Log, Io, Outcome, file_of}
use libvmod_cachetag.Wal.Append.{segment_full, append}
use libvmod_cachetag.Wal.Append.Durable.{next_record, Appended, append-Appended}

take_beyond {ℓ} : {A : Type ℓ} (k : ℕ) (xs : List A) → length xs ≤ k → take k xs ≡ xs
take_beyond zero [] h = refl
take_beyond zero (x ∷ xs) h = absurd (omega arith)
take_beyond (suc k) [] h = refl
take_beyond (suc k) (x ∷ xs) h = ap (λ t. x ∷ t) (take_beyond k xs (omega arith))

frames-append :
    (xxh3 : List ℕ → ℕ) (recs : List LogRecord) (rec : LogRecord)
    → frames xxh3 (recs ++ rec ∷ []) ≡ frames xxh3 recs ++ frame xxh3 rec
unfolding frames
frames-append xxh3 [] rec = append-nil (frame xxh3 rec)
frames-append xxh3 (r ∷ recs) rec =
    ap (λ t. frame xxh3 r ++ t) (frames-append xxh3 recs rec)
    ∙ sym (append_assoc (frame xxh3 r) (frames xxh3 recs) (frame xxh3 rec))

-- The log with one more record in turn.
IsLog-append :
    (xxh3 : List ℕ → ℕ) (alloc : ℕ → Bool) (last : ℕ) (recs : List LogRecord) (rec : LogRecord)
    → IsLog xxh3 alloc last recs
    → Fits xxh3 rec
    → alloc (length rec.payload) ≡ true
    → rec.sequence ≡ last + length recs + 1
    → IsLog xxh3 alloc last (recs ++ rec ∷ [])
IsLog-append xxh3 alloc last [] rec log fits mem next = (fits, mem, omega (arith, next), tt)
IsLog-append xxh3 alloc last (r ∷ recs) rec (f, a, s, log) fits mem next =
    (f, a, s, IsLog-append xxh3 alloc (last + 1) recs rec log fits mem (omega (arith, next)))

forgiven :
    (k : ℕ) (seg : Segment)
    → seg.last_seq ≡ 0
    → (if k == 0 then done else tolerated (seg.last_seq == 0) eio) ≡ done
forgiven k seg h = rw h (elim (Bool-cases (k == 0)) [ inl z ↦ rw z | inr p ↦ rw p ])

module _ {ℓ} {S : Type ℓ} (xxh3 : List ℕ → ℕ) (xxh3_fits : (bytes : List ℕ) → xxh3 bytes < 2 ^ 64)
    (alloc : ℕ → Bool) (func : S → LogRecord → S × Option Errno) where
  -- The replay of an active segment hands over the records and ends well.
  abbrev pub Recovers : List LogRecord → List ℕ → Segment → S → ℕ → ℕ → Type ℓ
  Recovers recs file seg priv max_seq n =
      replay_segment xxh3 alloc func file seg priv max_seq n
      ≡ settle seg (deliver func recs (start priv max_seq n) λ r. (done, r))

  module _ (recs : List LogRecord) (rec : LogRecord) (seg : Segment) (priv : S) (max_seq n : ℕ)
      (first : seg.first_seq ≡ max_seq + 1) (active : seg.last_seq ≡ 0) (small : max_seq < u64_max)
      (log : IsLog xxh3 alloc max_seq recs) (fits : Fits xxh3 rec)
      (mem : alloc (length rec.payload) ≡ true)
      (next : rec.sequence ≡ max_seq + length recs + 1) where
    Recovers-torn :
        (k : ℕ)
        → k < header_len + length rec.payload
        → Recovers recs (frames xxh3 recs ++ take k (frame xxh3 rec)) seg priv max_seq n
    Recovers-torn k torn =
        replay_segment-torn_log xxh3 xxh3_fits alloc func recs rec k seg priv max_seq n first small
          log fits mem torn
        ∙ λ i.
            settle seg (deliver func recs (start priv max_seq n) λ r. (forgiven k seg active i, r))

    Recovers-whole :
        (k : ℕ)
        → header_len + length rec.payload ≤ k
        → Recovers
            (recs ++ rec ∷ [])
            (frames xxh3 recs ++ take k (frame xxh3 rec))
            seg
            priv
            max_seq
            n
    Recovers-whole k full =
        let all : List LogRecord = recs ++ rec ∷ [] in
        let file : frames xxh3 recs ++ take k (frame xxh3 rec) ≡ frames xxh3 all ++ [] =
          ap (λ t. frames xxh3 recs ++ t)
            (take_beyond k (frame xxh3 rec) (omega (arith, length-frame xxh3 rec)))
          ∙ sym (frames-append xxh3 recs rec)
          ∙ sym (append-nil (frames xxh3 all)) in
        let more = IsLog-append xxh3 alloc max_seq recs rec log fits mem next in
        (λ i. replay_segment xxh3 alloc func (file i) seg priv max_seq n)
        ∙ replay_segment-torn_log xxh3 xxh3_fits alloc func all rec 0 seg priv max_seq n first small
            more fits mem (omega arith)

  -- What a replay finds in the active file after an append that ended so.
  abbrev pub Recovered : List LogRecord → LogRecord → Segment → S → ℕ → ℕ → Outcome → Type ℓ
  Recovered recs rec seg priv max_seq n (log', none) =
      Recovers (recs ++ rec ∷ []) (file_of log' seg.first_seq) seg priv max_seq n
  Recovered recs rec seg priv max_seq n (log', some e) =
      Recovers recs (file_of log' seg.first_seq) seg priv max_seq n
      ⊎ Recovers (recs ++ rec ∷ []) (file_of log' seg.first_seq) seg priv max_seq n

  Appended-Recovered :
      (recs : List LogRecord) (type : ℕ) (payload : List ℕ) (log : Log) (priv : S) (max_seq n : ℕ)
      → file_of log log.wal.active.first_seq ≡ frames xxh3 recs
      → log.wal.active.first_seq ≡ max_seq + 1
      → log.wal.active.last_seq ≡ 0
      → max_seq < u64_max
      → IsLog xxh3 alloc max_seq recs
      → Fits xxh3 (next_record log type payload)
      → alloc (length payload) ≡ true
      → log.wal.next_seq ≡ max_seq + length recs + 1
      → (out : Outcome) → Appended xxh3 type payload log out
      → Recovered recs (next_record log type payload) log.wal.active priv max_seq n out
  Appended-Recovered recs type payload log priv max_seq n held first active small logged fits mem
        next (log', none) a =
      let rec = next_record log type payload in
      rw (a.file, held)
        (Recovers-whole recs rec log.wal.active priv max_seq n first active small logged fits mem
          next a.k (omega (arith, a.counted.0)))
  Appended-Recovered recs type payload log priv max_seq n held first active small logged fits mem
        next (log', some e) a =
      let rec = next_record log type payload in
      elim (Bool-cases (ltb a.k (header_len + length payload))) [
        | inl torn ↦ inl (
            rw (a.file, held)
              (Recovers-torn recs rec log.wal.active priv max_seq n first active small logged fits
                mem next a.k (ground arith)))
        | inr all ↦ inr (
            rw (a.file, held)
              (Recovers-whole recs rec log.wal.active priv max_seq n first active small logged fits
                mem next a.k (ground arith)))
      ]

-- For a hash that fits in 64 bits, an open log that is not degraded, whose active file holds `recs`,
-- in turn from `max_seq` on, and an append of a payload that fits, and memory for it, in a segment
-- with room, whatever its writes and its `fsync` answer: a replay of the active file after it ends
-- well, and hands over `recs` and the new record if the append succeeded, and if it failed either
-- `recs` alone or `recs` and the new record, up to the first record that the callback refuses.
pub replay_segment-append :
    {S : Type 0} (xxh3 : List ℕ → ℕ) (xxh3_fits : (bytes : List ℕ) → xxh3 bytes < 2 ^ 64)
    (alloc : ℕ → Bool) (func : S → LogRecord → S × Option Errno) (io : Io) (recs : List LogRecord)
    (type : ℕ) (payload : List ℕ) (log : Log) (priv : S) (max_seq n : ℕ)
    → log.wal.degraded ≡ false
    → log.wal.is_open ≡ true
    → length payload ≤ 2 ^ 64 - 1 - header_len
    → segment_full xxh3 (header_len + length payload) log.wal ≡ false
    → file_of log log.wal.active.first_seq ≡ frames xxh3 recs
    → log.wal.active.first_seq ≡ max_seq + 1
    → log.wal.active.last_seq ≡ 0
    → IsLog xxh3 alloc max_seq recs
    → alloc (length payload) ≡ true
    → log.wal.next_seq ≡ max_seq + length recs + 1
    → log.wal.next_seq < 2 ^ 64
    → Recovered xxh3 xxh3_fits alloc func recs
        (next_record log type payload)
        log.wal.active
        priv
        max_seq
        n
        (append xxh3 io type payload log)
replay_segment-append xxh3 xxh3_fits alloc func io recs type payload log priv max_seq n healthy
      ready fits room held first active logged mem next in_range =
    Appended-Recovered xxh3 xxh3_fits alloc func recs type payload log priv max_seq n held first
      active (omega arith) logged (record { sequence_fits = in_range; payload_fits = omega arith })
      mem next (append xxh3 io type payload log)
      (append-Appended xxh3 io type payload log healthy ready fits room)
