-- ===== src/Wal/Append/Durable.antt =====
-- The active segment's file after an append (src/vmod_cachetag_wal.c).
use libvmod_cachetag.Base.{ℕ, zero, suc, ◌+◌, ◌-◌, ◌%◌, ◌^◌, ◌≤◌, ◌≡◌, ap, ◌∙◌, refl, sym}
use libvmod_cachetag.Base.{Bool, true, false, Option, none, some, List, [], ◌∷◌, ◌++◌, arith}
use libvmod_cachetag.Base.{ltb, ◌==◌, if◌then◌else◌}
use libvmod_cachetag.Base.{length, take, append_assoc}
use libvmod_cachetag.Base.{Errno}
use libvmod_cachetag.Wal.Frame.{LogRecord, header_len, header, frame, frame-header, length-header}
use libvmod_cachetag.Wal.Log.{Log, Io, Outcome, Write, whole, cut, file_of}
use libvmod_cachetag.Wal.Append.{write_parts, write_record, segment_full, prepare, append}

-- The record that an append writes.
abbrev pub next_record : Log → ℕ → List ℕ → LogRecord
next_record log type payload = record {
  type = type;
  sequence = log.wal.next_seq;
  payload = payload;
}

eq_self : (n : ℕ) → (n == n) ≡ true
eq_self n = ground arith

-- A prefix of a prefix.
take_within {ℓ} : {A : Type ℓ} (n : ℕ) (xs ys : List A) → (k : ℕ) × (take n xs ≡ take k (xs ++ ys))
take_within zero xs ys = (0, refl)
take_within (suc n) [] ys = (0, refl)
take_within (suc n) (x ∷ xs) ys = let (k, e) = take_within n xs ys in (suc k, ap (λ t. x ∷ t) e)

take_past {ℓ} :
    {A : Type ℓ} (n : ℕ) (xs ys : List A) → take (length xs + n) (xs ++ ys) ≡ xs ++ take n ys
take_past n [] ys = ap (λ k. take k ys) (omega arith)
take_past n (x ∷ xs) ys =
    let e : length (x ∷ xs) + n ≡ suc (length xs + n) = omega arith in
    ap (λ k. take k (x ∷ xs ++ ys)) e ∙ ap (λ t. x ∷ t) (take_past n xs ys)

take_all {ℓ} : {A : Type ℓ} (xs : List A) → take (length xs) xs ≡ xs
take_all [] = refl
take_all (x ∷ xs) = ap (λ t. x ∷ t) (take_all xs)

module _ (xxh3 : List ℕ → ℕ) (type : ℕ) (payload : List ℕ) (log : Log) where
  abbrev rec : LogRecord
  rec = next_record log type payload

  -- The count of the record, if the append succeeds, and else the log's refusal from then on.
  abbrev pub Counted : Outcome → ℕ → Type 0
  Counted (log', none) k =
      (k ≡ header_len + length payload)
      × (log'.wal.active.records ≡ log.wal.active.records + 1)
      × (log'.wal.active.bytes ≡ log.wal.active.bytes + (header_len + length payload))
      × (log'.wal.degraded ≡ log.wal.degraded)
  Counted (log', some e) k = log'.wal.degraded ≡ true

  -- The file has grown by the first `k` bytes of the record.
  pub record Appended (out : Outcome) : Type 0 where
    pub k : ℕ
    pub file :
        file_of out.0 log.wal.active.first_seq
        ≡ file_of log log.wal.active.first_seq ++ take k (frame xxh3 rec)
    pub next : out.0.wal.next_seq ≡ (log.wal.next_seq + 1) % 2 ^ 64
    pub counted : Counted out k

  abbrev old : List ℕ
  old = file_of log log.wal.active.first_seq

  two_parts :
      (n : ℕ)
      → (old ++ header xxh3 rec) ++ take n payload ≡ old ++ take (header_len + n) (frame xxh3 rec)
  two_parts n =
      append_assoc old (header xxh3 rec) (take n payload)
      ∙ ap (λ t. old ++ t)
          (sym (take_past n (header xxh3 rec) payload)
            ∙ ap (λ m. take (m + n) (header xxh3 rec ++ payload)) (length-header xxh3 rec)
            ∙ ap (take (header_len + n)) (sym (frame-header xxh3 rec)))

  whole_parts :
      (old ++ header xxh3 rec) ++ payload
      ≡ old ++ take (header_len + length payload) (frame xxh3 rec)
  whole_parts =
      ap (λ t. (old ++ header xxh3 rec) ++ t) (sym (take_all payload)) ∙ two_parts (length payload)

  -- The cases of what the two writes and the `fsync` answer.
  write_parts-Appended :
      (header_write payload_write : Write) (sync : Option Errno)
      → Appended (write_parts xxh3 header_write payload_write sync type payload log)
  write_parts-Appended (cut n e) payload_write sync =
      let (k, p) = take_within n (header xxh3 rec) payload in
      record {
        k = k;
        file =
            rw (eq_self log.wal.active.first_seq)
              (ap (λ t. old ++ t) (p ∙ ap (take k) (sym (frame-header xxh3 rec))));
        next = refl;
        counted = refl;
      }
  write_parts-Appended whole (cut n e) sync = record {
    k = header_len + n;
    file = rw (eq_self log.wal.active.first_seq) (two_parts n);
    next = refl;
    counted = refl;
  }
  write_parts-Appended whole whole (some e) = record {
    k = header_len + length payload;
    file = rw (eq_self log.wal.active.first_seq) whole_parts;
    next = refl;
    counted = refl;
  }
  write_parts-Appended whole whole none = record {
    k = header_len + length payload;
    file = rw (eq_self log.wal.active.first_seq) whole_parts;
    next = refl;
    counted = (refl, refl, refl, refl);
  }

skip {ℓ} :
    {A : Type ℓ} (d o : Bool) (x y z : A)
    → d ≡ false
    → o ≡ true
    → (if d then x else if o then y else z) ≡ y
skip d o x y z h k = rw (h, k)

prepare_open :
    (io : Io) (log : Log)
    → log.wal.degraded ≡ false
    → log.wal.is_open ≡ true
    → prepare io log ≡ (log, none)
unfolding prepare
prepare_open io log healthy ready = skip log.wal.degraded log.wal.is_open _ _ _ healthy ready

-- An append to an open log that is not degraded and needs no new segment, of a payload that is not too
-- long, whatever its writes and its `fsync` answer: the active file grows by a prefix of the record's
-- frame, the sequence number is used up, and the append succeeds only with the whole frame written and
-- counted; a failure marks the log as degraded.
pub append-Appended :
    (xxh3 : List ℕ → ℕ) (io : Io) (type : ℕ) (payload : List ℕ) (log : Log)
    → log.wal.degraded ≡ false
    → log.wal.is_open ≡ true
    → length payload ≤ 2 ^ 64 - 1 - header_len
    → segment_full xxh3 (header_len + length payload) log.wal ≡ false
    → Appended xxh3 type payload log (append xxh3 io type payload log)
unfolding append write_record
append-Appended xxh3 io type payload log healthy ready fits room =
    let small : ltb (2 ^ 64 - 1 - header_len) (length payload) ≡ false = ground arith in
    rw (prepare_open io log healthy ready, small, room)
      (write_parts-Appended xxh3 type payload log io.write_header io.write_payload io.sync)
