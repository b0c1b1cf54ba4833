-- ===== src/Wal/Frame.antt =====
-- The frame of a log record (src/vmod_cachetag_wal.c). The hash XXH3_64bits is a parameter.
use libvmod_cachetag.Base.{ℕ, ◌-◌, ◌^◌, ◌≤◌, ◌<◌, ◌≡◌, refl}
use libvmod_cachetag.Base.{List, [], ◌∷◌, ◌++◌}
use libvmod_cachetag.Base.{length, get_or, take, drop}
use libvmod_cachetag.Codec.{le64enc, le64dec, le64dec-le64enc}

-- TAG_WAL_HEADER_LEN and TAG_WAL_HEADER_CSUM
abbrev pub header_len : ℕ
header_len = 32

abbrev pub header_csum : ℕ
header_csum = 24

pub record LogRecord : Type 0 where
  pub type : ℕ
  pub sequence : ℕ
  pub payload : List ℕ

-- "VTW1"
abbrev pub wal_magic : List ℕ
wal_magic = b'V' ∷ b'T' ∷ b'W' ∷ b'1' ∷ []

-- the header's bytes before the checksum
unfoldable pub header_start : LogRecord → List ℕ
header_start rec =
    wal_magic ++ (1 ∷ rec.type ∷ 0 ∷ 0 ∷ []) ++ le64enc rec.sequence ++ le64enc (length rec.payload)

module _ (xxh3 : List ℕ → ℕ) where
  unfoldable pub record_checksum : List ℕ → List ℕ → ℕ
  record_checksum hdr payload = xxh3 (take header_csum hdr ++ payload)

  -- What `cachetag_wal_append` writes.
  unfoldable pub frame : LogRecord → List ℕ
  unfolding record_checksum
  frame rec =
      header_start rec ++ le64enc (record_checksum (header_start rec) rec.payload) ++ rec.payload

  -- The 32 bytes of the header.
  abbrev pub header : LogRecord → List ℕ
  header rec = header_start rec ++ le64enc (record_checksum (header_start rec) rec.payload)

  -- A record whose numbers fit their fields.
  pub record Fits (rec : LogRecord) : Type 0 where
    pub sequence_fits : rec.sequence < 2 ^ 64
    pub payload_fits : length rec.payload ≤ 2 ^ 64 - 1 - header_csum

  module _ (rec : LogRecord) where
    pub frame-header : frame rec ≡ header rec ++ rec.payload
    unfolding frame header_start le64enc
    frame-header = refl

    pub length-header : length (header rec) ≡ header_len
    unfolding header_start le64enc
    length-header = refl

    pub header_type : get_or (header rec) 5 0 ≡ rec.type
    unfolding header_start
    header_type = refl

    pub header_magic :
        (get_or (header rec) 0 0 ≡ b'V')
        × (get_or (header rec) 1 0 ≡ b'T')
        × (get_or (header rec) 2 0 ≡ b'W')
        × (get_or (header rec) 3 0 ≡ b'1')
        × (get_or (header rec) 4 0 ≡ 1)
    unfolding header_start
    header_magic = (refl, refl, refl, refl, refl)

    pub header_checksum :
        record_checksum (header rec) rec.payload ≡ record_checksum (header_start rec) rec.payload
    unfolding header_start le64enc record_checksum
    header_checksum = refl

    pub header_sequence : rec.sequence < 2 ^ 64 → le64dec (drop 8 (header rec)) ≡ rec.sequence
    unfolding header_start le64enc
    header_sequence h =
        le64dec-le64enc rec.sequence
          (le64enc (length rec.payload) ++ le64enc (record_checksum (header_start rec) rec.payload))
          h

    pub header_payload_len :
        length rec.payload < 2 ^ 64 → le64dec (drop 16 (header rec)) ≡ length rec.payload
    unfolding header_start le64enc
    header_payload_len h =
        le64dec-le64enc (length rec.payload)
          (le64enc (record_checksum (header_start rec) rec.payload)) h

    pub header_stored :
        ((bytes : List ℕ) → xxh3 bytes < 2 ^ 64)
        → le64dec (drop header_csum (header rec)) ≡ record_checksum (header_start rec) rec.payload
    unfolding header_start le64enc record_checksum
    header_stored h = le64dec-le64enc (xxh3 (header_start rec ++ rec.payload)) [] (h _)

    -- The parts of a file that begins with the record.
    pub take-frame : (rest : List ℕ) → take header_len (frame rec ++ rest) ≡ header rec
    unfolding frame header_start le64enc
    take-frame rest = refl

    pub drop-frame_header :
        (rest : List ℕ) → drop header_len (frame rec ++ rest) ≡ rec.payload ++ rest
    unfolding frame header_start le64enc
    drop-frame_header rest = refl
