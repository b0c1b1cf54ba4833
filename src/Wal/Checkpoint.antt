-- ===== src/Wal/Checkpoint.antt =====
-- A checkpoint's file, written and read back (src/vmod_cachetag_wal.c).
pub mod RoundTrip
pub mod Whole
use libvmod_cachetag.Base.{
  ℕ, zero, suc, ◌+◌, ◌-◌, ◌*◌, ◌/◌, ◌%◌, ◌^◌, ◌≤◌, ◌<◌, ◌≡◌, ◌≢◌, ap, ◌∙◌, refl, sym,
}
use libvmod_cachetag.Base.{
  Bool, true, false, not, ◌&&◌, ◌||◌, Option, none, some, List, [], ◌∷◌, ◌++◌, arith,
}
use libvmod_cachetag.Base.{ltb, leb, ◌==◌, if◌then◌else◌, ==_iff, Bool-cases, ◌⊎◌, inl, inr, ◌↔◌}
use libvmod_cachetag.Base.{
  length, get_or, set, replicate, All, take, drop, append_assoc, append-nil,
}
use libvmod_cachetag.Base.{
  length-set, length-append, length-replicate, get_or-replicate, get_or-set_self, get_or-set_ne,
}
use libvmod_cachetag.Base.{Result, ok, err, Errno, einval, eio, enomem, efbig, ebusy, enoent}
use libvmod_cachetag.Codec.{le16enc, le16dec, le64enc, le64dec}
use libvmod_cachetag.Wal.Meta.{CheckpointMeta, CheckpointEntry}
use libvmod_cachetag.Wal.Replay.{Segment, u64_max}
use libvmod_cachetag.Wal.Log.{
  Wal, Log, Disk, CheckpointRef, Outcome, Io, fail, on_success, manifest_publish, Publish,
}
use libvmod_cachetag.Wal.Append.{prepare, rotate}

-- TAG_CHECKPOINT_HEADER_LEN, TAG_CHECKPOINT_ENTRY_LEN and TAG_CHECKPOINT_FOOTER_LEN
abbrev pub checkpoint_header_len : ℕ
checkpoint_header_len = 88

abbrev pub checkpoint_entry_len : ℕ
checkpoint_entry_len = 24

abbrev pub checkpoint_footer_len : ℕ
checkpoint_footer_len = 8

abbrev pub max_entries : ℕ
max_entries = (u64_max - checkpoint_header_len - checkpoint_footer_len) / checkpoint_entry_len

abbrev pub checkpoint_bytes : ℕ → ℕ
checkpoint_bytes entries =
    checkpoint_header_len + entries * checkpoint_entry_len + checkpoint_footer_len

-- The test of an entry, the same on both sides.
unfoldable pub entry_fits : CheckpointMeta → CheckpointEntry → Bool
entry_fits m c =
    not (c.fold == 0)
    && (not (c.fold == u64_max)
        && (not (c.hard_sequence == 0 && c.soft_sequence == 0)
            && (leb c.hard_sequence m.purge_sequence && leb c.soft_sequence m.purge_sequence)))

unfoldable pub entry_bytes : CheckpointEntry → List ℕ
entry_bytes c = le64enc c.fold ++ le64enc c.hard_sequence ++ le64enc c.soft_sequence

abbrev pub before_rest : CheckpointEntry → Option (List ℕ) → Option (List ℕ)
before_rest c none = none
before_rest c (some bytes) = some (entry_bytes c ++ bytes)

-- The loop of `cachetag_wal_checkpoint` over what `next` yields; `none` is EINVAL.
unfoldable pub emit_entries : CheckpointMeta → ℕ → List CheckpointEntry → Option (List ℕ)
emit_entries m emitted [] = if emitted == m.entries then some [] else none
emit_entries m emitted (c ∷ cs) =
    let further = emit_entries m (emitted + 1) cs in
    if leb m.entries emitted || not (entry_fits m c) then none else before_rest c further

-- The callbacks of a replay, on a state.
pub record Restorer {ℓ} (S : Type ℓ) : Type ℓ where
  pub begin : S → CheckpointMeta → S × Option Errno
  pub entry : S → CheckpointEntry → S × Option Errno

abbrev pub meta_of_ref : CheckpointRef → CheckpointMeta
meta_of_ref c = record {
  purge_sequence = c.purge_sequence;
  wal_sequence = c.wal_sequence;
  hard_floor = c.hard_floor;
  soft_floor = c.soft_floor;
  entries = c.entries;
}

abbrev pub when_ok {ℓ} : {S : Type ℓ} → S × Option Errno → (S → S × Option Errno) → S × Option Errno
when_ok (s, none) next = next s
when_ok (s, some e) next = (s, some e)

unfoldable pub decode_entry : List ℕ → CheckpointEntry
decode_entry file = record {
  fold = le64dec file;
  hard_sequence = le64dec (drop 8 file);
  soft_sequence = le64dec (drop 16 file);
}

module _ {ℓ} {S : Type ℓ} (cb : Restorer S) (m : CheckpointMeta) where
  -- The loop of the replay over `n` entries.
  unfoldable pub read_entries : ℕ → List ℕ → S → S × Option Errno
  read_entries zero file s = (s, none)
  read_entries (suc n) file s =
      let c = decode_entry file in
      if not (length (take checkpoint_entry_len file) == checkpoint_entry_len)
      then (s, some eio)
      else if not (entry_fits m c)
      then (s, some einval)
      else when_ok (cb.entry s c) λ s'. read_entries n (drop checkpoint_entry_len file) s'

-- What the system answers to a replay: the path and the hash's state may not be had, and opening and
-- closing the file may fail.
pub record ReplayIo : Type 0 where
  pub path_alloc : Bool
  pub open_file : Result (List ℕ)
  pub state_alloc : Bool
  pub close_file : Option Errno

abbrev on_opened {ℓ} :
    {S : Type ℓ} → Result (List ℕ) → S → (List ℕ → S × Option Errno) → S × Option Errno
on_opened (err e) s next = (s, some e)
on_opened (ok file) s next = next file

-- An error of closing the file is reported unless there is one already.
abbrev pub closing {ℓ} : {S : Type ℓ} → Option Errno → S × Option Errno → S × Option Errno
closing e (s, some r) = (s, some r)
closing e (s, none) = (s, e)

-- What follows the entries: the checksum, and then the end of the file.
unfoldable pub check_sum {ℓ} : {S : Type ℓ} → List ℕ → ℕ → ℕ → S → S × Option Errno
check_sum footer checksum expected s =
    if ltb (length footer) checkpoint_footer_len
    then (s, some eio)
    else if not (le64dec footer == checksum) || not (checksum == expected)
    then (s, some einval)
    else if not (length (drop checkpoint_footer_len footer) == 0)
    then (s, some einval)
    else (s, none)

module _ (xxh3 : List ℕ → ℕ) where
  unfoldable pub checkpoint_header : Wal → CheckpointMeta → ℕ → List ℕ
  checkpoint_header wal m generation =
      (b'V' ∷ b'T' ∷ b'C' ∷ b'1' ∷ [])
      ++ le16enc 1
      ++ le16enc checkpoint_header_len
      ++ le64enc generation
      ++ le64enc wal.root_id_hi
      ++ le64enc wal.root_id_lo
      ++ le64enc (xxh3 wal.namespace)
      ++ le64enc m.purge_sequence
      ++ le64enc m.wal_sequence
      ++ le64enc m.hard_floor
      ++ le64enc m.soft_floor
      ++ le64enc m.entries
      ++ replicate 8 0

  -- The file: the header, the entries and their checksum.
  unfoldable pub checkpoint_file : Wal → CheckpointMeta → ℕ → List ℕ → List ℕ
  checkpoint_file wal m generation bytes =
      let body = checkpoint_header wal m generation ++ bytes in body ++ le64enc (xxh3 body)

  -- the header's magic and version, and its fields against the manifest's
  unfoldable pub known_header : List ℕ → Bool
  known_header h =
      get_or h 0 0 == b'V'
      && (get_or h 1 0 == b'T'
          && (get_or h 2 0 == b'C'
              && (get_or h 3 0 == b'1'
                  && (le16dec (drop 4 h) == 1 && le16dec (drop 6 h) == checkpoint_header_len))))

  unfoldable pub same_header : Wal → CheckpointRef → List ℕ → Bool
  same_header wal c h =
      le64dec (drop 8 h) == c.generation
      && (le64dec (drop 16 h) == wal.root_id_hi
          && (le64dec (drop 24 h) == wal.root_id_lo
              && (le64dec (drop 32 h) == xxh3 wal.namespace
                  && (le64dec (drop 40 h) == c.purge_sequence
                      && (le64dec (drop 48 h) == c.wal_sequence
                          && (le64dec (drop 56 h) == c.hard_floor
                              && (le64dec (drop 64 h) == c.soft_floor
                                  && (le64dec (drop 72 h) == c.entries
                                      && le64dec (drop 80 h) == 0))))))))

  unfoldable pub right_size : CheckpointRef → Bool
  right_size c = leb c.entries max_entries && c.bytes == checkpoint_bytes c.entries

  unfoldable pub check_footer {ℓ} : {S : Type ℓ} → CheckpointRef → List ℕ → S → S × Option Errno
  check_footer c file s =
      let body_len = checkpoint_header_len + c.entries * checkpoint_entry_len in
      check_sum (drop body_len file) (xxh3 (take body_len file)) c.checksum s

  -- From the first read of the opened file on, until it is closed.
  unfoldable pub replay_opened {ℓ} :
      {S : Type ℓ} → Restorer S → Wal → CheckpointRef → List ℕ → S → S × Option Errno
  replay_opened cb wal c file s =
      let m = meta_of_ref c in
      let h = take checkpoint_header_len file in
      if not (length h == checkpoint_header_len)
      then (s, some eio)
      else if not (known_header h) || not (same_header wal c h) || not (right_size c)
      then (s, some einval)
      else when_ok (cb.begin s m) λ s1.
        when_ok (read_entries cb m c.entries (drop checkpoint_header_len file) s1)
          λ s2. check_footer c file s2

  -- `cachetag_wal_replay_checkpoint`, when the manifest names a checkpoint.
  unfoldable pub replay_checkpoint {ℓ} :
      {S : Type ℓ} → Restorer S → Wal → CheckpointRef → ReplayIo → S → S × Option Errno
  replay_checkpoint cb wal c io s =
      if not io.path_alloc
      then (s, some einval)
      else on_opened io.open_file s λ file.
        if not io.state_alloc
        then (s, some enomem)
        else closing io.close_file (replay_opened cb wal c file s)
