-- ===== src/Persist.antt =====
-- The payloads of the log's purge records (src/vmod_cachetag_index.c).
pub mod Order
pub mod RoundTrip
use libvmod_cachetag.Base.{
  ℕ, zero, suc, ◌+◌, ◌-◌, ◌*◌, ◌/◌, ◌%◌, ◌^◌, ◌≤◌, ◌<◌, ◌≡◌, ◌≢◌, ap, ◌∙◌, refl, sym,
}
use libvmod_cachetag.Base.{
  Bool, true, false, not, ◌&&◌, ◌||◌, Option, none, some, List, [], ◌∷◌, ◌++◌, arith,
}
use libvmod_cachetag.Base.{ltb, leb, ◌==◌, if◌then◌else◌, ==_iff, Bool-cases, ◌⊎◌, inl, inr, ◌↔◌}
use libvmod_cachetag.Base.{
  length, get_or, set, replicate, All, take, drop, append_assoc, append-nil,
}
use libvmod_cachetag.Base.{
  length-set, length-append, length-replicate, get_or-replicate, get_or-set_self, get_or-set_ne,
}
use libvmod_cachetag.Base.{Result, ok, err, Errno, einval, enomem}
use libvmod_cachetag.Codec.{le16enc, le64enc, le16dec, le64dec}
use libvmod_cachetag.PurgeMap.Map.{Mode, hard, soft}

-- TAG_REPLAY_KEY_PURGE and TAG_REPLAY_KEY_PURGE_BATCH
abbrev pub key_purge : ℕ
key_purge = 3

abbrev pub key_purge_batch : ℕ
key_purge_batch = 4

pub record PurgeKey : Type 0 where
  pub digest_hi : ℕ
  pub digest_lo : ℕ

abbrev pub mode_byte : Mode → ℕ
mode_byte hard = 1
mode_byte soft = 2

abbrev pub byte_mode : ℕ → Option Mode
byte_mode b = if b == 1 then some hard else if b == 2 then some soft else none

-- The 32 bytes that `cachetag_persist_key_purge_digest` appends.
unfoldable pub key_purge_payload : ℕ → ℕ → Mode → ℕ → List ℕ
key_purge_payload digest_hi digest_lo mode seq =
    le16enc 2
    ++ (mode_byte mode ∷ 0 ∷ replicate 4 0)
    ++ le64enc digest_hi
    ++ le64enc digest_lo
    ++ le64enc seq

pub record KeyPurge : Type 0 where
  pub key : PurgeKey
  pub mode : Mode
  pub seq : ℕ

abbrev with_mode {ℓ} : {A : Type ℓ} → Option Mode → (Mode → Result A) → Result A
with_mode none f = err einval
with_mode (some mode) f = f mode

abbrev bad_seq : ℕ → Bool
bad_seq seq = seq == 0 || seq == 2 ^ 64 - 1

unfoldable pub decode_key_purge_record : List ℕ → Result KeyPurge
decode_key_purge_record p =
    if not (length p == 32) || not (le16dec p == 2)
    then err einval
    else let seq = le64dec (drop 24 p) in
      if bad_seq seq
      then err einval
      else with_mode (byte_mode (get_or p 2 0)) λ mode. ok (record {
        key = record { digest_hi = le64dec (drop 8 p); digest_lo = le64dec (drop 16 p) };
        mode = mode;
        seq = seq;
      })

unfoldable pub encode_keys : List PurgeKey → List ℕ
encode_keys [] = []
encode_keys (k ∷ keys) = (le64enc k.digest_hi ++ le64enc k.digest_lo) ++ encode_keys keys

-- The payload of `cachetag_persist_key_purge_batch`; `calloc` leaves zeros in bytes 3 to 7.
unfoldable pub key_purge_batch_payload : List PurgeKey → Mode → ℕ → List ℕ
unfolding encode_keys
key_purge_batch_payload keys mode seq =
    le16enc 1
    ++ (mode_byte mode ∷ 0 ∷ replicate 4 0)
    ++ le64enc (length keys)
    ++ le64enc seq
    ++ encode_keys keys

-- `cachetag_purge_key_compare (a, b) <= 0`, and `== 0`
abbrev pub key_le : PurgeKey → PurgeKey → Bool
key_le a b =
    if a.digest_hi == b.digest_hi then leb a.digest_lo b.digest_lo else ltb a.digest_hi b.digest_hi

abbrev pub key_eq : PurgeKey → PurgeKey → Bool
key_eq a b = a.digest_hi == b.digest_hi && a.digest_lo == b.digest_lo

-- `qsort`
unfoldable pub insert_key : PurgeKey → List PurgeKey → List PurgeKey
insert_key k [] = k ∷ []
insert_key k (j ∷ keys) = if key_le k j then k ∷ j ∷ keys else j ∷ insert_key k keys

unfoldable pub sort_keys : List PurgeKey → List PurgeKey
unfolding insert_key
sort_keys [] = []
sort_keys (k ∷ keys) = insert_key k (sort_keys keys)

unfoldable pub adjacent_equal : List PurgeKey → Bool
adjacent_equal [] = false
adjacent_equal (a ∷ []) = false
adjacent_equal (a ∷ b ∷ keys) = key_eq a b || adjacent_equal (b ∷ keys)

unfoldable pub decode_keys : ℕ → List ℕ → List PurgeKey
decode_keys zero p = []
decode_keys (suc n) p =
    record { digest_hi = le64dec p; digest_lo = le64dec (drop 8 p) } ∷ decode_keys n (drop 16 p)

pub record BatchPurge : Type 0 where
  pub keys : List PurgeKey
  pub mode : Mode
  pub seq : ℕ

-- The keys come back sorted; two equal ones are refused.
abbrev distinct_keys : Mode → ℕ → List PurgeKey → Result BatchPurge
distinct_keys mode seq keys =
    if adjacent_equal keys then err einval else ok (record { keys = keys; mode = mode; seq = seq })

abbrev bad_count : ℕ → ℕ → Bool
bad_count nkeys payload_len =
    ltb nkeys 2
    || ltb (2 ^ 32 - 1) nkeys
    || ltb ((2 ^ 64 - 1 - 24) / 16) nkeys
    || not (payload_len == 24 + nkeys * 16)

unfoldable pub decode_key_purge_batch_record : List ℕ → Bool → Result BatchPurge
unfolding decode_keys sort_keys adjacent_equal
decode_key_purge_batch_record p alloc =
    if ltb (length p) 24 || not (le16dec p == 1)
    then err einval
    else let nkeys = le64dec (drop 8 p) in
      if bad_count nkeys (length p)
      then err einval
      else let seq = le64dec (drop 16 p) in
        if bad_seq seq
        then err einval
        else with_mode (byte_mode (get_or p 2 0)) λ mode.
          if alloc
          then distinct_keys mode seq (sort_keys (decode_keys nkeys (drop 24 p)))
          else err enomem
