-- ===== src/Persist/RoundTrip.antt =====
-- The payloads of purge records, encoded and decoded (src/vmod_cachetag_index.c).
use libvmod_cachetag.Base.{ℕ, ◌-◌, ◌*◌, ◌^◌, ◌≤◌, ◌<◌, ◌≡◌, refl}
use libvmod_cachetag.Base.{true, List, [], ◌∷◌, ◌++◌, arith}
use libvmod_cachetag.Base.{length, All}
use libvmod_cachetag.Base.{ok}
use libvmod_cachetag.Codec.{le16enc, le64enc, le16dec, le64dec-le64enc}
use libvmod_cachetag.PurgeMap.Map.{Mode}
use libvmod_cachetag.Persist.{PurgeKey, key_purge_payload, decode_key_purge_record}
use libvmod_cachetag.Persist.{
  encode_keys, decode_keys, key_purge_batch_payload, decode_key_purge_batch_record, sort_keys,
}
use mathlib.Core.List.{Perm}
use libvmod_cachetag.Persist.Order.{
  IsAscending, AllDiffer, sort_keys-IsAscending, sort_keys-Perm, adjacent_equal-IsAscending,
}

-- The payload of a purge whose digest fits and whose sequence is neither 0 nor the largest is decoded
-- to that digest, mode and sequence.
pub decode-key_purge_payload :
    (digest_hi digest_lo seq : ℕ) (mode : Mode)
    → digest_hi < 2 ^ 64
    → digest_lo < 2 ^ 64
    → 0 < seq
    → seq < 2 ^ 64 - 1
    → decode_key_purge_record (key_purge_payload digest_hi digest_lo mode seq)
      ≡ ok (record {
        key = record { digest_hi = digest_hi; digest_lo = digest_lo };
        mode = mode;
        seq = seq;
      })
unfolding decode_key_purge_record key_purge_payload le16enc le64enc le16dec
decode-key_purge_payload hi lo seq mode h l p q =
    let get_hi = le64dec-le64enc hi (le64enc lo ++ le64enc seq) h in
    let get_lo = le64dec-le64enc lo (le64enc seq) l in
    let get_seq = le64dec-le64enc seq [] (omega arith) in
    rw (get_hi, get_lo, get_seq) (ground arith)

-- Digests that fit in 64 bits.
abbrev pub AllFit : List PurgeKey → Type 0
AllFit = All (λ k. (k.digest_hi < 2 ^ 64) × (k.digest_lo < 2 ^ 64))

length-encode_keys : (keys : List PurgeKey) → length (encode_keys keys) ≡ length keys * 16
unfolding encode_keys le64enc
length-encode_keys [] = refl
length-encode_keys (k ∷ keys) = omega (arith, length-encode_keys keys)

decode-encode_keys :
    (keys : List PurgeKey) → AllFit keys → decode_keys (length keys) (encode_keys keys) ≡ keys
unfolding decode_keys encode_keys le64enc
decode-encode_keys [] fit = refl
decode-encode_keys (k ∷ keys) fit = rw (
  le64dec-le64enc k.digest_hi (le64enc k.digest_lo ++ encode_keys keys) fit.0.0,
  le64dec-le64enc k.digest_lo (encode_keys keys) fit.0.1,
  decode-encode_keys keys fit.1,
)

-- The payload of a batch of at least two and fewer than 2^32 distinct keys whose digests fit, at a
-- sequence that is neither 0 nor the largest, is decoded, if memory suffices, to the keys in the order
-- of `qsort`, with the mode and the sequence.
pub decode-key_purge_batch_payload :
    (keys : List PurgeKey) (mode : Mode) (seq : ℕ)
    → 2 ≤ length keys
    → length keys < 2 ^ 32
    → AllFit keys
    → AllDiffer keys
    → 0 < seq
    → seq < 2 ^ 64 - 1
    → (sorted : List PurgeKey) × (decode_key_purge_batch_record
          (key_purge_batch_payload keys mode seq)
          true
        ≡ ok (record { keys = sorted; mode = mode; seq = seq }))
      × IsAscending sorted
      × Perm sorted keys
unfolding decode_key_purge_batch_record key_purge_batch_payload le16enc le64enc le16dec
decode-key_purge_batch_payload keys mode seq two few fit differ p q =
    let get_count = le64dec-le64enc (length keys) (le64enc seq ++ encode_keys keys) (omega arith) in
    let get_seq = le64dec-le64enc seq (encode_keys keys) (omega arith) in
    let ascending = sort_keys-IsAscending keys differ in
    let apart = adjacent_equal-IsAscending (sort_keys keys) ascending in
    (
      sort_keys keys,
      rw (get_count, get_seq, length-encode_keys keys, decode-encode_keys keys fit, apart)
          (ground arith),
      ascending,
      sort_keys-Perm keys,
    )
