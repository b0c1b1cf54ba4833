-- ===== src/Tests/History.antt =====
-- The purge history at concrete inputs (src/vmod_cachetag_purgemap.c).
use libvmod_cachetag.Base.{
  ℕ, ◌+◌, ◌≡◌, refl, Bool, true, false, Option, none, some, [], ◌∷◌, ◌≤◌, ◌≢◌, arith, ok,
}
use libvmod_cachetag.PurgeMap.Table.{home, Table, table_new, find, endless}
use libvmod_cachetag.PurgeMap.Table.View.{IsProbed, count, find-ne-endless}
use libvmod_cachetag.PurgeMap.Map.{
  PurgeMap, hard, new_map, prepare_upsert, apply_upsert, insert_live, slots_of,
}
use libvmod_cachetag.PurgeMap.Probe.{probe_none, probe_reader_guarded, fold_digest}
use libvmod_cachetag.PurgeMap.Well.{IsWell, IsLoaded, view-table_new, table_new-IsProbed}
use libvmod_cachetag.PurgeMap.Grow.{IsReady, IsCopy, insert_live-IsCopy, prepare_upsert-IsReady}
use libvmod_cachetag.PurgeMap.Upsert.{Upserts, apply_upsert-Upserts}
use libvmod_cachetag.PurgeMap.Verdict.{staleness, probe-staleness}
use libvmod_cachetag.Persist.{PurgeKey}
use libvmod_cachetag.Index.Purge.{Journal, Index, Memory, Reply, accepted, purge}
use libvmod_cachetag.Index.Answer.{Answers}
use libvmod_cachetag.Index.Accept.{purge-Answers}
use libvmod_cachetag.Index.Stale.{probe-registered_now, probe-not_purged}

-- A log that counts its records.
abbrev pub counting : Journal ℕ
counting = record {
  enabled = λ j. true;
  append = λ j type payload. (j + 1, none);
  checkpoint_due = λ j. false;
  checkpoint = λ j m cs. (j, none);
}

abbrev pub plenty : Memory
plenty = record {
  map_alloc = true;
  table_alloc = true;
  batch_alloc = true;
  payload_alloc = true;
  prune_alloc = true;
}

abbrev empty_index : Index ℕ
empty_index = record { purgemap = some new_map; journal = 0; history_max = 0 }

abbrev pub blog : PurgeKey
blog = record { digest_hi = 6; digest_lo = 3 }

abbrev table16 : Table
table16 = table_new 16

abbrev map16 : PurgeMap
map16 = record new_map { table = some table16 }

-- A table without entries, under a hard floor.
abbrev floored : PurgeMap
floored = record map16 { seq = 5; hard_floor = 3 }

new_map-IsWell : IsWell new_map
new_map-IsWell = record {
  tabled = refl;
  clean = refl;
  hard_past = λ g. ground arith;
  soft_past = λ g. ground arith;
  hard_floor_past = omega arith;
  soft_floor_past = omega arith;
  memo_past = omega arith;
}

table16-IsProbed : IsProbed table16
table16-IsProbed = table_new-IsProbed 16 (4, refl)

table16-IsLoaded : IsLoaded 0 table16
unfolding table_new count
table16-IsLoaded = record {
  probed = table16-IsProbed;
  live = refl;
  tombstones = refl;
  size = omega arith;
  load = omega arith;
}

purge-Answers_example :
    (out : Index ℕ × Reply) × (purge counting empty_index plenty (ok blog) hard ≡ some out)
    × Answers ℕ new_map (fold_digest 6 3) hard out.0 out.1
purge-Answers_example =
    purge-Answers counting empty_index plenty new_map blog hard new_map-IsWell refl refl

floored-IsWell : IsWell floored
floored-IsWell = record {
  tabled = table16-IsLoaded;
  clean = refl;
  hard_past = λ g. rw (view-table_new 16 (4, refl) g) (let e : 0 ≤ 5 = omega arith in e);
  soft_past = λ g. rw (view-table_new 16 (4, refl) g) (let e : 0 ≤ 5 = omega arith in e);
  hard_floor_past = omega arith;
  soft_floor_past = omega arith;
  memo_past = omega arith;
}

probe-staleness_example :
    probe_reader_guarded floored 2 (5 ∷ 7 ∷ []) ≡ staleness floored 2 (5 ∷ 7 ∷ [])
probe-staleness_example = probe-staleness floored 2 (5 ∷ 7 ∷ []) floored-IsWell

probe-registered_now_example : probe_reader_guarded floored 5 (5 ∷ 7 ∷ []) ≡ probe_none
probe-registered_now_example =
    probe-registered_now floored 5 (5 ∷ 7 ∷ []) floored-IsWell (omega arith)

prepare_upsert-IsReady_example : IsReady new_map 1 map16
unfolding prepare_upsert
prepare_upsert-IsReady_example = prepare_upsert-IsReady new_map new_map-IsWell true map16 refl

apply_upsert-Upserts_example :
    (r : PurgeMap × Bool) × (apply_upsert map16 5 1 hard ≡ some r)
    × Upserts map16 table16 5 1 hard r.0
apply_upsert-Upserts_example =
    apply_upsert-Upserts map16 table16 5 1 hard refl (omega arith) refl table16-IsLoaded
      (unfold table_new in omega arith)

insert_live-IsCopy_example :
    IsCopy (some table16) 0 32 (insert_live (slots_of (some table16)) (table_new 32))
insert_live-IsCopy_example =
    insert_live-IsCopy (some table16) 0 32 table16-IsLoaded (5, refl) (omega arith)

find-ne-endless_example : find table16 5 ≢ endless
unfolding table_new count
find-ne-endless_example = find-ne-endless table16 table16-IsProbed 5 (omega arith)

-- The index after the purge.
abbrev index_of : Option (Index ℕ × Reply) → Index ℕ
index_of none = empty_index
index_of (some r) = r.0

abbrev purged_index : Index ℕ
purged_index = index_of (purge counting empty_index plenty (ok blog) hard)

purged : purge counting empty_index plenty (ok blog) hard ≡ some (purged_index, accepted)
unfolding purge home fold_digest
purged = refl

probe-not_purged_example :
    (pm' : PurgeMap) × (purged_index.purgemap ≡ some pm')
    × (probe_reader_guarded pm' 0 (9 ∷ []) ≡ probe_reader_guarded new_map 0 (9 ∷ []))
unfolding fold_digest
probe-not_purged_example =
    probe-not_purged counting empty_index plenty new_map blog hard purged_index 0 (9 ∷ [])
      new_map-IsWell refl refl purged refl
