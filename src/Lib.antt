-- ===== src/Lib.antt =====
-- A model of the core of libvmod-cachetag, a Varnish module that invalidates cached objects by tag.
--
-- An object is registered with the digests ("folds") of its tags at the sequence that the purge map
-- then has. A purge of a tag is first written to the log and then entered in the purge map at the
-- next sequence; no object is touched. A later lookup probes the map: an object is stale if one of
-- its folds was purged after its registration. At the start the map is restored from the last
-- checkpoint and the log behind it.
--
-- The files, and the code that they are about:
--   * Base: names of the libraries passed on, and lists, Boolean tests, bit masks and error numbers.
--   * Codec: the little-endian integers of src/cachetag_util.h.
--   * PurgeMap (src/vmod_cachetag_purgemap.c): Table is the hash table and its probe loops
--     (table_new, insert_existing, probe_one), Map the map with its growth and upsert
--     (rebuild_locked, prepare_upsert_locked, prepare_batch_locked, apply_upsert_locked), Probe the
--     verdicts (probe_reader_guarded, probe_snapshots, generation), Prune the bounds of the history
--     (select, prune_locked, reclaim_locked). Scan, Partition and Select below Prune are about the
--     selection of the cutoff, Floors, Bounds, Rebuilt, Keeps and Verdicts about what a prune keeps,
--     Reclaim, Reclaimed and Kept about what a reclaim keeps.
--     Table.View gives a table's meaning, the two latest
--     sequences of each fold; Well is the invariant of the map; Walk, Loops, Spots, Assoc, Insert,
--     Rebuild, Grow, Upsert and Verdict hold the proofs.
--   * Persist (src/vmod_cachetag_index.c): the payloads of purge records, both ways; Order is
--     about the order of the keys of a batch.
--   * Wal (src/vmod_cachetag_wal.c): Frame is a record on disk, Replay the replay of a segment, Log
--     the open log with its files and manifest, Append preparing, rotating and appending, Checkpoint
--     a checkpoint's file in both directions, Compact the taking of a checkpoint, Start the check of
--     the manifest's ranges and the replay of all segments. Recovery and the
--     children of Append and Checkpoint hold the proofs.
--   * Index (src/vmod_cachetag_purgemap.c, src/vmod_cachetag_index.c): Purge is purge and
--     purge_batch over an interface of the log, Restore the replay into the map and the decision of
--     cachetag_stale; Answer, Accept, Stale, Limited and Limits hold the proofs.
--   * Objects (src/vmod_cachetag_index.c): Segments is the directory of the dense object table
--     (object_segment_slots, object_segment_for_slot, object_at), Side a side table from an object's
--     address to its slot (side_table_find_locked, side_table_insert_locked,
--     side_table_tombstone_locked), Migrate the pair of tables of an incremental rehash
--     (side_find_locked, side_migrate_some_locked, side_publish_migration_locked,
--     side_prepare_insert_locked), Interning the canonical order of folds and the registry of
--     their shared sets (intern_sort, intern_lookup_locked, intern_migrate_locked), Sizing
--     the sizes that the tables grow and shrink to and the observation of low water
--     (object_low_water_target_locked, side_soft_resize_locked, low_water_ready_locked). Their children hold the proofs.
--   * Tests: runs at concrete inputs.
--
-- How the code is rendered. A file is the list of its bytes, and reads are short only at its end
-- and do not fail. The outcomes of the other system calls and of allocations are arguments of the
-- operations, calls in a row that fail alike as one, so that the theorems hold for every pattern of
-- these failures. XXH3_64bits is a parameter whose results fit in 64
-- bits. Keys come with their digests. `none` in place of a result is an assertion that fails or a
-- loop that does not end. `& mask` is the remainder by the number of slots, a power of two; a table
-- has 24 bytes per slot, so that the products of slots by 100 stay below 2^64. The fuel of a probe
-- loop is the number of slots, of the replay of a segment the length of its file plus one, of a
-- doubling 64, of the selection the number of its values, and of the loops of a side table the number
-- of its buckets; the theorems show that they are enough.
--
-- Not modelled: the mutexes and the readers' gate (operations are whole), the freeing of retired
-- tables, counters and gauges, the test hooks, the text of the manifest and the collection of orphan
-- files (src/vmod_cachetag_wal.c), the attaching, sweeping and background resizing of objects and the
-- release of their shared sets (src/vmod_cachetag_index.c), and the VCL interface
-- (src/vmod_cachetag.c). xxhash.h is a copy of
-- another project's library.
mod Base
pub mod Codec
pub mod PurgeMap
pub mod Persist
pub mod Wal
pub mod Index
pub mod Objects
pub mod Tests
