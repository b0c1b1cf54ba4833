-- ===== src/PurgeMap/Well.antt =====
-- The well-formed purge map, and its history (src/vmod_cachetag_purgemap.c).
use libvmod_cachetag.Base.{ℕ, zero, suc, ◌*◌, ◌≤◌, ◌≡◌, refl}
use libvmod_cachetag.Base.{Bool, false, Option, none, some, arith}
use libvmod_cachetag.Base.{length, replicate}
use libvmod_cachetag.Base.{length-replicate, get_or-replicate}
use libvmod_cachetag.PurgeMap.Table.{Table, slot, is_live, table_new, zeroed, empty_fold, find}
use libvmod_cachetag.PurgeMap.Table.Walk.{IsSized}
use libvmod_cachetag.PurgeMap.Table.View.{
  view, IsProbed, count, is_empty, is_tombstone, find_sound, view-absent,
}
use libvmod_cachetag.PurgeMap.Map.{PurgeMap, initial_slots, max_load_percent}

-- A table with `entries` live slots, no tombstone, an empty slot and the load under the limit.
pub record IsLoaded (entries : ℕ) (t : Table) : Type 0 where
  pub probed : IsProbed t
  pub live : count is_live t ≡ entries
  pub tombstones : count is_tombstone t ≡ 0
  pub size : initial_slots ≤ length t
  pub load : entries * 100 ≤ length t * max_load_percent

abbrev pub HasTable : ℕ → Option Table → Type 0
HasTable entries none = entries ≡ 0
HasTable entries (some t) = IsLoaded entries t

abbrev pub history : Option Table → ℕ → Option (ℕ × ℕ)
history none g = none
history (some t) g = view t g

abbrev pub hard_part : Option (ℕ × ℕ) → ℕ
hard_part none = 0
hard_part (some (h, s)) = h

abbrev pub soft_part : Option (ℕ × ℕ) → ℕ
soft_part none = 0
soft_part (some (h, s)) = s

-- The latest hard and soft purge of a fold that the table records, 0 for none.
abbrev pub hard_of : PurgeMap → ℕ → ℕ
hard_of pm g = hard_part (history pm.table g)

abbrev pub soft_of : PurgeMap → ℕ → ℕ
soft_of pm g = soft_part (history pm.table g)

pub record IsWell (pm : PurgeMap) : Type 0 where
  pub tabled : HasTable pm.nentry pm.table
  pub clean : pm.ntombstone ≡ 0
  pub hard_past : (g : ℕ) → hard_of pm g ≤ pm.seq
  pub soft_past : (g : ℕ) → soft_of pm g ≤ pm.seq
  pub hard_floor_past : pm.hard_floor ≤ pm.seq
  pub soft_floor_past : pm.soft_floor ≤ pm.seq
  pub memo_past : pm.memo_seq ≤ pm.seq

count-zeroed : (p : ℕ → Bool) (n : ℕ) → p empty_fold ≡ false → count p (replicate n zeroed) ≡ 0
unfolding count
count-zeroed p zero h = refl
count-zeroed p (suc n) h = rw h (omega (arith, count-zeroed p n h))

count_empty-zeroed : (n : ℕ) → count is_empty (replicate n zeroed) ≡ n
unfolding count
count_empty-zeroed zero = refl
count_empty-zeroed (suc n) = omega (arith, count_empty-zeroed n)

slot-table_new : (n p : ℕ) → slot (table_new n) p ≡ zeroed
unfolding table_new
slot-table_new n p = get_or-replicate n p zeroed

-- A new table is empty.
module _ (n : ℕ) (sized : IsSized n) where
  pub table_new-IsProbed : IsProbed (table_new n)
  unfolding table_new
  table_new-IsProbed = record {
    sized = rw (length-replicate n zeroed) sized;
    reach = λ p h live. cc (rw (get_or-replicate n p zeroed) at live);
  }

  pub view-table_new : (g : ℕ) → view (table_new n) g ≡ none
  unfolding view
  view-table_new g = view-absent (table_new n) (find (table_new n) g) λ p e.
      let (h, eq, live) = find_sound (table_new n) g p table_new-IsProbed.sized e in
      cc (slot-table_new n p, eq, live)

pub count-table_new :
    (n : ℕ)
    → (count is_empty (table_new n) ≡ n)
      × (count is_tombstone (table_new n) ≡ 0)
      × (length (table_new n) ≡ n)
unfolding table_new
count-table_new n =
    (count_empty-zeroed n, count-zeroed is_tombstone n refl, length-replicate n zeroed)
