-- ===== src/PurgeMap/Grow.antt =====
-- Rebuilding the table, for room or for growth (src/vmod_cachetag_purgemap.c).
use libvmod_cachetag.Base.{ℕ, zero, suc, ◌+◌, ◌*◌, ◌^◌, ◌≤◌, ◌<◌, ◌≡◌, ap, ◌∙◌, refl, sym}
use libvmod_cachetag.Base.{Bool, true, false, Option, none, some, arith}
use libvmod_cachetag.Base.{leb, Bool-cases, inl, inr}
use libvmod_cachetag.Base.{length}
use mathlib.Core.Option.{or_else}
use native.Mathlib.Nat.{pow-suc}
use mathlib.Core.Path.{subst}
use libvmod_cachetag.Base.{ok, ok-injective}
use libvmod_cachetag.PurgeMap.Table.{Table, is_live, table_new}
use libvmod_cachetag.PurgeMap.Table.Walk.{IsSized}
use libvmod_cachetag.PurgeMap.Table.View.{view, IsProbed, count, is_tombstone, count_total}
use libvmod_cachetag.PurgeMap.Table.Assoc.{assoc, IsProbed-Distinct, view-assoc}
use libvmod_cachetag.PurgeMap.Map.{
  PurgeMap, initial_slots, max_load_percent, overloaded, double_until, insert_live, slots_of,
  rebuild_slots, rebuild, needs_same_size_rebuild, grow_if_loaded, prepare_upsert,
}
use libvmod_cachetag.PurgeMap.Rebuild.{insert_live-Moves}
use libvmod_cachetag.PurgeMap.Well.{
  IsLoaded, HasTable, history, IsWell, table_new-IsProbed, view-table_new, count-table_new,
}

IsSized-double : (n : ℕ) → IsSized n → IsSized (n * 2)
IsSized-double n (k, e) = (suc k, ap (λ x. x * 2) e ∙ sym (pow-suc 2 k))

pub double_until-IsSized :
    (fuel : ℕ) (enough : ℕ → Bool) (n : ℕ) → IsSized n → IsSized (double_until fuel enough n)
unfolding double_until
double_until-IsSized zero enough n h = h
double_until-IsSized (suc fuel) enough n h = elim (Bool-cases (enough n)) [
  | inl e ↦ rw e h
  | inr e ↦ rw e (double_until-IsSized fuel enough (n * 2) (IsSized-double n h))
]

pub le-double_until : (fuel : ℕ) (enough : ℕ → Bool) (n : ℕ) → n ≤ double_until fuel enough n
unfolding double_until
le-double_until zero enough n = omega arith
le-double_until (suc fuel) enough n = ground (arith, le-double_until fuel enough (n * 2))

pow_step : (n fuel m : ℕ) → m ≤ n * 2 ^ suc fuel → m ≤ n * 2 * 2 ^ fuel
pow_step n fuel m h = omega (arith, (rw (pow-suc 2 fuel) at h))

-- The doubling ends by its test.
pub double_until_enough :
    (fuel minslot n : ℕ)
    → minslot ≤ n * 2 ^ fuel
    → minslot ≤ double_until fuel (λ x. leb minslot x) n
unfolding double_until
double_until_enough zero minslot n b = omega arith
double_until_enough (suc fuel) minslot n b =
    let more = double_until_enough fuel minslot (n * 2) (pow_step n fuel minslot b) in ground arith

pub or_else-none {ℓ} : {A : Type ℓ} (o : Option A) → or_else o none ≡ o
unfolding or_else
or_else-none none = refl
or_else-none (some a) = refl

-- `t` has the live entries of the old table, in `n` slots.
pub record IsCopy (old : Option Table) (entries n : ℕ) (t : Table) : Type 0 where
  pub probed : IsProbed t
  pub views : (g : ℕ) → view t g ≡ history old g
  pub width : length t ≡ n
  pub live : count is_live t ≡ entries
  pub tombstones : count is_tombstone t ≡ 0

-- For a map's table, if it has one, with so many entries, and a new table with more slots, a power of
-- two: the loop of a rebuild leaves the new table with the same history, so many live entries, no
-- tombstone, and its width.
pub insert_live-IsCopy :
    (old : Option Table) (entries n : ℕ)
    → HasTable entries old
    → IsSized n
    → entries < n
    → IsCopy old entries n (insert_live (slots_of old) (table_new n))
unfolding insert_live
insert_live-IsCopy none entries n tabled sized room =
    let (empty, tombs, width) = count-table_new n in
    record {
      probed = table_new-IsProbed n sized;
      views = view-table_new n sized;
      width = width;
      live = omega (arith, count_total (table_new n));
      tombstones = tombs;
    }
insert_live-IsCopy (some old) entries n tabled sized room =
    let (empty, tombs, width) = count-table_new n in
    let moved =
      insert_live-Moves old (table_new n) (table_new-IsProbed n sized)
        (IsProbed-Distinct old tabled.probed) (λ g h. view-table_new n sized g)
        (omega (arith, tabled.live)) in
    record {
      probed = moved.probed;
      views = λ g.
          moved.views g
          ∙ rw (view-table_new n sized g, view-assoc old tabled.probed g)
              (or_else-none (assoc old g));
      width = moved.width ∙ width;
      live = omega (
        arith,
        count_total (insert_live old (table_new n)),
        moved.empties,
        moved.tombstones,
        moved.width,
        tabled.live,
      );
      tombstones = moved.tombstones ∙ tombs;
    }

-- `pm'` is `pm` with room for `extra` more entries.
pub record IsReady (pm : PurgeMap) (extra : ℕ) (pm' : PurgeMap) : Type 0 where
  pub t : Table
  pub table : pm'.table ≡ some t
  pub loaded : IsLoaded pm.nentry t
  pub room : (pm.nentry + extra) * 100 ≤ length t * max_load_percent
  pub views : (g : ℕ) → history pm'.table g ≡ history pm.table g
  pub rest :
      (pm'.nentry ≡ pm.nentry)
      × (pm'.ntombstone ≡ 0)
      × (pm'.seq ≡ pm.seq)
      × (pm'.memo_seq ≡ pm.memo_seq)
      × (pm'.hard_floor ≡ pm.hard_floor)
      × (pm'.soft_floor ≡ pm.soft_floor)

-- A well-formed table never asks for a rebuild at its size.
pub no_same_size_rebuild :
    (pm : PurgeMap) (o : Option Table)
    → HasTable pm.nentry o
    → pm.ntombstone ≡ 0
    → needs_same_size_rebuild pm o ≡ false
unfolding needs_same_size_rebuild
no_same_size_rebuild pm none tabled clean = refl
no_same_size_rebuild pm (some t) tabled clean =
    let size = tabled.size in let load = tabled.load in ground arith

module _ (pm : PurgeMap) (well : IsWell pm) (extra : ℕ) where
  -- A rebuild in `n` slots, when that is enough.
  pub rebuild-IsReady :
      (minslot : ℕ) (grow alloc : Bool) (pm' : PurgeMap)
      → IsSized (rebuild_slots pm.table minslot grow)
      → initial_slots ≤ rebuild_slots pm.table minslot grow
      → (pm.nentry + extra) * 100 ≤ rebuild_slots pm.table minslot grow * max_load_percent
      → rebuild pm minslot grow alloc ≡ ok pm'
      → IsReady pm extra pm'
  unfolding rebuild
  rebuild-IsReady minslot grow false pm' sized least room e = cc
  rebuild-IsReady minslot grow true pm' sized least room e =
      let n = rebuild_slots pm.table minslot grow in
      let copy = insert_live-IsCopy pm.table pm.nentry n well.tabled sized (omega arith) in
      subst (IsReady pm extra) (ok-injective _ pm' e) (record {
        t = insert_live (slots_of pm.table) (table_new n);
        table = refl;
        loaded = record {
          probed = copy.probed;
          live = copy.live;
          tombstones = copy.tombstones;
          size = rw copy.width least;
          load = rw copy.width (omega arith);
        };
        room = rw copy.width room;
        views = copy.views;
        rest = (refl, refl, refl, refl, refl, refl);
      })

double_until_stop :
    (fuel : ℕ) (enough : ℕ → Bool) (n : ℕ) → enough n ≡ true → double_until fuel enough n ≡ n
unfolding double_until
double_until_stop zero enough n h = refl
double_until_stop (suc fuel) enough n h = rw h

leb_refl : (n : ℕ) → leb n n ≡ true
leb_refl n = ground arith

-- Doubling a table that met the load limit leaves room for one more entry.
module _ (pm : PurgeMap) (well : IsWell pm) (alloc : Bool) (pm' : PurgeMap) where
  grow_if_loaded-IsReady :
      (o : Option Table)
      → pm.table ≡ o
      → HasTable pm.nentry o
      → grow_if_loaded pm o alloc ≡ ok pm'
      → IsReady pm 1 pm'
  unfolding grow_if_loaded
  grow_if_loaded-IsReady none eq tabled e =
      let slots : rebuild_slots pm.table initial_slots true ≡ initial_slots =
        rw eq (double_until_stop 64 (λ n. leb initial_slots n) initial_slots refl) in
      rebuild-IsReady pm well 1 initial_slots true alloc pm' (rw slots (4, refl))
        (rw slots (omega arith)) (rw (slots, tabled) (omega arith)) e
  grow_if_loaded-IsReady (some t) eq tabled e =
      elim (Bool-cases (overloaded (pm.nentry + 1) (length t))) [
        | inl full ↦
            let n : ℕ = length t * 2 in
            let slots : rebuild_slots pm.table n true ≡ n =
              rw eq (double_until_stop 64 (λ m. leb n m) n (leb_refl n)) in
            let size = tabled.size in
            let load = tabled.load in
            rebuild-IsReady pm well 1 n true alloc pm'
              (rw slots (IsSized-double (length t) tabled.probed.sized)) (rw slots (omega arith))
              (rw slots (omega arith)) (rw full at e)
        | inr fits ↦ subst (IsReady pm 1) (ok-injective pm pm' (rw fits at e)) (record {
          t = t;
          table = eq;
          loaded = tabled;
          room = ground arith;
          views = λ g. refl;
          rest = (refl, well.clean, refl, refl, refl, refl);
        })
      ]

  -- When `prepare_upsert_locked` succeeds on a well-formed map, the map has the same history and
  -- sequences and a loaded table with room for one more entry.
  pub prepare_upsert-IsReady : prepare_upsert pm alloc ≡ ok pm' → IsReady pm 1 pm'
  unfolding prepare_upsert
  prepare_upsert-IsReady e =
      grow_if_loaded-IsReady pm.table refl well.tabled
        (rw (no_same_size_rebuild pm pm.table well.tabled well.clean) at e)
