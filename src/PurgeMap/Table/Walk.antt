-- ===== src/PurgeMap/Table/Walk.antt =====
-- Where the probe loops go, for a table whose length is a power of two.
use libvmod_cachetag.Base.{ℕ, suc, ◌+◌, ◌-◌, ◌%◌, ◌^◌, ◌<◌, ◌≡◌, ◌≢◌, ◌∙◌}
use libvmod_cachetag.Base.{arith, leb, ◌==◌}
use libvmod_cachetag.Base.{if◌then◌else◌}
use libvmod_cachetag.Base.{bit_and_mask, two_pow-pos}
use native.Mathlib.Nat.{mod-lt}
use libvmod_cachetag.PurgeMap.Table.{home, next}

-- `nslot` is a power of two
abbrev pub IsSized : ℕ → Type 0
IsSized n = (k : ℕ) × (n ≡ 2 ^ k)

pub IsSized-pos : {n : ℕ} → IsSized n → 0 < n
IsSized-pos (k, e) = rw e (two_pow-pos k)

-- The masked index is the remainder.
pub home-mod : {n : ℕ} (fold : ℕ) → IsSized n → home fold n ≡ fold % n
unfolding home
home-mod fold (k, e) = rw e (bit_and_mask k fold)

pub home-lt : {n : ℕ} (fold : ℕ) → IsSized n → home fold n < n
home-lt fold sized = rw (home-mod fold sized) (mod-lt fold (IsSized-pos sized))

mod_wraps : (n pos : ℕ) → pos < n → (pos + 1) % n ≡ (if pos + 1 == n then 0 else pos + 1)
mod_wraps n pos h = grind arith

pub next_lem :
    {n : ℕ} (pos : ℕ) → IsSized n → pos < n → next pos n ≡ (if pos + 1 == n then 0 else pos + 1)
unfolding next
next_lem {n} pos (k, e) h = rw e (bit_and_mask k (pos + 1) ∙ mod_wraps (2 ^ k) pos (rw e at h))

pub next-lt : {n : ℕ} (pos : ℕ) → IsSized n → pos < n → next pos n < n
next-lt pos sized h = ground (arith, next_lem pos sized h)

-- the rounds from `pos` to `e`
abbrev pub distance : ℕ → ℕ → ℕ → ℕ
distance n pos e = if leb pos e then e - pos else e + n - pos

pub distance-next :
    {n : ℕ} (pos e : ℕ)
    → IsSized n
    → pos < n
    → e < n
    → pos ≢ e
    → suc (distance n (next pos n) e) ≡ distance n pos e
distance-next pos e sized h he ne = rw (next_lem pos sized h) (ground arith)

pub distance-lt : (n pos e : ℕ) → pos < n → e < n → distance n pos e < n
distance-lt n pos e h he = ground arith
