-- ===== src/Base/Errors.antt =====
-- The error numbers that the functions return, and their results: `ok` is the return of 0.
use mathlib.Core.Path.{◌≡◌}
use mathlib.Core.Option.{Option, none, some}

pub data Errno : Type 0 where
  einval eio enomem efbig eoverflow ebusy enoent efault eexist eagain estale : Errno

pub data Result {ℓ} (A : Type ℓ) : Type ℓ where
  ok : A → Result A
  err : Errno → Result A

pub ok-injective {ℓ} : {A : Type ℓ} (a b : A) → ok a ≡ ok b → a ≡ b
ok-injective a b e = cc

-- The rest of a computation, if there is a value to go on with.
abbrev pub and_then {ℓ κ} : {A : Type ℓ} {B : Type κ} → Option A → (A → Option B) → Option B
and_then none f = none
and_then (some a) f = f a
