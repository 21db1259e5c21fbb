-- ===== src/Prelude/Code.antt =====
-- What the firmware's C functions return as `int`: a value, or a negative errno.
use Prim.Native.Nat.{ℕ}
use mathlib.Core.Path.{◌≡◌, refl}
use mathlib.Core.Bool.{Bool, true, false}

-- The codes that the firmware itself tests or returns; `other n` is any other that a lower layer
-- hands up.
pub data Errno : Type 0 where
  einval enotsup efbig eilseq enoent enotdir enomem eio erange enodev etimedout efault : Errno
  eagain ebusy : Errno
  other : ℕ → Errno

pub data Ret : Type 0 where
  val : ℕ → Ret
  err : Errno → Ret

-- ret < 0
abbrev pub failed : Ret → Bool
failed (val n) = false
failed (err e) = true

abbrev pub is_enoent : Errno → Bool
is_enoent enoent = true
is_enoent _ = false

-- a value, or the errno that a function returns
pub data Result {ℓ} (A : Type ℓ) : Type ℓ where
  ok : A → Result A
  fail : Errno → Result A

-- `if (ret < 0) return ret;`
infixl 5 ◌>>=◌
abbrev pub ◌>>=◌ {ℓ κ} : {A : Type ℓ} {B : Type κ} → Result A → (A → Result B) → Result B
ok a >>= f = f a
fail e >>= f = fail e

-- a chain that succeeds has succeeded in each of its parts
module _ {ℓ κ} {A : Type ℓ} {B : Type κ} (f : A → Result B) (b : B) where
  pub bind-eq-ok : (r : Result A) → r >>= f ≡ ok b → (x : A) × (f x ≡ ok b) × (r ≡ ok x)
  bind-eq-ok (fail e) h = absurd (cc)
  bind-eq-ok (ok x) h = (x, h, refl)
