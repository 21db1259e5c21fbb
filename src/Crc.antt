-- ===== src/Crc.antt =====
-- Zephyr's CRC32, which the firmware calls and does not implement: `crc32_ieee` over a buffer, and
-- `crc32_ieee_update`, which continues a checksum.
pub mod Sum
use mender_rt1180_zephyr.Prelude.{ℕ, ◌<◌, ◌^◌, ◌≡◌, List, [], ◌++◌}

pub record Crc : Type 0 where
  pub ieee : List ℕ → ℕ
  pub update : ℕ → List ℕ → ℕ
  -- the documented relation of the two: a checksum starts at 0 and is continued piecewise
  pub ieee_lem : (xs : List ℕ) → ieee xs ≡ update 0 xs
  pub update-nil : (c : ℕ) → update c [] ≡ c
  pub update-update : (c : ℕ) (xs ys : List ℕ) → update (update c xs) ys ≡ update c (xs ++ ys)
  -- a checksum is a `uint32_t`
  pub update_lt : (c : ℕ) (xs : List ℕ) → c < 2 ^ 32 → update c xs < 2 ^ 32
