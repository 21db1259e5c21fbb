-- ===== src/Bytes.antt =====
-- Little-endian fields of a byte buffer: Zephyr's `sys_le16_to_cpu`, `sys_le32_to_cpu` on a field
-- that `memcpy` took out of the buffer, and the inverse pair.
use mender_rt1180_zephyr.Prelude.{
  ℕ, ◌+◌, ◌*◌, ◌/◌, ◌%◌, ◌<◌, ◌^◌, ◌≡◌, List, ◌++◌, arith, length, get_or, get_or-append_left,
}

abbrev pub le16 : List ℕ → ℕ → ℕ
le16 buf i = get_or buf i 0 + 256 * get_or buf (i + 1) 0

abbrev pub le32 : List ℕ → ℕ → ℕ
le32 buf i =
    get_or buf i 0
    + 256 * get_or buf (i + 1) 0
    + 65536 * get_or buf (i + 2) 0
    + 16777216 * get_or buf (i + 3) 0

-- byte `k` of a word
abbrev pub byte : ℕ → ℕ → ℕ
byte k x = x / 256 ^ k % 256

pub bytes16 : (x : ℕ) → x < 2 ^ 16 → byte 0 x + 256 * byte 1 x ≡ x
bytes16 x h = omega arith

pub bytes32 :
    (x : ℕ) → x < 2 ^ 32 → byte 0 x + 256 * byte 1 x + 65536 * byte 2 x + 16777216 * byte 3 x ≡ x
bytes32 x h = omega arith

-- A field inside the first part of a buffer does not depend on the rest.
module _ (xs ys : List ℕ) where
  pub le16-append : (i : ℕ) → i + 1 < length xs → le16 (xs ++ ys) i ≡ le16 xs i
  le16-append i h =
      rw (get_or-append_left xs ys i 0 (omega arith), get_or-append_left xs ys (i + 1) 0 h)

  pub le32-append : (i : ℕ) → i + 3 < length xs → le32 (xs ++ ys) i ≡ le32 xs i
  le32-append i h = rw (
    get_or-append_left xs ys i 0 (omega arith),
    get_or-append_left xs ys (i + 1) 0 (omega arith),
    get_or-append_left xs ys (i + 2) 0 (omega arith),
    get_or-append_left xs ys (i + 3) 0 h,
  )
