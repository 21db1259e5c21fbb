-- ===== src/LogRing.antt =====
-- mender-mcu-integration/src/eink/eink_log_ring.c: the RAM ring that captures log output.
-- The mutex makes each function one step; `ring_size` is RING_SIZE from the build configuration,
-- and `size_t` has 32 bits. `ring` is the array of `ring_size` bytes.
pub mod Order
pub mod Snapshot
pub mod Redact
pub mod Masking
pub mod Lines
pub mod Creds
mod Tests
use mender_rt1180_zephyr.Prelude.{
  ℕ, zero, suc, ◌+◌, ◌-◌, ◌%◌, ◌^◌, min, Bool, true, false, not, ◌||◌, List, [], ◌∷◌, ◌++◌, Option,
  none, some, ltb, ◌==◌, if◌then◌else◌, length, get_or, set,
}

pub record LogRing : Type 0 where
  pub ring : List ℕ
  pub ring_head : ℕ
  pub ring_len : ℕ
  pub ring_lines : ℕ
  pub ring_ready : Bool

-- `init_backend`
unfoldable pub init_backend : LogRing → LogRing
init_backend r = record r { ring_head = 0; ring_len = 0; ring_lines = 0; ring_ready = true }

-- `eink_log_ring_init`
unfoldable pub init : LogRing → LogRing
init r = if not r.ring_ready then init_backend r else r

-- oldest byte when full
unfoldable pub start : ℕ → LogRing → ℕ
start ring_size r = if ltb r.ring_len ring_size then 0 else r.ring_head

module _ (ring_size : ℕ) where
  unfoldable pub putc_locked : LogRing → ℕ → LogRing
  putc_locked r c = record r {
    ring = set r.ring r.ring_head c;
    ring_head = (r.ring_head + 1) % ring_size;
    ring_len = if ltb r.ring_len ring_size then r.ring_len + 1 else r.ring_len;
    ring_lines = if c == b'\n' then (r.ring_lines + 1) % 2 ^ 32 else r.ring_lines;
  }

  unfoldable pub write_locked : LogRing → List ℕ → LogRing
  write_locked r [] = r
  write_locked r (c ∷ bytes) = write_locked (putc_locked r c) bytes

  -- The log output's callback; it returns `length` whatever it did, and the new ring.
  unfoldable pub char_out : LogRing → Option (List ℕ) → ℕ → ℕ × LogRing
  char_out r none length = (length, r)
  char_out r (some bytes) n =
      if not r.ring_ready || (n == 0) then (n, r) else (n, write_locked r bytes)

  -- the loop of the snapshot: `n` bytes from index `k` on, going round at `ring_size`
  unfoldable pub copy_from : List ℕ → ℕ → ℕ → List ℕ
  copy_from ring k zero = []
  copy_from ring k (suc n) = get_or ring (k % ring_size) 0 ∷ copy_from ring (k + 1) n

  -- What is written to `dst` and the value returned; `none` for a null `dst`.
  unfoldable pub snapshot : LogRing → Option ℕ → List ℕ × ℕ
  unfolding start
  snapshot r none = ([], 0)
  snapshot r (some dst_len) =
      let n = min r.ring_len (dst_len - 1) in
      if dst_len == 0
      then ([], 0)
      else if n == 0
      then (0 ∷ [], 0)
      else (copy_from r.ring (start ring_size r) n ++ 0 ∷ [], n)

-- `eink_log_ring_bytes` and `eink_log_ring_line_count`
unfoldable pub bytes : LogRing → ℕ
bytes r = r.ring_len

unfoldable pub line_count : LogRing → ℕ
line_count r = r.ring_lines
