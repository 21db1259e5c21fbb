-- ===== src/Frame/Fill.antt =====
-- eink_frame.c: the solid test patterns.
use mender_rt1180_zephyr.Prelude.{
  ℕ, ◌+◌, ◌-◌, ◌/◌, ap, ◌∙◌, List, ◌++◌, replicate, ltb, if◌then◌else◌, dec_lt, ◌%◌, ◌<◌, ◌≡◌,
  length, get_or, arith, length-append, length-replicate, get_or-replicate, get_or-append_left,
  get_or-append_right,
}
use mender_rt1180_zephyr.Frame.{
  solid_byte, fill_solid_chunk, fill_solid, fill_lr, bytes_per_half, payload_size,
}

solid_byte_nibbles :
    (color : ℕ) → (solid_byte color / 16 ≡ color % 16) × (solid_byte color % 16 ≡ color % 16)
unfolding solid_byte
solid_byte_nibbles color = omega arith

pub length-fill_solid : (color : ℕ) → length (fill_solid color) ≡ payload_size
unfolding fill_solid fill_solid_chunk
length-fill_solid color = length-replicate payload_size (solid_byte color)

fill_lr_bytes :
    (left right i : ℕ)
    → i < payload_size
    → get_or (fill_lr left right) i 0
      ≡ (if ltb i bytes_per_half then solid_byte left else solid_byte right)
unfolding fill_lr
fill_lr_bytes left right i h = elim (dec_lt i bytes_per_half) [
  | yes p ↦
      rw
        (
          get_or-append_left lefts rights i 0 (omega (arith, count)),
          get_or-replicate bytes_per_half (solid_byte left) i 0 p,
        )
        (ground arith)
  | no p ↦
      let e : i ≡ length lefts + (i - bytes_per_half) = omega (arith, count) in
      (ap (λ k. get_or (lefts ++ rights) k 0) e
        ∙ get_or-append_right lefts rights (i - bytes_per_half) 0
        ∙ get_or-replicate bytes_per_half (solid_byte right) (i - bytes_per_half) 0 (omega arith))
      ∙ ground arith
]
  where
    lefts : List ℕ
    lefts = replicate bytes_per_half (solid_byte left)

    rights : List ℕ
    rights = replicate bytes_per_half (solid_byte right)

    count : length lefts ≡ bytes_per_half
    count = length-replicate bytes_per_half (solid_byte left)

-- `fill_lr` fills a whole payload, and both pixels of a byte have the left colour in the first half
-- and the right colour in the second.
pub fill_lr_pixels :
    (left right i : ℕ)
    → i < payload_size
    → (length (fill_lr left right) ≡ payload_size)
      × (get_or (fill_lr left right) i 0 / 16 ≡ (if ltb i bytes_per_half then left else right) % 16)
      × (get_or (fill_lr left right) i 0 % 16 ≡ (if ltb i bytes_per_half then left else right) % 16)
fill_lr_pixels left right i h = (
  long,
  ground (arith, fill_lr_bytes left right i h, solid_byte_nibbles left, solid_byte_nibbles right),
  ground (arith, fill_lr_bytes left right i h, solid_byte_nibbles left, solid_byte_nibbles right),
)
  where
    long : length (fill_lr left right) ≡ payload_size
    long =
        unfold fill_lr in
        omega (
          arith,
          length-append (replicate bytes_per_half (solid_byte left))
              (replicate bytes_per_half (solid_byte right)),
          length-replicate bytes_per_half (solid_byte left),
          length-replicate bytes_per_half (solid_byte right),
        )
