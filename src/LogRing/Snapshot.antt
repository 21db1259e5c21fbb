-- ===== src/LogRing/Snapshot.antt =====
-- eink_log_ring.c: `eink_log_ring_snapshot`, the ring as the portal upload sees it.
use mender_rt1180_zephyr.Prelude.{
  ℕ, zero, suc, ◌+◌, ◌-◌, ◌≤◌, ◌<◌, min, ◌≡◌, refl, ap, ◌∙◌, List, [], ◌∷◌, ◌++◌, some, arith, take,
  take_all,
}
use mender_rt1180_zephyr.LogRing.{LogRing, copy_from, start, snapshot, write_locked}
use mender_rt1180_zephyr.LogRing.Order.{IsValid, contents, newest, write_lem, length-copy_from}

module _ (ring_size : ℕ) where
  copy_from-take :
      (ring : List ℕ) (k n m : ℕ)
      → n ≤ m
      → copy_from ring_size ring k n ≡ take n (copy_from ring_size ring k m)
  unfolding copy_from
  copy_from-take ring k zero m h = refl
  copy_from-take ring k (suc n) zero h = absurd (omega arith)
  copy_from-take ring k (suc n) (suc m) h = rw (copy_from-take ring (k + 1) n m (omega arith))

  -- A snapshot into a buffer of `dst_len` bytes copies the oldest bytes that the ring holds, as many
  -- as leave room for the terminating 0, and returns their number.
  pub snapshot_lem :
      (r : LogRing) (dst_len : ℕ)
      → 0 < dst_len
      → snapshot ring_size r (some dst_len) ≡ (
        take (min r.ring_len (dst_len - 1)) (contents ring_size r) ++ 0 ∷ [],
        min r.ring_len (dst_len - 1),
      )
  unfolding snapshot
  snapshot_lem r dst_len h =
      ground
        (arith, copy_from-take r.ring (start ring_size r) (min r.ring_len (dst_len - 1)) r.ring_len)

  -- Log output and upload together: on a valid ring, what `write` captures is read back by a
  -- snapshot into a buffer of at least `ring_size + 1` bytes, oldest byte first and terminated by 0,
  -- but for the oldest bytes, which the ring no longer has room for.
  pub snapshot-write :
      (r : LogRing) (bytes : List ℕ) (dst_len : ℕ)
      → IsValid ring_size r
      → ring_size < dst_len
      → (snapshot ring_size (write_locked ring_size r bytes) (some dst_len)).0
        ≡ newest ring_size (contents ring_size r ++ bytes) ++ 0 ∷ []
  snapshot-write r bytes dst_len v h =
      let w = write_locked ring_size r bytes in
      let (valid, held) = write_lem ring_size r bytes v in
      let size : min w.ring_len (dst_len - 1) ≡ w.ring_len = omega (arith, valid.len_in) in
      ap (λ p. p.0) (snapshot_lem w dst_len (omega arith))
      ∙ ap (λ n. take n (contents ring_size w) ++ 0 ∷ []) size
      ∙ ap (λ xs. xs ++ 0 ∷ [])
          (take_all w.ring_len (contents ring_size w)
              (length-copy_from ring_size w.ring (start ring_size w) w.ring_len)
            ∙ held)
