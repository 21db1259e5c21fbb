-- ===== src/El133/Stream.antt =====
-- display_el133uf1.c: the frame data, from a buffer (`load_dtm`) and from a callback that fills a
-- chunk at a time (`stream_half`).
use mender_rt1180_zephyr.Prelude.{
  ℕ, zero, suc, ◌-◌, min, true, false, List, [], ◌∷◌, take, drop, ◌==◌, if◌then◌else◌, Ret, val,
  err, einval,
}
use mender_rt1180_zephyr.El133.{Bus, Cs, dc_pin, cs_set, addressed, dtm}

abbrev pub payload_bytes : ℕ
payload_bytes = 960000

abbrev pub half_bytes : ℕ
half_bytes = 480000

abbrev pub chunk_size : ℕ
chunk_size = 4096

module _ (B : Type 0) (bus : Bus B) (which : Cs) where
  abbrev pub loaded : (B → Ret × B) → Ret × B → Ret × B
  loaded more (err e, b) = (err e, cs_set B bus which false b)
  loaded more (val n, b) = more b

  -- the loop of `load_dtm`, on the bytes of `src` from `off`
  unfoldable pub load_loop : ℕ → List ℕ → B → Ret × B
  load_loop zero src b = (val 0, cs_set B bus which false b)
  load_loop (suc fuel) [] b = (val 0, cs_set B bus which false b)
  load_loop (suc fuel) (x ∷ src) b =
      loaded (λ b'. load_loop fuel (drop chunk_size (x ∷ src)) b')
        (bus.spi_write (take chunk_size (x ∷ src)) b)

  -- a turn takes a byte at least
  unfoldable pub load_dtm : List ℕ → ℕ → B → Ret × B
  load_dtm src len b =
      loaded (λ b'. load_loop len (take len src) (bus.set_pin dc_pin true b'))
        (bus.spi_write (dtm ∷ []) (addressed B bus which b))

  -- `fill` writes its bytes to the chunk and returns their number, or an error
  module _ (U : Type 0) (fill : ℕ → U → (Ret × List ℕ) × U) where
    abbrev pub sent : (B → Ret × (U × B)) → U → Ret × B → Ret × (U × B)
    sent more u (err e, b) = (err e, (u, cs_set B bus which false b))
    sent more u (val n, b) = more b

    abbrev pub filled : (U → B → Ret × (U × B)) → ℕ → B → (Ret × List ℕ) × U → Ret × (U × B)
    filled more want b ((err e, bytes), u) = (err e, (u, cs_set B bus which false b))
    filled more want b ((val n, bytes), u) =
        if n == want
        then sent (λ b'. more u b') u (bus.spi_write bytes b)
        else (err einval, (u, cs_set B bus which false b))

    -- the loop of `stream_half`, on the number of bytes that are left of the half
    unfoldable pub stream_loop : ℕ → ℕ → ℕ → U → B → Ret × (U × B)
    stream_loop zero chunk_len left u b = (val 0, (u, cs_set B bus which false b))
    stream_loop (suc fuel) chunk_len zero u b = (val 0, (u, cs_set B bus which false b))
    stream_loop (suc fuel) chunk_len (suc left) u b =
        filled (λ u' b'. stream_loop fuel chunk_len (suc left - min chunk_len (suc left)) u' b')
          (min chunk_len (suc left)) b (fill (min chunk_len (suc left)) u)

    -- a turn takes a byte at least
    unfoldable pub stream_half : ℕ → U → B → Ret × (U × B)
    stream_half chunk_len u b =
        sent (λ b'. stream_loop half_bytes chunk_len half_bytes u (bus.set_pin dc_pin true b')) u
          (bus.spi_write (dtm ∷ []) (addressed B bus which b))
