-- ===== src/El133/Goes.antt =====
-- display_el133uf1.c: a frame that is streamed from a source that has it, on a bus that takes every
-- write, with a panel that is ready.
use mender_rt1180_zephyr.Prelude.{
  ℕ, zero, suc, ◌-◌, ◌≤◌, ◌≡◌, refl, ap, subst, arith, min, true, List, [], ◌∷◌, drop, length,
  length-drop, ◌==◌, Option, none, some, Ret, val, err,
}
use mender_rt1180_zephyr.El133.{Bus, Cs, cs0, cs1, dc_pin, addressed, dtm, ◌then◌}
use mender_rt1180_zephyr.El133.Stream.{
  half_bytes, payload_bytes, chunk_size, sent, filled, stream_loop, stream_half,
}
use mender_rt1180_zephyr.El133.Device.{Panel, settled, half_streamed, beside, stream_write}
use mender_rt1180_zephyr.El133.Heard.{Wired, AtRest}
use mender_rt1180_zephyr.El133.Loads.{then-Ends}
use mender_rt1180_zephyr.El133.Streams.{Source, Streamed, stream_half-Ends}
use mender_rt1180_zephyr.El133.Works.{
  Works, Generous, Gives, Succeeds, both-Gives, settled-Succeeds,
}

module _ (B U : Type 0) (bus : Bus B) (works : Works B bus) (fill : ℕ → U → (Ret × List ℕ) × U)
    (src : Source U fill) (Good : U → Type 0) (generous : Generous U fill src Good) where
  -- a write that is taken
  sent-Gives :
      (which : Cs) (more : B → Ret × (U × B)) (u : U) (r : Ret × B)
      → (n : ℕ) × (r.0 ≡ val n)
      → ((b : B) → Gives (λ s. Good s.0) (some (more b)))
      → Gives (λ s. Good s.0) (some (sent B bus which U fill more u r))
  sent-Gives which more u (err e, b) (n, h) go = absurd (cc)
  sent-Gives which more u (val m, b) h go = go b

  filled-Gives :
      (which : Cs) (more : U → B → Ret × (U × B)) (want : ℕ) (b : B) (r : (Ret × List ℕ) × U)
      → r.0.0 ≡ val want
      → ((b' : B) → Gives (λ s. Good s.0) (some (more r.1 b')))
      → Gives (λ s. Good s.0) (some (filled B bus which U fill more want b r))
  filled-Gives which more want b ((err e, bytes), u) h go = absurd (cc)
  filled-Gives which more want b ((val n, bytes), u) h go =
      let n_want : n ≡ want = cc in
      let same : (n == want) ≡ true = ground arith in
      rw same
        (sent-Gives which (λ b'. more u b') u (bus.spi_write bytes b) (works.spi_works bytes b) go)

  stream_loop-Gives :
      (which : Cs) (fuel chunk_len left : ℕ) (u : U) (b : B)
      → Good u
      → 1 ≤ chunk_len
      → left ≤ length (src.unread u)
      → Gives (λ s. Good s.0) (some (stream_loop B bus which U fill fuel chunk_len left u b))
  unfolding stream_loop
  stream_loop-Gives which zero chunk_len left u b good room enough = good
  stream_loop-Gives which (suc fuel) chunk_len zero u b good room enough = good
  stream_loop-Gives which (suc fuel) chunk_len (suc left) u b good room enough =
      let want = min chunk_len (suc left) in
      let gave = generous.answers want u good (omega arith) (omega arith) in
      filled-Gives which
        (λ u' b'. stream_loop B bus which U fill fuel chunk_len (suc left - want) u' b') want b
        (fill want u) gave
        (λ b'.
          stream_loop-Gives which fuel chunk_len (suc left - want) (fill want u).1 b'
            (generous.stays want u good) room
            (omega
              (arith, ap length (src.gives want want u gave).2, length-drop want (src.unread u))))

  stream_half-Gives :
      (which : Cs) (u : U) (b : B)
      → Good u
      → half_bytes ≤ length (src.unread u)
      → Gives (λ s. Good s.0) (some (stream_half B bus which U fill chunk_size u b))
  unfolding stream_half
  stream_half-Gives which u b good enough =
      sent-Gives which _ u (bus.spi_write (dtm ∷ []) (addressed B bus which b))
        (works.spi_works (dtm ∷ []) (addressed B bus which b))
        (λ b'.
          stream_loop-Gives which half_bytes chunk_size half_bytes u (bus.set_pin dc_pin true b')
            good (omega arith) enough)

  module _ (wired : Wired B bus) where
    -- the source is good, and what it has is left of `rest`; both controllers are released
    abbrev Left : List ℕ → U × Panel B → Type 0
    Left rest s = Good s.0 × (src.unread s.0 ≡ rest) × AtRest (wired.view s.1.bus_state)

    abbrev streamed_to : Cs → U × Panel B → Option (Ret × (U × Panel B))
    streamed_to which s =
        half_streamed B bus U fill s.1 (stream_half B bus which U fill chunk_size s.0 s.1.bus_state)

    half_streamed-Gives :
        (which : Cs) (u : U) (p : Panel B)
        → Good u
        → half_bytes ≤ length (src.unread u)
        → AtRest (wired.view p.bus_state)
        → Gives
            (Left (drop half_bytes (src.unread u)))
            (half_streamed B bus U fill p (stream_half B bus which U fill chunk_size u p.bus_state))
    half_streamed-Gives which u p good enough at =
        onward (stream_half B bus which U fill chunk_size u p.bus_state) (
          both-Gives _ _ _ (some (stream_half B bus which U fill chunk_size u p.bus_state))
            (stream_half-Gives which u p.bus_state good enough)
            (stream_half-Ends B U bus wired fill src which (wired.view p.bus_state) at chunk_size u
              p.bus_state refl (omega arith)))
      where
        onward :
            (r : Ret × (U × B))
            → Gives
                (λ s.
                  Good s.0
                  × Streamed B U bus wired fill src which
                      (wired.view p.bus_state)
                      at
                      []
                      half_bytes
                      (src.unread u)
                      s)
                (some r)
            → Gives (Left (drop half_bytes (src.unread u))) (half_streamed B bus U fill p r)
        onward (err e, (u', b)) h = h
        onward (val n, (u', b)) (good', (told, taken, enough')) = (good', taken, told.rest)

    settled-Gives : (s : U × Panel B) → Succeeds (beside B bus U fill s.0 (settled B bus s.1))
    settled-Gives (u, p) = onward (settled B bus p) (settled-Succeeds B bus works p)
      where
        onward : (o : Option (Ret × Panel B)) → Succeeds o → Succeeds (beside B bus U fill u o)
        onward none h = h
        onward (some (err e, q)) h = h
        onward (some (val n, q)) h = tt

    -- A frame that the source has is streamed.
    pub stream_write-Succeeds :
        (u : U) (p : Panel B)
        → Good u
        → payload_bytes ≤ length (src.unread u)
        → AtRest (wired.view p.bus_state)
        → Succeeds (stream_write B bus U fill u p)
    unfolding stream_write
    stream_write-Succeeds u p good enough at =
        let rest = src.unread u in
        then-Ends (Left (drop half_bytes (drop half_bytes rest))) (λ s. Unit {0}) (λ s. ⊥)
          (streamed_to cs0 (u, p) then streamed_to cs1)
          (λ (u', q). beside B bus U fill u' (settled B bus q))
          (then-Ends (Left (drop half_bytes rest)) (Left (drop half_bytes (drop half_bytes rest)))
            (λ s. ⊥) (streamed_to cs0 (u, p)) (streamed_to cs1)
            (half_streamed-Gives cs0 u p good (omega arith) at)
            (λ s (good', left, at').
              subst (λ l. Gives (Left (drop half_bytes l)) (streamed_to cs1 s)) left
                (half_streamed-Gives cs1 s.0 s.1 good'
                  (omega (arith, ap length left, length-drop half_bytes rest)) at')))
          (λ s h. settled-Gives s)
