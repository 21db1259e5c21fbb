-- ===== src/T2000/Wait.antt =====
-- eink_t2000_proto.c: `eink_t2000_wait_idle`, and the end of `eink_t2000_fill`.
use mender_rt1180_zephyr.Prelude.{
  ℕ, zero, suc, ◌+◌, ◌*◌, ◌≤◌, ◌≡◌, refl, arith, Bool, ◌&&◌, Bool-cases, inl, inr, not, Option,
  none, some, if◌then◌else◌, Ret, val, err, etimedout,
}
use mender_rt1180_zephyr.Prelude.Int.{ℤ, pos, ◌+ℤ◌, leb_ℤ, is_neg}
use mender_rt1180_zephyr.T2000.{Usb, get_status, fill}

-- `k_uptime_get` and `k_msleep`
pub record Clock (W : Type 0) : Type 0 where
  pub uptime : W → ℕ
  pub sleep : ℕ → W → W

module _ (W : Type 0) (u : Usb W) (clk : Clock W) where
  -- the end of the loop's body, on the status
  abbrev pub polled : ℤ → ℤ → (W → Option (Ret × W)) → Ret × W → Option (Ret × W)
  polled timeout_ms end more (err e, w) = some (err e, w)
  polled timeout_ms end more (val zero, w) = some (val 0, w)
  polled timeout_ms end more (val (suc n), w) =
      if not (is_neg timeout_ms) && leb_ℤ end (pos (clk.uptime w))
      then some (err etimedout, w)
      else more (clk.sleep 100 w)

  -- the `while (true)` loop; `none` where the fuel is used up
  unfoldable pub wait_loop : ℕ → ℤ → ℤ → W → Option (Ret × W)
  wait_loop zero timeout_ms end w = none
  wait_loop (suc fuel) timeout_ms end w =
      polled timeout_ms end (λ w'. wait_loop fuel timeout_ms end w') (get_status W u w)

  unfoldable pub wait_idle : ℕ → ℤ → W → Option (Ret × W)
  wait_idle fuel timeout_ms w = wait_loop fuel timeout_ms (pos (clk.uptime w) +ℤ timeout_ms) w

  -- a turn for every sleep of 100 ms in the timeout of 30 s, and for the first look
  abbrev pub filled : Ret × W → Option (Ret × W)
  filled (err e, w) = some (err e, w)
  filled (val (suc n), w) = some (val (suc n), w)
  filled (val zero, w) = wait_idle 301 (pos 30000) w

  unfoldable pub fill_and_wait : ℕ → ℕ → W → Option (Ret × W)
  fill_and_wait y8 mode w = filled (fill W u y8 mode w)

-- The clock goes on: a sleep lasts as long as it is asked to, and a query does not turn it back.
pub record Steady (W : Type 0) (u : Usb W) (clk : Clock W) : Type 0 where
  pub sleeps : (ms : ℕ) (w : W) → clk.uptime w + ms ≤ clk.uptime (clk.sleep ms w)
  pub queries : (w : W) → clk.uptime w ≤ clk.uptime (get_status W u w).1

module _ (W : Type 0) (u : Usb W) (clk : Clock W) (steady : Steady W u clk) (t end : ℕ) where
  -- the loop has ended
  abbrev Ends : Option (Ret × W) → Type 0
  Ends o = (r : Ret × W) × (o ≡ some r)

  polled-Ends :
      (more : W → Option (Ret × W)) (r : Ret × W)
      → ((w : W)
          → leb_ℤ (pos end) (pos (clk.uptime r.1)) ≡ Bool.false
          → Ends (more (clk.sleep 100 r.1)))
      → Ends (polled W u clk (pos t) (pos end) more r)
  polled-Ends more (err e, w) h = (_, refl)
  polled-Ends more (val zero, w) h = (_, refl)
  polled-Ends more (val (suc n), w) h = elim (Bool-cases (leb_ℤ (pos end) (pos (clk.uptime w)))) [
    | inl over ↦ ((err etimedout, w), rw over refl)
    | inr early ↦ let (r, e) = h w early in (r, rw early e)
  ]

  wait_loop-Ends :
      (fuel : ℕ) (w : W)
      → end ≤ clk.uptime w + 100 * fuel
      → Ends (wait_loop W u clk (suc fuel) (pos t) (pos end) w)
  unfolding wait_loop
  wait_loop-Ends zero w h =
      polled-Ends (λ w'. wait_loop W u clk zero (pos t) (pos end) w') (get_status W u w)
        (λ w' early. absurd (ground (arith, steady.queries w)))
  wait_loop-Ends (suc fuel) w h =
      polled-Ends (λ w'. wait_loop W u clk (suc fuel) (pos t) (pos end) w') (get_status W u w)
        (λ w' early.
          wait_loop-Ends fuel (clk.sleep 100 (get_status W u w).1)
            (omega (arith, steady.queries w, steady.sleeps 100 (get_status W u w).1)))

pos_add : (m n : ℕ) → pos m +ℤ pos n ≡ pos (m + n)
unfolding ◌+ℤ◌
pos_add m n = ground arith

module _ (W : Type 0) (u : Usb W) (clk : Clock W) (steady : Steady W u clk) where
  wait_idle-Ends :
      (fuel t : ℕ) (w : W)
      → t ≤ 100 * fuel
      → (r : Ret × W) × (wait_idle W u clk (suc fuel) (pos t) w ≡ some r)
  unfolding wait_idle
  wait_idle-Ends fuel t w h =
      rw (pos_add (clk.uptime w) t)
        (wait_loop-Ends W u clk steady t (clk.uptime w + t) fuel w (omega arith))

  filled-Ends : (r : Ret × W) → (q : Ret × W) × (filled W u clk r ≡ some q)
  filled-Ends (err e, w) = (_, refl)
  filled-Ends (val (suc n), w) = (_, refl)
  filled-Ends (val zero, w) = wait_idle-Ends 300 30000 w (omega arith)

  -- With a clock that goes on, a fill ends, whatever the controller answers.
  pub fill_and_wait-Ends :
      (y8 mode : ℕ) (w : W) → (r : Ret × W) × (fill_and_wait W u clk y8 mode w ≡ some r)
  unfolding fill_and_wait
  fill_and_wait-Ends y8 mode w = filled-Ends (fill W u y8 mode w)
