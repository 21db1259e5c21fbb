-- ===== src/El133/Supported.antt =====
-- display_el133uf1.c: a refresh on a bus that supports its configuration.
use mender_rt1180_zephyr.Prelude.{
  ℕ, zero, suc, ◌≢◌, Bool, true, false, Bool-cases, inl, inr, ltb, if◌then◌else◌, List, [], ◌∷◌,
  Option, none, some, Ret, val, err, enotsup,
}
use mender_rt1180_zephyr.El133.{
  Bus, ◌then◌, Cs, Reg, dc_pin, addressed, followed, xfer_cmd, looked, ready_loop, wait_ready,
  refresh,
}
use mender_rt1180_zephyr.El133.Device.{Panel, refreshed, unblanked, blanking_off}

-- no call of the bus fails with ENOTSUP
abbrev pub Supports : (B : Type 0) → Bus B → Type 0
Supports B bus = (bytes : List ℕ) (b : B) → (bus.spi_write bytes b).0 ≢ err enotsup

abbrev pub Supported {ℓ} : {S : Type ℓ} → Option (Ret × S) → Type 0
Supported none = Unit {0}
Supported (some (r, s)) = r ≢ err enotsup

module _ (B : Type 0) (bus : Bus B) (supports : Supports B bus) where
  then-Supported :
      (o : Option (Ret × B)) (next : B → Option (Ret × B))
      → Supported o
      → ((b : B) → Supported (next b))
      → Supported (o then next)
  then-Supported none next h go = tt
  then-Supported (some (err e, b)) next h go = h
  then-Supported (some (val n, b)) next h go = go b

  followed-Supported :
      (which : Cs) (payload : List ℕ) (r : Ret × B)
      → r.0 ≢ err enotsup
      → Supported (some (followed B bus which payload r))
  followed-Supported which payload (err e, b) h = h
  followed-Supported which [] (val n, b) h = λ e. absurd (cc)
  followed-Supported which (x ∷ payload) (val n, b) h =
      supports (x ∷ payload) (bus.set_pin dc_pin true b)

  xfer_cmd-Supported : (r : Reg) (b : B) → Supported (some (xfer_cmd B bus r b))
  unfolding xfer_cmd
  xfer_cmd-Supported r b =
      followed-Supported r.which r.payload (bus.spi_write (r.cmd ∷ []) (addressed B bus r.which b))
        (supports (r.cmd ∷ []) (addressed B bus r.which b))

  looked-Supported :
      (more : B → Option (Ret × B)) (end : ℕ) (r : Bool × B)
      → ((b : B) → Supported (more b))
      → Supported (looked B bus more end r)
  looked-Supported more end (true, b) h = λ e. absurd (cc)
  looked-Supported more end (false, b) h = elim (Bool-cases (ltb end (bus.uptime b))) [
    | inl late ↦ rw late (λ e. absurd (cc))
    | inr early ↦ rw early (h (bus.sleep 5 b))
  ]

  ready_loop-Supported : (fuel end : ℕ) (b : B) → Supported (ready_loop B bus fuel end b)
  unfolding ready_loop
  ready_loop-Supported zero end b = tt
  ready_loop-Supported (suc fuel) end b =
      looked-Supported (λ b'. ready_loop B bus fuel end b') end (bus.is_busy_high b)
        (λ b'. ready_loop-Supported fuel end b')

  wait_ready-Supported : (ms : ℕ) (b : B) → Supported (wait_ready B bus ms b)
  unfolding wait_ready
  wait_ready-Supported ms b = ready_loop-Supported _ _ b

  order-Supported :
      (r : Reg) (ms : ℕ) (o : Option (Ret × B)) (pause : B → B)
      → Supported o
      → Supported (o then (λ b. some (xfer_cmd B bus r (pause b))) then wait_ready B bus ms)
  order-Supported r ms o pause h =
      then-Supported (o then (λ b. some (xfer_cmd B bus r (pause b)))) (wait_ready B bus ms)
        (then-Supported o (λ b. some (xfer_cmd B bus r (pause b))) h
          (λ b. xfer_cmd-Supported r (pause b)))
        (λ b. wait_ready-Supported ms b)

  pub refresh-Supported : (b : B) → Supported (refresh B bus b)
  unfolding refresh
  refresh-Supported b =
      order-Supported _ 30000 _ (λ b'. b')
        (order-Supported _ 30000 _ (λ b'. b')
          (order-Supported _ 60000 _ (λ b'. bus.sleep 30 b')
            (order-Supported _ 30000 _ (λ b'. b')
              (order-Supported _ 30000 (some (val 0, b)) (λ b'. b') (λ e. absurd (cc))))))

  pub blanking_off-Supported : (p : Panel B) → Supported (blanking_off B bus p)
  unfolding blanking_off
  blanking_off-Supported p = by_dirty p.dirty
    where
      refreshed-Supported :
          (o : Option (Ret × B)) → Supported o → Supported (unblanked B bus (refreshed B bus p o))
      refreshed-Supported none h = h
      refreshed-Supported (some (err e, b)) h = h
      refreshed-Supported (some (val zero, b)) h = h
      refreshed-Supported (some (val (suc n), b)) h = h

      by_dirty :
          (dirty : Bool)
          → Supported (
              unblanked B bus
                (if dirty then refreshed B bus p (refresh B bus p.bus_state) else some (val 0, p)))
      by_dirty true =
          refreshed-Supported (refresh B bus p.bus_state) (refresh-Supported p.bus_state)
      by_dirty false = λ e. absurd (cc)
