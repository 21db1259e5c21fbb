-- ===== src/El133/Orders.antt =====
-- display_el133uf1.c: what the initialisation and a refresh have the controllers hear.
use mender_rt1180_zephyr.Prelude.{
  ℕ, zero, suc, ◌≡◌, refl, sym, subst, Bool, true, false, Bool-cases, inl, inr, ltb, List, [], ◌∷◌,
  ◌++◌, append-nil, Option, none, some, Ret, val, err,
}
use mender_rt1180_zephyr.El133.{
  Bus, ◌then◌, Reg, reg, cs0, cs1, cs_both, xfer_cmd, looked, ready_loop, wait_ready, written,
  write_regs, refresh, init_registers, epd_init_registers,
}
use mender_rt1180_zephyr.El133.Heard.{View, Wired, AtRest, Told-nil}
use mender_rt1180_zephyr.El133.Tells.{After, xfer_cmd-After, wait_ready-After, then-After}

-- The power is on in both controllers before the refresh, and off in both after it.
abbrev pub refresh_orders : List Reg
refresh_orders =
    reg cs0 0x04 []
    ∷ reg cs1 0x04 []
    ∷ reg cs_both 0x12 (0x00 ∷ [])
    ∷ reg cs0 0x02 (0x01 ∷ [])
    ∷ reg cs1 0x02 (0x01 ∷ [])
    ∷ []

module _ (B : Type 0) (bus : Bus B) (wired : Wired B bus) where
  write_regs-After :
      (regs : List Reg) (b : B)
      → AtRest (wired.view b)
      → After B bus wired regs (wired.view b) (some (write_regs B bus regs b))
  unfolding write_regs
  write_regs-After [] b h = Told-nil _ _ h refl
  write_regs-After (r ∷ regs) b h = continued (xfer_cmd B bus r b) (
      then-After B bus wired (r ∷ []) regs (wired.view b) (some (xfer_cmd B bus r b))
        (λ b'. some (write_regs B bus regs b')) (xfer_cmd-After B bus wired r b h)
        (λ b' h'. write_regs-After regs b' h'))
    where
      continued :
          (res : Ret × B)
          → After B bus wired
              (r ∷ regs)
              (wired.view b)
              (some res then (λ b'. some (write_regs B bus regs b')))
          → After B bus wired
              (r ∷ regs)
              (wired.view b)
              (some (written B bus (λ b'. write_regs B bus regs b') res))
      continued (err e, b') k = k
      continued (val n, b') k = k

  -- The initialisation of the registers releases both controllers, whether it succeeds or not; when
  -- it does, they have heard the writes of the table, each those that are for it, in order.
  pub epd_init_registers-After :
      (b : B)
      → AtRest (wired.view b)
      → After B bus wired init_registers (wired.view b) (some (epd_init_registers B bus b))
  unfolding epd_init_registers
  epd_init_registers-After b h = write_regs-After init_registers b h

  -- the commands so far, and one more
  next-After :
      (rs : List Reg) (r : Reg) (ms : ℕ) (v : View) (o : Option (Ret × B)) (pause : B → B)
      → ((b : B) → wired.view (pause b) ≡ wired.view b)
      → After B bus wired rs v o
      → After B bus wired
          (rs ++ (r ∷ []))
          v
          (o then (λ b. some (xfer_cmd B bus r (pause b))) then wait_ready B bus ms)
  next-After rs r ms v o pause same h =
      subst
        (λ l.
          After B bus wired l v
            (o then (λ b. some (xfer_cmd B bus r (pause b))) then wait_ready B bus ms))
        (append-nil (rs ++ (r ∷ [])))
        (then-After B bus wired (rs ++ (r ∷ [])) [] v
          (o then (λ b. some (xfer_cmd B bus r (pause b)))) (wait_ready B bus ms)
          (then-After B bus wired rs (r ∷ []) v o (λ b. some (xfer_cmd B bus r (pause b))) h
            (λ b' h'.
              subst (λ z. After B bus wired (r ∷ []) z (some (xfer_cmd B bus r (pause b'))))
                (same b')
                (xfer_cmd-After B bus wired r (pause b') (subst AtRest (sym (same b')) h'))))
          (λ b' h'. wait_ready-After B bus wired ms (wired.view b') b' h' refl))

  -- A refresh ends, and releases both controllers, whether it succeeds or not; when it does, they
  -- have heard its commands in order.
  pub refresh-After :
      (b : B)
      → AtRest (wired.view b)
      → After B bus wired refresh_orders (wired.view b) (refresh B bus b)
  unfolding refresh
  refresh-After b h =
      let v = wired.view b in
      let r0 = reg cs0 0x04 [] in
      let r1 = reg cs1 0x04 [] in
      let r2 = reg cs_both 0x12 (0x00 ∷ []) in
      let r3 = reg cs0 0x02 (0x01 ∷ []) in
      next-After (r0 ∷ r1 ∷ r2 ∷ r3 ∷ []) (reg cs1 0x02 (0x01 ∷ [])) 30000 v _ (λ b'. b')
        (λ b'. refl)
        (next-After (r0 ∷ r1 ∷ r2 ∷ []) r3 30000 v _ (λ b'. b') (λ b'. refl)
          (next-After (r0 ∷ r1 ∷ []) r2 60000 v _ (λ b'. bus.sleep 30 b')
            (λ b'. wired.view-sleep 30 b')
            (next-After (r0 ∷ []) r1 30000 v _ (λ b'. b') (λ b'. refl)
              (next-After [] r0 30000 v (some (val 0, b)) (λ b'. b') (λ b'. refl)
                (Told-nil v v h refl)))))

-- a success of the driver's own is 0
abbrev pub IsZero {ℓ} : {S : Type ℓ} → Option (Ret × S) → Type 0
IsZero (some (val (suc n), s)) = ⊥
IsZero _ = Unit {0}

module _ (B : Type 0) (bus : Bus B) where
  then-IsZero :
      (o : Option (Ret × B)) (next : B → Option (Ret × B))
      → ((b : B) → IsZero (next b))
      → IsZero (o then next)
  then-IsZero none next h = tt
  then-IsZero (some (err e, b)) next h = tt
  then-IsZero (some (val n, b)) next h = h b

  looked-IsZero :
      (more : B → Option (Ret × B)) (end : ℕ) (r : Bool × B)
      → ((b : B) → IsZero (more b))
      → IsZero (looked B bus more end r)
  looked-IsZero more end (true, b) h = tt
  looked-IsZero more end (false, b) h = elim (Bool-cases (ltb end (bus.uptime b))) [
    | inl late ↦ rw late tt
    | inr early ↦ rw early (h (bus.sleep 5 b))
  ]

  ready_loop-IsZero : (fuel end : ℕ) (b : B) → IsZero (ready_loop B bus fuel end b)
  unfolding ready_loop
  ready_loop-IsZero zero end b = tt
  ready_loop-IsZero (suc fuel) end b =
      looked-IsZero (λ b'. ready_loop B bus fuel end b') end (bus.is_busy_high b)
        (λ b'. ready_loop-IsZero fuel end b')

  pub refresh-IsZero : (b : B) → IsZero (refresh B bus b)
  unfolding refresh wait_ready
  refresh-IsZero b = then-IsZero _ (wait_ready B bus 30000) (λ b'. ready_loop-IsZero _ _ b')
