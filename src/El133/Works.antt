-- ===== src/El133/Works.antt =====
-- display_el133uf1.c: the driver on a bus that takes every write, with a panel that is ready.
use mender_rt1180_zephyr.Prelude.{
  ℕ, zero, suc, ◌≤◌, ◌≡◌, Bool, true, false, not, if◌then◌else◌, List, [], ◌∷◌, length, Option,
  none, some, Ret, val, err,
}
use mender_rt1180_zephyr.El133.{
  Bus, Cs, dc_pin, Reg, addressed, released, followed, xfer_cmd, looked, ready_loop, wait_ready,
  refresh, ◌then◌,
}
use mender_rt1180_zephyr.El133.Device.{Panel, cleaned, refreshed, unblanked, blanking_off, settled}
use mender_rt1180_zephyr.El133.Loads.{Ends, then-Ends}
use mender_rt1180_zephyr.El133.Streams.{Source}

pub record Works (B : Type 0) (bus : Bus B) : Type 0 where
  pub spi_works : (bytes : List ℕ) (b : B) → (n : ℕ) × ((bus.spi_write bytes b).0 ≡ val n)
  pub ready : (b : B) → (bus.is_busy_high b).0 ≡ true

-- a source in a state of `Good` gives as much as it is asked for and has
pub record Generous (U : Type 0) (fill : ℕ → U → (Ret × List ℕ) × U) (src : Source U fill)
    (Good : U → Type 0) : Type 0 where
  pub answers :
      (n : ℕ) (u : U) → Good u → 1 ≤ n → n ≤ length (src.unread u) → (fill n u).0.0 ≡ val n
  pub stays : (n : ℕ) (u : U) → Good u → Good (fill n u).1

-- a call that succeeds, and what holds then
abbrev pub Gives {ℓ} : {S : Type ℓ} → (S → Type 0) → Option (Ret × S) → Type 0
Gives Good o = Ends Good (λ s. ⊥) o

abbrev pub Succeeds {ℓ} : {S : Type ℓ} → Option (Ret × S) → Type 0
Succeeds o = Gives (λ s. Unit {0}) o

pub both-Gives {ℓ} :
    {S : Type ℓ} (G H Bad : S → Type 0) (o : Option (Ret × S))
    → Gives G o
    → Ends H Bad o
    → Gives (λ s. G s × H s) o
both-Gives G H Bad none g h = g
both-Gives G H Bad (some (err e, s)) g h = absurd g
both-Gives G H Bad (some (val n, s)) g h = (g, h)

module _ (B : Type 0) (bus : Bus B) (works : Works B bus) where
  followed-Succeeds :
      (which : Cs) (payload : List ℕ) (r : Ret × B)
      → (n : ℕ) × (r.0 ≡ val n)
      → Succeeds (some (followed B bus which payload r))
  followed-Succeeds which payload (err e, b) (n, h) = absurd (cc)
  followed-Succeeds which [] (val m, b) h = tt
  followed-Succeeds which (x ∷ payload) (val m, b) h =
      let b' = bus.set_pin dc_pin true b in
      second (bus.spi_write (x ∷ payload) b') (works.spi_works (x ∷ payload) b')
    where
      second : (r : Ret × B) → (n : ℕ) × (r.0 ≡ val n) → Succeeds (some (released B bus which r))
      second (err e, b'') (n, h) = absurd (cc)
      second (val m', b'') h = tt

  xfer_cmd-Succeeds : (r : Reg) (b : B) → Succeeds (some (xfer_cmd B bus r b))
  unfolding xfer_cmd
  xfer_cmd-Succeeds r b =
      followed-Succeeds r.which r.payload (bus.spi_write (r.cmd ∷ []) (addressed B bus r.which b))
        (works.spi_works (r.cmd ∷ []) (addressed B bus r.which b))

  looked-Succeeds :
      (more : B → Option (Ret × B)) (end : ℕ) (r : Bool × B)
      → r.0 ≡ true
      → Succeeds (looked B bus more end r)
  looked-Succeeds more end (true, b) h = tt
  looked-Succeeds more end (false, b) h = absurd (cc)

  ready_loop-Succeeds : (fuel end : ℕ) (b : B) → Succeeds (ready_loop B bus (suc fuel) end b)
  unfolding ready_loop
  ready_loop-Succeeds fuel end b =
      looked-Succeeds (λ b'. ready_loop B bus fuel end b') end (bus.is_busy_high b) (works.ready b)

  wait_ready-Succeeds : (ms : ℕ) (b : B) → Succeeds (wait_ready B bus ms b)
  unfolding wait_ready
  wait_ready-Succeeds ms b = ready_loop-Succeeds _ _ b

  order-Succeeds :
      (r : Reg) (ms : ℕ) (o : Option (Ret × B)) (pause : B → B)
      → Succeeds o
      → Succeeds (o then (λ b. some (xfer_cmd B bus r (pause b))) then wait_ready B bus ms)
  order-Succeeds r ms o pause h =
      then-Ends (λ s. Unit {0}) (λ s. Unit {0}) (λ s. ⊥)
        (o then (λ b. some (xfer_cmd B bus r (pause b)))) (wait_ready B bus ms)
        (then-Ends (λ s. Unit {0}) (λ s. Unit {0}) (λ s. ⊥) o
          (λ b. some (xfer_cmd B bus r (pause b))) h (λ b k. xfer_cmd-Succeeds r (pause b)))
        (λ b k. wait_ready-Succeeds ms b)

  refresh-Succeeds : (b : B) → Succeeds (refresh B bus b)
  unfolding refresh
  refresh-Succeeds b =
      order-Succeeds _ 30000 _ (λ b'. b')
        (order-Succeeds _ 30000 _ (λ b'. b')
          (order-Succeeds _ 60000 _ (λ b'. bus.sleep 30 b')
            (order-Succeeds _ 30000 _ (λ b'. b')
              (order-Succeeds _ 30000 (some (val 0, b)) (λ b'. b') tt))))

  pub blanking_off-Succeeds : (p : Panel B) → Succeeds (blanking_off B bus p)
  unfolding blanking_off
  blanking_off-Succeeds p = by_dirty p.dirty
    where
      shown : (o : Option (Ret × B)) → Succeeds o → Succeeds (unblanked B bus (refreshed B bus p o))
      shown none h = h
      shown (some (err e, b)) h = h
      shown (some (val zero, b)) h = tt
      shown (some (val (suc n), b)) h = tt

      by_dirty :
          (dirty : Bool)
          → Succeeds (
              unblanked B bus
                (if dirty then refreshed B bus p (refresh B bus p.bus_state) else some (val 0, p)))
      by_dirty true = shown (refresh B bus p.bus_state) (refresh-Succeeds p.bus_state)
      by_dirty false = tt

  pub settled-Succeeds : (p : Panel B) → Succeeds (settled B bus p)
  settled-Succeeds p = by_blanking p.blanking_on
    where
      shown :
          (o : Option (Ret × B))
          → Succeeds o
          → Succeeds (cleaned B bus (record p { dirty = true }) o then (λ q. some (val 0, q)))
      shown none h = h
      shown (some (err e, b)) h = h
      shown (some (val n, b)) h = tt

      by_blanking :
          (blanked : Bool)
          → Succeeds (
              if not blanked
              then cleaned B bus (record p { dirty = true }) (refresh B bus p.bus_state)
              then (λ q. some (val 0, q))
              else some (val 0, record p { dirty = true }))
      by_blanking true = tt
      by_blanking false = shown (refresh B bus p.bus_state) (refresh-Succeeds p.bus_state)
