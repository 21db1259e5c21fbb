-- ===== src/El133.antt =====
-- display_el133uf1.c: the bus of the panel's two controllers, a transfer, the wait for the panel, the
-- registers that the initialisation writes, and the refresh.
pub mod Stream
pub mod Device
pub mod Heard
pub mod Orders
pub mod Loads
pub mod Streams
pub mod Frames
pub mod Supported
pub mod Wires
pub mod Starts
pub mod Works
pub mod Goes
pub mod Tells
mod Tests
use mender_rt1180_zephyr.Prelude.{
  ℕ, zero, suc, ◌+◌, ◌/◌, Bool, true, false, List, [], ◌∷◌, ltb, if◌then◌else◌, Option, none, some,
  Ret, val, err, etimedout,
}

pub data Pin : Type 0 where
  busy_pin cs0_pin cs1_pin dc_pin reset_pin : Pin

-- the flags of Zephyr that the driver configures a pin with, and GPIO_OUTPUT_ACTIVE
pub data PinFlags : Type 0 where
  gpio_input gpio_output_inactive gpio_output_active : PinFlags

-- enum el133_cs
pub data Cs : Type 0 where
  cs0 cs1 cs_both : Cs

-- Zephyr's SPI and GPIO calls, and its clock, on a state `B`
pub record Bus (B : Type 0) : Type 0 where
  pub spi_is_ready : B → Bool
  -- one buffer
  pub spi_write : List ℕ → B → Ret × B
  pub configure : Pin → PinFlags → B → Ret × B
  -- the logical level
  pub set_pin : Pin → Bool → B → B
  -- gpio_pin_get_dt(&cfg->busy) == 1
  pub is_busy_high : B → Bool × B
  pub uptime : B → ℕ
  pub sleep : ℕ → B → B

-- `if (ret < 0) return ret;` between two calls; `none` where a loop runs out of fuel
infixl 5 ◌then◌
abbrev pub ◌then◌ {ℓ} : {S : Type ℓ} → Option (Ret × S) → (S → Option (Ret × S)) → Option (Ret × S)
none then next = none
some (err e, s) then next = some (err e, s)
some (val n, s) then next = next s

-- a write to the register `cmd` of the controllers `which`
pub record Reg : Type 0 where
  pub which : Cs
  pub cmd : ℕ
  pub payload : List ℕ

abbrev pub reg : Cs → ℕ → List ℕ → Reg
reg which cmd payload = record { which = which; cmd = cmd; payload = payload }

abbrev pub dtm : ℕ
dtm = 0x10

module _ (B : Type 0) (bus : Bus B) where
  abbrev pub cs_set : Cs → Bool → B → B
  cs_set cs0 selected b = bus.set_pin cs0_pin selected b
  cs_set cs1 selected b = bus.set_pin cs1_pin selected b
  cs_set cs_both selected b = bus.set_pin cs1_pin selected (bus.set_pin cs0_pin selected b)

  -- `which` selected, and the D/C line at the command's level
  abbrev pub addressed : Cs → B → B
  addressed which b = bus.set_pin dc_pin false (cs_set which true b)

  abbrev pub released : Cs → Ret × B → Ret × B
  released which (ret, b) = (ret, cs_set which false b)

  abbrev pub followed : Cs → List ℕ → Ret × B → Ret × B
  followed which payload (err e, b) = (err e, cs_set which false b)
  followed which [] (val n, b) = (val n, cs_set which false b)
  followed which (x ∷ payload) (val n, b) =
      released which (bus.spi_write (x ∷ payload) (bus.set_pin dc_pin true b))

  unfoldable pub xfer_cmd : Reg → B → Ret × B
  xfer_cmd r b = followed r.which r.payload (bus.spi_write (r.cmd ∷ []) (addressed r.which b))

  abbrev pub looked : (B → Option (Ret × B)) → ℕ → Bool × B → Option (Ret × B)
  looked more end (true, b) = some (val 0, b)
  looked more end (false, b) =
      if ltb end (bus.uptime b) then some (err etimedout, b) else more (bus.sleep 5 b)

  -- the `while` loop of `wait_ready`; `none` where the fuel is used up
  unfoldable pub ready_loop : ℕ → ℕ → B → Option (Ret × B)
  ready_loop zero end b = none
  ready_loop (suc fuel) end b = looked (λ b'. ready_loop fuel end b') end (bus.is_busy_high b)

  -- a turn for every sleep of 5 ms in the timeout, one past it, and the first look
  unfoldable pub wait_ready : ℕ → B → Option (Ret × B)
  wait_ready timeout_ms b = ready_loop (suc (suc (timeout_ms / 5))) (bus.uptime b + timeout_ms) b

  abbrev pub written : (B → Ret × B) → Ret × B → Ret × B
  written more (err e, b) = (err e, b)
  written more (val n, b) = more b

  unfoldable pub write_regs : List Reg → B → Ret × B
  write_regs [] b = (val 0, b)
  write_regs (r ∷ regs) b = written (λ b'. write_regs regs b') (xfer_cmd r b)

  unfoldable pub refresh : B → Option (Ret × B)
  refresh b =
      some (xfer_cmd (reg cs0 0x04 []) b)
      then wait_ready 30000
      then (λ b1. some (xfer_cmd (reg cs1 0x04 []) b1))
      then wait_ready 30000
      then (λ b2. some (xfer_cmd (reg cs_both 0x12 (0x00 ∷ [])) (bus.sleep 30 b2)))
      then wait_ready 60000
      then (λ b3. some (xfer_cmd (reg cs0 0x02 (0x01 ∷ [])) b3))
      then wait_ready 30000
      then (λ b4. some (xfer_cmd (reg cs1 0x02 (0x01 ∷ [])) b4))
      then wait_ready 30000

-- the writes of `epd_init_registers`, in its order
abbrev pub init_registers : List Reg
init_registers =
    reg cs0 0x74 (0xC0 ∷ 0x1C ∷ 0x1C ∷ 0xCC ∷ 0xCC ∷ 0xCC ∷ 0x15 ∷ 0x15 ∷ 0x55 ∷ [])
    ∷ reg cs_both 0xF0 (0x49 ∷ 0x55 ∷ 0x13 ∷ 0x5D ∷ 0x05 ∷ 0x10 ∷ [])
    ∷ reg cs_both 0x00 (0xDF ∷ 0x6B ∷ [])
    ∷ reg cs0 0xA5 (0x44 ∷ 0x54 ∷ 0x00 ∷ [])
    ∷ reg cs_both 0xE6 (0x00 ∷ [])
    ∷ reg cs_both 0x30 (0x08 ∷ [])
    ∷ reg cs_both 0x50 (0xF7 ∷ [])
    ∷ reg cs_both 0x60 (0x03 ∷ 0x03 ∷ [])
    ∷ reg cs0 0x03 (0x00 ∷ 0xC0 ∷ 0x03 ∷ 0xA4 ∷ [])
    ∷ reg cs_both 0x86 (0x10 ∷ [])
    ∷ reg cs_both 0xE3 (0x22 ∷ [])
    ∷ reg cs_both 0xE0 (0x01 ∷ [])
    ∷ reg cs_both 0x61 (0x04 ∷ 0xB0 ∷ 0x03 ∷ 0x20 ∷ [])
    ∷ reg cs0 0x01 (0x0F ∷ 0x00 ∷ 0x28 ∷ 0x2C ∷ 0x28 ∷ 0x38 ∷ [])
    ∷ reg cs0 0xB6 (0x07 ∷ [])
    ∷ reg cs0 0x06 (0xD8 ∷ 0x18 ∷ [])
    ∷ reg cs0 0xB7 (0x01 ∷ [])
    ∷ reg cs0 0x05 (0xD8 ∷ 0x18 ∷ [])
    ∷ reg cs0 0xB0 (0x01 ∷ [])
    ∷ reg cs0 0xB1 (0x02 ∷ [])
    ∷ []

unfoldable pub epd_init_registers : (B : Type 0) → Bus B → B → Ret × B
epd_init_registers B bus b = write_regs B bus init_registers b
