-- ===== src/El133/Heard.antt =====
-- display_el133uf1.c: what the two controllers hear on the bus, and what a transfer, a wait for the
-- panel and a refresh have them hear.
use mender_rt1180_zephyr.Prelude.{
  ℕ, ◌+◌, ◌≤◌, ◌≡◌, refl, ap, ◌∙◌, sym, Bool, true, false, List, [], ◌∷◌, ◌++◌, map, append_assoc,
  append-nil, val, err, Errno, ◌⊎◌,
}
use mender_rt1180_zephyr.El133.{
  Pin, busy_pin, cs0_pin, cs1_pin, dc_pin, reset_pin, PinFlags, gpio_input, gpio_output_inactive,
  gpio_output_active, Cs, cs0, cs1, Bus, Reg,
}

-- a byte, told apart by the D/C line
pub data Word : Type 0 where
  command datum : ℕ → Word

-- the lines of the bus, and all that each controller has heard
pub record View : Type 0 where
  pub selected0 : Bool
  pub selected1 : Bool
  pub dc : Bool
  pub first : List Word
  pub second : List Word

abbrev pub drive : Pin → Bool → View → View
drive cs0_pin level v = record v { selected0 = level }
drive cs1_pin level v = record v { selected1 = level }
drive dc_pin level v = record v { dc = level }
drive busy_pin level v = v
drive reset_pin level v = v

abbrev pub word : Bool → ℕ → Word
word false x = command x
word true x = datum x

abbrev pub hearing : Bool → List Word → List Word → List Word
hearing true old new = old ++ new
hearing false old new = old

-- a controller hears the bytes while it is selected
abbrev pub transmit : List ℕ → View → View
transmit bytes v = record v {
  first = hearing v.selected0 v.first (map (word v.dc) bytes);
  second = hearing v.selected1 v.second (map (word v.dc) bytes);
}

-- the flags that configure a pin as an output, at a logical level
abbrev pub output : Bool → PinFlags
output true = gpio_output_active
output false = gpio_output_inactive

-- The documented behaviour of the calls: a pin takes its level, also the one that it is configured
-- with as an output, where a configuration that fails may leave it as it was; the pin that is
-- listened to drives nothing; a buffer that is written is heard, one that fails leaves the lines as
-- they are; and the clock goes on.
pub record Wired (B : Type 0) (bus : Bus B) : Type 0 where
  pub view : B → View
  pub view-set_pin :
      (p : Pin) (level : Bool) (b : B) → view (bus.set_pin p level b) ≡ drive p level (view b)
  pub view-is_busy_high : (b : B) → view (bus.is_busy_high b).1 ≡ view b
  pub view-sleep : (ms : ℕ) (b : B) → view (bus.sleep ms b) ≡ view b
  pub view-configure_input : (b : B) → view (bus.configure busy_pin gpio_input b).1 ≡ view b
  pub view-configure_output :
      (p : Pin) (level : Bool) (b : B)
      → (view (bus.configure p (output level) b).1 ≡ drive p level (view b))
        ⊎ ((view (bus.configure p (output level) b).1 ≡ view b)
            × (e : Errno) × ((bus.configure p (output level) b).0 ≡ err e))
  pub view-spi_write :
      (bytes : List ℕ) (b : B) (n : ℕ)
      → (bus.spi_write bytes b).0 ≡ val n
      → view (bus.spi_write bytes b).1 ≡ transmit bytes (view b)
  pub spi_failed :
      (bytes : List ℕ) (b : B) (e : Errno)
      → (bus.spi_write bytes b).0 ≡ err e
      → ((view (bus.spi_write bytes b).1).selected0 ≡ (view b).selected0)
        × ((view (bus.spi_write bytes b).1).selected1 ≡ (view b).selected1)
  pub looks : (b : B) → bus.uptime b ≤ bus.uptime (bus.is_busy_high b).1
  pub sleeps : (ms : ℕ) (b : B) → bus.uptime b + ms ≤ bus.uptime (bus.sleep ms b)

abbrev pub AtRest : View → Type 0
AtRest v = (v.selected0 ≡ false) × (v.selected1 ≡ false)

abbrev picks0 : Cs → Bool
picks0 cs1 = false
picks0 _ = true

abbrev picks1 : Cs → Bool
picks1 cs0 = false
picks1 _ = true

abbrev words : Reg → List Word
words r = command r.cmd ∷ map (word true) r.payload

-- what the writes to some registers say to the first controller, and to the second
abbrev pub first_words : List Reg → List Word
first_words [] = []
first_words (r ∷ regs) = hearing (picks0 r.which) [] (words r) ++ first_words regs

abbrev pub second_words : List Reg → List Word
second_words [] = []
second_words (r ∷ regs) = hearing (picks1 r.which) [] (words r) ++ second_words regs

first_words-append : (rs qs : List Reg) → first_words (rs ++ qs) ≡ first_words rs ++ first_words qs
first_words-append [] qs = refl
first_words-append (r ∷ rs) qs =
    rw (first_words-append rs qs) (sym (append_assoc (hearing (picks0 r.which) [] (words r)) _ _))

second_words-append :
    (rs qs : List Reg) → second_words (rs ++ qs) ≡ second_words rs ++ second_words qs
second_words-append [] qs = refl
second_words-append (r ∷ rs) qs =
    rw (second_words-append rs qs) (sym (append_assoc (hearing (picks1 r.which) [] (words r)) _ _))

-- Between `v` and `w` the controllers have heard the writes, and both are released.
pub record Told (regs : List Reg) (v w : View) : Type 0 where
  pub rest : AtRest w
  pub first_heard : w.first ≡ v.first ++ first_words regs
  pub second_heard : w.second ≡ v.second ++ second_words regs

pub Told-nil : (v w : View) → AtRest v → w ≡ v → Told [] v w
Told-nil v w h e = record {
  rest = rw e h;
  first_heard = ap (λ z. z.first) e ∙ sym (append-nil v.first);
  second_heard = ap (λ z. z.second) e ∙ sym (append-nil v.second);
}

pub Told-append :
    (rs qs : List Reg) (u v w : View) → Told rs u v → Told qs v w → Told (rs ++ qs) u w
Told-append rs qs u v w h k = record {
  rest = k.rest;
  first_heard =
      k.first_heard
      ∙ ap (λ l. l ++ first_words qs) h.first_heard
      ∙ append_assoc u.first (first_words rs) (first_words qs)
      ∙ ap (λ l. u.first ++ l) (sym (first_words-append rs qs));
  second_heard =
      k.second_heard
      ∙ ap (λ l. l ++ second_words qs) h.second_heard
      ∙ append_assoc u.second (second_words rs) (second_words qs)
      ∙ ap (λ l. u.second ++ l) (sym (second_words-append rs qs));
}
