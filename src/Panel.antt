-- ===== src/Panel.antt =====
-- mender-mcu-integration/src/eink/eink_panel.c and eink_panel.h: which panel is connected. The calls
-- of the two drivers, and the configuration, are the record Drivers.
mod Tests
use mender_rt1180_zephyr.Prelude.{
  ℕ, zero, suc, ◌≡◌, refl, ap, ◌∙◌, Bool, true, false, ◌&&◌, not, List, [], ◌∷◌, length, ◌==◌,
  Option, none, some, if◌then◌else◌, Ret, val, err, Bool-cases, inl, inr,
}
use mender_rt1180_zephyr.T2000.{Info}

pub data Kind : Type 0 where
  no_panel el133 t2000 : Kind

-- `name` is the kind in print, and is left out.
pub record PanelInfo : Type 0 where
  pub kind : Kind
  pub screen_type : List ℕ
  pub width : ℕ
  pub height : ℕ

-- `s_info` and `s_detected`
pub record Detection : Type 0 where
  pub info : PanelInfo
  pub detected : Bool

pub record Drivers (W : Type 0) : Type 0 where
  -- CONFIG_APP_EINK_T2000 and CONFIG_EL133UF1
  pub has_t2000 : Bool
  pub has_el133 : Bool
  pub t2000_init : W → Ret × W
  pub t2000_wait_ready : W → Ret × W
  -- the information where the call returns 0
  pub t2000_get_info : W → Option Info × W
  pub el133_ready : W → Bool
  pub el133_glass_present : W → Bool × W
  -- EL133_PANEL_WIDTH and EL133_PANEL_HEIGHT
  pub el133_width : ℕ
  pub el133_height : ℕ
  -- CONFIG_APP_EINK_SCREEN_TYPE
  pub default_screen_type : List ℕ

abbrev pub nothing : PanelInfo
nothing = record { kind = no_panel; screen_type = []; width = 0; height = 0 }

module _ (W : Type 0) (d : Drivers W) where
  abbrev el133_info : PanelInfo
  el133_info = record {
    kind = el133;
    screen_type = b'1' ∷ b'3' ∷ b'i' ∷ b'n' ∷ [];
    width = d.el133_width;
    height = d.el133_height;
  }

  abbrev glass : Bool × W → Option PanelInfo × W
  glass (true, w) = (some el133_info, w)
  glass (false, w) = (none, w)

  unfoldable pub probe_el133 : W → Option PanelInfo × W
  probe_el133 w = if d.el133_ready w then glass (d.el133_glass_present w) else (none, w)

  abbrev answered : Option Info × W → Option PanelInfo × W
  answered (none, w) = (none, w)
  answered (some i, w) = (
    some (record {
      kind = t2000;
      screen_type = b'2' ∷ b'5' ∷ b'i' ∷ b'n' ∷ [];
      width = i.panel_width;
      height = i.panel_height;
    }),
    w,
  )

  abbrev waited : Ret × W → Option PanelInfo × W
  waited (val zero, w) = answered (d.t2000_get_info w)
  waited (val (suc n), w) = (none, w)
  waited (err e, w) = (none, w)

  abbrev started : Ret × W → Option PanelInfo × W
  started (val zero, w) = waited (d.t2000_wait_ready w)
  started (val (suc n), w) = (none, w)
  started (err e, w) = (none, w)

  unfoldable pub probe_t2000 : W → Option PanelInfo × W
  probe_t2000 w = started (d.t2000_init w)

  abbrev second : W → Option PanelInfo × W
  second w = if d.has_el133 then probe_el133 w else (none, w)

  -- The T2000 comes first.
  abbrev after_t2000 : Option PanelInfo × W → Option PanelInfo × W
  after_t2000 (some i, w) = (some i, w)
  after_t2000 (none, w) = second w

  abbrev found : Option PanelInfo × W → Ret × (Detection × W)
  found (some i, w) = (val 0, (record { info = i; detected = true }, w))
  found (none, w) = (val 0, (record { info = nothing; detected = true }, w))

  unfoldable pub detect : Detection × W → Ret × (Detection × W)
  detect (s, w) =
      if s.detected
      then (val 0, (s, w))
      else found (after_t2000 (if d.has_t2000 then probe_t2000 w else (none, w)))

  unfoldable pub get : Detection × W → PanelInfo × (Detection × W)
  get m = let r = (detect m).1 in (r.0.info, r)

  abbrev or_default : List ℕ → List ℕ
  or_default [] = d.default_screen_type
  or_default (c ∷ name) = c ∷ name

  unfoldable pub screen_type_of : Detection × W → List ℕ × (Detection × W)
  screen_type_of m = let r = get m in (or_default r.0.screen_type, r.1)

  found_detected : (r : Option PanelInfo × W) → (found r).1.0.detected ≡ true
  found_detected (some i, w) = refl
  found_detected (none, w) = refl

  skips : (m : Detection × W) → m.0.detected ≡ true → detect m ≡ (val 0, m)
  unfolding detect
  skips (s, w) e = simp e refl

  detect_detected : (m : Detection × W) → (detect m).1.0.detected ≡ true
  unfolding detect
  detect_detected (s, w) = elim (Bool-cases s.detected) [
    | inl seen ↦ ap (λ r. r.1.0.detected) (skips (s, w) seen) ∙ seen
    | inr fresh ↦
        rw fresh (found_detected (after_t2000 (if d.has_t2000 then probe_t2000 w else (none, w))))
  ]

  -- The drivers are probed once: a detection after another returns 0 and changes nothing, neither
  -- what was found nor the drivers' state, and every later look gives the same panel.
  pub detect_again :
      (m : Detection × W)
      → (detect (detect m).1 ≡ (val 0, (detect m).1))
        × (get (detect m).1 ≡ ((detect m).1.0.info, (detect m).1))
  unfolding get
  detect_again m =
      let again = skips (detect m).1 (detect_detected m) in
      (again, ap (λ r. (r.1.0.info, r.1)) again)
