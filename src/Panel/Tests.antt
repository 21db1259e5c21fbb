-- ===== src/Panel/Tests.antt =====
-- A board with both drivers and only the glass of the EL133UF1.
use mender_rt1180_zephyr.Prelude.{ℕ, ◌≡◌, refl, true, false, [], none, val, err, enodev}
use mender_rt1180_zephyr.Panel.{
  Detection, Drivers, nothing, el133, detect, probe_t2000, probe_el133,
}

abbrev lab : Drivers ℕ
lab = record {
  has_t2000 = true;
  has_el133 = true;
  t2000_init = λ w. (val 0, w);
  t2000_wait_ready = λ w. (err enodev, w);
  t2000_get_info = λ w. (none, w);
  el133_ready = λ w. true;
  el133_glass_present = λ w. (true, w);
  el133_width = 1200;
  el133_height = 1600;
  default_screen_type = [];
}

abbrev cold : Detection
cold = record { info = nothing; detected = false }

finds_glass : (detect ℕ lab (cold, 0)).1.0.info.kind ≡ el133
unfolding detect probe_t2000 probe_el133
finds_glass = refl
