-- ===== src/El133/Tests.antt =====
-- Runs of the panel's driver.
use mender_rt1180_zephyr.Prelude.{true, false}
use mender_rt1180_zephyr.El133.Device.{Panel, init}
use mender_rt1180_zephyr.El133.Loads.{Ends}
use mender_rt1180_zephyr.El133.Frames.{seen}
use mender_rt1180_zephyr.El133.Starts.{Initialised, Spared, init-Ends}
use mender_rt1180_zephyr.El133.Wires.{Wires, wires, silent, wires_at_rest, wires_laws}

-- the lines as they may be when the power comes up
abbrev zeroed : Panel Wires
zeroed = record {
  blanking_on = false;
  dirty = false;
  glass_present = false;
  bus_state = record wires_at_rest { heard = record silent { selected0 = true } };
}

init-Ends_example :
    Ends
      (Initialised Wires wires wires_laws (seen Wires wires wires_laws zeroed))
      (Spared Wires wires wires_laws (seen Wires wires wires_laws zeroed))
      (init Wires wires zeroed)
init-Ends_example = init-Ends Wires wires wires_laws zeroed
