-- ===== src/T2000/Tests.antt =====
-- Commands and pieces at concrete sizes.
use mender_rt1180_zephyr.Prelude.{
  ℕ, ◌+◌, true, some, Ret, val, ◌≡◌, refl, arith, [], ◌∷◌, length, replicate,
}
use mender_rt1180_zephyr.T2000.Wait.{Clock, Steady, fill_and_wait, fill_and_wait-Ends}
use mender_rt1180_zephyr.T2000.{
  Usb, get_status, cmd_f1, cmd_f2_read, cuts, f1_bytes, chunk_bytes, trigger_bytes,
}
use mender_rt1180_zephyr.T2000.Cuts.{sum, Fit, cuts_lem}

f1_size : length (f1_bytes 0x43 (2 ∷ 2 ∷ 2 ∷ 0 ∷ [])) ≡ 21
unfolding f1_bytes replicate
f1_size = refl

chunk_size : length (chunk_bytes 16384 5760000 3200 1800) ≡ 30
unfolding chunk_bytes replicate
chunk_size = refl

trigger_size : length (trigger_bytes 3200 1800) ≡ 15
unfolding trigger_bytes
trigger_size = refl

cuts_lem_example : (sum (cuts 40000 40000) ≡ 40000) × Fit (cuts 40000 40000)
cuts_lem_example = cuts_lem 40000 40000 (omega arith)

-- a controller that is never idle, and a clock that only sleeping moves
abbrev busy : Usb ℕ
busy = record {
  ready = λ w. true;
  bulk_out = λ bytes w. (val 0, w);
  bulk_in = λ size w. ((val 0, replicate size 1), w);
}

abbrev clock : Clock ℕ
clock = record { uptime = λ w. w; sleep = λ ms w. w + ms }

clock-Steady : Steady ℕ busy clock
unfolding get_status cmd_f1 cmd_f2_read replicate
clock-Steady = record { sleeps = λ ms w. omega arith; queries = λ w. omega arith }

fill_and_wait-Ends_example : (r : Ret × ℕ) × (fill_and_wait ℕ busy clock 15 2 0 ≡ some r)
fill_and_wait-Ends_example = fill_and_wait-Ends ℕ busy clock clock-Steady 15 2 0
