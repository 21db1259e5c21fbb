-- ===== src/Wake.antt =====
-- mender-mcu-integration/src/eink/eink_wake.c: `eink_wake_run_once`, one wake of the battery device,
-- from the power helpers to the entry into SNVS sleep. The parts that it calls besides them are the
-- record Services, over the same state of the rest of the device.
pub mod OnTime
mod Tests
use mender_rt1180_zephyr.Prelude.{
  ℕ, zero, suc, ◌*◌, Bool, true, false, not, ◌&&◌, List, some, Ret, val, err, if◌then◌else◌,
}
use mender_rt1180_zephyr.Prelude.Int.{ℤ, pos, ◌+ℤ◌, ltb_ℤ}
use mender_rt1180_zephyr.Scheduler.Core.{Job, next_wakeup}
use mender_rt1180_zephyr.Power.{
  Board, Machine, Entry, refused, set_next_wake, power_init, iw612_set, enter_snvs,
}

pub record Services (World : Type 0) : Type 0 where
  pub scheduler_tick : World → Ret × World
  pub scheduler_repaint : World → Ret × World
  -- the jobs that the scheduler holds
  pub schedule : World → List Job
  -- CONFIG_APP_EINK_HTTP and CONFIG_APP_EINK_WAKE_SKIP_RADIO_IF_CURRENT
  pub has_http : Bool
  pub skip_radio_if_current : Bool
  pub radio_sync_needed : World → Bool
  pub sync_once : World → Ret × World
  pub flush_deferred : World → Ret × World
  -- CONFIG_APP_EINK_HTTP_POLL_INTERVAL
  pub poll_interval : ℕ

module _ (b : Board) (v : Services b.World) where
  -- A tick that shows nothing new is followed by a repaint.
  abbrev after_tick : Ret × b.World → b.World
  after_tick (val zero, w) = (v.scheduler_repaint w).1
  after_tick (val (suc n), w) = w
  after_tick (err e, w) = w

  unfoldable pub paint : b.World → b.World
  paint w = after_tick (v.scheduler_tick w)

  abbrev pub online : Ret × Machine b → Machine b
  online (val zero, (s, w)) = (s, (v.flush_deferred (v.sync_once w).1).1)
  online (val (suc n), m) = m
  online (err e, m) = m

  -- The rail is up for the transaction only.
  unfoldable pub transact : Machine b → Machine b
  transact m = (iw612_set b false (online (iw612_set b true m))).1

  unfoldable pub network : Machine b → Machine b
  network (s, w) =
      if v.has_http
      then (if v.skip_radio_if_current && not (v.radio_sync_needed w)
          then (s, w)
          else transact (s, w))
      else (s, w)

  abbrev pub poll : ℕ
  poll = if v.has_http then v.poll_interval else 300

  abbrev fallback : ℤ → ℤ
  fallback now =
      let next = now +ℤ pos poll in
      if ltb_ℤ next (now +ℤ pos 60) then now +ℤ pos (12 * 3600) else next

  -- The clock counts as unset before 1700000000.
  unfoldable pub wake_time : ℤ → List Job → ℤ
  wake_time now jobs =
      if ltb_ℤ now (pos 1700000000) then fallback now else next_wakeup (some jobs) now poll

  abbrev pub go_to_sleep : Machine b → Entry × Machine b
  go_to_sleep (s, w) = enter_snvs b (set_next_wake (wake_time (b.time w) (v.schedule w)) s, w)

  abbrev pub awake : Machine b → Machine b
  awake (s, w) = network (s, paint w)

  abbrev after_init : Ret × Machine b → Entry × Machine b
  after_init (err e, m) = (refused e, m)
  after_init (val n, m) = go_to_sleep (awake m)

  unfoldable pub run_once : Machine b → Entry × Machine b
  run_once m = after_init (power_init b m)
