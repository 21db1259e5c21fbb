-- ===== src/Display/Handler.antt =====
-- eink_display.c: a run of `eink_work_handler` as a whole.
use mender_rt1180_zephyr.Prelude.{
  ◌≡◌, refl, Bool, true, false, arith, if◌then◌else◌, ◌∷◌, Option, none, some, Ret,
}
use mender_rt1180_zephyr.Display.{
  Action, Cmd, Service, Profile, idle, error, succeeded, is_busy, take_cmd, slot_freed, record_job,
  set_idle, give_idle,
}
use mender_rt1180_zephyr.Display.Steps.{Worker, resting, System, Step, Reach, later}

-- on the state `W` of what is painted, with `paint` for what is done with a command; `none` where it
-- does not end
module _ (W : Type 0) (paint : Action → W → Option (Ret × W)) where
  abbrev pub after_paint : Cmd → Service → Ret → Service
  after_paint cmd sv ret = give_idle (set_idle ret (record_job cmd ret (slot_freed cmd sv)))

  abbrev pub painted : Cmd → Service → Option (Ret × W) → Option (Service × W)
  painted cmd sv none = none
  painted cmd sv (some (ret, w)) = some (after_paint cmd sv ret, w)

  unfoldable pub work_handler : Service → W → Option (Service × W)
  work_handler sv w =
      if sv.has_pending
      then painted (take_cmd sv).0 (take_cmd sv).1 (paint (take_cmd sv).0.action w)
      else some (sv, w)

  module _ (profile : Profile) (may_queue : Worker → Bool) where
    -- What is left by a command that was taken and painted with the result `ret`: the handler ends,
    -- the steps reach where it ends, the status has the result, and the display is idle.
    pub record Served (s : System) (ret : Ret) (w w' : W) : Type 0 where
      pub after : Service
      pub ends : work_handler s.service w ≡ some (after, w')
      pub reached :
          Reach profile may_queue (record {
            service = after;
            worker = resting;
            ended = (s.service.pending, ret) ∷ s.ended;
          })
      pub result_kept : after.status.last_result ≡ ret
      pub state_kept : after.status.state ≡ (if succeeded ret then idle else error)
      pub not_busy : is_busy after ≡ false
      pub idle_given : after.idle_sem ≡ 1

    after_paint-Reach :
        (s : System) (ret : Ret)
        → Reach profile may_queue s
        → s.worker ≡ resting
        → s.service.has_pending ≡ true
        → let cmd = (take_cmd s.service).0 in
          Reach profile may_queue (record {
            service = after_paint cmd (take_cmd s.service).1 ret;
            worker = resting;
            ended = (cmd, ret) ∷ s.ended;
          })
    after_paint-Reach s ret r at pending =
        let cmd = (take_cmd s.service).0 in
        later
          (later
            (later (later (later r (Step.take at pending)) (Step.paint cmd ret refl))
              (Step.keep_job cmd ret refl))
            (Step.settle cmd ret refl))
          (Step.give refl)

    -- From a state that the steps reach, with the handler at rest and a command pending, whose
    -- painting ends with a result: a run of the handler as a whole ends, where the steps of the
    -- handler lead when that command is ended with that result; the status has the result and its
    -- state, no command is pending, and the semaphore is given.
    pub work_handler-Reach :
        (s : System) (ret : Ret) (w w' : W)
        → Reach profile may_queue s
        → s.worker ≡ resting
        → s.service.has_pending ≡ true
        → paint s.service.pending.action w ≡ some (ret, w')
        → Served s ret w w'
    unfolding work_handler take_cmd record_job set_idle give_idle is_busy
    work_handler-Reach s ret w w' r at pending shown = record {
      after = after_paint s.service.pending (take_cmd s.service).1 ret;
      ends = rw (pending, shown) refl;
      reached = after_paint-Reach s ret r at pending;
      result_kept = ground arith;
      state_kept = ground arith;
      not_busy = ground arith;
      idle_given = refl;
    }
