-- ===== src/Display/Steps.antt =====
-- eink_display.c: the calls of any threads, and the work queue that runs `eink_work_handler`, one
-- critical section at a time and in any order. What a refresh returns is left open here.
pub mod Invariant
pub mod Idle
use mender_rt1180_zephyr.Prelude.{
  ℕ, ◌≡◌, Bool, true, false, not, if◌then◌else◌, List, [], ◌∷◌, Ret, val,
}
use mender_rt1180_zephyr.Display.{
  Service, Profile, Cmd, idle, no_job, fresh_status, clear_cmd, queue_cmd, display_show_payload,
  wait_idle, take_cmd, slot_freed, record_job, set_idle, give_idle,
}
use mender_rt1180_zephyr.Store.Reader.{Text}

-- where the handler stands
pub data Worker : Type 0 where
  resting : Worker
  painting : Cmd → Worker
  recording settling : Cmd → Ret → Worker
  giving : Worker

abbrev pub is_giving : Worker → Bool
is_giving giving = true
is_giving _ = false

-- the variables, the handler, and the commands that `set_idle` has ended, the last one first
pub record System : Type 0 where
  pub service : Service
  pub worker : Worker
  pub ended : List (Cmd × Ret)

-- `eink_display_init` has been called
abbrev pub started : System
started = record {
  service = record {
    status = fresh_status;
    pending = clear_cmd;
    has_pending = false;
    slot_busy = false;
    idle_sem = 1;
    inited = true;
  };
  worker = resting;
  ended = [];
}

-- A command is queued where `may_queue` allows it.
module _ (profile : Profile) (may_queue : Worker → Bool) where
  pub data Step (s : System) : System → Type 0 where
    queue :
        (cmd : Cmd)
        → may_queue s.worker ≡ true
        → Step s (record s { service = (queue_cmd cmd s.service).1 })
    show_payload :
        (payload : List ℕ) (job_id : Text)
        → may_queue s.worker ≡ true
        → Step s (record s { service = (display_show_payload profile payload job_id s.service).1 })
    wait : (no_wait : Bool) → Step s (record s { service = (wait_idle no_wait s.service).1 })
    take :
        s.worker ≡ resting
        → s.service.has_pending ≡ true
        → Step s (record s {
          service = (take_cmd s.service).1;
          worker = painting (take_cmd s.service).0;
        })
    paint :
        (cmd : Cmd) (ret : Ret)
        → s.worker ≡ painting cmd
        → Step s (record s { service = slot_freed cmd s.service; worker = recording cmd ret })
    keep_job :
        (cmd : Cmd) (ret : Ret)
        → s.worker ≡ recording cmd ret
        → Step s (record s { service = record_job cmd ret s.service; worker = settling cmd ret })
    settle :
        (cmd : Cmd) (ret : Ret)
        → s.worker ≡ settling cmd ret
        → Step s (record s {
          service = set_idle ret s.service;
          worker = giving;
          ended = (cmd, ret) ∷ s.ended;
        })
    give : s.worker ≡ giving → Step s (record s { service = give_idle s.service; worker = resting })

  pub data Reach : System → Type 0 where
    start : Reach started
    later : {s t : System} → Reach s → Step s t → Reach t
