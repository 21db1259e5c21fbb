-- ===== src/Display/Steps/Invariant.antt =====
-- eink_display.c: what holds of the display service in every order of the calls and of the work
-- queue.
use mender_rt1180_zephyr.Prelude.{
  ℕ, suc, ◌%◌, ◌^◌, ◌≤◌, ◌≡◌, arith, Bool, true, false, ◌||◌, ◌&&◌, if◌then◌else◌, List, [], ◌∷◌,
  Ret, val,
}
use mender_rt1180_zephyr.Display.{
  State, idle, refreshing, error, Profile, Cmd, copied, no_job, succeeded, has_job, of_payload,
  is_busy, queue_cmd, display_show_payload, wait_idle, take_cmd, slot_freed, record_job, set_idle,
  give_idle,
}
use mender_rt1180_zephyr.Display.Steps.{
  Worker, resting, painting, recording, settling, giving, System, started, Step, Reach, start,
  later,
}
use mender_rt1180_zephyr.Store.Reader.{Text}

-- the handler is between taking a command and ending it
abbrev pub is_working : Worker → Bool
is_working resting = false
is_working giving = false
is_working _ = true

abbrev pub paints_payload : Worker → Bool
paints_payload (painting cmd) = of_payload cmd.action
paints_payload _ = false

abbrev pub successes : List (Cmd × Ret) → ℕ
successes [] = 0
successes ((cmd, ret) ∷ ended) = if succeeded ret then suc (successes ended) else successes ended

abbrev pub newest_result : List (Cmd × Ret) → Ret
newest_result [] = val 0
newest_result ((cmd, ret) ∷ ended) = ret

-- the job of the newest success that has one
abbrev pub newest_job : List (Cmd × Ret) → Text
newest_job [] = no_job
newest_job ((cmd, ret) ∷ ended) =
    if succeeded ret
    then (if has_job cmd.job_id then copied 63 cmd.job_id else newest_job ended)
    else newest_job ended

-- a job is recorded before its command is ended
abbrev pub recorded : Worker → List (Cmd × Ret) → List (Cmd × Ret)
recorded (settling cmd ret) ended = (cmd, ret) ∷ ended
recorded _ ended = ended

abbrev pub state_of : Worker → Ret → State
state_of worker ret =
    if is_working worker then refreshing else if succeeded ret then idle else error

pub record Inv (s : System) : Type 0 where
  pub state_exact : s.service.status.state ≡ state_of s.worker (newest_result s.ended)
  pub one_at_a_time : is_working s.worker ≡ true → s.service.has_pending ≡ false
  pub result_exact : s.service.status.last_result ≡ newest_result s.ended
  pub count_exact : s.service.status.refresh_count ≡ successes s.ended % 2 ^ 32
  pub job_exact : s.service.status.last_job_id ≡ newest_job (recorded s.worker s.ended)
  pub slot_used :
      s.service.slot_busy ≡ true
      → ((s.service.has_pending && of_payload s.service.pending.action) || paints_payload s.worker)
        ≡ true
  pub idle_bounded : s.service.idle_sem ≤ 1

started-Inv : Inv started
started-Inv = ground arith

queue_cmd-Inv :
    (cmd : Cmd) (s : System) → Inv s → Inv (record s { service = (queue_cmd cmd s.service).1 })
unfolding queue_cmd is_busy
queue_cmd-Inv cmd s inv = ground arith

show_payload-Inv :
    (profile : Profile) (payload : List ℕ) (job_id : Text) (s : System)
    → Inv s
    → Inv (record s { service = (display_show_payload profile payload job_id s.service).1 })
unfolding display_show_payload is_busy
show_payload-Inv profile payload job_id s inv = ground arith

wait_idle-Inv :
    (no_wait : Bool) (s : System)
    → Inv s
    → Inv (record s { service = (wait_idle no_wait s.service).1 })
unfolding wait_idle
wait_idle-Inv no_wait s inv = ground arith

take_cmd-Inv :
    (s : System)
    → s.worker ≡ resting
    → s.service.has_pending ≡ true
    → Inv s
    → Inv (record s { service = (take_cmd s.service).1; worker = painting (take_cmd s.service).0 })
unfolding take_cmd
take_cmd-Inv s at pending inv = ground arith

paint-Inv :
    (cmd : Cmd) (ret : Ret) (s : System)
    → s.worker ≡ painting cmd
    → Inv s
    → Inv (record s { service = slot_freed cmd s.service; worker = recording cmd ret })
paint-Inv cmd ret s at inv = ground arith

record_job-Inv :
    (cmd : Cmd) (ret : Ret) (s : System)
    → s.worker ≡ recording cmd ret
    → Inv s
    → Inv (record s { service = record_job cmd ret s.service; worker = settling cmd ret })
unfolding record_job
record_job-Inv cmd ret s at inv = ground arith

set_idle-Inv :
    (cmd : Cmd) (ret : Ret) (s : System)
    → s.worker ≡ settling cmd ret
    → Inv s
    → Inv (record s {
      service = set_idle ret s.service;
      worker = giving;
      ended = (cmd, ret) ∷ s.ended;
    })
unfolding set_idle
set_idle-Inv cmd ret s at inv = ground arith

give_idle-Inv :
    (s : System)
    → s.worker ≡ giving
    → Inv s
    → Inv (record s { service = give_idle s.service; worker = resting })
unfolding give_idle
give_idle-Inv s at inv = ground arith

Step-Inv :
    (profile : Profile) (may_queue : Worker → Bool) {s t : System}
    → Step profile may_queue s t
    → Inv s
    → Inv t
Step-Inv profile may_queue {s} (Step.queue cmd ok) inv = queue_cmd-Inv cmd s inv
Step-Inv profile may_queue {s} (Step.show_payload payload job_id ok) inv =
    show_payload-Inv profile payload job_id s inv
Step-Inv profile may_queue {s} (Step.wait no_wait) inv = wait_idle-Inv no_wait s inv
Step-Inv profile may_queue {s} (Step.take at pending) inv = take_cmd-Inv s at pending inv
Step-Inv profile may_queue {s} (Step.paint cmd ret at) inv = paint-Inv cmd ret s at inv
Step-Inv profile may_queue {s} (Step.keep_job cmd ret at) inv = record_job-Inv cmd ret s at inv
Step-Inv profile may_queue {s} (Step.settle cmd ret at) inv = set_idle-Inv cmd ret s at inv
Step-Inv profile may_queue {s} (Step.give at) inv = give_idle-Inv s at inv

-- In every order of the calls and of the handler's critical sections, from the end of the
-- initialisation on: the state is that of the handler and of the newest result, no command is
-- pending while one is painted, the refreshes are counted, the last job is that of the newest
-- success that has one, the payload slot is taken only for a command that waits or is painted, and
-- the semaphore counts 1 at most.
pub Reach-Inv :
    (profile : Profile) (may_queue : Worker → Bool) {s : System} → Reach profile may_queue s → Inv s
Reach-Inv profile may_queue start = started-Inv
Reach-Inv profile may_queue (later r st) =
    Step-Inv profile may_queue st (Reach-Inv profile may_queue r)
