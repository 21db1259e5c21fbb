-- ===== src/Display.antt =====
-- mender-mcu-integration/src/eink/eink_display.c and eink_display.h: the state of the display
-- service and its calls. Each of these functions is one critical section of the mutex `eink_mu`. A
-- path is never null, and a job identifier that is null is empty.
pub mod Screen
pub mod Rows
pub mod Paint
pub mod Steps
pub mod Streams
pub mod Shown
pub mod Handler
mod Tests
use mender_rt1180_zephyr.Prelude.{
  ℕ, zero, suc, ◌+◌, ◌%◌, ◌^◌, Bool, true, false, not, ◌||◌, if◌then◌else◌, List, [], ◌∷◌, take,
  Ret, val, err, enotsup, enodev, ebusy, eagain,
}
use mender_rt1180_zephyr.Store.Reader.{Text}

pub data State : Type 0 where
  idle refreshing error : State

abbrev pub is_refreshing : State → Bool
is_refreshing refreshing = true
is_refreshing _ = false

-- struct eink_display_status
pub record Status : Type 0 where
  pub state : State
  pub last_result : Ret
  pub last_job_id : Text
  pub refresh_count : ℕ

-- enum eink_cmd_type, with the payload of the slot `eink_payload_slot`
pub data Action : Type 0 where
  show_path : Text → Action
  clear : Action
  show_payload : List ℕ → Action

pub record Cmd : Type 0 where
  pub action : Action
  pub job_id : Text

-- the static variables; `idle_sem` is the count of the semaphore, whose limit is 1
pub record Service : Type 0 where
  pub status : Status
  pub pending : Cmd
  pub has_pending : Bool
  pub slot_busy : Bool
  pub idle_sem : ℕ
  pub inited : Bool

-- CONFIG_EL133UF1, CONFIG_APP_EINK_FULL_FRAMEBUFFER, CONFIG_APP_EINK_DISPLAY_LCD_PREVIEW and
-- CONFIG_ARCH_POSIX
pub record Profile : Type 0 where
  pub el133 : Bool
  pub full_framebuffer : Bool
  pub lcd_preview : Bool
  pub posix : Bool

-- `strncpy` into a zeroed or terminated buffer of `n + 1` bytes
abbrev pub copied : ℕ → Text → Text
copied n text = take n text

abbrev pub no_job : Text
no_job = []

abbrev pub fresh_status : Status
fresh_status = record { state = idle; last_result = val 0; last_job_id = no_job; refresh_count = 0 }

abbrev pub init : Bool → Service → Ret × Service
init is_ready s =
    if s.inited
    then (val 0, s)
    else if not is_ready
    then (err enodev, s)
    else (val 0, record s { status = fresh_status; idle_sem = 1; inited = true })

unfoldable pub is_busy : Service → Bool
is_busy s = s.has_pending || is_refreshing s.status.state

unfoldable pub queue_cmd : Cmd → Service → Ret × Service
unfolding is_busy
queue_cmd cmd s =
    if is_busy s
    then (err ebusy, s)
    else (val 0, record s { pending = cmd; has_pending = true; idle_sem = 0 })

abbrev pub show_path_cmd : Text → Text → Cmd
show_path_cmd path job_id = record {
  action = show_path (copied 255 path);
  job_id = copied 63 job_id;
}

abbrev pub clear_cmd : Cmd
clear_cmd = record { action = clear; job_id = no_job }

abbrev pub display_show_path : Text → Text → Service → Ret × Service
display_show_path path job_id s = queue_cmd (show_path_cmd path job_id) s

abbrev pub display_clear : Service → Ret × Service
display_clear s = queue_cmd clear_cmd s

unfoldable pub display_show_payload : Profile → List ℕ → Text → Service → Ret × Service
unfolding is_busy
display_show_payload profile payload job_id s =
    if not profile.full_framebuffer
    then (err enotsup, s)
    else if s.slot_busy || is_busy s
    then (err ebusy, s)
    else (
      val 0,
      record s {
        pending = record { action = show_payload payload; job_id = copied 63 job_id };
        has_pending = true;
        slot_busy = true;
        idle_sem = 0;
      },
    )

abbrev pub get_status : Service → Status
get_status s = s.status

-- `k_sem_take`, in the moment in which it returns: it takes one from a count above 0, and otherwise
-- its timeout is over
abbrev pub sem_taken : Bool → ℕ → Service → Ret × Service
sem_taken no_wait zero s = (err (if no_wait then ebusy else eagain), s)
sem_taken no_wait (suc n) s = (val 0, record s { idle_sem = n })

unfoldable pub wait_idle : Bool → Service → Ret × Service
wait_idle no_wait s = sem_taken no_wait s.idle_sem s

-- the first critical section of `eink_work_handler`, where a command is pending
unfoldable pub take_cmd : Service → Cmd × Service
take_cmd s =
    let status = record s.status { state = refreshing } in
    (s.pending, record s { has_pending = false; status = status })

abbrev pub of_payload : Action → Bool
of_payload (show_payload payload) = true
of_payload _ = false

-- after the write of a payload
abbrev pub slot_freed : Cmd → Service → Service
slot_freed cmd s = if of_payload cmd.action then record s { slot_busy = false } else s

abbrev pub succeeded : Ret → Bool
succeeded (val zero) = true
succeeded _ = false

abbrev pub has_job : Text → Bool
has_job [] = false
has_job (c ∷ job) = true

-- the second critical section, with the test before it
unfoldable pub record_job : Cmd → Ret → Service → Service
record_job cmd ret s =
    if succeeded ret
    then (if has_job cmd.job_id
        then (let status = record s.status { last_job_id = copied 63 cmd.job_id } in
            record s { status = status })
        else s)
    else s

-- the critical section of `set_idle`; the count is a uint32_t
unfoldable pub set_idle : Ret → Service → Service
set_idle ret s =
    let count = s.status.refresh_count in
    let status = record s.status {
      state = if succeeded ret then idle else error;
      last_result = ret;
      refresh_count = if succeeded ret then (count + 1) % 2 ^ 32 else count;
    } in
    record s { status = status }

-- `k_sem_give` at its end, outside of the mutex
unfoldable pub give_idle : Service → Service
give_idle s = record s { idle_sem = 1 }
