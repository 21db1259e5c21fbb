-- ===== src/Scheduler/Run.antt =====
-- eink_scheduler.c: the scheduler's state and what it shows. The store, the display and the clock are
-- the record Device, on a state `W` of the rest. A function is one step under the mutex, but for a
-- tick and a repaint: they choose a job under the mutex, show a copy of it without, and take the
-- mutex again to record it.
pub mod Again
pub mod Once
use mender_rt1180_zephyr.Prelude.{
  ℕ, zero, suc, ◌+◌, ◌-◌, Bool, true, false, not, ◌&&◌, ◌||◌, List, [], ◌∷◌, take, map, Option,
  none, some, if◌then◌else◌, get_elem?, Ret, val, err, Errno, einval, enoent, ◌==◌, length,
}
use mender_rt1180_zephyr.Prelude.Int.{ℤ, pos, ◌-ℤ◌, ltb_ℤ, leb_ℤ}
use mender_rt1180_zephyr.Scheduler.Cron.{cron_next_run}
use mender_rt1180_zephyr.Scheduler.Core.{
  Job, Decision, nop, show, str_eq, Best, at_least, decide, next_wakeup,
}

-- `sched` and `last_job`
pub record Sched : Type 0 where
  pub jobs : List Job
  pub last_job : List ℕ

pub record Device (W : Type 0) : Type 0 where
  -- `now_unix()`
  pub time : W → ℤ
  pub load_state : W → List ℕ
  -- `none` where it fails
  pub load_schedule : W → Option (List Job)
  pub save_state : List ℕ → W → Ret × W
  pub save_schedule : List Job → W → Ret × W
  -- the return value and the path
  pub resolve_show_path : List ℕ → W → Ret × List ℕ
  pub has_valid_image : List ℕ → W → Bool
  pub show_path : List ℕ → List ℕ → W → Ret × W
  -- CONFIG_APP_EINK_DISPLAY_FIRE_AND_FORGET, `eink_display_wait_idle` and `st.last_result`
  pub fire_and_forget : Bool
  pub wait_idle : W → Ret × W
  pub last_result : W → Ret
  -- what the other threads have done to the state when the mutex is taken again after a show
  pub meanwhile : W → Sched → Sched

abbrev pub wall_clock_ok : ℤ → Bool
wall_clock_ok now = leb_ℤ (pos 1700000000) now

abbrev pub scheduled : ℤ → Job → Job
scheduled now j = record j { next_run_unix = cron_next_run (some j.cron) now }

-- `strncpy` of an identifier into an array of EINK_ID_MAX bytes
abbrev pub copied : List ℕ → List ℕ
copied id = take 63 id

module _ (W : Type 0) (d : Device W) where
  abbrev loaded : ℤ → Option (List Job) → List Job
  loaded now none = []
  loaded now (some jobs) = map (scheduled now) jobs

  unfoldable pub init : W → Sched
  init w = record { jobs = loaded (d.time w) (d.load_schedule w); last_job = d.load_state w }

  unfoldable pub set_schedule : Option (List Job) → ℤ → Sched × W → Ret × (Sched × W)
  set_schedule none now (s, w) = (err einval, (s, w))
  set_schedule (some input) now (s, w) =
      let at = if leb_ℤ now (pos 0) then d.time w else now in
      let jobs = map (scheduled at) input in
      (val 0, (record s { jobs = jobs }, (d.save_schedule jobs w).1))

  -- The mutex is taken again, after what the other threads have done.
  abbrev pub relocked : Sched × W → Sched × W
  relocked (s, w) = (d.meanwhile w s, w)

  -- the last critical section of `show_job_locked_copy`
  abbrev pub advanced : Bool → Job → Sched × W → Ret × (Sched × W)
  advanced false j m = (val 1, m)
  advanced true j (s, w) =
      (val 1, (record s { last_job = copied j.job_id }, (d.save_state (copied j.job_id) w).1))

  -- What is done without the mutex: `some` is an early return, `none` goes on.
  abbrev pub Displayed : Type 0
  Displayed = Option Ret × W

  abbrev pub unless_zero : Ret → Option Ret
  unless_zero (val zero) = none
  unless_zero (val (suc n)) = some (val (suc n))
  unless_zero (err e) = some (err e)

  abbrev pub waited : Ret × W → Displayed
  waited (val zero, w) = (unless_zero (d.last_result w), w)
  waited (val (suc n), w) = (some (val (suc n)), w)
  waited (err e, w) = (some (err e), w)

  abbrev pub queued : Ret × W → Displayed
  queued (val zero, w) = if d.fire_and_forget then (none, w) else waited (d.wait_idle w)
  queued (val (suc n), w) = (some (val (suc n)), w)
  queued (err e, w) = (some (err e), w)

  abbrev pub resolved : Job → W → Ret × List ℕ → Displayed
  resolved j w (val zero, path) =
      if d.has_valid_image j.image_id w
      then queued (d.show_path path j.job_id w)
      else (some (err enoent), w)
  resolved j w (val (suc n), path) = (some (err enoent), w)
  resolved j w (err e, path) = (some (err enoent), w)

  -- `show_job_locked_copy` up to its last critical section
  unfoldable pub shown_copy : Job → W → Displayed
  shown_copy j w = resolved j w (d.resolve_show_path j.image_id w)

  abbrev pub finished : Bool → Job → Sched → Displayed → Ret × (Sched × W)
  finished advance j s (some ret, w) = (ret, relocked (s, w))
  finished advance j s (none, w) = advanced advance j (relocked (s, w))

  unfoldable pub show_job : Job → Bool → Sched × W → Ret × (Sched × W)
  show_job j advance (s, w) = finished advance j s (shown_copy j w)

  -- An index that `decide` gives is in range.
  abbrev pub shown : Option Job → Sched × W → Ret × (Sched × W)
  shown none m = (val 0, m)
  shown (some j) m = show_job j true m

  abbrev pub decided : Decision → Sched × W → Ret × (Sched × W)
  decided nop m = (val 0, m)
  decided (show i) m = shown (get_elem? m.0.jobs i) m

  unfoldable pub tick : Sched × W → Ret × (Sched × W)
  tick (s, w) = decided (decide (some s.jobs) (d.time w) (some s.last_job)) (s, w)

  abbrev pub occurrence : ℤ → Job → ℤ
  occurrence now j =
      let occ = cron_next_run (some j.cron) now in if ltb_ℤ now occ then occ -ℤ pos 86400 else occ

  -- the loop of `eink_scheduler_repaint` and of `eink_scheduler_current_image`
  unfoldable pub latest : ℤ → List Job → ℕ → Best → Best
  latest now [] i best = best
  latest now (j ∷ jobs) i best =
      let occ = occurrence now j in
      latest now jobs (i + 1) (if leb_ℤ occ now && at_least occ best then some (occ, i) else best)

  unfoldable pub find_job : List ℕ → List Job → Option Job
  find_job id [] = none
  find_job id (j ∷ jobs) =
      let rest = find_job id jobs in if str_eq j.job_id id then some j else rest

  -- whether `last_job` is another one
  abbrev differs : List ℕ → Job → Bool
  differs [] j = true
  differs (c ∷ last) j = not (str_eq (c ∷ last) j.job_id)

  abbrev with_advance : List ℕ → Option Job → Option (Job × Bool)
  with_advance last none = none
  with_advance last (some j) = some (j, differs last j)

  abbrev kept : Option Job → Option (Job × Bool)
  kept none = none
  kept (some j) = some (j, false)

  abbrev by_last : Sched → Option (Job × Bool)
  by_last s = if length s.last_job == 0 then none else kept (find_job s.last_job s.jobs)

  abbrev chosen : Sched → Best → Option (Job × Bool)
  chosen s none = by_last s
  chosen s (some (occ, i)) = with_advance s.last_job (get_elem? s.jobs i)

  -- the job to repaint, and whether the state advances to it
  unfoldable pub choose : Sched → ℤ → Option (Job × Bool)
  choose s now = if wall_clock_ok now then chosen s (latest now s.jobs 0 none) else by_last s

  abbrev repainted : Option (Job × Bool) → Sched × W → Ret × (Sched × W)
  repainted none m = (val 0, m)
  repainted (some (j, advance)) m = show_job j advance m

  unfoldable pub repaint : Sched × W → Ret × (Sched × W)
  repaint (s, w) = repainted (choose s (d.time w)) (s, w)

  abbrev image_of : ℕ → Option (Job × Bool) → Ret × List ℕ
  image_of cap none = (val 0, [])
  image_of cap (some (j, advance)) = (val 1, take (cap - 1) j.image_id)

  unfoldable pub current_image : ℕ → Sched × W → Ret × List ℕ
  current_image zero m = (err einval, [])
  current_image (suc n) (s, w) = image_of (suc n) (choose s (d.time w))

  abbrev due : ℕ → Option Job → Ret × List ℕ
  due cap none = (val 0, [])
  due cap (some j) = (val 1, take (cap - 1) j.image_id)

  abbrev due_of : ℕ → List Job → Decision → Ret × List ℕ
  due_of cap jobs nop = (val 0, [])
  due_of cap jobs (show i) = due cap (get_elem? jobs i)

  -- a buffer of `cap` bytes, 0 for NULL
  unfoldable pub due_image : ℕ → Sched × W → Ret × List ℕ
  due_image zero m = (err einval, [])
  due_image (suc n) (s, w) =
      due_of (suc n) s.jobs (decide (some s.jobs) (d.time w) (some s.last_job))

  unfoldable pub get_next_wakeup : ℤ → ℕ → Sched × W → ℤ
  get_next_wakeup now poll (s, w) =
      next_wakeup (some s.jobs) (if leb_ℤ now (pos 0) then d.time w else now) poll
