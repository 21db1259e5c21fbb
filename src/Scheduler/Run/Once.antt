-- ===== src/Scheduler/Run/Once.antt =====
-- eink_scheduler.c: a job is shown once.
use mender_rt1180_zephyr.Prelude.{
  ℕ, ◌≤◌, ◌<◌, ◌≡◌, List, length, Option, none, some, get_elem?, Ret, val, err, Errno, ◌⊎◌,
}
use mender_rt1180_zephyr.Scheduler.Core.{Job, nop, show, decide}
use mender_rt1180_zephyr.Scheduler.Run.{Sched, Device, relocked, shown_copy, tick}

-- Identifiers are not empty, and fit their arrays.
abbrev pub Ids : List Job → Type 0
Ids jobs =
    (i : ℕ) (j : Job) → get_elem? jobs i ≡ some j → (0 < length j.job_id) × (length j.job_id ≤ 63)

-- The display's calls return 0 or an errno, as those of eink_display.c do; and no schedule is set
-- during a show.
pub record Undisturbed (W : Type 0) (d : Device W) : Type 0 where
  pub show_path_zero :
      (path id : List ℕ) (w : W) (n : ℕ) → (d.show_path path id w).0 ≡ val n → n ≡ 0
  pub wait_idle_zero : (w : W) (n : ℕ) → (d.wait_idle w).0 ≡ val n → n ≡ 0
  pub last_result_zero : (w : W) (n : ℕ) → d.last_result w ≡ val n → n ≡ 0
  pub jobs_kept : (w : W) (s : Sched) → (d.meanwhile w s).jobs ≡ s.jobs

module _ (W : Type 0) (d : Device W) where
  -- a show that is done, or an errno
  abbrev Clear : Option Ret → Type 0
  Clear o = (o ≡ none) ⊎ ((e : Errno) × (o ≡ some (err e)))

  -- Job `i` was due, and it is shown and recorded, or an error is returned and it is not; `w2` is
  -- the device at the next tick.
  abbrev pub Tried : Sched → W → W → ℕ → Job → Ret × (Sched × W) → Type 0
  Tried s w w2 i j r =
      let shown = shown_copy W d j w in
      (decide (some s.jobs) (d.time w) (some s.last_job) ≡ show i)
      × (get_elem? s.jobs i ≡ some j)
      × (((e : Errno) × (shown.0 ≡ some (err e)) × (r ≡ (err e, relocked W d (s, shown.1))))
          ⊎ ((shown.0 ≡ none)
              × (r.0 ≡ val 1)
              × (r.1.0.jobs ≡ s.jobs)
              × (r.1.0.last_job ≡ j.job_id)
              × (tick W d (r.1.0, w2) ≡ (val 0, (r.1.0, w2)))))

  abbrev pub Settled : Sched → W → W → Ret × (Sched × W) → Type 0
  Settled s w w2 r =
      ((decide (some s.jobs) (d.time w) (some s.last_job) ≡ nop) × (r ≡ (val 0, (s, w))))
      ⊎ ((i : ℕ) × (j : Job) × Tried s w w2 i j r)
