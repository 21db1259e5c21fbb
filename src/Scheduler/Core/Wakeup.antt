-- ===== src/Scheduler/Core/Wakeup.antt =====
-- eink_scheduler_core.c: when `eink_scheduler_next_wakeup` wakes the device.
use mender_rt1180_zephyr.Prelude.{
  ℕ, zero, suc, ◌≡◌, arith, ◌||◌, ◌⊎◌, List, [], ◌∷◌, Option, some, get_elem?, Bool-cases, inl, inr,
  subst, if◌then◌else◌, ◌==◌,
}
use mender_rt1180_zephyr.Prelude.Int.{ℤ, pos, negsuc, ◌+ℤ◌, ◌≤ℤ◌, is_neg, ltb_ℤ}
use mender_rt1180_zephyr.Scheduler.Civil.Day.{NearNow}
use mender_rt1180_zephyr.Scheduler.Cron.{cron_next_after}
use mender_rt1180_zephyr.Scheduler.Cron.Next.{cron_next_after_range}
use mender_rt1180_zephyr.Scheduler.Core.{Job, Schedule, earliest, next_wakeup}

-- Whatever the schedule, the device sleeps for at least a minute, and no longer than the poll
-- interval (300 s for an interval of 0) or a minute, whichever is longer.
pub next_wakeup_bounds :
    (sched : Option Schedule) (now : ℤ) (poll : ℕ)
    → let poll' = if poll == 0 then 300 else poll in
      (now +ℤ pos 60 ≤ℤ next_wakeup sched now poll)
      × ((next_wakeup sched now poll ≤ℤ now +ℤ pos poll')
          ⊎ (next_wakeup sched now poll ≡ now +ℤ pos 60))
unfolding next_wakeup
next_wakeup_bounds sched now poll = ground arith

-- `t` is a time from the epoch on.
abbrev pub AfterEpoch : ℤ → Type 0
AfterEpoch t = pos 0 ≤ℤ t

-- The earliest of a list is at most what the loop starts with, and from the epoch on.
earliest_best :
    (now : ℤ) (jobs : List Job) (best : ℤ)
    → AfterEpoch now
    → NearNow now
    → AfterEpoch best
    → (earliest now jobs best ≤ℤ best) × AfterEpoch (earliest now jobs best)
unfolding earliest
earliest_best now [] best h near hb = (omega arith, hb)
earliest_best now (j ∷ jobs) best h near hb =
    let t = cron_next_after (some j.cron) now in
    let range = cron_next_after_range (some j.cron) now near in
    elim (Bool-cases (ltb_ℤ t best)) [
      | inl newer ↦
          let rest = earliest_best now jobs t h near (omega (arith, range.0)) in
          ground (arith, rest.0, rest.1)
      | inr older ↦
          let rest = earliest_best now jobs best h near hb in ground (arith, rest.0, rest.1)
    ]

earliest_head :
    (now : ℤ) (k : Job) (jobs : List Job) (best : ℤ)
    → AfterEpoch now
    → NearNow now
    → (earliest now (k ∷ jobs) best ≤ℤ cron_next_after (some k.cron) now)
      × AfterEpoch (earliest now (k ∷ jobs) best)
unfolding earliest
earliest_head now k jobs best h near =
    let t = cron_next_after (some k.cron) now in
    let range = cron_next_after_range (some k.cron) now near in
    let fresh = earliest_best now jobs t h near (omega (arith, range.0)) in
    elim (Bool-cases (is_neg best || ltb_ℤ t best)) [
      | inl newer ↦ rw newer fresh
      | inr older ↦
          let rest = earliest_best now jobs best h near (ground arith) in
          rw older (ground (arith, rest.0, rest.1))
    ]

earliest_job :
    (now : ℤ) (jobs : List Job) (best : ℤ) (n : ℕ) (j : Job)
    → AfterEpoch now
    → NearNow now
    → get_elem? jobs n ≡ some j
    → (earliest now jobs best ≤ℤ cron_next_after (some j.cron) now)
      × AfterEpoch (earliest now jobs best)
unfolding earliest
earliest_job now [] best n j h near e = absurd (cc)
earliest_job now (k ∷ jobs) best zero j h near e =
    let same : k ≡ j = cc in
    subst
      (λ (i : Job).
        (earliest now (k ∷ jobs) best ≤ℤ cron_next_after (some i.cron) now)
        × AfterEpoch (earliest now (k ∷ jobs) best))
      same (earliest_head now k jobs best h near)
earliest_job now (k ∷ jobs) best (suc n) j h near e =
    let t = cron_next_after (some k.cron) now in
    earliest_job now jobs (if is_neg best || ltb_ℤ t best then t else best) n j h near e

-- The device wakes no later than the next run of any job of its schedule, unless that is less than
-- a minute away: then it wakes in a minute. `now` is a time from
-- the epoch on, of less than 2^54 seconds.
pub next_wakeup-cron_next_after :
    (sched : List Job) (now : ℤ) (poll n : ℕ) (j : Job)
    → AfterEpoch now
    → NearNow now
    → get_elem? sched n ≡ some j
    → (next_wakeup (some sched) now poll ≤ℤ cron_next_after (some j.cron) now)
      ⊎ (next_wakeup (some sched) now poll ≡ now +ℤ pos 60)
unfolding next_wakeup
next_wakeup-cron_next_after sched now poll n j h near e =
    let best = earliest_job now sched (negsuc 0) n j h near e in ground (arith, best.0, best.1)
