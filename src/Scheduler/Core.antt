-- ===== src/Scheduler/Core.antt =====
-- eink_scheduler_core.c and eink_scheduler_core.h: the schedule, which job is shown and when the
-- device wakes next. `jobs` holds the first `count` entries of the array.
pub mod Decide
pub mod Wakeup
use mender_rt1180_zephyr.Prelude.{
  ℕ, zero, suc, ◌+◌, Bool, true, false, not, ◌&&◌, ◌||◌, List, [], ◌∷◌, Option, none, some, ◌==◌,
  if◌then◌else◌, get_elem?,
}
use mender_rt1180_zephyr.Prelude.Int.{ℤ, pos, negsuc, ◌+ℤ◌, ◌-ℤ◌, is_neg, ltb_ℤ, leb_ℤ}
use mender_rt1180_zephyr.Scheduler.Cron.{cron_next_after}

pub record Job : Type 0 where
  pub job_id : List ℕ
  pub image_id : List ℕ
  pub cron : List ℕ
  pub next_run_unix : ℤ

abbrev pub Schedule : Type 0
Schedule = List Job

pub data Decision : Type 0 where
  nop : Decision
  show : ℕ → Decision

-- `strcmp(a, b) == 0`
unfoldable pub str_eq : List ℕ → List ℕ → Bool
str_eq [] [] = true
str_eq [] (d ∷ b) = false
str_eq (c ∷ a) [] = false
str_eq (c ∷ a) (d ∷ b) = c == d && str_eq a b

-- the best overdue job so far: its run and its index
abbrev pub Best : Type 0
Best = Option (ℤ × ℕ)

abbrev pub at_least : ℤ → Best → Bool
at_least t none = true
at_least t (some (best, i)) = leb_ℤ best t

-- the loop of `eink_scheduler_decide` from index `i` on
unfoldable pub pick : ℤ → List Job → ℕ → Best → Best
pick now [] i best = best
pick now (j ∷ jobs) i best = pick now jobs (i + 1) (
    if leb_ℤ j.next_run_unix now && at_least j.next_run_unix best
    then some (j.next_run_unix, i)
    else best)

-- `last != NULL && last[0] != '\0' && strcmp(job_id, last) == 0`
unfoldable pub is_last : List ℕ → Option (List ℕ) → Bool
is_last job_id none = false
is_last job_id (some []) = false
is_last job_id (some (c ∷ last)) = str_eq job_id (c ∷ last)

abbrev pub shown_job : Option Job → Option (List ℕ) → ℕ → Decision
shown_job none last i = nop
shown_job (some j) last i = if is_last j.job_id last then nop else show i

abbrev pub decision : Schedule → Option (List ℕ) → Best → Decision
decision sched last none = nop
decision sched last (some (best, i)) = shown_job (get_elem? sched i) last i

unfoldable pub decide : Option Schedule → ℤ → Option (List ℕ) → Decision
decide none now last = nop
decide (some sched) now last = decision sched last (pick now sched 0 none)

-- the loop of `eink_scheduler_next_wakeup`; a negative `best` stands for none
unfoldable pub earliest : ℤ → List Job → ℤ → ℤ
earliest now [] best = best
earliest now (j ∷ jobs) best =
    let t = cron_next_after (some j.cron) now in
    earliest now jobs (if is_neg best || ltb_ℤ t best then t else best)

abbrev pub earliest_of : Option Schedule → ℤ → ℤ
earliest_of none now = negsuc 0
earliest_of (some jobs) now = earliest now jobs (negsuc 0)

unfoldable pub next_wakeup : Option Schedule → ℤ → ℕ → ℤ
next_wakeup sched now poll_interval =
    let poll = if poll_interval == 0 then 300 else poll_interval in
    let best = earliest_of sched now in
    let deadline = now +ℤ pos poll in
    let soonest = if is_neg best || ltb_ℤ deadline best then deadline else best in
    if ltb_ℤ soonest (now +ℤ pos 60) then now +ℤ pos 60 else soonest
