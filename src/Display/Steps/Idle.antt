-- ===== src/Display/Steps/Idle.antt =====
-- eink_display.c: what `eink_display_wait_idle` promises where no command is queued between the end of
-- `set_idle`'s critical section and its `k_sem_give`.
use mender_rt1180_zephyr.Prelude.{ℕ, ◌≡◌, arith, Bool, false, not, val}
use mender_rt1180_zephyr.Display.{
  Profile, is_busy, queue_cmd, display_show_payload, wait_idle, take_cmd, record_job, set_idle,
  give_idle,
}
use mender_rt1180_zephyr.Display.Steps.{
  Worker, resting, giving, is_giving, System, Step, Reach, start, later,
}
use mender_rt1180_zephyr.Display.Steps.Invariant.{Inv, Reach-Inv, newest_result}

abbrev pub not_giving : Worker → Bool
not_giving worker = not (is_giving worker)

-- the semaphore is given only to an idle display
abbrev pub Quiet : System → Type 0
Quiet s =
    (s.worker ≡ giving → s.service.has_pending ≡ false)
    × ((s.service.idle_sem ≡ 1) → (s.worker ≡ resting) × (s.service.has_pending ≡ false))

module _ (profile : Profile) where
  Step-Quiet : {s t : System} → Step profile not_giving s t → Inv s → Quiet s → Quiet t
  unfolding queue_cmd display_show_payload is_busy wait_idle take_cmd record_job set_idle give_idle
  Step-Quiet (Step.queue cmd ok) inv q = ground arith
  Step-Quiet (Step.show_payload payload job_id ok) inv q = ground arith
  Step-Quiet (Step.wait no_wait) inv q = ground arith
  Step-Quiet (Step.take at pending) inv q = ground arith
  Step-Quiet (Step.paint cmd ret at) inv q = ground arith
  Step-Quiet (Step.keep_job cmd ret at) inv q = ground arith
  Step-Quiet (Step.settle cmd ret at) inv q = ground arith
  Step-Quiet (Step.give at) inv q = ground arith

  Reach-Quiet : {s : System} → Reach profile not_giving s → Quiet s
  Reach-Quiet start = ground arith
  Reach-Quiet (later r st) = Step-Quiet st (Reach-Inv profile not_giving r) (Reach-Quiet r)

  -- Where no command is queued between the end of `set_idle`'s critical section and its
  -- `k_sem_give`: when `eink_display_wait_idle` returns 0, the display is not busy, and its last
  -- result is that of the newest command that has ended.
  pub wait_idle_not_busy :
      (no_wait : Bool) (s : System) (n : ℕ)
      → Reach profile not_giving s
      → (wait_idle no_wait s.service).0 ≡ val n
      → (is_busy (wait_idle no_wait s.service).1 ≡ false)
        × ((wait_idle no_wait s.service).1.status.last_result ≡ newest_result s.ended)
  unfolding wait_idle is_busy
  wait_idle_not_busy no_wait s n r got =
      let (settled, free) = Reach-Quiet r in
      let inv = Reach-Inv profile not_giving r in ground arith
