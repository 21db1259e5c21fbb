-- ===== src/Display/Tests.antt =====
-- Runs of the display service and of its commands on a panel.
use mender_rt1180_zephyr.Prelude.{
  ℕ, ◌+◌, ◌≡◌, refl, true, false, List, [], ◌∷◌, replicate, length, Option, some, Ret, val, err, ok,
  eio, codes,
}
use mender_rt1180_zephyr.Fs.Medium.{Flash, flash, flash-Lawful, flash-Readable, set_at, blank}
use mender_rt1180_zephyr.Crc.Sum.{sum}
use mender_rt1180_zephyr.Frame.{payload_size}
use mender_rt1180_zephyr.Lz4.{gave, Lz4, is_frame}
use mender_rt1180_zephyr.Store.Reader.{Text, read_file}
use mender_rt1180_zephyr.Store.Images.{Config}
use mender_rt1180_zephyr.Store.Accept.{materialize_es6f}
use mender_rt1180_zephyr.El133.Device.{Panel}
use mender_rt1180_zephyr.El133.Loads.{Ends}
use mender_rt1180_zephyr.El133.Frames.{LetGo}
use mender_rt1180_zephyr.El133.Wires.{
  Wires, wires, wires_at_rest, wires_laws, wires-Supports, wires-Works,
}
use mender_rt1180_zephyr.Display.{
  Action, Profile, Cmd, show_path_cmd, clear_cmd, queue_cmd, is_busy, wait_idle, take_cmd,
  record_job, set_idle, give_idle,
}
use mender_rt1180_zephyr.Display.Screen.{Desc, el133_screen}
use mender_rt1180_zephyr.Display.Paint.{white_byte, paint_clear, paint_path}
use mender_rt1180_zephyr.Display.Shown.{OnPanel}
use mender_rt1180_zephyr.Display.Shown.Cleared.{paint_clear_shows}
use mender_rt1180_zephyr.El133.Works.{Gives}
use mender_rt1180_zephyr.Display.Shown.FromFile.{ShownFrom, paint_path-Ends}
use mender_rt1180_zephyr.Display.Steps.{System, started, Step, Reach, start, later}
use mender_rt1180_zephyr.Display.Handler.{Served, work_handler-Reach}
use mender_rt1180_zephyr.Display.Steps.Invariant.{Inv, Reach-Inv, newest_result}
use mender_rt1180_zephyr.Display.Steps.Idle.{not_giving, wait_idle_not_busy}

abbrev streaming_profile : Profile
streaming_profile = record {
  el133 = true;
  full_framebuffer = false;
  lcd_preview = false;
  posix = false;
}

abbrev frame_cmd : Cmd
frame_cmd = show_path_cmd (codes "/lfs1/a.es6f") (codes "job-1")

-- a command is queued, painted and ended
one_shown :
    (s : System) × Reach streaming_profile not_giving s
    × (s.service.status.refresh_count ≡ 1)
    × (s.service.status.last_job_id ≡ codes "job-1")
    × (s.service.idle_sem ≡ 1)
unfolding queue_cmd is_busy take_cmd record_job set_idle give_idle
one_shown = (
  _,
  later
      (later
        (later
          (later (later (later start (Step.queue frame_cmd refl)) (Step.take refl refl))
            (Step.paint frame_cmd (val 0) refl))
          (Step.keep_job frame_cmd (val 0) refl))
        (Step.settle frame_cmd (val 0) refl))
      (Step.give refl),
  refl,
  refl,
  refl,
)

-- a command that is queued before the semaphore is given for the one before it: the wait returns at
-- once, and the display is busy
early_wake :
    (s : System) × Reach streaming_profile (λ w. true) s
    × (is_busy s.service ≡ true)
    × ((wait_idle true s.service).0 ≡ val 0)
unfolding queue_cmd is_busy take_cmd record_job set_idle give_idle wait_idle
early_wake = (
  _,
  later
      (later
        (later
          (later
            (later (later (later start (Step.queue frame_cmd refl)) (Step.take refl refl))
              (Step.paint frame_cmd (err eio) refl))
            (Step.keep_job frame_cmd (err eio) refl))
          (Step.settle frame_cmd (err eio) refl))
        (Step.queue clear_cmd refl))
      (Step.give refl),
  refl,
  refl,
)

Reach-Inv_example : Inv one_shown.0
Reach-Inv_example = Reach-Inv streaming_profile not_giving one_shown.1

woken : (wait_idle false one_shown.0.service).0 ≡ val 0
unfolding one_shown queue_cmd is_busy take_cmd record_job set_idle give_idle wait_idle
woken = refl

wait_idle_not_busy_example :
    (is_busy (wait_idle false one_shown.0.service).1 ≡ false)
    × ((wait_idle false one_shown.0.service).1.status.last_result ≡ newest_result one_shown.0.ended)
wait_idle_not_busy_example =
    wait_idle_not_busy streaming_profile false one_shown.0 0 one_shown.1 woken

abbrev panel : Panel Wires
panel = record {
  blanking_on = false;
  dirty = false;
  glass_present = true;
  bus_state = wires_at_rest;
}

abbrev no_pixels : Desc → (ℕ → ℕ) → Panel Wires → Option (Ret × Panel Wires)
no_pixels desc canvas p = some (val 0, p)

paint_clear_shows_example :
    Gives
      (λ t.
        OnPanel Wires wires wires_laws wires-Supports (replicate payload_size white_byte) panel t.1)
      (paint_clear Flash flash
        (Panel Wires)
        (el133_screen Wires wires 1200 1600 no_pixels)
        streaming_profile
        (λ i. 0)
        blank
        panel)
paint_clear_shows_example =
    paint_clear_shows Wires wires wires_laws wires-Supports wires-Works 1200 1600 no_pixels
      streaming_profile refl (λ i. 0) Flash flash flash-Readable blank panel (refl, refl)

-- a file that is not packed, and not a frame either
abbrev not_a_frame : List ℕ
not_a_frame = 1 ∷ 2 ∷ 3 ∷ 4 ∷ 5 ∷ 6 ∷ 7 ∷ 8 ∷ 9 ∷ []

abbrev a_path : Text
a_path = codes "/lfs1/a.es6f"

abbrev with_file : Flash
with_file = record blank { now = set_at a_path (some not_a_frame) blank.now }

abbrev config : Config
config = record { lz4 = true; expand_on_display = true; quick_cache_check = false }

abbrev idle_lz4 : Lz4 ℕ
idle_lz4 = record { create_context = some 0; decompress = λ d room src. gave 0 (length src) [] d }

abbrev looked_at : Flash
looked_at = (read_file Text Flash flash a_path 8 with_file).1

made_lem :
    materialize_es6f Flash flash ℕ idle_lz4 config true [] a_path 320 with_file
    ≡ some (ok a_path, looked_at)
unfolding materialize_es6f read_file is_frame
made_lem = refl

held_lem : flash.content looked_at a_path ≡ some not_a_frame
unfolding read_file
held_lem = refl

paint_path-Ends_example :
    Ends
      (λ t.
        ShownFrom Wires wires wires_laws wires-Supports 1200 1600 no_pixels streaming_profile refl
          (λ i. 0)
          Flash
          flash
          flash-Readable
          ℕ
          idle_lz4
          sum
          config
          true
          []
          a_path
          not_a_frame
          panel
          t.1)
      (λ t. LetGo Wires wires wires_laws t.1)
      (paint_path Flash flash
        (Panel Wires)
        (el133_screen Wires wires 1200 1600 no_pixels)
        streaming_profile
        (λ i. 0)
        ℕ
        idle_lz4
        sum
        config
        true
        []
        a_path
        with_file
        panel)
paint_path-Ends_example =
    paint_path-Ends Wires wires wires_laws wires-Supports 1200 1600 no_pixels streaming_profile refl
      (λ i. 0) Flash flash flash-Readable ℕ idle_lz4 sum config true [] a_path a_path not_a_frame
      with_file looked_at panel flash-Lawful (refl, refl) made_lem held_lem

-- a command is queued, and the handler runs with a refresh that fails
abbrev queued : System
queued = record started { service = (queue_cmd frame_cmd started.service).1 }

queued-Reach : Reach streaming_profile not_giving queued
queued-Reach = later start (Step.queue frame_cmd refl)

queued_pending : queued.service.has_pending ≡ true
unfolding queue_cmd is_busy
queued_pending = refl

abbrev failing : Action → ℕ → Option (Ret × ℕ)
failing action n = some (err eio, n + 1)

work_handler-Reach_example : Served ℕ failing streaming_profile not_giving queued (err eio) 0 1
work_handler-Reach_example =
    work_handler-Reach ℕ failing streaming_profile not_giving queued (err eio) 0 1 queued-Reach refl
      queued_pending refl
