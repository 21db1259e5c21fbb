-- ===== src/Display/Shown/Cleared.antt =====
-- eink_display.c over display_el133uf1.c: a clear, on a bus that takes every write, with a panel that
-- is ready.
use mender_rt1180_zephyr.Prelude.{
  ℕ, ◌≤◌, ◌≡◌, refl, ap, arith, min, true, false, Bool-cases, inl, inr, replicate, length,
  length-replicate, ◌==◌, Option, none, some, Ret, val, err,
}
use mender_rt1180_zephyr.Fs.{Fs, Readable}
use mender_rt1180_zephyr.Store.Reader.{Text}
use mender_rt1180_zephyr.Frame.{payload_size}
use mender_rt1180_zephyr.El133.{Bus}
use mender_rt1180_zephyr.El133.Device.{Panel, blanking_off, stream_write}
use mender_rt1180_zephyr.El133.Heard.{Wired, AtRest}
use mender_rt1180_zephyr.El133.Loads.{then-Ends, map-Ends}
use mender_rt1180_zephyr.El133.Frames.{seen, LetGo}
use mender_rt1180_zephyr.El133.Supported.{Supports}
use mender_rt1180_zephyr.El133.Works.{
  Works, Generous, Gives, Succeeds, both-Gives, blanking_off-Succeeds,
}
use mender_rt1180_zephyr.El133.Goes.{stream_write-Succeeds}
use mender_rt1180_zephyr.Display.{Profile}
use mender_rt1180_zephyr.Display.Screen.{Desc, el133_screen}
use mender_rt1180_zephyr.Display.Paint.{
  unblanked, white_byte, white_stream, Stream, stream_fill, closed, paint_clear,
  write_stream_to_display,
}
use mender_rt1180_zephyr.Display.Streams.{to_show, stream_source}
use mender_rt1180_zephyr.Display.Shown.{OnPanel, paint_clear-Ends}

module _ (S : Type 0) (fs : Fs Text S) (rd : Readable Text S fs) where
  abbrev Solid : Stream S fs → Type 0
  Solid st = st.0.solid ≡ true

  Solid-answers :
      (n : ℕ) (st : Stream S fs)
      → Solid st
      → 1 ≤ n
      → n ≤ length (to_show S fs rd st)
      → (stream_fill S fs n st).0.0 ≡ val n
  unfolding stream_fill
  Solid-answers n (f, s) h some_room enough =
      let size : length (to_show S fs rd (f, s)) ≡ f.payload_left =
        simp h (length-replicate f.payload_left f.solid_byte) in
      let all : min n f.payload_left ≡ n = omega (arith, size) in
      let filled : (min n f.payload_left == 0) ≡ false = ground arith in
      simp (filled, h) (ap val all)

  Solid-stays : (n : ℕ) (st : Stream S fs) → Solid st → Solid (stream_fill S fs n st).1
  unfolding stream_fill
  Solid-stays n (f, s) h = elim (Bool-cases (min n f.payload_left == 0)) [
    | inl empty ↦ simp (empty, h) refl
    | inr filled ↦ simp (filled, h) refl
  ]

  Solid-Generous : Generous (Stream S fs) (stream_fill S fs) (stream_source S fs rd) Solid
  Solid-Generous = record { answers = Solid-answers; stays = Solid-stays }

unblanked-Succeeds :
    {U P : Type 0} (u : U) (o : Option (Ret × P)) → Succeeds o → Succeeds (unblanked u o)
unblanked-Succeeds u none h = h
unblanked-Succeeds u (some (err e, p)) h = absurd h
unblanked-Succeeds u (some (val n, p)) h = tt

module _ (B : Type 0) (bus : Bus B) (wired : Wired B bus) (supports : Supports B bus)
    (works : Works B bus) (width height : ℕ)
    (write_pixels : Desc → (ℕ → ℕ) → Panel B → Option (Ret × Panel B)) (profile : Profile)
    (driven : profile.el133 ≡ true) (lcd_before : ℕ → ℕ) (S : Type 0) (fs : Fs Text S)
    (rd : Readable Text S fs) where
  white-Succeeds :
      (s : S) (p : Panel B)
      → AtRest (seen B bus wired p)
      → Succeeds (
          write_stream_to_display S fs
            (Panel B)
            (el133_screen B bus width height write_pixels)
            profile
            lcd_before
            (white_stream, s)
            p)
  unfolding write_stream_to_display
  white-Succeeds s p at = simp driven (
      then-Ends (λ t. Unit {0}) (λ t. Unit {0}) (λ t. ⊥)
        (stream_write B bus (Stream S fs) (stream_fill S fs) (white_stream, s)
          (record p { blanking_on = true }))
        (λ (st, q). unblanked st (blanking_off B bus q))
        (stream_write-Succeeds B (Stream S fs) bus works (stream_fill S fs) (stream_source S fs rd)
          (Solid S fs rd) (Solid-Generous S fs rd) wired (white_stream, s)
          (record p { blanking_on = true }) refl
          (omega (arith, length-replicate payload_size white_byte)) at)
        (λ (st, q) h.
          unblanked-Succeeds st (blanking_off B bus q) (blanking_off-Succeeds B bus works q)))

  closed-Succeeds :
      (o : Option (Ret × (Stream S fs × Panel B)))
      → Succeeds o
      → Succeeds (
          closed S fs (Panel B) (el133_screen B bus width height write_pixels) profile lcd_before o)
  closed-Succeeds none h = h
  closed-Succeeds (some (err e, t)) h = absurd h
  closed-Succeeds (some (val n, t)) h = tt

  -- On a readable file system, with the EL133UF1 driver on a bus that behaves as documented, supports
  -- its configuration and takes every write, with a panel that is ready and both controllers released:
  -- a clear succeeds, and the controllers have heard a half of white each and the commands of a
  -- refresh after it, and nothing else.
  pub paint_clear_shows :
      (s : S) (p : Panel B)
      → AtRest (seen B bus wired p)
      → Gives
          (λ t. OnPanel B bus wired supports (replicate payload_size white_byte) p t.1)
          (paint_clear S fs
            (Panel B)
            (el133_screen B bus width height write_pixels)
            profile
            lcd_before
            s
            p)
  unfolding paint_clear
  paint_clear_shows s p at =
      let o =
        paint_clear S fs (Panel B) (el133_screen B bus width height write_pixels) profile lcd_before
          s p in
      map-Ends _ (λ t. OnPanel B bus wired supports (replicate payload_size white_byte) p t.1)
        (λ t. ⊥) o (λ t h. h.1)
        (both-Gives (λ t. Unit {0})
          (λ t. OnPanel B bus wired supports (replicate payload_size white_byte) p t.1)
          (λ t. LetGo B bus wired t.1) o (closed-Succeeds _ (white-Succeeds s p at))
          (paint_clear-Ends B bus wired supports width height write_pixels profile driven lcd_before
            S fs rd s p at))
