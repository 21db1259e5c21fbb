-- ===== src/Display/Shown.antt =====
-- eink_display.c over display_el133uf1.c: what the panel shows after a command.
pub mod FromFile
pub mod Cleared
use mender_rt1180_zephyr.Prelude.{
  ℕ, ◌≤◌, ◌≡◌, refl, ◌∙◌, subst, Bool, true, false, List, ◌++◌, take, drop, length, replicate,
  if◌then◌else◌, Option, none, some, Ret, val, err, enotsup, Result, ok, fail,
}
use mender_rt1180_zephyr.Fs.{Fs, Lawful, Readable}
use mender_rt1180_zephyr.Store.Reader.{Text}
use mender_rt1180_zephyr.Crc.{Crc}
use mender_rt1180_zephyr.Lz4.{Lz4}
use mender_rt1180_zephyr.Frame.{Header, header_size, payload_size}
use mender_rt1180_zephyr.Store.Images.{Config}
use mender_rt1180_zephyr.Store.Validate.{validate_path}
use mender_rt1180_zephyr.Store.Validate.Whole.{Accepted, validate_path-Accepted}
use mender_rt1180_zephyr.Store.Validate.Keeps.{validate_path_keeps}
use mender_rt1180_zephyr.Store.Accept.{materialize_es6f}
use mender_rt1180_zephyr.El133.{Bus, ◌then◌}
use mender_rt1180_zephyr.El133.Stream.{payload_bytes}
use mender_rt1180_zephyr.El133.Device.{Panel, blanking_off, stream_write}
use mender_rt1180_zephyr.El133.Heard.{Wired, AtRest, Told, Told-append}
use mender_rt1180_zephyr.El133.Orders.{refresh_orders}
use mender_rt1180_zephyr.El133.Loads.{Ends, then-Ends, map-Ends}
use mender_rt1180_zephyr.El133.Streams.{Source}
use mender_rt1180_zephyr.El133.Frames.{
  frame_orders, seen, LetGo, Shown, blanking_off-Ends, FramedFrom, stream_write-Ends,
}
use mender_rt1180_zephyr.El133.Supported.{Supports, Supported, blanking_off-Supported}
use mender_rt1180_zephyr.Display.{Profile}
use mender_rt1180_zephyr.Display.Screen.{Desc, Fill, el133_screen}
use mender_rt1180_zephyr.Display.Paint.{
  unblanked, mem_fill, white_byte, white_stream, unopened, closed, streamed, validated, sought,
  opened, stream_open_path, paint_clear, paint_path, write_payload_to_display, Stream, stream_fill,
  write_stream_to_display,
}
use mender_rt1180_zephyr.Display.Streams.{payload_source, to_show, stream_source}

module _ (B : Type 0) (bus : Bus B) (wired : Wired B bus) (supports : Supports B bus) where
  -- The halves of `payload` are loaded and then shown, and nothing else is said to the panel.
  abbrev pub OnPanel : List ℕ → Panel B → Panel B → Type 0
  OnPanel payload p q =
      Told (frame_orders payload ++ refresh_orders) (seen B bus wired p) (seen B bus wired q)
      × (q.dirty ≡ false)
      × (q.blanking_on ≡ false)
      × (payload_bytes ≤ length payload)

  unblanked-Ends :
      {U : Type 0} (G : Panel B → Type 0) (u : U) (o : Option (Ret × Panel B))
      → Ends G (LetGo B bus wired) o
      → Supported o
      → Ends (λ s. G s.1) (λ s. LetGo B bus wired s.1) (unblanked u o)
  unblanked-Ends G u none h k = h
  unblanked-Ends G u (some (val n, p)) h k = h
  unblanked-Ends G u (some (err enotsup, p)) h k = absurd (k refl)
  unblanked-Ends G u (some (err e, p)) h k = h

  shown-Ends :
      (U : Type 0) (fill : Fill U) (src : Source U fill) (rest : List ℕ) (p : Panel B)
      (s : U × Panel B)
      → FramedFrom B bus wired U fill src rest (record p { blanking_on = true }) s
      → Ends
          (λ t. OnPanel rest p t.1)
          (λ t. LetGo B bus wired t.1)
          (unblanked s.0 (blanking_off B bus s.1))
  shown-Ends U fill src rest p (u, q) ((told, dirty, blanked'), taken, enough) =
      unblanked-Ends (OnPanel rest p) u (blanking_off B bus q)
        (map-Ends (Shown B bus wired (seen B bus wired q)) (OnPanel rest p) (LetGo B bus wired)
          (blanking_off B bus q)
          (λ r (shown, clean, lit). (Told-append _ _ _ _ _ told shown, clean, lit, enough))
          (blanking_off-Ends B bus wired q dirty told.rest))
        (blanking_off-Supported B bus supports q)

  -- The panel is blanked, a frame is streamed, and the blanking ends.
  streamed-Ends :
      (U : Type 0) (fill : Fill U) (src : Source U fill) (u : U) (p : Panel B)
      → AtRest (seen B bus wired p)
      → Ends
          (λ t. OnPanel (src.unread u) p t.1)
          (λ t. LetGo B bus wired t.1)
          (stream_write B bus U fill u (record p { blanking_on = true })
            then (λ (u', q). unblanked u' (blanking_off B bus q)))
  streamed-Ends U fill src u p at =
      then-Ends (FramedFrom B bus wired U fill src (src.unread u) (record p { blanking_on = true }))
        (λ t. OnPanel (src.unread u) p t.1) (λ t. LetGo B bus wired t.1)
        (stream_write B bus U fill u (record p { blanking_on = true }))
        (λ (u', q). unblanked u' (blanking_off B bus q))
        (stream_write-Ends B bus wired U fill src u (record p { blanking_on = true }) at)
        (λ s h. shown-Ends U fill src (src.unread u) p s h)

  module _ (width height : ℕ) (write_pixels : Desc → (ℕ → ℕ) → Panel B → Option (Ret × Panel B))
      (profile : Profile) (driven : profile.el133 ≡ true) (lcd_before : ℕ → ℕ) where
    -- The panel is loaded with the payload of the slot and shows it, or the call fails; both
    -- controllers are released.
    pub write_payload-Ends :
        (payload : List ℕ) (p : Panel B)
        → AtRest (seen B bus wired p)
        → Ends
            (λ t. OnPanel payload p t.1)
            (λ t. LetGo B bus wired t.1)
            (write_payload_to_display
              (Panel B)
              (el133_screen B bus width height write_pixels)
              profile
              lcd_before
              payload
              p)
    unfolding write_payload_to_display
    write_payload-Ends payload p at =
        simp driven (streamed-Ends (List ℕ) mem_fill payload_source payload p at)

    module _ (S : Type 0) (fs : Fs Text S) (rd : Readable Text S fs) where
      abbrev pub screened_on : Stream S fs → Panel B → Option (Ret × (Stream S fs × Panel B))
      screened_on st p =
          write_stream_to_display S fs (Panel B) (el133_screen B bus width height write_pixels)
            profile lcd_before st p

      pub write_stream-Ends :
          (st : Stream S fs) (p : Panel B)
          → AtRest (seen B bus wired p)
          → Ends
              (λ t. OnPanel (to_show S fs rd st) p t.1)
              (λ t. LetGo B bus wired t.1)
              (screened_on st p)
      unfolding write_stream_to_display
      write_stream-Ends st p at =
          simp driven
            (streamed-Ends (Stream S fs) (stream_fill S fs) (stream_source S fs rd) st p at)

      abbrev pub closing : Option (Ret × (Stream S fs × Panel B)) → Option (Ret × (S × Panel B))
      closing o =
          closed S fs (Panel B) (el133_screen B bus width height write_pixels) profile lcd_before o

      abbrev clear_of : S → Panel B → Option (Ret × (S × Panel B))
      clear_of s p =
          paint_clear S fs (Panel B) (el133_screen B bus width height write_pixels) profile
            lcd_before s p

      pub closed-Ends :
          (G Bad : Panel B → Type 0) (o : Option (Ret × (Stream S fs × Panel B)))
          → Ends (λ t. G t.1) (λ t. Bad t.1) o
          → Ends (λ t. G t.1) (λ t. Bad t.1) (closing o)
      closed-Ends G Bad none h = h
      closed-Ends G Bad (some (err e, t)) h = h
      closed-Ends G Bad (some (val n, t)) h = h

      -- On a bus that behaves as documented and supports its configuration, with both controllers
      -- released: a clear ends, with both controllers released; when it returns 0, they have heard
      -- a half of white each and the commands of a refresh after it, and nothing else.
      pub paint_clear-Ends :
          (s : S) (p : Panel B)
          → AtRest (seen B bus wired p)
          → Ends
              (λ t. OnPanel (replicate payload_size white_byte) p t.1)
              (λ t. LetGo B bus wired t.1)
              (clear_of s p)
      unfolding paint_clear
      paint_clear-Ends s p at =
          closed-Ends (OnPanel (replicate payload_size white_byte) p) (LetGo B bus wired)
            (screened_on (white_stream, s) p) (write_stream-Ends (white_stream, s) p at)
