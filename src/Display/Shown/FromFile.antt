-- ===== src/Display/Shown/FromFile.antt =====
-- eink_display.c over display_el133uf1.c: what the panel shows after a command with a path.
use mender_rt1180_zephyr.Prelude.{
  ℕ, ◌≡◌, refl, ◌∙◌, subst, Bool, true, List, take, drop, Option, some, Ret, val, err, Result, ok,
  fail,
}
use mender_rt1180_zephyr.Fs.{Fs, Lawful, Readable}
use mender_rt1180_zephyr.Store.Reader.{Text}
use mender_rt1180_zephyr.Crc.{Crc}
use mender_rt1180_zephyr.Lz4.{Lz4}
use mender_rt1180_zephyr.Frame.{Header, header_size, payload_size}
use mender_rt1180_zephyr.Store.Images.{Config}
use mender_rt1180_zephyr.Store.Validate.{validate_path}
use mender_rt1180_zephyr.Store.Validate.Whole.{Accepted, validate_path-Accepted}
use mender_rt1180_zephyr.Store.Validate.Keeps.{validate_path_keeps}
use mender_rt1180_zephyr.Store.Accept.{materialize_es6f}
use mender_rt1180_zephyr.El133.{Bus}
use mender_rt1180_zephyr.El133.Device.{Panel}
use mender_rt1180_zephyr.El133.Heard.{Wired, AtRest}
use mender_rt1180_zephyr.El133.Loads.{Ends, map-Ends}
use mender_rt1180_zephyr.El133.Frames.{seen, LetGo}
use mender_rt1180_zephyr.El133.Supported.{Supports}
use mender_rt1180_zephyr.Display.{Profile}
use mender_rt1180_zephyr.Display.Screen.{Desc, el133_screen}
use mender_rt1180_zephyr.Display.Paint.{
  unopened, streamed, validated, sought, opened, stream_open_path, paint_path, Stream,
}
use mender_rt1180_zephyr.Display.Streams.{to_show}
use mender_rt1180_zephyr.Display.Shown.{OnPanel, screened_on, closed-Ends, write_stream-Ends}

module _ (B : Type 0) (bus : Bus B) (wired : Wired B bus) (supports : Supports B bus)
    (width height : ℕ) (write_pixels : Desc → (ℕ → ℕ) → Panel B → Option (Ret × Panel B))
    (profile : Profile) (driven : profile.el133 ≡ true) (lcd_before : ℕ → ℕ) (S : Type 0)
    (fs : Fs Text S) (rd : Readable Text S fs) where
  -- the first module's names, at these parameters
  abbrev PaintedOn : List ℕ → Panel B → Panel B → Type 0
  PaintedOn payload p q = OnPanel B bus wired supports payload p q

  abbrev screened : Stream S fs → Panel B → Option (Ret × (Stream S fs × Panel B))
  screened st p =
      screened_on B bus wired supports width height write_pixels profile driven lcd_before S fs rd
        st p

  abbrev streaming : Panel B → Ret × Stream S fs → Option (Ret × (Stream S fs × Panel B))
  streaming p r =
      streamed S fs (Panel B) (el133_screen B bus width height write_pixels) profile lcd_before p r

  module _ (D : Type 0) (lz : Lz4 D) (c : Crc) (cfg : Config) (room : Bool) (root : Text) where
    -- The file is one that the validation accepts, and the panel shows its payload.
    abbrev pub ShownFrom : Text → List ℕ → Panel B → Panel B → Type 0
    ShownFrom es6f bytes p q =
        (h : Header) × Accepted c Text S fs rd es6f bytes h
        × PaintedOn (take payload_size (drop header_size bytes)) p q

    sought-Ends :
        (es6f : Text) (bytes : List ℕ) (h : Header) (p : Panel B) (r : Ret × S)
        → AtRest (seen B bus wired p)
        → Accepted c Text S fs rd es6f bytes h
        → ((k : ℕ) → r.0 ≡ val k → rd.unread r.1 es6f ≡ drop header_size bytes)
        → Ends
            (λ t. ShownFrom es6f bytes p t.1)
            (λ t. LetGo B bus wired t.1)
            (streaming p (sought S fs es6f r))
    sought-Ends es6f bytes h p (err e, s) at acc got = at
    sought-Ends es6f bytes h p (val n, s) at acc got =
        let st : Stream S fs =
          (record (unopened es6f) { payload_left = payload_size; is_open = true }, s) in
        map-Ends (λ t. PaintedOn (to_show S fs rd st) p t.1) (λ t. ShownFrom es6f bytes p t.1)
          (λ t. LetGo B bus wired t.1) (screened st p)
          (λ t shown.
            (h, acc, subst (λ l. PaintedOn (take payload_size l) p t.1) (got n refl) shown))
          (write_stream-Ends B bus wired supports width height write_pixels profile driven
            lcd_before S fs rd st p at)

    abbrev validating : Text → Panel B → Result Header × S → Option (Ret × (Stream S fs × Panel B))
    validating es6f p r =
        validated S fs (Panel B) (el133_screen B bus width height write_pixels) profile lcd_before D
          lz c cfg room root es6f p r

    opened-Ends :
        (es6f : Text) (bytes : List ℕ) (h : Header) (p : Panel B) (r : Ret × S)
        → Lawful Text S fs
        → AtRest (seen B bus wired p)
        → Accepted c Text S fs rd es6f bytes h
        → fs.content r.1 es6f ≡ some bytes
        → Ends
            (λ t. ShownFrom es6f bytes p t.1)
            (λ t. LetGo B bus wired t.1)
            (streaming p (opened S fs es6f r))
    opened-Ends es6f bytes h p (err e, s) law at acc held = at
    opened-Ends es6f bytes h p (val n, s) law at acc held =
        sought-Ends es6f bytes h p (fs.seek es6f header_size s) at acc
          (λ k got. rd.unread-seek es6f header_size k s bytes got held)

    validated-Ends :
        (es6f : Text) (bytes : List ℕ) (p : Panel B) (r : Result Header × S)
        → Lawful Text S fs
        → AtRest (seen B bus wired p)
        → ((h : Header) → r.0 ≡ ok h → Accepted c Text S fs rd es6f bytes h)
        → fs.content r.1 es6f ≡ some bytes
        → Ends (λ t. ShownFrom es6f bytes p t.1) (λ t. LetGo B bus wired t.1) (validating es6f p r)
    unfolding stream_open_path
    validated-Ends es6f bytes p (fail e, s) law at acc held = at
    validated-Ends es6f bytes p (ok h, s) law at acc held =
        opened-Ends es6f bytes h p (fs.open_read es6f s) law at (acc h refl)
          (law.open_read-content es6f es6f s ∙ held)

    -- On a lawful and readable file system, a bus that behaves as documented and supports its
    -- configuration, with both controllers released, and where the materialisation of the path
    -- gives a file that is there: a command that shows a path ends, with both controllers
    -- released; when it returns 0, the file is one that the whole-buffer validation accepts, and
    -- each controller has heard its half of the file's payload and the commands of a refresh
    -- after it, and nothing else.
    pub paint_path-Ends :
        (path es6f : Text) (bytes : List ℕ) (s s1 : S) (p : Panel B)
        → Lawful Text S fs
        → AtRest (seen B bus wired p)
        → materialize_es6f S fs D lz cfg room root path 320 s ≡ some (ok es6f, s1)
        → fs.content s1 es6f ≡ some bytes
        → Ends
            (λ t. ShownFrom es6f bytes p t.1)
            (λ t. LetGo B bus wired t.1)
            (paint_path S fs
              (Panel B)
              (el133_screen B bus width height write_pixels)
              profile
              lcd_before
              D
              lz
              c
              cfg
              room
              root
              path
              s
              p)
    unfolding paint_path
    paint_path-Ends path es6f bytes s s1 p law at made held = rw made (
        closed-Ends B bus wired supports width height write_pixels profile driven lcd_before S fs rd
          (ShownFrom es6f bytes p) (LetGo B bus wired)
          (validating es6f p (validate_path c Text S fs es6f s1))
          (validated-Ends es6f bytes p (validate_path c Text S fs es6f s1) law at
            (λ h done. validate_path-Accepted c Text S fs rd es6f s1 bytes h law held done)
            (validate_path_keeps c Text S fs law es6f es6f s1 ∙ held)))
