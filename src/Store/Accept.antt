-- ===== src/Store/Accept.antt =====
-- eink_store.c: `eink_store_accept_temp_image`, which takes a downloaded file into the store, and
-- `eink_store_materialize_es6f`, which gives the file that is painted.
pub mod Installs
use mender_rt1180_zephyr.Prelude.{
  ℕ, ◌+◌, Bool, true, false, ◌&&◌, ◌==◌, ltb, if◌then◌else◌, List, [], ◌∷◌, ◌++◌, length, Option,
  none, some, Ret, val, err, Errno, einval, enomem, Result, ok, fail, codes,
}
use mender_rt1180_zephyr.Crc.{Crc}
use mender_rt1180_zephyr.Fs.{Fs}
use mender_rt1180_zephyr.Frame.{Header}
use mender_rt1180_zephyr.Lz4.{Lz4, is_frame, decompress_file}
use mender_rt1180_zephyr.Store.Reader.{Text, read_file}
use mender_rt1180_zephyr.Store.Validate.{Checked, validate_path}
use mender_rt1180_zephyr.Store.Images.{Config, printed, image_path, image_lz4_path, bad_lz4_size}

module _ (S : Type 0) (fs : Fs Text S) where
  abbrev pub unlinked : Text → Ret × S → S
  unlinked path (err e, s) = s
  unlinked path (val n, s) = if n == 0 then (fs.unlink path s).1 else s

  unfoldable pub unlink_if_exists : Text → S → S
  unlink_if_exists [] s = s
  unlink_if_exists (x ∷ path) s = unlinked (x ∷ path) (fs.stat (x ∷ path) s)

  abbrev pub moved : Ret × S → Ret × S
  moved (err e, s) = (err e, s)
  moved (val n, s) = (val 0, s)

  module _ (cfg : Config) (c : Crc) (root id temp : Text) where
    -- the images that it takes the place of are unlinked first
    abbrev pub install : Text → S → Ret × S
    install target s = moved (
        fs.rename temp target
          (unlink_if_exists (image_lz4_path root id) (unlink_if_exists (image_path root id) s)))

    abbrev pub accepted_lz4 : Ret × S → Ret × S
    accepted_lz4 (err e, s) = (err einval, s)
    accepted_lz4 (val n, s) =
        if bad_lz4_size (fs.size temp s)
        then (err einval, s)
        else install (image_lz4_path root id) s

    abbrev pub accepted_es6f : Result Header × S → Ret × S
    accepted_es6f (fail e, s) = (err e, s)
    accepted_es6f (ok h, s) = install (image_path root id) s

    -- on the first bytes of the file
    abbrev pub sniffed : Result Text × S → Ret × S
    sniffed (fail e, s) = (err e, s)
    sniffed (ok head, s) =
        if ltb (length head) 4
        then (err einval, s)
        else if cfg.lz4 && is_frame head
        then (if cfg.expand_on_display then accepted_lz4 (fs.stat temp s) else (err einval, s))
        else accepted_es6f (validate_path c Text S fs temp s)

    unfoldable pub accept_temp_image : S → Ret × S
    accept_temp_image s = sniffed (read_file Text S fs temp 8 s)

  module _ (D : Type 0) (lz : Lz4 D) (cfg : Config) (room : Bool) (root : Text) where
    abbrev pub copied : Text → ℕ → Result Text
    copied path cap = if ltb cap (length path + 1) then fail enomem else ok path

    abbrev pub scratch : Text
    scratch = printed 320 (root ++ codes "/images/.paint.es6f")

    -- `none` where the expansion does not end
    abbrev pub expanded : ℕ → Option (Ret × S) → Option (Result Text × S)
    expanded cap none = none
    expanded cap (some (err e, s)) = some (fail e, s)
    expanded cap (some (val n, s)) = some (copied scratch cap, s)

    abbrev pub framed : Text → ℕ → Result Text × S → Option (Result Text × S)
    framed path cap (fail e, s) = some (fail e, s)
    framed path cap (ok head, s) =
        if ltb (length head) 4
        then some (fail einval, s)
        else if cfg.lz4 && is_frame head
        then expanded cap (decompress_file Text S D fs lz room path scratch s)
        else some (copied path cap, s)

    unfoldable pub materialize_es6f : Text → ℕ → S → Option (Result Text × S)
    materialize_es6f path cap s =
        if ltb cap 16 then some (fail einval, s) else framed path cap (read_file Text S fs path 8 s)
