-- ===== src/Store/Images.antt =====
-- eink_store.c: the paths of the images, which of them is shown, and whether one is in the store. A
-- path and an identifier are never null.
use mender_rt1180_zephyr.Prelude.{
  ℕ, ◌+◌, ◌-◌, Bool, true, false, not, ◌&&◌, ◌||◌, ◌==◌, ltb, leb, if◌then◌else◌, ◌++◌, length,
  take, Option, none, some, Ret, val, err, einval, enoent, enomem, Result, ok, fail, codes,
}
use mender_rt1180_zephyr.Crc.{Crc}
use mender_rt1180_zephyr.Fs.{Fs}
use mender_rt1180_zephyr.Frame.{
  Header, View, file_size, payload_size, header_parse, header_size, validate,
}
use mender_rt1180_zephyr.Lz4.{is_frame, compressed_max}
use mender_rt1180_zephyr.Store.Atomic.{write_file}
use mender_rt1180_zephyr.Store.Reader.{Text, read_file}
use mender_rt1180_zephyr.Store.Validate.{validate_path}

-- CONFIG_APP_EINK_LZ4, CONFIG_APP_EINK_LZ4_EXPAND_ON_DISPLAY and
-- CONFIG_APP_EINK_STORE_QUICK_CACHE_CHECK
pub record Config : Type 0 where
  pub lz4 : Bool
  pub expand_on_display : Bool
  pub quick_cache_check : Bool

-- `snprintf` of a text into `n` bytes
abbrev pub printed : ℕ → Text → Text
printed n text = take (n - 1) text

abbrev pub image_path : Text → Text → Text
image_path root id = printed 300 (root ++ codes "/images/" ++ id ++ codes ".es6f")

abbrev pub image_lz4_path : Text → Text → Text
image_lz4_path root id = printed 300 (root ++ codes "/images/" ++ id ++ codes ".es6f.lz4")

-- a copy to the caller's buffer, with the value of `*is_lz4`
abbrev pub copied_out : ℕ → Text → Bool → Result (Text × Bool)
copied_out cap path lz4 = if ltb cap (length path + 1) then fail enomem else ok (path, lz4)

abbrev pub bad_lz4_size : ℕ → Bool
bad_lz4_size size = ltb size 16 || ltb compressed_max size

abbrev pub lz4_head : Result Text → Bool
lz4_head (fail e) = false
lz4_head (ok head) = leb 4 (length head) && is_frame head

abbrev pub announces_payload : Result Header → Bool
announces_payload (fail e) = false
announces_payload (ok h) = h.payload_len == payload_size

abbrev pub es6f_head : Result Text → Bool
es6f_head (fail e) = false
es6f_head (ok head) =
    (length head == header_size) && announces_payload (header_parse (some head) true)

abbrev pub is_ok {ℓ} : {A : Type ℓ} → Result A → Bool
is_ok (ok a) = true
is_ok (fail e) = false

module _ (S : Type 0) (fs : Fs Text S) (cfg : Config) (root : Text) where
  abbrev pub regular : Text → Ret × S → Bool × S
  regular path (err e, s) = (false, s)
  regular path (val n, s) = ((n == 0) && not (fs.is_dir path s) && ltb 0 (fs.size path s), s)

  abbrev pub path_is_file : Text → S → Bool × S
  path_is_file path s = regular path (fs.stat path s)

  abbrev pub Shown : Type 0
  Shown = Result (Text × Bool) × S

  abbrev pub tried_lz4 : Text → ℕ → Bool × S → Shown
  tried_lz4 id cap (false, s) = (fail enoent, s)
  tried_lz4 id cap (true, s) = (copied_out cap (image_lz4_path root id) true, s)

  abbrev pub tried_es6f : Text → ℕ → Bool × S → Shown
  tried_es6f id cap (true, s) = (copied_out cap (image_path root id) false, s)
  tried_es6f id cap (false, s) =
      if cfg.lz4
      then tried_lz4 id cap (path_is_file (image_lz4_path root id) s)
      else (fail enoent, s)

  unfoldable pub resolve_show_path : Text → ℕ → S → Shown
  resolve_show_path id cap s = tried_es6f id cap (path_is_file (image_path root id) s)

  abbrev pub headed : (Result Text → Bool) → Result Text × S → Bool × S
  headed test (r, s) = (test r, s)

  abbrev pub quick_looked : Text → Bool → Ret × S → Bool × S
  quick_looked path lz4 (err e, s) = (false, s)
  quick_looked path lz4 (val n, s) =
      if fs.is_dir path s
      then (false, s)
      else if cfg.lz4 && lz4
      then (if bad_lz4_size (fs.size path s)
          then (false, s)
          else headed lz4_head (read_file Text S fs path 8 s))
      else if not (fs.size path s == file_size)
      then (false, s)
      else headed es6f_head (read_file Text S fs path header_size s)

  abbrev pub quick_resolved : Shown → Bool × S
  quick_resolved (fail e, s) = (false, s)
  quick_resolved (ok (path, lz4), s) = quick_looked path lz4 (fs.stat path s)

  unfoldable pub has_image_quick : Text → S → Bool × S
  has_image_quick id s = quick_resolved (resolve_show_path id 300 s)

  abbrev pub validated : Crc → Text → S → Bool × S
  validated c path s = let r = validate_path c Text S fs path s in (is_ok r.0, r.1)

  -- the second call of `eink_store_resolve_show_path`, on the path of the first
  abbrev pub resolved_again : Crc → Text → Shown → Bool × S
  resolved_again c path (fail e, s) = validated c path s
  resolved_again c path (ok (path', true), s) = headed lz4_head (read_file Text S fs path' 8 s)
  resolved_again c path (ok (path', false), s) = validated c path' s

  abbrev pub resolved : Crc → Text → Shown → Bool × S
  resolved c id (fail e, s) = (false, s)
  resolved c id (ok (path, lz4), s) =
      if cfg.quick_cache_check
      then has_image_quick id s
      else resolved_again c path (resolve_show_path id 300 s)

  unfoldable pub has_valid_image : Crc → Text → S → Bool × S
  has_valid_image c id s = resolved c id (resolve_show_path id 300 s)

  abbrev pub put_valid : Text → Text → Result View → S → Ret × S
  put_valid id es6f (fail e) s = (err e, s)
  put_valid id es6f (ok view) s =
      let path = image_path root id in
      write_file Text S fs path (printed 320 (path ++ codes ".tmp")) es6f s

  unfoldable pub put_image : Crc → Text → Option Text → S → Ret × S
  put_image c id none s = (err einval, s)
  put_image c id (some es6f) s = put_valid id es6f (validate c (some es6f) true) s
