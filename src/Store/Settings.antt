-- ===== src/Store/Settings.antt =====
-- eink_store.c: the time of the last sync, the job that was shown last and the hash of a download,
-- each in a file. An identifier has less than EINK_ID_MAX bytes, so its text fits the buffers.
pub mod RoundTrip
mod Tests
use mender_rt1180_zephyr.Prelude.{
  ℕ, zero, suc, ◌+◌, ◌-◌, ◌%◌, ◌^◌, Bool, not, ◌&&◌, ◌||◌, ◌==◌, ltb, leb, if◌then◌else◌, List, [],
  ◌∷◌, ◌++◌, length, take, drop, Option, none, some, Ret, val, err, Errno, einval, enomem, eio,
  is_enoent, Result, ok, fail, ◌>>=◌, codes,
}
use mender_rt1180_zephyr.Prelude.Int.{ℤ, pos, negsuc, pos_part}
use mender_rt1180_zephyr.Fs.{Fs}
use mender_rt1180_zephyr.Store.Json.{after_key}
use mender_rt1180_zephyr.Store.Atomic.{write_file}
use mender_rt1180_zephyr.Store.Reader.{Text, c_string, read_file}
use mender_rt1180_zephyr.Store.Decimal.{show_int, strtoll}

abbrev pub state_path : Text → Text
state_path root = root ++ codes "/state.json"

abbrev pub sync_path : Text → Text
sync_path root = root ++ codes "/sync_meta.json"

abbrev pub last_sync_text : ℤ → Text
last_sync_text v = codes "{\"last_sync_unix\":" ++ show_int v (codes "}\n")

abbrev pub state_text : Text → Text
state_text id = codes "{\"last_displayed_job_id\":\"" ++ id ++ codes "\"}\n"

-- The loop that copies up to the closing quote, into a buffer with room for `n` bytes.
unfoldable pub up_to_quote : ℕ → Text → Text
up_to_quote zero text = []
up_to_quote (suc n) [] = []
up_to_quote (suc n) (c ∷ text) = let rest = up_to_quote n text in if c == b'"' then [] else c ∷ rest

abbrev pub after_sync_key : Option Text → ℤ
after_sync_key none = pos 0
after_sync_key (some text) = strtoll text

abbrev pub sync_value : Text → ℤ
sync_value buf = after_sync_key (after_key (codes "\"last_sync_unix\":") buf)

abbrev pub after_state_key : ℕ → Option Text → Text
after_state_key cap none = []
after_state_key cap (some text) = up_to_quote (cap - 1) text

abbrev pub state_value : ℕ → Text → Text
state_value cap buf = after_state_key cap (after_key (codes "\"last_displayed_job_id\":\"") buf)

module _ (S : Type 0) (fs : Fs Text S) (root : Text) where
  unfoldable pub save_last_sync : ℤ → S → Ret × S
  save_last_sync v s =
      write_file Text S fs (sync_path root) (sync_path root ++ codes ".tmp") (last_sync_text v) s

  unfoldable pub save_state : Text → S → Ret × S
  save_state id s =
      write_file Text S fs (state_path root) (state_path root ++ codes ".tmp") (state_text id) s

  -- What is read of a file, by its value on the text; an empty file and one that is missing give
  -- the default.
  module _ {A : Type 0} (default : A) (value : Text → A) where
    abbrev pub read_value : Result Text × S → Result A × S
    read_value (fail e, s) = (fail e, s)
    read_value (ok [], s) = (ok default, s)
    read_value (ok (c ∷ bytes), s) = (ok (value (c_string (c ∷ bytes))), s)

    abbrev pub found_value : Text → ℕ → Ret × S → Result A × S
    found_value path cap (err e, s) = if is_enoent e then (ok default, s) else (fail e, s)
    found_value path cap (val n, s) = read_value (read_file Text S fs path cap s)

  unfoldable pub load_last_sync : S → Result ℤ × S
  load_last_sync s = found_value (pos 0) sync_value (sync_path root) 95 (fs.stat (sync_path root) s)

  -- `cap` is 0 for a buffer that is not there
  unfoldable pub load_state : ℕ → S → Result Text × S
  load_state zero s = (fail einval, s)
  load_state (suc n) s =
      found_value [] (state_value (suc n)) (state_path root) 255 (fs.stat (state_path root) s)
