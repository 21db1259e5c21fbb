-- ===== src/Store/Validate.antt =====
-- eink_store.c: `eink_store_validate_path`, the validation of a file through `fs_stream_open`,
-- `fs_stream_read`, `fs_stream_seek` and `fs_stream_close`, on the file system of the device.
pub mod Whole
pub mod Keeps
use mender_rt1180_zephyr.Prelude.{
  ℕ, zero, suc, ◌+◌, true, List, [], ◌∷◌, length, ltb, if◌then◌else◌, some, Ret, val, err, Errno,
  einval, Result, ok, fail, ◌>>=◌,
}
use mender_rt1180_zephyr.Crc.{Crc}
use mender_rt1180_zephyr.Fs.{Fs}
use mender_rt1180_zephyr.Frame.{
  Header, StreamCtx, header_size, payload_size, stream_chunk_size, header_parse, stream_begin,
  stream_update, stream_finish,
}

-- A chunk that is taken has a byte at least, and the payload no more than `payload_size`.
abbrev pub fuel_for_payload : ℕ
fuel_for_payload = payload_size + 2

module _ (c : Crc) (FilePath S : Type 0) (fs : Fs FilePath S) where
  abbrev pub Context : Type 0
  Context = Result StreamCtx × S

  abbrev pub updated : (StreamCtx → S → Context) → Result StreamCtx → S → Context
  updated more (fail e) s = (fail e, s)
  updated more (ok ctx) s = more ctx s

  -- one answer of `fs_stream_read`
  abbrev pub chunked : (StreamCtx → S → Context) → StreamCtx → (Ret × List ℕ) × S → Context
  chunked more ctx ((err e, bytes), s) = (fail e, s)
  chunked more ctx ((val n, []), s) = (ok ctx, s)
  chunked more ctx ((val n, b ∷ bytes), s) = updated more (stream_update c ctx (b ∷ bytes)) s

  -- the `for (;;)` loop of `eink_frame_validate_stream` on a file
  unfoldable pub read_loop : ℕ → FilePath → StreamCtx → S → Context
  read_loop zero path ctx s = (ok ctx, s)
  read_loop (suc fuel) path ctx s =
      chunked (λ ctx' s'. read_loop fuel path ctx' s') ctx (fs.read path stream_chunk_size s)

  abbrev pub Checked : Type 0
  Checked = Result Header × S

  abbrev pub summed : Context → Checked
  summed (r, s) = (r >>= stream_finish c, s)

  abbrev pub parsed : FilePath → Result Header → S → Checked
  parsed path (fail e) s = (fail e, s)
  parsed path (ok h) s = summed (read_loop fuel_for_payload path (stream_begin h) s)

  abbrev pub headed : FilePath → (Ret × List ℕ) × S → Checked
  headed path ((err e, bytes), s) = (fail e, s)
  headed path ((val n, hdr_raw), s) =
      if ltb (length hdr_raw) header_size
      then (fail einval, s)
      else parsed path (header_parse (some hdr_raw) true) s

  abbrev pub sought : FilePath → Ret × S → Checked
  sought path (err e, s) = (fail e, s)
  sought path (val n, s) = headed path (fs.read path header_size s)

  abbrev pub shut : FilePath → Checked → Checked
  shut path (r, s) = (r, (fs.close path s).1)

  abbrev pub streamed : FilePath → Ret × S → Checked
  streamed path (err e, s) = (fail e, s)
  streamed path (val n, s) = shut path (sought path (fs.seek path 0 s))

  unfoldable pub validate_path : FilePath → S → Checked
  validate_path path s = streamed path (fs.open_read path s)
