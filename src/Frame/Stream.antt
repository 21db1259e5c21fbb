-- ===== src/Frame/Stream.antt =====
-- eink_frame.c: `eink_frame_validate_stream`, the validation through a read callback.
use mender_rt1180_zephyr.Prelude.{
  ℕ, true, List, [], ◌∷◌, ltb, if◌then◌else◌, length, Errno, einval, Option, none, some,
}
use mender_rt1180_zephyr.Crc.{Crc}
use mender_rt1180_zephyr.Frame.{
  Header, Result, ok, fail, StreamCtx, ◌>>=◌, header_size, header_parse, stream_begin,
  stream_update, stream_finish,
}

-- One answer of the callback: the bytes that it put into the buffer, or its error. When the list of
-- answers is used up the callback reports the end of the file.
pub data Read : Type 0 where
  got : List ℕ → Read
  broke : Errno → Read

module _ (c : Crc) where
  -- the `for (;;)` loop
  unfoldable pub stream_loop : StreamCtx → List Read → Result StreamCtx
  stream_loop ctx [] = ok ctx
  stream_loop ctx (broke e ∷ reads) = fail e
  stream_loop ctx (got [] ∷ reads) = ok ctx
  stream_loop ctx (got (b ∷ bs) ∷ reads) =
      stream_update c ctx (b ∷ bs) >>= λ ctx'. stream_loop ctx' reads

  -- everything after the header has been read
  unfoldable pub stream_body : List ℕ → List Read → Result Header
  stream_body hdr_raw reads = do
    h ← header_parse (some hdr_raw) true
    ctx ← stream_loop (stream_begin h) reads
    stream_finish c ctx

  stream_head : List Read → Result Header
  stream_head [] = fail einval
  stream_head (broke e ∷ reads) = fail e
  stream_head (got hdr_raw ∷ reads) =
      if ltb (length hdr_raw) header_size then fail einval else stream_body hdr_raw reads

  -- `seek` is the optional rewind: `none` for a null callback, else its error if it fails.
  unfoldable pub validate_stream : Option (List Read) → Option (Option Errno) → Result Header
  unfolding stream_head
  validate_stream none seek = fail einval
  validate_stream (some reads) (some (some e)) = fail e
  validate_stream (some reads) _ = stream_head reads
