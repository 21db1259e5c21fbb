-- ===== src/Lz4.antt =====
-- eink_lz4.c: the expansion of an LZ4 frame into an image file. The LZ4 library is the record
-- Lz4; a path is never null, `malloc` succeeds where `room` says so.
pub mod Pumps
pub mod Expands
pub mod Fuel
mod Tests
use mender_rt1180_zephyr.Prelude.{
  ℕ, zero, suc, ◌+◌, ◌-◌, Bool, true, false, not, ◌&&◌, ◌||◌, ◌==◌, ltb, leb, if◌then◌else◌, List,
  [], ◌∷◌, ◌++◌, length, take, drop, Option, none, some, Ret, val, err, Errno, efbig, eio, einval,
  enomem, enotsup, Result, ok, fail,
}
use mender_rt1180_zephyr.Bytes.{le32}
use mender_rt1180_zephyr.Fs.{Fs}
use mender_rt1180_zephyr.Frame.{file_size, frame_magic}
use mender_rt1180_zephyr.Store.Reader.{read_file}

-- `LZ4F_decompress`: an error, or its hint, the bytes it consumed and those it gave
pub data Answer (D : Type 0) : Type 0 where
  broken : Answer D
  gave : ℕ → ℕ → List ℕ → D → Answer D

pub record Lz4 (D : Type 0) : Type 0 where
  -- `none` where the context cannot be created
  pub create_context : Option D
  -- the context, the room in the buffer, the input
  pub decompress : D → ℕ → List ℕ → Answer D

-- EINK_LZ4_IO_CHUNK
abbrev pub io_chunk : ℕ
io_chunk = 8192

-- EINK_LZ4_COMPRESSED_MAX
abbrev pub compressed_max : ℕ
compressed_max = 1048576

unfoldable pub is_frame : List ℕ → Bool
is_frame (a ∷ b ∷ c ∷ d ∷ rest) = a == 0x04 && b == 0x22 && c == 0x4D && d == 0x18
is_frame _ = false

unfoldable pub is_es6f_magic : List ℕ → Bool
is_es6f_magic buf = if ltb (length buf) 4 then false else le32 buf 0 == frame_magic

module _ (FilePath S D : Type 0) (fs : Fs FilePath S) (lz : Lz4 D) where
  abbrev pub Outcome : Type 0
  Outcome = Result (List ℕ) × S

  abbrev pub joined : List ℕ → Outcome → Outcome
  joined bytes (fail e, s) = (fail e, s)
  joined bytes (ok rest, s) = (ok (bytes ++ rest), s)

  -- one answer of `fs_read`, and the reading of the rest
  abbrev pub gathered : (List ℕ → S → Outcome) → (Ret × List ℕ) × S → Outcome
  gathered more ((err e, bytes), s) = (fail e, s)
  gathered more ((val n, []), s) = (ok [], s)
  gathered more ((val n, b ∷ bytes), s) = joined (b ∷ bytes) (more (b ∷ bytes) s)

  -- The `while` loop of `read_all`, until `wanted` bytes are read.
  unfoldable pub gather : ℕ → FilePath → ℕ → S → Outcome
  gather zero path wanted s = (ok [], s)
  gather (suc fuel) path zero s = (ok [], s)
  gather (suc fuel) path (suc w) s =
      gathered (λ bytes s'. gather fuel path (suc w - length bytes) s') (fs.read path (suc w) s)

  abbrev pub whole : ℕ → Result (List ℕ) → Result (List ℕ)
  whole size (fail e) = fail e
  whole size (ok bytes) = if length bytes == size then ok bytes else fail eio

  abbrev pub closed : FilePath → ℕ → Outcome → Outcome
  closed path size (r, s) = (whole size r, (fs.close path s).1)

  abbrev pub opened : FilePath → ℕ → Ret × S → Outcome
  opened path size (err e, s) = (fail e, s)
  opened path size (val n, s) = closed path size (gather size path size s)

  abbrev pub sized : Bool → FilePath → Ret × S → Outcome
  sized room path (err e, s) = (fail e, s)
  sized room path (val n, s) =
      if fs.size path s == 0 || ltb compressed_max (fs.size path s)
      then (fail efbig, s)
      else if room
      then opened path (fs.size path s) (fs.open_read path s)
      else (fail enomem, s)

  unfoldable pub read_all : Bool → FilePath → S → Outcome
  read_all room path s = sized room path (fs.stat path s)

  -- `total_out` or the error, and the files
  abbrev pub Pumped : Type 0
  Pumped = Result ℕ × S

  abbrev pub counted : ℕ → ℕ → Ret × S → Pumped
  counted total size (err e, s) = (fail e, s)
  counted total size (val n, s) = if n == size then (ok (total + size), s) else (fail eio, s)

  -- what a call of the library gave is written
  abbrev pub put_block : FilePath → List ℕ → ℕ → S → Pumped
  put_block dst [] total s = (ok total, s)
  put_block dst (b ∷ bytes) total s =
      if ltb file_size (total + length (b ∷ bytes))
      then (fail efbig, s)
      else counted total (length (b ∷ bytes)) (fs.write dst (b ∷ bytes) s)

  abbrev pub starved : ℕ → List ℕ → List ℕ → Bool
  starved zero [] [] = true
  starved _ _ _ = false

  -- the end of the loop's body, on the hint, the bytes consumed and given, and the input that is left
  abbrev pub looped : (ℕ → S → Option Pumped) → ℕ → ℕ → List ℕ → List ℕ → Pumped → Option Pumped
  looped more hint consumed bytes left (fail e, s) = some (fail e, s)
  looped more zero consumed bytes left (ok total, s) = some (ok total, s)
  looped more (suc h) consumed bytes left (ok total, s) =
      if starved consumed bytes left then some (fail eio, s) else more total s

  abbrev pub decoded :
      (D → List ℕ → ℕ → S → Option Pumped) → FilePath → List ℕ → ℕ → S → Answer D → Option Pumped
  decoded more dst src total s broken = some (fail eio, s)
  decoded more dst src total s (gave hint consumed bytes d) =
      looped (λ total' s'. more d (drop consumed src) total' s') hint consumed bytes
        (drop consumed src) (put_block dst bytes total s)

  abbrev pub finished : List ℕ → ℕ → Bool
  finished [] total = leb file_size total
  finished (b ∷ src) total = false

  -- The `while` loop of `eink_lz4_decompress_file`; `none` where the fuel is used up.
  unfoldable pub pump : ℕ → FilePath → D → List ℕ → ℕ → S → Option Pumped
  pump zero dst d src total s = none
  pump (suc fuel) dst d src total s =
      if finished src total
      then some (ok total, s)
      else decoded (λ d' src' total' s'. pump fuel dst d' src' total' s') dst src total s
          (lz.decompress d io_chunk src)

  -- the label `out`
  abbrev pub out : FilePath → Ret → S → Ret × S
  out dst (val n) s = (val n, (fs.close dst s).1)
  out dst (err e) s = (err e, (fs.unlink dst (fs.close dst s).1).1)

  abbrev pub synced : FilePath → ℕ → Ret × S → Ret × S
  synced dst total (err e, s) = out dst (err e) s
  synced dst total (val n, s) =
      if total == file_size then out dst (val 0) s else out dst (err einval) s

  abbrev pub pumped : FilePath → Option Pumped → Option (Ret × S)
  pumped dst none = none
  pumped dst (some (fail e, s)) = some (out dst (err e) s)
  pumped dst (some (ok total, s)) = some (synced dst total (fs.sync dst s))

  -- Every turn that goes on takes a byte of the input or gives one of the image.
  abbrev pub enough : List ℕ → ℕ
  enough src = suc (length src + file_size)

  abbrev pub started : FilePath → List ℕ → Option D → S → Option (Ret × S)
  started dst src none s = some (out dst (err enomem) s)
  started dst src (some d) s = pumped dst (pump (enough src) dst d src 0 s)

  abbrev pub created : FilePath → List ℕ → Ret × S → Option (Ret × S)
  created dst src (err e, s) = some (err e, s)
  created dst src (val n, s) = started dst src lz.create_context s

  abbrev pub sourced : FilePath → Outcome → Option (Ret × S)
  sourced dst (fail e, s) = some (err e, s)
  sourced dst (ok src, s) = created dst src (fs.create dst s)

  unfoldable pub decompress_file : Bool → FilePath → FilePath → S → Option (Ret × S)
  decompress_file room src_path dst s = sourced dst (read_all room src_path s)

  abbrev pub expanded : Option (Ret × S) → Option (Ret × S)
  expanded none = none
  expanded (some (err e, s)) = some (err e, s)
  expanded (some (val n, s)) = some (val 1, s)

  -- on the first bytes of the file
  abbrev pub sniffed : Bool → FilePath → FilePath → Result (List ℕ) → S → Option (Ret × S)
  sniffed room src_path dst (fail e) s = some (err e, s)
  sniffed room src_path dst (ok head) s =
      if ltb (length head) 4
      then some (err einval, s)
      else if is_es6f_magic head
      then some (val 0, s)
      else if not (is_frame head)
      then some (err enotsup, s)
      else expanded (decompress_file room src_path dst s)

  unfoldable pub expand_if_framed : Bool → FilePath → FilePath → S → Option (Ret × S)
  expand_if_framed room src_path dst s =
      let head = read_file FilePath S fs src_path 8 s in sniffed room src_path dst head.0 head.1
