-- ===== src/Store/Hash.antt =====
-- eink_store.c: the hash and the size of a download beside its image, and the directories of the
-- store.
pub mod Hex
mod Tests
use mender_rt1180_zephyr.Prelude.{
  ℕ, zero, suc, ◌+◌, ◌-◌, ◌%◌, ◌^◌, ◌≤◌, ◌<◌, ◌≡◌, refl, ap, ◌∙◌, sym, arith, Bool, true, false,
  not, ◌&&◌, ◌||◌, ◌==◌, Bool-cases, inl, inr, ltb, leb, if◌then◌else◌, List, [], ◌∷◌, ◌++◌, length,
  length-take, take, drop, Option, none, some, Ret, val, err, Errno, einval, enomem, eio, enotdir,
  is_enoent, Result, ok, fail, ◌>>=◌, bind-eq-ok, codes,
}
use mender_rt1180_zephyr.Prelude.Int.{ℤ, pos, negsuc}
use mender_rt1180_zephyr.Fs.{Fs}
use mender_rt1180_zephyr.Scheduler.Cron.{scan_int}
use mender_rt1180_zephyr.Store.Reader.{Text, c_string, read_file}
use mender_rt1180_zephyr.Store.Decimal.{show_digits}
use mender_rt1180_zephyr.Store.Images.{printed}

abbrev pub content_hash_path : Text → Text → Text
content_hash_path root id = printed 300 (root ++ codes "/images/" ++ id ++ codes ".es6f.lz4.sha")

-- `"%s\n%u\n"`
abbrev pub hash_text : Text → ℕ → Text
hash_text sha256_hex byte_size = sha256_hex ++ (b'\n' ∷ show_digits 10 byte_size (codes "\n"))

-- a digit of a hash in lower case
abbrev pub lower_hex : ℕ → Bool
lower_hex c = (leb b'0' c && leb c b'9') || (leb b'a' c && leb c b'f')

abbrev pub upper_hex : ℕ → Bool
upper_hex c = leb b'A' c && leb c b'F'

abbrev pub kept : ℕ → Result Text → Result Text
kept c r = r >>= λ text. ok (c ∷ text)

-- the loop over the digits
unfoldable pub hex_digits : Text → Result Text
hex_digits [] = ok []
hex_digits (c ∷ text) =
    let rest = hex_digits text in
    if upper_hex c
    then kept (c - b'A' + b'a') rest
    else if not (lower_hex c)
    then fail einval
    else kept c rest

-- `strtoul` to an `unsigned long` of 32 bits
abbrev pub converted : Option (ℤ × Text) → ℕ
converted none = 0
converted (some (pos n, rest)) = if ltb 4294967295 n then 4294967295 else n
converted (some (negsuc n, rest)) = if leb 4294967295 n then 4294967295 else 4294967295 - n

abbrev pub strtoul : Text → ℕ
strtoul text = converted (scan_int text)

abbrev pub one_on : Option ℕ → Option ℕ
one_on none = none
one_on (some i) = some (suc i)

-- the position of the first newline
unfoldable pub newline : Text → Option ℕ
newline [] = none
newline (c ∷ text) = let later = one_on (newline text) in if c == b'\n' then some 0 else later

abbrev pub after_newline : Text → Option ℕ → Result (Text × ℕ)
after_newline buf none = fail einval
after_newline buf (some i) =
    if not (i == 64)
    then fail einval
    else (hex_digits (take 64 buf) >>= λ sha. ok (sha, strtoul (drop 65 buf)))

unfoldable pub parse_hash : Text → Result (Text × ℕ)
parse_hash bytes =
    if ltb (length bytes) 65
    then fail einval
    else after_newline (c_string bytes) (newline (c_string bytes))

module _ (S : Type 0) (fs : Fs Text S) (root : Text) where
  abbrev pub replaced : Text → Ret × S → Ret × S
  replaced tmp (err e, s) = (err e, (fs.unlink tmp s).1)
  replaced tmp (val n, s) = (val n, s)

  abbrev pub closed : Text → Text → Text → Ret → S → Ret × S
  closed path tmp line (err e) s = (err e, (fs.unlink tmp s).1)
  closed path tmp line (val n) s =
      if not (n == length line)
      then (err eio, (fs.unlink tmp s).1)
      else replaced tmp (fs.rename tmp path (fs.unlink path s).1)

  abbrev pub written : Text → Text → Text → Ret × S → Ret × S
  written path tmp line (ret, s) = closed path tmp line ret (fs.close tmp s).1

  abbrev pub opened : Text → Text → Text → Ret × S → Ret × S
  opened path tmp line (err e, s) = (err e, s)
  opened path tmp line (val n, s) = written path tmp line (fs.write_over tmp line s)

  unfoldable pub save_content_hash : Text → Text → ℕ → S → Ret × S
  save_content_hash id sha256_hex byte_size s =
      let path = content_hash_path root id in
      let tmp = path ++ codes ".tmp" in
      if not (length sha256_hex == 64)
      then (err einval, s)
      else if leb 320 (length path + 5)
      then (err enomem, s)
      else opened path tmp (hash_text sha256_hex byte_size) (fs.open_write tmp s)

  -- the digits and the size; `cap` is 0 for a buffer that is not there
  unfoldable pub load_content_hash : Text → ℕ → S → Result (Text × ℕ) × S
  load_content_hash id cap s =
      if ltb cap 65
      then (fail einval, s)
      else (let r = read_file Text S fs (content_hash_path root id) 95 s in
          (r.0 >>= parse_hash, r.1))

  abbrev pub looked : Text → Ret × S → Ret × S
  looked path (err e, s) = if is_enoent e then fs.mkdir path s else (err e, s)
  looked path (val n, s) = (if fs.is_dir path s then val 0 else err enotdir, s)

  unfoldable pub ensure_dir : Text → S → Ret × S
  ensure_dir path s = looked path (fs.stat path s)

  abbrev pub images_ensured : Ret × S → Ret × S
  images_ensured (err e, s) = (err e, s)
  images_ensured (val n, s) = ensure_dir (printed 300 (root ++ codes "/images")) s

-- the new root, in a buffer of 256 bytes: an empty text leaves it
abbrev pub new_root : Text → Text → Text
new_root root [] = root
new_root root (c ∷ dir) = take 255 (c ∷ dir)

unfoldable pub init : (S : Type 0) → Fs Text S → Text → Text → S → Text × (Ret × S)
init S fs root root_dir s =
    let dir = new_root root root_dir in (dir, images_ensured S fs dir (ensure_dir S fs dir dir s))
