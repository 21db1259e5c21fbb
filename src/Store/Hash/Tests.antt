-- ===== src/Store/Hash/Tests.antt =====
-- A run of the hash's load on a file system that keeps a file by its path.
use mender_rt1180_zephyr.Prelude.{◌≡◌, refl, replicate, ok, codes}
use mender_rt1180_zephyr.Fs.Medium.{Flash, flash, blank}
use mender_rt1180_zephyr.Scheduler.Cron.{scan_int, skip_space, signed, number, digits}
use mender_rt1180_zephyr.Store.Reader.{Text, c_string, read_file}
use mender_rt1180_zephyr.Store.Decimal.{show_digits}
use mender_rt1180_zephyr.Store.Hash.{
  hex_digits, newline, parse_hash, save_content_hash, load_content_hash,
}
use mender_rt1180_zephyr.Store.Hash.Hex.{IsHash, load_content_hash-IsHash}

abbrev root : Text
root = codes "/lfs1/eink"

-- a hash in upper case
abbrev upper : Text
upper = replicate 64 b'A'

abbrev hashed : Flash
hashed = (save_content_hash Flash flash root (codes "cat") upper 960032 blank).1

loaded_lem :
    (load_content_hash Flash flash root (codes "cat") 65 hashed).0 ≡ ok (replicate 64 b'a', 960032)
unfolding load_content_hash save_content_hash read_file c_string parse_hash hex_digits newline
    show_digits replicate scan_int skip_space signed number digits
loaded_lem = refl

load_content_hash-IsHash_example : IsHash (replicate 64 b'a', 960032)
load_content_hash-IsHash_example =
    load_content_hash-IsHash Flash flash root (codes "cat") 65 hashed (replicate 64 b'a', 960032)
      loaded_lem
