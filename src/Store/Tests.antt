-- ===== src/Store/Tests.antt =====
-- Runs of the store on a file system that keeps a file by its path.
use mender_rt1180_zephyr.Prelude.{
  ℕ, ◌≡◌, ◌≢◌, refl, arith, List, [], ◌∷◌, some, val, ok, codes, true, false,
}
use mender_rt1180_zephyr.Store.Json.{quote_append, quote_body}
use mender_rt1180_zephyr.Store.Atomic.{write_file, recorded}
use mender_rt1180_zephyr.Store.Atomic.Crash.{Ends, write_file-Ends}
use mender_rt1180_zephyr.Store.Reader.{Text, read_file}
use mender_rt1180_zephyr.Store.Creds.{
  creds_path, creds_json, piece, save_http_creds, load_http_creds,
}
use mender_rt1180_zephyr.Store.Creds.RoundTrip.{load_http_creds-save_http_creds}
use mender_rt1180_zephyr.Crc.Sum.{sum}
use mender_rt1180_zephyr.Lz4.{is_frame}
use mender_rt1180_zephyr.Store.Images.{Config, image_path, image_lz4_path}
use mender_rt1180_zephyr.Store.Accept.{accept_temp_image, unlink_if_exists}
use mender_rt1180_zephyr.Store.Accept.Installs.{Installed, accept_temp_image-Installed}
use mender_rt1180_zephyr.Fs.Medium.{
  Flash, flash, flash-Lawful, flash-Durable, durable_lem, flash-Readable, set_at, blank,
}

abbrev one : Text
one = 1 ∷ []

abbrev two : Text
two = 2 ∷ []

one_ne_two : one ≢ two
one_ne_two h = ground arith

-- a file that is durable
abbrev kept_one : Flash
kept_one = record blank {
  now = set_at one (some (1 ∷ [])) blank.now;
  kept = set_at one (some (1 ∷ [])) blank.kept;
}

write_file-Ends_example :
    Ends Text Flash flash flash-Lawful flash-Durable one two one_ne_two (9 ∷ []) (some (1 ∷ [])) (
      write_file Text
        (Flash × List Flash)
        (recorded Text Flash flash)
        one
        two
        (9 ∷ [])
        (kept_one, []))
write_file-Ends_example =
    write_file-Ends Text Flash flash flash-Lawful flash-Durable one two one_ne_two (9 ∷ [])
      (some (1 ∷ [])) kept_one (durable_lem kept_one one)

abbrev root : Text
root = codes "/lfs/eink"

-- a value with the key of another
abbrev api_base : Text
api_base = codes "a\"auth_token\":"

abbrev device_id : Text
device_id = codes "b\\"

abbrev saved_state : Flash
saved_state = (save_http_creds Flash flash root api_base device_id [] blank).1

abbrev creds_text : Text
creds_text =
    codes "{\"api_base\":\"a\\\"auth_token\\\":\",\"device_id\":\"b\\\\\",\"auth_token\":\"\"}\n"

saved_lem : (save_http_creds Flash flash root api_base device_id [] blank).0 ≡ val 0
unfolding save_http_creds creds_json piece quote_append quote_body write_file
saved_lem = refl

found_lem : (flash.stat (creds_path root) saved_state).0 ≡ val 0
unfolding save_http_creds creds_json piece quote_append quote_body write_file
found_lem = refl

read_lem :
    (read_file Text Flash flash
      (creds_path root)
      767
      (flash.stat (creds_path root) saved_state).1).0
    ≡ ok creds_text
unfolding read_file save_http_creds creds_json piece quote_append quote_body write_file
read_lem = refl

load_http_creds-save_http_creds_example :
    (load_http_creds Flash flash root 16 8 1 saved_state).0
    ≡ ok (record { api_base = api_base; device_id = device_id; auth_token = [] })
load_http_creds-save_http_creds_example =
    load_http_creds-save_http_creds Flash flash root api_base device_id [] 16 8 1 blank 0 creds_text
      flash-Lawful flash-Readable (ground arith) (ground arith) (ground arith) (omega arith)
      (omega arith) (omega arith) saved_lem found_lem read_lem

abbrev lz4_on : Config
lz4_on = record { lz4 = true; expand_on_display = true; quick_cache_check = false }

abbrev packed : List ℕ
packed = 0x04 ∷ 0x22 ∷ 0x4D ∷ 0x18 ∷ 0 ∷ 1 ∷ 2 ∷ 3 ∷ 4 ∷ 5 ∷ 6 ∷ 7 ∷ 8 ∷ 9 ∷ 10 ∷ 11 ∷ []

-- a download, and an image of the same identifier that it takes the place of
abbrev downloaded : Flash
downloaded = record blank {
  now = set_at one (some packed) (set_at (image_path root two) (some (1 ∷ [])) blank.now);
}

one_ne_es6f : one ≢ image_path root two
one_ne_es6f h = ground arith

one_ne_lz4 : one ≢ image_lz4_path root two
one_ne_lz4 h = ground arith

accepted_lem : (accept_temp_image Flash flash lz4_on sum root two one downloaded).0 ≡ val 0
unfolding accept_temp_image read_file is_frame unlink_if_exists
accepted_lem = refl

accept_temp_image-Installed_example :
    Installed Flash flash flash-Lawful flash-Readable lz4_on sum root two one one_ne_es6f one_ne_lz4
      packed
      (accept_temp_image Flash flash lz4_on sum root two one downloaded).1
accept_temp_image-Installed_example =
    accept_temp_image-Installed Flash flash flash-Lawful flash-Readable lz4_on sum root two one
      one_ne_es6f one_ne_lz4 packed downloaded 0 refl accepted_lem
