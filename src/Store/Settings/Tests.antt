-- ===== src/Store/Settings/Tests.antt =====
-- Runs of the settings on a file system that keeps a file by its path.
use mender_rt1180_zephyr.Prelude.{◌≡◌, refl, val, ok, codes}
use mender_rt1180_zephyr.Prelude.Int.{negsuc}
use mender_rt1180_zephyr.Fs.Medium.{Flash, flash, flash-Lawful, flash-Readable, blank}
use mender_rt1180_zephyr.Store.Reader.{Text, read_file}
use mender_rt1180_zephyr.Store.Atomic.{write_file}
use mender_rt1180_zephyr.Store.Decimal.{show_digits, show_int}
use mender_rt1180_zephyr.Store.Settings.{
  last_sync_text, state_text, sync_path, state_path, save_last_sync, save_state, load_last_sync,
}
use mender_rt1180_zephyr.Store.Settings.RoundTrip.{load_last_sync-save_last_sync}

abbrev root : Text
root = codes "/lfs1/eink"

abbrev synced : Flash
synced = (save_last_sync Flash flash root (negsuc 104) blank).1

last_sync_text_run : last_sync_text (negsuc 104) ≡ codes "{\"last_sync_unix\":-105}\n"
unfolding show_int show_digits
last_sync_text_run = refl

synced_lem : (save_last_sync Flash flash root (negsuc 104) blank).0 ≡ val 0
unfolding save_last_sync write_file show_int show_digits
synced_lem = refl

synced_stat : (flash.stat (sync_path root) synced).0 ≡ val 0
unfolding save_last_sync write_file show_int show_digits
synced_stat = refl

synced_read :
    (read_file Text Flash flash (sync_path root) 95 (flash.stat (sync_path root) synced).1).0
    ≡ ok (last_sync_text (negsuc 104))
unfolding save_last_sync write_file show_int show_digits read_file
synced_read = refl

load_last_sync-save_last_sync_example : (load_last_sync Flash flash root synced).0 ≡ ok (negsuc 104)
load_last_sync-save_last_sync_example =
    load_last_sync-save_last_sync Flash flash flash-Lawful flash-Readable root (negsuc 104) blank 0
      (last_sync_text (negsuc 104)) refl refl synced_lem synced_stat synced_read

abbrev shown : Flash
shown = (save_state Flash flash root (codes "job-7") blank).1

shown_lem : (save_state Flash flash root (codes "job-7") blank).0 ≡ val 0
unfolding save_state write_file
shown_lem = refl

shown_stat : (flash.stat (state_path root) shown).0 ≡ val 0
unfolding save_state write_file
shown_stat = refl

shown_read :
    (read_file Text Flash flash (state_path root) 255 (flash.stat (state_path root) shown).1).0
    ≡ ok (state_text (codes "job-7"))
unfolding save_state write_file read_file
shown_read = refl
