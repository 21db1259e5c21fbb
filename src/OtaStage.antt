-- ===== src/OtaStage.antt =====
-- mender-mcu-integration/src/eink/eink_ota_stage.c and eink_ota_stage.h: the staging of an update in
-- a file, on a file system and with a checksum that Zephyr provides.
pub mod Verified
pub mod Reach
pub mod Again
mod Tests
use mender_rt1180_zephyr.Prelude.{
  ℕ, ◌+◌, ◌%◌, ◌^◌, Bool, true, false, List, [], ◌∷◌, length, Option, none, some, ◌==◌,
  if◌then◌else◌, Ret, val, err, Errno, einval, eio, eilseq, enoent, enotsup, failed,
}
use mender_rt1180_zephyr.Crc.{Crc}
use mender_rt1180_zephyr.Fs.{Fs}
use mender_rt1180_zephyr.Power.{Board, Machine, iw612_set}

-- "/lfs1/ota", EINK_OTA_STAGE_PATH and EINK_OTA_STAGE_TMP
pub data FilePath : Type 0 where
  ota_dir staged staged_tmp : FilePath

pub record Status : Type 0 where
  pub staging_valid : Bool
  pub copy_in_progress : Bool
  pub staged_bytes : ℕ
  pub last_result : Ret

-- `g_st`, `g_writing` and `g_crc`
pub record Stage : Type 0 where
  pub st : Status
  pub writing : Bool
  pub crc : ℕ

abbrev pub cleared : Status
cleared = record {
  staging_valid = false;
  copy_in_progress = false;
  staged_bytes = 0;
  last_result = val 0;
}

-- a download begins
abbrev pub begun : Stage → Stage
begun g = record {
  st = record (g.st) { staging_valid = false; copy_in_progress = false; staged_bytes = 0 };
  writing = true;
  crc = 0;
}

abbrev pub with_result : Ret → Status → Status
with_result ret st = record st { last_result = ret }

-- `ret == 0`
abbrev pub is_zero : Ret → Bool
is_zero (val n) = n == 0
is_zero (err e) = false

module _ (c : Crc) (S : Type 0) (fs : Fs FilePath S) where
  abbrev made_dir : Ret × S → Ret × S
  made_dir (val n, s) = if n == 0 then (val 0, s) else fs.mkdir ota_dir s
  made_dir (err e, s) = fs.mkdir ota_dir s

  unfoldable pub ensure_ota_dir : S → Ret × S
  ensure_ota_dir s = made_dir (fs.stat ota_dir s)

  unfoldable pub init : Stage × S → Ret × (Stage × S)
  init (g, s) = let r = ensure_ota_dir s in (r.0, (record g { st = cleared }, r.1))

  abbrev opened : Stage → Ret × S → Ret × (Stage × S)
  opened g (err e, s) = (err e, (g, s))
  opened g (val n, s) = (val 0, (begun g, s))

  abbrev in_dir : Stage → Ret × S → Ret × (Stage × S)
  in_dir g (err e, s) = (err e, (g, s))
  in_dir g (val n, s) = opened g (fs.create staged_tmp s)

  -- the first call of a download opens the file
  abbrev pub begin : Stage × S → Ret × (Stage × S)
  begin (g, s) = if g.writing then (val 0, (g, s)) else in_dir g (ensure_ota_dir s)

  abbrev pub counted : Stage → List ℕ → Stage
  counted g bytes = record {
    st = record (g.st) { staged_bytes = (g.st.staged_bytes + length bytes) % 2 ^ 32 };
    writing = g.writing;
    crc = c.update g.crc bytes;
  }

  abbrev pub appended : Stage → List ℕ → Ret × S → Ret × (Stage × S)
  appended g bytes (err e, s) = (err e, (g, s))
  appended g bytes (val n, s) =
      if n == length bytes then (val 0, (counted g bytes, s)) else (err eio, (g, s))

  abbrev pub append : List ℕ → Ret × (Stage × S) → Ret × (Stage × S)
  append bytes (err e, m) = (err e, m)
  append [] (val n, m) = (val 0, m)
  append (x ∷ bytes) (val n, (g, s)) = appended g (x ∷ bytes) (fs.write staged_tmp (x ∷ bytes) s)

  -- `none` is NULL with a length that is not 0
  unfoldable pub stage_write : Option (List ℕ) → Stage × S → Ret × (Stage × S)
  stage_write none m = (err einval, m)
  stage_write (some bytes) m = append bytes (begin m)

  abbrev pub closed : Stage → Stage
  closed g = record g { writing = false }

  -- the temporary file goes, and the result is kept
  abbrev dropped : Errno → Stage → S → Ret × (Stage × S)
  dropped e g s = (err e, (record g { st = with_result (err e) g.st }, (fs.unlink staged_tmp s).1))

  abbrev pub renamed : Stage → Ret × S → Ret × (Stage × S)
  renamed g (ret, s) =
      (ret, (record g { st = record (g.st) { staging_valid = is_zero ret; last_result = ret } }, s))

  abbrev pub verified : ℕ → Stage → S → Ret × (Stage × S)
  verified expected g s =
      if g.crc == expected
      then renamed g (fs.rename staged_tmp staged (fs.unlink staged s).1)
      else dropped eilseq g s

  -- `fs_close` follows `fs_sync`, whatever it returned
  abbrev pub synced : ℕ → Stage → Ret → S → Ret × (Stage × S)
  synced expected g (err e) s = dropped e g s
  synced expected g (val n) s = verified expected g s

  unfoldable pub finish : ℕ → Stage × S → Ret × (Stage × S)
  finish expected (g, s) =
      if g.writing
      then (let r = fs.sync staged_tmp s in
          synced expected (closed g) r.0 (fs.close staged_tmp r.1).1)
      else (err einval, (g, s))

  unfoldable pub invalidate : Stage × S → Ret × (Stage × S)
  invalidate (g, s) = (
    val 0,
    (
      record g { st = record (g.st) { staging_valid = false; staged_bytes = 0 } },
      (fs.unlink staged_tmp (fs.unlink staged s).1).1,
    ),
  )

-- `eink_ota_stage_install_slot1`: the copy itself is still to be written in the source.
unfoldable pub install_slot1 : (b : Board) → Stage × Machine b → Ret × (Stage × Machine b)
install_slot1 b (g, m) =
    if g.st.staging_valid
    then (
      err enotsup,
      (
        record g { st = record (g.st) { copy_in_progress = false; last_result = err enotsup } },
        (iw612_set b false m).1,
      ),
    )
    else (err enoent, (g, m))
