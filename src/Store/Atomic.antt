-- ===== src/Store/Atomic.antt =====
-- eink_store.c: the way in which `eink_store_save_last_sync`, `eink_store_save_http_creds` and
-- `eink_store_save_state` replace a file, which eink_location.c writes as `write_file_atomic`: into
-- a temporary file, which is synchronised and renamed.
pub mod Crash
pub mod Replace
use mender_rt1180_zephyr.Prelude.{
  ℕ, List, ◌∷◌, length, ◌==◌, if◌then◌else◌, Ret, val, err, Errno, eio,
}
use mender_rt1180_zephyr.Fs.{Fs}

module _ (FilePath S : Type 0) (fs : Fs FilePath S) where
  abbrev pub dropped : FilePath → Errno → S → Ret × S
  dropped tmp e s = (err e, (fs.unlink tmp s).1)

  abbrev pub renamed : FilePath → Ret × S → Ret × S
  renamed tmp (err e, s) = dropped tmp e s
  renamed tmp (val n, s) = (val 0, s)

  -- `fs_close` follows `fs_sync`, whatever it returned
  abbrev pub synced : FilePath → FilePath → Ret → S → Ret × S
  synced path tmp (err e) s = dropped tmp e s
  synced path tmp (val n) s = renamed tmp (fs.rename tmp path s)

  abbrev pub finish : FilePath → FilePath → Ret × S → Ret × S
  finish path tmp (ret, s) = synced path tmp ret (fs.close tmp s).1

  abbrev pub written : FilePath → FilePath → List ℕ → Ret × S → Ret × S
  written path tmp bytes (err e, s) = dropped tmp e (fs.close tmp s).1
  written path tmp bytes (val n, s) =
      if n == length bytes
      then finish path tmp (fs.sync tmp s)
      else dropped tmp eio (fs.close tmp s).1

  abbrev pub created : FilePath → FilePath → List ℕ → Ret × S → Ret × S
  created path tmp bytes (err e, s) = (err e, s)
  created path tmp bytes (val n, s) = written path tmp bytes (fs.write tmp bytes s)

  unfoldable pub write_file : FilePath → FilePath → List ℕ → S → Ret × S
  write_file path tmp bytes s = created path tmp bytes (fs.create tmp s)

-- The same calls on a state that keeps every state it passes through, the last one first.
abbrev pub note {ℓ κ} : {R : Type ℓ} {S : Type κ} → List S → R × S → R × (S × List S)
note past (r, s) = (r, (s, s ∷ past))

abbrev pub recorded : (FilePath S : Type 0) → Fs FilePath S → Fs FilePath (S × List S)
recorded FilePath S fs = record {
  stat = λ p h. note h.1 (fs.stat p h.0);
  is_dir = λ p h. fs.is_dir p h.0;
  size = λ p h. fs.size p h.0;
  mkdir = λ p h. note h.1 (fs.mkdir p h.0);
  open_write = λ p h. note h.1 (fs.open_write p h.0);
  write_over = λ p bytes h. note h.1 (fs.write_over p bytes h.0);
  create = λ p h. note h.1 (fs.create p h.0);
  open_read = λ p h. note h.1 (fs.open_read p h.0);
  read = λ p n h. note h.1 (fs.read p n h.0);
  seek = λ p n h. note h.1 (fs.seek p n h.0);
  write = λ p bytes h. note h.1 (fs.write p bytes h.0);
  sync = λ p h. note h.1 (fs.sync p h.0);
  close = λ p h. note h.1 (fs.close p h.0);
  unlink = λ p h. note h.1 (fs.unlink p h.0);
  rename = λ p q h. note h.1 (fs.rename p q h.0);
  content = λ h. fs.content h.0;
}
