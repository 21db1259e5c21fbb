-- ===== src/Store/Reader.antt =====
-- eink_store.c: the way in which its loaders read a file: open, one read, close.
use mender_rt1180_zephyr.Prelude.{
  ℕ, List, [], ◌∷◌, ◌==◌, if◌then◌else◌, Ret, val, err, Result, ok, fail, ◌≡◌, refl, ap, ◌∙◌, sym,
  take, some,
}
use mender_rt1180_zephyr.Fs.{Fs, Lawful, Readable}

abbrev pub Text : Type 0
Text = List ℕ

-- the C string in a buffer
unfoldable pub c_string : Text → Text
c_string [] = []
c_string (c ∷ bytes) = if c == 0 then [] else c ∷ c_string bytes

module _ (FilePath S : Type 0) (fs : Fs FilePath S) where
  abbrev pub answered : Ret → Text → Result Text
  answered (err e) bytes = fail e
  answered (val n) bytes = ok bytes

  abbrev pub closed : FilePath → (Ret × Text) × S → Result Text × S
  closed path ((ret, bytes), s) = (answered ret bytes, (fs.close path s).1)

  abbrev pub opened : FilePath → ℕ → Ret × S → Result Text × S
  opened path cap (err e, s) = (fail e, s)
  opened path cap (val n, s) = closed path (fs.read path cap s)

  -- at most `cap` bytes of a file
  unfoldable pub read_file : FilePath → ℕ → S → Result Text × S
  read_file path cap s = opened path cap (fs.open_read path s)

  closed-eq-ok :
      (path : FilePath) (r : (Ret × Text) × S) (bytes : Text)
      → (closed path r).0 ≡ ok bytes
      → (n : ℕ) × (r.0.0 ≡ val n) × (r.0.1 ≡ bytes)
  closed-eq-ok path ((err e, text), s) bytes h = absurd (cc)
  closed-eq-ok path ((val n, text), s) bytes h = (n, refl, cc)

  opened-content :
      (path : FilePath) (cap : ℕ) (r : Ret × S) (held bytes : Text) (rd : Readable FilePath S fs)
      → ((n : ℕ) → r.0 ≡ val n → rd.unread r.1 path ≡ held)
      → (opened path cap r).0 ≡ ok bytes
      → bytes ≡ take cap held
  opened-content path cap (err e, s) held bytes rd h ok_ = absurd (cc)
  opened-content path cap (val n, s) held bytes rd h ok_ =
      let c = closed-eq-ok path (fs.read path cap s) bytes ok_ in
      sym c.2 ∙ (rd.read_bytes path cap c.0 s c.1).1 ∙ ap (λ l. take cap l) (h n refl)

  -- A read that succeeds gives the first `cap` bytes of the file.
  pub read_file-content :
      (path : FilePath) (cap : ℕ) (s : S) (held bytes : Text)
      → Readable FilePath S fs
      → fs.content s path ≡ some held
      → (read_file path cap s).0 ≡ ok bytes
      → bytes ≡ take cap held
  unfolding read_file
  read_file-content path cap s held bytes rd h ok_ =
      opened-content path cap (fs.open_read path s) held bytes rd
        (λ n e. rd.unread-open_read path s n held e h) ok_

  opened_keeps :
      (path q : FilePath) (cap : ℕ) (r : Ret × S)
      → Lawful FilePath S fs
      → fs.content (opened path cap r).1 q ≡ fs.content r.1 q
  opened_keeps path q cap (err e, s) law = refl
  opened_keeps path q cap (val n, s) law =
      closed_keeps (fs.read path cap s) ∙ law.read-content path q cap s
    where
      closed_keeps : (r : (Ret × Text) × S) → fs.content (closed path r).1 q ≡ fs.content r.1 q
      closed_keeps ((ret, bytes), s') = law.close-content path q s'

  pub read_file_keeps :
      (path q : FilePath) (cap : ℕ) (s : S)
      → Lawful FilePath S fs
      → fs.content (read_file path cap s).1 q ≡ fs.content s q
  unfolding read_file
  read_file_keeps path q cap s law =
      opened_keeps path q cap (fs.open_read path s) law ∙ law.open_read-content path q s
