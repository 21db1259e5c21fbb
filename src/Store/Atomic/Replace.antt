-- ===== src/Store/Atomic/Replace.antt =====
-- eink_store.c: a write that returns 0 has replaced the file.
use mender_rt1180_zephyr.Prelude.{
  ℕ, ◌≡◌, refl, ap, ◌∙◌, sym, subst, arith, Bool-cases, inl, inr, List, [], length, take, take_all,
  some, ◌==◌, Ret, val, err, eio,
}
use mender_rt1180_zephyr.Fs.{Fs, Lawful}
use mender_rt1180_zephyr.Store.Atomic.{renamed, synced, finish, written, created, write_file}

module _ (FilePath S : Type 0) (fs : Fs FilePath S) (law : Lawful FilePath S fs)
    (path tmp : FilePath) (bytes : List ℕ) where
  -- a call that returns 0 leaves the new file
  abbrev pub Replaces : Ret × S → Type 0
  Replaces r = r.0 ≡ val 0 → fs.content r.1 path ≡ some bytes

  renamed-Replaces :
      (r : Ret × S)
      → ((n : ℕ) → r.0 ≡ val n → fs.content r.1 path ≡ some bytes)
      → Replaces (renamed FilePath S fs tmp r)
  renamed-Replaces (err e, s) new ok = absurd (cc)
  renamed-Replaces (val n, s) new ok = new n refl

  synced-Replaces :
      (ret : Ret) (s : S)
      → fs.content s tmp ≡ some bytes
      → Replaces (synced FilePath S fs path tmp ret s)
  synced-Replaces (err e) s new ok = absurd (cc)
  synced-Replaces (val n) s new ok =
      renamed-Replaces (fs.rename tmp path s) (λ k e. law.rename-content tmp path s k e ∙ new) ok

  pub finish-Replaces :
      (r : Ret × S) → fs.content r.1 tmp ≡ some bytes → Replaces (finish FilePath S fs path tmp r)
  finish-Replaces (ret, s) new ok =
      synced-Replaces ret (fs.close tmp s).1 (law.close-content tmp tmp s ∙ new) ok

  written-Replaces :
      (r : Ret × S)
      → ((n : ℕ) → r.0 ≡ val n → fs.content r.1 tmp ≡ some (take n bytes))
      → Replaces (written FilePath S fs path tmp bytes r)
  written-Replaces (err e, s) new ok = absurd (cc)
  written-Replaces (val n, s) new ok = elim (Bool-cases (n == length bytes)) [
    | inl all ↦
        let whole = take_all n bytes (ground arith) in
        let same : written FilePath S fs path tmp bytes (val n, s)
            ≡ finish FilePath S fs path tmp (fs.sync tmp s) =
          rw all refl in
        subst Replaces (sym same)
          (finish-Replaces (fs.sync tmp s)
            (law.sync-content tmp tmp s ∙ new n refl ∙ ap some whole))
          ok
    | inr short ↦
        let refused : (written FilePath S fs path tmp bytes (val n, s)).0 ≡ err eio =
          rw short refl in
        absurd (cc)
  ]

  created-Replaces :
      (r : Ret × S)
      → ((n : ℕ) → r.0 ≡ val n → fs.content r.1 tmp ≡ some [])
      → Replaces (created FilePath S fs path tmp bytes r)
  created-Replaces (err e, s) new ok = absurd (cc)
  created-Replaces (val n, s) new ok =
      written-Replaces (fs.write tmp bytes s)
        (λ k e. law.write-content tmp bytes [] s k e (new n refl)) ok

  pub write_file-content :
      (s : S)
      → (write_file FilePath S fs path tmp bytes s).0 ≡ val 0
      → fs.content (write_file FilePath S fs path tmp bytes s).1 path ≡ some bytes
  unfolding write_file
  write_file-content s ok = created-Replaces (fs.create tmp s) (law.create-content tmp s) ok
