-- ===== src/Store/Atomic/Crash.antt =====
-- eink_store.c: a power failure in the midst of a write leaves the old file or the new one.
use mender_rt1180_zephyr.Prelude.{
  ℕ, ◌≤◌, ◌≡◌, ◌≢◌, refl, ap, ◌∙◌, sym, arith, Bool-cases, inl, inr, ◌⊎◌, List, [], ◌∷◌, length,
  take, take_all, Option, some, ◌==◌, Ret, val, err, Errno, eio,
}
use mender_rt1180_zephyr.Fs.{Fs, Lawful, Durable}
use mender_rt1180_zephyr.Store.Atomic.{
  dropped, renamed, synced, finish, written, created, write_file, note, recorded,
}

module _ (FilePath S : Type 0) (fs : Fs FilePath S) (law : Lawful FilePath S fs)
    (d : Durable FilePath S fs) (path tmp : FilePath) (apart : path ≢ tmp) (bytes : List ℕ)
    (old : Option (List ℕ)) where
  -- Every state holds the old file or the new one durably.
  abbrev pub Throughout : List S → Type 0
  Throughout [] = 0 ≤ 0
  Throughout (s ∷ past) =
      ((d.durable s path ≡ old) ⊎ (d.durable s path ≡ some bytes)) × Throughout past

  -- The call returns 0 with the new file durable, or an error with the old one.
  abbrev pub Ends : Ret × (S × List S) → Type 0
  Ends (ret, (s, past)) =
      Throughout past
      × (((ret ≡ val 0) × (d.durable s path ≡ some bytes))
          ⊎ ((e : Errno) × (ret ≡ err e) × (d.durable s path ≡ old)))

  dropped-Ends :
      (e : Errno) (s : S) (past : List S)
      → d.durable s path ≡ old
      → Throughout past
      → Ends (dropped FilePath (S × List S) (recorded FilePath S fs) tmp e (s, past))
  dropped-Ends e s past kept safe =
      let now = d.unlink_durable tmp path s apart ∙ kept in ((inl now, safe), inr (e, refl, now))

  renamed-Ends :
      (r : Ret × S) (past : List S)
      → ((n : ℕ) → r.0 ≡ val n → d.durable r.1 path ≡ some bytes)
      → ((e : Errno) → r.0 ≡ err e → d.durable r.1 path ≡ old)
      → Throughout past
      → Ends (renamed FilePath (S × List S) (recorded FilePath S fs) tmp (note past r))
  renamed-Ends (err e, s) past new kept safe =
      dropped-Ends e s (s ∷ past) (kept e refl) (inl (kept e refl), safe)
  renamed-Ends (val n, s) past new kept safe = ((inr (new n refl), safe), inl (refl, new n refl))

  synced-Ends :
      (ret : Ret) (s : S) (past : List S)
      → ((n : ℕ) → ret ≡ val n → d.durable s tmp ≡ some bytes)
      → d.durable s path ≡ old
      → Throughout past
      → Ends (synced FilePath (S × List S) (recorded FilePath S fs) path tmp ret (s, past))
  synced-Ends (err e) s past new kept safe = dropped-Ends e s past kept safe
  synced-Ends (val n) s past new kept safe =
      renamed-Ends (fs.rename tmp path s) past
        (λ k ok. d.durable-rename tmp path s k ok ∙ new n refl)
        (λ e bad. d.rename_failed tmp path s e bad ∙ kept) safe

  finish-Ends :
      (r : Ret × S) (past : List S)
      → ((n : ℕ)
          → r.0 ≡ val n
          → (d.durable r.1 tmp ≡ fs.content r.1 tmp) × (fs.content r.1 tmp ≡ some bytes))
      → d.durable r.1 path ≡ old
      → Throughout past
      → Ends (finish FilePath (S × List S) (recorded FilePath S fs) path tmp (note past r))
  finish-Ends (ret, s) past new kept safe =
      let now = d.close_durable tmp path s apart ∙ kept in
      synced-Ends ret (fs.close tmp s).1 ((fs.close tmp s).1 ∷ s ∷ past)
        (λ n ok. d.durable-close tmp s (new n ok).0 ∙ (new n ok).0 ∙ (new n ok).1) now
        (inl now, (inl kept, safe))

  written-Ends :
      (r : Ret × S) (past : List S)
      → ((n : ℕ) → r.0 ≡ val n → fs.content r.1 tmp ≡ some (take n bytes))
      → d.durable r.1 path ≡ old
      → Throughout past
      → Ends (written FilePath (S × List S) (recorded FilePath S fs) path tmp bytes (note past r))
  written-Ends (err e, s) past new kept safe =
      let now = d.close_durable tmp path s apart ∙ kept in
      dropped-Ends e (fs.close tmp s).1 ((fs.close tmp s).1 ∷ s ∷ past) now
        (inl now, (inl kept, safe))
  written-Ends (val n, s) past new kept safe =
      let now = d.close_durable tmp path s apart ∙ kept in
      elim (Bool-cases (n == length bytes)) [
        | inl all ↦
            let whole = take_all n bytes (ground arith) in
            rw all (
              finish-Ends (fs.sync tmp s) (s ∷ past)
                (λ k ok. (
                  d.durable-sync tmp s k ok ∙ sym (law.sync-content tmp tmp s),
                  law.sync-content tmp tmp s ∙ new n refl ∙ ap some whole,
                ))
                (d.sync_durable tmp path s apart ∙ kept) (inl kept, safe))
        | inr short ↦ rw short (
            dropped-Ends eio (fs.close tmp s).1 ((fs.close tmp s).1 ∷ s ∷ past) now
              (inl now, (inl kept, safe)))
      ]

  created-Ends :
      (r : Ret × S) (past : List S)
      → ((n : ℕ) → r.0 ≡ val n → fs.content r.1 tmp ≡ some [])
      → d.durable r.1 path ≡ old
      → Throughout past
      → Ends (created FilePath (S × List S) (recorded FilePath S fs) path tmp bytes (note past r))
  created-Ends (err e, s) past new kept safe = ((inl kept, safe), inr (e, refl, kept))
  created-Ends (val n, s) past new kept safe =
      written-Ends (fs.write tmp bytes s) (s ∷ past)
        (λ k ok. law.write-content tmp bytes [] s k ok (new n refl))
        (d.write_durable tmp path bytes s apart ∙ kept) (inl kept, safe)

  -- On a lawful and durable file system, with a temporary file of another path: at every step of
  -- the write a power failure leaves the old file or the new one, whole. A return of 0 means that
  -- the new one is durable, an error that the old one is.
  pub write_file-Ends :
      (s : S)
      → d.durable s path ≡ old
      → Ends (write_file FilePath (S × List S) (recorded FilePath S fs) path tmp bytes (s, []))
  unfolding write_file
  write_file-Ends s kept =
      created-Ends (fs.create tmp s) [] (law.create-content tmp s)
        (d.create_durable tmp path s apart ∙ kept) (omega arith)
