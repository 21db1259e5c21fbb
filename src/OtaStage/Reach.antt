-- ===== src/OtaStage/Reach.antt =====
-- eink_ota_stage.c: sequences of calls, and what the file of a finished download holds.
use mender_rt1180_zephyr.Prelude.{
  ℕ, ◌≡◌, refl, ap, ◌∙◌, sym, subst, true, false, List, some, val, err, einval,
}
use mender_rt1180_zephyr.Crc.{Crc}
use mender_rt1180_zephyr.Fs.{Fs, Lawful}
use mender_rt1180_zephyr.OtaStage.{
  FilePath, staged, staged_tmp, Stage, begin, stage_write, closed, synced, finish, invalidate,
}
use mender_rt1180_zephyr.OtaStage.Verified.{
  Partial, Checked, Written, Consistent, idle, downloading, ready, begun-Partial, append-Partial,
  synced-Consistent, synced-Checked,
}

module _ (c : Crc) (S : Type 0) (fs : Fs FilePath S) where
  -- A call of the module: a write that succeeds, the end of a download, or, between downloads, its
  -- invalidation.
  pub data Step (m : Stage × S) : Stage × S → Type 0 where
    wrote :
        (bytes : List ℕ)
        → (stage_write c S fs (some bytes) m).0 ≡ val 0
        → Step m (stage_write c S fs (some bytes) m).1
    finished : (expected : ℕ) → Step m (finish c S fs expected m).1
    invalidated : m.0.writing ≡ false → Step m (invalidate c S fs m).1

  pub data Reach (m : Stage × S) : Stage × S → Type 0 where
    start : Reach m m
    next : (a b : Stage × S) → Reach m a → Step a b → Reach m b

  stage_write-Consistent :
      (bytes : List ℕ) (m : Stage × S)
      → Lawful FilePath S fs
      → Consistent c S fs m
      → (stage_write c S fs (some bytes) m).0 ≡ val 0
      → Consistent c S fs (stage_write c S fs (some bytes) m).1
  unfolding stage_write
  stage_write-Consistent bytes m law h ok = downloading _ (
      append-Partial c S fs bytes (begin c S fs m) 0 law (λ n e. begun-Partial c S fs m n law h e)
        ok)

  -- the file after `fs_sync` and `fs_close`
  after_sync :
      (g : Stage) (s : S)
      → Lawful FilePath S fs
      → Partial c S fs (g, s)
      → Written c S fs (closed c S fs g) (fs.close staged_tmp (fs.sync staged_tmp s).1).1
  after_sync g s law p = (
    p.2.0,
    law.close-content staged_tmp staged_tmp (fs.sync staged_tmp s).1
        ∙ law.sync-content staged_tmp staged_tmp s
        ∙ p.2.1,
    p.2.2,
  )

  idle_finish :
      (g : Stage) (s : S) (expected : ℕ)
      → g.writing ≡ false
      → finish c S fs expected (g, s) ≡ (err einval, (g, s))
  unfolding finish
  idle_finish g s expected w = rw w refl

  open_finish :
      (g : Stage) (s : S) (expected : ℕ)
      → g.writing ≡ true
      → finish c S fs expected (g, s)
        ≡ synced c S fs expected
            (closed c S fs g)
            (fs.sync staged_tmp s).0
            (fs.close staged_tmp (fs.sync staged_tmp s).1).1
  unfolding finish
  open_finish g s expected w = rw w refl

  finish-Consistent :
      (expected : ℕ) (m : Stage × S)
      → Lawful FilePath S fs
      → Consistent c S fs m
      → Consistent c S fs (finish c S fs expected m).1
  finish-Consistent expected (g, s) law (idle _ _ w v) =
      subst (λ r. Consistent c S fs r.1) (sym (idle_finish g s expected w)) (idle g s w v)
  finish-Consistent expected (g, s) law (ready _ w p) =
      subst (λ r. Consistent c S fs r.1) (sym (idle_finish g s expected w)) (ready (g, s) w p)
  finish-Consistent expected (g, s) law (downloading _ p) =
      subst (λ r. Consistent c S fs r.1) (sym (open_finish g s expected p.0))
        (synced-Consistent c S fs expected (closed c S fs g) (fs.sync staged_tmp s).0
          (fs.close staged_tmp (fs.sync staged_tmp s).1).1 law refl p.1 (after_sync g s law p))

  Step-Consistent :
      (m m' : Stage × S)
      → Lawful FilePath S fs
      → Consistent c S fs m
      → Step m m'
      → Consistent c S fs m'
  unfolding invalidate
  Step-Consistent m m' law h (wrote bytes ok) = stage_write-Consistent bytes m law h ok
  Step-Consistent m m' law h (finished expected) = finish-Consistent expected m law h
  Step-Consistent (g, s) m' law h (invalidated w) = idle _ _ w refl

  -- Over every sequence of calls from a start with nothing staged and no download open, as long as
  -- no write fails, and an invalidation comes between downloads: whenever the staging is valid, no
  -- download is open, and the staged file has the checksum that was kept.
  pub Reach-Consistent :
      (m m' : Stage × S)
      → Lawful FilePath S fs
      → Consistent c S fs m
      → Reach m m'
      → Consistent c S fs m'
  Reach-Consistent m m' law h start = h
  Reach-Consistent m m' law h (next a _ before step) =
      Step-Consistent a m' law (Reach-Consistent m a law h before) step

  finish-Checked :
      (expected : ℕ) (m : Stage × S)
      → Lawful FilePath S fs
      → Consistent c S fs m
      → (finish c S fs expected m).0 ≡ val 0
      → ((finish c S fs expected m).1.0.crc ≡ expected)
        × Checked c S fs (finish c S fs expected m).1
  finish-Checked expected (g, s) law (idle _ _ w v) ok =
      let e = idle_finish g s expected w in absurd (cc)
  finish-Checked expected (g, s) law (ready _ w p) ok =
      let e = idle_finish g s expected w in absurd (cc)
  finish-Checked expected (g, s) law (downloading _ p) ok =
      let e = open_finish g s expected p.0 in
      let r =
        synced-Checked c S fs expected (closed c S fs g) (fs.sync staged_tmp s).0
          (fs.close staged_tmp (fs.sync staged_tmp s).1).1 law (after_sync g s law p)
          (sym (ap (λ x. x.0) e) ∙ ok) in
      (ap (λ x. x.1.0.crc) e ∙ r.0, subst (λ x. Checked c S fs x.1) (sym e) r.1)

  -- After such a sequence of calls, a `finish` that returns 0 leaves the staging valid, and the
  -- staged file with the checksum that the caller expected.
  pub finish_verifies :
      (expected : ℕ) (m m' : Stage × S)
      → Lawful FilePath S fs
      → Consistent c S fs m
      → Reach m m'
      → (finish c S fs expected m').0 ≡ val 0
      → let r = (finish c S fs expected m').1 in
        (r.0.st.staging_valid ≡ true)
        × ((image : List ℕ) × (fs.content r.1 staged ≡ some image) × (c.ieee image ≡ expected))
  finish_verifies expected m m' law h reach ok =
      let f = finish-Checked expected m' law (Reach-Consistent m m' law h reach) ok in
      (f.1.0, (f.1.1.0, f.1.1.1, sym f.1.1.2 ∙ f.0))
