-- ===== src/OtaStage/Again.antt =====
-- eink_ota_stage.c: a write that is cut short and then repeated.
use mender_rt1180_zephyr.Prelude.{
  ℕ, ◌<◌, take_all, ◌==◌, ◌≡◌, refl, ap, ◌∙◌, sym, arith, true, false, List, [], ◌∷◌, ◌++◌, take,
  some, Bool-cases, inl, inr, length, Ret, val, err, eio,
}
use mender_rt1180_zephyr.Crc.{Crc}
use mender_rt1180_zephyr.Fs.{Fs, Lawful}
use mender_rt1180_zephyr.OtaStage.{FilePath, staged_tmp, Stage, appended, counted, stage_write}

module _ (c : Crc) (S : Type 0) (fs : Fs FilePath S) where
  write_open :
      (x : ℕ) (bytes : List ℕ) (g : Stage) (s : S)
      → g.writing ≡ true
      → stage_write c S fs (some (x ∷ bytes)) (g, s)
        ≡ appended c S fs g (x ∷ bytes) (fs.write staged_tmp (x ∷ bytes) s)
  unfolding stage_write
  write_open x bytes g s w = rw w refl

  appended_short :
      (g : Stage) (bytes : List ℕ) (r : Ret × S) (k : ℕ)
      → r.0 ≡ val k
      → k < length bytes
      → appended c S fs g bytes r ≡ (err eio, (g, r.1))
  appended_short g bytes (err e, s) k h short = absurd (cc)
  appended_short g bytes (val n, s) k h short =
      let same : n ≡ k = ground arith in
      let other : n == length bytes ≡ false = ground arith in rw other refl

  appended_all :
      (g : Stage) (bytes : List ℕ) (r : Ret × S)
      → (appended c S fs g bytes r).0 ≡ val 0
      → (r.0 ≡ val (length bytes))
        × (appended c S fs g bytes r ≡ (val 0, (counted c S fs g bytes, r.1)))
  appended_all g bytes (err e, s) ok = absurd (cc)
  appended_all g bytes (val n, s) ok = elim (Bool-cases (n == length bytes)) [
    | inl all ↦ let same : n ≡ length bytes = ground arith in (ap val same, rw all refl)
    | inr short ↦
        let refused : (appended c S fs g bytes (val n, s)).0 ≡ err eio = rw short refl in
        absurd (cc)
  ]

  -- While a download is open, on a lawful file system, a write of which only `k` bytes are taken and
  -- that then succeeds when it is repeated leaves those bytes and the whole in the file, and only
  -- the whole in the checksum.
  pub stage_write_again :
      (bytes old : List ℕ) (g : Stage) (s : S) (k : ℕ)
      → Lawful FilePath S fs
      → g.writing ≡ true
      → fs.content s staged_tmp ≡ some old
      → k < length bytes
      → (fs.write staged_tmp bytes s).0 ≡ val k
      → let m = (stage_write c S fs (some bytes) (g, s)).1 in
        (stage_write c S fs (some bytes) m).0 ≡ val 0
        → let m' = (stage_write c S fs (some bytes) m).1 in
          (fs.content m'.1 staged_tmp ≡ some (old ++ take k bytes ++ bytes))
          × (m'.0.crc ≡ c.update g.crc bytes)
  stage_write_again [] old g s k law w at short h ok = absurd (omega arith)
  stage_write_again (x ∷ bytes) old g s k law w at short h ok =
      let all = x ∷ bytes in
      let r = fs.write staged_tmp all s in
      let first = write_open x bytes g s w ∙ appended_short g all r k h short in
      let held = law.write-content staged_tmp all old s k h at in
      let second = write_open x bytes g r.1 w in
      let r' = fs.write staged_tmp all r.1 in
      let whole = appended_all g all r' (
        sym (ap (λ z. z.0) second)
        ∙ (sym (ap (λ z. (stage_write c S fs (some all) z.1).0) first) ∙ ok)) in
      let final : (stage_write c S fs (some all) (stage_write c S fs (some all) (g, s)).1).1
          ≡ (counted c S fs g all, r'.1) =
        ap (λ z. (stage_write c S fs (some all) z.1).1) first ∙ ap (λ z. z.1) (second ∙ whole.1) in
      (
        ap (λ z. fs.content z.1 staged_tmp) final
            ∙ law.write-content staged_tmp all (old ++ take k all) r.1 (length all) whole.0 held
            ∙ ap (λ l. some (old ++ take k all ++ l)) (take_all (length all) all refl),
        ap (λ z. z.0.crc) final,
      )
