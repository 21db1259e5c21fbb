-- ===== src/OtaStage/Verified.antt =====
-- eink_ota_stage.c: what a staging that counts as valid holds.
use mender_rt1180_zephyr.Prelude.{
  ℕ, ◌≡◌, refl, ap, ◌∙◌, sym, subst, arith, true, false, List, [], ◌∷◌, ◌++◌, take, take_all,
  length, some, ◌==◌, Bool-cases, inl, inr, Ret, val, err, eio, eilseq,
}
use mender_rt1180_zephyr.Crc.{Crc}
use mender_rt1180_zephyr.Fs.{Fs, Lawful}
use mender_rt1180_zephyr.OtaStage.{
  FilePath, staged, staged_tmp, Stage, begin, opened, in_dir, append, appended, renamed, synced,
  ensure_ota_dir,
}

module _ (c : Crc) (S : Type 0) (fs : Fs FilePath S) where
  -- A download is open, and its checksum is that of the temporary file.
  abbrev pub Partial : Stage × S → Type 0
  Partial (g, s) =
      (g.writing ≡ true)
      × (g.st.staging_valid ≡ false)
      × ((sent : List ℕ) × (fs.content s staged_tmp ≡ some sent) × (g.crc ≡ c.update 0 sent))

  -- The staging is valid, and its checksum is that of the staged file.
  abbrev pub Checked : Stage × S → Type 0
  Checked (g, s) =
      (g.st.staging_valid ≡ true)
      × ((image : List ℕ) × (fs.content s staged ≡ some image) × (g.crc ≡ c.ieee image))

  -- Nothing is staged, a download is open, or the staging is valid and no download is open.
  pub data Consistent : Stage × S → Type 0 where
    idle : (g : Stage) (s : S) → g.writing ≡ false → g.st.staging_valid ≡ false → Consistent (g, s)
    downloading : (m : Stage × S) → Partial m → Consistent m
    ready : (m : Stage × S) → m.0.writing ≡ false → Checked m → Consistent m

  opened-Partial :
      (g : Stage) (r : Ret × S) (k : ℕ)
      → ((n : ℕ) → r.0 ≡ val n → fs.content r.1 staged_tmp ≡ some [])
      → (opened c S fs g r).0 ≡ val k
      → Partial (opened c S fs g r).1
  opened-Partial g (err e, s) k h ok = absurd (cc)
  opened-Partial g (val n, s) k h ok = (refl, refl, ([], h n refl, sym (c.update-nil 0)))

  in_dir-Partial :
      (g : Stage) (r : Ret × S) (k : ℕ)
      → Lawful FilePath S fs
      → (in_dir c S fs g r).0 ≡ val k
      → Partial (in_dir c S fs g r).1
  in_dir-Partial g (err e, s) k law ok = absurd (cc)
  in_dir-Partial g (val n, s) k law ok =
      opened-Partial g (fs.create staged_tmp s) k (law.create-content staged_tmp s) ok

  begin-Partial :
      (g : Stage) (s : S) (k : ℕ)
      → Lawful FilePath S fs
      → g.writing ≡ false
      → (begin c S fs (g, s)).0 ≡ val k
      → Partial (begin c S fs (g, s)).1
  begin-Partial g s k law w ok =
      let e : begin c S fs (g, s) ≡ in_dir c S fs g (ensure_ota_dir c S fs s) = rw w refl in
      subst (λ r. r.0 ≡ val k → Partial r.1) (sym e)
        (in_dir-Partial g (ensure_ota_dir c S fs s) k law) ok

  pub begun-Partial :
      (m : Stage × S) (k : ℕ)
      → Lawful FilePath S fs
      → Consistent m
      → (begin c S fs m).0 ≡ val k
      → Partial (begin c S fs m).1
  begun-Partial (g, s) k law (idle _ _ w v) ok = begin-Partial g s k law w ok
  begun-Partial (g, s) k law (downloading _ p) ok = rw p.0 (refl, p.1, p.2)
  begun-Partial (g, s) k law (ready _ w p) ok = begin-Partial g s k law w ok

  appended-Partial :
      (g : Stage) (bytes sent : List ℕ) (r : Ret × S) (k : ℕ)
      → g.writing ≡ true
      → g.st.staging_valid ≡ false
      → g.crc ≡ c.update 0 sent
      → ((n : ℕ) → r.0 ≡ val n → fs.content r.1 staged_tmp ≡ some (sent ++ take n bytes))
      → (appended c S fs g bytes r).0 ≡ val k
      → Partial (appended c S fs g bytes r).1
  appended-Partial g bytes sent (err e, s) k w v sum h ok = absurd (cc)
  appended-Partial g bytes sent (val n, s) k w v sum h ok = elim (Bool-cases (n == length bytes)) [
    | inl all ↦
        let whole = take_all n bytes (ground arith) in
        rw all (
          w,
          v,
          (
            sent ++ bytes,
            h n refl ∙ ap (λ l. some (sent ++ l)) whole,
            ap (λ k'. c.update k' bytes) sum ∙ c.update-update 0 sent bytes,
          ),
        )
    | inr short ↦
        let refused : (appended c S fs g bytes (val n, s)).0 ≡ err eio = rw short refl in
        absurd (cc)
  ]

  pub append-Partial :
      (bytes : List ℕ) (r : Ret × (Stage × S)) (k : ℕ)
      → Lawful FilePath S fs
      → ((n : ℕ) → r.0 ≡ val n → Partial r.1)
      → (append c S fs bytes r).0 ≡ val k
      → Partial (append c S fs bytes r).1
  append-Partial bytes (err e, m) k law h ok = absurd (cc)
  append-Partial [] (val n, m) k law h ok = h n refl
  append-Partial (x ∷ bytes) (val n, (g, s)) k law h ok =
      let p = h n refl in
      let sent = p.2.0 in
      appended-Partial g (x ∷ bytes) sent (fs.write staged_tmp (x ∷ bytes) s) k p.0 p.1 p.2.2
        (λ n' e. law.write-content staged_tmp (x ∷ bytes) sent s n' e p.2.1) ok

  renamed-Consistent :
      (g : Stage) (sent : List ℕ) (r : Ret × S)
      → g.writing ≡ false
      → g.crc ≡ c.update 0 sent
      → ((n : ℕ) → r.0 ≡ val n → fs.content r.1 staged ≡ some sent)
      → Consistent (renamed c S fs g r).1
  renamed-Consistent g sent (err e, s) w sum h = idle _ _ w refl
  renamed-Consistent g sent (val n, s) w sum h = elim (Bool-cases (n == 0)) [
    | inl zero_ret ↦ ready _ w (zero_ret, (sent, h n refl, sum ∙ sym (c.ieee_lem sent)))
    | inr odd ↦ idle _ _ w odd
  ]

  renamed-Checked :
      (g : Stage) (sent : List ℕ) (r : Ret × S)
      → g.crc ≡ c.update 0 sent
      → ((n : ℕ) → r.0 ≡ val n → fs.content r.1 staged ≡ some sent)
      → r.0 ≡ val 0
      → Checked (renamed c S fs g r).1
  renamed-Checked g sent (err e, s) sum h ok = absurd (cc)
  renamed-Checked g sent (val n, s) sum h ok =
      let n_zero : n ≡ 0 = ground arith in
      (ground arith, (sent, h n refl, sum ∙ sym (c.ieee_lem sent)))

  -- what the last steps of a download need of its temporary file
  abbrev pub Written : Stage → S → Type 0
  Written g s = (sent : List ℕ) × (fs.content s staged_tmp ≡ some sent) × (g.crc ≡ c.update 0 sent)

  rename-staged :
      (s : S) (sent : List ℕ) (n : ℕ)
      → Lawful FilePath S fs
      → fs.content s staged_tmp ≡ some sent
      → let t = (fs.unlink staged s).1 in
        (fs.rename staged_tmp staged t).0 ≡ val n
        → fs.content (fs.rename staged_tmp staged t).1 staged ≡ some sent
  rename-staged s sent n law h ok =
      let t = (fs.unlink staged s).1 in
      law.rename-content staged_tmp staged t n ok
      ∙ law.unlink_apart staged staged_tmp s (λ e. absurd (cc))
      ∙ h

  pub synced-Consistent :
      (expected : ℕ) (g : Stage) (ret : Ret) (s : S)
      → Lawful FilePath S fs
      → g.writing ≡ false
      → g.st.staging_valid ≡ false
      → Written g s
      → Consistent (synced c S fs expected g ret s).1
  synced-Consistent expected g (err e) s law w v p = idle _ _ w v
  synced-Consistent expected g (val n) s law w v p = elim (Bool-cases (g.crc == expected)) [
    | inl same ↦ rw same (
        renamed-Consistent g p.0 (fs.rename staged_tmp staged (fs.unlink staged s).1) w p.2
          (λ n' ok. rename-staged s p.0 n' law p.1 ok))
    | inr other ↦ rw other (idle _ _ w v)
  ]

  pub synced-Checked :
      (expected : ℕ) (g : Stage) (ret : Ret) (s : S)
      → Lawful FilePath S fs
      → Written g s
      → (synced c S fs expected g ret s).0 ≡ val 0
      → ((synced c S fs expected g ret s).1.0.crc ≡ expected)
        × Checked (synced c S fs expected g ret s).1
  synced-Checked expected g (err e) s law p ok = absurd (cc)
  synced-Checked expected g (val n) s law p ok = elim (Bool-cases (g.crc == expected)) [
    | inl same ↦
        let r = fs.rename staged_tmp staged (fs.unlink staged s).1 in
        let e : synced c S fs expected g (val n) s ≡ renamed c S fs g r = rw same refl in
        let crc : g.crc ≡ expected = ground arith in
        (
          ap (λ x. x.1.0.crc) e ∙ crc,
          subst (λ x. Checked x.1) (sym e)
              (renamed-Checked g p.0 r p.2 (λ n' h. rename-staged s p.0 n' law p.1 h)
                (sym (ap (λ x. x.0) e) ∙ ok)),
        )
    | inr other ↦
        let e : (synced c S fs expected g (val n) s).0 ≡ err eilseq = rw other refl in absurd (cc)
  ]
