-- ===== src/Lz4/Expands.antt =====
-- eink_lz4.c: an expansion that returns 0 has written what the library gave, an image of the size of
-- a file.
use mender_rt1180_zephyr.Prelude.{
  ℕ, suc, ◌+◌, ◌≡◌, refl, ◌∙◌, sym, arith, Bool, Bool-cases, inl, inr, List, [], length, Option,
  none, some, ◌==◌, Ret, val, err, einval, ok, fail,
}
use mender_rt1180_zephyr.Fs.{Fs, Lawful}
use mender_rt1180_zephyr.Frame.{file_size}
use mender_rt1180_zephyr.Lz4.{
  Lz4, Pumped, Outcome, pump, synced, pumped, started, created, sourced, read_all, decompress_file,
}
use mender_rt1180_zephyr.Lz4.Pumps.{Expands, Pumps, pump-Pumps}

module _ (FilePath S D : Type 0) (fs : Fs FilePath S) (lz : Lz4 D) (law : Lawful FilePath S fs)
    (dst : FilePath) where
  -- What a return of a value has left.
  abbrev pub Image : D → List ℕ → S → Type 0
  Image d src s =
      (image : List ℕ) × Expands lz d src image
      × (fs.content s dst ≡ some image)
      × (length image ≡ file_size)

  synced-Image :
      (image src : List ℕ) (d : D) (t n : ℕ) (r : Ret × S) (s : S)
      → Expands lz d src image
      → fs.content r.1 dst ≡ some image
      → t ≡ length image
      → synced FilePath S D fs lz dst t r ≡ (val n, s)
      → Image d src s
  synced-Image image src d t n (err e, s') s ex held count eq = absurd (cc)
  synced-Image image src d t n (val k, s') s ex held count eq = elim (Bool-cases (t == file_size)) [
    | inl full ↦
        let done : synced FilePath S D fs lz dst t (val k, s') ≡ (val 0, (fs.close dst s').1) =
          rw full refl in
        let same : (fs.close dst s').1 ≡ s = cc in
        (image, ex, rw (sym same) (law.close-content dst dst s' ∙ held), sym count ∙ ground arith)
    | inr short ↦
        let bad : (synced FilePath S D fs lz dst t (val k, s')).0 ≡ err einval = rw short refl in
        absurd (cc)
  ]

  pumped-Image :
      (src : List ℕ) (d : D) (n : ℕ) (o : Option (Pumped FilePath S D fs lz)) (s : S)
      → ((t : ℕ) (s' : S) → o ≡ some (ok t, s') → Pumps FilePath S D fs lz law dst [] d src t s')
      → pumped FilePath S D fs lz dst o ≡ some (val n, s)
      → Image d src s
  pumped-Image src d n none s h eq = absurd (cc)
  pumped-Image src d n (some (fail e, s')) s h eq = absurd (cc)
  pumped-Image src d n (some (ok t, s')) s h eq =
      let (image, ex, a) = h t s' refl in
      synced-Image image src d t n (fs.sync dst s') s ex (law.sync-content dst dst s' ∙ a.0) a.1
        (cc)

  started-Image :
      (src : List ℕ) (n : ℕ) (o : Option D) (s0 s : S)
      → fs.content s0 dst ≡ some []
      → started FilePath S D fs lz dst src o s0 ≡ some (val n, s)
      → (d : D) × (o ≡ some d) × Image d src s
  started-Image src n none s0 s h eq = absurd (cc)
  started-Image src n (some d) s0 s h eq = (
    d,
    refl,
    pumped-Image src d n (pump FilePath S D fs lz (suc (length src + file_size)) dst d src 0 s0) s
        (λ t s' e.
          pump-Pumps FilePath S D fs lz law dst (suc (length src + file_size)) [] src d s0 s' t h e)
        eq,
  )

  created-Image :
      (src : List ℕ) (n : ℕ) (r : Ret × S) (s : S)
      → ((k : ℕ) → r.0 ≡ val k → fs.content r.1 dst ≡ some [])
      → created FilePath S D fs lz dst src r ≡ some (val n, s)
      → (d : D) × (lz.create_context ≡ some d) × Image d src s
  created-Image src n (err e, s') s h eq = absurd (cc)
  created-Image src n (val k, s') s h eq = started-Image src n lz.create_context s' s (h k refl) eq

  sourced-Image :
      (n : ℕ) (r : Outcome FilePath S D fs lz) (s : S)
      → sourced FilePath S D fs lz dst r ≡ some (val n, s)
      → (src : List ℕ) × (d : D) × (r.0 ≡ ok src) × (lz.create_context ≡ some d) × Image d src s
  sourced-Image n (fail e, s') s eq = absurd (cc)
  sourced-Image n (ok src, s') s eq =
      let (d, c, i) = created-Image src n (fs.create dst s') s (law.create-content dst s') eq in
      (src, d, refl, c, i)

  -- On a lawful file system: where an expansion returns a value, the target holds what the library
  -- gives for the bytes read from the source, and that has the size of an image file.
  pub decompress_file-Expands :
      (room : Bool) (src_path : FilePath) (n : ℕ) (s0 s : S)
      → decompress_file FilePath S D fs lz room src_path dst s0 ≡ some (val n, s)
      → (src : List ℕ) × (d : D) × ((read_all FilePath S D fs lz room src_path s0).0 ≡ ok src)
        × (lz.create_context ≡ some d)
        × Image d src s
  unfolding decompress_file
  decompress_file-Expands room src_path n s0 s eq =
      sourced-Image n (read_all FilePath S D fs lz room src_path s0) s eq
