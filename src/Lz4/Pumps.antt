-- ===== src/Lz4/Pumps.antt =====
-- eink_lz4.c: the decompression loop writes what the library gives.
use mender_rt1180_zephyr.Prelude.{
  ℕ, zero, suc, ◌+◌, ◌≡◌, refl, ap, ◌∙◌, sym, subst, arith, true, Bool-cases, inl, inr, List, [],
  ◌∷◌, ◌++◌, append-nil, append_assoc, length, length-append, take_all, drop, Option, some, ◌==◌,
  ltb, Ret, val, err, eio, efbig, ok, fail,
}
use mender_rt1180_zephyr.Fs.{Fs, Lawful}
use mender_rt1180_zephyr.Frame.{file_size}
use mender_rt1180_zephyr.Lz4.{
  Answer, broken, gave, Lz4, io_chunk, Pumped, counted, put_block, starved, looped, decoded,
  finished, pump,
}

-- What the library gives for an input, call after call: up to the end of the frame, or of the input.
pub data Expands {D : Type 0} (lz : Lz4 D) : D → List ℕ → List ℕ → Type 0 where
  ended :
      {d d' : D} {src bytes : List ℕ} {c : ℕ}
      → lz.decompress d io_chunk src ≡ gave 0 c bytes d'
      → Expands lz d src bytes
  more :
      {d d' : D} {src bytes rest : List ℕ} {h c : ℕ}
      → lz.decompress d io_chunk src ≡ gave (suc h) c bytes d'
      → Expands lz d' (drop c src) rest
      → Expands lz d src (bytes ++ rest)
  used : {d : D} → Expands lz d [] []

module _ (FilePath S D : Type 0) (fs : Fs FilePath S) (lz : Lz4 D) (law : Lawful FilePath S fs)
    (dst : FilePath) where
  -- `bytes` have been appended to a file of `old`
  abbrev pub Appended : List ℕ → List ℕ → ℕ → S → Type 0
  Appended old bytes t s = (fs.content s dst ≡ some (old ++ bytes)) × (t ≡ length (old ++ bytes))

  counted-Appended :
      (old bytes : List ℕ) (r : Ret × S) (t : ℕ) (s : S)
      → ((n : ℕ) → r.0 ≡ val n → n ≡ length bytes → fs.content r.1 dst ≡ some (old ++ bytes))
      → counted FilePath S D fs lz (length old) (length bytes) r ≡ (ok t, s)
      → Appended old bytes t s
  counted-Appended old bytes (err e, s') t s h eq = absurd (cc)
  counted-Appended old bytes (val n, s') t s h eq = elim (Bool-cases (n == length bytes)) [
    | inl all ↦
        let done : counted FilePath S D fs lz (length old) (length bytes) (val n, s')
            ≡ (ok (length old + length bytes), s') =
          rw all refl in
        let same : s' ≡ s = cc in
        let count : length old + length bytes ≡ t = cc in
        (rw (sym same) (h n refl (ground arith)), sym count ∙ sym (length-append old bytes))
    | inr short ↦
        let bad : counted FilePath S D fs lz (length old) (length bytes) (val n, s')
            ≡ (fail eio, s') =
          rw short refl in
        absurd (cc)
  ]

  put_block-Appended :
      (old bytes : List ℕ) (s s' : S) (t : ℕ)
      → fs.content s dst ≡ some old
      → put_block FilePath S D fs lz dst bytes (length old) s ≡ (ok t, s')
      → Appended old bytes t s'
  put_block-Appended old [] s s' t h eq =
      let same : s ≡ s' = cc in
      let count : length old ≡ t = cc in rw (append-nil old, sym same, sym count) (h, refl)
  put_block-Appended old (b ∷ bytes) s s' t h eq =
      elim (Bool-cases (ltb file_size (length old + length (b ∷ bytes)))) [
        | inl big ↦
            let bad : put_block FilePath S D fs lz dst (b ∷ bytes) (length old) s
                ≡ (fail efbig, s) =
              rw big refl in
            absurd (cc)
        | inr fits ↦
            let go : put_block FilePath S D fs lz dst (b ∷ bytes) (length old) s
                ≡ counted FilePath S D fs lz (length old) (length (b ∷ bytes))
                    (fs.write dst (b ∷ bytes) s) =
              rw fits refl in
            counted-Appended old (b ∷ bytes) (fs.write dst (b ∷ bytes) s) t s'
              (λ n done all.
                law.write-content dst (b ∷ bytes) old s n done h
                ∙ ap (λ l. some (old ++ l)) (take_all n (b ∷ bytes) (sym all)))
              (sym go ∙ eq)
      ]

  -- What follows a file of `old` is what the library gives for `src`.
  abbrev pub Pumps : List ℕ → D → List ℕ → ℕ → S → Type 0
  Pumps old d src t s = (image : List ℕ) × Expands lz d src image × Appended old image t s

  looped-Pumps :
      (k : ℕ → S → Option (Pumped FilePath S D fs lz)) (h c : ℕ) (old bytes src : List ℕ) (d d' : D)
      (r : Pumped FilePath S D fs lz) (t : ℕ) (s : S)
      → lz.decompress d io_chunk src ≡ gave h c bytes d'
      → ((t' : ℕ) (s' : S) → r ≡ (ok t', s') → Appended old bytes t' s')
      → ((t' : ℕ) (s' : S)
          → Appended old bytes t' s'
          → k t' s' ≡ some (ok t, s)
          → Pumps (old ++ bytes) d' (drop c src) t s)
      → looped FilePath S D fs lz k h c bytes (drop c src) r ≡ some (ok t, s)
      → Pumps old d src t s
  looped-Pumps k h c old bytes src d d' (fail e, s') t s ans put go eq = absurd (cc)
  looped-Pumps k zero c old bytes src d d' (ok t', s') t s ans put go eq =
      let count : t' ≡ t = cc in
      let same : s' ≡ s = cc in (bytes, ended ans, rw (sym count, sym same) (put t' s' refl))
  looped-Pumps k (suc h) c old bytes src d d' (ok t', s') t s ans put go eq =
      elim (Bool-cases (starved FilePath S D fs lz c bytes (drop c src))) [
        | inl over ↦
            let bad : looped FilePath S D fs lz k (suc h) c bytes (drop c src) (ok t', s')
                ≡ some (fail eio, s') =
              rw over refl in
            absurd (cc)
        | inr on ↦
            let same : looped FilePath S D fs lz k (suc h) c bytes (drop c src) (ok t', s')
                ≡ k t' s' =
              rw on refl in
            let (image, e, a) = go t' s' (put t' s' refl) (sym same ∙ eq) in
            (bytes ++ image, more ans e, rw (sym (append_assoc old bytes image)) a)
      ]

  decoded-Pumps :
      (k : D → List ℕ → ℕ → S → Option (Pumped FilePath S D fs lz)) (old src : List ℕ) (d : D)
      (s0 s : S) (t : ℕ) (a : Answer D)
      → fs.content s0 dst ≡ some old
      → lz.decompress d io_chunk src ≡ a
      → ((old' src' : List ℕ) (d' : D) (s' : S)
          → fs.content s' dst ≡ some old'
          → k d' src' (length old') s' ≡ some (ok t, s)
          → Pumps old' d' src' t s)
      → decoded FilePath S D fs lz k dst src (length old) s0 a ≡ some (ok t, s)
      → Pumps old d src t s
  decoded-Pumps k old src d s0 s t broken held ans go eq = absurd (cc)
  decoded-Pumps k old src d s0 s t (gave h c bytes d') held ans go eq =
      looped-Pumps (λ t' s'. k d' (drop c src) t' s') h c old bytes src d d'
        (put_block FilePath S D fs lz dst bytes (length old) s0) t s ans
        (λ t' s' e. put_block-Appended old bytes s0 s' t' held e)
        (λ t' s' a e.
          go (old ++ bytes) (drop c src) d' s' a.0
            (subst (λ n. k d' (drop c src) n s' ≡ some (ok t, s)) a.1 e))
        eq

  finished-used :
      (d : D) (src : List ℕ) (t : ℕ)
      → finished FilePath S D fs lz src t ≡ true
      → Expands lz d src []
  finished-used d [] t h = used
  finished-used d (b ∷ src) t h = absurd (cc)

  pub pump-Pumps :
      (fuel : ℕ) (old src : List ℕ) (d : D) (s0 s : S) (t : ℕ)
      → fs.content s0 dst ≡ some old
      → pump FilePath S D fs lz fuel dst d src (length old) s0 ≡ some (ok t, s)
      → Pumps old d src t s
  unfolding pump
  pump-Pumps zero old src d s0 s t held eq = absurd (cc)
  pump-Pumps (suc fuel) old src d s0 s t held eq =
      elim (Bool-cases (finished FilePath S D fs lz src (length old))) [
        | inl over ↦
            let stop : pump FilePath S D fs lz (suc fuel) dst d src (length old) s0
                ≡ some (ok (length old), s0) =
              rw over refl in
            let same : s0 ≡ s = cc in
            let count : length old ≡ t = cc in
            (
              [],
              finished-used d src (length old) over,
              rw (append-nil old, sym same, sym count) (held, refl),
            )
        | inr on ↦
            let go : pump FilePath S D fs lz (suc fuel) dst d src (length old) s0
                ≡ decoded FilePath S D fs lz
                    (λ d' src' total' s'. pump FilePath S D fs lz fuel dst d' src' total' s') dst
                    src (length old) s0 (lz.decompress d io_chunk src) =
              rw on refl in
            decoded-Pumps (λ d' src' total' s'. pump FilePath S D fs lz fuel dst d' src' total' s')
              old src d s0 s t (lz.decompress d io_chunk src) held refl
              (λ old' src' d' s' h e. pump-Pumps fuel old' src' d' s' s t h e) (sym go ∙ eq)
      ]
