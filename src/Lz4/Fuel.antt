-- ===== src/Lz4/Fuel.antt =====
-- eink_lz4.c: the fuel of the loops, for a library that makes progress.
use mender_rt1180_zephyr.Prelude.{
  ℕ, zero, suc, ◌+◌, ◌-◌, ◌≡◌, ◌≤◌, ◌<◌, refl, ap, ◌∙◌, sym, arith, Bool, false, Bool-cases, inl,
  inr, List, [], ◌∷◌, length, drop, Option, none, some, ◌==◌, ltb, Ret, val, err, eio, efbig, ok,
  fail,
}
use mender_rt1180_zephyr.Fs.{Fs}
use mender_rt1180_zephyr.Frame.{file_size}
use mender_rt1180_zephyr.Lz4.{
  Answer, broken, gave, Lz4, io_chunk, Pumped, Outcome, counted, put_block, starved, looped,
  decoded, finished, pump, pumped, started, created, sourced, gathered, joined, gather, read_all,
  decompress_file,
}

-- What is asked of a call that asks for more: it takes no more than it is given, as lz4frame.h
-- documents, and with input at hand it takes or gives a byte, of which lz4frame.h says nothing and
-- without which the loop of the source need not end.
record Progress (D : Type 0) (lz : Lz4 D) : Type 0 where
  consumed_le :
      (d d' : D) (src bytes : List ℕ) (h c : ℕ)
      → lz.decompress d io_chunk src ≡ gave (suc h) c bytes d'
      → c ≤ length src
  moves :
      (d d' : D) (b : ℕ) (src bytes : List ℕ) (h c : ℕ)
      → lz.decompress d io_chunk (b ∷ src) ≡ gave (suc h) c bytes d'
      → 1 ≤ c + length bytes

length-drop : (n : ℕ) (xs : List ℕ) → length (drop n xs) ≡ length xs - n
length-drop zero xs = omega arith
length-drop (suc n) [] = omega arith
length-drop (suc n) (x ∷ xs) = omega (arith, length-drop n xs)

module _ (FilePath S D : Type 0) (fs : Fs FilePath S) (lz : Lz4 D) (p : Progress D lz)
    (dst : FilePath) where
  -- the loop has ended
  abbrev Ends : Option (Pumped FilePath S D fs lz) → Type 0
  Ends o = (r : Pumped FilePath S D fs lz) × (o ≡ some r)

  put_block-total :
      (bytes : List ℕ) (total t : ℕ) (s s' : S)
      → total ≤ file_size
      → put_block FilePath S D fs lz dst bytes total s ≡ (ok t, s')
      → (t ≡ total + length bytes) × (t ≤ file_size)
  put_block-total [] total t s s' h eq = let same : total ≡ t = cc in (omega arith, omega arith)
  put_block-total (b ∷ bytes) total t s s' h eq =
      elim (Bool-cases (ltb file_size (total + length (b ∷ bytes)))) [
        | inl big ↦
            let bad : put_block FilePath S D fs lz dst (b ∷ bytes) total s ≡ (fail efbig, s) =
              rw big refl in
            absurd (cc)
        | inr fits ↦
            let go : put_block FilePath S D fs lz dst (b ∷ bytes) total s
                ≡ counted FilePath S D fs lz total (length (b ∷ bytes))
                    (fs.write dst (b ∷ bytes) s) =
              rw fits refl in
            let same =
              counted-total (length (b ∷ bytes)) total t (fs.write dst (b ∷ bytes) s) s'
                (sym go ∙ eq) in
            (same, ground arith)
      ]
    where
      counted-total :
          (n total t : ℕ) (r : Ret × S) (s' : S)
          → counted FilePath S D fs lz total n r ≡ (ok t, s')
          → t ≡ total + n
      counted-total n total t (err e, s) s' eq = absurd (cc)
      counted-total n total t (val k, s) s' eq = elim (Bool-cases (k == n)) [
        | inl all ↦
            let done : (counted FilePath S D fs lz total n (val k, s)).0 ≡ ok (total + n) =
              rw all refl in
            cc
        | inr short ↦
            let bad : (counted FilePath S D fs lz total n (val k, s)).0 ≡ fail eio =
              rw short refl in
            absurd (cc)
      ]

  -- not starved, the turn has moved
  moved :
      (d d' : D) (src bytes : List ℕ) (h c : ℕ)
      → lz.decompress d io_chunk src ≡ gave (suc h) c bytes d'
      → starved FilePath S D fs lz c bytes (drop c src) ≡ false
      → 1 ≤ c + length bytes
  moved d d' [] [] h zero ans on = absurd (cc)
  moved d d' [] [] h (suc c) ans on = omega arith
  moved d d' [] (x ∷ bytes) h c ans on = omega arith
  moved d d' (b ∷ src) bytes h c ans on = p.moves d d' b src bytes h c ans

  looped-Ends :
      (k : ℕ → S → Option (Pumped FilePath S D fs lz)) (h c : ℕ) (src bytes : List ℕ) (d d' : D)
      (r : Pumped FilePath S D fs lz)
      → lz.decompress d io_chunk src ≡ gave h c bytes d'
      → ((t : ℕ) (s : S) → r ≡ (ok t, s) → 1 ≤ c + length bytes → c ≤ length src → Ends (k t s))
      → Ends (looped FilePath S D fs lz k h c bytes (drop c src) r)
  looped-Ends k h c src bytes d d' (fail e, s) ans go = (_, refl)
  looped-Ends k zero c src bytes d d' (ok t, s) ans go = (_, refl)
  looped-Ends k (suc h) c src bytes d d' (ok t, s) ans go =
      elim (Bool-cases (starved FilePath S D fs lz c bytes (drop c src))) [
        | inl over ↦ ((fail eio, s), rw over refl)
        | inr on ↦
            let (r, e) =
              go t s refl (moved d d' src bytes h c ans on)
                (p.consumed_le d d' src bytes h c ans) in
            (r, rw on e)
      ]

  decoded-Ends :
      (k : D → List ℕ → ℕ → S → Option (Pumped FilePath S D fs lz)) (src : List ℕ) (d : D)
      (total : ℕ) (s : S) (a : Answer D)
      → lz.decompress d io_chunk src ≡ a
      → total ≤ file_size
      → ((d' : D) (src' : List ℕ) (t : ℕ) (s' : S)
          → t ≤ file_size
          → suc (length src' + (file_size - t)) ≤ length src + (file_size - total)
          → Ends (k d' src' t s'))
      → Ends (decoded FilePath S D fs lz k dst src total s a)
  decoded-Ends k src d total s broken ans h go = (_, refl)
  decoded-Ends k src d total s (gave hint c bytes d') ans h go =
      looped-Ends (λ t' s'. k d' (drop c src) t' s') hint c src bytes d d'
        (put_block FilePath S D fs lz dst bytes total s) ans
        (λ t s' e moved_ le.
          let (sum, fits) = put_block-total bytes total t s s' h e in
          go d' (drop c src) t s' fits (omega (arith, length-drop c src)))

  pump-Ends :
      (fuel : ℕ) (src : List ℕ) (d : D) (total : ℕ) (s : S)
      → total ≤ file_size
      → length src + (file_size - total) < fuel
      → Ends (pump FilePath S D fs lz fuel dst d src total s)
  unfolding pump
  pump-Ends zero src d total s h less = absurd (omega arith)
  pump-Ends (suc fuel) src d total s h less =
      elim (Bool-cases (finished FilePath S D fs lz src total)) [
        | inl over ↦ ((ok total, s), rw over refl)
        | inr on ↦
            let (r, e) =
              decoded-Ends (λ d' src' t s'. pump FilePath S D fs lz fuel dst d' src' t s') src d
                total s (lz.decompress d io_chunk src) refl h
                (λ d' src' t s' fits down. pump-Ends fuel src' d' t s' fits (omega arith)) in
            (r, rw on e)
      ]

  pumped-Ends :
      (o : Option (Pumped FilePath S D fs lz))
      → Ends o
      → (r : Ret × S) × (pumped FilePath S D fs lz dst o ≡ some r)
  pumped-Ends none (r, e) = absurd (cc)
  pumped-Ends (some (fail e, s)) h = (_, refl)
  pumped-Ends (some (ok t, s)) h = (_, refl)

  started-Ends :
      (src : List ℕ) (o : Option D) (s : S)
      → (r : Ret × S) × (started FilePath S D fs lz dst src o s ≡ some r)
  started-Ends src none s = (_, refl)
  started-Ends src (some d) s =
      pumped-Ends (pump FilePath S D fs lz (suc (length src + file_size)) dst d src 0 s)
        (pump-Ends (suc (length src + file_size)) src d 0 s (omega arith) (omega arith))

  sourced-Ends :
      (r : Outcome FilePath S D fs lz) → (q : Ret × S) × (sourced FilePath S D fs lz dst r ≡ some q)
  sourced-Ends (fail e, s) = (_, refl)
  sourced-Ends (ok src, s) = created_ends (fs.create dst s)
    where
      created_ends : (r : Ret × S) → (q : Ret × S) × (created FilePath S D fs lz dst src r ≡ some q)
      created_ends (err e, s') = (_, refl)
      created_ends (val n, s') = started-Ends src lz.create_context s'

  gathered_cong :
      (f g : List ℕ → S → Outcome FilePath S D fs lz) (r : (Ret × List ℕ) × S)
      → ((b : ℕ) (bytes : List ℕ) (s : S) → f (b ∷ bytes) s ≡ g (b ∷ bytes) s)
      → gathered FilePath S D fs lz f r ≡ gathered FilePath S D fs lz g r
  gathered_cong f g ((err e, bytes), s) h = refl
  gathered_cong f g ((val n, []), s) h = refl
  gathered_cong f g ((val n, b ∷ bytes), s) h =
      ap (joined FilePath S D fs lz (b ∷ bytes)) (h b bytes s)

  -- More fuel than there are bytes wanted changes nothing: the loop of `read_all` has enough.
  gather_enough :
      (fuel wanted : ℕ) (path : FilePath) (s : S)
      → wanted ≤ fuel
      → gather FilePath S D fs lz (suc fuel) path wanted s
        ≡ gather FilePath S D fs lz fuel path wanted s
  unfolding gather
  gather_enough zero zero path s h = refl
  gather_enough (suc fuel) zero path s h = refl
  gather_enough zero (suc w) path s h = absurd (omega arith)
  gather_enough (suc fuel) (suc w) path s h =
      gathered_cong
        (λ bytes s'. gather FilePath S D fs lz (suc fuel) path (suc w - length bytes) s')
        (λ bytes s'. gather FilePath S D fs lz fuel path (suc w - length bytes) s')
        (fs.read path (suc w) s)
        (λ b bytes s'. gather_enough fuel (suc w - length (b ∷ bytes)) path s' (omega arith))

  -- Where the library makes progress, an expansion ends, whatever the library gives and the file
  -- system answers.
  decompress_file-Ends :
      (room : Bool) (src_path : FilePath) (s : S)
      → (r : Ret × S) × (decompress_file FilePath S D fs lz room src_path dst s ≡ some r)
  unfolding decompress_file
  decompress_file-Ends room src_path s = sourced-Ends (read_all FilePath S D fs lz room src_path s)
