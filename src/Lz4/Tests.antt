-- ===== src/Lz4/Tests.antt =====
-- Runs of the expansion, with a library that gives a file of zeros for any input.
use mender_rt1180_zephyr.Prelude.{
  ℕ, suc, ◌+◌, ◌≡◌, refl, ap, arith, true, List, [], ◌∷◌, length, some, Ret, val, err, ok,
  replicate, length-replicate, ltb, ◌==◌, false,
}
use mender_rt1180_zephyr.Frame.{file_size}
use mender_rt1180_zephyr.Store.Reader.{Text}
use mender_rt1180_zephyr.Fs.Medium.{Flash, flash, flash-Lawful, blank, set_at}
use mender_rt1180_zephyr.Lz4.{
  gave, Lz4, counted, put_block, looped, pump, pumped, gather, read_all, decompress_file,
}
use mender_rt1180_zephyr.Lz4.Expands.{Image, decompress_file-Expands}

abbrev giving : List ℕ → Lz4 ℕ
giving image = record {
  create_context = some 0;
  decompress = λ d room src. gave 0 (length src) image d;
}

abbrev packed : Text
packed = 1 ∷ []

abbrev unpacked : Text
unpacked = 2 ∷ []

abbrev before : Flash
before = record blank { now = set_at packed (some (7 ∷ [])) blank.now }

counted_all :
    (image : List ℕ) (n : ℕ) (r : Ret × Flash)
    → r.0 ≡ val n
    → n ≡ file_size
    → counted Text Flash ℕ flash (giving image) 0 n r ≡ (ok file_size, r.1)
counted_all image n (err e, s) h all = absurd (cc)
counted_all image n (val k, s) h all =
    let count : k ≡ n = cc in let same : (k == n) ≡ true = ground arith in rw same (rw all refl)

-- the file that is created, and what is written to it
abbrev made : Flash
made = (flash.create unpacked (read_all Text Flash ℕ flash (giving []) true packed before).1).1

abbrev filled : List ℕ → Flash
filled image = (flash.write unpacked image made).1

block_lem :
    (zeros : List ℕ)
    → suc (length zeros) ≡ file_size
    → put_block Text Flash ℕ flash (giving (0 ∷ zeros)) unpacked (0 ∷ zeros) 0 made
      ≡ (ok file_size, filled (0 ∷ zeros))
unfolding read_all gather
block_lem zeros h =
    let fits : ltb file_size (0 + length (0 ∷ zeros)) ≡ false = ground arith in
    rw fits
      (counted_all (0 ∷ zeros) (length (0 ∷ zeros)) (flash.write unpacked (0 ∷ zeros) made) refl h)

pump_lem :
    (zeros : List ℕ) (fuel : ℕ)
    → suc (length zeros) ≡ file_size
    → pump Text Flash ℕ flash (giving (0 ∷ zeros)) (suc fuel) unpacked 0 (7 ∷ []) 0 made
      ≡ some (ok file_size, filled (0 ∷ zeros))
unfolding pump read_all gather
pump_lem zeros fuel h =
    ap
      (looped Text Flash ℕ flash (giving (0 ∷ zeros))
        (λ t s. pump Text Flash ℕ flash (giving (0 ∷ zeros)) fuel unpacked 0 [] t s) 0 1 (0 ∷ zeros)
        [])
      (block_lem zeros h)

abbrev final : List ℕ → Flash
final image = (flash.close unpacked (flash.sync unpacked (filled image)).1).1

ran :
    (zeros : List ℕ)
    → suc (length zeros) ≡ file_size
    → decompress_file Text Flash ℕ flash (giving (0 ∷ zeros)) true packed unpacked before
      ≡ some (val 0, final (0 ∷ zeros))
unfolding decompress_file read_all gather
ran zeros h = ap (pumped Text Flash ℕ flash (giving (0 ∷ zeros)) unpacked) (pump_lem zeros 960033 h)

abbrev zeros : List ℕ
zeros = replicate 960031 0

decompress_file-Expands_example :
    (src : List ℕ) × (d : ℕ) × ((read_all Text Flash ℕ flash
        (giving (0 ∷ zeros))
        true
        packed
        before).0
      ≡ ok src)
    × ((giving (0 ∷ zeros)).create_context ≡ some d)
    × Image Text Flash ℕ flash (giving (0 ∷ zeros)) flash-Lawful unpacked d src (final (0 ∷ zeros))
decompress_file-Expands_example =
    decompress_file-Expands Text Flash ℕ flash (giving (0 ∷ zeros)) flash-Lawful unpacked true
      packed 0 before (final (0 ∷ zeros)) (ran zeros (ap suc (length-replicate 960031 0)))
