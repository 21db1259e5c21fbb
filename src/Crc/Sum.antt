-- ===== src/Crc/Sum.antt =====
-- A checksum to run the code with: the sum of the bytes.
use mender_rt1180_zephyr.Prelude.{ℕ, ◌+◌, ◌%◌, ◌^◌, ◌<◌, ◌≡◌, refl, arith, List, [], ◌∷◌, ◌++◌}
use mender_rt1180_zephyr.Crc.{Crc}

abbrev pub total : ℕ → List ℕ → ℕ
total c [] = c
total c (x ∷ xs) = total ((c + x) % 2 ^ 32) xs

pub total-total : (c : ℕ) (xs ys : List ℕ) → total (total c xs) ys ≡ total c (xs ++ ys)
total-total c [] ys = refl
total-total c (x ∷ xs) ys = total-total ((c + x) % 2 ^ 32) xs ys

pub total_lt : (c : ℕ) (xs : List ℕ) → c < 2 ^ 32 → total c xs < 2 ^ 32
total_lt c [] h = h
total_lt c (x ∷ xs) h = total_lt ((c + x) % 2 ^ 32) xs (omega arith)

abbrev pub sum : Crc
sum = record {
  ieee = total 0;
  update = total;
  ieee_lem = λ xs. refl;
  update-nil = λ c. refl;
  update-update = total-total;
  update_lt = total_lt;
}
