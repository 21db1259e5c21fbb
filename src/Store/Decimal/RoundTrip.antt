-- ===== src/Store/Decimal/RoundTrip.antt =====
-- A number that is printed is the number that `strtoll` reads.
use mender_rt1180_zephyr.Prelude.{
  ℕ, zero, suc, ◌+◌, ◌-◌, ◌*◌, ◌/◌, ◌%◌, ◌<◌, ◌≡◌, refl, ap, ◌∙◌, sym, arith, true, false,
  Bool-cases, inl, inr, ltb, List, ◌∷◌, some,
}
use mender_rt1180_zephyr.Prelude.Int.{ℤ, pos, negsuc, ltb_ℤ, ◌-ℤ◌}
use mender_rt1180_zephyr.Scheduler.Cron.{
  is_digit, skip_space, digits, number, plain, negated, signed, scan_int,
}
use mender_rt1180_zephyr.Store.Decimal.{
  show_digits, max_digits, show_int, llong_min, llong_max, converted, strtoll,
}

abbrev tens : ℕ → ℕ
tens zero = 1
tens (suc k) = 10 * tens k

number_digit :
    (d n : ℕ) (text : List ℕ)
    → is_digit d ≡ true
    → n ≡ d - b'0'
    → number (d ∷ text) ≡ some (digits n text)
unfolding number digits
number_digit d n text h e = let v : 0 * 10 + (d - b'0') ≡ n = omega arith in rw (h, v) refl

digits_digit :
    (q d n : ℕ) (text : List ℕ)
    → is_digit d ≡ true
    → q * 10 + (d - b'0') ≡ n
    → digits q (d ∷ text) ≡ digits n text
unfolding digits
digits_digit q d n text h v = rw (h, v) refl

-- with a digit for every power of ten
number-show_digits :
    (k n : ℕ) (text : List ℕ)
    → n < 10 * tens k
    → number (show_digits (suc k) n text) ≡ some (digits n text)
unfolding show_digits
number-show_digits zero n text h =
    let one : ltb n 10 ≡ true = ground arith in
    rw one (number_digit (b'0' + n) n text (ground arith) (omega arith))
number-show_digits (suc k) n text h = elim (Bool-cases (ltb n 10)) [
  | inl one ↦ rw one (number_digit (b'0' + n) n text (ground arith) (omega arith))
  | inr several ↦ rw several (
      number-show_digits k (n / 10) ((b'0' + n % 10) ∷ text) (omega arith)
      ∙ ap some (digits_digit (n / 10) (b'0' + n % 10) n text (ground arith) (omega arith)))
]

-- the first of the digits
show_digits_head :
    (k n : ℕ) (text : List ℕ)
    → n < 10 * tens k
    → (d : ℕ) × (rest : List ℕ) × (show_digits (suc k) n text ≡ d ∷ rest) × (is_digit d ≡ true)
unfolding show_digits
show_digits_head zero n text h =
    let one : ltb n 10 ≡ true = ground arith in (b'0' + n, text, rw one refl, ground arith)
show_digits_head (suc k) n text h = elim (Bool-cases (ltb n 10)) [
  | inl one ↦ (b'0' + n, text, rw one refl, ground arith)
  | inr several ↦ rw several (show_digits_head k (n / 10) ((b'0' + n % 10) ∷ text) (omega arith))
]

-- A digit is no sign and no space.
scan_int-digit :
    (d : ℕ) (text : List ℕ) → is_digit d ≡ true → scan_int (d ∷ text) ≡ plain (number (d ∷ text))
unfolding scan_int signed skip_space
scan_int-digit d text h = ground arith

digits_end : (n c : ℕ) (text : List ℕ) → is_digit c ≡ false → digits n (c ∷ text) ≡ (n, c ∷ text)
unfolding digits
digits_end n c text h = rw h refl

minus : (text : List ℕ) → scan_int (b'-' ∷ text) ≡ negated (number text)
unfolding scan_int signed skip_space
minus text = refl

negated_lem : (n : ℕ) → pos 0 -ℤ pos (suc n) ≡ negsuc n
unfolding ◌-ℤ◌
negated_lem n = ground arith

scan_int-show_int :
    (v : ℤ) (c : ℕ) (text : List ℕ)
    → is_digit c ≡ false
    → ltb_ℤ v llong_min ≡ false
    → ltb_ℤ llong_max v ≡ false
    → scan_int (show_int v (c ∷ text)) ≡ some (v, c ∷ text)
unfolding show_int
scan_int-show_int (pos n) c text end low high =
    let small : n < 10 * tens 19 = ground arith in
    let (d, rest, e, dig) = show_digits_head 19 n (c ∷ text) small in
    ap scan_int e
    ∙ scan_int-digit d rest dig
    ∙ ap plain (ap number (sym e) ∙ number-show_digits 19 n (c ∷ text) small)
    ∙ ap (λ z. plain (some z)) (digits_end n c text end)
scan_int-show_int (negsuc n) c text end low high =
    let small : suc n < 10 * tens 19 = ground arith in
    minus (show_digits max_digits (suc n) (c ∷ text))
    ∙ ap negated (number-show_digits 19 (suc n) (c ∷ text) small)
    ∙ ap (λ z. negated (some z)) (digits_end (suc n) c text end)
    ∙ ap (λ w. some (w, c ∷ text)) (negated_lem n)

-- A `long long` that is printed in front of no digit is read again.
pub strtoll-show_int :
    (v : ℤ) (c : ℕ) (text : List ℕ)
    → is_digit c ≡ false
    → ltb_ℤ v llong_min ≡ false
    → ltb_ℤ llong_max v ≡ false
    → strtoll (show_int v (c ∷ text)) ≡ v
unfolding strtoll
strtoll-show_int v c text end low high =
    ap converted (scan_int-show_int v c text end low high) ∙ rw (low, high) refl
