-- ===== src/Store/Decimal.antt =====
-- The numbers in the files of eink_store.c: `%lld`, `%u` of `snprintf`, and `strtoll`.
pub mod RoundTrip
pub mod Whole
use mender_rt1180_zephyr.Prelude.{
  ℕ, zero, suc, ◌+◌, ◌/◌, ◌%◌, ltb, if◌then◌else◌, List, ◌∷◌, Option, none, some,
}
use mender_rt1180_zephyr.Prelude.Int.{ℤ, pos, negsuc, ltb_ℤ}
use mender_rt1180_zephyr.Scheduler.Cron.{scan_int}

-- the digits of a number, in front of a text
unfoldable pub show_digits : ℕ → ℕ → List ℕ → List ℕ
show_digits zero n text = text
show_digits (suc fuel) n text =
    let longer = show_digits fuel (n / 10) ((b'0' + n % 10) ∷ text) in
    if ltb n 10 then (b'0' + n) ∷ text else longer

-- a `long long` has 19 digits at most
abbrev pub max_digits : ℕ
max_digits = 20

unfoldable pub show_int : ℤ → List ℕ → List ℕ
show_int (pos n) text = show_digits max_digits n text
show_int (negsuc n) text = b'-' ∷ show_digits max_digits (suc n) text

abbrev pub llong_max : ℤ
llong_max = pos 9223372036854775807

abbrev pub llong_min : ℤ
llong_min = negsuc 9223372036854775807

abbrev pub clamped : ℤ → ℤ
clamped v = if ltb_ℤ v llong_min then llong_min else if ltb_ℤ llong_max v then llong_max else v

abbrev pub converted : Option (ℤ × List ℕ) → ℤ
converted none = pos 0
converted (some (v, rest)) = clamped v

-- `strtoll(text, NULL, 10)`
unfoldable pub strtoll : List ℕ → ℤ
strtoll text = converted (scan_int text)
