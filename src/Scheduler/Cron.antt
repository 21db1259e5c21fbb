-- ===== src/Scheduler/Cron.antt =====
-- eink_scheduler_core.c: `eink_cron_next_run` and `eink_cron_next_after`. A C string is the list of
-- its bytes without the 0; the numbers that `sscanf` reads are not bounded (a value that does not
-- fit an `int` is undefined in C).
pub mod Next
use mender_rt1180_zephyr.Prelude.{
  ℕ, ◌+◌, ◌-◌, ◌*◌, Bool, true, false, ◌&&◌, ◌||◌, List, [], ◌∷◌, Option, none, some, ltb, leb,
  ◌==◌, if◌then◌else◌,
}
use mender_rt1180_zephyr.Prelude.Int.{ℤ, pos, negsuc, pos_part, ◌+ℤ◌, ◌-ℤ◌, is_neg, ltb_ℤ}
use mender_rt1180_zephyr.Scheduler.Civil.{unix_to_ymd_hms, ymd_hms_to_unix}

abbrev pub is_space : ℕ → Bool
is_space c = (c == b' ') || (leb 9 c && leb c 13)

abbrev pub is_digit : ℕ → Bool
is_digit c = leb b'0' c && leb c b'9'

unfoldable pub skip_space : List ℕ → List ℕ
skip_space [] = []
skip_space (c ∷ text) = if is_space c then skip_space text else c ∷ text

unfoldable pub digits : ℕ → List ℕ → ℕ × List ℕ
digits acc [] = (acc, [])
digits acc (c ∷ text) =
    let rest = digits (acc * 10 + (c - b'0')) text in if is_digit c then rest else (acc, c ∷ text)

-- at least one digit
unfoldable pub number : List ℕ → Option (ℕ × List ℕ)
number [] = none
number (c ∷ text) = if is_digit c then some (digits 0 (c ∷ text)) else none

abbrev pub negated : Option (ℕ × List ℕ) → Option (ℤ × List ℕ)
negated none = none
negated (some (n, rest)) = some (pos 0 -ℤ pos n, rest)

abbrev pub plain : Option (ℕ × List ℕ) → Option (ℤ × List ℕ)
plain none = none
plain (some (n, rest)) = some (pos n, rest)

unfoldable pub signed : List ℕ → Option (ℤ × List ℕ)
signed [] = none
signed (c ∷ text) =
    if c == b'-'
    then negated (number text)
    else if c == b'+'
    then plain (number text)
    else plain (number (c ∷ text))

-- `%d`
unfoldable pub scan_int : List ℕ → Option (ℤ × List ℕ)
unfolding signed
scan_int text = signed (skip_space text)

abbrev second_field : ℤ → Option (ℤ × List ℕ) → Option (ℤ × ℤ)
second_field minute none = none
second_field minute (some (hour, rest)) = some (minute, hour)

two_fields : Option (ℤ × List ℕ) → Option (ℤ × ℤ)
two_fields none = none
two_fields (some (minute, rest)) = second_field minute (scan_int rest)

-- `sscanf(cron, "%d %d", &minute, &hour)`; `none` for fewer than two conversions
unfoldable pub scan_cron : List ℕ → Option (ℤ × ℤ)
unfolding two_fields
scan_cron cron = two_fields (scan_int cron)

out_of_range : ℤ → ℤ → Bool
out_of_range minute hour =
    ltb_ℤ minute (pos 0) || ltb_ℤ (pos 59) minute || ltb_ℤ hour (pos 0) || ltb_ℤ (pos 23) hour

-- After the range test the fields are not negative.
unfoldable pub next_run_at : Option (ℤ × ℤ) → ℤ → ℤ
unfolding out_of_range
next_run_at none now = now +ℤ pos 3600
next_run_at (some (minute, hour)) now =
    if out_of_range minute hour
    then now +ℤ pos 3600
    else (let c = unix_to_ymd_hms now in
        ymd_hms_to_unix c.year c.month c.day (pos_part hour) (pos_part minute) 0)

unfoldable pub cron_next_run : Option (List ℕ) → ℤ → ℤ
cron_next_run none now = now +ℤ pos 3600
cron_next_run (some cron) now = next_run_at (scan_cron cron) now

unfoldable pub cron_next_after : Option (List ℕ) → ℤ → ℤ
cron_next_after cron now =
    let today = cron_next_run cron now in if ltb_ℤ now today then today else today +ℤ pos 86400
