-- ===== src/LogRing/Lines.antt =====
-- eink_log_ring.c: the redaction over the lines of a buffer.
use mender_rt1180_zephyr.Prelude.{
  ℕ, zero, suc, ◌+◌, ◌-◌, ◌≡◌, refl, List, [], ◌∷◌, Option, none, some, arith, ◌==◌, length,
  length-append, length-take, take, replicate, length-replicate, Bool-cases, inl, inr,
}
use mender_rt1180_zephyr.LogRing.Redact.{
  Cursor, seek, pass, token, mask, kill, redact_line, find_line, until_nul, from_nul, redact_lines,
  redact_inplace, redacted_text, prepend, redact_found,
}

length-mask : (k : Cursor) (line : List ℕ) → length (mask k line) ≡ length line
unfolding mask
length-mask k [] = nil_case k
  where
    nil_case : (k : Cursor) → length (mask k []) ≡ 0
    nil_case seek = refl
    nil_case _ = refl
length-mask seek (c ∷ line) = omega (arith, length-mask _ line)
length-mask (pass zero) (c ∷ line) = omega (arith, length-mask _ line)
length-mask (pass (suc n)) (c ∷ line) = omega (arith, length-mask (pass n) line)
length-mask token (c ∷ line) = omega (arith, length-mask _ line)

length-kill : (n : ℕ) → length (kill n) ≡ n
unfolding kill
length-kill n = omega (
  arith,
  length-append (take n redacted_text) (replicate (n - length redacted_text) b' '),
  length-take n redacted_text,
  length-replicate {A = ℕ} (n - length redacted_text) b' ',
)

length-redact_line : (line : List ℕ) → length (redact_line line) ≡ length line
unfolding redact_line
length-redact_line line = ground (arith, length-kill (length line), length-mask seek line)

-- The line, the line feed and the rest make up the buffer.
abbrev Cut : ℕ → Option (List ℕ × List ℕ) → Type 0
Cut n none = Unit {0}
Cut n (some (line, rest)) = n ≡ length line + 1 + length rest

Cut-prepend : (n c : ℕ) (r : Option (List ℕ × List ℕ)) → Cut n r → Cut (suc n) (prepend c r)
Cut-prepend n c none h = tt
Cut-prepend n c (some (line, rest)) h = omega arith

find_line-Cut : (buf : List ℕ) → Cut (length buf) (find_line buf)
unfolding find_line
find_line-Cut [] = tt
find_line-Cut (c ∷ buf) = elim (Bool-cases (c == b'\n')) [
  | inl e ↦ rw e (omega arith)
  | inr e ↦ rw e (Cut-prepend (length buf) c (find_line buf) (find_line-Cut buf))
]

length-until_from : (buf : List ℕ) → length (until_nul buf) + length (from_nul buf) ≡ length buf
unfolding until_nul from_nul
length-until_from [] = refl
length-until_from (c ∷ buf) = ground (arith, length-until_from buf)

length-redact_found :
    (again : List ℕ → List ℕ) (buf : List ℕ) (r : Option (List ℕ × List ℕ))
    → ((rest : List ℕ) → length (again rest) ≡ length rest)
    → Cut (length buf) r
    → length (redact_found again buf r) ≡ length buf
unfolding redact_found
length-redact_found again buf none keep cut = omega (
  arith,
  length-append (redact_line (until_nul buf)) (from_nul buf),
  length-redact_line (until_nul buf),
  length-until_from buf,
)
length-redact_found again buf (some (line, rest)) keep cut = omega (
  arith,
  length-append (redact_line line) (b'\n' ∷ again rest),
  length-redact_line line,
  keep rest,
)

length-redact_lines : (fuel : ℕ) (buf : List ℕ) → length (redact_lines fuel buf) ≡ length buf
unfolding redact_lines
length-redact_lines zero buf = refl
length-redact_lines (suc fuel) [] = refl
length-redact_lines (suc fuel) (c ∷ buf) = ground (
  arith,
  length-redact_found (redact_lines fuel) (c ∷ buf) (find_line (c ∷ buf)) (length-redact_lines fuel)
      (find_line-Cut (c ∷ buf)),
)

-- Redaction in place keeps the length of the buffer.
pub length-redact_inplace :
    (buf : List ℕ)
    → (out : List ℕ) × (redact_inplace (some buf) ≡ some out) × (length out ≡ length buf)
unfolding redact_inplace
length-redact_inplace buf =
    (redact_lines (length buf) buf, refl, length-redact_lines (length buf) buf)
