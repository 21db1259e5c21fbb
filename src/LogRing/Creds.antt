-- ===== src/LogRing/Creds.antt =====
-- eink_log_ring.c: a line with "eink cred" in it leaves no trace of its contents.
use mender_rt1180_zephyr.Prelude.{
  ℕ, zero, suc, ◌+◌, ◌≤◌, ◌<◌, ◌≡◌, refl, ap, ◌∙◌, true, false, List, [], ◌∷◌, ◌++◌, some, arith,
  ◌==◌, length, length-append,
}
use mender_rt1180_zephyr.LogRing.Redact.{
  kill, has_creds, creds_here, creds_keyword, matches, redact_line, find_line, redact_lines,
  redact_inplace,
}

abbrev pub NoFeed : List ℕ → Type 0
NoFeed [] = Unit {0}
NoFeed (c ∷ line) = ((c == b'\n') ≡ false) × NoFeed line

-- no line feed in it, and no 0 at its head
abbrev pub IsLine : List ℕ → Type 0
IsLine [] = Unit {0}
IsLine (c ∷ line) = ((c == 0) ≡ false) × NoFeed (c ∷ line)

-- Whole lines, each with its line feed.
abbrev pub join : List (List ℕ) → List ℕ → List ℕ
join [] rest = rest
join (line ∷ lines) rest = line ++ b'\n' ∷ join lines rest

abbrev pub AllLines : List (List ℕ) → Type 0
AllLines [] = Unit {0}
AllLines (line ∷ lines) = IsLine line × AllLines lines

find_line-feed :
    (line rest : List ℕ) → NoFeed line → find_line (line ++ b'\n' ∷ rest) ≡ some (line, rest)
unfolding find_line
find_line-feed [] rest h = refl
find_line-feed (c ∷ line) rest h = rw (h.0, find_line-feed line rest h.1)

-- One round takes one line.
redact_lines-line :
    (fuel : ℕ) (line rest : List ℕ)
    → IsLine line
    → redact_lines (suc fuel) (line ++ b'\n' ∷ rest)
      ≡ redact_line line ++ b'\n' ∷ redact_lines fuel rest
unfolding redact_lines
redact_lines-line fuel [] rest h = rw (find_line-feed [] rest tt)
redact_lines-line fuel (c ∷ line) rest h = rw (h.0, find_line-feed (c ∷ line) rest h.1)

redact_line_creds :
    (line : List ℕ)
    → 9 ≤ length line
    → has_creds line ≡ true
    → redact_line line ≡ kill (length line)
unfolding redact_line
redact_line_creds line h k = ground arith

matches-length :
    (pattern : List (ℕ × ℕ)) (text : List ℕ)
    → matches pattern text ≡ true
    → length pattern ≤ length text
unfolding matches
matches-length [] text h = omega arith
matches-length ((lower, upper) ∷ pattern) [] h = absurd (cc)
matches-length ((lower, upper) ∷ pattern) (c ∷ text) h = ground (arith, matches-length pattern text)

-- The keyword takes nine bytes.
creds_here-length : (line : List ℕ) → creds_here line ≡ true → 9 ≤ length line
unfolding creds_here
creds_here-length line h = matches-length creds_keyword line h

has_creds-length : (line : List ℕ) → has_creds line ≡ true → 9 ≤ length line
unfolding has_creds
has_creds-length [] h = absurd (cc)
has_creds-length (c ∷ line) h = ground (arith, creds_here-length (c ∷ line), has_creds-length line)

redact_lines_hides :
    (fuel : ℕ) (before : List (List ℕ)) (line secret rest : List ℕ)
    → length before < fuel
    → AllLines before
    → IsLine line
    → IsLine secret
    → length line ≡ length secret
    → has_creds line ≡ true
    → has_creds secret ≡ true
    → redact_lines fuel (join before (line ++ b'\n' ∷ rest))
      ≡ redact_lines fuel (join before (secret ++ b'\n' ∷ rest))
redact_lines_hides zero before line secret rest f a l s e cl cs = absurd (omega arith)
redact_lines_hides (suc fuel) [] line secret rest f a l s e cl cs = rw (
  redact_lines-line fuel line rest l,
  redact_lines-line fuel secret rest s,
  redact_line_creds line (has_creds-length line cl) cl,
  redact_line_creds secret (has_creds-length secret cs) cs,
  e,
)
redact_lines_hides (suc fuel) (b ∷ before) line secret rest f a l s e cl cs = rw (
  redact_lines-line fuel b (join before (line ++ b'\n' ∷ rest)) a.0,
  redact_lines-line fuel b (join before (secret ++ b'\n' ∷ rest)) a.0,
  redact_lines_hides fuel before line secret rest (omega arith) a.1 l s e cl cs,
)

length-join :
    (before : List (List ℕ)) (rest : List ℕ)
    → length before + length rest ≤ length (join before rest)
length-join [] rest = omega arith
length-join (line ∷ before) rest =
    omega (arith, length-append line (b'\n' ∷ join before rest), length-join before rest)

length-join_eq :
    (before : List (List ℕ)) (xs ys : List ℕ)
    → length xs ≡ length ys
    → length (join before xs) ≡ length (join before ys)
length-join_eq [] xs ys e = e
length-join_eq (line ∷ before) xs ys e = omega (
  arith,
  length-append line (b'\n' ∷ join before xs),
  length-append line (b'\n' ∷ join before ys),
  length-join_eq before xs ys e,
)

-- Two buffers that differ in one line alone, of the same length and with "eink cred" in it in both,
-- are the same after redaction: the redacted text tells nothing else of that line. The lines before
-- it are any lines that do not start with a 0 byte.
pub redact_inplace_hides :
    (before : List (List ℕ)) (line secret rest : List ℕ)
    → AllLines before
    → IsLine line
    → IsLine secret
    → length line ≡ length secret
    → has_creds line ≡ true
    → has_creds secret ≡ true
    → redact_inplace (some (join before (line ++ b'\n' ∷ rest)))
      ≡ redact_inplace (some (join before (secret ++ b'\n' ∷ rest)))
unfolding redact_inplace
redact_inplace_hides before line secret rest a l s e cl cs =
    let same : length (line ++ b'\n' ∷ rest) ≡ length (secret ++ b'\n' ∷ rest) =
      omega (arith, length-append line (b'\n' ∷ rest), length-append secret (b'\n' ∷ rest)) in
    let fuel = length (join before (line ++ b'\n' ∷ rest)) in
    ap some (
      redact_lines_hides fuel before line secret rest
        (omega
          (arith, length-join before (line ++ b'\n' ∷ rest), length-append line (b'\n' ∷ rest)))
        a l s e cl cs
      ∙ ap (λ n. redact_lines n (join before (secret ++ b'\n' ∷ rest)))
          (length-join_eq before (line ++ b'\n' ∷ rest) (secret ++ b'\n' ∷ rest) same))
