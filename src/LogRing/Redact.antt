-- ===== src/LogRing/Redact.antt =====
-- eink_log_ring.c: `eink_log_ring_redact_inplace`. The buffer is the list of its `len` bytes; the
-- byte behind it is 0, as a snapshot leaves it.
use mender_rt1180_zephyr.Prelude.{
  ℕ, zero, suc, ◌-◌, Bool, true, false, not, ◌&&◌, ◌||◌, List, [], ◌∷◌, ◌++◌, Option, none, some,
  ltb, ◌==◌, if◌then◌else◌, length, take, replicate,
}

-- `c == lower || c == upper`
abbrev is_either : ℕ → ℕ → ℕ → Bool
is_either lower upper c = (c == lower) || (c == upper)

-- Comparisons at the head of the text, a place for each pair of letters, up to the first that fails.
unfoldable pub matches : List (ℕ × ℕ) → List ℕ → Bool
matches [] text = true
matches ((lower, upper) ∷ rest) [] = false
matches ((lower, upper) ∷ rest) (c ∷ text) = is_either lower upper c && matches rest text

-- "eink cred"
abbrev pub creds_keyword : List (ℕ × ℕ)
creds_keyword =
    (b'e', b'E')
    ∷ (b'i', b'I')
    ∷ (b'n', b'N')
    ∷ (b'k', b'K')
    ∷ (b' ', b' ')
    ∷ (b'c', b'C')
    ∷ (b'r', b'R')
    ∷ (b'e', b'E')
    ∷ (b'd', b'D')
    ∷ []

-- the nine comparisons at one place
unfoldable pub creds_here : List ℕ → Bool
unfolding matches
creds_here = matches creds_keyword

-- the search through a line
unfoldable pub has_creds : List ℕ → Bool
has_creds [] = false
has_creds (c ∷ line) = creds_here (c ∷ line) || has_creds line

-- "[redacted: eink creds line]"
abbrev pub redacted_text : List ℕ
redacted_text =
    b'[' ∷ b'r' ∷ b'e' ∷ b'd' ∷ b'a' ∷ b'c' ∷ b't' ∷ b'e' ∷ b'd' ∷ b':' ∷ b' ' ∷ b'e' ∷ b'i' ∷ b'n'
    ∷ b'k' ∷ b' ' ∷ b'c' ∷ b'r' ∷ b'e' ∷ b'd' ∷ b's' ∷ b' ' ∷ b'l' ∷ b'i' ∷ b'n' ∷ b'e' ∷ b']' ∷ []

-- `memcpy` of the first part of the text, and blanks up to the length of the line
unfoldable pub kill : ℕ → List ℕ
kill line_len = take line_len redacted_text ++ replicate (line_len - length redacted_text) b' '

-- "Bearer ", the seven comparisons at `p`
unfoldable pub bearer_here : List ℕ → Bool
unfolding matches
bearer_here = matches (
    (b'b', b'B')
    ∷ (b'e', b'E')
    ∷ (b'a', b'A')
    ∷ (b'r', b'R')
    ∷ (b'e', b'E')
    ∷ (b'r', b'R')
    ∷ (b' ', b' ')
    ∷ [])

-- Where the two nested loops are: `p` is at the head (`seek`), `tok` comes after `n` more bytes of
-- the keyword (`pass n`), or `tok` is at the head (`token`).
pub data Cursor : Type 0 where
  seek : Cursor
  pass : ℕ → Cursor
  token : Cursor

-- A token ends at a blank or a carriage return, where the outer loop goes on; no keyword starts
-- with either, so that step of the outer loop moves on.
unfoldable pub mask : Cursor → List ℕ → List ℕ
mask _ [] = []
mask seek (c ∷ line) = c ∷ mask (if bearer_here (c ∷ line) then pass 6 else seek) line
mask (pass zero) (c ∷ line) =
    let stop = (c == b' ') || (c == b'\r') in
    (if stop then c else b'x') ∷ mask (if stop then seek else token) line
mask (pass (suc n)) (c ∷ line) = c ∷ mask (pass n) line
mask token (c ∷ line) =
    let stop = (c == b' ') || (c == b'\r') in
    (if stop then c else b'x') ∷ mask (if stop then seek else token) line

-- what becomes of one line
unfoldable pub redact_line : List ℕ → List ℕ
redact_line line =
    if not (ltb (length line) 9) && has_creds line then kill (length line) else mask seek line

abbrev pub prepend : ℕ → Option (List ℕ × List ℕ) → Option (List ℕ × List ℕ)
prepend c none = none
prepend c (some (line, rest)) = some (c ∷ line, rest)

-- `memchr (line, '\n', end - line)`: what stands before the first line feed, and after it.
unfoldable pub find_line : List ℕ → Option (List ℕ × List ℕ)
find_line [] = none
find_line (c ∷ buf) = if c == b'\n' then some ([], buf) else prepend c (find_line buf)

-- the bytes up to the first 0, `strlen (line)` of them, and from there on
unfoldable pub until_nul : List ℕ → List ℕ
until_nul [] = []
until_nul (c ∷ buf) = if c == 0 then [] else c ∷ until_nul buf

unfoldable pub from_nul : List ℕ → List ℕ
from_nul [] = []
from_nul (c ∷ buf) = if c == 0 then c ∷ buf else from_nul buf

-- a round of the loop, by what `memchr` found; `again` is the rest of the loop
unfoldable pub redact_found : (List ℕ → List ℕ) → List ℕ → Option (List ℕ × List ℕ) → List ℕ
redact_found again buf none = redact_line (until_nul buf) ++ from_nul buf
redact_found again buf (some (line, rest)) = redact_line line ++ b'\n' ∷ again rest

-- the loop over the lines, with a bound on their number
unfoldable pub redact_lines : ℕ → List ℕ → List ℕ
unfolding redact_found
redact_lines zero buf = buf
redact_lines (suc fuel) [] = []
redact_lines (suc fuel) (c ∷ buf) =
    if c == 0 then c ∷ buf else redact_found (redact_lines fuel) (c ∷ buf) (find_line (c ∷ buf))

-- Each line takes a byte, so as many rounds as bytes are enough.
unfoldable pub redact_inplace : Option (List ℕ) → Option (List ℕ)
redact_inplace none = none
redact_inplace (some buf) = some (redact_lines (length buf) buf)
