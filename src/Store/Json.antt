-- ===== src/Store/Json.antt =====
-- eink_store.c: `json_quote_append` and `json_extract_string`, and the searches of the C library
-- that they and the other readers use. A C string is the list of its bytes without the 0.
pub mod RoundTrip
use mender_rt1180_zephyr.Prelude.{
  ℕ, zero, suc, ◌+◌, ◌-◌, Bool, true, false, ◌&&◌, ◌||◌, List, [], ◌∷◌, ◌++◌, length, drop, Option,
  none, some, ltb, leb, ◌==◌, if◌then◌else◌, Result, ok, fail, Errno, einval, enoent, enomem, ◌>>=◌,
}

-- `strncmp(text, key, strlen(key)) == 0`
unfoldable pub starts : List ℕ → List ℕ → Bool
starts [] text = true
starts (k ∷ key) [] = false
starts (k ∷ key) (c ∷ text) = k == c && starts key text

-- `strstr(text, key)`, moved past the key
unfoldable pub after_key : List ℕ → List ℕ → Option (List ℕ)
after_key key [] = if starts key [] then some [] else none
after_key key (c ∷ text) =
    let rest = after_key key text in
    if starts key (c ∷ text) then some (drop (length key) (c ∷ text)) else rest

abbrev pub special : ℕ → Bool
special c = c == b'"' || c == b'\\'

-- The loop of `json_quote_append`; `out` is what the buffer of `cap` bytes holds.
unfoldable pub quote_body : ℕ → List ℕ → List ℕ → Option (List ℕ)
quote_body cap out [] = some out
quote_body cap out (c ∷ s) =
    let escaped = quote_body cap (out ++ b'\\' ∷ c ∷ []) s in
    let dropped = quote_body cap out s in
    let plain = quote_body cap (out ++ c ∷ []) s in
    if special c
    then (if leb cap (length out + 2) then none else escaped)
    else if ltb c 0x20
    then dropped
    else if leb cap (length out + 1)
    then none
    else plain

abbrev closed : ℕ → Option (List ℕ) → Result (List ℕ)
closed cap none = fail enomem
closed cap (some out) = if leb cap (length out) then fail enomem else ok (out ++ b'"' ∷ [])

-- the buffer afterwards; where it fails, `*pos` stays, so that what is behind it does not count
unfoldable pub quote_append : ℕ → List ℕ → List ℕ → Result (List ℕ)
quote_append cap out s =
    if leb cap (length out) then fail enomem else closed cap (quote_body cap (out ++ b'"' ∷ []) s)

unfoldable pub skip_blanks : List ℕ → List ℕ
skip_blanks [] = []
skip_blanks (c ∷ text) = if (c == b' ') || (c == b'\t') then skip_blanks text else c ∷ text

-- one byte into a buffer with room for `cap` bytes more, the 0 included
abbrev taken : ℕ → ℕ → Result (List ℕ) → Result (List ℕ)
taken cap c rest = if ltb cap 2 then fail enomem else (rest >>= λ s. ok (c ∷ s))

-- The loop of `json_extract_string` and its end: the text up to the closing quote. A backslash
-- stands for the byte behind it, where there is one.
unfoldable pub unquote : ℕ → List ℕ → Result (List ℕ)
unquote cap [] = fail einval
unquote cap (c ∷ []) = if c == b'"' then ok [] else taken cap c (fail einval)
unquote cap (c ∷ d ∷ text) =
    let escaped = unquote (cap - 1) text in
    let plain = unquote (cap - 1) (d ∷ text) in
    if c == b'"' then ok [] else if c == b'\\' then taken cap d escaped else taken cap c plain

abbrev pub quoted_value : ℕ → List ℕ → Result (List ℕ)
quoted_value cap [] = fail einval
quoted_value cap (c ∷ text) = if c == b'"' then unquote cap text else fail einval

abbrev pub found : ℕ → Option (List ℕ) → Result (List ℕ)
found cap none = fail enoent
found cap (some text) = quoted_value cap (skip_blanks text)

-- `cap` is 0 for a buffer that is not there
unfoldable pub extract_string : List ℕ → List ℕ → ℕ → Result (List ℕ)
extract_string buf key zero = fail einval
extract_string buf key (suc n) = found (suc n) (after_key key buf)
