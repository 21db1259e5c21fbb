-- ===== src/Store/Json/RoundTrip.antt =====
-- eink_store.c: what `json_quote_append` writes, `json_extract_string` reads back, and no text in
-- quotes is mistaken for a key.
use mender_rt1180_zephyr.Prelude.{
  ℕ, ◌+◌, ◌-◌, ◌≤◌, ◌<◌, ◌≡◌, ◌≢◌, refl, ◌∙◌, arith, false, List, [], ◌∷◌, ◌++◌, length, some,
  append_assoc, append-nil, length-append, Option-cases, Bool-cases, inl, inr, if◌then◌else◌, ok,
}
use mender_rt1180_zephyr.Store.Json.{
  starts, after_key, special, quote_body, quote_append, taken, unquote,
}

-- No control characters.
abbrev pub Plain : List ℕ → Type 0
Plain [] = 0 ≤ 0
Plain (c ∷ s) = (0x20 ≤ c) × Plain s

-- the text between the quotes
abbrev pub escaped : List ℕ → List ℕ
escaped [] = []
escaped (c ∷ s) = if special c then b'\\' ∷ c ∷ escaped s else c ∷ escaped s

quote_body-escaped :
    (cap : ℕ) (out s : List ℕ)
    → Plain s
    → length out + length (escaped s) < cap
    → quote_body cap out s ≡ some (out ++ escaped s)
unfolding quote_body
quote_body-escaped cap out [] h fits = rw append-nil
quote_body-escaped cap out (c ∷ s) (hc, h) fits = ground (
  arith,
  quote_body-escaped cap (out ++ b'\\' ∷ c ∷ []) s h,
  quote_body-escaped cap (out ++ c ∷ []) s h,
  length-append out (b'\\' ∷ c ∷ []),
  length-append out (c ∷ []),
  append_assoc out (b'\\' ∷ c ∷ []) (escaped s),
  append_assoc out (c ∷ []) (escaped s),
)

-- A text without control characters that fits is put in quotes behind what the buffer holds.
pub quote_append-escaped :
    (cap : ℕ) (out s : List ℕ)
    → Plain s
    → length out + (2 + length (escaped s)) ≤ cap
    → quote_append cap out s ≡ ok (out ++ (b'"' ∷ (escaped s ++ b'"' ∷ [])))
unfolding quote_append
quote_append-escaped cap out s h fits = ground (
  arith,
  quote_body-escaped cap (out ++ b'"' ∷ []) s h,
  length-append out (b'"' ∷ []),
  length-append (out ++ b'"' ∷ []) (escaped s),
  append_assoc out (b'"' ∷ []) (escaped s),
  append_assoc out (b'"' ∷ escaped s) (b'"' ∷ []),
)

quote_body-eq :
    (cap : ℕ) (out s r : List ℕ) → Plain s → quote_body cap out s ≡ some r → r ≡ out ++ escaped s
unfolding quote_body
quote_body-eq cap out [] r h e = ground (arith, append-nil out)
quote_body-eq cap out (c ∷ s) r (hc, h) e = ground (
  arith,
  quote_body-eq cap (out ++ b'\\' ∷ c ∷ []) s r h,
  quote_body-eq cap (out ++ c ∷ []) s r h,
  append_assoc out (b'\\' ∷ c ∷ []) (escaped s),
  append_assoc out (c ∷ []) (escaped s),
)

-- What is appended where there is room: the text in quotes.
pub quote_append-eq :
    (cap : ℕ) (out s r : List ℕ)
    → Plain s
    → quote_append cap out s ≡ ok r
    → r ≡ out ++ (b'"' ∷ (escaped s ++ b'"' ∷ []))
unfolding quote_append
quote_append-eq cap out s r h e = elim (Option-cases (quote_body cap (out ++ b'"' ∷ []) s)) [
  | inl no_room ↦ absurd (ground arith)
  | inr (b, q) ↦
      let body = quote_body-eq cap (out ++ b'"' ∷ []) s b h q in
      ground (
        arith,
        append_assoc out (b'"' ∷ []) (escaped s),
        append_assoc out (b'"' ∷ escaped s) (b'"' ∷ []),
      )
]

unquote_plain :
    (cap c : ℕ) (text : List ℕ)
    → special c ≡ false
    → unquote cap (c ∷ text) ≡ taken cap c (unquote (cap - 1) text)
unfolding unquote
unquote_plain cap c [] h = ground arith
unquote_plain cap c (d ∷ text) h = ground arith

-- Reading stops at the quote behind an escaped text, and gives the text.
pub unquote-escaped :
    (cap : ℕ) (s rest : List ℕ) → length s < cap → unquote cap (escaped s ++ (b'"' ∷ rest)) ≡ ok s
unfolding unquote
unquote-escaped cap [] [] fits = refl
unquote-escaped cap [] (d ∷ rest) fits = refl
unquote-escaped cap (c ∷ s) rest fits =
    let more = unquote-escaped (cap - 1) s rest (omega arith) in
    elim (Bool-cases (special c)) [
      | inl sp ↦ rw (sp, more) (ground arith)
      | inr pl ↦
          rw pl (unquote_plain cap c (escaped s ++ (b'"' ∷ rest)) pl ∙ rw more (ground arith))
    ]

-- The letters of a key: none is a quote or a backslash.
abbrev pub Letters : List ℕ → Type 0
Letters [] = 0 ≤ 0
Letters (k ∷ ks) = (special k ≡ false) × Letters ks

-- A key in quotes with a colon does not start inside quotes: what is behind the quotes is not `:`.
starts-escaped :
    (ks s rest : List ℕ) (d : ℕ)
    → Letters ks
    → d ≢ b':'
    → starts (ks ++ b'"' ∷ b':' ∷ []) (escaped s ++ (b'"' ∷ d ∷ rest)) ≡ false
unfolding starts
starts-escaped [] [] rest d h ne = ground arith
starts-escaped [] (c ∷ s) rest d h ne = ground arith
starts-escaped (k ∷ ks) [] rest d h ne = ground arith
starts-escaped (k ∷ ks) (c ∷ s) rest d h ne = ground (arith, starts-escaped ks s rest d h.1 ne)

pub after_key_step :
    (key : List ℕ) (c : ℕ) (text : List ℕ)
    → starts key (c ∷ text) ≡ false
    → after_key key (c ∷ text) ≡ after_key key text
unfolding after_key
after_key_step key c text h = rw h refl

pub starts_quote :
    (ks text : List ℕ) (c : ℕ) → starts ks text ≡ false → starts (b'"' ∷ ks) (c ∷ text) ≡ false
unfolding starts
starts_quote ks text c h = ground arith

pub starts_other : (ks text : List ℕ) (c : ℕ) → c ≢ b'"' → starts (b'"' ∷ ks) (c ∷ text) ≡ false
unfolding starts
starts_other ks text c h = ground arith

-- The search for a key passes over an escaped text up to the quote behind it.
pub after_key-escaped :
    (ks s rest : List ℕ) (d : ℕ)
    → Letters ks
    → d ≢ b':'
    → let key = b'"' ∷ (ks ++ b'"' ∷ b':' ∷ []) in
      after_key key (escaped s ++ (b'"' ∷ d ∷ rest)) ≡ after_key key (b'"' ∷ d ∷ rest)
after_key-escaped ks [] rest d h ne = refl
after_key-escaped ks (c ∷ s) rest d h ne =
    let kq = ks ++ b'"' ∷ b':' ∷ [] in
    let text = escaped s ++ (b'"' ∷ d ∷ rest) in
    let here = starts-escaped ks s rest d h ne in
    let over =
      after_key_step (b'"' ∷ kq) c text (starts_quote kq text c here)
      ∙ after_key-escaped ks s rest d h ne in
    elim (Bool-cases (special c)) [
      | inl sp ↦ rw sp (
          after_key_step (b'"' ∷ kq) b'\\' (c ∷ text)
            (starts_other kq (c ∷ text) b'\\' (omega arith))
          ∙ over)
      | inr pl ↦ rw pl over
    ]

-- No key is found in a text in quotes that is not followed by a colon.
pub after_key-quoted :
    (ks s rest : List ℕ) (d : ℕ)
    → Letters ks
    → d ≢ b':'
    → let key = b'"' ∷ (ks ++ b'"' ∷ b':' ∷ []) in
      after_key key (b'"' ∷ (escaped s ++ (b'"' ∷ d ∷ rest))) ≡ after_key key (b'"' ∷ d ∷ rest)
after_key-quoted ks s rest d h ne =
    let kq = ks ++ b'"' ∷ b':' ∷ [] in
    let text = escaped s ++ (b'"' ∷ d ∷ rest) in
    after_key_step (b'"' ∷ kq) b'"' text
      (starts_quote kq text b'"' (starts-escaped ks s rest d h ne))
    ∙ after_key-escaped ks s rest d h ne
