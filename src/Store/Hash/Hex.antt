-- ===== src/Store/Hash/Hex.antt =====
-- eink_store.c: what `eink_store_load_content_hash` hands out is a hash in lower case.
use mender_rt1180_zephyr.Prelude.{
  ℕ, suc, ◌+◌, ◌-◌, ◌^◌, ◌≤◌, ◌<◌, ◌≡◌, refl, ◌∙◌, sym, arith, true, not, ◌==◌, Bool-cases, inl,
  inr, ltb, if◌then◌else◌, [], ◌∷◌, length, length-take, take, drop, Option, none, some, einval,
  Result, ok, fail, ◌>>=◌, bind-eq-ok,
}
use mender_rt1180_zephyr.Prelude.Int.{ℤ, pos, negsuc}
use mender_rt1180_zephyr.Fs.{Fs}
use mender_rt1180_zephyr.Scheduler.Cron.{scan_int}
use mender_rt1180_zephyr.Store.Reader.{Text, c_string, read_file}
use mender_rt1180_zephyr.Store.Hash.{
  content_hash_path, lower_hex, upper_hex, kept, hex_digits, converted, strtoul, one_on, newline,
  after_newline, parse_hash, load_content_hash,
}

abbrev pub LowerHex : Text → Type 0
LowerHex [] = 0 ≤ 0
LowerHex (c ∷ text) = (lower_hex c ≡ true) × LowerHex text

kept-LowerHex :
    (c : ℕ) (r : Result Text) (n : ℕ) (sha : Text)
    → lower_hex c ≡ true
    → ((text : Text) → r ≡ ok text → LowerHex text × (length text ≡ n))
    → kept c r ≡ ok sha
    → LowerHex sha × (length sha ≡ suc n)
kept-LowerHex c (fail e) n sha h rest eq = absurd (cc)
kept-LowerHex c (ok text) n sha h rest eq =
    let same : c ∷ text ≡ sha = cc in
    let (lower, len) = rest text refl in rw (sym same) ((h, lower), omega arith)

hex_digits-LowerHex :
    (text sha : Text) → hex_digits text ≡ ok sha → LowerHex sha × (length sha ≡ length text)
unfolding hex_digits
hex_digits-LowerHex [] sha eq = let same : [] ≡ sha = cc in rw (sym same) (omega arith, refl)
hex_digits-LowerHex (c ∷ text) sha eq =
    let go : hex_digits (c ∷ text) ≡ (
        if upper_hex c
        then kept (c - b'A' + b'a') (hex_digits text)
        else if not (lower_hex c)
        then fail einval
        else kept c (hex_digits text)) =
      refl in
    elim (Bool-cases (upper_hex c)) [
      | inl up ↦
          let this : hex_digits (c ∷ text) ≡ kept (c - b'A' + b'a') (hex_digits text) =
            rw up refl in
          kept-LowerHex (c - b'A' + b'a') (hex_digits text) (length text) sha (ground arith)
            (hex_digits-LowerHex text) (sym this ∙ eq)
      | inr other ↦ elim (Bool-cases (lower_hex c)) [
        | inl low ↦
            let this : hex_digits (c ∷ text) ≡ kept c (hex_digits text) = rw (other, low) refl in
            kept-LowerHex c (hex_digits text) (length text) sha low (hex_digits-LowerHex text)
              (sym this ∙ eq)
        | inr bad ↦
            let this : hex_digits (c ∷ text) ≡ fail einval = rw (other, bad) refl in absurd (cc)
      ]
    ]

one_on_lt :
    (o : Option ℕ) (i n : ℕ) → ((k : ℕ) → o ≡ some k → k < n) → one_on o ≡ some i → i < suc n
one_on_lt none i n h eq = absurd (cc)
one_on_lt (some k) i n h eq = let same : suc k ≡ i = cc in omega (arith, h k refl)

newline_lt : (text : Text) (i : ℕ) → newline text ≡ some i → i < length text
unfolding newline
newline_lt [] i eq = absurd (cc)
newline_lt (c ∷ text) i eq = elim (Bool-cases (c == b'\n')) [
  | inl here ↦
      let this : newline (c ∷ text) ≡ some 0 = rw here refl in let same : 0 ≡ i = cc in omega arith
  | inr later ↦
      let this : newline (c ∷ text) ≡ one_on (newline text) = rw later refl in
      one_on_lt (newline text) i (length text) (newline_lt text) (sym this ∙ eq)
]

converted_lt : (o : Option (ℤ × Text)) → converted o < 2 ^ 32
converted_lt none = omega arith
converted_lt (some (pos n, rest)) = ground arith
converted_lt (some (negsuc n, rest)) = ground arith

-- 64 digits in lower case, and a size of 32 bits
abbrev pub IsHash : Text × ℕ → Type 0
IsHash (sha, size) = (length sha ≡ 64) × LowerHex sha × (size < 2 ^ 32)

after_newline-IsHash :
    (buf : Text) (o : Option ℕ) (h : Text × ℕ)
    → newline buf ≡ o
    → after_newline buf o ≡ ok h
    → IsHash h
after_newline-IsHash buf none h e eq = absurd (cc)
after_newline-IsHash buf (some i) h e eq = elim (Bool-cases (i == 64)) [
  | inl line ↦
      let this : after_newline buf (some i)
          ≡ (hex_digits (take 64 buf) >>= λ sha. ok (sha, strtoul (drop 65 buf))) =
        rw line refl in
      let (sha, made, got) =
        bind-eq-ok (λ sha. ok (sha, strtoul (drop 65 buf))) h (hex_digits (take 64 buf))
          (sym this ∙ eq) in
      let (lower, len) = hex_digits-LowerHex (take 64 buf) sha got in
      let at : i ≡ 64 = ground arith in
      let long : 64 < length buf = omega (arith, newline_lt buf i e) in
      let same : (sha, strtoul (drop 65 buf)) ≡ h = cc in
      rw (sym same)
        (omega (arith, length-take 64 buf), lower, converted_lt (scan_int (drop 65 buf)))
  | inr other ↦ let this : after_newline buf (some i) ≡ fail einval = rw other refl in absurd (cc)
]

parse_hash-IsHash : (bytes : Text) (h : Text × ℕ) → parse_hash bytes ≡ ok h → IsHash h
unfolding parse_hash
parse_hash-IsHash bytes h eq = elim (Bool-cases (ltb (length bytes) 65)) [
  | inl short ↦ let this : parse_hash bytes ≡ fail einval = rw short refl in absurd (cc)
  | inr long ↦
      let this : parse_hash bytes ≡ after_newline (c_string bytes) (newline (c_string bytes)) =
        rw long refl in
      after_newline-IsHash (c_string bytes) (newline (c_string bytes)) h refl (sym this ∙ eq)
]

-- Whatever the file holds: what the load of a content hash gives is 64 hexadecimal digits in lower
-- case, and a size that fits 32 bits.
pub load_content_hash-IsHash :
    (S : Type 0) (fs : Fs Text S) (root id : Text) (cap : ℕ) (s : S) (h : Text × ℕ)
    → (load_content_hash S fs root id cap s).0 ≡ ok h
    → IsHash h
unfolding load_content_hash
load_content_hash-IsHash S fs root id cap s h eq = elim (Bool-cases (ltb cap 65)) [
  | inl small ↦
      let this : (load_content_hash S fs root id cap s).0 ≡ fail einval = rw small refl in
      absurd (cc)
  | inr room ↦
      let r = read_file Text S fs (content_hash_path root id) 95 s in
      let this : (load_content_hash S fs root id cap s).0 ≡ (r.0 >>= parse_hash) = rw room refl in
      let (bytes, parsed, got) = bind-eq-ok parse_hash h r.0 (sym this ∙ eq) in
      parse_hash-IsHash bytes h parsed
]
