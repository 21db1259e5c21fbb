-- ===== src/LogRing/Masking.antt =====
-- eink_log_ring.c: what the redaction hides, and what it leaves.
use mender_rt1180_zephyr.Prelude.{
  ℕ, ◌≡◌, refl, ap, ◌∙◌, Bool, true, false, List, [], ◌∷◌, ◌++◌, arith, ◌==◌, length, replicate,
  ◌||◌,
}
use mender_rt1180_zephyr.LogRing.Redact.{bearer_here, seek, pass, token, mask}

abbrev is_stop : ℕ → Bool
is_stop c = (c == b' ') || (c == b'\r')

-- a token: no blank and no carriage return in it
abbrev pub IsToken : List ℕ → Type 0
IsToken [] = Unit {0}
IsToken (c ∷ tok) = (is_stop c ≡ false) × IsToken tok

-- where a token ends
abbrev pub EndsToken : List ℕ → Type 0
EndsToken [] = Unit {0}
EndsToken (c ∷ rest) = is_stop c ≡ true

-- no keyword starts inside `u`, read with what follows it
abbrev pub NoKeyword : List ℕ → List ℕ → Type 0
NoKeyword [] s = Unit {0}
NoKeyword (c ∷ u) s = (bearer_here (c ∷ u ++ s) ≡ false) × NoKeyword u s

mask-seek_skip : (u s : List ℕ) → NoKeyword u s → mask seek (u ++ s) ≡ u ++ mask seek s
unfolding mask
mask-seek_skip [] s h = refl
mask-seek_skip (c ∷ u) s h = rw (h.0, mask-seek_skip u s h.1)

-- A stop cannot start a keyword.
stop_starts_none : (c : ℕ) (rest : List ℕ) → is_stop c ≡ true → bearer_here (c ∷ rest) ≡ false
unfolding bearer_here
stop_starts_none c rest h = ground arith

mask-token :
    (tok rest : List ℕ)
    → IsToken tok
    → EndsToken rest
    → mask token (tok ++ rest) ≡ replicate (length tok) b'x' ++ mask seek rest
unfolding mask replicate
mask-token [] [] ht hr = refl
mask-token [] (c ∷ rest) ht hr = rw (hr, stop_starts_none c rest hr)
mask-token (c ∷ tok) rest ht hr = rw (ht.0, mask-token tok rest ht.1 hr)

-- Past a keyword `tok` is at the head.
mask-pass :
    (a b c d e f : ℕ) (rest : List ℕ)
    → mask (pass 6) (a ∷ b ∷ c ∷ d ∷ e ∷ f ∷ rest) ≡ a ∷ b ∷ c ∷ d ∷ e ∷ f ∷ mask (pass 0) rest
unfolding mask
mask-pass a b c d e f rest = refl

mask-pass_zero : (rest : List ℕ) → mask (pass 0) rest ≡ mask token rest
unfolding mask
mask-pass_zero [] = refl
mask-pass_zero (c ∷ rest) = refl

mask-keyword :
    (keyword tok rest : List ℕ)
    → length keyword ≡ 7
    → bearer_here keyword ≡ true
    → IsToken tok
    → EndsToken rest
    → mask seek (keyword ++ (tok ++ rest))
      ≡ keyword ++ (replicate (length tok) b'x' ++ mask seek rest)
mask-keyword [] tok rest seven k ht hr = absurd (omega arith)
mask-keyword (a ∷ b ∷ c ∷ d ∷ e ∷ f ∷ g ∷ []) tok rest seven k ht hr =
    first
    ∙ ap (λ xs. a ∷ xs)
        (mask-pass b c d e f g (tok ++ rest)
          ∙ ap (λ xs. b ∷ c ∷ d ∷ e ∷ f ∷ g ∷ xs)
              (mask-pass_zero (tok ++ rest) ∙ mask-token tok rest ht hr))
  where
    k' : bearer_here (a ∷ b ∷ c ∷ d ∷ e ∷ f ∷ g ∷ (tok ++ rest)) ≡ true
    k' = unfold bearer_here in k

    first :
        mask seek (a ∷ b ∷ c ∷ d ∷ e ∷ f ∷ g ∷ (tok ++ rest))
        ≡ a ∷ mask (pass 6) (b ∷ c ∷ d ∷ e ∷ f ∷ g ∷ (tok ++ rest))
    first = unfold mask in rw k'
mask-keyword _ tok rest seven k ht hr = absurd (omega arith)

-- A line with a keyword, "Bearer " in any case, and none before it: the text before and the keyword
-- stay, the token behind it, up to the next blank, carriage return or the end of the line, is
-- overwritten with as many x, and the scan goes on with the rest of the line.
pub mask-bearer :
    (u keyword tok rest : List ℕ)
    → length keyword ≡ 7
    → bearer_here keyword ≡ true
    → NoKeyword u (keyword ++ (tok ++ rest))
    → IsToken tok
    → EndsToken rest
    → mask seek (u ++ (keyword ++ (tok ++ rest)))
      ≡ u ++ (keyword ++ (replicate (length tok) b'x' ++ mask seek rest))
mask-bearer u keyword tok rest seven k none_before ht hr =
    mask-seek_skip u (keyword ++ (tok ++ rest)) none_before
    ∙ ap (λ xs. u ++ xs) (mask-keyword keyword tok rest seven k ht hr)
