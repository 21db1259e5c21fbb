-- ===== src/Store/Decimal/Whole.antt =====
-- A text without a 0 is all of the C string in a buffer that holds it.
use mender_rt1180_zephyr.Prelude.{
  ℕ, zero, suc, ◌+◌, ◌/◌, ◌%◌, ◌≤◌, ◌≡◌, ◌≢◌, refl, ap, ◌∙◌, sym, arith, Bool-cases, inl, inr, [],
  ◌∷◌, ◌++◌, append-nil, ltb, codes,
}
use mender_rt1180_zephyr.Prelude.Int.{ℤ, pos, negsuc}
use mender_rt1180_zephyr.Store.Reader.{Text, c_string}
use mender_rt1180_zephyr.Store.Decimal.{show_digits, show_int, max_digits}

pub c_string_cons : (c : ℕ) (text : Text) → c ≢ 0 → c_string (c ∷ text) ≡ c ∷ c_string text
unfolding c_string
c_string_cons c text h = ground arith

abbrev pub ZeroFree : Text → Type 0
ZeroFree [] = 0 ≤ 0
ZeroFree (c ∷ text) = (c ≢ 0) × ZeroFree text

-- a text without a 0
abbrev pub Whole : Text → Type 0
Whole text = (rest : Text) → c_string (text ++ rest) ≡ text ++ c_string rest

pub cons-Whole : (c : ℕ) (text : Text) → c ≢ 0 → Whole text → Whole (c ∷ text)
cons-Whole c text h whole rest = c_string_cons c (text ++ rest) h ∙ ap (λ l. c ∷ l) (whole rest)

pub brace-Whole : Whole (codes "}")
unfolding c_string
brace-Whole rest = refl

show_digits-Whole : (k n : ℕ) (text : Text) → Whole text → Whole (show_digits k n text)
unfolding show_digits
show_digits-Whole zero n text h = h
show_digits-Whole (suc k) n text h = elim (Bool-cases (ltb n 10)) [
  | inl one ↦ rw one (cons-Whole (b'0' + n) text (omega arith) h)
  | inr several ↦ rw several (
      show_digits-Whole k (n / 10) ((b'0' + n % 10) ∷ text)
        (cons-Whole (b'0' + n % 10) text (omega arith) h))
]

pub show_int-Whole : (v : ℤ) (text : Text) → Whole text → Whole (show_int v text)
unfolding show_int
show_int-Whole (pos n) text h = show_digits-Whole max_digits n text h
show_int-Whole (negsuc n) text h =
    cons-Whole b'-' (show_digits max_digits (suc n) text) (omega arith)
      (show_digits-Whole max_digits (suc n) text h)

-- in front of a text without a 0
pub literal-Whole : (x : Text) → ZeroFree x → (text : Text) → Whole text → Whole (x ++ text)
literal-Whole [] h text whole = whole
literal-Whole (c ∷ x) h text whole = cons-Whole c (x ++ text) h.0 (literal-Whole x h.1 text whole)

pub nil-Whole : Whole []
nil-Whole rest = refl

pub Whole-c_string : (text : Text) → Whole text → c_string text ≡ text
unfolding c_string
Whole-c_string text whole = ap c_string (sym (append-nil text)) ∙ whole [] ∙ append-nil text
