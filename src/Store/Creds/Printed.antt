-- ===== src/Store/Creds/Printed.antt =====
-- eink_store.c: the text of the credentials, from which each is extracted again.
use mender_rt1180_zephyr.Prelude.{
  ℕ, zero, suc, ◌+◌, ◌≤◌, ◌<◌, ◌≡◌, refl, ap, ◌∙◌, arith, [], ◌∷◌, ◌++◌, append_assoc, length,
  length-append, leb, Bool-cases, inl, inr, some, ok, ◌>>=◌, bind-eq-ok, codes,
}
use mender_rt1180_zephyr.Store.Json.{
  starts, after_key, skip_blanks, extract_string, quote_append, found,
}
use mender_rt1180_zephyr.Store.Json.RoundTrip.{
  Plain, escaped, quote_append-eq, unquote-escaped, after_key-quoted,
}
use mender_rt1180_zephyr.Store.Reader.{Text, c_string}
use mender_rt1180_zephyr.Store.Creds.{json_cap, put_literal, piece, creds_json, parse_creds}

-- the file, each piece in front of what follows it
abbrev third : Text → Text
third t = codes ",\"auth_token\":" ++ (b'"' ∷ (escaped t ++ (b'"' ∷ codes "}\n")))

abbrev second : Text → Text → Text
second d t = codes ",\"device_id\":" ++ (b'"' ∷ (escaped d ++ (b'"' ∷ third t)))

abbrev pub file_text : Text → Text → Text → Text
file_text a d t = codes "{\"api_base\":" ++ (b'"' ∷ (escaped a ++ (b'"' ∷ second d t)))

put_literal-eq :
    (room : ℕ) (literal out r : Text)
    → put_literal room literal out ≡ ok r
    → (r ≡ out ++ literal) × (length out + room < json_cap)
put_literal-eq room literal out r h = elim (Bool-cases (leb json_cap (length out + room))) [
  | inl full ↦ absurd (ground arith)
  | inr fits ↦ (ground arith, ground arith)
]

piece-eq :
    (room : ℕ) (key value out r : Text)
    → Plain value
    → piece room key value out ≡ ok r
    → r ≡ out ++ key ++ (b'"' ∷ (escaped value ++ b'"' ∷ []))
unfolding piece
piece-eq room key value out r h e =
    let (keyed, q, p) =
      bind-eq-ok (λ k. quote_append json_cap k value) r (put_literal room key out) e in
    quote_append-eq json_cap keyed value r h q
    ∙ ap (λ l. l ++ (b'"' ∷ (escaped value ++ b'"' ∷ []))) (put_literal-eq room key out keyed p).0

pub creds_json-eq :
    (a d t json : Text)
    → Plain a
    → Plain d
    → Plain t
    → creds_json a d t ≡ ok json
    → (json ≡ file_text a d t) × (length json ≤ 767)
unfolding creds_json
creds_json-eq a d t json ha hd ht h =
    let k1 = codes "{\"api_base\":" in
    let k2 = codes ",\"device_id\":" in
    let k3 = codes ",\"auth_token\":" in
    let last = codes "}\n" in
    let (x, hx, px) =
      bind-eq-ok (λ y. piece 14 k2 d y >>= λ z. piece 15 k3 t z >>= λ u. put_literal 3 last u) json
        (piece 13 k1 a []) h in
    let (y, hy, py) =
      bind-eq-ok (λ z. piece 15 k3 t z >>= λ u. put_literal 3 last u) json (piece 14 k2 d x) hx in
    let (z, hz, pz) = bind-eq-ok (λ u. put_literal 3 last u) json (piece 15 k3 t y) hy in
    let ex = piece-eq 13 k1 a [] x ha px in
    let ey = piece-eq 14 k2 d x y hd py in
    let ez = piece-eq 15 k3 t y z ht pz in
    let whole = put_literal-eq 3 last z json hz in
    (
      whole.0 ∙ rw (ez, ey, ex) (simp append_assoc),
      omega (arith, ap length whole.0, length-append z last),
    )

extract_first :
    (a d t : Text) (n : ℕ)
    → length a < suc n
    → extract_string (file_text a d t) (codes "\"api_base\":") (suc n) ≡ ok a
unfolding extract_string after_key starts skip_blanks
extract_first a d t n fits = unquote-escaped (suc n) a (second d t) fits

-- What stands behind a key is a text in quotes.
found_text :
    (n : ℕ) (s rest : Text)
    → length s < n
    → found n (some (b'"' ∷ (escaped s ++ (b'"' ∷ rest)))) ≡ ok s
unfolding skip_blanks
found_text n s rest fits = unquote-escaped n s rest fits

after_second :
    (a d t : Text)
    → after_key (codes "\"device_id\":") (file_text a d t)
      ≡ some (b'"' ∷ (escaped d ++ (b'"' ∷ third t)))
unfolding after_key starts
after_second a d t =
    after_key-quoted (codes "device_id") a
      (codes "\"device_id\":" ++ (b'"' ∷ (escaped d ++ (b'"' ∷ third t)))) b',' (ground arith)
      (omega arith)

after_third :
    (a d t : Text)
    → after_key (codes "\"auth_token\":") (file_text a d t)
      ≡ some (b'"' ∷ (escaped t ++ (b'"' ∷ codes "}\n")))
unfolding after_key starts
after_third a d t =
    after_key-quoted (codes "auth_token") a
      (codes "\"device_id\":" ++ (b'"' ∷ (escaped d ++ (b'"' ∷ third t)))) b',' (ground arith)
      (omega arith)
    ∙ after_key-quoted (codes "auth_token") d
        (codes "\"auth_token\":" ++ (b'"' ∷ (escaped t ++ (b'"' ∷ codes "}\n")))) b','
        (ground arith) (omega arith)

-- The text has no 0 in it.
c_string-escaped :
    (s rest : Text) → Plain s → c_string (escaped s ++ rest) ≡ escaped s ++ c_string rest
unfolding c_string
c_string-escaped [] rest h = refl
c_string-escaped (c ∷ s) rest (hc, h) = ground (arith, c_string-escaped s rest h)

pub c_string_file :
    (a d t : Text) → Plain a → Plain d → Plain t → c_string (file_text a d t) ≡ file_text a d t
unfolding c_string
c_string_file a d t ha hd ht =
    rw
      (
        c_string-escaped a (b'"' ∷ second d t) ha,
        c_string-escaped d (b'"' ∷ third t) hd,
        c_string-escaped t (b'"' ∷ codes "}\n") ht,
      )
      refl

pub parse_file :
    (a d t : Text) (m n k : ℕ)
    → length a < m
    → length d < n
    → length t < k
    → parse_creds m n k (file_text a d t)
      ≡ ok (record { api_base = a; device_id = d; auth_token = t })
unfolding parse_creds extract_string
parse_file a d t zero n k ha hd ht = absurd (omega arith)
parse_file a d t (suc m) zero k ha hd ht = absurd (omega arith)
parse_file a d t (suc m) (suc n) zero ha hd ht = absurd (omega arith)
parse_file a d t (suc m) (suc n) (suc k) ha hd ht =
    rw
      (
        extract_first a d t m ha,
        after_second a d t,
        after_third a d t,
        found_text (suc n) d (third t) hd,
        found_text (suc k) t (codes "}\n") ht,
      )
      refl
