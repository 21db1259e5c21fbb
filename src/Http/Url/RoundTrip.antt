-- ===== src/Http/Url/RoundTrip.antt =====
-- eink_http.c: the parts of a URL are those that it is put together from.
use mender_rt1180_zephyr.Prelude.{
  ℕ, suc, ◌+◌, ◌≤◌, ◌<◌, ◌≡◌, ◌≢◌, refl, ap, arith, Bool, true, false, [], ◌∷◌, ◌++◌, length,
  length-append, ◌==◌, ◌||◌, leb, ok, codes,
}
use mender_rt1180_zephyr.Store.Json.{starts}
use mender_rt1180_zephyr.Store.Reader.{Text}
use mender_rt1180_zephyr.Http.Url.{url_max, before, from, authority, parse_rest, parse_url, scheme}

-- a text without a character
abbrev pub Without : ℕ → Text → Type 0
Without x [] = 0 ≤ 0
Without x (c ∷ text) = (c ≢ x) × Without x text

before-append : (x : ℕ) (a b : Text) → Without x a → before x (a ++ (x ∷ b)) ≡ a
unfolding before
before-append x [] b h = let same : (x == x) ≡ true = ground arith in rw same refl
before-append x (c ∷ a) b h =
    let other : (c == x) ≡ false = ground arith in
    rw other (ap (λ l. c ∷ l) (before-append x a b h.1))

from-append : (x : ℕ) (a b : Text) → Without x a → from x (a ++ (x ∷ b)) ≡ x ∷ b
unfolding from
from-append x [] b h = let same : (x == x) ≡ true = ground arith in rw same refl
from-append x (c ∷ a) b h =
    let other : (c == x) ≡ false = ground arith in rw other (from-append x a b h.1)

Without-append : (x : ℕ) (a b : Text) → Without x a → Without x b → Without x (a ++ b)
Without-append x [] b ha hb = hb
Without-append x (c ∷ a) b ha hb = (ha.0, Without-append x a b ha.1 hb)

module _ (host port path : Text) (slashless : Without b'/' host) (colonless : Without b':' host)
    (portless : Without b'/' port) (there : 1 ≤ length host)
    (short : length host + length port < 127) (short_port : length port < 8)
    (short_path : suc (length path) < url_max) where
  authority_lem : (default : Text) → authority default (host ++ (b':' ∷ port)) ≡ ok (host, port)
  authority_lem default =
      let size : ((length (host ++ (b':' ∷ port)) == 0) || leb 128 (length (host ++ (b':' ∷ port))))
          ≡ false =
        ground (arith, length-append host (b':' ∷ port)) in
      let fits : ((length host == 0) || leb 8 (length port)) ≡ false = ground arith in
      rw (size, before-append b':' host port colonless, from-append b':' host port colonless, fits)
        refl

  parse_rest_lem :
      (https : Bool) (default : Text)
      → parse_rest https default ((host ++ (b':' ∷ port)) ++ (b'/' ∷ path))
        ≡ ok (record { https = https; host = host; port = port; path = b'/' ∷ path })
  unfolding parse_rest
  parse_rest_lem https default =
      let clean = Without-append b'/' host (b':' ∷ port) slashless (ground arith, portless) in
      let fits : leb url_max (length (b'/' ∷ path)) ≡ false = ground arith in
      rw
        (
          before-append b'/' (host ++ (b':' ∷ port)) path clean,
          from-append b'/' (host ++ (b':' ∷ port)) path clean,
          authority_lem default,
          fits,
        )
        refl

  -- A URL with a host without a slash or a colon, a port without a slash and a path, each of which
  -- fits its buffer, and the first two together too, is parsed into these parts.
  pub parse_url-scheme :
      (https : Bool)
      → parse_url (scheme https ++ codes "://" ++ ((host ++ (b':' ∷ port)) ++ (b'/' ∷ path)))
        ≡ ok (record { https = https; host = host; port = port; path = b'/' ∷ path })
  unfolding parse_url starts
  parse_url-scheme true = parse_rest_lem true (codes "443")
  parse_url-scheme false = parse_rest_lem false (codes "80")
