-- ===== src/Http/Url.antt =====
-- eink_http.c: `parse_url`, `resolve_redirect`, `is_s3_url` and `looks_like_jpeg_or_png`, on texts
-- that are not null.
pub mod RoundTrip
mod Tests
use mender_rt1180_zephyr.Prelude.{
  ℕ, ◌+◌, ◌-◌, Bool, true, false, ◌&&◌, ◌||◌, ◌==◌, ltb, leb, if◌then◌else◌, List, [], ◌∷◌, ◌++◌,
  length, take, drop, Option, none, some, get_or, Errno, einval, enomem, Result, ok, fail, ◌>>=◌,
  codes,
}
use mender_rt1180_zephyr.Store.Json.{starts, after_key}
use mender_rt1180_zephyr.Store.Reader.{Text}

-- EINK_HTTP_URL_MAX
abbrev pub url_max : ℕ
url_max = 2048

pub record UrlParts : Type 0 where
  pub https : Bool
  pub host : Text
  pub port : Text
  pub path : Text

-- the text before a character, or all of it
unfoldable pub before : ℕ → Text → Text
before x [] = []
before x (c ∷ text) = let more = c ∷ before x text in if c == x then [] else more

-- the text from a character on
unfoldable pub from : ℕ → Text → Text
from x [] = []
from x (c ∷ text) = let more = from x text in if c == x then c ∷ text else more

abbrev pub with_port : Text → Text → Text → Result (Text × Text)
with_port default host [] = ok (host, default)
with_port default host (colon ∷ port) =
    if (length host == 0) || leb 8 (length port) then fail einval else ok (host, port)

-- the host and the port
abbrev pub authority : Text → Text → Result (Text × Text)
authority default text =
    if (length text == 0) || leb 128 (length text)
    then fail einval
    else with_port default (before b':' text) (from b':' text)

abbrev pub path_of : Text → Result Text
path_of [] = ok (codes "/")
path_of (slash ∷ text) =
    if leb url_max (length (slash ∷ text)) then fail enomem else ok (slash ∷ text)

abbrev pub joined : Bool → Text × Text → Text → UrlParts
joined https (host, port) path = record { https = https; host = host; port = port; path = path }

-- behind the scheme
unfoldable pub parse_rest : Bool → Text → Text → Result UrlParts
parse_rest https default text = do
  a ← authority default (before b'/' text)
  path ← path_of (from b'/' text)
  ok (joined https a path)

unfoldable pub parse_url : Text → Result UrlParts
parse_url url =
    if starts (codes "https://") url
    then parse_rest true (codes "443") (drop 8 url)
    else if starts (codes "http://") url
    then parse_rest false (codes "80") (drop 7 url)
    else fail einval

abbrev pub scheme : Bool → Text
scheme true = codes "https"
scheme false = codes "http"

abbrev pub relative : Text → Result UrlParts → Text
relative location (fail e) = location
relative [] (ok base) = scheme base.https ++ codes "://" ++ base.host ++ codes "/"
relative (c ∷ location) (ok base) =
    if c == b'/'
    then scheme base.https ++ codes "://" ++ base.host ++ (c ∷ location)
    else scheme base.https ++ codes "://" ++ base.host ++ codes "/" ++ (c ∷ location)

-- what is in the output buffer of `out_cap` bytes, which is not empty
unfoldable pub resolve_redirect : Text → Text → ℕ → Text
resolve_redirect base_url location out_cap = take (out_cap - 1) (
    if starts (codes "http://") location || starts (codes "https://") location
    then location
    else relative location (parse_url base_url))

abbrev pub is_some {ℓ} : {A : Type ℓ} → Option A → Bool
is_some none = false
is_some (some a) = true

unfoldable pub is_s3_url : Text → Bool
is_s3_url url = is_some (after_key (codes ".amazonaws.com") url)

unfoldable pub looks_like_jpeg_or_png : List ℕ → Bool
looks_like_jpeg_or_png buf =
    (leb 3 (length buf)
      && (get_or buf 0 0 == 0xFF)
      && (get_or buf 1 0 == 0xD8)
      && (get_or buf 2 0 == 0xFF))
    || (leb 8 (length buf)
        && (get_or buf 0 0 == 0x89)
        && (get_or buf 1 0 == b'P')
        && (get_or buf 2 0 == b'N')
        && (get_or buf 3 0 == b'G'))
