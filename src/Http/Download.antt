-- ===== src/Http/Download.antt =====
-- eink_http.c: `http_download_to_file` with `do_http` and its callback `download_response_cb`. The
-- connection and the HTTP client of Zephyr are a parameter; the times of the writes are left out.
pub mod Untouched
pub mod Auth
mod Tests
use mender_rt1180_zephyr.Prelude.{
  ℕ, zero, suc, ◌+◌, ◌-◌, Bool, true, false, not, ◌&&◌, ◌||◌, ◌==◌, ltb, leb, if◌then◌else◌, List,
  [], ◌∷◌, ◌++◌, length, take, Option, none, some, Ret, val, err, Errno, enomem, enotsup, eio,
  Result, ok, fail, codes,
}
use mender_rt1180_zephyr.Fs.{Fs}
use mender_rt1180_zephyr.Store.Reader.{Text}
use mender_rt1180_zephyr.Http.Url.{
  url_max, UrlParts, parse_url, resolve_redirect, is_s3_url, looks_like_jpeg_or_png,
}

-- What `http_client_req` gives: the status and the body of each call of the callback, the Location
-- header, and its own return where no callback fails.
pub record Answer : Type 0 where
  pub responses : List (ℕ × List ℕ)
  pub location : Option Text
  pub outcome : Ret

-- a connection, and a request with or without the Authorization header
pub record Net (N : Type 0) : Type 0 where
  pub connect : UrlParts → N → Ret × N
  pub request : UrlParts → Bool → N → Answer × N

-- struct download_ctx
pub record DownloadCtx : Type 0 where
  pub status_code : ℕ
  pub failure : Option Errno
  pub magic_checked : Bool
  pub location : Option Text

abbrev pub new_ctx : DownloadCtx
new_ctx = record { status_code = 0; failure = none; magic_checked = false; location = none }

-- EINK_HTTP_MAX_REDIRECTS
abbrev pub max_redirects : ℕ
max_redirects = 3

-- EINK_HTTP_LOCATION_MAX bytes of the header's value, with the 0
abbrev pub kept_location : Option Text → Option Text
kept_location none = none
kept_location (some value) = some (take 511 value)

abbrev pub is_redirect : ℕ → Bool
is_redirect status = (status == 301) || (status == 302) || (status == 307) || (status == 308)

abbrev pub redirected : DownloadCtx → Option Text
redirected ctx = if is_redirect ctx.status_code then ctx.location else none

abbrev pub is_empty : Text → Bool
is_empty [] = true
is_empty (c ∷ text) = false

module _ (S : Type 0) (fs : Fs Text S) (tmp : Text) where
  abbrev pub taken : DownloadCtx → ℕ → Ret × S → DownloadCtx × S
  taken ctx len (err e, s) = (record ctx { failure = some eio }, s)
  taken ctx len (val n, s) = if n == len then (ctx, s) else (record ctx { failure = some eio }, s)

  -- one call of `download_response_cb`
  unfoldable pub download_response_cb : ℕ × List ℕ → DownloadCtx → S → DownloadCtx × S
  download_response_cb (status, []) ctx s = (record ctx { status_code = status }, s)
  download_response_cb (status, b ∷ body) ctx s =
      let seen = record ctx { status_code = status; magic_checked = true } in
      if not ctx.magic_checked && looks_like_jpeg_or_png (take 8 (b ∷ body))
      then (record seen { failure = some enotsup }, s)
      else taken seen (length (b ∷ body)) (fs.write tmp (b ∷ body) s)

  abbrev pub unless_failed :
      (DownloadCtx → S → DownloadCtx × S) → Option Errno → DownloadCtx → S → DownloadCtx × S
  unless_failed more none ctx s = more ctx s
  unless_failed more (some e) ctx s = (ctx, s)

  -- the calls of a request, which ends with the first that fails
  unfoldable pub called : List (ℕ × List ℕ) → DownloadCtx → S → DownloadCtx × S
  called [] ctx s = (ctx, s)
  called (r ∷ rs) ctx s =
      let next = download_response_cb r ctx s in
      unless_failed (λ ctx' s'. called rs ctx' s') next.0.failure next.0 next.1

  module _ (N : Type 0) (net : Net N) (token : Text) where
    abbrev pub Exchanged : Type 0
    Exchanged = Ret × (DownloadCtx × (S × N))

    abbrev pub returned : Ret → Option Errno → Ret
    returned outcome (some e) = err e
    returned (val n) none = val 0
    returned (err e) none = err e

    abbrev pub requested : S → Answer × N → Exchanged
    requested s (answer, n) =
        let got =
          called answer.responses (record new_ctx { location = kept_location answer.location }) s in
        (returned answer.outcome got.0.failure, (got.0, (got.1, n)))

    abbrev pub connected : UrlParts → Bool → S → Ret × N → Exchanged
    connected parts send_auth s (err e, n) = (err e, (new_ctx, (s, n)))
    connected parts send_auth s (val sock, n) =
        requested s (net.request parts (send_auth && not (is_empty token)) n)

    abbrev pub parsed : Result UrlParts → Bool → S × N → Exchanged
    parsed (fail e) send_auth (s, n) = (err e, (new_ctx, (s, n)))
    parsed (ok parts) send_auth (s, n) = connected parts send_auth s (net.connect parts n)

    unfoldable pub do_http : Text → Bool → S × N → Exchanged
    do_http url send_auth w = parsed (parse_url url) send_auth w

    abbrev pub Loaded : Type 0
    Loaded = Ret × (S × N)

    -- the temporary file is unlinked
    abbrev pub given_up : Errno → S × N → Loaded
    given_up e (s, n) = (err e, ((fs.unlink tmp s).1, n))

    -- the start of an error's body, for the log
    abbrev pub snippet : Ret × S → S
    snippet (err e, s) = s
    snippet (val k, s) = (fs.close tmp (fs.read tmp 159 s).1).1

    abbrev pub renamed : N → Ret × S → Loaded
    renamed n (err e, s) = given_up e (s, n)
    renamed n (val k, s) = (val 0, (s, n))

    abbrev pub ended : Text → DownloadCtx → S × N → Loaded
    ended path ctx (s, n) =
        if ltb ctx.status_code 200 || leb 300 ctx.status_code
        then given_up eio (snippet (fs.open_read tmp s), n)
        else renamed n (fs.rename tmp path s)

    abbrev pub followed :
        (Text → S × N → Loaded) → Text → Text → DownloadCtx → Option Text → S × N → Loaded
    followed more path current ctx none w = ended path ctx w
    followed more path current ctx (some location) (s, n) =
        more (take (url_max - 1) (resolve_redirect current location url_max))
          ((fs.unlink tmp s).1, n)

    abbrev pub closed : (S × N → Loaded) → N → Ret × S → Loaded
    closed more n (err e, s) = given_up e ((fs.close tmp s).1, n)
    closed more n (val k, s) = more ((fs.close tmp s).1, n)

    abbrev pub exchanged : (DownloadCtx → S × N → Loaded) → Exchanged → Loaded
    exchanged more (err e, (ctx, (s, n))) = given_up e ((fs.close tmp s).1, n)
    exchanged more (val k, (ctx, (s, n))) = closed (λ w. more ctx w) n (fs.sync tmp s)

    abbrev pub created : (S × N → Loaded) → N → Ret × S → Loaded
    created more n (err e, s) = (err e, (s, n))
    created more n (val k, s) = more (s, n)

    -- the `while (true)` loop, with the redirects that are left
    unfoldable pub attempt : ℕ → Bool → Text → Text → S × N → Loaded
    attempt zero send_auth path current (s, n) =
        created
          (λ w.
            exchanged (λ ctx w'. ended path ctx w')
              (do_http current (send_auth && not (is_s3_url current)) w))
          n (fs.create tmp s)
    attempt (suc left) send_auth path current (s, n) =
        created
          (λ w.
            exchanged
              (λ ctx w'.
                followed (λ next w''. attempt left send_auth path next w'') path current ctx
                  (redirected ctx) w')
              (do_http current (send_auth && not (is_s3_url current)) w))
          n (fs.create tmp s)

-- `path` behind which the temporary file is named
abbrev pub tmp_of : Text → Text
tmp_of path = path ++ codes ".tmp"

unfoldable pub http_download_to_file :
    (S : Type 0)
    → Fs Text S
    → (N : Type 0) → Net N
    → Text
    → Text
    → Bool
    → Text
    → S × N
    → Ret × (S × N)
http_download_to_file S fs N net token url send_auth path w =
    if leb 384 (length path + 5)
    then (err enomem, w)
    else attempt S fs (tmp_of path) N net token max_redirects send_auth path
        (take (url_max - 1) url) w
