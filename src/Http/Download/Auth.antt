-- ===== src/Http/Download/Auth.antt =====
-- eink_http.c: which requests of a download carry the device's token.
use mender_rt1180_zephyr.Prelude.{
  ℕ, zero, suc, ◌≡◌, refl, Bool, true, false, not, ◌&&◌, if◌then◌else◌, leb, ◌+◌, ◌-◌, Bool-cases,
  inl, inr, List, [], ◌∷◌, length, take, Option, none, some, Ret, val, err, enomem, Result, ok,
  fail, ltb, ◌||◌,
}
use mender_rt1180_zephyr.Fs.{Fs}
use mender_rt1180_zephyr.Store.Reader.{Text}
use mender_rt1180_zephyr.Http.Url.{url_max, UrlParts, parse_url, is_s3_url}
use mender_rt1180_zephyr.Http.Download.{
  Net, DownloadCtx, max_redirects, redirected, is_empty, connected, parsed, do_http, renamed, ended,
  followed, closed, exchanged, created, attempt, tmp_of, http_download_to_file,
}

-- A request with the token goes where a URL leads that is not one of S3.
abbrev pub Trusted : UrlParts → Type 0
Trusted parts = (url : Text) × (parse_url url ≡ ok parts) × (is_s3_url url ≡ false)

-- What the calls of the network keep, where a request with the token goes to a trusted place.
pub record Keeps (N : Type 0) (net : Net N) (Q : N → Type 0) : Type 0 where
  pub connects : (parts : UrlParts) (n : N) → Q n → Q (net.connect parts n).1
  pub plain : (parts : UrlParts) (n : N) → Q n → Q (net.request parts false n).1
  pub signed : (parts : UrlParts) (n : N) → Trusted parts → Q n → Q (net.request parts true n).1

module _ (S : Type 0) (fs : Fs Text S) (N : Type 0) (net : Net N) (token path tmp : Text)
    (Q : N → Type 0) (keeps : Keeps N net Q) where
  request_keeps :
      (parts : UrlParts) (auth : Bool) (n : N)
      → (auth ≡ true → Trusted parts)
      → Q n
      → Q (net.request parts auth n).1
  request_keeps parts true n trust q = keeps.signed parts n (trust refl) q
  request_keeps parts false n trust q = keeps.plain parts n q

  connected_keeps :
      (parts : UrlParts) (auth : Bool) (s : S) (r : Ret × N)
      → (auth ≡ true → Trusted parts)
      → Q r.1
      → Q (connected S fs tmp N net token parts auth s r).1.1.1
  connected_keeps parts auth s (err e, n) trust q = q
  connected_keeps parts auth s (val sock, n) trust q =
      request_keeps parts (auth && not (is_empty token)) n
        (λ e. trust (both auth (not (is_empty token)) e)) q
    where
      both : (a b : Bool) → a && b ≡ true → a ≡ true
      both true b e = refl
      both false b e = e

  parsed_keeps :
      (url : Text) (r : Result UrlParts) (auth : Bool) (w : S × N)
      → parse_url url ≡ r
      → (auth ≡ true → is_s3_url url ≡ false)
      → Q w.1
      → Q (parsed S fs tmp N net token r auth w).1.1.1
  parsed_keeps url (fail e) auth (s, n) eq other q = q
  parsed_keeps url (ok parts) auth (s, n) eq other q =
      connected_keeps parts auth s (net.connect parts n) (λ e. (url, eq, other e))
        (keeps.connects parts n q)

  do_http_keeps :
      (url : Text) (auth : Bool) (w : S × N)
      → Q w.1
      → Q (do_http S fs tmp N net token url (auth && not (is_s3_url url)) w).1.1.1
  unfolding do_http
  do_http_keeps url auth w q =
      parsed_keeps url (parse_url url) (auth && not (is_s3_url url)) w refl
        (other auth (is_s3_url url)) q
    where
      other : (a b : Bool) → a && not b ≡ true → b ≡ false
      other true true e = absurd (cc)
      other true false e = refl
      other false b e = absurd (cc)

  renamed_keeps : (n : N) (r : Ret × S) → Q n → Q (renamed S fs tmp N net token n r).1.1
  renamed_keeps n (err e, s) q = q
  renamed_keeps n (val k, s) q = q

  ended_keeps :
      (ctx : DownloadCtx) (w : S × N) → Q w.1 → Q (ended S fs tmp N net token path ctx w).1.1
  ended_keeps ctx (s, n) q =
      elim (Bool-cases (ltb ctx.status_code 200 || leb 300 ctx.status_code)) [
        | inl bad ↦ rw bad q
        | inr good ↦ rw good (renamed_keeps n (fs.rename tmp path s) q)
      ]

  followed_keeps :
      (more : Text → S × N → Ret × (S × N)) (current : Text) (ctx : DownloadCtx)
      (next : Option Text) (w : S × N)
      → Q w.1
      → ((url : Text) (w' : S × N) → Q w'.1 → Q (more url w').1.1)
      → Q (followed S fs tmp N net token more path current ctx next w).1.1
  followed_keeps more current ctx none w q go = ended_keeps ctx w q
  followed_keeps more current ctx (some location) (s, n) q go = go _ ((fs.unlink tmp s).1, n) q

  closed_keeps :
      (more : S × N → Ret × (S × N)) (n : N) (r : Ret × S)
      → Q n
      → ((w : S × N) → Q w.1 → Q (more w).1.1)
      → Q (closed S fs tmp N net token more n r).1.1
  closed_keeps more n (err e, s) q go = q
  closed_keeps more n (val k, s) q go = go ((fs.close tmp s).1, n) q

  exchanged_keeps :
      (more : DownloadCtx → S × N → Ret × (S × N)) (x : Ret × (DownloadCtx × (S × N)))
      → Q x.1.1.1
      → ((ctx : DownloadCtx) (w : S × N) → Q w.1 → Q (more ctx w).1.1)
      → Q (exchanged S fs tmp N net token more x).1.1
  exchanged_keeps more (err e, (ctx, (s, n))) q go = q
  exchanged_keeps more (val k, (ctx, (s, n))) q go =
      closed_keeps (λ w. more ctx w) n (fs.sync tmp s) q (λ w q'. go ctx w q')

  created_keeps :
      (more : S × N → Ret × (S × N)) (n : N) (r : Ret × S)
      → Q n
      → ((w : S × N) → Q w.1 → Q (more w).1.1)
      → Q (created S fs tmp N net token more n r).1.1
  created_keeps more n (err e, s) q go = q
  created_keeps more n (val k, s) q go = go (s, n) q

  -- what follows an exchange, with redirects left
  abbrev turn : ℕ → Bool → Text → DownloadCtx → S × N → Ret × (S × N)
  turn left auth current ctx w =
      followed S fs tmp N net token (λ next w'. attempt S fs tmp N net token left auth path next w')
        path current ctx (redirected ctx) w

  abbrev exchange : (DownloadCtx → S × N → Ret × (S × N)) → Bool → Text → S × N → Ret × (S × N)
  exchange more auth current w =
      exchanged S fs tmp N net token more
        (do_http S fs tmp N net token current (auth && not (is_s3_url current)) w)

  attempt_keeps :
      (left : ℕ) (auth : Bool) (current : Text) (w : S × N)
      → Q w.1
      → Q (attempt S fs tmp N net token left auth path current w).1.1
  unfolding attempt
  attempt_keeps zero auth current (s, n) q =
      created_keeps (exchange (λ ctx w'. ended S fs tmp N net token path ctx w') auth current) n
        (fs.create tmp s) q
        (λ w q'.
          exchanged_keeps (λ ctx w'. ended S fs tmp N net token path ctx w') _
            (do_http_keeps current auth w q') (λ ctx w' q''. ended_keeps ctx w' q''))
  attempt_keeps (suc left) auth current (s, n) q =
      created_keeps (exchange (λ ctx w'. turn left auth current ctx w') auth current) n
        (fs.create tmp s) q
        (λ w q'.
          exchanged_keeps (λ ctx w'. turn left auth current ctx w') _
            (do_http_keeps current auth w q')
            (λ ctx w' q''.
              followed_keeps (λ next w''. attempt S fs tmp N net token left auth path next w'')
                current ctx (redirected ctx) w' q''
                (λ url w'' q'''. attempt_keeps left auth url w'' q''')))

-- a network with the requests that are made of it, the last one first
abbrev pub logged : {N : Type 0} → Net N → Net (N × List (UrlParts × Bool))
logged net = record {
  connect = λ parts (n, log). ((net.connect parts n).0, ((net.connect parts n).1, log));
  request = λ parts auth (n, log).
      ((net.request parts auth n).0, ((net.request parts auth n).1, (parts, auth) ∷ log));
}

abbrev pub Careful : List (UrlParts × Bool) → Type 0
Careful [] = Unit {0}
Careful ((parts, true) ∷ log) = Trusted parts × Careful log
Careful ((parts, false) ∷ log) = Careful log

module _ (S : Type 0) (fs : Fs Text S) (N : Type 0) (net : Net N) (token : Text) where
  logged-Keeps : Keeps (N × List (UrlParts × Bool)) (logged net) (λ m. Careful m.1)
  logged-Keeps = record {
    connects = λ parts m q. q;
    plain = λ parts m q. q;
    signed = λ parts m trust q. (trust, q);
  }

  -- Every request of a download, redirects included, that carries the device's token goes where a
  -- URL leads that is not one of S3.
  pub http_download_to_file-Careful :
      (url path : Text) (auth : Bool) (s : S) (n : N)
      → Careful
          (http_download_to_file S fs
            (N × List (UrlParts × Bool))
            (logged net)
            token
            url
            auth
            path
            (s, (n, []))).1.1.1
  unfolding http_download_to_file
  http_download_to_file-Careful url path auth s n = whole (leb 384 (length path + 5))
    where
      whole :
          (long : Bool)
          → Careful
              (if long
                then (err enomem, (s, (n, [])))
                else attempt S fs
                    (tmp_of path)
                    (N × List (UrlParts × Bool))
                    (logged net)
                    token
                    max_redirects
                    auth
                    path
                    (take (url_max - 1) url)
                    (s, (n, []))).1.1.1
      whole true = tt
      whole false =
          attempt_keeps S fs (N × List (UrlParts × Bool)) (logged net) token path (tmp_of path)
            (λ m. Careful m.1) logged-Keeps max_redirects auth (take (url_max - 1) url) (s, (n, []))
            tt
