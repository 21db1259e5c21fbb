-- ===== src/Http/Download/Untouched.antt =====
-- eink_http.c: a download that fails leaves the file that it was to replace.
use mender_rt1180_zephyr.Prelude.{
  ℕ, zero, suc, ◌+◌, ◌-◌, ◌≡◌, ◌≢◌, refl, ap, ◌∙◌, arith, Bool, true, false, not, ◌&&◌, ◌||◌, ltb,
  leb, if◌then◌else◌, Bool-cases, inl, inr, List, [], ◌∷◌, length, length-append, take, Option,
  none, some, Ret, val, err, Errno, Result, ok, fail, eio, enomem,
}
use mender_rt1180_zephyr.Fs.{Fs, Lawful, Apart}
use mender_rt1180_zephyr.Store.Reader.{Text}
use mender_rt1180_zephyr.Http.Url.{url_max, UrlParts, parse_url, is_s3_url, looks_like_jpeg_or_png}
use mender_rt1180_zephyr.Http.Download.{
  Net, DownloadCtx, max_redirects, redirected, taken, download_response_cb, unless_failed, called,
  connected, parsed, do_http, given_up, snippet, renamed, ended, followed, closed, exchanged,
  created, attempt, tmp_of, http_download_to_file,
}

module _ (S : Type 0) (fs : Fs Text S) (law : Lawful Text S fs) (apart : Apart Text S fs)
    (N : Type 0) (net : Net N) (token path tmp : Text) (ne : path ≢ tmp) where
  taken_keeps :
      (ctx : DownloadCtx) (len : ℕ) (r : Ret × S)
      → fs.content (taken S fs tmp ctx len r).1 path ≡ fs.content r.1 path
  taken_keeps ctx len (err e, s) = refl
  taken_keeps ctx len (val n, s) = ground arith

  response_keeps :
      (r : ℕ × List ℕ) (ctx : DownloadCtx) (s : S)
      → fs.content (download_response_cb S fs tmp r ctx s).1 path ≡ fs.content s path
  unfolding download_response_cb
  response_keeps (status, []) ctx s = refl
  response_keeps (status, b ∷ body) ctx s =
      elim (Bool-cases (not ctx.magic_checked && looks_like_jpeg_or_png (take 8 (b ∷ body)))) [
        | inl refused ↦ rw refused refl
        | inr fine ↦ rw fine (
            taken_keeps (record ctx { status_code = status; magic_checked = true })
              (length (b ∷ body)) (fs.write tmp (b ∷ body) s)
            ∙ apart.write_apart tmp path (b ∷ body) s ne)
      ]

  unless_failed_keeps :
      (more : DownloadCtx → S → DownloadCtx × S) (f : Option Errno) (ctx : DownloadCtx) (s : S)
      → fs.content (more ctx s).1 path ≡ fs.content s path
      → fs.content (unless_failed S fs tmp more f ctx s).1 path ≡ fs.content s path
  unless_failed_keeps more none ctx s h = h
  unless_failed_keeps more (some e) ctx s h = refl

  called_keeps :
      (rs : List (ℕ × List ℕ)) (ctx : DownloadCtx) (s : S)
      → fs.content (called S fs tmp rs ctx s).1 path ≡ fs.content s path
  unfolding called
  called_keeps [] ctx s = refl
  called_keeps (r ∷ rs) ctx s =
      let next = download_response_cb S fs tmp r ctx s in
      unless_failed_keeps (λ c z. called S fs tmp rs c z) next.0.failure next.0 next.1
        (called_keeps rs next.0 next.1)
      ∙ response_keeps r ctx s

  connected_keeps :
      (parts : UrlParts) (auth : Bool) (s : S) (r : Ret × N)
      → fs.content (connected S fs tmp N net token parts auth s r).1.1.0 path ≡ fs.content s path
  connected_keeps parts auth s (err e, n) = refl
  connected_keeps parts auth s (val sock, n) = called_keeps _ _ s

  parsed_keeps :
      (r : Result UrlParts) (auth : Bool) (w : S × N)
      → fs.content (parsed S fs tmp N net token r auth w).1.1.0 path ≡ fs.content w.0 path
  parsed_keeps (fail e) auth (s, n) = refl
  parsed_keeps (ok parts) auth (s, n) = connected_keeps parts auth s (net.connect parts n)

  do_http_keeps :
      (url : Text) (auth : Bool) (w : S × N)
      → fs.content (do_http S fs tmp N net token url auth w).1.1.0 path ≡ fs.content w.0 path
  unfolding do_http
  do_http_keeps url auth w = parsed_keeps (parse_url url) auth w

  -- what fails leaves the file as it was
  abbrev Spared : Option (List ℕ) → Ret × (S × N) → Type 0
  Spared before r = (e : Errno) → r.0 ≡ err e → fs.content r.1.0 path ≡ before

  module _ (before : Option (List ℕ)) where
    given_up-Spared :
        (e : Errno) (w : S × N)
        → fs.content w.0 path ≡ before
        → Spared before (given_up S fs tmp N net token e w)
    given_up-Spared e (s, n) h = λ e' eq. law.unlink_apart tmp path s ne ∙ h

    snippet_keeps :
        (r : Ret × S) → fs.content (snippet S fs tmp N net token r) path ≡ fs.content r.1 path
    snippet_keeps (err e, s) = refl
    snippet_keeps (val k, s) = law.close-content tmp path _ ∙ law.read-content tmp path 159 s

    renamed-Spared :
        (n : N) (r : Ret × S)
        → ((e : Errno) → r.0 ≡ err e → fs.content r.1 path ≡ before)
        → Spared before (renamed S fs tmp N net token n r)
    renamed-Spared n (err e, s) h = given_up-Spared e (s, n) (h e refl)
    renamed-Spared n (val k, s) h = λ e eq. absurd (cc)

    ended-Spared :
        (ctx : DownloadCtx) (w : S × N)
        → fs.content w.0 path ≡ before
        → Spared before (ended S fs tmp N net token path ctx w)
    ended-Spared ctx (s, n) h =
        elim (Bool-cases (ltb ctx.status_code 200 || leb 300 ctx.status_code)) [
          | inl bad ↦ rw bad (
              given_up-Spared eio (_, n)
                (snippet_keeps (fs.open_read tmp s) ∙ law.open_read-content tmp path s ∙ h))
          | inr good ↦ rw good (
              renamed-Spared n (fs.rename tmp path s)
                (λ e eq. apart.rename_apart tmp path s e eq ∙ h))
        ]

    followed-Spared :
        (more : Text → S × N → Ret × (S × N)) (current : Text) (ctx : DownloadCtx)
        (next : Option Text) (w : S × N)
        → fs.content w.0 path ≡ before
        → ((url : Text) (w' : S × N) → fs.content w'.0 path ≡ before → Spared before (more url w'))
        → Spared before (followed S fs tmp N net token more path current ctx next w)
    followed-Spared more current ctx none w h go = ended-Spared ctx w h
    followed-Spared more current ctx (some location) (s, n) h go =
        go _ ((fs.unlink tmp s).1, n) (law.unlink_apart tmp path s ne ∙ h)

    closed-Spared :
        (more : S × N → Ret × (S × N)) (n : N) (r : Ret × S)
        → fs.content r.1 path ≡ before
        → ((w : S × N) → fs.content w.0 path ≡ before → Spared before (more w))
        → Spared before (closed S fs tmp N net token more n r)
    closed-Spared more n (err e, s) h go =
        given_up-Spared e ((fs.close tmp s).1, n) (law.close-content tmp path s ∙ h)
    closed-Spared more n (val k, s) h go =
        go ((fs.close tmp s).1, n) (law.close-content tmp path s ∙ h)

    exchanged-Spared :
        (more : DownloadCtx → S × N → Ret × (S × N)) (x : Ret × (DownloadCtx × (S × N)))
        → fs.content x.1.1.0 path ≡ before
        → ((ctx : DownloadCtx) (w : S × N)
            → fs.content w.0 path ≡ before
            → Spared before (more ctx w))
        → Spared before (exchanged S fs tmp N net token more x)
    exchanged-Spared more (err e, (ctx, (s, n))) h go =
        given_up-Spared e ((fs.close tmp s).1, n) (law.close-content tmp path s ∙ h)
    exchanged-Spared more (val k, (ctx, (s, n))) h go =
        closed-Spared (λ w. more ctx w) n (fs.sync tmp s) (law.sync-content tmp path s ∙ h)
          (λ w k'. go ctx w k')

    created-Spared :
        (more : S × N → Ret × (S × N)) (n : N) (r : Ret × S)
        → fs.content r.1 path ≡ before
        → ((w : S × N) → fs.content w.0 path ≡ before → Spared before (more w))
        → Spared before (created S fs tmp N net token more n r)
    created-Spared more n (err e, s) h go = λ e' eq. h
    created-Spared more n (val k, s) h go = go (s, n) h

    -- what follows an exchange, with redirects left
    abbrev turn : ℕ → Bool → Text → DownloadCtx → S × N → Ret × (S × N)
    turn left auth current ctx w =
        followed S fs tmp N net token
          (λ next w'. attempt S fs tmp N net token left auth path next w') path current ctx
          (redirected ctx) w

    attempt-Spared :
        (left : ℕ) (auth : Bool) (current : Text) (w : S × N)
        → fs.content w.0 path ≡ before
        → Spared before (attempt S fs tmp N net token left auth path current w)
    unfolding attempt
    attempt-Spared zero auth current (s, n) h =
        created-Spared
          (λ w.
            exchanged S fs tmp N net token (λ ctx w'. ended S fs tmp N net token path ctx w')
              (do_http S fs tmp N net token current (auth && not (is_s3_url current)) w))
          n (fs.create tmp s) (apart.create_apart tmp path s ne ∙ h)
          (λ w k.
            exchanged-Spared (λ ctx w'. ended S fs tmp N net token path ctx w')
              (do_http S fs tmp N net token current (auth && not (is_s3_url current)) w)
              (do_http_keeps current (auth && not (is_s3_url current)) w ∙ k)
              (λ ctx w' k'. ended-Spared ctx w' k'))
    attempt-Spared (suc left) auth current (s, n) h =
        created-Spared
          (λ w.
            exchanged S fs tmp N net token (λ ctx w'. turn left auth current ctx w')
              (do_http S fs tmp N net token current (auth && not (is_s3_url current)) w))
          n (fs.create tmp s) (apart.create_apart tmp path s ne ∙ h)
          (λ w k.
            exchanged-Spared (λ ctx w'. turn left auth current ctx w')
              (do_http S fs tmp N net token current (auth && not (is_s3_url current)) w)
              (do_http_keeps current (auth && not (is_s3_url current)) w ∙ k)
              (λ ctx w' k'.
                followed-Spared (λ next w''. attempt S fs tmp N net token left auth path next w'')
                  current ctx (redirected ctx) w' k'
                  (λ url w'' k''. attempt-Spared left auth url w'' k'')))

path_ne_tmp : (path : Text) → path ≢ tmp_of path
path_ne_tmp path h =
    let size : length path ≡ length path + 4 = ap length h ∙ length-append path _ in
    absurd (omega (arith, size))

module _ (S : Type 0) (fs : Fs Text S) (law : Lawful Text S fs) (apart : Apart Text S fs)
    (N : Type 0) (net : Net N) (token : Text) where
  -- On a lawful file system in which a path is apart from the others: a download that fails leaves
  -- what its path held.
  pub http_download_to_file_spares :
      (url path : Text) (auth : Bool) (w : S × N) (e : Errno)
      → (http_download_to_file S fs N net token url auth path w).0 ≡ err e
      → fs.content (http_download_to_file S fs N net token url auth path w).1.0 path
        ≡ fs.content w.0 path
  unfolding http_download_to_file
  http_download_to_file_spares url path auth w e eq = whole (leb 384 (length path + 5)) e eq
    where
      whole :
          (long : Bool)
          → Spared S fs law apart N net token path
              (tmp_of path)
              (path_ne_tmp path)
              (fs.content w.0 path)
              (if long
                then (err enomem, w)
                else attempt S fs
                    (tmp_of path)
                    N
                    net
                    token
                    max_redirects
                    auth
                    path
                    (take (url_max - 1) url)
                    w)
      whole true = λ e' eq'. refl
      whole false =
          attempt-Spared S fs law apart N net token path (tmp_of path) (path_ne_tmp path)
            (fs.content w.0 path) max_redirects auth (take (url_max - 1) url) w refl
