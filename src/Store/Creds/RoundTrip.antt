-- ===== src/Store/Creds/RoundTrip.antt =====
-- eink_store.c: the credentials that are saved are those that are loaded.
use mender_rt1180_zephyr.Prelude.{
  ℕ, ◌≤◌, ◌<◌, ◌≡◌, refl, ap, ◌∙◌, arith, [], ◌∷◌, length, take_long, ◌==◌, ◌||◌, some, Ret, val,
  err, Result, ok, fail, false,
}
use mender_rt1180_zephyr.Fs.{Fs, Lawful, Readable}
use mender_rt1180_zephyr.Store.Json.RoundTrip.{Plain}
use mender_rt1180_zephyr.Store.Reader.{Text, c_string, read_file, read_file-content}
use mender_rt1180_zephyr.Store.Atomic.{write_file}
use mender_rt1180_zephyr.Store.Atomic.Replace.{write_file-content}
use mender_rt1180_zephyr.Store.Creds.{
  creds_path, tmp_of, creds_json, parse_creds, saved, save_http_creds, loaded, after_stat,
  load_http_creds,
}
use mender_rt1180_zephyr.Store.Creds.Printed.{file_text, creds_json-eq, c_string_file, parse_file}

module _ (S : Type 0) (fs : Fs Text S) (root a d t : Text) (m n k : ℕ) where
  loaded-file_text :
      (r : Result Text × S)
      → r.0 ≡ ok (file_text a d t)
      → (loaded S fs m n k r).0 ≡ parse_creds m n k (c_string (file_text a d t))
  loaded-file_text (fail e, s) h = absurd (cc)
  loaded-file_text (ok [], s) h = absurd (cc)
  loaded-file_text (ok (c ∷ bytes), s) h =
      let same : c ∷ bytes ≡ file_text a d t = cc in ap (λ l. parse_creds m n k (c_string l)) same

  saved_text :
      (s : S) (r : Result Text)
      → (saved S fs root r s).0 ≡ val 0
      → (json : Text) × (r ≡ ok json)
        × ((write_file Text S fs (creds_path root) (tmp_of (creds_path root)) json s).0 ≡ val 0)
        × (saved S fs root r s
            ≡ write_file Text S fs (creds_path root) (tmp_of (creds_path root)) json s)
  saved_text s (fail e) h = absurd (cc)
  saved_text s (ok json) h = (json, refl, h, refl)

  save_content :
      (s : S)
      → Lawful Text S fs
      → Plain a
      → Plain d
      → Plain t
      → (save_http_creds S fs root a d t s).0 ≡ val 0
      → (fs.content (save_http_creds S fs root a d t s).1 (creds_path root)
          ≡ some (file_text a d t))
        × (length (file_text a d t) ≤ 767)
  unfolding save_http_creds
  save_content s law ha hd ht saved_ok =
      let (json, made, wrote, same) = saved_text s (creds_json a d t) saved_ok in
      let text = creds_json-eq a d t json ha hd ht made in
      (
        ap (λ r. fs.content r.1 (creds_path root)) same
            ∙ write_file-content Text S fs law (creds_path root) (tmp_of (creds_path root)) json s
                wrote
            ∙ ap some text.0,
        omega (arith, text.1, ap length text.0),
      )

  after_stat-loaded :
      (r : Ret × S) (j : ℕ)
      → r.0 ≡ val j
      → after_stat S fs m n k (creds_path root) r
        ≡ loaded S fs m n k (read_file Text S fs (creds_path root) 767 r.1)
  after_stat-loaded (err e, s) j h = absurd (cc)
  after_stat-loaded (val i, s) j h = refl

  -- On a lawful and readable file system: credentials without control characters, each shorter than
  -- the buffer that it is loaded into, are loaded as they were saved, whatever quotes, backslashes
  -- and keys they contain. The save returned 0, and the stat and the read of the load do not fail.
  pub load_http_creds-save_http_creds :
      (s : S) (j : ℕ) (bytes : Text)
      → Lawful Text S fs
      → Readable Text S fs
      → Plain a
      → Plain d
      → Plain t
      → length a < m
      → length d < n
      → length t < k
      → (save_http_creds S fs root a d t s).0 ≡ val 0
      → let s1 = (save_http_creds S fs root a d t s).1 in
        (fs.stat (creds_path root) s1).0 ≡ val j
        → (read_file Text S fs (creds_path root) 767 (fs.stat (creds_path root) s1).1).0 ≡ ok bytes
        → (load_http_creds S fs root m n k s1).0
          ≡ ok (record { api_base = a; device_id = d; auth_token = t })
  unfolding load_http_creds
  load_http_creds-save_http_creds s j bytes law rd ha hd ht la ld lt saved_ok there got =
      let path = creds_path root in
      let s1 = (save_http_creds S fs root a d t s).1 in
      let s2 = (fs.stat path s1).1 in
      let held = save_content s law ha hd ht saved_ok in
      let all =
        read_file-content Text S fs path 767 s2 (file_text a d t) bytes rd
          (law.stat-content path path s1 ∙ held.0) got
        ∙ take_long 767 (file_text a d t) held.1 in
      let caps : ((m == 0) || (n == 0) || (k == 0)) ≡ false = ground arith in
      rw caps (
        ap (λ r. r.0) (after_stat-loaded (fs.stat path s1) j there)
        ∙ loaded-file_text (read_file Text S fs path 767 s2) (got ∙ ap ok all)
        ∙ ap (parse_creds m n k) (c_string_file a d t ha hd ht)
        ∙ parse_file a d t m n k la ld lt)
