-- ===== src/Http/Download/Tests.antt =====
-- Runs of a download.
use mender_rt1180_zephyr.Prelude.{
  ℕ, ◌+◌, ◌≡◌, refl, Bool, true, List, [], ◌∷◌, none, some, val, err, enotsup, codes,
}
use mender_rt1180_zephyr.Fs.Medium.{Flash, flash, flash-Lawful, flash-Apart, set_at, blank}
use mender_rt1180_zephyr.Store.Reader.{Text}
use mender_rt1180_zephyr.Store.Json.{starts}
use mender_rt1180_zephyr.Http.Url.{
  before, from, looks_like_jpeg_or_png, UrlParts, parse_url, parse_rest,
}
use mender_rt1180_zephyr.Http.Download.{
  Answer, Net, download_response_cb, called, do_http, attempt, http_download_to_file,
}
use mender_rt1180_zephyr.Http.Download.Untouched.{http_download_to_file_spares}
use mender_rt1180_zephyr.Http.Download.Auth.{logged, Careful, http_download_to_file-Careful}

-- a server that answers every request alike
abbrev answering : Answer → Net ℕ
answering answer = record {
  connect = λ parts n. (val 1, n);
  request = λ parts auth n. (answer, n + 1);
}

abbrev a_jpeg : Answer
a_jpeg = record {
  responses = (200, 0xFF ∷ 0xD8 ∷ 0xFF ∷ 0 ∷ []) ∷ [];
  location = none;
  outcome = val 4;
}

abbrev to_s3 : Answer
to_s3 = record {
  responses = (302, []) ∷ [];
  location = some (codes "https://b.s3.amazonaws.com/x");
  outcome = val 0;
}

abbrev url : Text
url = codes "http://h/a"

abbrev image : Text
image = codes "/i"

abbrev held : Flash
held = record blank { now = set_at image (some (7 ∷ [])) blank.now }

refused_lem :
    (http_download_to_file Flash flash ℕ (answering a_jpeg) [] url true image (held, 0)).0
    ≡ err enotsup
unfolding http_download_to_file attempt do_http called download_response_cb parse_url parse_rest
    starts before from looks_like_jpeg_or_png
refused_lem = refl

http_download_to_file_spares_example :
    flash.content
      (http_download_to_file Flash flash ℕ (answering a_jpeg) [] url true image (held, 0)).1.0
      image
    ≡ some (7 ∷ [])
http_download_to_file_spares_example =
    http_download_to_file_spares Flash flash flash-Lawful flash-Apart ℕ (answering a_jpeg) [] url
      image true (held, 0) enotsup refused_lem

http_download_to_file-Careful_example :
    Careful
      (http_download_to_file Flash flash
        (ℕ × List (UrlParts × Bool))
        (logged (answering to_s3))
        (codes "t")
        url
        true
        image
        (held, (0, []))).1.1.1
http_download_to_file-Careful_example =
    http_download_to_file-Careful Flash flash ℕ (answering to_s3) (codes "t") url image true held 0
