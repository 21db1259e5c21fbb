-- ===== src/Http/Url/Tests.antt =====
-- URLs at concrete texts.
use mender_rt1180_zephyr.Prelude.{◌≡◌, refl, arith, true, ok, codes}
use mender_rt1180_zephyr.Store.Json.{starts}
use mender_rt1180_zephyr.Http.Url.{before, from, parse_rest, parse_url, resolve_redirect}
use mender_rt1180_zephyr.Http.Url.RoundTrip.{parse_url-scheme}

-- The port of the base is not in what a redirect without a host is resolved to.
redirect_without_port :
    resolve_redirect (codes "http://server:8080/a") (codes "/b") 100 ≡ codes "http://server/b"
unfolding resolve_redirect parse_url parse_rest before from starts
redirect_without_port = refl

parse_url-scheme_example :
    parse_url (codes "https://server:8443/a/b")
    ≡ ok (record { https = true; host = codes "server"; port = codes "8443"; path = codes "/a/b" })
parse_url-scheme_example =
    parse_url-scheme (codes "server") (codes "8443") (codes "a/b") (ground arith) (ground arith)
      (ground arith) (omega arith) (omega arith) (omega arith) (omega arith) true
