-- ===== src/Store/Creds.antt =====
-- eink_store.c: `eink_store_save_http_creds` and `eink_store_load_http_creds`. A path is its text,
-- and `root` the store's directory.

pub mod RoundTrip
mod Printed
use mender_rt1180_zephyr.Prelude.{
  ℕ, ◌+◌, List, [], ◌∷◌, ◌++◌, length, leb, if◌then◌else◌, Ret, val, err, Errno, einval, enoent,
  enomem, is_enoent, Result, ok, fail, ◌>>=◌, codes, ◌==◌, ◌||◌,
}
use mender_rt1180_zephyr.Fs.{Fs}
use mender_rt1180_zephyr.Store.Json.{quote_append, extract_string}
use mender_rt1180_zephyr.Store.Atomic.{write_file}
use mender_rt1180_zephyr.Store.Reader.{Text, c_string, read_file}

abbrev pub creds_path : Text → Text
creds_path root = root ++ codes "/creds.json"

abbrev pub tmp_of : Text → Text
tmp_of path = path ++ codes ".tmp"

-- `sizeof(json)`
abbrev pub json_cap : ℕ
json_cap = 768

-- a `memcpy` of a literal, where `room` bytes are left
abbrev pub put_literal : ℕ → Text → Text → Result Text
put_literal room literal out =
    if leb json_cap (length out + room) then fail enomem else ok (out ++ literal)

-- a key, and its value in quotes
unfoldable pub piece : ℕ → Text → Text → Text → Result Text
piece room key value out = do keyed ← put_literal room key out; quote_append json_cap keyed value

-- the text that is saved; a null pointer counts as the empty text
unfoldable pub creds_json : Text → Text → Text → Result Text
creds_json api_base device_id auth_token = do
  a ← piece 13 (codes "{\"api_base\":") api_base []
  d ← piece 14 (codes ",\"device_id\":") device_id a
  t ← piece 15 (codes ",\"auth_token\":") auth_token d
  put_literal 3 (codes "}\n") t

pub record Creds : Type 0 where
  pub api_base : Text
  pub device_id : Text
  pub auth_token : Text

-- the three extractions from the text that is read
unfoldable pub parse_creds : ℕ → ℕ → ℕ → Text → Result Creds
parse_creds api_cap id_cap tok_cap buf = do
  a ← extract_string buf (codes "\"api_base\":") api_cap
  d ← extract_string buf (codes "\"device_id\":") id_cap
  t ← extract_string buf (codes "\"auth_token\":") tok_cap
  ok (record { api_base = a; device_id = d; auth_token = t })

module _ (S : Type 0) (fs : Fs Text S) where
  abbrev pub saved : Text → Result Text → S → Ret × S
  saved root (fail e) s = (err e, s)
  saved root (ok json) s = write_file Text S fs (creds_path root) (tmp_of (creds_path root)) json s

  unfoldable pub save_http_creds : Text → Text → Text → Text → S → Ret × S
  save_http_creds root api_base device_id auth_token s =
      saved root (creds_json api_base device_id auth_token) s

  -- an empty file counts as none
  abbrev pub loaded : ℕ → ℕ → ℕ → Result Text × S → Result Creds × S
  loaded api_cap id_cap tok_cap (fail e, s) = (fail e, s)
  loaded api_cap id_cap tok_cap (ok [], s) = (fail enoent, s)
  loaded api_cap id_cap tok_cap (ok (c ∷ bytes), s) =
      (parse_creds api_cap id_cap tok_cap (c_string (c ∷ bytes)), s)

  abbrev pub after_stat : ℕ → ℕ → ℕ → Text → Ret × S → Result Creds × S
  after_stat api_cap id_cap tok_cap path (err e, s) = (fail e, s)
  after_stat api_cap id_cap tok_cap path (val n, s) =
      loaded api_cap id_cap tok_cap (read_file Text S fs path 767 s)

  -- a capacity is 0 for a buffer that is not there
  unfoldable pub load_http_creds : Text → ℕ → ℕ → ℕ → S → Result Creds × S
  load_http_creds root api_cap id_cap tok_cap s =
      if (api_cap == 0) || (id_cap == 0) || (tok_cap == 0)
      then (fail einval, s)
      else after_stat api_cap id_cap tok_cap (creds_path root) (fs.stat (creds_path root) s)
