-- ===== src/Store/Settings/RoundTrip.antt =====
-- eink_store.c: the time and the identifier that are loaded are those that were saved.
use mender_rt1180_zephyr.Prelude.{
  ℕ, zero, suc, ◌+◌, ◌-◌, ◌/◌, ◌%◌, ◌≤◌, ◌<◌, ◌≡◌, ◌≢◌, refl, ap, ◌∙◌, arith, false, Bool-cases,
  inl, inr, [], ◌∷◌, ◌++◌, length, length-append, take_long, ◌==◌, ltb, Ret, val, err, Result, ok,
  fail, codes,
}
use mender_rt1180_zephyr.Prelude.Int.{ℤ, pos, negsuc, ltb_ℤ}
use mender_rt1180_zephyr.Fs.{Fs, Lawful, Readable}
use mender_rt1180_zephyr.Store.Json.{starts, after_key}
use mender_rt1180_zephyr.Store.Reader.{Text, c_string, read_file, read_file-content}
use mender_rt1180_zephyr.Store.Atomic.{write_file}
use mender_rt1180_zephyr.Store.Atomic.Replace.{write_file-content}
use mender_rt1180_zephyr.Store.Decimal.{show_digits, show_int, max_digits, llong_min, llong_max}
use mender_rt1180_zephyr.Store.Decimal.Whole.{
  ZeroFree, nil-Whole, show_int-Whole, literal-Whole, Whole-c_string,
}
use mender_rt1180_zephyr.Store.Decimal.RoundTrip.{strtoll-show_int}
use mender_rt1180_zephyr.Store.Settings.{
  state_path, sync_path, last_sync_text, state_text, up_to_quote, sync_value, state_value,
  read_value, found_value, save_last_sync, save_state, load_last_sync, load_state,
}

-- no 0 and no quote
abbrev pub QuoteFree : Text → Type 0
QuoteFree [] = 0 ≤ 0
QuoteFree (c ∷ text) = (c ≢ 0) × (c ≢ b'"') × QuoteFree text

length-show_digits : (k n : ℕ) (text : Text) → length (show_digits k n text) ≤ k + length text
unfolding show_digits
length-show_digits zero n text = omega arith
length-show_digits (suc k) n text = elim (Bool-cases (ltb n 10)) [
  | inl one ↦ rw one (omega arith)
  | inr several ↦ rw several (omega (arith, length-show_digits k (n / 10) ((b'0' + n % 10) ∷ text)))
]

pub length-show_int : (v : ℤ) (text : Text) → length (show_int v text) ≤ 21 + length text
unfolding show_int
length-show_int (pos n) text = omega (arith, length-show_digits max_digits n text)
length-show_int (negsuc n) text = omega (arith, length-show_digits max_digits (suc n) text)

pub name_free : (x : Text) → QuoteFree x → ZeroFree x
name_free [] h = h
name_free (c ∷ x) h = (h.0, name_free x h.2)

pub up_to_quote_name :
    (n : ℕ) (id rest : Text)
    → QuoteFree id
    → length id ≤ n
    → up_to_quote n (id ++ (b'"' ∷ rest)) ≡ id
unfolding up_to_quote
up_to_quote_name zero [] rest h fits = refl
up_to_quote_name zero (c ∷ id) rest h fits = absurd (omega arith)
up_to_quote_name (suc n) [] rest h fits = refl
up_to_quote_name (suc n) (c ∷ id) rest h fits =
    let other : (c == b'"') ≡ false = ground arith in
    rw other (ap (λ l. c ∷ l) (up_to_quote_name n id rest h.2 (omega arith)))

last_sync_text_clean : (v : ℤ) → c_string (last_sync_text v) ≡ last_sync_text v
last_sync_text_clean v = Whole-c_string (last_sync_text v) (
    literal-Whole (codes "{\"last_sync_unix\":") (ground arith) (show_int v (codes "}\n"))
      (show_int-Whole v (codes "}\n") (literal-Whole (codes "}\n") (ground arith) [] nil-Whole)))

sync_value-last_sync_text :
    (v : ℤ)
    → ltb_ℤ v llong_min ≡ false
    → ltb_ℤ llong_max v ≡ false
    → sync_value (last_sync_text v) ≡ v
unfolding after_key starts
sync_value-last_sync_text v low high = strtoll-show_int v b'}' (codes "\n") refl low high

state_text_clean : (id : Text) → QuoteFree id → c_string (state_text id) ≡ state_text id
state_text_clean id h = Whole-c_string (state_text id) (
    literal-Whole (codes "{\"last_displayed_job_id\":\"") (ground arith) (id ++ codes "\"}\n") (
      literal-Whole id (name_free id h) (codes "\"}\n")
        (literal-Whole (codes "\"}\n") (ground arith) [] nil-Whole)))

state_value-state_text :
    (n : ℕ) (id : Text) → QuoteFree id → length id ≤ n → state_value (suc n) (state_text id) ≡ id
unfolding after_key starts
state_value-state_text n id h fits = rw_pred n id h fits
  where
    rw_pred :
        (n : ℕ) (id : Text)
        → QuoteFree id
        → length id ≤ n
        → up_to_quote (suc n - 1) (id ++ codes "\"}\n") ≡ id
    rw_pred n id h fits =
        let same : suc n - 1 ≡ n = omega arith in
        rw same (up_to_quote_name n id (codes "}\n") h fits)

module _ (S : Type 0) (fs : Fs Text S) (law : Lawful Text S fs) (rd : Readable Text S fs)
    (root : Text) where
  read_value-ok :
      {A : Type 0} (default : A) (value : Text → A) (r : Result Text × S) (c : ℕ) (text : Text)
      → r.0 ≡ ok (c ∷ text)
      → (read_value S fs root default value r).0 ≡ ok (value (c_string (c ∷ text)))
  read_value-ok default value (fail e, s) c text h = absurd (cc)
  read_value-ok default value (ok [], s) c text h = absurd (cc)
  read_value-ok default value (ok (d ∷ bytes), s) c text h =
      let same : d ∷ bytes ≡ c ∷ text = cc in ap (λ l. ok (value (c_string l))) same

  found_value-read :
      {A : Type 0} (default : A) (value : Text → A) (path : Text) (cap j : ℕ) (r : Ret × S)
      → r.0 ≡ val j
      → found_value S fs root default value path cap r
        ≡ read_value S fs root default value (read_file Text S fs path cap r.1)
  found_value-read default value path cap j (err e, s) h = absurd (cc)
  found_value-read default value path cap j (val n, s) h = refl

  -- what is written to a file is what is found in it
  found_value-write_file :
      {A : Type 0} (default : A) (value : Text → A) (path tmp : Text) (cap j c : ℕ)
      (text bytes : Text) (s : S)
      → length (c ∷ text) ≤ cap
      → c_string (c ∷ text) ≡ c ∷ text
      → (write_file Text S fs path tmp (c ∷ text) s).0 ≡ val 0
      → let s1 = (write_file Text S fs path tmp (c ∷ text) s).1 in
        (fs.stat path s1).0 ≡ val j
        → (read_file Text S fs path cap (fs.stat path s1).1).0 ≡ ok bytes
        → (found_value S fs root default value path cap (fs.stat path s1)).0 ≡ ok (value (c ∷ text))
  found_value-write_file default value path tmp cap j c text bytes s fits clean wrote there got =
      let s1 = (write_file Text S fs path tmp (c ∷ text) s).1 in
      let s2 = (fs.stat path s1).1 in
      let held = write_file-content Text S fs law path tmp (c ∷ text) s wrote in
      let all =
        read_file-content Text S fs path cap s2 (c ∷ text) bytes rd
          (law.stat-content path path s1 ∙ held) got
        ∙ take_long cap (c ∷ text) fits in
      ap (λ r. r.0) (found_value-read default value path cap j (fs.stat path s1) there)
      ∙ read_value-ok default value (read_file Text S fs path cap s2) c text (got ∙ ap ok all)
      ∙ ap (λ l. ok (value l)) clean

  -- On a lawful and readable file system: a time that fits a `long long` is loaded as it was saved,
  -- where the save returned 0 and the stat and the read of the load do not fail.
  pub load_last_sync-save_last_sync :
      (v : ℤ) (s : S) (j : ℕ) (bytes : Text)
      → ltb_ℤ v llong_min ≡ false
      → ltb_ℤ llong_max v ≡ false
      → (save_last_sync S fs root v s).0 ≡ val 0
      → let s1 = (save_last_sync S fs root v s).1 in
        (fs.stat (sync_path root) s1).0 ≡ val j
        → (read_file Text S fs (sync_path root) 95 (fs.stat (sync_path root) s1).1).0 ≡ ok bytes
        → (load_last_sync S fs root s1).0 ≡ ok v
  unfolding save_last_sync load_last_sync
  load_last_sync-save_last_sync v s j bytes low high wrote there got =
      found_value-write_file (pos 0) sync_value (sync_path root) (sync_path root ++ codes ".tmp") 95
        j b'{' (codes "\"last_sync_unix\":" ++ show_int v (codes "}\n")) bytes s
        (omega (arith, length-show_int v (codes "}\n"))) (last_sync_text_clean v) wrote there got
      ∙ ap ok (sync_value-last_sync_text v low high)

  -- On a lawful and readable file system: an identifier of less than 64 bytes, without a quote and
  -- shorter than the buffer that it is loaded into, is loaded as it was saved, where the save
  -- returned 0 and the stat and the read of the load do not fail.
  pub load_state-save_state :
      (id : Text) (n : ℕ) (s : S) (j : ℕ) (bytes : Text)
      → QuoteFree id
      → length id < 64
      → length id ≤ n
      → (save_state S fs root id s).0 ≡ val 0
      → let s1 = (save_state S fs root id s).1 in
        (fs.stat (state_path root) s1).0 ≡ val j
        → (read_file Text S fs (state_path root) 255 (fs.stat (state_path root) s1).1).0 ≡ ok bytes
        → (load_state S fs root (suc n) s1).0 ≡ ok id
  unfolding save_state load_state
  load_state-save_state id n s j bytes h small fits wrote there got =
      found_value-write_file [] (state_value (suc n)) (state_path root)
        (state_path root ++ codes ".tmp") 255 j b'{'
        (codes "\"last_displayed_job_id\":\"" ++ id ++ codes "\"}\n") bytes s
        (omega (arith, length-append id (codes "\"}\n"))) (state_text_clean id h) wrote there got
      ∙ ap ok (state_value-state_text n id h fits)
