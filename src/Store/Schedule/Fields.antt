-- ===== src/Store/Schedule/Fields.antt =====
-- eink_store.c: the fields of a job are found by their keys in the text that is printed of it.
use mender_rt1180_zephyr.Prelude.{
  ◌≤◌, ◌≡◌, ◌≢◌, refl, ap, ◌∙◌, arith, false, Bool-cases, inl, inr, [], ◌∷◌, ◌++◌, length, ◌==◌,
  codes,
}
use mender_rt1180_zephyr.Prelude.Int.{ltb_ℤ}
use mender_rt1180_zephyr.Scheduler.Core.{Job}
use mender_rt1180_zephyr.Store.Json.{starts, after_key}
use mender_rt1180_zephyr.Store.Json.RoundTrip.{after_key_step, starts_quote, starts_other}
use mender_rt1180_zephyr.Store.Reader.{Text}
use mender_rt1180_zephyr.Store.Decimal.{llong_min, llong_max}
use mender_rt1180_zephyr.Store.Decimal.RoundTrip.{strtoll-show_int}
use mender_rt1180_zephyr.Store.Settings.RoundTrip.{QuoteFree, up_to_quote_name}
use mender_rt1180_zephyr.Store.Schedule.{
  entry_body, after_char, behind_key, field, number_behind_key, parse_job,
}

-- A key does not start at the quote in front of another name.
starts_name :
    (ks x text : Text)
    → QuoteFree ks
    → QuoteFree x
    → x ≢ ks
    → starts (ks ++ b'"' ∷ []) (x ++ (b'"' ∷ text)) ≡ false
unfolding starts
starts_name [] [] text hk hx ne = absurd (ne refl)
starts_name [] (c ∷ x) text hk hx ne = ground arith
starts_name (k ∷ ks) [] text hk hx ne = ground arith
starts_name (k ∷ ks) (c ∷ x) text hk hx ne = elim (Bool-cases (k == c)) [
  | inl same ↦
      let e : k ≡ c = ground arith in
      rw same (starts_name ks x text hk.2 hx.2 (λ p. ne (rw (e, p) refl)))
  | inr other ↦ rw other refl
]

-- The search for a key passes over a name up to the quote behind it,
after_key_name :
    (ks x text : Text)
    → QuoteFree x
    → after_key (b'"' ∷ ks) (x ++ (b'"' ∷ text)) ≡ after_key (b'"' ∷ ks) (b'"' ∷ text)
after_key_name ks [] text h = refl
after_key_name ks (c ∷ x) text h =
    after_key_step (b'"' ∷ ks) c (x ++ (b'"' ∷ text)) (starts_other ks (x ++ (b'"' ∷ text)) c h.1)
    ∙ after_key_name ks x text h.2

-- and from the quote in front of one that is not the key's.
passed :
    (ks x text : Text)
    → QuoteFree ks
    → QuoteFree x
    → x ≢ ks
    → after_key (b'"' ∷ (ks ++ b'"' ∷ [])) (b'"' ∷ (x ++ (b'"' ∷ text)))
      ≡ after_key (b'"' ∷ (ks ++ b'"' ∷ [])) (b'"' ∷ text)
passed ks x text hk hx ne =
    let kq = ks ++ b'"' ∷ [] in
    after_key_step (b'"' ∷ kq) b'"' (x ++ (b'"' ∷ text))
      (starts_quote kq (x ++ (b'"' ∷ text)) b'"' (starts_name ks x text hk hx ne))
    ∙ after_key_name kq x text hx

-- No identifier is one of the keys that stand behind it.
pub record Distinct (j : Job) : Type 0 where
  pub job_id_image_id : j.job_id ≢ codes "image_id"
  pub job_id_cron : j.job_id ≢ codes "cron"
  pub job_id_next_run : j.job_id ≢ codes "next_run"
  pub image_id_cron : j.image_id ≢ codes "cron"
  pub image_id_next_run : j.image_id ≢ codes "next_run"
  pub cron_next_run : j.cron ≢ codes "next_run"

-- What fits the arrays of a job.
pub record Fits (j : Job) : Type 0 where
  pub job_id_name : QuoteFree j.job_id
  pub image_id_name : QuoteFree j.image_id
  pub cron_name : QuoteFree j.cron
  pub job_id_length : length j.job_id ≤ 63
  pub image_id_length : length j.image_id ≤ 63
  pub cron_length : length j.cron ≤ 31
  pub next_run_low : ltb_ℤ j.next_run_unix llong_min ≡ false
  pub next_run_high : ltb_ℤ llong_max j.next_run_unix ≡ false

module _ (j : Job) (f : Fits j) (d : Distinct j) where
  found_job_id : field 63 (codes "\"job_id\"") (entry_body j) ≡ j.job_id
  unfolding field after_key starts after_char
  found_job_id = up_to_quote_name 63 j.job_id _ f.job_id_name f.job_id_length

  found_image_id : field 63 (codes "\"image_id\"") (entry_body j) ≡ j.image_id
  unfolding field after_key starts after_char
  found_image_id =
      ap (behind_key 63)
        (passed (codes "image_id") j.job_id _ (ground arith) f.job_id_name d.job_id_image_id)
      ∙ up_to_quote_name 63 j.image_id _ f.image_id_name f.image_id_length

  found_cron : field 31 (codes "\"cron\"") (entry_body j) ≡ j.cron
  unfolding field after_key starts after_char
  found_cron =
      ap (behind_key 31) (
        passed (codes "cron") j.job_id _ (ground arith) f.job_id_name d.job_id_cron
        ∙ passed (codes "cron") j.image_id _ (ground arith) f.image_id_name d.image_id_cron)
      ∙ up_to_quote_name 31 j.cron _ f.cron_name f.cron_length

  found_next_run :
      number_behind_key (after_key (codes "\"next_run\"") (entry_body j)) ≡ j.next_run_unix
  unfolding after_key starts after_char
  found_next_run =
      ap number_behind_key (
        passed (codes "next_run") j.job_id _ (ground arith) f.job_id_name d.job_id_next_run
        ∙ passed (codes "next_run") j.image_id _ (ground arith) f.image_id_name d.image_id_next_run
        ∙ passed (codes "next_run") j.cron _ (ground arith) f.cron_name d.cron_next_run)
      ∙ strtoll-show_int j.next_run_unix b'}' [] refl f.next_run_low f.next_run_high

  pub parse_job-entry_body : parse_job (entry_body j) ≡ j
  unfolding parse_job
  parse_job-entry_body = rw (found_job_id, found_image_id, found_cron, found_next_run) refl
