-- ===== src/Store/Schedule/Whole.antt =====
-- eink_store.c: the text of a schedule is all of the C string in the buffer that it is read into.
use mender_rt1180_zephyr.Prelude.{
  ℕ, zero, suc, ◌≡◌, refl, ap, ◌∙◌, arith, Bool, true, false, List, [], ◌∷◌, ◌++◌, take, codes,
}
use mender_rt1180_zephyr.Scheduler.Core.{Job}
use mender_rt1180_zephyr.Store.Reader.{Text, c_string}
use mender_rt1180_zephyr.Store.Settings.RoundTrip.{name_free}
use mender_rt1180_zephyr.Store.Decimal.Whole.{
  Whole, cons-Whole, brace-Whole, show_int-Whole, literal-Whole,
}
use mender_rt1180_zephyr.Store.Schedule.{entry_body}
use mender_rt1180_zephyr.Store.Schedule.Fields.{Fits}
use mender_rt1180_zephyr.Store.Schedule.RoundTrip.{AllPrintable, entries, schedule_text}

entry_body-Whole : (j : Job) → Fits j → Whole (entry_body j)
entry_body-Whole j f = literal-Whole (codes "{\"job_id\":\"") (ground arith) _ (
    literal-Whole j.job_id (name_free j.job_id f.job_id_name) _ (
      literal-Whole (codes "\",\"image_id\":\"") (ground arith) _ (
        literal-Whole j.image_id (name_free j.image_id f.image_id_name) _ (
          literal-Whole (codes "\",\"cron\":\"") (ground arith) _ (
            literal-Whole j.cron (name_free j.cron f.cron_name) _ (
              literal-Whole (codes "\",\"next_run\":") (ground arith) _
                (show_int-Whole j.next_run_unix (codes "}") brace-Whole)))))))

entries_whole :
    (first : Bool) (jobs : List Job) (tail : Text)
    → AllPrintable jobs
    → c_string tail ≡ tail
    → c_string (entries first jobs tail) ≡ entries first jobs tail
entries_whole first [] tail p h = h
entries_whole true (j ∷ jobs) tail p h =
    entry_body-Whole j p.0.fits (entries false jobs tail)
    ∙ ap (λ l. entry_body j ++ l) (entries_whole false jobs tail p.1 h)
entries_whole false (j ∷ jobs) tail p h =
    cons-Whole b',' (entry_body j) (omega arith) (entry_body-Whole j p.0.fits)
      (entries false jobs tail)
    ∙ ap (λ l. b',' ∷ (entry_body j ++ l)) (entries_whole false jobs tail p.1 h)

tail_whole : (k : ℕ) → c_string (take k (codes "]}\n")) ≡ take k (codes "]}\n")
unfolding c_string
tail_whole zero = refl
tail_whole (suc zero) = refl
tail_whole (suc (suc zero)) = refl
tail_whole (suc (suc (suc k))) = take_empty k
  where
    take_empty :
        (k : ℕ) → b']' ∷ b'}' ∷ b'\n' ∷ c_string (take k []) ≡ b']' ∷ b'}' ∷ b'\n' ∷ take k []
    take_empty zero = refl
    take_empty (suc k) = refl

pub schedule_text_whole :
    (jobs : List Job) (k : ℕ)
    → AllPrintable jobs
    → c_string (schedule_text jobs k) ≡ schedule_text jobs k
unfolding c_string
schedule_text_whole jobs k p =
    ap (λ l. codes "{\"jobs\":[" ++ l)
      (entries_whole true jobs (take k (codes "]}\n")) p (tail_whole k))
