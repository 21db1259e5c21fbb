-- ===== src/Store/Schedule/RoundTrip.antt =====
-- eink_store.c: the jobs that are printed are those that are parsed.
use mender_rt1180_zephyr.Prelude.{
  ℕ, zero, suc, ◌+◌, ◌/◌, ◌%◌, ◌≤◌, ◌<◌, ◌≡◌, ◌≢◌, refl, ap, ◌∙◌, arith, Bool, true, false,
  Bool-cases, inl, inr, List, [], ◌∷◌, ◌++◌, length, length-append, take, some, ltb, leb, ◌==◌,
  ◌||◌, Result, ok, ◌>>=◌, codes,
}
use mender_rt1180_zephyr.Prelude.Int.{ℤ, pos, negsuc}
use mender_rt1180_zephyr.Scheduler.Core.{Job}
use mender_rt1180_zephyr.Store.Json.{starts, after_key}
use mender_rt1180_zephyr.Store.Reader.{Text}
use mender_rt1180_zephyr.Store.Decimal.{show_digits, show_int, max_digits}
use mender_rt1180_zephyr.Store.Settings.RoundTrip.{length-show_int}
use mender_rt1180_zephyr.Store.Schedule.{
  entry_body, entry_text, entry_cap, max_jobs, after_char, split_object, skip_separators, object,
  element, parse_jobs, parse_schedule,
}
use mender_rt1180_zephyr.Store.Schedule.Fields.{Fits, Distinct, parse_job-entry_body}

-- no closing brace
abbrev pub Braceless : Text → Type 0
Braceless [] = 0 ≤ 0
Braceless (c ∷ text) = (c ≢ b'}') × Braceless text

-- a text that ends with its only closing brace
abbrev Closed : Text → Type 0
Closed text = (rest : Text) → split_object (text ++ rest) ≡ some (text, rest)

cons-Closed : (c : ℕ) (text : Text) → c ≢ b'}' → Closed text → Closed (c ∷ text)
unfolding split_object
cons-Closed c text h closed rest =
    let other : (c == b'}') ≡ false = ground arith in rw (other, closed rest) refl

append-Closed : (xs text : Text) → Braceless xs → Closed text → Closed (xs ++ text)
append-Closed [] text h closed = closed
append-Closed (x ∷ xs) text h closed =
    cons-Closed x (xs ++ text) h.0 (append-Closed xs text h.1 closed)

brace-Closed : Closed (codes "}")
unfolding split_object
brace-Closed rest = refl

show_digits-Closed : (k n : ℕ) (text : Text) → Closed text → Closed (show_digits k n text)
unfolding show_digits
show_digits-Closed zero n text h = h
show_digits-Closed (suc k) n text h = elim (Bool-cases (ltb n 10)) [
  | inl one ↦ rw one (cons-Closed (b'0' + n) text (ground arith) h)
  | inr several ↦ rw several (
      show_digits-Closed k (n / 10) ((b'0' + n % 10) ∷ text)
        (cons-Closed (b'0' + n % 10) text (omega arith) h))
]

show_int-Closed : (v : ℤ) (text : Text) → Closed text → Closed (show_int v text)
unfolding show_int
show_int-Closed (pos n) text h = show_digits-Closed max_digits n text h
show_int-Closed (negsuc n) text h =
    cons-Closed b'-' (show_digits max_digits (suc n) text) (omega arith)
      (show_digits-Closed max_digits (suc n) text h)

-- What a job's printed text asks for: its parts fit, are not mistaken for keys, have no brace, and
-- there are identifiers.
pub record Printable (j : Job) : Type 0 where
  pub fits : Fits j
  pub distinct : Distinct j
  pub job_id_braceless : Braceless j.job_id
  pub image_id_braceless : Braceless j.image_id
  pub cron_braceless : Braceless j.cron
  pub job_id_there : 1 ≤ length j.job_id
  pub image_id_there : 1 ≤ length j.image_id

abbrev pub AllPrintable : List Job → Type 0
AllPrintable [] = 0 ≤ 0
AllPrintable (j ∷ jobs) = Printable j × AllPrintable jobs

entry_body-Closed : (j : Job) → Printable j → Closed (entry_body j)
entry_body-Closed j p = append-Closed (codes "{\"job_id\":\"") _ (ground arith) (
    append-Closed j.job_id _ p.job_id_braceless (
      append-Closed (codes "\",\"image_id\":\"") _ (ground arith) (
        append-Closed j.image_id _ p.image_id_braceless (
          append-Closed (codes "\",\"cron\":\"") _ (ground arith) (
            append-Closed j.cron _ p.cron_braceless (
              append-Closed (codes "\",\"next_run\":") _ (ground arith)
                (show_int-Closed j.next_run_unix (codes "}") brace-Closed)))))))

length-entry_body : (j : Job) → Fits j → length (entry_body j) < entry_cap
length-entry_body j f =
    let tail = show_int j.next_run_unix (codes "}") in
    let c = codes "\",\"next_run\":" ++ tail in
    let b = codes "\",\"cron\":\"" ++ (j.cron ++ c) in
    let a = codes "\",\"image_id\":\"" ++ (j.image_id ++ b) in
    omega (
      arith,
      length-append j.job_id a,
      length-append j.image_id b,
      length-append j.cron c,
      length-show_int j.next_run_unix (codes "}"),
      f.job_id_length,
      f.image_id_length,
      f.cron_length,
    )

-- the printed jobs, with what is behind them
abbrev pub entries : Bool → List Job → Text → Text
entries first [] tail = tail
entries first (j ∷ jobs) tail = entry_text first j ++ entries false jobs tail

element_entry :
    (more : Text → Result (List Job)) (j : Job) (rest : Text)
    → Printable j
    → element more (entry_body j ++ rest) ≡ (more rest >>= λ jobs. ok (j ∷ jobs))
element_entry more j rest p =
    let small : leb entry_cap (length (entry_body j)) ≡ false =
      ground (arith, length-entry_body j p.fits) in
    let there : ((length j.job_id == 0) || (length j.image_id == 0)) ≡ false =
      ground (arith, p.job_id_there, p.image_id_there) in
    ap (object more) (entry_body-Closed j p rest)
    ∙ rw (small, parse_job-entry_body j p.fits p.distinct, there) refl

-- What is behind the last job ends the loop.
abbrev Ends : Text → Type 0
Ends tail = (n : ℕ) → parse_jobs n tail ≡ ok []

parse_jobs-entries :
    (n : ℕ) (first : Bool) (jobs : List Job) (tail : Text)
    → AllPrintable jobs
    → length jobs ≤ n
    → Ends tail
    → parse_jobs n (entries first jobs tail) ≡ ok jobs
unfolding parse_jobs skip_separators
parse_jobs-entries n first [] tail p room h = h n
parse_jobs-entries zero first (j ∷ jobs) tail p room h = absurd (omega arith)
parse_jobs-entries (suc n) true (j ∷ jobs) tail p room h =
    element_entry (λ rest. parse_jobs n rest) j (entries false jobs tail) p.0
    ∙ ap (λ r. r >>= λ js. ok (j ∷ js)) (parse_jobs-entries n false jobs tail p.1 (omega arith) h)
parse_jobs-entries (suc n) false (j ∷ jobs) tail p room h =
    element_entry (λ rest. parse_jobs n rest) j (entries false jobs tail) p.0
    ∙ ap (λ r. r >>= λ js. ok (j ∷ js)) (parse_jobs-entries n false jobs tail p.1 (omega arith) h)

nothing-Ends : Ends []
unfolding parse_jobs
nothing-Ends zero = refl
nothing-Ends (suc n) = refl

bracket-Ends : (rest : Text) → Ends (b']' ∷ rest)
unfolding parse_jobs skip_separators
bracket-Ends rest zero = refl
bracket-Ends rest (suc n) = refl

taken-Ends : (k : ℕ) → Ends (take k (codes "]}\n"))
taken-Ends zero = nothing-Ends
taken-Ends (suc k) = bracket-Ends (take k (codes "}\n"))

-- The text of a file with these jobs, of whose last three bytes `k` are written.
abbrev pub schedule_text : List Job → ℕ → Text
schedule_text jobs k = codes "{\"jobs\":[" ++ entries true jobs (take k (codes "]}\n"))

-- At most 32 jobs that are printable are parsed as they were printed, even from a file of which the
-- end behind the last job is not written.
pub parse_schedule-schedule_text :
    (jobs : List Job) (k : ℕ)
    → AllPrintable jobs
    → length jobs ≤ max_jobs
    → parse_schedule (schedule_text jobs k) ≡ ok jobs
unfolding parse_schedule after_key starts after_char
parse_schedule-schedule_text jobs k p room =
    parse_jobs-entries max_jobs true jobs (take k (codes "]}\n")) p room (taken-Ends k)
