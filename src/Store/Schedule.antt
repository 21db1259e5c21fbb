-- ===== src/Store/Schedule.antt =====
-- eink_store.c: `eink_store_save_schedule`, which writes a schedule job by job, and
-- `eink_store_load_schedule`, which finds the fields of each job by their keys.
pub mod Fields
pub mod RoundTrip
mod Whole
pub mod Saved
mod Tests
use mender_rt1180_zephyr.Prelude.{
  ℕ, zero, suc, ◌+◌, Bool, true, false, ◌&&◌, ◌||◌, ◌==◌, leb, if◌then◌else◌, List, [], ◌∷◌, ◌++◌,
  length, Option, none, some, Ret, val, err, Errno, einval, enomem, eio, Result, ok, fail, ◌>>=◌,
  codes,
}
use mender_rt1180_zephyr.Prelude.Int.{ℤ, pos}
use mender_rt1180_zephyr.Fs.{Fs}
use mender_rt1180_zephyr.Scheduler.Core.{Job}
use mender_rt1180_zephyr.Store.Json.{after_key}
use mender_rt1180_zephyr.Store.Atomic.{finish}
use mender_rt1180_zephyr.Store.Reader.{Text, c_string, read_file}
use mender_rt1180_zephyr.Store.Decimal.{show_int, strtoll}
use mender_rt1180_zephyr.Store.Settings.{up_to_quote}

abbrev pub sched_path : Text → Text
sched_path root = root ++ codes "/schedule.json"

-- one job
abbrev pub entry_body : Job → Text
entry_body j =
    codes "{\"job_id\":\""
    ++ (j.job_id
        ++ (codes "\",\"image_id\":\""
            ++ (j.image_id
                ++ (codes "\",\"cron\":\""
                    ++ (j.cron
                        ++ (codes "\",\"next_run\":" ++ show_int j.next_run_unix (codes "}")))))))

-- the text that is printed of it, behind a comma but for the first
abbrev pub entry_text : Bool → Job → Text
entry_text true j = entry_body j
entry_text false j = b',' ∷ entry_body j

-- `sizeof(entry)`, and that of the loader's `objbuf`
abbrev pub entry_cap : ℕ
entry_cap = 384

-- EINK_MAX_JOBS
abbrev pub max_jobs : ℕ
max_jobs = 32

-- a short write is an error
abbrev pub exactly {ℓ} : {S : Type ℓ} → ℕ → Ret × S → Ret × S
exactly size (err e, s) = (err e, s)
exactly size (val n, s) = if n == size then (val n, s) else (err eio, s)

module _ (S : Type 0) (fs : Fs Text S) where
  -- the loop over the jobs, which goes on as long as the return value is no error
  unfoldable pub save_jobs : Text → Bool → List Job → Ret × S → Ret × S
  save_jobs tmp first jobs (err e, s) = (err e, s)
  save_jobs tmp first [] (val n, s) = (val n, s)
  save_jobs tmp first (j ∷ jobs) (val n, s) =
      let entry = entry_text first j in
      let rest = save_jobs tmp false jobs (exactly (length entry) (fs.write tmp entry s)) in
      if leb entry_cap (length entry) then (err enomem, s) else rest

  -- The end of the file: it is synchronised where its three bytes are written.
  abbrev pub tail_synced : Text → Ret × S → Ret × S
  tail_synced tmp (err e, s) = (err e, s)
  tail_synced tmp (val n, s) = if n == 3 then fs.sync tmp s else (val n, s)

  abbrev pub ended : Text → Ret × S → Ret × S
  ended tmp (err e, s) = (err e, s)
  ended tmp (val n, s) = tail_synced tmp (fs.write tmp (codes "]}\n") s)

  abbrev pub opened : Text → Text → List Job → Ret × S → Ret × S
  opened path tmp jobs (err e, s) = (err e, s)
  opened path tmp jobs (val n, s) =
      finish Text S fs path tmp
        (ended tmp (save_jobs tmp true jobs (exactly 9 (fs.write tmp (codes "{\"jobs\":[") s))))

  -- `none` for a null pointer
  unfoldable pub save_schedule : Text → Option (List Job) → S → Ret × S
  save_schedule root none s = (err einval, s)
  save_schedule root (some jobs) s =
      let path = sched_path root in
      let tmp = path ++ codes ".tmp" in opened path tmp jobs (fs.create tmp s)

-- `strchr`, moved past the character
unfoldable pub after_char : ℕ → Text → Option Text
after_char x [] = none
after_char x (c ∷ text) = if c == x then some text else after_char x text

-- `strchr(obj, '}')`: the object with its brace, and what is behind it
abbrev pub with_char : ℕ → Option (Text × Text) → Option (Text × Text)
with_char c none = none
with_char c (some (obj, rest)) = some (c ∷ obj, rest)

unfoldable pub split_object : Text → Option (Text × Text)
split_object [] = none
split_object (c ∷ text) =
    let more = with_char c (split_object text) in if c == b'}' then some (c ∷ [], text) else more

-- what is in the first quotes behind a key, in a buffer with room for `n` bytes
abbrev pub unquoted : ℕ → Option Text → Text
unquoted n none = []
unquoted n (some text) = up_to_quote n text

abbrev pub behind_key : ℕ → Option Text → Text
behind_key n none = []
behind_key n (some text) = unquoted n (after_char b'"' text)

unfoldable pub field : ℕ → Text → Text → Text
field n key obj = behind_key n (after_key key obj)

abbrev pub number_of : Option Text → ℤ
number_of none = pos 0
number_of (some text) = strtoll text

abbrev pub number_behind_key : Option Text → ℤ
number_behind_key none = pos 0
number_behind_key (some text) = number_of (after_char b':' text)

unfoldable pub parse_job : Text → Job
parse_job obj = record {
  job_id = field 63 (codes "\"job_id\"") obj;
  image_id = field 63 (codes "\"image_id\"") obj;
  cron = field 31 (codes "\"cron\"") obj;
  next_run_unix = number_behind_key (after_key (codes "\"next_run\"") obj);
}

abbrev pub separator : ℕ → Bool
separator c = (c == b' ') || (c == b'\n') || (c == b'\r') || (c == b',')

unfoldable pub skip_separators : Text → Text
skip_separators [] = []
skip_separators (c ∷ text) = if separator c then skip_separators text else c ∷ text

-- the check of the identifiers
abbrev pub named : Job → Result Job
named j = if (length j.job_id == 0) || (length j.image_id == 0) then fail einval else ok j

abbrev pub object : (Text → Result (List Job)) → Option (Text × Text) → Result (List Job)
object more none = fail einval
object more (some (obj, rest)) =
    if leb entry_cap (length obj)
    then fail enomem
    else (named (parse_job obj) >>= λ j. more rest >>= λ jobs. ok (j ∷ jobs))

abbrev pub element : (Text → Result (List Job)) → Text → Result (List Job)
element more [] = fail einval
element more (c ∷ text) =
    if c == b']'
    then ok []
    else if c == b'{'
    then object more (split_object (c ∷ text))
    else fail einval

-- The `while` loop, with room for `n` jobs.
unfoldable pub parse_jobs : ℕ → Text → Result (List Job)
parse_jobs zero text = ok []
parse_jobs (suc n) [] = ok []
parse_jobs (suc n) (c ∷ text) = element (λ rest. parse_jobs n rest) (skip_separators (c ∷ text))

abbrev pub bracketed : Option Text → Result (List Job)
bracketed none = fail einval
bracketed (some text) = parse_jobs max_jobs text

abbrev pub keyed : Option Text → Result (List Job)
keyed none = fail einval
keyed (some text) = bracketed (after_char b'[' text)

unfoldable pub parse_schedule : Text → Result (List Job)
parse_schedule buf = keyed (after_key (codes "\"jobs\"") buf)

module _ (S : Type 0) (fs : Fs Text S) where
  -- the schedule is empty where it is not loaded
  unfoldable pub load_schedule : Text → S → Result (List Job) × S
  load_schedule root s =
      let r = read_file Text S fs (sched_path root) 8191 s in
      (r.0 >>= λ bytes. parse_schedule (c_string bytes), r.1)
