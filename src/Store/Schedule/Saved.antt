-- ===== src/Store/Schedule/Saved.antt =====
-- eink_store.c: the schedule that is loaded is the one that was saved.
use mender_rt1180_zephyr.Prelude.{
  ℕ, ◌+◌, ◌≤◌, ◌≡◌, refl, ap, ◌∙◌, sym, arith, Bool, true, false, Bool-cases, inl, inr, List, [],
  ◌∷◌, ◌++◌, append_assoc, append-nil, length, length-append, length-take, take, take_all,
  take_long, some, leb, ◌==◌, Ret, val, err, eio, enomem, Result, ok, ◌>>=◌, codes,
}
use mender_rt1180_zephyr.Fs.{Fs, Lawful, Readable}
use mender_rt1180_zephyr.Scheduler.Core.{Job}
use mender_rt1180_zephyr.Store.Reader.{Text, c_string, read_file, read_file-content}
use mender_rt1180_zephyr.Store.Atomic.{finish}
use mender_rt1180_zephyr.Store.Atomic.Replace.{finish-Replaces}
use mender_rt1180_zephyr.Store.Schedule.{
  sched_path, entry_text, entry_cap, max_jobs, exactly, save_jobs, tail_synced, ended, opened,
  save_schedule, parse_schedule, load_schedule,
}
use mender_rt1180_zephyr.Store.Schedule.RoundTrip.{
  AllPrintable, entries, schedule_text, parse_schedule-schedule_text,
}
use mender_rt1180_zephyr.Store.Schedule.Whole.{schedule_text_whole}

entries-append :
    (first : Bool) (jobs : List Job) (tail : Text)
    → entries first jobs [] ++ tail ≡ entries first jobs tail
entries-append first [] tail = refl
entries-append first (j ∷ jobs) tail =
    append_assoc (entry_text first j) (entries false jobs []) tail
    ∙ ap (λ l. entry_text first j ++ l) (entries-append false jobs tail)

length-entries :
    (first : Bool) (jobs : List Job) (tail : Text)
    → length (entries first jobs tail) ≡ length (entries first jobs []) + length tail
length-entries first jobs tail =
    ap length (sym (entries-append first jobs tail)) ∙ length-append (entries first jobs []) tail

length-schedule_text :
    (jobs : List Job) (k : ℕ) → length (schedule_text jobs k) ≤ length (schedule_text jobs 3)
length-schedule_text jobs k = omega (
  arith,
  length-entries true jobs (take k (codes "]}\n")),
  length-entries true jobs (codes "]}\n"),
  length-take k (codes "]}\n"),
)

module _ (S : Type 0) (fs : Fs Text S) (law : Lawful Text S fs) (root : Text) where
  tmp : Text
  tmp = sched_path root ++ codes ".tmp"

  exactly-content :
      (text old : Text) (r : Ret × S) (n : ℕ) (s : S)
      → ((k : ℕ) → r.0 ≡ val k → fs.content r.1 tmp ≡ some (old ++ take k text))
      → exactly (length text) r ≡ (val n, s)
      → fs.content s tmp ≡ some (old ++ text)
  exactly-content text old (err e, s') n s h eq = absurd (cc)
  exactly-content text old (val k, s') n s h eq = elim (Bool-cases (k == length text)) [
    | inl all ↦
        let done : exactly (length text) (val k, s') ≡ (val k, s') = rw all refl in
        let same : s' ≡ s = cc in
        rw (sym same) (h k refl ∙ ap (λ l. some (old ++ l)) (take_all k text (ground arith)))
    | inr short ↦
        let bad : exactly (length text) (val k, s') ≡ (err eio, s') = rw short refl in absurd (cc)
  ]

  -- a return value that is no error has left the jobs written
  save_jobs-content :
      (first : Bool) (jobs : List Job) (old : Text) (r : Ret × S) (n : ℕ) (s : S)
      → ((k : ℕ) (s' : S) → r ≡ (val k, s') → fs.content s' tmp ≡ some old)
      → save_jobs S fs tmp first jobs r ≡ (val n, s)
      → fs.content s tmp ≡ some (old ++ entries first jobs [])
  unfolding save_jobs
  save_jobs-content first jobs old (err e, s') n s h eq = absurd (cc)
  save_jobs-content first [] old (val k, s') n s h eq =
      let same : s' ≡ s = cc in rw (append-nil old, sym same) (h k s' refl)
  save_jobs-content first (j ∷ jobs) old (val k, s') n s h eq =
      elim (Bool-cases (leb entry_cap (length (entry_text first j)))) [
        | inl big ↦
            let bad : save_jobs S fs tmp first (j ∷ jobs) (val k, s') ≡ (err enomem, s') =
              rw big refl in
            absurd (cc)
        | inr fits ↦
            let go : save_jobs S fs tmp first (j ∷ jobs) (val k, s')
                ≡ save_jobs S fs tmp false jobs
                    (exactly (length (entry_text first j)) (fs.write tmp (entry_text first j) s')) =
              rw fits refl in
            save_jobs-content false jobs (old ++ entry_text first j)
              (exactly (length (entry_text first j)) (fs.write tmp (entry_text first j) s')) n s
              (λ i s'' e.
                exactly-content (entry_text first j) old (fs.write tmp (entry_text first j) s') i
                  s''
                  (λ m done. law.write-content tmp (entry_text first j) old s' m done (h k s' refl))
                  e)
              (sym go ∙ eq)
            ∙ ap some (append_assoc old (entry_text first j) (entries false jobs []))
      ]

  tail_synced-content :
      (r : Ret × S) (n : ℕ) (s : S) (old : Text)
      → ((k : ℕ) → r.0 ≡ val k → fs.content r.1 tmp ≡ some (old ++ take k (codes "]}\n")))
      → tail_synced S fs tmp r ≡ (val n, s)
      → (k : ℕ) × (fs.content s tmp ≡ some (old ++ take k (codes "]}\n")))
  tail_synced-content (err e, s') n s old h eq = absurd (cc)
  tail_synced-content (val k, s') n s old h eq = elim (Bool-cases (k == 3)) [
    | inl all ↦
        let go : tail_synced S fs tmp (val k, s') ≡ fs.sync tmp s' = rw all refl in
        (k, ap (λ z. fs.content z.1 tmp) (sym eq ∙ go) ∙ law.sync-content tmp tmp s' ∙ h k refl)
    | inr short ↦
        let done : tail_synced S fs tmp (val k, s') ≡ (val k, s') = rw short refl in
        let same : s' ≡ s = cc in (k, rw (sym same) (h k refl))
  ]

  ended-content :
      (r : Ret × S) (n : ℕ) (s : S) (old : Text)
      → ((k : ℕ) (s' : S) → r ≡ (val k, s') → fs.content s' tmp ≡ some old)
      → ended S fs tmp r ≡ (val n, s)
      → (k : ℕ) × (fs.content s tmp ≡ some (old ++ take k (codes "]}\n")))
  ended-content (err e, s') n s old h eq = absurd (cc)
  ended-content (val i, s') n s old h eq =
      tail_synced-content (fs.write tmp (codes "]}\n") s') n s old
        (λ k done. law.write-content tmp (codes "]}\n") old s' k done (h i s' refl)) eq

  finish-content :
      (r : Ret × S)
      → (jobs : List Job)
      → ((n : ℕ) (s : S)
          → r ≡ (val n, s)
          → (k : ℕ) × (fs.content s tmp ≡ some (schedule_text jobs k)))
      → (finish Text S fs (sched_path root) tmp r).0 ≡ val 0
      → (k : ℕ) × (fs.content (finish Text S fs (sched_path root) tmp r).1 (sched_path root)
          ≡ some (schedule_text jobs k))
  finish-content (err e, s) jobs h eq = absurd (cc)
  finish-content (val n, s) jobs h eq =
      let (k, held) = h n s refl in
      (
        k,
        finish-Replaces Text S fs law (sched_path root) tmp (schedule_text jobs k) (val n, s) held
            eq,
      )

  opened-content :
      (r : Ret × S) (jobs : List Job)
      → ((n : ℕ) → r.0 ≡ val n → fs.content r.1 tmp ≡ some [])
      → (opened S fs (sched_path root) tmp jobs r).0 ≡ val 0
      → (k : ℕ) × (fs.content (opened S fs (sched_path root) tmp jobs r).1 (sched_path root)
          ≡ some (schedule_text jobs k))
  opened-content (err e, s) jobs h eq = absurd (cc)
  opened-content (val n, s) jobs h eq =
      let head = codes "{\"jobs\":[" in
      let first = exactly 9 (fs.write tmp head s) in
      finish-content (ended S fs tmp (save_jobs S fs tmp true jobs first)) jobs
        (λ i s' e.
          let (k, held) =
            ended-content (save_jobs S fs tmp true jobs first) i s' (head ++ entries true jobs [])
              (λ i' s'' e'.
                save_jobs-content true jobs head first i' s''
                  (λ i'' s3 e''.
                    exactly-content head [] (fs.write tmp head s) i'' s3
                      (λ m done. law.write-content tmp head [] s m done (h n refl)) e'')
                  e')
              e in
          (k, held ∙ ap (λ l. some (head ++ l)) (entries-append true jobs (take k (codes "]}\n")))))
        eq

  save_schedule-content :
      (jobs : List Job) (s : S)
      → (save_schedule S fs root (some jobs) s).0 ≡ val 0
      → (k : ℕ) × (fs.content (save_schedule S fs root (some jobs) s).1 (sched_path root)
          ≡ some (schedule_text jobs k))
  unfolding save_schedule tmp
  save_schedule-content jobs s eq =
      opened-content (fs.create tmp s) jobs (law.create-content tmp s) eq

  loaded :
      (r : Result Text) (jobs : List Job) (k : ℕ)
      → AllPrintable jobs
      → length jobs ≤ max_jobs
      → r ≡ ok (schedule_text jobs k)
      → (r >>= λ bytes. parse_schedule (c_string bytes)) ≡ ok jobs
  loaded r jobs k p room e =
      ap (λ z. z >>= λ bytes. parse_schedule (c_string bytes)) e
      ∙ ap parse_schedule (schedule_text_whole jobs k p)
      ∙ parse_schedule-schedule_text jobs k p room

  -- On a lawful and readable file system: at most 32 jobs that are printable, in a file of at most
  -- 8191 bytes, are loaded as they were saved, where the save returned 0 and the read of the load
  -- does not fail; also where the last write of the save was short.
  pub load_schedule-save_schedule :
      (jobs : List Job) (s : S) (bytes : Text)
      → Readable Text S fs
      → AllPrintable jobs
      → length jobs ≤ max_jobs
      → length (schedule_text jobs 3) ≤ 8191
      → (save_schedule S fs root (some jobs) s).0 ≡ val 0
      → (read_file Text S fs (sched_path root) 8191 (save_schedule S fs root (some jobs) s).1).0
        ≡ ok bytes
      → (load_schedule S fs root (save_schedule S fs root (some jobs) s).1).0 ≡ ok jobs
  unfolding load_schedule
  load_schedule-save_schedule jobs s bytes rd p room small wrote got =
      let s1 = (save_schedule S fs root (some jobs) s).1 in
      let (k, held) = save_schedule-content jobs s wrote in
      let all =
        read_file-content Text S fs (sched_path root) 8191 s1 (schedule_text jobs k) bytes rd held
          got
        ∙ take_long 8191 (schedule_text jobs k) (omega (arith, length-schedule_text jobs k)) in
      loaded (read_file Text S fs (sched_path root) 8191 s1).0 jobs k p room (got ∙ ap ok all)
