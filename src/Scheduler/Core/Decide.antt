-- ===== src/Scheduler/Core/Decide.antt =====
-- eink_scheduler_core.c: which job `eink_scheduler_decide` picks.
use mender_rt1180_zephyr.Prelude.{
  ℕ, zero, suc, ◌+◌, ◌-◌, ◌≤◌, ◌<◌, ◌≡◌, refl, ap, ◌∙◌, sym, subst, arith, true, false, ◌&&◌, List,
  [], ◌∷◌, Option, none, some, if◌then◌else◌, get_elem?, ◌⊎◌, inl, inr, Bool-cases, dec_lt, length,
  ◌++◌, get_elem?-append_left, get_elem?-snoc, append_assoc, append-nil, length-append,
}
use mender_rt1180_zephyr.Prelude.Int.{ℤ, ◌≤ℤ◌, ◌<ℤ◌, leb_ℤ}
use mender_rt1180_zephyr.Scheduler.Core.{
  Job, Schedule, Decision, nop, show, Best, at_least, pick, is_last, decide, decision,
}

-- An entry of a list with one more job is an old one, or the new one.
only_entry :
    (new other : Job) (m : ℕ) → get_elem? (new ∷ []) m ≡ some other → (m ≡ 0) × (new ≡ other)
only_entry new other zero q = (refl, cc)
only_entry new other (suc m) q = absurd (cc)

snoc_cases :
    (jobs : List Job) (new other : Job) (n : ℕ)
    → get_elem? (jobs ++ new ∷ []) n ≡ some other
    → ((n < length jobs) × (get_elem? jobs n ≡ some other)) ⊎ ((n ≡ length jobs) × (new ≡ other))
snoc_cases jobs new other n e = elim (dec_lt n (length jobs)) [
  | yes p ↦ inl (p, sym (get_elem?-append_left jobs (new ∷ []) n p) ∙ e)
  | no p ↦
      let at_end =
        only_entry new other (n - length jobs)
          (sym (get_elem?-snoc jobs new n (omega arith)) ∙ e) in
      inr (omega (arith, at_end.0), at_end.1)
]

module _ (now : ℤ) where
  -- Job `k` is overdue, no overdue job has a later run, and of those with the same run it is the
  -- last.
  pub record Latest (jobs : List Job) (k : ℕ) (j : Job) : Type 0 where
    pub at : get_elem? jobs k ≡ some j
    pub overdue : j.next_run_unix ≤ℤ now
    pub top :
        (n : ℕ) (other : Job)
        → get_elem? jobs n ≡ some other
        → other.next_run_unix ≤ℤ now
        → (other.next_run_unix ≤ℤ j.next_run_unix)
          × (j.next_run_unix ≤ℤ other.next_run_unix → n ≤ k)

  abbrev pub NoneDue : List Job → Type 0
  NoneDue jobs = (n : ℕ) (other : Job) → get_elem? jobs n ≡ some other → now <ℤ other.next_run_unix

  -- what the loop has found in the jobs that it has passed
  abbrev Found : List Job → Best → Type 0
  Found jobs none = NoneDue jobs
  Found jobs (some (t, k)) = (j : Job) × (j.next_run_unix ≡ t) × Latest jobs k j

  keep_none :
      (jobs : List Job) (new : Job)
      → NoneDue jobs
      → now <ℤ new.next_run_unix
      → NoneDue (jobs ++ new ∷ [])
  keep_none jobs new h late n other e = elim (snoc_cases jobs new other n e) [
    | inl old ↦ h n other old.1
    | inr (p, q) ↦ subst (λ (o : Job). now <ℤ o.next_run_unix) q late
  ]

  entry_bound : (jobs : List Job) (n : ℕ) (j : Job) → get_elem? jobs n ≡ some j → n < length jobs
  entry_bound [] n j e = absurd (cc)
  entry_bound (x ∷ jobs) zero j e = omega arith
  entry_bound (x ∷ jobs) (suc n) j e = omega (arith, entry_bound jobs n j e)

  keep_old :
      (jobs : List Job) (new : Job) (k : ℕ) (j : Job)
      → Latest jobs k j
      → (new.next_run_unix ≤ℤ now → new.next_run_unix <ℤ j.next_run_unix)
      → Latest (jobs ++ new ∷ []) k j
  keep_old jobs new k j h older = record {
    at = get_elem?-append_left jobs (new ∷ []) k (entry_bound jobs k j h.at) ∙ h.at;
    overdue = h.overdue;
    top = λ n other e due. elim (snoc_cases jobs new other n e) [
      | inl old ↦ h.top n other old.1 due
      | inr (p, q) ↦
          let lt : other.next_run_unix <ℤ j.next_run_unix =
            subst (λ (o : Job). o.next_run_unix ≤ℤ now → o.next_run_unix <ℤ j.next_run_unix) q older
              due in
          (omega arith, λ ge. absurd (omega arith))
    ];
  }

  take_new :
      (jobs : List Job) (new : Job)
      → new.next_run_unix ≤ℤ now
      → ((n : ℕ) (other : Job)
          → get_elem? jobs n ≡ some other
          → other.next_run_unix ≤ℤ now
          → other.next_run_unix ≤ℤ new.next_run_unix)
      → Latest (jobs ++ new ∷ []) (length jobs) new
  take_new jobs new due later = record {
    at =
        get_elem?-snoc jobs new (length jobs) (omega arith)
        ∙ ap (λ m. get_elem? (new ∷ []) m) {y = 0} (omega arith);
    overdue = due;
    top = λ n other e odue. elim (snoc_cases jobs new other n e) [
      | inl old ↦ (later n other old.1 odue, λ ge. omega (arith, old.0))
      | inr (p, q) ↦ (
        subst (λ (o : Job). o.next_run_unix ≤ℤ new.next_run_unix) q (omega arith),
        λ ge. omega arith,
      )
    ];
  }

  better : Job → Best → ℕ → Best
  better j best i =
      if leb_ℤ j.next_run_unix now && at_least j.next_run_unix best
      then some (j.next_run_unix, i)
      else best

  Found-better :
      (jobs : List Job) (j : Job) (best : Best)
      → Found jobs best
      → Found (jobs ++ j ∷ []) (better j best (length jobs))
  unfolding better
  Found-better jobs j none h = elim (Bool-cases (leb_ℤ j.next_run_unix now)) [
    | inl due ↦
        rw due
          (j, refl, take_new jobs j (ground arith) (λ n o e d. absurd (omega (arith, h n o e))))
    | inr late ↦ rw late (keep_none jobs j h (ground arith))
  ]
  Found-better jobs j (some (t, k)) (best, e, h) = elim (Bool-cases (leb_ℤ j.next_run_unix now)) [
    | inr late ↦ rw late (best, e, keep_old jobs j k best h (λ d. absurd (ground arith)))
    | inl due ↦ elim (Bool-cases (leb_ℤ t j.next_run_unix)) [
      | inl newer ↦
          let ge : best.next_run_unix ≤ℤ j.next_run_unix =
            subst (λ (z : ℤ). z ≤ℤ j.next_run_unix) (sym e) (ground arith) in
          rw (due, newer)
            (
              j,
              refl,
              take_new jobs j (ground arith) (λ n o at d. omega (arith, (h.top n o at d).0)),
            )
      | inr older ↦
          let lt : j.next_run_unix <ℤ best.next_run_unix =
            subst (λ (z : ℤ). j.next_run_unix <ℤ z) (sym e) (ground arith) in
          rw (due, older) (best, e, keep_old jobs j k best h (λ d. lt))
    ]
  ]

  Found-pick :
      (done jobs : List Job) (best : Best)
      → Found done best
      → Found (done ++ jobs) (pick now jobs (length done) best)
  unfolding pick better
  Found-pick done [] best h = subst (λ l. Found l best) (sym (append-nil done)) h
  Found-pick done (j ∷ jobs) best h =
      subst (λ l. Found l (pick now jobs (length done + 1) (better j best (length done))))
        (append_assoc done (j ∷ []) jobs)
        (subst (λ n. Found (done ++ j ∷ [] ++ jobs) (pick now jobs n (better j best (length done))))
          (length-append done (j ∷ []) ∙ omega arith)
          (Found-pick (done ++ j ∷ []) jobs (better j best (length done))
            (Found-better done j best h)))

-- Why `decide` answers as it does.
pub data Reason (sched : Schedule) (now : ℤ) (last : Option (List ℕ)) : Decision → Type 0 where
  none_due : NoneDue now sched → Reason sched now last nop
  displayed :
      (k : ℕ) (j : Job)
      → Latest now sched k j
      → is_last j.job_id last ≡ true
      → Reason sched now last nop
  due :
      (k : ℕ) (j : Job)
      → Latest now sched k j
      → is_last j.job_id last ≡ false
      → Reason sched now last (show k)

reason :
    (sched : Schedule) (now : ℤ) (last : Option (List ℕ)) (best : Best)
    → Found now sched best
    → Reason sched now last (decision sched last best)
reason sched now last none h = none_due h
reason sched now last (some (t, k)) (j, e, h) = elim (Bool-cases (is_last j.job_id last)) [
  | inl shown ↦ rw (h.at, shown) (displayed k j h shown)
  | inr fresh ↦ rw (h.at, fresh) (due k j h fresh)
]

-- `decide` shows the overdue job with the latest run, the last one in the schedule of those with
-- the same run, unless it is the one displayed last; it does nothing in that case, and when no job
-- is overdue.
pub decide_lem :
    (sched : Schedule) (now : ℤ) (last : Option (List ℕ))
    → Reason sched now last (decide (some sched) now last)
unfolding decide
decide_lem sched now last =
    reason sched now last (pick now sched 0 none)
      (Found-pick now [] sched none (λ n o e. absurd (cc)))
