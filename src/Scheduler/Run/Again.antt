-- ===== src/Scheduler/Run/Again.antt =====
-- eink_scheduler_core.c: a decision, once its job has been shown.
use mender_rt1180_zephyr.Prelude.{
  ℕ, ◌<◌, ◌≡◌, refl, ap, ◌∙◌, sym, arith, true, List, [], ◌∷◌, length, Option, none, some,
  get_elem?, Bool-cases, inl, inr,
}
use mender_rt1180_zephyr.Prelude.Int.{ℤ}
use mender_rt1180_zephyr.Scheduler.Core.{
  Job, Schedule, nop, show, str_eq, Best, pick, is_last, decide, decision, shown_job,
}

str_eq_refl : (id : List ℕ) → str_eq id id ≡ true
unfolding str_eq
str_eq_refl [] = refl
str_eq_refl (c ∷ id) = ground (arith, str_eq_refl id)

show_inj : (k i : ℕ) → show k ≡ show i → k ≡ i
show_inj k i e = cc

shown_job_index :
    (o : Option Job) (last : Option (List ℕ)) (k i : ℕ)
    → shown_job o last k ≡ show i
    → (k ≡ i) × ((j : Job) × (o ≡ some j))
shown_job_index none last k i e = absurd (cc)
shown_job_index (some j) last k i e = elim (Bool-cases (is_last j.job_id last)) [
  | inl same ↦ let nothing : shown_job (some j) last k ≡ nop = rw same refl in absurd (cc)
  | inr other ↦
      let it : shown_job (some j) last k ≡ show k = rw other refl in
      (show_inj k i (sym it ∙ e), (j, refl))
]

is_last_self : (id : List ℕ) → 0 < length id → is_last id (some id) ≡ true
unfolding is_last
is_last_self [] h = absurd (omega arith)
is_last_self (c ∷ id) h = str_eq_refl (c ∷ id)

pub decision_again :
    (jobs : Schedule) (best : Best) (last : Option (List ℕ)) (i : ℕ) (j : Job)
    → decision jobs last best ≡ show i
    → get_elem? jobs i ≡ some j
    → 0 < length j.job_id
    → decision jobs (some j.job_id) best ≡ nop
decision_again jobs none last i j e at long = absurd (cc)
decision_again jobs (some (t, k)) last i j e at long =
    let same : k ≡ i = (shown_job_index (get_elem? jobs k) last k i e).0 in
    ap (λ o. shown_job o (some j.job_id) k) (ap (λ n. get_elem? jobs n) same ∙ at)
    ∙ rw (is_last_self j.job_id long) refl

pub decision_job :
    (jobs : Schedule) (best : Best) (last : Option (List ℕ)) (i : ℕ)
    → decision jobs last best ≡ show i
    → (j : Job) × (get_elem? jobs i ≡ some j)
decision_job jobs none last i e = absurd (cc)
decision_job jobs (some (t, k)) last i e =
    let r = shown_job_index (get_elem? jobs k) last k i e in
    (r.1.0, ap (λ n. get_elem? jobs n) (sym r.0) ∙ r.1.1)

-- A job that is decided on is decided on when none was shown before.
pub decide-none :
    (jobs : Schedule) (t : ℤ) (last : Option (List ℕ)) (i : ℕ)
    → decide (some jobs) t last ≡ show i
    → decide (some jobs) t none ≡ show i
unfolding decide is_last
decide-none jobs t last i e = of_best (pick t jobs 0 none) e
  where
    of_best : (best : Best) → decision jobs last best ≡ show i → decision jobs none best ≡ show i
    of_best none h = absurd (cc)
    of_best (some (t', k)) h =
        let found = shown_job_index (get_elem? jobs k) last k i h in
        ap (λ o. shown_job o none k) found.1.1 ∙ ap show found.0
