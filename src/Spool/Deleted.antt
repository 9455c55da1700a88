-- ===== src/Spool/Deleted.antt =====
-- The jobs that a round of run_cli in hw4/src/cli.c deletes.
use cse320_spring.Base.{
  ℕ, zero, suc, ◌+◌, ◌-◌, ◌≤◌, ◌<◌, ◌≡◌, ◌≢◌, refl, sym, ◌∙◌, ap, Bool, false, not, arith, ◌==◌,
  ◌&&◌, leb, inl, inr, Bool-cases, eq_cases, subst, if◌then◌else◌,
}
use cse320_spring.Base.Maps.{update_self, update_other}
use cse320_spring.Spool.Mask.{test_bit, test_bit-flip_bit_self, test_bit-flip_bit_other}
use cse320_spring.Spool.State.{Job, Spooler, max_jobs}
use cse320_spring.Spool.Cli.{delete_job, delete_jobs}
use cse320_spring.Spool.Invariant.{IsValid}

-- The job has a time stamp, and it is ten seconds old or more.
abbrev pub is_expired : ℕ → Job → Bool
is_expired time j = not (j.timestamp == 0) && leb 10 (time - j.timestamp)

delete_job_self :
    (time i : ℕ) (s : Spooler)
    → (test_bit (delete_job time i s).job_count i ≡ (
        if is_expired time (s.jobs i)
        then not (test_bit s.job_count i)
        else test_bit s.job_count i))
      × (((delete_job time i s).jobs i).timestamp
          ≡ (if is_expired time (s.jobs i) then 0 else (s.jobs i).timestamp))
unfolding delete_job
delete_job_self time i s = elim (Bool-cases (is_expired time (s.jobs i))) [
  | inl t ↦
      rw (delete_job, t)
        (
          test_bit-flip_bit_self s.job_count i,
          ap (λ (x : Job). x.timestamp)
              (update_self s.jobs i (record (s.jobs i) { timestamp = 0 })),
        )
  | inr t ↦ rw (delete_job, t) (refl, refl)
]

delete_job_other :
    (time i j : ℕ) (s : Spooler)
    → j ≢ i
    → (test_bit (delete_job time i s).job_count j ≡ test_bit s.job_count j)
      × ((delete_job time i s).jobs j ≡ s.jobs j)
unfolding delete_job
delete_job_other time i j s h = elim (Bool-cases (is_expired time (s.jobs i))) [
  | inl t ↦
      rw (delete_job, t)
        (
          test_bit-flip_bit_other s.job_count i j h,
          update_other s.jobs i j (record (s.jobs i) { timestamp = 0 }) h,
        )
  | inr t ↦ rw (delete_job, t) (refl, refl)
]

delete_jobs_before :
    (rounds time i j : ℕ) (s : Spooler)
    → j < i
    → (test_bit (delete_jobs rounds time i s).job_count j ≡ test_bit s.job_count j)
      × ((delete_jobs rounds time i s).jobs j ≡ s.jobs j)
unfolding delete_jobs
delete_jobs_before zero time i j s h = (refl, refl)
delete_jobs_before (suc rounds) time i j s h =
    let (a, b) = delete_jobs_before rounds time (i + 1) j (delete_job time i s) (omega arith) in
    let (c, d) = delete_job_other time i j s (λ e. absurd (omega arith)) in (a ∙ c, b ∙ d)

delete_jobs_lem :
    (rounds time i j : ℕ) (s : Spooler)
    → i ≤ j
    → j < i + rounds
    → (test_bit (delete_jobs rounds time i s).job_count j ≡ (
        if is_expired time (s.jobs j)
        then not (test_bit s.job_count j)
        else test_bit s.job_count j))
      × (((delete_jobs rounds time i s).jobs j).timestamp
          ≡ (if is_expired time (s.jobs j) then 0 else (s.jobs j).timestamp))
unfolding delete_jobs
delete_jobs_lem zero time i j s h k = absurd (omega arith)
delete_jobs_lem (suc rounds) time i j s h k = elim (eq_cases i j) [
  | inl e ↦
      subst
        (λ n.
          (test_bit (delete_jobs rounds time (i + 1) (delete_job time i s)).job_count n ≡ (
            if is_expired time (s.jobs n)
            then not (test_bit s.job_count n)
            else test_bit s.job_count n))
          × (((delete_jobs rounds time (i + 1) (delete_job time i s)).jobs n).timestamp
              ≡ (if is_expired time (s.jobs n) then 0 else (s.jobs n).timestamp)))
        e
        (let (a, b) =
            delete_jobs_before rounds time (i + 1) i (delete_job time i s) (omega arith) in
          let (c, d) = delete_job_self time i s in (a ∙ c, ap (λ (x : Job). x.timestamp) b ∙ d))
  | inr ne ↦
      let (a, b) =
        delete_jobs_lem rounds time (i + 1) j (delete_job time i s) (omega arith) (omega arith) in
      let (c, d) = delete_job_other time i j s (λ e. ne (sym e)) in
      (
        a
            ∙ (ap
                  (λ (x : Job).
                    if is_expired time x
                    then not (test_bit (delete_job time i s).job_count j)
                    else test_bit (delete_job time i s).job_count j)
                  d
                ∙ ap (λ b. if is_expired time (s.jobs j) then not b else b) c),
        b ∙ ap (λ (x : Job). if is_expired time x then 0 else x.timestamp) d,
      )
]

-- In a valid state, the loop that deletes jobs frees the slot of each job that ended at least ten
-- seconds ago and clears its time stamp, and leaves the bit and the time stamp of every other slot.
pub delete_jobs-is_expired :
    (time i : ℕ) (s : Spooler)
    → IsValid s
    → i < max_jobs
    → (test_bit (delete_jobs max_jobs time 0 s).job_count i
        ≡ (if is_expired time (s.jobs i) then false else test_bit s.job_count i))
      × (((delete_jobs max_jobs time 0 s).jobs i).timestamp
          ≡ (if is_expired time (s.jobs i) then 0 else (s.jobs i).timestamp))
delete_jobs-is_expired time i s v h =
    let (a, b) = delete_jobs_lem max_jobs time 0 i s (omega arith) (omega arith) in
    elim (Bool-cases (is_expired time (s.jobs i))) [
      | inl t ↦
          let stamped : (s.jobs i).timestamp ≢ 0 = ground arith in
          let taken = v.stamped_taken i stamped in (rw (a, t, taken), b)
      | inr t ↦ (rw (a, t), b)
    ]
