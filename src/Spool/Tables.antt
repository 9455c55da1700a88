-- ===== src/Spool/Tables.antt =====
-- define_printer and create_job: what they give, and that they keep the invariant.
use cse320_spring.Base.{
  ℕ, ◌+◌, ◌-◌, ◌^◌, ◌≤◌, ◌<◌, ◌≡◌, ◌≢◌, ◌⊎◌, inl, inr, sym, ◌∙◌, Bool, true, false, not, none, some,
  arith, ◌==◌, Bool-cases, Option-cases,
}
use cse320_spring.Base.Text.{Bytes}
use cse320_spring.Base.Maps.{update}
use cse320_spring.Base.Search.{first-none}
use cse320_spring.Spool.Mask.{
  test_bit, set_bit, set_bit-lt, test_bit-set_bit_other, full_of_bits, bits_of_full,
}
use cse320_spring.Spool.State.{
  FileType, printer_disabled, job_created, Spooler, max_printers, max_jobs, define_printer,
  create_job, free_slot,
}
use cse320_spring.Spool.Find.{free_slot-some, free_slot-first}
use cse320_spring.Spool.Invariant.{IsValid}
use cse320_spring.Spool.Keep.{IsValid-printer, IsValid-job, IsValid-flags}

pub define_printer-IsValid :
    (malloc : Bool) (name : Bytes) (type : FileType) (s : Spooler)
    → IsValid s
    → IsValid (define_printer malloc name type s).1
unfolding define_printer
define_printer-IsValid malloc name type s v = elim (Bool-cases (s.printer_count == max_printers)) [
  | inl t ↦ rw t v
  | inr t ↦
      let few : s.printer_count + 1 ≤ max_printers = ground (arith, v.few_printers) in
      elim malloc as (λ m. IsValid (define_printer m name type s).1) [
        | true ↦ rw t (
            IsValid-printer s v s.printer_count (s.printer_count + 1) name type printer_disabled
              (λ e. absurd (cc)) (λ e. absurd (cc)) (omega arith) few)
        | false ↦ rw t (IsValid-flags s v s.job_process_count s.jobs_done true s.reports)
      ]
]

-- A new job in a slot that is free.
abbrev pub with_job : Bytes → FileType → ℕ → ℕ → Spooler → Spooler
with_job file type eligible i s = record s {
  job_count = set_bit s.job_count i;
  jobs =
      update s.jobs i
        (record (s.jobs i) { file = file; type = type; status = job_created; eligible = eligible });
}

pub with_job-IsValid :
    (file : Bytes) (type : FileType) (eligible i : ℕ) (s : Spooler)
    → IsValid s
    → i < 64
    → test_bit s.job_count i ≡ false
    → IsValid (with_job file type eligible i s)
with_job-IsValid file type eligible i s v k h =
    let no_pid : (s.jobs i).pid ≢ 0 → ⊥ = λ z. let t = v.running_taken i z in cc in
    let no_stamp : (s.jobs i).timestamp ≢ 0 → ⊥ = λ z. let t = v.stamped_taken i z in cc in
    IsValid-job s v i (set_bit s.job_count i) (s.jobs i).timestamp eligible file type job_created
      (set_bit-lt 64 s.job_count i v.mask k) (λ j k. test_bit-set_bit_other s.job_count i j k)
      (λ z. absurd (no_pid z)) (λ z. elim z [ inl e ↦ absurd (cc) | inr e ↦ absurd (cc) ])
      (λ z. absurd (no_stamp z))

-- Where malloc gives space: if all 64 slots are taken, create_job gives NULL and changes nothing, and
-- otherwise it takes the first slot that is free.
pub create_job_lem :
    (file : Bytes) (type : FileType) (eligible : ℕ) (s : Spooler)
    → s.job_count < 2 ^ 64
    → ((create_job true file type eligible s ≡ some (none, s))
        × ((i : ℕ) → i < 64 → test_bit s.job_count i ≡ true))
      ⊎ ((i : ℕ) × (create_job true file type eligible s
            ≡ some (some i, with_job file type eligible i s))
          × (i < 64)
          × (test_bit s.job_count i ≡ false)
          × ((j : ℕ) → j < i → test_bit s.job_count j ≡ true))
unfolding create_job
create_job_lem file type eligible s h = elim (Bool-cases (s.job_count == 2 ^ 64 - 1)) [
  | inl t ↦
      inl
        (rw t, λ i k. let e : s.job_count ≡ 2 ^ 64 - 1 = ground arith in rw e (bits_of_full 64 i k))
  | inr t ↦ elim (Option-cases (free_slot max_jobs 0 s.job_count)) [
    | inl n ↦
        let all =
          first-none 64 0 (λ k. not (test_bit s.job_count k))
            (sym (free_slot-first 64 0 s.job_count) ∙ n) in
        let full =
          full_of_bits 64 s.job_count h (λ i k. let b = all i (omega arith) k in ground arith) in
        absurd (ground arith)
    | inr (i, e) ↦ let (a, b, c) = free_slot-some s.job_count i e in inr (i, rw (t, e), a, b, c)
  ]
]
