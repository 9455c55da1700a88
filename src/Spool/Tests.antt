-- ===== src/Spool/Tests.antt =====
-- Runs of the spooler of hw4 on a few lines, and its theorems applied there.
use cse320_spring.Base.{
  ℕ, suc, ◌+◌, ◌<◌, ◌≡◌, ◌⊎◌, refl, true, false, Option, none, some, List, [], ◌∷◌, ◌++◌, arith,
  if◌then◌else◌, ◌==◌, ◌&&◌,
}
use cse320_spring.Base.Text.{Bytes, codes, strcmp_equal}
use cse320_spring.Spool.Mask.{test_bit, set_bit}
use cse320_spring.Spool.State.{
  printer_busy, FileType, exited, Spooler, Report, max_jobs, find_loop, find_printer_name,
  define_printer, free_slot, create_job, job_running,
}
use cse320_spring.Spool.Jobs.{
  is_idle, is_created, Answers, start_job, scan_job, scan_jobs, scan_printers, scanner, reap,
}
use cse320_spring.Spool.Words.{tokens, split_string}
use cse320_spring.Spool.Commands.{
  World, run_printer, printer_set, run_print, run_cancel, run_enable,
}
use cse320_spring.Spool.Cli.{
  end_paused, Next, again, run_command, delete_job, delete_jobs, finish_round, run_words, run_line,
}
use cse320_spring.Spool.Invariant.{IsValid, initial}
use cse320_spring.Spool.Reach.{
  Reach, here, next, line, NoneToZero, Reach-IsValid, end_paused-NoneToZero,
}
use cse320_spring.Spool.Idle.{scanner_done}
use cse320_spring.Spool.Reap.{changed, settled, reap_lem}
use cse320_spring.Spool.Tables.{with_job, create_job_lem}
use cse320_spring.Spool.Deleted.{is_expired, delete_jobs-is_expired}
use cse320_spring.Spool.Verdicts.{verdicts, waits, run_command-verdicts, run_cancel-verdicts}
use cse320_spring.Spool.WordsLaws.{no_bytes, one_more, no_words, word_more, split_string-join}

abbrev text_type : FileType
text_type = record { name = codes "txt"; index = 0 }

abbrev world : World
world = record {
  find_type = λ name. some text_type;
  infer_file_type = λ name. some text_type;
  define_type = λ name. true;
  define_conversion = λ a b c. true;
  line_malloc = true;
  malloc = true;
  calloc = true;
  time = 100;
  now = 100;
}

abbrev result : Option (Next × Spooler) → Spooler
result none = initial
result (some (n, s)) = s

abbrev after : Bytes → Spooler → Spooler
after text s = result (run_line world text s)

abbrev defined : Spooler
defined = after (codes "printer alice txt") initial

abbrev enabled : Spooler
enabled = after (codes "enable alice") defined

abbrev printing : Spooler
printing = after (codes "print a.txt alice") enabled

-- The printer and the job are in their tables.
printing_tables :
    (printing.job_count ≡ 1) × (printing.printer_count ≡ 1) × ((printing.printers 0).pid ≡ 0)
unfolding run_line run_words split_string tokens strcmp_equal run_command run_printer
    find_printer_name find_loop define_printer run_enable run_print printer_set create_job free_slot
    set_bit test_bit finish_round delete_jobs delete_job
printing_tables = (refl, refl, refl)

printing-Reach : Reach initial printing
unfolding run_line run_words split_string tokens strcmp_equal run_command run_printer
    find_printer_name find_loop define_printer run_enable run_print printer_set create_job free_slot
    set_bit test_bit finish_round delete_jobs delete_job
printing-Reach =
    next
      (next (next here (line world (codes "printer alice txt") again {s' = defined} refl refl))
        (line world (codes "enable alice") again {s' = enabled} refl refl))
      (line world (codes "print a.txt alice") again {s' = printing} refl refl)

Reach-IsValid_example : IsValid printing
Reach-IsValid_example = Reach-IsValid printing-Reach

end_paused-NoneToZero_example :
    (new : List Report) × ((end_paused max_jobs 0 printing).reports ≡ new ++ printing.reports)
    × NoneToZero new
end_paused-NoneToZero_example = end_paused-NoneToZero printing printing-Reach

abbrev answers : Answers
answers = record {
  find_conversion_path = λ from to. some [];
  fork = λ p i. if p == 0 then if i == 0 then some 100 else none else none;
  calloc = λ p i. true;
}

printing_printer : 0 < printing.printer_count
printing_printer = omega (arith, printing_tables.1)

-- The job starts, so it does not wait any more.
scanner_done_example :
    (test_bit (scanner answers printing).job_count 0
      && (test_bit ((scanner answers printing).jobs 0).eligible 0
          && (is_created ((scanner answers printing).jobs 0).status
              && is_idle ((scanner answers printing).printers 0).status)))
    ≡ false
scanner_done_example =
    scanner_done answers printing 0 0 100 [] printing_printer (omega arith) refl refl refl

scanner_starts : ((scanner answers printing).jobs 0).pid ≡ 100
unfolding run_line run_words split_string tokens strcmp_equal run_command run_printer
    find_printer_name find_loop define_printer run_enable run_print printer_set create_job free_slot
    set_bit test_bit finish_round delete_jobs delete_job scanner scan_printers scan_jobs scan_job
    start_job
scanner_starts = refl

-- One job that runs on one printer, as the process 100.
abbrev busy : Spooler
busy = record initial {
  printers = λ p.
      if p == 0
      then record { name = codes "alice"; type = text_type; status = printer_busy; pid = 100 }
      else initial.printers p;
  printer_count = 1;
  jobs = λ i.
      if i == 0
      then record {
        file = codes "a.txt";
        eligible = 1;
        type = text_type;
        status = job_running;
        pid = 100;
        timestamp = 0;
      }
      else initial.jobs i;
  job_count = 1;
  job_process_count = 1;
  jobs_done = 1;
}

busy-IsValid : IsValid busy
unfolding test_bit
busy-IsValid = record {
  few_printers = omega arith;
  mask = omega arith;
  spare = λ p h. ground arith;
  idle_free = λ p h. ground arith;
  busy_held = λ p h. ground arith;
  job_of = λ p h. (0, omega arith, ground arith);
  printer_of = λ i h. (0, omega arith, ground arith);
  one_printer = λ p q h e. ground arith;
  one_job = λ i j h e. ground arith;
  running_taken = λ i h. let z : i ≡ 0 = ground arith in rw z;
  running_unstamped = λ i h. ground arith;
  running_status = λ i h. ground arith;
  active_pid = λ i h. ground arith;
  stamped_taken = λ i h. absurd (ground arith);
  stamped_status = λ i h. absurd (ground arith);
}

reap_lem_example :
    (i : ℕ) × (p : ℕ) × (i < max_jobs)
    × ((busy.jobs i).pid ≡ 100)
    × (p < busy.printer_count)
    × ((busy.printers p).pid ≡ 100)
    × (reap 7 100 (exited 0) busy ≡ some (settled (changed 7 (exited 0) i p busy)))
    × IsValid (settled (changed 7 (exited 0) i p busy))
reap_lem_example = reap_lem busy 7 100 0 (exited 0) busy-IsValid (omega arith) refl

create_job_lem_example :
    ((create_job true (codes "b.txt") text_type 1 busy ≡ some (none, busy))
      × ((i : ℕ) → i < 64 → test_bit busy.job_count i ≡ true))
    ⊎ ((i : ℕ) × (create_job true (codes "b.txt") text_type 1 busy
          ≡ some (some i, with_job (codes "b.txt") text_type 1 i busy))
        × (i < 64)
        × (test_bit busy.job_count i ≡ false)
        × ((j : ℕ) → j < i → test_bit busy.job_count j ≡ true))
create_job_lem_example = create_job_lem (codes "b.txt") text_type 1 busy (omega arith)

delete_jobs-is_expired_example :
    (test_bit (delete_jobs max_jobs 50 0 busy).job_count 0
      ≡ (if is_expired 50 (busy.jobs 0) then false else test_bit busy.job_count 0))
    × (((delete_jobs max_jobs 50 0 busy).jobs 0).timestamp
        ≡ (if is_expired 50 (busy.jobs 0) then 0 else (busy.jobs 0).timestamp))
delete_jobs-is_expired_example = delete_jobs-is_expired 50 0 busy busy-IsValid (omega arith)

run_command-verdicts_example :
    (s' : Spooler) × (run_command world (codes "disable") (codes "alice" ∷ []) busy ≡ some s')
    × (verdicts s'.reports ≡ suc (verdicts busy.reports))
run_command-verdicts_example =
    run_command-verdicts world (codes "disable") (codes "alice" ∷ []) busy refl (omega arith)
      (unfold strcmp_equal in refl)

run_cancel-verdicts_example :
    verdicts (run_cancel world (codes "0") printing).reports
    ≡ (if waits (codes "0") printing then 0 else 1) + verdicts printing.reports
run_cancel-verdicts_example = run_cancel-verdicts world (codes "0") printing

split_string-join_example :
    split_string true true (codes "print a.txt") busy
    ≡ (some (codes "print" ∷ (codes "a.txt" ∷ [])), busy)
split_string-join_example = split_string-join (codes "print") (codes "a.txt" ∷ []) busy (
    word_more
      (one_more (omega arith) (
        one_more (omega arith)
          (one_more (omega arith) (one_more (omega arith) (one_more (omega arith) no_bytes)))))
      (word_more
        (one_more (omega arith) (
          one_more (omega arith)
            (one_more (omega arith) (one_more (omega arith) (one_more (omega arith) no_bytes)))))
        no_words))
