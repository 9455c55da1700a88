-- ===== src/Spool/Cli.antt =====
-- One round of the loop of run_cli in hw4/src/cli.c: a line is split, its command is run, and jobs
-- that ended ten seconds ago are deleted.
use Prim.Native.String.{String}
use cse320_spring.Base.{
  ℕ, zero, suc, ◌+◌, ◌-◌, Bool, true, false, ◌&&◌, not, Option, none, some, List, [], ◌∷◌, ◌==◌,
  leb, if◌then◌else◌,
}
use cse320_spring.Base.Text.{Bytes, strcmp_equal, codes}
use cse320_spring.Base.Maps.{update}
use cse320_spring.Spool.Mask.{flip_bit}
use cse320_spring.Spool.State.{
  JobStatus, job_paused, job_deleted, Spooler, job_removed, job_status, killed, sigterm, sigcont,
  report, max_jobs,
}
use cse320_spring.Spool.Words.{split_string}
use cse320_spring.Spool.Commands.{
  World, ok, error, run_printer, run_conversion, run_print, run_cancel, run_pause, run_resume,
  run_disable, run_enable,
}

-- Whether the loop goes on.
pub data Next : Type 0 where
  again quit failed : Next

-- CHECK_ARG, where a command takes no argument, one or two.
abbrev pub no_args : List Bytes → Spooler → Spooler → Spooler
no_args [] s r = r
no_args (a ∷ rest) s r = error s

abbrev pub one_arg : List Bytes → Spooler → (Bytes → Spooler) → Spooler
one_arg [] s f = error s
one_arg (a ∷ []) s f = f a
one_arg (a ∷ (b ∷ bs)) s f = error s

abbrev pub two_args : List Bytes → Spooler → (Bytes → Bytes → Spooler) → Spooler
two_args [] s f = error s
two_args (a ∷ []) s f = error s
two_args (a ∷ (b ∷ [])) s f = f a b
two_args (a ∷ (b ∷ (c ∷ cs))) s f = error s

abbrev pub three_args : List Bytes → Spooler → (Bytes → Bytes → List Bytes → Spooler) → Spooler
three_args [] s f = error s
three_args (a ∷ []) s f = error s
three_args (a ∷ (b ∷ [])) s f = error s
three_args (a ∷ (b ∷ (c ∷ cs))) s f = f a b (c ∷ cs)

abbrev pub run_print_args : World → List Bytes → Spooler → Option Spooler
run_print_args w [] s = some (error s)
run_print_args w (file ∷ names) s = run_print w file names s

abbrev pub is_word : String → Bytes → Bool
is_word text word = strcmp_equal word (codes text)

-- The chain of strcmp, for the commands other than quit.
unfoldable pub run_command : World → Bytes → List Bytes → Spooler → Option Spooler
run_command w name args s =
    if is_word "help" name
    then some (no_args args s (ok s))
    else if is_word "type" name
    then some (one_arg args s (λ a. if w.define_type a then ok s else error s))
    else if is_word "printer" name
    then some (two_args args s (λ a b. run_printer w a b s))
    else if is_word "conversion" name
    then some (three_args args s (λ a b c. run_conversion w a b c s))
    else if is_word "printers" name
    then some (no_args args s (ok s))
    else if is_word "jobs" name
    then some (no_args args s (ok s))
    else if is_word "print" name
    then run_print_args w args s
    else if is_word "cancel" name
    then some (one_arg args s (λ a. run_cancel w a s))
    else if is_word "pause" name
    then some (one_arg args s (λ a. run_pause a s))
    else if is_word "resume" name
    then some (one_arg args s (λ a. run_resume a s))
    else if is_word "disable" name
    then some (one_arg args s (λ a. run_disable a s))
    else if is_word "enable" name
    then some (one_arg args s (λ a. run_enable a s))
    else some (error s)

-- The body of the loop that deletes jobs, and the loop with `rounds` rounds left.
unfoldable pub delete_job : ℕ → ℕ → Spooler → Spooler
delete_job time i s =
    if not ((s.jobs i).timestamp == 0) && leb 10 (time - (s.jobs i).timestamp)
    then record s {
      jobs = update s.jobs i (record (s.jobs i) { timestamp = 0 });
      job_count = flip_bit s.job_count i;
      reports = job_removed i ∷ (job_status i job_deleted ∷ s.reports);
    }
    else s

unfoldable pub delete_jobs : ℕ → ℕ → ℕ → Spooler → Spooler
delete_jobs zero time i s = s
delete_jobs (suc rounds) time i s = delete_jobs rounds time (i + 1) (delete_job time i s)

-- What follows the label bad_arg.
unfoldable pub finish_round : World → Spooler → Next × Spooler
finish_round w s =
    let s' = delete_jobs max_jobs w.now 0 s in (if s'.program_failure then failed else again, s')

-- The command quit, with its arguments.
abbrev pub run_quit : World → List Bytes → Spooler → Next × Spooler
run_quit w [] s = (quit, ok s)
run_quit w (a ∷ rest) s = finish_round w (error s)

-- The words of a line, if there are any. The outer `none` is that of create_job.
unfoldable pub run_words : World → Option (List Bytes) → Spooler → Option (Next × Spooler)
run_words w none s = some (finish_round w s)
run_words w (some []) s = some (finish_round w s)
run_words w (some (name ∷ args)) s =
    if is_word "quit" name
    then some (run_quit w args s)
    else elim (run_command w name args s) [ none ↦ none | some s' ↦ some (finish_round w s') ]

-- A line that was read.
unfoldable pub run_line : World → Bytes → Spooler → Option (Next × Spooler)
run_line w line s =
    let (array, s') = split_string w.line_malloc w.calloc line s in run_words w array s'

abbrev pub is_paused : JobStatus → Bool
is_paused job_paused = true
is_paused _ = false

-- The loop after the last command that ends the jobs which are paused.
unfoldable pub end_paused : ℕ → ℕ → Spooler → Spooler
end_paused zero i s = s
end_paused (suc rounds) i s = end_paused rounds (i + 1) (
    if is_paused (s.jobs i).status
    then report (killed (s.jobs i).pid sigcont) (report (killed (s.jobs i).pid sigterm) s)
    else s)
