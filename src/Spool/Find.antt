-- ===== src/Spool/Find.antt =====
-- The loops that look for a printer, a slot or a process find the first one.
use cse320_spring.Base.{
  ℕ, zero, suc, ◌+◌, ◌<◌, ◌≡◌, inl, inr, refl, sym, ◌∙◌, true, false, not, some, arith, ◌==◌,
  Option-cases, eq_of_==, ==-eq-true,
}
use cse320_spring.Base.Text.{Bytes, strcmp_equal}
use cse320_spring.Base.Search.{first, first-some, first-none}
use cse320_spring.Spool.Mask.{test_bit}
use cse320_spring.Spool.State.{Printer, Spooler, find_loop, find_printer_name, free_slot}
use cse320_spring.Spool.Jobs.{find_pid}

pub find_loop-first :
    (rounds i : ℕ) (name : Bytes) (printers : ℕ → Printer)
    → find_loop rounds i name printers ≡ first rounds i (λ p. strcmp_equal (printers p).name name)
unfolding find_loop first
find_loop-first zero i name printers = refl
find_loop-first (suc rounds) i name printers = rw (find_loop-first rounds (i + 1) name printers)

pub free_slot-first :
    (rounds i m : ℕ) → free_slot rounds i m ≡ first rounds i (λ k. not (test_bit m k))
unfolding free_slot first
free_slot-first zero i m = refl
free_slot-first (suc rounds) i m = rw (free_slot-first rounds (i + 1) m)

pub find_pid-first :
    (rounds i pid : ℕ) (pids : ℕ → ℕ)
    → find_pid rounds i pid pids ≡ first rounds i (λ k. pid == pids k)
unfolding find_pid first
find_pid-first zero i pid pids = refl
find_pid-first (suc rounds) i pid pids = rw (find_pid-first rounds (i + 1) pid pids)

pub find_printer_name-lt :
    (name : Bytes) (s : Spooler) (p : ℕ) → find_printer_name name s ≡ some p → p < s.printer_count
unfolding find_printer_name
find_printer_name-lt name s p e =
    let found =
      first-some s.printer_count 0 (λ p. strcmp_equal (s.printers p).name name) p
        (sym (find_loop-first s.printer_count 0 name s.printers) ∙ e) in
    omega (arith, found.1)

pub free_slot-some :
    (m i : ℕ)
    → free_slot 64 0 m ≡ some i
    → (i < 64) × (test_bit m i ≡ false) × ((j : ℕ) → j < i → test_bit m j ≡ true)
free_slot-some m i e =
    let (a, b, c, d) =
      first-some 64 0 (λ k. not (test_bit m k)) i (sym (free_slot-first 64 0 m) ∙ e) in
    (omega arith, ground arith, λ j h. let t = d j (omega arith) h in ground arith)

pub find_pid-some :
    (rounds pid k : ℕ) (pids : ℕ → ℕ)
    → find_pid rounds 0 pid pids ≡ some k
    → (k < rounds) × (pids k ≡ pid)
find_pid-some rounds pid k pids e =
    let (a, b, c, d) =
      first-some rounds 0 (λ j. pid == pids j) k (sym (find_pid-first rounds 0 pid pids) ∙ e) in
    (omega arith, sym (eq_of_== pid (pids k) c))

-- A process that some index has is found.
pub find_pid_total :
    (rounds pid j : ℕ) (pids : ℕ → ℕ)
    → j < rounds
    → pids j ≡ pid
    → (k : ℕ) × (find_pid rounds 0 pid pids ≡ some k)
find_pid_total rounds pid j pids h e = elim (Option-cases (find_pid rounds 0 pid pids)) [
  | inr found ↦ found
  | inl missed ↦
      let no : (pid == pids j) ≡ false =
        first-none rounds 0 (λ k. pid == pids k) (sym (find_pid-first rounds 0 pid pids) ∙ missed) j
          (omega arith) (omega arith) in
      absurd (ground (arith, ==-eq-true pid (pids j)))
]
