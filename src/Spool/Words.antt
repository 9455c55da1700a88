-- ===== src/Spool/Words.antt =====
-- Words and numbers of a command line: split_string of hw4/src/custom_functions.c and the calls of
-- strtol in hw4/src/cli.c.
use cse320_spring.Base.{
  ℕ, ◌+◌, ◌-◌, ◌*◌, ◌%◌, ◌^◌, Bool, true, false, ◌&&◌, ◌||◌, Option, none, some, List, [], ◌∷◌,
  ◌++◌, ◌==◌, ltb, leb, if◌then◌else◌,
}
use cse320_spring.Base.Text.{Bytes}
use cse320_spring.Spool.State.{Spooler}

abbrev pub space : ℕ
space = 32

abbrev pub flush : Bytes → List Bytes → List Bytes
flush [] ws = ws
flush (c ∷ cs) ws = (c ∷ cs) ∷ ws

-- What the calls of `strtok` with " " give, where `word` was read before.
unfoldable pub tokens : Bytes → Bytes → List Bytes
tokens word [] = flush word []
tokens word (c ∷ cs) =
    let ended = flush word (tokens [] cs) in
    let rest = tokens (word ++ c ∷ []) cs in if c == space then ended else rest

-- The array of the words, where calloc gives space or not.
abbrev pub array_of : Bool → List Bytes → Spooler → Option (List Bytes) × Spooler
array_of calloc [] s = (none, s)
array_of true (w ∷ ws) s = (some (w ∷ ws), s)
array_of false (w ∷ ws) s = (none, record s { program_failure = true })

-- `split_string`, where malloc and calloc give space or not. The count that it writes to `length` is
-- that of the words.
unfoldable pub split_string : Bool → Bool → Bytes → Spooler → Option (List Bytes) × Spooler
split_string malloc calloc [] s = (none, s)
split_string malloc calloc (c ∷ cs) s =
    if malloc
    then array_of calloc (tokens [] (c ∷ cs)) s
    else (none, record s { program_failure = true })

abbrev is_blank : ℕ → Bool
is_blank c = c == 32 || leb 9 c && leb c 13

abbrev is_digit : ℕ → Bool
is_digit c = leb 48 c && leb c 57

-- The digits at the front: whether there is one, their value after `n`, and what is left.
unfoldable pub digits : Bool → ℕ → Bytes → Bool × ℕ × Bytes
digits any n [] = (any, n, [])
digits any n (c ∷ cs) =
    let rest = digits true (n * 10 + (c - 48)) cs in if is_digit c then rest else (any, n, c ∷ cs)

skip_blanks : Bytes → Bytes
skip_blanks [] = []
skip_blanks (c ∷ cs) = let rest = skip_blanks cs in if is_blank c then rest else c ∷ cs

-- A sign, and what is left.
sign : Bytes → Bool × Bytes
sign [] = (false, [])
sign (c ∷ cs) = if c == 45 then (true, cs) else if c == 43 then (false, cs) else (false, c ∷ cs)

-- A `long` within its bounds, as the bit pattern of an `int`.
narrow : Bool → ℕ → ℕ
narrow true n = (2 ^ 64 - (if ltb (2 ^ 63) n then 2 ^ 63 else n)) % 2 ^ 32
narrow false n = (if ltb (2 ^ 63 - 1) n then 2 ^ 63 - 1 else n) % 2 ^ 32

-- The job number of cancel, pause and resume: `none` where a byte is left over or the `int` is not
-- from 0 to 63.
unfoldable pub job_number : Bytes → Option ℕ
unfolding digits skip_blanks sign narrow
job_number word =
    let (negative, unsigned) = sign (skip_blanks word) in
    let (any, n, leftover) = digits false 0 unsigned in
    let id = narrow negative n in
    if any then elim leftover [ [] ↦ if ltb id 64 then some id else none | c ∷ cs ↦ none ] else none
