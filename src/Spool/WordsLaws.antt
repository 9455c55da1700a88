-- ===== src/Spool/WordsLaws.antt =====
-- split_string of hw4/src/custom_functions.c gives back the words that a line is made of.
use cse320_spring.Base.{ℕ, ◌≡◌, ◌≢◌, sym, ◌∙◌, ap, true, some, List, [], ◌∷◌, ◌++◌, ==-eq-false}
use cse320_spring.Base.Text.{Bytes}
use mathlib.Core.List.{append_assoc, append-nil}
use cse320_spring.Spool.State.{Spooler}
use cse320_spring.Spool.Words.{space, tokens, array_of, split_string}

-- A word has a byte, and none of its bytes is a space.
pub data HasNoSpace : Bytes → Type 0 where
  no_bytes : HasNoSpace []
  one_more : {c : ℕ} {cs : Bytes} → c ≢ space → HasNoSpace cs → HasNoSpace (c ∷ cs)

pub data AreWords : List Bytes → Type 0 where
  no_words : AreWords []
  word_more :
      {c : ℕ} {cs : Bytes} {ws : List Bytes}
      → HasNoSpace (c ∷ cs)
      → AreWords ws
      → AreWords ((c ∷ cs) ∷ ws)

-- The words with a space after each but the last.
abbrev pub join : List Bytes → Bytes
join [] = []
join (w ∷ []) = w
join (w ∷ (v ∷ vs)) = w ++ (space ∷ join (v ∷ vs))

tokens-append :
    (word cs rest : Bytes) → HasNoSpace cs → tokens word (cs ++ rest) ≡ tokens (word ++ cs) rest
unfolding tokens
tokens-append word [] rest no_bytes = ap (λ w. tokens w rest) (sym (append-nil word))
tokens-append word (c ∷ cs) rest (one_more h q) = rw (==-eq-false c space h) (
    tokens-append (word ++ c ∷ []) cs rest q
    ∙ ap (λ w. tokens w rest) (append_assoc word (c ∷ []) cs))

tokens-join : (w : Bytes) (ws : List Bytes) → AreWords (w ∷ ws) → tokens [] (join (w ∷ ws)) ≡ w ∷ ws
unfolding tokens
tokens-join [] ws q = elim q [ ]
tokens-join (c ∷ cs) [] (word_more q no_words) =
    ap (λ l. tokens [] l) (sym (append-nil (c ∷ cs))) ∙ tokens-append [] (c ∷ cs) [] q
tokens-join (c ∷ cs) (v ∷ vs) (word_more q more) =
    tokens-append [] (c ∷ cs) (space ∷ join (v ∷ vs)) q
    ∙ ap (λ l. (c ∷ cs) ∷ l) (tokens-join v vs more)

-- Where malloc and calloc give space, split_string gives the words of a line that is made of at least
-- one word, with a space between two words, and changes no global variable.
pub split_string-join :
    (w : Bytes) (ws : List Bytes) (s : Spooler)
    → AreWords (w ∷ ws)
    → split_string true true (join (w ∷ ws)) s ≡ (some (w ∷ ws), s)
unfolding split_string
split_string-join [] ws s q = elim q [ ]
split_string-join (c ∷ cs) [] s (word_more q more) =
    ap (λ t. array_of true t s) (tokens-join (c ∷ cs) [] (word_more q more))
split_string-join (c ∷ cs) (v ∷ vs) s (word_more q more) =
    ap (λ t. array_of true t s) (tokens-join (c ∷ cs) (v ∷ vs) (word_more q more))
