-- ===== src/Birp/Options.antt =====
-- The options that validargs of hw1/src/birp.c accepts, and what main does with them.
use cse320_spring.Base.{
  ℕ, ◌+◌, ◌-◌, ◌*◌, ◌%◌, ◌≤◌, ◌≡◌, ◌≢◌, ◌↔◌, ◌⊎◌, inl, inr, refl, sym, ap, ◌∙◌, subst, Bool, true,
  false, ◌||◌, Option, none, some, List, [], ◌∷◌, ltb, ◌==◌, eq_of_==, if◌then◌else◌, length, arith,
  Bool-cases, Option-cases,
}
use cse320_spring.Base.Text.{Bytes, codes}
use cse320_spring.Birp.Strings.{len, equal, string_to_int}
use cse320_spring.Birp.Args.{
  help_option, Scan, Round, invalid, next, skip, input_format, output_format, with_value,
  transformation, round, scan, validargs, failure, dispatch, main,
}

-- The options without a transformation: the format `i` of the input and the format `o` of the output.
pub data IsFormats (x : ℕ) : Type 0 where
  formats : (i o : ℕ) → 1 ≤ i → i ≤ 2 → 1 ≤ o → o ≤ 3 → x ≡ i + o * 16 → IsFormats x

-- The options with a transformation, which is between two birp files.
pub data IsTransformed (x : ℕ) : Type 0 where
  negated : x ≡ 0x122 → IsTransformed x
  thresholded : (v : ℕ) → v ≤ 255 → x ≡ 0x222 + v * 65536 → IsTransformed x
  zoomed_out : (k : ℕ) → k ≤ 16 → x ≡ 0x322 + (256 - k) % 256 * 65536 → IsTransformed x
  zoomed_in : (k : ℕ) → k ≤ 16 → x ≡ 0x322 + k * 65536 → IsTransformed x
  rotated : x ≡ 0x422 → IsTransformed x

abbrev Scanned : Scan → Type 0
Scanned s =
    ((s.io_search_done ≡ false) × IsFormats s.options)
    ⊎ ((s.io_search_done ≡ true) × IsTransformed s.options)

abbrev Goes : Round → Type 0
Goes invalid = Unit {0}
Goes (next s) = Scanned s
Goes (skip s) = Scanned s

input_format-Goes :
    (arg : Bytes) (s : Scan)
    → s.io_search_done ≡ false
    → IsFormats s.options
    → Goes (input_format arg s)
input_format-Goes arg s free (formats i o a b c d e) = elim (Bool-cases (equal arg (codes "pgm"))) [
  | inl p ↦ rw (p) (inl (free, formats 1 o (omega arith) (omega arith) c d (omega arith)))
  | inr p ↦ elim (Bool-cases (equal arg (codes "birp"))) [
    | inl q ↦ rw (p, q) (inl (free, formats 2 o (omega arith) (omega arith) c d (omega arith)))
    | inr q ↦ rw (p, q) tt
  ]
]

output_format-Goes :
    (arg : Bytes) (s : Scan)
    → s.io_search_done ≡ false
    → IsFormats s.options
    → Goes (output_format arg s)
output_format-Goes arg s free (formats i o a b c d e) =
    elim (Bool-cases (equal arg (codes "pgm"))) [
      | inl p ↦ rw (p) (inl (free, formats i 1 a b (omega arith) (omega arith) (omega arith)))
      | inr p ↦ elim (Bool-cases (equal arg (codes "birp"))) [
        | inl q ↦ rw (p, q) (inl (free, formats i 2 a b (omega arith) (omega arith) (omega arith)))
        | inr q ↦ elim (Bool-cases (equal arg (codes "ascii"))) [
          | inl r ↦
              rw (p, q, r) (inl (free, formats i 3 a b (omega arith) (omega arith) (omega arith)))
          | inr r ↦ rw (p, q, r) tt
        ]
      ]
    ]

string_to_int-le : (str : Bytes) (max v : ℕ) → string_to_int str 0 max ≡ some v → v ≤ max
unfolding string_to_int
string_to_int-le str max v e = ground arith

with_value-Goes :
    (following : Option Bytes) (longest most : ℕ) (put : ℕ → ℕ) (s : Scan)
    → s.io_search_done ≡ true
    → ((v : ℕ) → v ≤ most → IsTransformed (put v))
    → Goes (with_value following longest most put s)
with_value-Goes none longest most put s here good = tt
with_value-Goes (some flag) longest most put s here good =
    elim (Bool-cases (ltb longest (len flag))) [
      | inl p ↦ rw (p) tt
      | inr p ↦ elim (Option-cases (string_to_int flag 0 most)) [
        | inl q ↦ rw (p, q) tt
        | inr (v, q) ↦ rw (p, q) (inr (here, good v (string_to_int-le flag most v q)))
      ]
    ]

abbrev default : Scan
default = record { options = 0x22; input = false; output = false; io_search_done = false }

transformation-Goes :
    (flag : Bytes) (following : Option Bytes) (s : Scan) → Goes (transformation flag following s)
unfolding transformation
transformation-Goes flag following s = elim (Bool-cases (s.options == 0x22)) [
  | inr p ↦ rw (p) tt
  | inl p ↦
      let e : s.options ≡ 0x22 = eq_of_== s.options 0x22 p in
      elim (Bool-cases (equal flag (codes "-n"))) [
        | inl a ↦ rw (p, a) (inr (refl, negated (omega arith)))
        | inr a ↦ elim (Bool-cases (equal flag (codes "-t"))) [
          | inl b ↦
              rw (p, a, b)
                (with_value-Goes following 3 255 _ (record s { io_search_done = true }) refl
                  (λ v h. thresholded v h (omega arith)))
          | inr b ↦ elim (Bool-cases (equal flag (codes "-z"))) [
            | inl c ↦
                rw (p, a, b, c)
                  (with_value-Goes following 2 16 _ (record s { io_search_done = true }) refl
                    (λ v h. zoomed_out v h (omega arith)))
            | inr c ↦ elim (Bool-cases (equal flag (codes "-Z"))) [
              | inl d ↦
                  rw (p, a, b, c, d)
                    (with_value-Goes following 2 16 _ (record s { io_search_done = true }) refl
                      (λ v h. zoomed_in v h (omega arith)))
              | inr d ↦ elim (Bool-cases (equal flag (codes "-r"))) [
                | inl r ↦ rw (p, a, b, c, d, r) (inr (refl, rotated (omega arith)))
                | inr r ↦ rw (p, a, b, c, d, r) tt
              ]
            ]
          ]
        ]
      ]
]

-- The test of -i and -o before their format.
guarded-Goes :
    (seen : Bool) (s : Scan) (r : Round)
    → Scanned s
    → (s.io_search_done ≡ false → IsFormats s.options → Goes r)
    → Goes (if seen || s.io_search_done then invalid else r)
guarded-Goes true s r g k = tt
guarded-Goes false s r (inl (free, f)) k = rw (free) (k free f)
guarded-Goes false s r (inr (done, f)) k = rw (done) tt

round-Goes :
    (flag : Bytes) (following : Option Bytes) (s : Scan) → Scanned s → Goes (round flag following s)
unfolding round
round-Goes flag none s g = elim (Bool-cases (equal flag (codes "-i"))) [
  | inl a ↦ rw (a) tt
  | inr a ↦ elim (Bool-cases (equal flag (codes "-o"))) [
    | inl b ↦ rw (a, b) tt
    | inr b ↦ rw (a, b) (transformation-Goes flag none s)
  ]
]
round-Goes flag (some arg) s g = elim (Bool-cases (equal flag (codes "-i"))) [
  | inl a ↦ rw (a) (guarded-Goes s.input s (input_format arg s) g (input_format-Goes arg s))
  | inr a ↦ elim (Bool-cases (equal flag (codes "-o"))) [
    | inl b ↦ rw (a, b) (guarded-Goes s.output s (output_format arg s) g (output_format-Goes arg s))
    | inr b ↦ rw (a, b) (transformation-Goes flag (some arg) s)
  ]
]

abbrev Results : Option ℕ → Type 0
Results none = Unit {0}
Results (some x) = IsFormats x ⊎ IsTransformed x

Scanned-Results : (s : Scan) → Scanned s → Results (some s.options)
Scanned-Results s (inl (_, f)) = inl f
Scanned-Results s (inr (_, f)) = inr f

last-Results :
    (r : Round)
    → Goes r
    → Results (elim r [ invalid ↦ none | next t ↦ some t.options | skip t ↦ some t.options ])
last-Results invalid g = tt
last-Results (next t) g = Scanned-Results t g
last-Results (skip t) g = Scanned-Results t g

scan-Results : (args : List Bytes) (s : Scan) → Scanned s → Results (scan args s)
unfolding scan
scan-Results [] s g = Scanned-Results s g
scan-Results (flag ∷ []) s g = last-Results (round flag none s) (round-Goes flag none s g)
scan-Results (flag ∷ arg ∷ args) s g =
    after (round flag (some arg) s) (round-Goes flag (some arg) s g)
      (λ t. scan-Results (arg ∷ args) t) (λ t. scan-Results args t)
  where
    after :
        (r : Round)
        → Goes r
        → ((t : Scan) → Scanned t → Results (scan (arg ∷ args) t))
        → ((t : Scan) → Scanned t → Results (scan args t))
        → Results (elim r [ invalid ↦ none | next t ↦ scan (arg ∷ args) t | skip t ↦ scan args t ])
    after invalid g one two = tt
    after (next t) g one two = one t g
    after (skip t) g one two = two t g

-- Every command line is refused, with the options 0, or accepted with the options for the help, for two
-- formats and no transformation, or for one transformation between two birp files with its value in
-- its range.
pub validargs_lem :
    (argv : List Bytes)
    → (validargs argv ≡ (false, 0))
      ⊎ ((x : ℕ) × (validargs argv ≡ (true, x))
          × ((x ≡ help_option) ⊎ (IsFormats x ⊎ IsTransformed x)))
unfolding validargs
validargs_lem [] = inl refl
validargs_lem (program ∷ []) = inr (
  0x22,
  refl,
  inr (inl (formats 2 2 (omega arith) (omega arith) (omega arith) (omega arith) refl)),
)
validargs_lem (program ∷ flag ∷ args) = elim (Bool-cases (equal flag (codes "-h"))) [
  | inl a ↦ inr (help_option, rw (a), inl refl)
  | inr a ↦ elim (Bool-cases (ltb 7 (length (program ∷ flag ∷ args)))) [
    | inl b ↦ inl (rw (a, b))
    | inr b ↦
        let start =
          inl (refl, formats 2 2 (omega arith) (omega arith) (omega arith) (omega arith) refl) in
        elim (Option-cases (scan (flag ∷ args) default)) [
          | inl c ↦ inl (rw (a, b, c))
          | inr (x, c) ↦
              inr
                (x, rw (a, b, c), inr (subst Results c (scan-Results (flag ∷ args) default start)))
        ]
  ]
]

dispatch_formats :
    (x i o : ℕ)
    → 1 ≤ i
    → i ≤ 2
    → 1 ≤ o
    → o ≤ 3
    → x ≡ i + o * 16
    → dispatch true x ≡ failure
    → x ≡ 0x11
unfolding dispatch
dispatch_formats x i o a b c d e h = ground arith

dispatch_transformed : (x : ℕ) → x % 256 ≡ 0x22 → dispatch true x ≢ failure
unfolding dispatch
dispatch_transformed x e h = ground arith

dispatch_help : dispatch true help_option ≢ failure
unfolding dispatch
dispatch_help h = cc

transformed_low : (x : ℕ) → IsTransformed x → x % 256 ≡ 0x22
transformed_low x (negated e) = omega arith
transformed_low x (thresholded v h e) = omega arith
transformed_low x (zoomed_out k h e) = omega arith
transformed_low x (zoomed_in k h e) = omega arith
transformed_low x (rotated e) = omega arith

accepted :
    (x : ℕ)
    → (x ≡ help_option) ⊎ (IsFormats x ⊎ IsTransformed x)
    → dispatch true x ≡ failure
    → x ≡ 0x11
accepted x (inl e) h = absurd (dispatch_help (ap (dispatch true) (sym e) ∙ h))
accepted x (inr (inl (formats i o a b c d e))) h = dispatch_formats x i o a b c d e h
accepted x (inr (inr t)) h = absurd (dispatch_transformed x (transformed_low x t) h)

-- main returns EXIT_FAILURE with neither a conversion nor a word on how the program is used exactly for
-- the command lines that ask for pgm to pgm, which validargs accepts.
pub main_failure : (argv : List Bytes) → (main argv ≡ failure) ↔ (validargs argv ≡ (true, 0x11))
unfolding main dispatch
main_failure argv = (
  λ h. elim (validargs_lem argv) [
    | inl e ↦ absurd (refused (ap (λ r. dispatch r.0 r.1) (sym e) ∙ h))
    | inr (x, e, k) ↦
        e ∙ ap (λ y. (true, y)) (accepted x k (ap (λ r. dispatch r.0 r.1) (sym e) ∙ h))
  ],
  λ e. ap (λ r. dispatch r.0 r.1) e ∙ pgm_to_pgm,
)
  where
    refused : dispatch false 0 ≢ failure
    refused = λ h. cc

    pgm_to_pgm : dispatch true 0x11 ≡ failure
    pgm_to_pgm = refl
