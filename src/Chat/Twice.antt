-- ===== src/Chat/Twice.antt =====
-- Two calls of ureg_register of hw5/src/user_registry.c with one handle.
use cse320_spring.Base.{
  ℕ, ◌+◌, ◌<◌, ◌%◌, ◌^◌, List, [], ◌∷◌, ◌++◌, ◌≡◌, refl, sym, subst, ◌∙◌, ap, Option, none, some,
  inl, inr, true, false, if◌then◌else◌, length, Bool-cases, Option-cases,
}
use mathlib.Core.Option.{some-injective}
use cse320_spring.Base.Text.{strcmp_equal_refl, Bytes, strcmp_equal}
use cse320_spring.Chat.Users.{Heap, Library, store, ureg_register}
use cse320_spring.Chat.Registry.{Row, find_row, recount, find_row_cases, IsRegistry, found-IsHeld}
use cse320_spring.Chat.Append.{user_ref_lem, search-locked}
use cse320_spring.Chat.Register.{registered, created_cases, IsFresh, ureg_register-registered}

find_row-recount :
    (handle : Bytes) (f : ℕ → ℕ) (r : Row) (rs : List Row)
    → find_row handle rs ≡ some r
    → find_row handle (recount handle f rs) ≡ some (record r { count = f r.count })
find_row-recount handle f r [] e = absurd cc
find_row-recount handle f r (x ∷ rs) e = elim (find_row_cases handle r x rs e) [
  | inl (t, p) ↦ rw (sym p, t, t)
  | inr (t, e') ↦ rw (t, t, find_row-recount handle f r rs e')
]

find_row-append :
    (handle : Bytes) (r : Row) (rs : List Row)
    → find_row handle rs ≡ none
    → r.handle ≡ handle
    → find_row handle (rs ++ r ∷ []) ≡ some r
find_row-append handle r [] e h = rw (h, strcmp_equal_refl handle)
find_row-append handle r (x ∷ rs) e h = elim (Bool-cases (strcmp_equal x.handle handle)) [
  | inl t ↦
      let e' : some x ≡ none = sym (ap (λ b. if b then some x else find_row handle rs) t) ∙ e in
      absurd cc
  | inr t ↦ rw t (
      find_row-append handle r rs (sym (ap (λ b. if b then some x else find_row handle rs) t) ∙ e)
        h)
]

-- The handle is found again, with the user that was given.
abbrev Again : Bytes → ℕ → Option ℕ × List Row → Type 0
Again handle u spec = spec.0 ≡ some u → (r : Row) × (find_row handle spec.1 ≡ some r) × (r.user ≡ u)

registered-Again :
    (lib : Library) (handle : Bytes) (rows : List Row) (u : ℕ)
    → Again handle u (registered lib handle rows)
registered-Again lib handle rows u = elim (Option-cases (find_row handle rows)) [
  | inr (r, e) ↦
      let spec : registered lib handle rows
          ≡ (some r.user, recount handle (λ c. (c + 1) % 2 ^ 32) rows) =
        rw (registered, e) in
      subst (Again handle u) (sym spec) (λ k. (
        record r { count = (r.count + 1) % 2 ^ 32 },
        find_row-recount handle (λ c. (c + 1) % 2 ^ 32) r rows e,
        some-injective r.user u k,
      ))
  | inl n ↦ elim (created_cases lib) [
    | inl c ↦
        let spec : registered lib handle rows ≡ (none, rows) = rw (registered, n, c) in
        subst (Again handle u) (sym spec) (λ k. absurd cc)
    | inr (v, c, us) ↦ elim (Option-cases lib.entry_space) [
      | inl e ↦
          let spec : registered lib handle rows ≡ (none, rows) = rw (registered, n, c, e) in
          subst (Again handle u) (sym spec) (λ k. absurd cc)
      | inr (new, e) ↦
          let r : Row = record { entry = new; user = v; handle = handle; count = 2 } in
          let spec : registered lib handle rows ≡ (some v, rows ++ r ∷ []) =
            rw (registered, n, c, e) in
          subst (Again handle u) (sym spec)
            (λ k. (r, find_row-append handle r rows n refl, some-injective v u k))
    ]
  ]
]

register-found :
    (lib : Library) (fuel head : ℕ) (handle : Bytes) (rows : List Row) (r : Row) (s : Heap)
    → IsRegistry head rows s
    → length rows < fuel
    → find_row handle rows ≡ some r
    → (s' : Heap) × (ureg_register lib fuel head handle s ≡ some (some r.user, s'))
unfolding ureg_register
register-found lib fuel head handle rows r s w h e =
    let loop = search-locked head rows s w fuel handle h in
    let alive = (found-IsHeld s handle r rows w.held e).alive in
    (
      record s {
        locked = false;
        users =
            store s.users r.user
              (some (record { handle = r.handle; reference_count = (r.count + 1) % 2 ^ 32 }));
      },
      rw (
        w.unlocked,
        loop,
        e,
        user_ref_lem r.user (record s { locked = true })
            (record { handle = r.handle; reference_count = r.count }) alive,
      ),
    )

-- On a registry that is not locked, whose rows are `rows`, with malloc results that are not in use
-- and fuel for each row before and after the call and one round more, where the abstract registry
-- gives the user `u` for the handle: ureg_register gives `u`, and a second call with the same handle,
-- whatever malloc gives then, also gives `u`.
pub ureg_register-twice :
    (lib lib' : Library) (fuel head : ℕ) (handle : Bytes) (rows : List Row) (u : ℕ) (s : Heap)
    → IsRegistry head rows s
    → IsFresh lib head rows
    → length rows < fuel
    → length (registered lib handle rows).1 < fuel
    → (registered lib handle rows).0 ≡ some u
    → (s' : Heap) × (s'' : Heap) × (ureg_register lib fuel head handle s ≡ some (some u, s'))
      × (ureg_register lib' fuel head handle s' ≡ some (some u, s''))
ureg_register-twice lib lib' fuel head handle rows u s w fresh h h' k =
    let (s', e, w') = ureg_register-registered lib fuel head handle rows s w fresh h in
    let (r, found, p) = registered-Again lib handle rows u k in
    let (s'', e') =
      register-found lib' fuel head handle (registered lib handle rows).1 r s' w' h' found in
    (s', s'', e ∙ ap (λ o. some (o, s')) k, e' ∙ ap (λ v. some (some v, s'')) p)
