-- ===== src/Chat/Links.antt =====
-- Circular doubly linked lists, such as those of hw5/src/user_registry.c.
use cse320_spring.Base.{
  ℕ, List, [], ◌∷◌, ◌++◌, ◌≡◌, ◌≢◌, refl, sym, subst, ◌∙◌, ==-eq-true, ==-eq-false,
}
use cse320_spring.Chat.Users.{store}

-- The cells `xs` follow the cell `a`, in order, and the cell `b` follows them.
pub data Linked (next prev : ℕ → ℕ) : ℕ → List ℕ → ℕ → Type 0 where
  last : {a b : ℕ} → next a ≡ b → prev b ≡ a → Linked next prev a [] b
  cell :
      {a x b : ℕ} {xs : List ℕ}
      → next a ≡ x
      → prev x ≡ a
      → Linked next prev x xs b
      → Linked next prev a (x ∷ xs) b

-- No member of `xs` is `a`; no two members of `xs` are equal.
pub data IsApart (a : ℕ) : List ℕ → Type 0 where
  apart_nil : IsApart a []
  apart_cons : {x : ℕ} {xs : List ℕ} → a ≢ x → IsApart a xs → IsApart a (x ∷ xs)

pub data IsDistinct : List ℕ → Type 0 where
  distinct_nil : IsDistinct []
  distinct_cons : {x : ℕ} {xs : List ℕ} → IsApart x xs → IsDistinct xs → IsDistinct (x ∷ xs)

module _ {ℓ} {A : Type ℓ} where
  pub store-at : (f : ℕ → A) (a b : ℕ) (v : A) → b ≡ a → store f a v b ≡ v
  store-at f a b v h = rw (==-eq-true b a h)

  pub store-other : (f : ℕ → A) (a b : ℕ) (v : A) → b ≢ a → store f a v b ≡ f b
  store-other f a b v h = rw (==-eq-false b a h)

abbrev pub last_of : ℕ → List ℕ → ℕ
last_of a [] = a
last_of a (x ∷ xs) = last_of x xs

pub Linked-prev : (n p : ℕ → ℕ) {a b : ℕ} (xs : List ℕ) → Linked n p a xs b → p b ≡ last_of a xs
Linked-prev n p [] (last e f) = f
Linked-prev n p (x ∷ xs) (cell e f l) = Linked-prev n p xs l

pub apart-last_of : (a x : ℕ) (xs : List ℕ) → IsApart a (x ∷ xs) → a ≢ last_of x xs
apart-last_of a x [] (apart_cons h q) = h
apart-last_of a x (y ∷ ys) (apart_cons h q) = apart-last_of a y ys q

pub not_sym : {a b : ℕ} → a ≢ b → b ≢ a
not_sym h e = h (sym e)

-- A cell put at the end.
module _ (n p : ℕ → ℕ) (new head l : ℕ) (nh : new ≢ head) where
  pub Linked-append :
      (a : ℕ) (xs : List ℕ)
      → Linked n p a xs head
      → last_of a xs ≡ l
      → IsApart new (a ∷ xs)
      → IsApart head xs
      → IsDistinct (a ∷ xs)
      → Linked
          (store (store n l new) new head)
          (store (store p new l) head new)
          a
          (xs ++ new ∷ [])
          head
  Linked-append a [] (last e f) at (apart_cons na _) _ _ =
      cell (store-other (store n l new) new a head (not_sym na) ∙ store-at n l a new at)
        (store-other (store p new l) head new new nh ∙ store-at p new new l refl ∙ sym at)
        (last (store-at (store n l new) new new head refl)
          (store-at (store p new l) head head new refl))
  Linked-append a (x ∷ xs) (cell e f rest) at (apart_cons na (apart_cons nx nxs))
        (apart_cons hx hxs) (distinct_cons ax d) =
      cell
        (store-other (store n l new) new a head (not_sym na)
          ∙ (store-other n l a new (λ al. apart-last_of a x xs ax (al ∙ sym at)) ∙ e))
        (store-other (store p new l) head x new (not_sym hx)
          ∙ (store-other p new x l (not_sym nx) ∙ f))
        (Linked-append x xs rest at (apart_cons nx nxs) hxs d)

-- The write of the field prev of a cell that is not behind the first.
pub Linked-store-prev :
    (n p : ℕ → ℕ) (c v a b : ℕ) (xs : List ℕ)
    → Linked n p a xs b
    → IsApart c xs
    → c ≢ b
    → Linked n (store p c v) a xs b
Linked-store-prev n p c v a b [] (last e f) _ cb = last e (store-other p c b v (not_sym cb) ∙ f)
Linked-store-prev n p c v a b (x ∷ xs) (cell e f rest) (apart_cons cx cxs) cb =
    cell e (store-other p c x v (not_sym cx) ∙ f) (Linked-store-prev n p c v x b xs rest cxs cb)

pub Linked-store-next :
    (n p : ℕ → ℕ) (c v a b : ℕ) (xs : List ℕ)
    → Linked n p a xs b
    → IsApart c (a ∷ xs)
    → Linked (store n c v) p a xs b
Linked-store-next n p c v a b [] (last e f) (apart_cons ca _) =
    last (store-other n c a v (not_sym ca) ∙ e) f
Linked-store-next n p c v a b (x ∷ xs) (cell e f rest) (apart_cons ca cxs) =
    cell (store-other n c a v (not_sym ca) ∙ e) f (Linked-store-next n p c v x b xs rest cxs)

pub apart-last_of-append : (a x : ℕ) (xs ys : List ℕ) → IsApart a (x ∷ xs ++ ys) → a ≢ last_of x xs
apart-last_of-append a x [] ys (apart_cons h q) = h
apart-last_of-append a x (y ∷ xs) ys (apart_cons h q) = apart-last_of-append a y xs ys q

-- The cells around `c`.
module _ (n p : ℕ → ℕ) (c head : ℕ) where
  pub Linked-before :
      (a : ℕ) (ys zs : List ℕ) → Linked n p a (ys ++ c ∷ zs) head → p c ≡ last_of a ys
  Linked-before a [] zs (cell e f rest) = f
  Linked-before a (y ∷ ys) zs (cell e f rest) = Linked-before y ys zs rest

  pub Linked-after :
      (a b : ℕ) (ys zs : List ℕ)
      → Linked n p a (ys ++ c ∷ zs) head
      → IsApart b (ys ++ c ∷ zs)
      → b ≢ head
      → b ≢ n c
  Linked-after a b [] [] (cell e f (last e' f')) q h eq = h (eq ∙ e')
  Linked-after a b [] (z ∷ zs) (cell e f (cell e' f' rest)) (apart_cons _ (apart_cons bz _)) h eq =
      bz (eq ∙ e')
  Linked-after a b (y ∷ ys) zs (cell e f rest) (apart_cons by q) h eq =
      Linked-after y b ys zs rest q h eq

-- A cell taken out.
module _ (n p : ℕ → ℕ) (c head : ℕ) where
  remove_first :
      (a : ℕ) (zs : List ℕ)
      → n a ≡ c
      → p c ≡ a
      → Linked n p c zs head
      → IsDistinct (a ∷ c ∷ zs)
      → IsApart head (c ∷ zs)
      → Linked (store n (p c) (n c)) (store p (n c) (p c)) a zs head
  remove_first a [] e f (last e' f') d hs =
      last (store-at n (p c) a (n c) (sym f) ∙ e') (store-at p (n c) head (p c) (sym e') ∙ f)
  remove_first a (z ∷ zs) e f (cell e' f' rest)
        (distinct_cons (apart_cons ac az) (distinct_cons cz (distinct_cons zz _)))
        (apart_cons hc (apart_cons hz hzs)) =
      cell (store-at n (p c) a (n c) (sym f) ∙ e') (store-at p (n c) z (p c) (sym e') ∙ f) (
        Linked-store-next n (store p (n c) (p c)) (p c) (n c) z head zs
          (Linked-store-prev n p (n c) (p c) z head zs rest (subst (λ k. IsApart k zs) (sym e') zz)
            (λ k. hz (sym k ∙ e')))
          (subst (λ k. IsApart k (z ∷ zs)) (sym f) az))

  pub Linked-remove :
      (a : ℕ) (ys zs : List ℕ)
      → Linked n p a (ys ++ c ∷ zs) head
      → IsDistinct (a ∷ ys ++ c ∷ zs)
      → IsApart head (ys ++ c ∷ zs)
      → Linked (store n (p c) (n c)) (store p (n c) (p c)) a (ys ++ zs) head
  Linked-remove a [] zs (cell e f rest) d hs = remove_first a zs e f rest d hs
  Linked-remove a (y ∷ ys) zs (cell e f rest) (distinct_cons ay (distinct_cons yy d))
        (apart_cons hy hs) =
      cell
        (store-other n (p c) a (n c) (λ k.
            apart-last_of-append a y ys (c ∷ zs) ay (k ∙ Linked-before n p c head y ys zs rest))
          ∙ e)
        (store-other p (n c) y (p c) (Linked-after n p c head y y ys zs rest yy (not_sym hy)) ∙ f)
        (Linked-remove y ys zs rest (distinct_cons yy d) hs)
