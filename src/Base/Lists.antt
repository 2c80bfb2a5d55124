-- ===== src/Base/Lists.antt =====
-- Lists as the rows of a table: the first row that a test accepts, and a change of the rows that
-- it accepts. `length` and `take` stand here over the native numbers.
use Prim.Native.Nat.{ℕ, zero, suc, ◌+◌}
use native.Mathlib.Nat.{ℕ_set}
use mathlib.Core.Logic.{∥∥₁_elim, inl, inr}
use mathlib.Core.Path.{◌≡◌, refl, ◌∙◌}
use mathlib.Core.Bool.{Bool, true, false}
use mathlib.Core.Option.{Option, none, some}
use mathlib.Core.List.{List, [], ◌∷◌, ◌++◌, Perm}
use mathlib.Core.List.{Permᴰ}
use native.Mathlib.Omega.{arith}
use hotdrop_orchestration.Base.Tests.{if◌then◌else◌, Bool-cases}

module _ {ℓ} {A : Type ℓ} where
  abbrev pub length : List A → ℕ
  length [] = 0
  length (x ∷ xs) = suc (length xs)

  abbrev pub take : ℕ → List A → List A
  take zero xs = []
  take (suc n) [] = []
  take (suc n) (x ∷ xs) = x ∷ take n xs

  abbrev pub first : (A → Bool) → List A → Option A
  first p [] = none
  first p (x ∷ xs) = if p x then some x else first p xs

  abbrev pub keep : (A → Bool) → List A → List A
  keep p [] = []
  keep p (x ∷ xs) = if p x then x ∷ keep p xs else keep p xs

  abbrev pub modify : (A → Bool) → (A → A) → List A → List A
  modify p f [] = []
  modify p f (x ∷ xs) = (if p x then f x else x) ∷ modify p f xs

  -- A fold that sums a number over the rows.
  abbrev pub total : (A → ℕ) → List A → ℕ
  total f [] = 0
  total f (x ∷ xs) = f x + total f xs

  abbrev pub All {κ} : (A → Type κ) → List A → Type κ
  All P [] = Unit
  All P (x ∷ xs) = P x × All P xs

  pub length-append : (xs ys : List A) → length (xs ++ ys) ≡ length xs + length ys
  length-append [] ys = omega arith
  length-append (x ∷ xs) ys = omega (arith, length-append xs ys)

  pub total-append : (f : A → ℕ) (xs ys : List A) → total f (xs ++ ys) ≡ total f xs + total f ys
  total-append f [] ys = omega arith
  total-append f (x ∷ xs) ys = omega (arith, total-append f xs ys)

  pub All-append {κ} : (P : A → Type κ) (xs ys : List A) → All P xs → All P ys → All P (xs ++ ys)
  All-append P [] ys hx hy = hy
  All-append P (x ∷ xs) ys hx hy = (hx.0, All-append P xs ys hx.1 hy)

  pub first-append :
      (p : A → Bool) (xs : List A) (x : A)
      → first p xs ≡ none
      → p x ≡ true
      → first p (xs ++ x ∷ []) ≡ some x
  first-append p [] x h e = ground arith
  first-append p (y ∷ xs) x h e = ground (arith, first-append p xs x)

  -- A change of the first row that the test accepts.
  abbrev pub modify_first : (A → Bool) → (A → A) → List A → List A
  modify_first p f [] = []
  modify_first p f (x ∷ xs) = if p x then f x ∷ xs else x ∷ modify_first p f xs

module _ {ℓ} {A : Type ℓ} where
  -- The first row that a test accepts passes the test.
  pub first_holds : (p : A → Bool) (xs : List A) (x : A) → first p xs ≡ some x → p x ≡ true
  first_holds p [] x h = cc
  first_holds p (y ∷ xs) x h = ground (arith, first_holds p xs x)

  -- Writing the changed row over the row that was found is a change of that row.
  pub modify_first-const :
      (p : A → Bool) (f : A → A) (xs : List A) (x : A)
      → first p xs ≡ some x
      → modify_first p (λ _. f x) xs ≡ modify_first p f xs
  modify_first-const p f [] x h = refl
  modify_first-const p f (y ∷ xs) x h = ground (arith, modify_first-const p f xs x)

module _ {ℓ} {A : Type ℓ} where
  -- A change of the first row under one key leaves what is found under another.
  pub first-modify_first_ne :
      (p q : A → Bool) (f : A → A) (xs : List A)
      → ((x : A) → q (f x) ≡ q x)
      → ((x : A) → p x ≡ true → q x ≡ false)
      → first q (modify_first p f xs) ≡ first q xs
  first-modify_first_ne p q f [] same apart = refl
  first-modify_first_ne p q f (x ∷ xs) same apart =
      ground (arith, same x, apart x, first-modify_first_ne p q f xs same apart)

  -- A change of the row that is found, which stays under its key, is found in its place.
  pub first-modify_first_self :
      (p : A → Bool) (f : A → A) (xs : List A) (x : A)
      → ((y : A) → p (f y) ≡ p y)
      → first p xs ≡ some x
      → first p (modify_first p f xs) ≡ some (f x)
  first-modify_first_self p f [] x same e = cc
  first-modify_first_self p f (y ∷ xs) x same e =
      ground (arith, same y, first-modify_first_self p f xs x same)

  -- What is found stays found when rows are added.
  pub first-append_left :
      (p : A → Bool) (xs ys : List A) (x : A) → first p xs ≡ some x → first p (xs ++ ys) ≡ some x
  first-append_left p [] ys x e = cc
  first-append_left p (y ∷ xs) ys x e = ground (arith, first-append_left p xs ys x)

module _ {ℓ} {A : Type ℓ} where
  -- A row that passes the test at the head of the list is the one that is found.
  pub found_here :
      (p : A → Bool) (x r : A) (rs : List A) → p x ≡ true → first p (x ∷ rs) ≡ some r → x ≡ r
  found_here p x r rs here e = ground arith

module _ {ℓ} {A : Type ℓ} where
  length-keep-same :
      (p : A → Bool) (x y : A) (xs ys : List A)
      → x ≡ y
      → length (keep p xs) ≡ length (keep p ys)
      → length (keep p (x ∷ xs)) ≡ length (keep p (y ∷ ys))
  length-keep-same p x y xs ys e h =
      rw e (elim (Bool-cases (p y)) [ inl t ↦ rw t (omega (arith, h)) | inr t ↦ rw t h ])

  length-keep-swap :
      (p : A → Bool) (x y : A) (xs : List A)
      → length (keep p (x ∷ y ∷ xs)) ≡ length (keep p (y ∷ x ∷ xs))
  length-keep-swap p x y xs = ground arith

  length-keep-Permᴰ :
      (p : A → Bool) {xs ys : List A} → Permᴰ xs ys → length (keep p xs) ≡ length (keep p ys)
  length-keep-Permᴰ p Permᴰ.nil = refl
  length-keep-Permᴰ p (Permᴰ.cons e d) = length-keep-same p _ _ _ _ e (length-keep-Permᴰ p d)
  length-keep-Permᴰ p (Permᴰ.swap {a} {b} {l = l} e f) = rw (e, f) (length-keep-swap p _ _ l)
  length-keep-Permᴰ p (Permᴰ.trans d e) = length-keep-Permᴰ p d ∙ length-keep-Permᴰ p e

  -- Rows in another order: as many of them pass a test.
  pub length-keep-Perm :
      (p : A → Bool) (xs ys : List A) → Perm xs ys → length (keep p xs) ≡ length (keep p ys)
  length-keep-Perm p xs ys h = ∥∥₁_elim h (ℕ_set _ _) (length-keep-Permᴰ p)
