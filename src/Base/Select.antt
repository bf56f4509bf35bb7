-- ===== src/Base/Select.antt =====
-- The elements of a list that pass a Boolean test, and membership.
use mathlib.Core.Path.{◌≡◌, refl, sym, subst}
use mathlib.Core.Bool.{Bool, true}
use mathlib.Core.List.{List, [], ◌∷◌, ◌++◌, Memᴰ}
use hypha_db.Base.Tests.{if◌then◌else◌, Bool-cases}
use hypha_db.Base.Lists.{All}
use mathlib.Core.Logic.{inl, inr}

module _ {ℓ} {A : Type ℓ} where
  -- The loop `for _, x := range xs { if test(x) { ys = append(ys, x) } }`.
  unfoldable pub keep_if : (A → Bool) → List A → List A
  keep_if test [] = []
  keep_if test (x ∷ xs) = let rest = keep_if test xs in if test x then x ∷ rest else rest

  -- What passes the test is kept.
  pub Memᴰ-keep_if :
      (test : A → Bool) (x : A) (xs : List A) → Memᴰ x xs → test x ≡ true → Memᴰ x (keep_if test xs)
  unfolding keep_if
  Memᴰ-keep_if test x [] m h = elim m [ ]
  Memᴰ-keep_if test x (y ∷ ys) (Memᴰ.head e) h = rw (subst (λ z. test z ≡ true) e h) (Memᴰ.head e)
  Memᴰ-keep_if test x (y ∷ ys) (Memᴰ.tail m) h =
      let later = Memᴰ-keep_if test x ys m h in
      elim (Bool-cases (test y)) [
        | inl kept ↦ rw kept (Memᴰ.tail later)
        | inr skipped ↦ rw skipped later
      ]

  -- What is kept was there, and passes the test.
  pub All-keep_if {κ} :
      (P : A → Type κ) (test : A → Bool) (xs : List A)
      → ((x : A) → Memᴰ x xs → test x ≡ true → P x)
      → All P (keep_if test xs)
  unfolding keep_if
  All-keep_if P test [] h = tt
  All-keep_if P test (x ∷ xs) h =
      let later = All-keep_if P test xs (λ y m. h y (Memᴰ.tail m)) in
      elim (Bool-cases (test x)) [
        | inl kept ↦ rw kept (h x (Memᴰ.head refl) kept, later)
        | inr skipped ↦ rw skipped later
      ]

  pub All-Memᴰ {κ} : (P : A → Type κ) (xs : List A) (x : A) → All P xs → Memᴰ x xs → P x
  All-Memᴰ P [] x h m = elim m [ ]
  All-Memᴰ P (y ∷ ys) x h (Memᴰ.head e) = subst P (sym e) h.0
  All-Memᴰ P (y ∷ ys) x h (Memᴰ.tail m) = All-Memᴰ P ys x h.1 m

  pub Memᴰ-append_right : (x : A) (xs ys : List A) → Memᴰ x ys → Memᴰ x (xs ++ ys)
  Memᴰ-append_right x [] ys m = m
  Memᴰ-append_right x (z ∷ zs) ys m = Memᴰ.tail (Memᴰ-append_right x zs ys m)

  pub All-of-Memᴰ {κ} : (P : A → Type κ) (xs : List A) → ((x : A) → Memᴰ x xs → P x) → All P xs
  All-of-Memᴰ P [] h = tt
  All-of-Memᴰ P (x ∷ xs) h = (h x (Memᴰ.head refl), All-of-Memᴰ P xs (λ y m. h y (Memᴰ.tail m)))

  pub Memᴰ-append_left : (x : A) (xs ys : List A) → Memᴰ x xs → Memᴰ x (xs ++ ys)
  Memᴰ-append_left x [] ys m = elim m [ ]
  Memᴰ-append_left x (z ∷ zs) ys (Memᴰ.head e) = Memᴰ.head e
  Memᴰ-append_left x (z ∷ zs) ys (Memᴰ.tail m) = Memᴰ.tail (Memᴰ-append_left x zs ys m)
