-- ===== src/Base/Text.antt =====
-- Go strings are byte slices, compared byte by byte.
use Prim.Native.Nat.{ℕ}
use mathlib.Core.Path.{◌≡◌, refl, sym, subst}
use mathlib.Core.Bool.{Bool, true, false, not}
use mathlib.Core.List.{List, [], ◌∷◌}
use native.Mathlib.Omega.{arith}
use mathlib.Core.Logic.{inl, inr}
use hypha_db.Base.Tests.{ltb, ◌==◌, if◌then◌else◌, Bool-cases}

abbrev pub Text : Type 0
Text = List ℕ

-- `a == b`
unfoldable pub text_eq : Text → Text → Bool
text_eq [] [] = true
text_eq [] (y ∷ ys) = false
text_eq (x ∷ xs) [] = false
text_eq (x ∷ xs) (y ∷ ys) = if x == y then text_eq xs ys else false

-- `a < b`
unfoldable pub text_lt : Text → Text → Bool
text_lt [] [] = false
text_lt [] (y ∷ ys) = true
text_lt (x ∷ xs) [] = false
text_lt (x ∷ xs) (y ∷ ys) = if x == y then text_lt xs ys else ltb x y

-- `a <= b`
abbrev pub text_le : Text → Text → Bool
text_le a b = not (text_lt b a)

pub text_eq_refl : (a : Text) → text_eq a a ≡ true
unfolding text_eq
text_eq_refl [] = refl
text_eq_refl (x ∷ xs) = ground (arith, text_eq_refl xs)

pub text_eq→eq : (a b : Text) → text_eq a b ≡ true → a ≡ b
unfolding text_eq
text_eq→eq [] [] h = refl
text_eq→eq [] (y ∷ ys) h = cc
text_eq→eq (x ∷ xs) [] h = cc
text_eq→eq (x ∷ xs) (y ∷ ys) h = ground (arith, text_eq→eq xs ys)

pub text_lt_irrefl : (a : Text) → text_lt a a ≡ false
unfolding text_lt
text_lt_irrefl [] = refl
text_lt_irrefl (x ∷ xs) = ground (arith, text_lt_irrefl xs)

pub text_lt_trans : (a b c : Text) → text_lt a b ≡ true → text_lt b c ≡ true → text_lt a c ≡ true
unfolding text_lt
text_lt_trans [] [] c p q = cc
text_lt_trans [] (y ∷ ys) [] p q = cc
text_lt_trans [] (y ∷ ys) (z ∷ zs) p q = refl
text_lt_trans (x ∷ xs) [] c p q = cc
text_lt_trans (x ∷ xs) (y ∷ ys) [] p q = cc
text_lt_trans (x ∷ xs) (y ∷ ys) (z ∷ zs) p q = ground (arith, text_lt_trans xs ys zs)

-- Neither is less: the two are equal.
pub text_lt-total : (a b : Text) → text_lt a b ≡ false → text_lt b a ≡ false → text_eq a b ≡ true
unfolding text_lt text_eq
text_lt-total [] [] p q = refl
text_lt-total [] (y ∷ ys) p q = cc
text_lt-total (x ∷ xs) [] p q = cc
text_lt-total (x ∷ xs) (y ∷ ys) p q = ground (arith, text_lt-total xs ys)

-- `a < b` and `b <= c`.
pub text_lt_le_trans :
    (a b c : Text) → text_lt a b ≡ true → text_lt c b ≡ false → text_lt a c ≡ true
text_lt_le_trans a b c p q = elim (Bool-cases (text_lt b c)) [
  | inl less ↦ text_lt_trans a b c p less
  | inr not_less ↦ subst (λ x. text_lt a x ≡ true) (text_eq→eq b c (text_lt-total b c not_less q)) p
]

-- `a <= b` and `b < c`.
pub text_le_lt_trans :
    (a b c : Text) → text_lt b a ≡ false → text_lt b c ≡ true → text_lt a c ≡ true
text_le_lt_trans a b c p q = elim (Bool-cases (text_lt a b)) [
  | inl less ↦ text_lt_trans a b c less q
  | inr not_less ↦
      subst (λ x. text_lt x c ≡ true) (sym (text_eq→eq a b (text_lt-total a b not_less p))) q
]

pub text_le_trans : (a b c : Text) → text_lt b a ≡ false → text_lt c b ≡ false → text_lt c a ≡ false
text_le_trans a b c p q = elim (Bool-cases (text_lt c a)) [
  | inl less ↦ cc (text_lt_le_trans c a b less p, q)
  | inr not_less ↦ not_less
]

pub text_lt_asymm : (a b : Text) → text_lt a b ≡ true → text_lt b a ≡ false
text_lt_asymm a b p = elim (Bool-cases (text_lt b a)) [
  | inl less ↦ cc (text_lt_trans a b a p less, text_lt_irrefl a)
  | inr not_less ↦ not_less
]

-- The lesser of two keys is above a bound only when both are.
pub lesser_bound :
    (x y a : Text)
    → text_lt (if text_lt x y then x else y) a ≡ false
    → (text_lt x a ≡ false) × (text_lt y a ≡ false)
lesser_bound x y a h = elim (Bool-cases (text_lt x y)) [
  | inl less ↦ let low = rw less at h in (low, text_le_trans a x y low (text_lt_asymm x y less))
  | inr not_less ↦ let low = rw not_less at h in (text_le_trans a y x low not_less, low)
]

pub greater_bound :
    (x y a : Text)
    → text_lt a (if text_lt y x then x else y) ≡ false
    → (text_lt a x ≡ false) × (text_lt a y ≡ false)
greater_bound x y a h = elim (Bool-cases (text_lt y x)) [
  | inl less ↦ let high = rw less at h in (high, text_le_trans y x a (text_lt_asymm y x less) high)
  | inr not_less ↦ let high = rw not_less at h in (text_le_trans x y a not_less high, high)
]

pub text_eq_apart : (a b : Text) → text_eq a b ≡ false → text_eq b a ≡ false
text_eq_apart a b h = elim (Bool-cases (text_eq b a)) [
  | inl same ↦ cc (subst (λ x. text_eq x b ≡ true) (text_eq→eq b a same) (text_eq_refl b), h)
  | inr apart ↦ apart
]
