-- ===== src/Base/Fields.antt =====
-- One byte of a slice, and Go's `&^`.
use Prim.Native.Nat.{ℕ, zero, suc, ◌-◌, ◌<◌, bit_and}
use mathlib.Core.List.{List, [], ◌∷◌}
use mathlib.Core.Path.{◌≡◌, refl}
use mathlib.Core.Bool.{Bool, true, false}
use native.Mathlib.Omega.{arith}
use hypha_db.Base.Tests.{if◌then◌else◌}
use hypha_db.Base.Lists.{length, drop, All}
use hypha_db.Base.Bytes.{IsByte}

-- `xs[i]` where the caller has checked the length.
abbrev pub byte_at : List ℕ → ℕ → ℕ
byte_at [] i = 0
byte_at (x ∷ xs) zero = x
byte_at (x ∷ xs) (suc i) = byte_at xs i

-- `a &^ b`
abbrev pub and_not : ℕ → ℕ → ℕ
and_not a b = a - bit_and a b

pub drop-of-length : (n : ℕ) (xs : List ℕ) → length xs ≡ suc n → drop n xs ≡ byte_at xs n ∷ []
drop-of-length zero [] h = absurd (omega arith)
drop-of-length zero (x ∷ []) h = refl
drop-of-length zero (x ∷ y ∷ ys) h = absurd (omega arith)
drop-of-length (suc n) [] h = absurd (omega arith)
drop-of-length (suc n) (x ∷ xs) h = drop-of-length n xs (omega arith)

pub byte_at-IsByte : (xs : List ℕ) (i : ℕ) → All IsByte xs → IsByte (byte_at xs i)
byte_at-IsByte [] i h = omega arith
byte_at-IsByte (x ∷ xs) zero h = h.0
byte_at-IsByte (x ∷ xs) (suc i) h = byte_at-IsByte xs i h.1

-- A table of a Boolean test, read off by evaluation.
unfoldable pub table : (ℕ → Bool) → ℕ → Bool
table test zero = true
table test (suc k) = let smaller = table test k in if test k then smaller else false

pub table_entry :
    (test : ℕ → Bool) (size : ℕ) → table test size ≡ true → {i : ℕ} → i < size → test i ≡ true
unfolding table
table_entry test zero full below = absurd (omega arith)
table_entry test (suc k) full {i} below = ground (arith, table_entry test k (ground arith) {i = i})
