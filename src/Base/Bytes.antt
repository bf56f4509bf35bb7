-- ===== src/Base/Bytes.antt =====
-- Byte slices as lists of numbers, encoding/binary's little-endian words, io.ReadFull.
use Prim.Native.Nat.{ℕ, zero, suc, ◌+◌, ◌*◌, ◌/◌, ◌%◌, ◌^◌, ◌≤◌, ◌<◌}
use mathlib.Core.Path.{◌≡◌, refl, sym, ap}
use mathlib.Core.Logic.{inl, inr}
use mathlib.Core.Bool.{Bool, true, false}
use native.Mathlib.Nat.{pow-suc}
use mathlib.Core.List.{List, [], ◌∷◌, ◌++◌}
use native.Mathlib.Omega.{arith}
use hypha_db.Base.Tests.{ltb, ◌==◌, if◌then◌else◌, ge→ltb, lt→ltb, Bool-cases}
use hypha_db.Base.Lists.{
  length, take, drop, All, length-take, length-append, take-drop, take-append_exact,
  drop-append_exact,
}
use hypha_db.Base.Outcome.{Result, ok, err, ◌>>=◌}

abbrev pub IsByte : ℕ → Type 0
IsByte b = b < 256

abbrev pub IsU32 : ℕ → Type 0
IsU32 v = v < 2 ^ 32

abbrev pub IsU64 : ℕ → Type 0
IsU64 v = v < 2 ^ 64

-- `binary.LittleEndian.PutUint32` and `PutUint64`, for any number of bytes.
unfoldable pub put_le : ℕ → ℕ → List ℕ
put_le zero v = []
put_le (suc k) v = v % 256 ∷ put_le k (v / 256)

-- `binary.LittleEndian.Uint32` and `Uint64`.
unfoldable pub get_le : List ℕ → ℕ
get_le [] = 0
get_le (b ∷ bs) = b + 256 * get_le bs

pub length-put_le : (k v : ℕ) → length (put_le k v) ≡ k
unfolding put_le
length-put_le zero v = refl
length-put_le (suc k) v = ap suc (length-put_le k (v / 256))

pub get_le-put_le : (k v : ℕ) → v < 256 ^ k → get_le (put_le k v) ≡ v
unfolding put_le get_le
get_le-put_le zero v h = omega arith
get_le-put_le (suc k) v h = omega (arith, get_le-put_le k (v / 256) (omega arith))

pub put_le-get_le : (bs : List ℕ) → All IsByte bs → put_le (length bs) (get_le bs) ≡ bs
unfolding put_le get_le
put_le-get_le [] h = refl
put_le-get_le (b ∷ bs) (hb, hbs) =
    let low : (b + 256 * get_le bs) % 256 ≡ b = omega arith in
    let high : (b + 256 * get_le bs) / 256 ≡ get_le bs = omega arith in
    rw (low, high, put_le-get_le bs hbs)

pub get_le-lt : (bs : List ℕ) → All IsByte bs → get_le bs < 256 ^ length bs
unfolding get_le
get_le-lt [] h = omega arith
get_le-lt (b ∷ bs) (hb, hbs) = omega (arith, get_le-lt bs hbs, pow-suc 256 (length bs))

pub put_le-IsByte : (k v : ℕ) → All IsByte (put_le k v)
unfolding put_le
put_le-IsByte zero v = tt
put_le-IsByte (suc k) v = (omega arith, put_le-IsByte k (v / 256))

-- The errors of `io.ReadFull`: nothing was there, or less than was asked for.
pub data ReadError : Type 0 where
  eof unexpected_eof : ReadError

abbrev pub short_read : List ℕ → ReadError
short_read [] = eof
short_read (b ∷ bs) = unexpected_eof

-- `io.ReadFull` of `n` bytes: the bytes, and what the reader has left.
unfoldable pub read_full : ℕ → List ℕ → Result ReadError (List ℕ × List ℕ)
read_full n r = if ltb (length r) n then err (short_read r) else ok (take n r, drop n r)

pub read_full-append :
    (n : ℕ) (xs ys : List ℕ) → length xs ≡ n → read_full n (xs ++ ys) ≡ ok (xs, ys)
unfolding read_full
read_full-append n xs ys h =
    let enough : n ≤ length (xs ++ ys) = omega (arith, length-append xs ys) in
    let front : take n (xs ++ ys) ≡ xs = rw (← h) (take-append_exact xs ys) in
    let back : drop n (xs ++ ys) ≡ ys = rw (← h) (drop-append_exact xs ys) in
    rw (ge→ltb _ _ enough, front, back)

pub read_full_short : (n : ℕ) (r : List ℕ) → length r < n → read_full n r ≡ err (short_read r)
unfolding read_full
read_full_short n r h = rw (lt→ltb _ _ h)

pub read_full_enough : (n : ℕ) (r : List ℕ) → n ≤ length r → read_full n r ≡ ok (take n r, drop n r)
unfolding read_full
read_full_enough n r h = rw (ge→ltb _ _ h)

pub read_full-eq-ok :
    (n : ℕ) (r xs ys : List ℕ) → read_full n r ≡ ok (xs, ys) → (r ≡ xs ++ ys) × (length xs ≡ n)
unfolding read_full
read_full-eq-ok n r xs ys h = elim (Bool-cases (ltb (length r) n)) [
  | inl short ↦ cc (h, short)
  | inr enough ↦
      let fits : n ≤ length r = ground arith in
      let parts : (take n r ≡ xs) × (drop n r ≡ ys) = ground arith in
      (rw (← parts.0, ← parts.1) (sym (take-drop n r)), rw (← parts.0) (length-take n r fits))
]

-- What is read as a word is written back as the same bytes.
pub put_le-get_le_of_length :
    (n : ℕ) (bs : List ℕ) → length bs ≡ n → All IsByte bs → put_le n (get_le bs) ≡ bs
put_le-get_le_of_length n bs e h = rw (← e) (put_le-get_le bs h)

pub All-of-append_left {κ} : (P : ℕ → Type κ) (xs ys : List ℕ) → All P (xs ++ ys) → All P xs
All-of-append_left P [] ys h = tt
All-of-append_left P (x ∷ xs) ys h = (h.0, All-of-append_left P xs ys h.1)

pub All-of-append_right {κ} : (P : ℕ → Type κ) (xs ys : List ℕ) → All P (xs ++ ys) → All P ys
All-of-append_right P [] ys h = h
All-of-append_right P (x ∷ xs) ys h = All-of-append_right P xs ys h.1

-- A little-endian word of `n` bytes, read with `io.ReadFull`.
unfoldable pub read_word : ℕ → List ℕ → Result ReadError (ℕ × List ℕ)
read_word n r = do (encoded, rest) ← read_full n r; ok (get_le encoded, rest)

pub read_word-put_le :
    (n v : ℕ) (rest : List ℕ) → v < 256 ^ n → read_word n (put_le n v ++ rest) ≡ ok (v, rest)
unfolding read_word
read_word-put_le n v rest h =
    rw (read_full-append n (put_le n v) rest (length-put_le n v), get_le-put_le n v h)

-- `bytes.Equal`
unfoldable pub bytes_equal : List ℕ → List ℕ → Bool
bytes_equal [] [] = true
bytes_equal [] (y ∷ ys) = false
bytes_equal (x ∷ xs) [] = false
bytes_equal (x ∷ xs) (y ∷ ys) = if x == y then bytes_equal xs ys else false

pub bytes_equal_refl : (xs : List ℕ) → bytes_equal xs xs ≡ true
unfolding bytes_equal
bytes_equal_refl [] = refl
bytes_equal_refl (x ∷ xs) = ground (arith, bytes_equal_refl xs)

pub bytes_equal→eq : (xs ys : List ℕ) → bytes_equal xs ys ≡ true → xs ≡ ys
unfolding bytes_equal
bytes_equal→eq [] [] h = refl
bytes_equal→eq [] (y ∷ ys) h = cc
bytes_equal→eq (x ∷ xs) [] h = cc
bytes_equal→eq (x ∷ xs) (y ∷ ys) h = ground (arith, bytes_equal→eq xs ys)
