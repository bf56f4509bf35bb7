-- ===== src/Base/Checksums.antt =====
-- A checksum for concrete runs: the sum of the bytes, as a uint32.
use Prim.Native.Nat.{ℕ, ◌+◌, ◌%◌, ◌^◌}
use mathlib.Core.List.{List, [], ◌∷◌}
use native.Mathlib.Omega.{arith}
use hypha_db.Base.Bytes.{IsU32}

abbrev pub sum_bytes : List ℕ → ℕ
sum_bytes [] = 0
sum_bytes (b ∷ bs) = (b + sum_bytes bs) % 2 ^ 32

pub sum_bytes-IsU32 : (bs : List ℕ) → IsU32 (sum_bytes bs)
sum_bytes-IsU32 [] = omega arith
sum_bytes-IsU32 (b ∷ bs) = omega arith
