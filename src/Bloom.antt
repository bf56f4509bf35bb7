-- ===== src/Bloom.antt =====
-- internal/bloom/bloom.go: Bloom filters.
pub mod Bits
pub mod Members
pub mod Codec
mod Runs
use Prim.Native.Nat.{bit_and, bit_or}
use hypha_db.Base.{
  ℕ, zero, suc, ◌+◌, ◌*◌, ◌/◌, ◌%◌, ◌^◌, Bool, true, false, Option, none, some, List, [], ◌∷◌,
  get_elem?, set, replicate, ltb, leb, ◌==◌, if◌then◌else◌, Result, ok, err, fail_if, ◌>>=◌, ◌>>◌,
}
use hypha_db.Base.Text.{Text}

pub record Filter : Type 0 where
  pub bits : List ℕ
  pub bit_count : ℕ
  pub hash_count : ℕ

pub data NewError : Type 0 where
  bad_expected_items bad_false_positive_rate : NewError

-- `f.bits[bit/8] |= byte(1) << (bit % 8)`; `none` is the panic of an index out of range.
unfoldable pub set_bit : ℕ → List ℕ → Option (List ℕ)
set_bit bit bits = elim (get_elem? bits (bit / 8)) [
  | none ↦ none
  | some b ↦ some (set bits (bit / 8) (bit_or b (2 ^ (bit % 8))))
]

-- `f.bits[bit/8]&(byte(1)<<(bit%8)) == 0`
unfoldable pub is_clear : ℕ → List ℕ → Option Bool
is_clear bit bits = elim (get_elem? bits (bit / 8)) [
  | none ↦ none
  | some b ↦ some (bit_and b (2 ^ (bit % 8)) == 0)
]

-- `position % f.bitCount`; `none` is the panic of a division by zero.
unfoldable pub probe_bit : ℕ → ℕ → Option ℕ
probe_bit position bit_count = if bit_count == 0 then none else some (position % bit_count)

-- `position += increment` and `increment += i + 1` on uint64.
abbrev pub next_position : ℕ → ℕ → ℕ
next_position position increment = (position + increment) % 2 ^ 64

abbrev pub next_increment : ℕ → ℕ → ℕ
next_increment increment i = (increment + (i + 1)) % 2 ^ 64

-- The loop of `Add`, with the rounds that are left.
unfoldable pub add_loop : ℕ → ℕ → ℕ → ℕ → ℕ → List ℕ → Option (List ℕ)
add_loop zero i position increment bit_count bits = some bits
add_loop (suc left) i position increment bit_count bits = elim (probe_bit position bit_count) [
  | none ↦ none
  | some bit ↦ elim (set_bit bit bits) [
    | none ↦ none
    | some bits' ↦
        add_loop left (i + 1) (next_position position increment) (next_increment increment i)
          bit_count bits'
  ]
]

-- The loop of `MayContain`.
unfoldable pub may_contain_loop : ℕ → ℕ → ℕ → ℕ → ℕ → List ℕ → Option Bool
may_contain_loop zero i position increment bit_count bits = some true
may_contain_loop (suc left) i position increment bit_count bits =
    elim (probe_bit position bit_count) [
      | none ↦ none
      | some bit ↦ elim (is_clear bit bits) [
        | none ↦ none
        | some true ↦ some false
        | some false ↦
            may_contain_loop left (i + 1) (next_position position increment)
              (next_increment increment i) bit_count bits
      ]
    ]

-- `xxh3.Hash128` is `hash128`: the high and the low word.
module _ (hash128 : Text → ℕ × ℕ) where
  unfoldable pub hash_pair : Text → ℕ × ℕ
  hash_pair key =
      let (hi, lo) = hash128 key in (lo, (if hi == 0 then 0x9e37_79b9_7f4a_7c15 else hi))

  unfoldable pub add : Text → Filter → Option Filter
  add key f =
      let (h1, h2) = hash_pair key in
      elim (add_loop f.hash_count 0 h1 h2 f.bit_count f.bits) [
        | none ↦ none
        | some bits ↦ some (record f { bits = bits })
      ]

  -- The nil filter is `none`.
  unfoldable pub may_contain : Text → Option Filter → Option Bool
  may_contain key none = some true
  may_contain key (some f) =
      let (h1, h2) = hash_pair key in
      if f.bit_count == 0
      then some true
      else may_contain_loop f.hash_count 0 h1 h2 f.bit_count f.bits

-- `max(1, min(30, k))`, as the two tests of `New`.
unfoldable pub clamp_hashes : ℕ → ℕ
clamp_hashes n = let low = if ltb n 1 then 1 else n in if ltb 30 low then 30 else low

-- Go's floating point: rates with their test against (0, 1), and the two roundings that `New`
-- computes from the items and the rate.
module _ {Rate : Type 0} (in_unit : Rate → Bool) (optimal_bits : ℕ → Rate → ℕ)
    (optimal_hashes : ℕ → ℕ → ℕ) where
  unfoldable pub new : ℕ → Rate → Result NewError Filter
  unfolding clamp_hashes
  new expected_items rate = do
    fail_if (leb expected_items 0) bad_expected_items
    fail_if (if in_unit rate then false else true) bad_false_positive_rate
    let bit_count = optimal_bits expected_items rate
    let byte_count = (bit_count + 7) % 2 ^ 64 / 8
    ok (record {
      bits = replicate byte_count 0;
      bit_count = byte_count * 8 % 2 ^ 64;
      hash_count = clamp_hashes (optimal_hashes bit_count expected_items);
    })
