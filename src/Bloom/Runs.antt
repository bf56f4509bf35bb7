-- ===== src/Bloom/Runs.antt =====
-- A filter of two bytes, and the theorems there.
use hypha_db.Base.{ℕ, ◌≡◌, ◌≤◌, ◌+◌, refl, Bool, true, some, List, [], ◌∷◌, arith, ok}
use hypha_db.Base.Text.{Text}
use hypha_db.Base.Checksums.{sum_bytes}
use hypha_db.Bloom.{Filter, new, clamp_hashes}
use hypha_db.Bloom.Members.{IsWellFormed, AllFound, add_all, add_all-AllFound, new-IsWellFormed}
use hypha_db.Bloom.Codec.{encode, decode, decode-encode_filter}

abbrev hash : Text → ℕ × ℕ
hash key = (3 + sum_bytes key, sum_bytes key)

abbrev empty : Filter
empty = record { bits = 0 ∷ 0 ∷ []; bit_count = 16; hash_count = 3 }

empty-IsWellFormed : IsWellFormed empty
empty-IsWellFormed = record {
  whole_bytes = refl;
  not_empty = omega arith;
  bytes = (omega arith, (omega arith, tt));
}

abbrev keys : List Text
keys = (1 ∷ 2 ∷ []) ∷ (7 ∷ []) ∷ []

add_all-AllFound_example :
    (g : Filter) × (add_all hash keys empty ≡ some g) × IsWellFormed g × AllFound hash keys g
add_all-AllFound_example = add_all-AllFound hash keys empty empty-IsWellFormed

decode-encode_filter_example :
    (buf : List ℕ) × (encode (some empty) ≡ ok buf) × (decode buf ≡ ok empty)
decode-encode_filter_example = decode-encode_filter empty (record {
  well_formed = empty-IsWellFormed;
  some_hashes = omega arith;
  few_hashes = omega arith;
  few_bits = omega arith;
})

-- Ten bits for every item, and seven hash functions.
abbrev any_rate : Unit {0} → Bool
any_rate rate = true

abbrev ten_bits : ℕ → Unit {0} → ℕ
ten_bits n rate = 10

abbrev seven : ℕ → ℕ → ℕ
seven bits n = 7

new_made :
    new any_rate ten_bits seven 1 tt
    ≡ ok (record { bits = 0 ∷ 0 ∷ []; bit_count = 16; hash_count = 7 })
unfolding new clamp_hashes
new_made = refl

new-IsWellFormed_example :
    IsWellFormed (record { bits = 0 ∷ 0 ∷ []; bit_count = 16; hash_count = 7 }) × (1 ≤ 7) × (7 ≤ 30)
new-IsWellFormed_example =
    new-IsWellFormed any_rate ten_bits seven 1 tt
      (record { bits = 0 ∷ 0 ∷ []; bit_count = 16; hash_count = 7 }) (omega arith) (omega arith)
      new_made
