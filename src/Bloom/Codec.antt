-- ===== src/Bloom/Codec.antt =====
-- internal/bloom/codec.go: the stored form of a filter.
use hypha_db.Base.{
  ℕ, ◌-◌, ◌*◌, ◌/◌, ◌%◌, ◌^◌, ◌≤◌, ◌≡◌, refl, true, false, not, ◌||◌, Option, none, some, List, [],
  ◌∷◌, ◌++◌, length, drop, slice, ltb, ◌==◌, Result, ok, err, fail_if, ◌>>◌, arith, ge→ltb,
}
use hypha_db.Base.Bytes.{put_le, get_le, get_le-put_le}
use hypha_db.Base.Fields.{byte_at}
use hypha_db.Bloom.{Filter}
use hypha_db.Bloom.Members.{IsWellFormed}

abbrev pub hash_xxh3_128 : ℕ
hash_xxh3_128 = 1

abbrev pub probe_enhanced_double_hash : ℕ
probe_enhanced_double_hash = 1

abbrev pub current_version : ℕ
current_version = 1

abbrev pub encoded_header_size : ℕ
encoded_header_size = 12

-- `256 << 20 * 8`: Go gives `<<` and `*` one precedence.
abbrev pub max_encoded_bit_count : ℕ
max_encoded_bit_count = 256 * 2 ^ 20 * 8

pub data CodecError : Type 0 where
  nil_filter no_hashes bad_bit_count mismatched_length : CodecError
  too_small bad_version bad_hash_algorithm bad_probe_algorithm bad_hash_count too_many_bits :
      CodecError

unfoldable pub encode : Option Filter → Result CodecError (List ℕ)
encode none = err nil_filter
encode (some f) = do
  fail_if (f.hash_count == 0) no_hashes
  fail_if ((f.bit_count == 0) || not (f.bit_count % 8 == 0)) bad_bit_count
  fail_if (not (length f.bits == f.bit_count / 8)) mismatched_length
  ok (
      (current_version ∷ hash_xxh3_128 ∷ probe_enhanced_double_hash ∷ f.hash_count ∷ [])
      ++ (put_le 8 f.bit_count ++ f.bits))

unfoldable pub decode : List ℕ → Result CodecError Filter
decode buf = do
  fail_if (ltb (length buf) encoded_header_size) too_small
  let hash_count = byte_at buf 3
  let bit_count = get_le (slice 4 12 buf)
  fail_if (not (byte_at buf 0 == current_version)) bad_version
  fail_if (not (byte_at buf 1 == hash_xxh3_128)) bad_hash_algorithm
  fail_if (not (byte_at buf 2 == probe_enhanced_double_hash)) bad_probe_algorithm
  fail_if ((hash_count == 0) || ltb 30 hash_count) bad_hash_count
  fail_if ((bit_count == 0) || not (bit_count % 8 == 0)) bad_bit_count
  fail_if (ltb max_encoded_bit_count bit_count) too_many_bits
  fail_if (not (length buf - encoded_header_size == bit_count / 8)) mismatched_length
  ok (record {
    bits = drop encoded_header_size buf;
    bit_count = bit_count;
    hash_count = hash_count;
  })

-- What `New` gives: a well-formed filter with 1 to 30 hash functions; 256 MiB of bits at most.
pub record IsStorable (f : Filter) : Type 0 where
  pub well_formed : IsWellFormed f
  pub some_hashes : 1 ≤ f.hash_count
  pub few_hashes : f.hash_count ≤ 30
  pub few_bits : f.bit_count ≤ max_encoded_bit_count

-- A well-formed filter with 1 to 30 hash functions and at most 256 MiB of bits is encoded, and what
-- was encoded decodes to the same filter.
pub decode-encode_filter :
    (f : Filter) → IsStorable f → (buf : List ℕ) × (encode (some f) ≡ ok buf) × (decode buf ≡ ok f)
unfolding encode decode put_le
decode-encode_filter f h =
    let size = h.well_formed.whole_bytes in
    let pos = h.well_formed.not_empty in
    let low = h.some_hashes in
    let high = h.few_hashes in
    let few = h.few_bits in
    let t1 : (f.hash_count == 0) ≡ false = ground arith in
    let t2 : (f.bit_count == 0) ≡ false = ground arith in
    let t3 : (f.bit_count % 8 == 0) ≡ true = ground arith in
    let t4 : (length f.bits == f.bit_count / 8) ≡ true = ground arith in
    let t5 : ltb 30 f.hash_count ≡ false = ground arith in
    let t6 : ltb max_encoded_bit_count f.bit_count ≡ false = ground arith in
    let word = get_le-put_le 8 f.bit_count (omega arith) in
    let buf : List ℕ =
      (current_version ∷ hash_xxh3_128 ∷ probe_enhanced_double_hash ∷ f.hash_count ∷ [])
      ++ (put_le 8 f.bit_count ++ f.bits) in
    let t0 : ltb (length buf) encoded_header_size ≡ false = ge→ltb _ _ (omega arith) in
    let t7 : (length buf - encoded_header_size == f.bit_count / 8) ≡ true = ground arith in
    (buf, rw (t1, t2, t3, t4) refl, rw (t0, word, t1, t5, t2, t3, t6, t7) refl)
