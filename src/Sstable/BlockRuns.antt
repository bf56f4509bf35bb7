-- ===== src/Sstable/BlockRuns.antt =====
-- Two blocks with three records, stored with a toy codec, and the theorems there.
use hypha_db.Base.{
  ℕ, ◌<◌, ◌≡◌, ◌^◌, ◌-◌, ◌>>=◌, inl, inr, refl, ap, ◌∙◌, Bool, true, false, Bool-cases, some, List,
  [], ◌∷◌, length, replicate, ◌==◌, if◌then◌else◌, arith, Result, ok, err, All,
}
use hypha_db.Base.Bytes.{put_le}
use hypha_db.Base.Text.{text_eq, text_lt}
use hypha_db.Base.Checksums.{sum_bytes, sum_bytes-IsU32}
use hypha_db.Record.{Record, batch_none, encode_binary, encode_header, encoded_size, decode_binary}
use hypha_db.Record.RoundTrip.{IsEncodable}
use hypha_db.Compression.{Lz4, lz4_codec, none_codec, compress, compress_lz4}
use hypha_db.Sstable.Physical.{
  encode_physical_block, decode_physical_block, stored_payload, should_compress, block_header_bytes,
}
use hypha_db.Sstable.Stored.{IsLossless, decode_physical_block-encode_physical_block}
use hypha_db.Sstable.Writer.{
  Writer, WriteOptions, WriteError, new_writer, write_blocks, add_records, add_record, place_record,
  is_full, note_record, flush_block, start_block, append_record, logical_bytes, words, check_order,
  projected_size,
}
use hypha_db.Sstable.Cursor.{decode_record_view}
use hypha_db.Sstable.View.{decode_record_view-decode_binary}
use hypha_db.Sstable.Found.{Each, concat, IsFound}
use hypha_db.Sstable.Written.{write_blocks-IsFound}

-- A codec that makes one byte of a run of zeros.
unfoldable all_zero : List ℕ → Bool
all_zero [] = true
all_zero (b ∷ bs) = let rest = all_zero bs in if b == 0 then rest else false

all_zero-replicate : (bs : List ℕ) → all_zero bs ≡ true → replicate (length bs) 0 ≡ bs
unfolding all_zero
all_zero-replicate [] h = refl
all_zero-replicate (b ∷ bs) h = elim (Bool-cases (b == 0)) [
  | inl e ↦
      let same : 0 ≡ b = ground arith in
      let rest = rw e at h in
      ap (λ c. c ∷ replicate (length bs) 0) same ∙ ap (λ l. b ∷ l) (all_zero-replicate bs rest)
  | inr other ↦ absurd (let h' = rw other at h in cc h')
]

abbrev zero_runs : Lz4
zero_runs = record {
  compress_block = λ bs. if all_zero bs then some (7 ∷ []) else some [];
  uncompress_block = λ c size. some (replicate size 0);
}

zero_runs-IsLossless : IsLossless zero_runs
zero_runs-IsLossless = record {
  restores = λ bs c cs e. elim (Bool-cases (all_zero bs)) [
    | inl zeros ↦ ap (λ l. some l) (all_zero-replicate bs zeros)
    | inr mixed ↦ absurd (let e' = rw mixed at e in cc e')
  ];
}

abbrev always : ℕ → ℕ → Bool
always raw compressed = true

abbrev zeros : List ℕ
zeros = 0 ∷ 0 ∷ 0 ∷ 0 ∷ 0 ∷ 0 ∷ []

decode_physical_block-encode_physical_block_example :
    decode_physical_block sum_bytes zero_runs (1 ∷ 6 ∷ 0 ∷ 0 ∷ 0 ∷ 7 ∷ 14 ∷ 0 ∷ 0 ∷ 0 ∷ [])
    ≡ ok zeros
unfolding encode_physical_block stored_payload should_compress compress compress_lz4
    block_header_bytes put_le all_zero
decode_physical_block-encode_physical_block_example =
    decode_physical_block-encode_physical_block zero_runs zero_runs-IsLossless sum_bytes
      sum_bytes-IsU32 always zeros lz4_codec (1 ∷ 6 ∷ 0 ∷ 0 ∷ 0 ∷ 7 ∷ 14 ∷ 0 ∷ 0 ∷ 0 ∷ [])
      (omega arith) refl

abbrev version : ℕ → ℕ → Record
version key seq = record {
  key = key ∷ [];
  seq = seq;
  value = 5 ∷ 6 ∷ [];
  deleted = false;
  batch_id = 0;
  batch_kind = batch_none;
}

version-IsEncodable : (key seq : ℕ) → seq < 2 ^ 64 → IsEncodable (version key seq)
version-IsEncodable key seq small = record {
  key_fits = omega arith;
  value_fits = omega arith;
  seq_fits = small;
}

abbrev records : List Record
records = version 97 2 ∷ version 97 1 ∷ version 98 3 ∷ []

records-IsEncodable : All IsEncodable records
records-IsEncodable = (
  version-IsEncodable 97 2 (omega arith),
  (version-IsEncodable 97 1 (omega arith), (version-IsEncodable 98 3 (omega arith), tt)),
)

-- Blocks of 64 bytes hold two of these records.
abbrev options : WriteOptions
options = record { block_size = 64; restart_interval = 2; codec = none_codec }

abbrev writer_of : Result WriteError Writer → Writer
writer_of (ok w) = w
writer_of (err e) = new_writer

abbrev written : Writer
written = writer_of (write_blocks sum_bytes zero_runs always options records)

written_blocks : length written.index ≡ 2
unfolding write_blocks add_records add_record place_record is_full note_record flush_block
    start_block append_record logical_bytes words check_order projected_size encode_physical_block
    stored_payload block_header_bytes put_le encode_binary encode_header encoded_size text_eq
    text_lt
written_blocks = refl

write_blocks-IsFound_example :
    (chunks : List (List Record)) × (records ≡ concat chunks)
    × Each
        (IsFound sum_bytes sum_bytes-IsU32 zero_runs zero_runs-IsLossless always options
          written.file)
        written.index
        chunks
unfolding write_blocks add_records add_record place_record is_full note_record flush_block
    start_block append_record logical_bytes words check_order projected_size encode_physical_block
    stored_payload block_header_bytes put_le encode_binary encode_header encoded_size text_eq
    text_lt
write_blocks-IsFound_example =
    write_blocks-IsFound sum_bytes sum_bytes-IsU32 zero_runs zero_runs-IsLossless always options
      (omega arith) (omega arith) (omega arith) (omega arith) records written records-IsEncodable
      refl

decode_record_view-decode_binary_example : decode_record_view (encode_binary (version 97 2)) ≡ (
    decode_binary true (encode_binary (version 97 2)) >>= λ (rec, rest).
    ok (rec, length (encode_binary (version 97 2)) - length rest))
unfolding encode_binary encode_header put_le
decode_record_view-decode_binary_example =
    decode_record_view-decode_binary (encode_binary (version 97 2)) (omega arith)
