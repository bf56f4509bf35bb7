-- ===== src/Sstable/Physical.antt =====
-- internal/sstable/block.go: a block as it is stored, with its codec, its raw length and a checksum.
use hypha_db.Base.{
  ℕ, ◌+◌, ◌-◌, ◌%◌, ◌^◌, ◌*◌, Bool, false, not, List, ◌∷◌, ◌++◌, length, take, drop, slice, ltb,
  leb, ◌==◌, if◌then◌else◌, Result, ok, fail_if, map_err, ◌>>=◌, ◌>>◌, ◌||◌,
}
use hypha_db.Base.Bytes.{put_le, get_le}
use hypha_db.Base.Fields.{byte_at}
use hypha_db.Compression.{Codec, none_codec, CompressionError, Lz4, compress, decompress}

abbrev pub block_header_size : ℕ
block_header_size = 1 + 4

abbrev pub block_trailer_size : ℕ
block_trailer_size = 4

abbrev pub max_block_size : ℕ
max_block_size = 256 * 1024 * 1024

pub record BlockHeader : Type 0 where
  pub codec : Codec
  pub raw_len : ℕ

pub data BlockError : Type 0 where
  block_too_large : ℕ → BlockError
  compression : CompressionError → BlockError
  physical_too_small checksum_mismatch : BlockError
  raw_length_too_large : ℕ → BlockError

-- `savings` is the comparison of floating-point numbers at the end.
unfoldable pub should_compress : (ℕ → ℕ → Bool) → ℕ → ℕ → Bool
should_compress savings raw_size compressed_size =
    if (raw_size == 0) || leb raw_size compressed_size
    then false
    else savings raw_size compressed_size

unfoldable pub block_header_bytes : BlockHeader → List ℕ
block_header_bytes header = header.codec % 256 ∷ put_le 4 header.raw_len

unfoldable pub parse_block_header : List ℕ → BlockHeader
parse_block_header physical = record {
  codec = byte_at physical 0;
  raw_len = get_le (slice 1 5 physical);
}

module _ (lz4 : Lz4) (savings : ℕ → ℕ → Bool) where
  -- The payload that is stored, and its codec.
  unfoldable pub stored_payload : List ℕ → Codec → Result BlockError (Codec × List ℕ)
  stored_payload logical requested =
      if requested == none_codec then ok (none_codec, logical) else (do
        compressed ← map_err compression (compress lz4 logical requested)
        ok (
            if should_compress savings (length logical) (length compressed)
            then (requested, compressed)
            else (none_codec, logical)))

module _ (checksum : List ℕ → ℕ) (lz4 : Lz4) (savings : ℕ → ℕ → Bool) where
  unfoldable pub encode_physical_block : List ℕ → Codec → Result BlockError (List ℕ)
  encode_physical_block logical requested = do
    fail_if (ltb max_block_size (length logical)) (block_too_large (length logical))
    (codec, payload) ← stored_payload lz4 savings logical requested
    let summed =
        block_header_bytes (record { codec = codec; raw_len = length logical % 2 ^ 32 }) ++ payload
    ok (summed ++ put_le 4 (checksum summed))

module _ (checksum : List ℕ → ℕ) (lz4 : Lz4) where
  unfoldable pub decode_physical_block : List ℕ → Result BlockError (List ℕ)
  decode_physical_block physical = do
    fail_if (ltb (length physical) (block_header_size + block_trailer_size)) physical_too_small
    let checksum_offset = length physical - block_trailer_size
    fail_if
        (not (get_le (drop checksum_offset physical) == checksum (take checksum_offset physical)))
        checksum_mismatch
    let header = parse_block_header physical
    fail_if (ltb max_block_size header.raw_len) (raw_length_too_large header.raw_len)
    map_err compression (
        decompress lz4 (slice block_header_size checksum_offset physical) header.raw_len
          header.codec)
