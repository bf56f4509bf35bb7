-- ===== src/Compression.antt =====
-- internal/compression: the codecs of a block. The LZ4 package is a parameter.
use hypha_db.Base.{
  ℕ, Option, none, some, List, [], ◌∷◌, length, not, ◌==◌, ◌^◌, ◌%◌, if◌then◌else◌, Result, ok, err,
  fail_if, ◌>>◌,
}

-- `Type`, a byte.
abbrev pub Codec : Type 0
Codec = ℕ

abbrev pub none_codec : Codec
none_codec = 0

abbrev pub lz4_codec : Codec
lz4_codec = 1

pub data CompressionError : Type 0 where
  unknown_type : Codec → CompressionError
  raw_length_mismatch : ℕ → ℕ → CompressionError
  compress_failed decompress_failed : CompressionError
  decompressed_length : ℕ → CompressionError

-- `lz4.CompressBlock` gives the bytes it wrote, none where the source does not get smaller, and
-- `lz4.UncompressBlock` those it wrote into a buffer of the given size.
pub record Lz4 : Type 0 where
  pub compress_block : List ℕ → Option (List ℕ)
  pub uncompress_block : List ℕ → ℕ → Option (List ℕ)

module _ (lz4 : Lz4) where
  unfoldable pub compress_lz4 : List ℕ → Result CompressionError (List ℕ)
  compress_lz4 [] = ok []
  compress_lz4 (b ∷ bs) = elim (lz4.compress_block (b ∷ bs)) [
    | none ↦ err compress_failed
    | some [] ↦ ok (b ∷ bs)
    | some (c ∷ cs) ↦ ok (c ∷ cs)
  ]

  unfoldable pub decompress_lz4 : List ℕ → ℕ → Result CompressionError (List ℕ)
  decompress_lz4 bytes raw_len = elim (lz4.uncompress_block bytes raw_len) [
    | none ↦ err decompress_failed
    | some raw ↦ fail_if (not (length raw == raw_len)) (decompressed_length (length raw)) >> ok raw
  ]

  unfoldable pub compress : List ℕ → Codec → Result CompressionError (List ℕ)
  compress bytes requested =
      if requested == none_codec
      then ok bytes
      else (if requested == lz4_codec then compress_lz4 bytes else err (unknown_type requested))

  unfoldable pub decompress : List ℕ → ℕ → Codec → Result CompressionError (List ℕ)
  decompress bytes raw_len codec =
      if codec == none_codec
      then fail_if (not (length bytes % 2 ^ 32 == raw_len))
          (raw_length_mismatch (length bytes) raw_len)
        >> ok bytes
      else (if codec == lz4_codec then decompress_lz4 bytes raw_len else err (unknown_type codec))
