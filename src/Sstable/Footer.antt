-- ===== src/Sstable/Footer.antt =====
-- internal/sstable/footer.go: the last 40 bytes of a table, which locate its index and filter.
use hypha_db.Base.{
  ℕ, ◌+◌, ◌-◌, ◌%◌, ◌^◌, Bool, not, ◌&&◌, List, [], ◌∷◌, ◌++◌, length, drop, slice, ltb, ◌==◌,
  if◌then◌else◌, Result, ok, fail_if, ◌>>◌,
}
use hypha_db.Base.Bytes.{put_le, get_le, bytes_equal}
use hypha_db.Base.Fields.{byte_at}

abbrev pub footer_size : ℕ
footer_size = 40

abbrev pub legacy_format_version : ℕ
legacy_format_version = 2

abbrev pub current_format_version : ℕ
current_format_version = 3

-- `HYPSST`
abbrev pub table_magic : List ℕ
table_magic = 72 ∷ 89 ∷ 80 ∷ 83 ∷ 83 ∷ 84 ∷ []

pub record FooterMetadata : Type 0 where
  pub format_version : ℕ
  pub index_offset : ℕ
  pub index_length : ℕ
  pub filter_offset : ℕ
  pub filter_length : ℕ

pub data FooterError : Type 0 where
  stat_failed table_too_small footer_unreadable invalid_magic : FooterError
  unsupported_version unsupported_flags : ℕ → FooterError
  index_offset_exceeds index_length_exceeds : FooterError
  filter_offset_without_length index_end_mismatch : FooterError
  filter_offset_mismatch filter_offset_exceeds filter_length_exceeds filter_end_mismatch :
      FooterError

-- An open file, and which of the two calls on it fail.
pub record OpenFile : Type 0 where
  pub bytes : List ℕ
  pub stat_fails : Bool
  pub read_fails : Bool

unfoldable pub write_footer : ℕ → ℕ → ℕ → ℕ → List ℕ
write_footer index_offset index_length filter_offset filter_length =
    put_le 8 index_offset
    ++ (put_le 8 index_length
        ++ (put_le 8 filter_offset
            ++ (put_le 8 filter_length ++ (table_magic ++ (current_format_version ∷ 0 ∷ [])))))

-- The regions that a footer names, against the end of the data. Sums are those of uint64.
unfoldable pub check_filter : ℕ → ℕ → ℕ → ℕ → Result FooterError Unit
check_filter index_end filter_offset filter_length data_end =
    if filter_length == 0
    then (do
      fail_if (not (filter_offset == 0)) filter_offset_without_length
      fail_if (not (index_end == data_end)) index_end_mismatch)
    else (do
      fail_if (not (filter_offset == index_end)) filter_offset_mismatch
      fail_if (ltb data_end filter_offset) filter_offset_exceeds
      fail_if (ltb (data_end - filter_offset) filter_length) filter_length_exceeds
      fail_if (not ((filter_offset + filter_length) % 2 ^ 64 == data_end)) filter_end_mismatch)

unfoldable pub check_regions : ℕ → ℕ → ℕ → ℕ → ℕ → Result FooterError Unit
check_regions index_offset index_length filter_offset filter_length data_end = do
  fail_if (ltb data_end index_offset) index_offset_exceeds
  fail_if (ltb (data_end - index_offset) index_length) index_length_exceeds
  check_filter ((index_offset + index_length) % 2 ^ 64) filter_offset filter_length data_end

-- What the footer's own bytes must be.
unfoldable pub check_identity : List ℕ → Result FooterError Unit
check_identity footer = do
  fail_if (not (bytes_equal (slice 32 38 footer) table_magic)) invalid_magic
  let version = byte_at footer 38
  fail_if (not (version == legacy_format_version) && not (version == current_format_version))
      (unsupported_version version)
  fail_if (not (byte_at footer 39 == 0)) (unsupported_flags (byte_at footer 39))

-- The fields in the footer's bytes.
abbrev pub footer_fields : List ℕ → FooterMetadata
footer_fields footer = record {
  format_version = byte_at footer 38;
  index_offset = get_le (slice 0 8 footer);
  index_length = get_le (slice 8 16 footer);
  filter_offset = get_le (slice 16 24 footer);
  filter_length = get_le (slice 24 32 footer);
}

unfoldable pub read_footer : OpenFile → Result FooterError FooterMetadata
read_footer file = do
  fail_if file.stat_fails stat_failed
  let file_size = length file.bytes
  fail_if (ltb file_size footer_size) table_too_small
  fail_if file.read_fails footer_unreadable
  let footer = drop (file_size - footer_size) file.bytes
  check_identity footer
  let m = footer_fields footer
  check_regions m.index_offset m.index_length m.filter_offset m.filter_length
      (file_size - footer_size)
  ok m
