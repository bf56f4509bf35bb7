-- ===== src/Sstable/Runs.antt =====
-- A table of nine bytes of data, an index of two blocks, and the theorems there.
use hypha_db.Base.{
  ℕ, ◌-◌, ◌^◌, ◌≤◌, ◌<◌, ◌≡◌, ◌⊎◌, inr, refl, false, some, List, [], ◌∷◌, ◌++◌, length, arith, ok,
}
use hypha_db.Base.Bytes.{put_le}
use hypha_db.Base.Text.{text_lt}
use hypha_db.Sstable.Footer.{
  FooterMetadata, OpenFile, write_footer, read_footer, footer_size, current_format_version,
  legacy_format_version,
}
use hypha_db.Sstable.Regions.{IsLaidOut, read_footer-write_footer, read_footer-IsLaidOut}
use hypha_db.Sstable.Index.{IndexEntry, write_index, decode_index, decode_index-write_index}
use hypha_db.Sstable.Search.{
  first_possible_block, IsFirstPossible, IsSorted, first_possible_block-IsFirstPossible,
}

abbrev blocks : List ℕ
blocks = 1 ∷ 2 ∷ 3 ∷ 4 ∷ 5 ∷ 6 ∷ 7 ∷ 8 ∷ 9 ∷ []

-- An index of three bytes and a filter of two.
abbrev metadata : FooterMetadata
metadata = record {
  format_version = 3;
  index_offset = 4;
  index_length = 3;
  filter_offset = 7;
  filter_length = 2;
}

abbrev file : OpenFile
file = record { bytes = blocks ++ write_footer 4 3 7 2; stat_fails = false; read_fails = false }

read_footer-write_footer_example : read_footer file ≡ ok metadata
read_footer-write_footer_example =
    read_footer-write_footer blocks 4 3 7 2
      (record {
        index_inside = omega arith;
        rest_used = inr (omega arith, omega arith, omega arith);
      })
      (omega arith)

file_size : length file.bytes < 2 ^ 63
unfolding write_footer put_le
file_size = omega arith

read_footer-IsLaidOut_example :
    (footer_size ≤ length file.bytes)
    × ((3 ≡ legacy_format_version) ⊎ (3 ≡ current_format_version))
    × IsLaidOut 4 3 7 2 (length file.bytes - footer_size)
read_footer-IsLaidOut_example =
    read_footer-IsLaidOut file metadata file_size read_footer-write_footer_example

abbrev entry : ℕ → ℕ → IndexEntry
entry key offset = record { first_key = key ∷ []; offset = offset; length = 4 }

abbrev index : List IndexEntry
index = entry 97 0 ∷ entry 99 4 ∷ []

decode_index-write_index_example : decode_index (write_index index ++ blocks) ≡ ok index
decode_index-write_index_example = decode_index-write_index index blocks (omega arith) (
  record { short_key = omega arith; offset_fits = omega arith; length_fits = omega arith },
  (record { short_key = omega arith; offset_fits = omega arith; length_fits = omega arith }, tt),
)

index-IsSorted : IsSorted index
unfolding text_lt
index-IsSorted = ((refl, tt), (tt, tt))

first_possible_block-IsFirstPossible_example :
    (block : ℕ) × (first_possible_block index (98 ∷ []) ≡ some block)
    × IsFirstPossible index (98 ∷ []) block
first_possible_block-IsFirstPossible_example =
    first_possible_block-IsFirstPossible index (98 ∷ []) index-IsSorted (omega arith)
