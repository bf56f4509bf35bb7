-- ===== src/Sstable/Table.antt =====
-- internal/sstable/block.go: a block of a table's file, read and decoded.
use hypha_db.Base.{
  ℕ, ◌+◌, ◌-◌, ◌^◌, List, length, slice, ltb, ◌==◌, Result, ok, fail_if, map_err, ◌>>=◌, ◌>>◌,
}
use hypha_db.Record.{Record}
use hypha_db.Compression.{Lz4}
use hypha_db.Sstable.Index.{IndexEntry}
use hypha_db.Sstable.Physical.{
  BlockError, max_block_size, block_header_size, block_trailer_size, decode_physical_block,
}
use hypha_db.Sstable.Cursor.{CursorError, decode_logical_block}

pub data TableError : Type 0 where
  bad_physical : BlockError → TableError
  bad_logical : CursorError → TableError
  zero_length length_exceeds offset_exceeds read_failed : TableError

-- `readBlockFrom`; `ReadAt` fails where the file ends too early.
unfoldable pub read_block_from : List ℕ → IndexEntry → Result TableError (List ℕ)
read_block_from file entry = do
  fail_if (entry.length == 0) zero_length
  fail_if (ltb (max_block_size + block_header_size + block_trailer_size) entry.length)
      length_exceeds
  fail_if (ltb (2 ^ 63 - 1) entry.offset) offset_exceeds
  fail_if (ltb (length file) (entry.offset + entry.length)) read_failed
  ok (slice entry.offset (entry.offset + entry.length) file)

module _ (checksum : List ℕ → ℕ) (lz4 : Lz4) where
  unfoldable pub decode_block : List ℕ → Result TableError (List Record)
  decode_block physical = do
    logical ← map_err bad_physical (decode_physical_block checksum lz4 physical)
    map_err bad_logical (decode_logical_block logical)

  -- The records of a block of the file.
  unfoldable pub read_block : List ℕ → IndexEntry → Result TableError (List Record)
  read_block file entry = do physical ← read_block_from file entry; decode_block physical
