-- ===== src/Sstable/Writer.antt =====
-- internal/sstable/writer.go: the blocks that CreateFromIteratorWithOptions writes, and their index.
use hypha_db.Base.{
  ℕ, ◌+◌, ◌*◌, ◌%◌, ◌^◌, Bool, true, ◌&&◌, Option, none, some, List, [], ◌∷◌, ◌++◌, length, drop,
  ltb, ◌==◌, if◌then◌else◌, Result, ok, fail_if, map_err, ◌>>=◌, ◌>>◌,
}
use hypha_db.Base.Bytes.{put_le}
use hypha_db.Base.Text.{Text, text_eq, text_lt}
use hypha_db.Record.{Record, encoded_size, encode_binary}
use hypha_db.Sstable.Index.{IndexEntry}
use hypha_db.Compression.{Codec, Lz4}
use hypha_db.Sstable.Physical.{BlockError, encode_physical_block}

-- `logicalBlock` with its locals, of which `buffer` is what the bytes.Buffer holds.
pub record Building : Type 0 where
  pub buffer : List ℕ
  pub restarts : List ℕ
  pub record_count : ℕ
  pub first_key : Text

-- `startBlock`
unfoldable pub start_block : Text → Building
start_block key = record {
  buffer = 0 ∷ 0 ∷ 0 ∷ 0 ∷ [];
  restarts = [];
  record_count = 0;
  first_key = key;
}

-- The end of the loop's body: a restart where one is due, and the record.
unfoldable pub append_record : Bool → Record → Building → Building
append_record adds_restart rec b = record b {
  restarts = if adds_restart then b.restarts ++ (length b.buffer % 2 ^ 32 ∷ []) else b.restarts;
  buffer = b.buffer ++ encode_binary rec;
  record_count = b.record_count + 1;
}

unfoldable pub words : List ℕ → List ℕ
words [] = []
words (r ∷ rs) = put_le 4 r ++ words rs

-- The bytes of the block that `flushBlock` hands on.
unfoldable pub logical_bytes : ℕ → Building → List ℕ
logical_bytes interval b =
    put_le 4 b.record_count
    ++ (drop 4 b.buffer
        ++ (words b.restarts ++ (put_le 4 interval ++ put_le 4 (length b.restarts))))

-- `WriteOptions` once they are normalized, without the options of the filter.
pub record WriteOptions : Type 0 where
  pub block_size : ℕ
  pub restart_interval : ℕ
  pub codec : Codec

-- The locals of `CreateFromIteratorWithOptions`. `file` is what the file holds; `previous` stands
-- for `firstRecord`, `previousKey` and `previousSeq`.
pub record Writer : Type 0 where
  pub file : List ℕ
  pub index : List IndexEntry
  pub block : Building
  pub previous : Option Record
  pub smallest_key : Text
  pub largest_key : Text

pub data WriteError : Type 0 where
  unsorted_keys unsorted_versions : WriteError
  bad_block : BlockError → WriteError

abbrev pub no_block : Building
no_block = record { buffer = []; restarts = []; record_count = 0; first_key = [] }

abbrev pub new_writer : Writer
new_writer = record {
  file = [];
  index = [];
  block = no_block;
  previous = none;
  smallest_key = [];
  largest_key = [];
}

-- The two guards at the head of the loop.
unfoldable pub check_order : Option Record → Record → Result WriteError Unit
check_order none rec = ok tt
check_order (some previous) rec = do
  fail_if (text_lt rec.key previous.key) unsorted_keys
  fail_if (text_eq previous.key rec.key && ltb previous.seq rec.seq) unsorted_versions

-- The size of the block if the record is added to it.
unfoldable pub projected_size : ℕ → Building → Record → ℕ
projected_size interval b rec =
    length b.buffer
    + encoded_size rec
    + (if b.record_count % interval == 0 then length b.restarts + 1 else length b.restarts) * 4
    + 8

-- What the loop notes of a record, and the block that it begins where there is none.
unfoldable pub note_record : Record → Writer → Writer
note_record rec w = record w {
  previous = some rec;
  smallest_key = elim w.previous [ none ↦ rec.key | some _ ↦ w.smallest_key ];
  largest_key = rec.key;
  block = if w.block.record_count == 0 then start_block rec.key else w.block;
}

module _ (checksum : List ℕ → ℕ) (lz4 : Lz4) (savings : ℕ → ℕ → Bool) (options : WriteOptions) where
  -- `flushBlock`, on a file that takes every write.
  unfoldable pub flush_block : Writer → Result WriteError Writer
  flush_block w = if w.block.record_count == 0 then ok w else (do
    physical ← map_err bad_block (
        encode_physical_block checksum lz4 savings (logical_bytes options.restart_interval w.block)
          options.codec)
    ok (record w {
      file = w.file ++ physical;
      index =
          w.index
          ++ (record {
            first_key = w.block.first_key;
            offset = length w.file;
            length = length physical % 2 ^ 32;
          }
              ∷ []);
      block = no_block;
    }))

  -- The block does not take the record.
  unfoldable pub is_full : Building → Record → Bool
  is_full b rec =
      ltb 0 b.record_count && ltb options.block_size (projected_size options.restart_interval b rec)

  -- The rest of the loop's body, for a block that is begun.
  unfoldable pub place_record : Record → Writer → Result WriteError Writer
  place_record rec w =
      if is_full w.block rec
      then (do
        flushed ← flush_block w
        ok (record flushed { block = append_record true rec (start_block rec.key) }))
      else ok (record w {
        block = append_record (w.block.record_count % options.restart_interval == 0) rec w.block;
      })

  -- The body of the loop, without the filter.
  unfoldable pub add_record : Writer → Record → Result WriteError Writer
  add_record w rec = do check_order w.previous rec; place_record rec (note_record rec w)

  unfoldable pub add_records : Writer → List Record → Result WriteError Writer
  add_records w [] = ok w
  add_records w (r ∷ rs) = do w' ← add_record w r; add_records w' rs

  -- The loop over the iterator, and the last block.
  unfoldable pub write_blocks : List Record → Result WriteError Writer
  write_blocks rs = do w ← add_records new_writer rs; flush_block w
