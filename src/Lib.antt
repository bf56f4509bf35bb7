-- ===== src/Lib.antt =====
-- HyphaDB, an LSM-tree key-value store in Go: a model of its storage core and what is proved of it.
--
-- A write goes to the write-ahead log first and then to the memtable; a full memtable is written
-- as a table of level 0 with a Bloom filter and a block index, and the manifest is replaced to name
-- it; compactions merge tables into the next level and may drop versions that no reader can see.
-- After a crash the manifest is read and the logs are replayed into the memtable.
--
-- The parts of the program and their files here:
--   Base            numbers, Boolean tests, lists, Go's (value, error) results, byte slices with
--                   encoding/binary's words and io.ReadFull, strings as lists of bytes.
--   Record          internal/record/record.go and codec.go: EncodeBinary and DecodeBinary.
--   Wal             internal/wal/wal.go: frames, WriteRecord and WriteBatch on a file system that
--                   may run full at any byte and lose at a power failure what no Sync has stored
--                   (Segment), ReplayIntoWithStats with its pending batches (ReplayState) and the
--                   truncation of a torn tail.
--   Manifest        internal/manifest/manifest.go: encode and decode with their checks, Read, Write
--                   by way of a temporary file with a fault at any of its calls (Fault, Dir), and
--                   the repair of the next table identifier.
--   Bloom           internal/bloom/bloom.go and codec.go: New, Add, MayContain, Encode, Decode.
--   Compression     internal/compression: Compress and Decompress, with the LZ4 package a parameter.
--   Sstable         internal/sstable/footer.go and index.go: the footer with its checks, the block
--                   index, and the binary search for the first block of a key (Footer, Regions,
--                   Index, Search); block.go: the stored block (Physical, Stored), the view of a
--                   record (View), the cursor (Cursor, Logical, Restarts), the read of a block
--                   (Table); writer.go: the loop that fills blocks and the index (Writer, Built,
--                   ReadBack, Found, Written).
--   Compaction      internal/compaction/picker.go (Picker), and compaction.go with heap.go (Merge):
--                   the choice of tables, and the merge with the versions it retains.
--   Skiplist        internal/skiplist: nodes with their towers of pointers in a store (Store), the
--                   invariant that ties the levels to the order of the list (Layout), the walks
--                   (Walk, Descend), the insertion (Link, Levels, Insert, Inserted), the replacement
--                   (Replace), Put (Placed), Put with its panics (Checked, Safe, Put), and the reads
--                   (Reads, History, Fill).
--   Memtable        internal/memtable: the calls that it hands on, its iterator and its snapshot
--                   iterator (Snapshot), and a memtable as getAt reads it (Versions).
--   Db              internal/db/iterator.go (Prefix: PrefixEnd and the bounds of a scan), and of
--                   internal/db/db.go the active readers (Readers, Oldest) and getAt (Reads), whose
--                   memtables and tables are lookups, each of which finds the newest version of its
--                   own; Put, Delete, Get, the rotation, the flush and the snapshots of
--                   internal/db/snapshot.go on a state whose memtables have addresses (State, with
--                   the lookups of a read in Sources, a batch's commit in Batch, the steps in Steps,
--                   the invariant in Valid, Committed and Kept, what reads find in Reads and Stable,
--                   and what a write leaves in Written);
--                   of internal/db/batch.go the building of a batch (Batches) and the numbers of
--                   its records (Sequences).
-- The Runs module of a part evaluates its definitions on small inputs.
--
-- Correspondence: a Go function is the definition of its name in snake case, over lists of numbers
-- below 256 for byte slices and strings; a loop is a recursion over the list or over the rounds that
-- are left. An error is a value of the part's own error type; a panic is `none`. Only the skip list
-- has total operations as well, which ignore a missing slot; there the operations named checked_
-- have the panics of Put. Words wrap where the source lets them, with `% 2 ^ w` written out.
--
-- Parameters: the CRC-32C checksum, the 128-bit xxh3 hash, the sizes of a filter that floating point
-- computes, the LZ4 package, the floating-point comparison of a block's savings, os.Stat, the numbers
-- that a skip list's generator gives, and in a replay the memtable with its Put. Of these, theorems
-- assume that the checksum fits in 32 bits, that the size of a filter is positive and below 2^63, and
-- that LZ4 restores what it has compressed, and no more.
--
-- Fuel: the replay has one round for every byte of the file and one more, since every frame takes
-- at least a byte; sort.Search has one for every index, since its interval shrinks; the merge has
-- one for every record of its tables and one more; a walk in a skip list has one for every node,
-- and a checked one that ends on its fuel is `none`; a cursor is read once more than its block counts
-- records. The theorems say that the results are returned.
--
-- Not modelled: the block cache, a cursor's seek, the lookup and the iterator of a table, and the
-- files of the table writer, whose writes are taken to succeed; opening and closing a database,
-- a compaction on the database's state, and of a flush the manifest's list of tables and the removal
-- of the segment; file locks, the network service and the benchmarks. Goroutines and locks do not
-- appear: an operation here is what the source does while it holds its lock, and a flush, which
-- releases it, is one operation for each time that it holds it. A table that a flush publishes is
-- assumed to answer as the memtable it was made from. A power failure is taken to leave a beginning
-- of a file, which has all that was synced.
pub mod Base
pub mod Record
pub mod Manifest
pub mod Wal
pub mod Bloom
pub mod Compaction
pub mod Sstable
pub mod Db
pub mod Skiplist
pub mod Memtable
pub mod Compression
