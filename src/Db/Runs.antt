-- ===== src/Db/Runs.antt =====
-- Runs of internal/db: a prefix that ends in 255, some readers, and a read of a deleted key.
use hypha_db.Base.{
  ℕ, Option, Bool, true, false, refl, ◌≡◌, not, ◌&&◌, List, [], ◌∷◌, arith, ◌<◌, ◌↔◌, ◌++◌, ok, All,
}
use hypha_db.Base.Text.{Text}
use hypha_db.Record.{Record, batch_none}
use hypha_db.Compaction.Merge.Newest.{IsNewestIn}
use hypha_db.Db.Reads.{
  Versions, ordered_versions, get_at, lookups, value_of, all_versions, get_at-newest,
}
use hypha_db.Db.Batches.{
  Limits, Batch, BatchOperation, Accepts, IsWithinLimits, new_batch, batch_put, total_bytes,
  batch_put-IsWithinLimits, batch_delete, batch_delete-IsWithinLimits, validate_key,
  reserve_operation,
}
use hypha_db.Db.Sequences.{number_records, seq_after, CountsFrom, number_records-IsFresh}
use hypha_db.Db.Prefix.{has_prefix, before_start, at_or_past_end, prefix_end, has_prefix-prefix_end}
use hypha_db.Db.Readers.{oldest_reader_of}
use hypha_db.Db.Oldest.{
  ReaderStep, opened, closed, run_readers, open_readers, IsOldest, run_readers-IsOldest,
}

abbrev prefix : Text
prefix = 97 ∷ 255 ∷ []

abbrev key : Text
key = 97 ∷ 255 ∷ 3 ∷ []

has_prefix-prefix_end_example :
    has_prefix prefix key
    ≡ (not (before_start prefix key) && not (at_or_past_end (prefix_end prefix) key))
has_prefix-prefix_end_example =
    has_prefix-prefix_end prefix key (omega arith, (omega arith, tt))
      (omega arith, (omega arith, (omega arith, tt)))

abbrev steps : List ReaderStep
steps = opened 5 ∷ opened 3 ∷ opened 3 ∷ closed 3 ∷ opened 9 ∷ []

run_readers-IsOldest_example :
    IsOldest (oldest_reader_of (run_readers steps [])) (open_readers steps [])
run_readers-IsOldest_example = run_readers-IsOldest steps

abbrev version : ℕ → Bool → Record
version seq deleted = record {
  key = 97 ∷ [];
  seq = seq;
  value = seq ∷ [];
  deleted = deleted;
  batch_id = 0;
  batch_kind = batch_none;
}

-- Lookups here do not fail: their errors are numbers.
abbrev memtable : Versions ℕ
memtable = ordered_versions (version 7 true ∷ []) (tt, tt)

abbrev table : Versions ℕ
table = ordered_versions (version 4 false ∷ []) (tt, tt)

get_at-newest_example :
    (newest : Option Record) × IsNewestIn
      (97 ∷ [])
      9
      (all_versions (memtable ∷ (table ∷ [])))
      newest
    × (get_at (97 ∷ []) 9 memtable.get_record_at (lookups []) (lookups (table ∷ []))
        ≡ value_of newest)
get_at-newest_example =
    get_at-newest (97 ∷ []) 9 memtable [] (table ∷ []) ((_, refl), ((_, refl), tt))

abbrev limits : Limits
limits = record {
  max_key_bytes = 4;
  max_value_bytes = 8;
  max_batch_operations = 2;
  max_batch_bytes = 16;
}

new_batch-IsWithinLimits : IsWithinLimits limits new_batch
unfolding total_bytes
new_batch-IsWithinLimits = record { few = omega arith; small = omega arith; size = refl; fit = tt }

batch_put-IsWithinLimits_example :
    ((b' : Batch)
      → batch_put limits key prefix new_batch ≡ ok b'
      → IsWithinLimits limits b'
        × (b'.operations ≡ [] ++ (record { key = key; value = prefix; deleted = false } ∷ [])))
    × (((b' : Batch) × (batch_put limits key prefix new_batch ≡ ok b'))
        ↔ Accepts limits key prefix new_batch)
batch_put-IsWithinLimits_example =
    batch_put-IsWithinLimits limits key prefix new_batch new_batch-IsWithinLimits

abbrev operations : List BatchOperation
operations =
    record { key = prefix; value = key; deleted = false }
    ∷ record { key = key; value = []; deleted = true }
    ∷ []

number_records-IsFresh_example :
    CountsFrom 40 (number_records 40 0 operations)
    × (40 < seq_after 40 (number_records 40 0 operations))
    × All
        (λ r. r.seq < seq_after 40 (number_records 40 0 operations))
        (number_records 40 0 operations)
number_records-IsFresh_example = number_records-IsFresh 40 operations (omega arith)

abbrev deletion : Batch
deletion = record {
  operations = record { key = key; value = []; deleted = true } ∷ [];
  size_bytes = 3;
  closed = false;
}

key_deleted : batch_delete limits key new_batch ≡ ok deletion
unfolding batch_delete validate_key reserve_operation
key_deleted = refl

batch_delete-IsWithinLimits_example :
    IsWithinLimits limits deletion
    × (deletion.operations
        ≡ new_batch.operations ++ (record { key = key; value = []; deleted = true } ∷ []))
batch_delete-IsWithinLimits_example =
    batch_delete-IsWithinLimits limits key new_batch deletion new_batch-IsWithinLimits key_deleted
