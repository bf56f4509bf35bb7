-- ===== src/Db/State/Runs.antt =====
-- Runs of internal/db on a small state: a write that fills the memtable, a flush and a snapshot.
use mathlib.Core.Option.{some-injective}
use hypha_db.Base.{
  ℕ, ◌<◌, ◌≡◌, inl, inr, refl, subst, true, false, ◌&&◌, Bool-cases, Option, none, some, List, [],
  ◌∷◌, leb, if◌then◌else◌, arith, ok, err, ok-injective,
}
use hypha_db.Base.Text.{Text, text_eq}
use hypha_db.Record.{Record, batch_none}
use hypha_db.Skiplist.{new_list, new_with_max_level}
use hypha_db.Memtable.{new}
use hypha_db.Db.State.Batch.{apply_batch}
use hypha_db.Db.Batches.{BatchOperation, validate_key, validate_value}
use hypha_db.Db.Reads.{Lookup, not_found}
use hypha_db.Db.State.{
  Database, Outside, read_at, put, delete, new_snapshot, current_sequence, log_record, memtable_put,
  rotate_memtable, seal_memtable, start_memtable, signal_flush, begin_flush,
}
use hypha_db.Db.State.{put_one}
use hypha_db.Db.State.Steps.{
  Steps, put_called, delete_called, flush_began, batch_applied, snapshot_taken, no_step, step_then,
}
use hypha_db.Db.State.Valid.{IsDatabase, AnswersBelow, fresh-IsMemtable, fresh_finds_none}
use hypha_db.Db.State.Kept.{Steps-IsDatabase}
use hypha_db.Db.State.Stable.{new_snapshot-read_at}
use hypha_db.Db.State.Written.{put-read_at, delete-read_at}

abbrev key : Text
key = 97 ∷ []

abbrev stored : Record
stored = record {
  key = key;
  seq = 4;
  value = 1 ∷ [];
  deleted = false;
  batch_id = 0;
  batch_kind = batch_none;
}

-- Errors are numbers here.
abbrev table : Lookup ℕ
table name seq = ok (if text_eq stored.key name && leb stored.seq seq then some stored else none)

abbrev database : Database ℕ
database = record {
  memtables = λ i. new_list 15;
  allocated = 1;
  memtable = 0;
  immutables = [];
  memtable_size = 0;
  max_memtable_size = 1;
  tables = table ∷ [];
  wal_id = 2;
  next_wal_segment_id = 2;
  next_table_id = 1;
  next_seq = 5;
  limits = record {
    max_key_bytes = 4;
    max_value_bytes = 8;
    max_batch_operations = 2;
    max_batch_bytes = 16;
  };
  active_readers = [];
  flush_signalled = false;
  closed = false;
}

stored_below : (r : Record) → ◌≡◌ {A = Option Record} (some stored) (some r) → r.seq < 5
stored_below r same = subst (λ (x : Record). x.seq < 5) (some-injective _ _ same) (omega arith)

table-AnswersBelow : AnswersBelow 5 table
table-AnswersBelow name seq r e =
    elim (Bool-cases (text_eq stored.key name && leb stored.seq seq)) [
      | inl seen ↦
          let e' = rw seen at e in
          let same : ◌≡◌ {A = Option Record} (some stored) (some r) = ok-injective e' in
          stored_below r same
      | inr unseen ↦
          let e' = rw unseen at e in
          let nothing : ◌≡◌ {A = Option Record} none (some r) = ok-injective e' in
          absurd (cc nothing)
    ]

database-IsDatabase : IsDatabase database
database-IsDatabase = record {
  lists = λ i. fresh-IsMemtable;
  active = omega arith;
  sealed = tt;
  older = λ i name seq r e. absurd (cc (fresh_finds_none name seq, e));
  older_tables = (table-AnswersBelow, tt);
}

-- All calls of the log succeed, and the new node has two levels.
abbrev outside : Outside ℕ
outside = record { write = ok tt; open_segment = ok tt; close_segment = ok tt; new_level = 2 }

put-read_at_example : read_at key 9 (put outside key (7 ∷ []) database).1 ≡ ok (7 ∷ [])
put-read_at_example =
    put-read_at outside key (7 ∷ []) 9 database database-IsDatabase (omega arith) (omega arith)
      (omega arith) refl (omega arith) (omega arith) refl (omega arith) ((_, refl), tt)

delete-read_at_example : read_at key 9 (delete outside key database).1 ≡ err not_found
delete-read_at_example =
    delete-read_at outside key 9 database database-IsDatabase (omega arith) (omega arith)
      (omega arith) refl (omega arith) refl (omega arith) ((_, refl), tt)

abbrev opened : Database ℕ
opened = (new_snapshot database).1

abbrev written : Database ℕ
written = (put outside key (7 ∷ []) opened).1

abbrev operations : List BatchOperation
operations =
    record { key = key; value = 8 ∷ []; deleted = false }
    ∷ record { key = 98 ∷ []; value = []; deleted = true }
    ∷ []

abbrev levels : ℕ → ℕ
levels i = 1

abbrev tombstoned : Database ℕ
tombstoned = (delete outside key written).1

abbrev later : Database ℕ
later = (begin_flush (apply_batch outside levels operations tombstoned).1).1

written_next_seq : written.next_seq ≡ 6
unfolding new_snapshot put log_record memtable_put put_one rotate_memtable seal_memtable
    start_memtable signal_flush validate_key validate_value new new_with_max_level
written_next_seq = refl

tombstoned_next_seq : tombstoned.next_seq ≡ 7
unfolding new_snapshot put delete log_record memtable_put put_one rotate_memtable seal_memtable
    start_memtable signal_flush validate_key validate_value new new_with_max_level
tombstoned_next_seq = refl

steps : Steps opened later
unfolding new_snapshot
steps = step_then (put_called outside key (7 ∷ []) (omega arith) (omega arith) (omega arith)) (
    step_then
      (delete_called outside key (omega arith) (omega arith) (omega (arith, written_next_seq)))
      (step_then
        (batch_applied outside levels operations (λ i. (omega arith, omega arith))
          (omega (arith, tombstoned_next_seq)))
        (step_then flush_began (no_step later))))

taken : (new_snapshot database).0 ≡ ok 4
unfolding new_snapshot current_sequence
taken = refl

Steps-IsDatabase_example : IsDatabase later
Steps-IsDatabase_example = Steps-IsDatabase (step_then snapshot_taken steps) database-IsDatabase

new_snapshot-read_at_example : read_at key 4 later ≡ read_at key 4 database
new_snapshot-read_at_example =
    new_snapshot-read_at database later 4 key database-IsDatabase (omega arith) (omega arith) taken
      steps
