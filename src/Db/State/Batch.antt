-- ===== src/Db/State/Batch.antt =====
-- internal/db/batch.go: applyBatch on the database's state.
use hypha_db.Base.{true, ℕ, List, [], ◌∷◌, length, leb, if◌then◌else◌, Result, ok, err}
use hypha_db.Record.{Record}
use hypha_db.Db.Batches.{BatchOperation, Batch, batch_closed}
use hypha_db.Db.Sequences.{number_records, seq_after}
use hypha_db.Db.State.{
  Database, DatabaseError, Outside, database_closed, failed, refused, put_one, rotate_memtable,
}

module _ {E : Type 0} where
  -- The loop over the records; `levels` gives the level of each node, by the records behind it.
  unfoldable pub put_records : (ℕ → ℕ) → List Record → Database E → Database E
  put_records levels [] db = db
  put_records levels (rec ∷ recs) db =
      put_records levels recs (put_one (levels (length recs)) rec db)

  -- The state after the loop, with the next sequence.
  unfoldable pub commit_records : (ℕ → ℕ) → List Record → Database E → Database E
  commit_records levels recs db = record (put_records levels recs db) {
    next_seq = seq_after db.next_seq recs;
  }

  -- `out.write` is the result of `WriteBatch`.
  unfoldable pub apply_batch :
      Outside E
      → (ℕ → ℕ)
      → List BatchOperation
      → Database E
      → Result (DatabaseError E) Unit × Database E
  apply_batch out levels operations db =
      if db.closed then (err database_closed, db) else (elim out.write [
        | err e ↦ (err (failed e), db)
        | ok written ↦
            let next = commit_records levels (number_records db.next_seq 0 operations) db in
            if leb next.max_memtable_size next.memtable_size
            then rotate_memtable out next
            else (ok tt, next)
      ])

  -- `Batch.Commit`: the batch is closed where it was applied.
  unfoldable pub commit :
      Outside E
      → (ℕ → ℕ)
      → Batch
      → Database E
      → Result (DatabaseError E) Unit × (Batch × Database E)
  commit out levels b db =
      if b.closed
      then (err (refused batch_closed), (b, db))
      else (let (result, next) = apply_batch out levels b.operations db in
          elim result [
            | err e ↦ (err e, (b, next))
            | ok applied ↦ (ok tt, (record b { closed = true }, next))
          ])

-- `Batch.Cancel`
unfoldable pub cancel : Batch → Batch
cancel b = if b.closed then b else record { operations = []; size_bytes = 0; closed = true }
