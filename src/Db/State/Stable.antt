-- ===== src/Db/State/Stable.antt =====
-- What a snapshot reads in internal/db/db.go, while the database is written and flushed.
use hypha_db.Base.{
  ℕ, ◌+◌, ◌%◌, ◌^◌, ◌≤◌, ◌<◌, ◌≡◌, inl, inr, refl, ◌∙◌, true, false, Bool-cases, none, List, [],
  ◌∷◌, arith, ok, ok-injective,
}
use hypha_db.Base.Text.{Text}
use hypha_db.Record.{Record}
use hypha_db.Memtable
use hypha_db.Memtable.{MemTable}
use hypha_db.Db.Reads.{Lookup, consider, consider_all}
use hypha_db.Db.State.{
  Database, Outside, Immutable, lookup_in, last_to_first, read_at, signal_flush, start_memtable,
  seal_memtable, put_one, memtable_put, log_record, new_record, begin_flush, abandon_flush,
  publish_flush, close_snapshot, current_sequence, new_snapshot,
}
use hypha_db.Db.State.Steps.{
  Step, Steps, put_called, delete_called, flush_began, flush_abandoned, flush_published,
  snapshot_taken, snapshot_released, no_step, step_then, rotate_memtable-cases, log_record-cases,
  put-cases, delete-cases, new_snapshot-cases,
}
use hypha_db.Db.State.Sources.{read_at-same, last_to_first-append, consider_all-table}
use hypha_db.Db.State.Valid.{IsDatabase, memtable_put-IsDatabase}
use hypha_db.Db.Batches.{BatchOperation}
use hypha_db.Db.Sequences.{number_records, seq_after}
use hypha_db.Db.State.Batch.{commit_records}
use hypha_db.Db.State.Steps.{batch_applied, apply_batch-cases}
use hypha_db.Db.State.Committed.{
  commit_records-NotBefore, commit_records-IsDatabase, commit_records-ReadsSame,
}
use hypha_db.Db.State.Reads.{ReadsSame, memtable_put-ReadsSame, rotate_memtable-ReadsSame}
use hypha_db.Db.State.Kept.{drop_flushed-first, Step-IsDatabase}

module _ {E : Type 0} where
  log_record-ReadsSame :
      (out : Outside E) (rec : Record) (key : Text) (seq : ℕ) (db : Database E)
      → IsDatabase db
      → 0 < out.new_level
      → out.new_level ≤ 16
      → rec.seq ≡ db.next_seq
      → db.next_seq + 1 < 2 ^ 64
      → seq < db.next_seq
      → ReadsSame key seq db (log_record out rec db).1
  log_record-ReadsSame out rec key seq db h some_level fits number room later =
      let next = memtable_put out.new_level rec db in
      let applied =
        memtable_put-ReadsSame key seq out.new_level rec db h some_level fits
          (omega (arith, number, later)) room in
      let inv = memtable_put-IsDatabase out.new_level rec db h some_level fits number room in
      log_record-cases out rec db (ReadsSame key seq db) refl applied
        (rotate_memtable-ReadsSame out key seq next inv ∙ applied)

  -- The table stands where the immutable memtable stood.
  publish_flush-ReadsSame :
      (imm : Immutable) (rest : List Immutable) (table : Lookup E) (key : Text) (seq : ℕ)
      (db : Database E)
      → db.immutables ≡ imm ∷ rest
      → ((name : Text) (bound : ℕ)
          → table name bound ≡ ok (Memtable.get_at (db.memtables imm.mem) name bound))
      → ReadsSame key seq db (publish_flush imm table db)
  unfolding publish_flush consider_all lookup_in last_to_first
  publish_flush-ReadsSame imm rest table key seq db first answers =
      read_at-same key seq db (publish_flush imm table db) (
        rw
          (
            last_to_first-append db.tables table,
            drop_flushed-first imm rest db.immutables first,
            first,
          )
          (consider_all-table key seq db.memtables imm (last_to_first rest) table
            (last_to_first db.tables)
            (consider none (Memtable.get_at (db.memtables db.memtable) key seq)) (answers key seq)))

  Step-ReadsSame :
      {db db' : Database E} (key : Text) (seq : ℕ)
      → Step db db'
      → IsDatabase db
      → seq < db.next_seq
      → ReadsSame key seq db db'
  unfolding new_record begin_flush abandon_flush close_snapshot read_at
  Step-ReadsSame {db = db} key seq (put_called out name value some_level fits room) h later =
      put-cases out name value db (ReadsSame key seq db) refl (
        log_record-ReadsSame out (new_record name value false db) key seq db h some_level fits refl
          room later)
  Step-ReadsSame {db = db} key seq (delete_called out name some_level fits room) h later =
      delete-cases out name db (ReadsSame key seq db) refl (
        log_record-ReadsSame out (new_record name [] true db) key seq db h some_level fits refl room
          later)
  Step-ReadsSame {db = db} key seq (batch_applied out levels operations fit room) h later =
      let same = commit_records-ReadsSame levels operations db fit h room key seq later in
      apply_batch-cases out levels operations db (ReadsSame key seq db) refl same (
        rotate_memtable-ReadsSame out key seq _
          (commit_records-IsDatabase levels operations db fit h room)
        ∙ same)
  Step-ReadsSame key seq flush_began h later = refl
  Step-ReadsSame key seq (flush_abandoned id) h later = refl
  Step-ReadsSame {db = db} key seq (flush_published imm rest table first answers) h later =
      publish_flush-ReadsSame imm rest table key seq db first answers
  Step-ReadsSame {db = db} key seq snapshot_taken h later =
      new_snapshot-cases db (ReadsSame key seq db) refl refl
  Step-ReadsSame key seq (snapshot_released sequence) h later = refl

  abbrev NotBefore : Database E → Database E → Type 0
  NotBefore db db' = db.next_seq ≤ db'.next_seq

  log_record-NotBefore :
      (out : Outside E) (rec : Record) (db : Database E)
      → db.next_seq + 1 < 2 ^ 64
      → NotBefore db (log_record out rec db).1
  unfolding memtable_put put_one seal_memtable start_memtable signal_flush
  log_record-NotBefore out rec db room =
      let next = memtable_put out.new_level rec db in
      let applied : db.next_seq ≤ (db.next_seq + 1) % 2 ^ 64 = omega arith in
      log_record-cases out rec db (NotBefore db) (omega arith) applied
        (rotate_memtable-cases out next (NotBefore db) applied applied applied)

  later_commit :
      (levels : ℕ → ℕ) (operations : List BatchOperation) (db : Database E)
      → db.next_seq < seq_after db.next_seq (number_records db.next_seq 0 operations)
      → NotBefore db (commit_records levels (number_records db.next_seq 0 operations) db)
  unfolding commit_records
  later_commit levels operations db order = omega (arith, order)

  -- The next sequence never goes back.
  Step-NotBefore : {db db' : Database E} → Step db db' → IsDatabase db → NotBefore db db'
  unfolding begin_flush abandon_flush publish_flush close_snapshot seal_memtable start_memtable
      signal_flush
  Step-NotBefore {db = db} (put_called out name value some_level fits room) h =
      put-cases out name value db (NotBefore db) (omega arith)
        (log_record-NotBefore out (new_record name value false db) db room)
  Step-NotBefore {db = db} (delete_called out name some_level fits room) h =
      delete-cases out name db (NotBefore db) (omega arith)
        (log_record-NotBefore out (new_record name [] true db) db room)
  Step-NotBefore {db = db} (batch_applied out levels operations fit room) h =
      let order = commit_records-NotBefore levels operations db fit h room in
      let applied = later_commit levels operations db order in
      apply_batch-cases out levels operations db (NotBefore db) (omega arith) applied
        (rotate_memtable-cases out _ (NotBefore db) applied applied applied)
  Step-NotBefore flush_began h = omega arith
  Step-NotBefore (flush_abandoned id) h = omega arith
  Step-NotBefore (flush_published imm rest table first answers) h = omega arith
  Step-NotBefore {db = db} snapshot_taken h =
      new_snapshot-cases db (NotBefore db) (omega arith) (omega arith)
  Step-NotBefore (snapshot_released sequence) h = omega arith

  Steps-ReadsSame :
      {db db' : Database E} (key : Text) (seq : ℕ)
      → Steps db db'
      → IsDatabase db
      → seq < db.next_seq
      → ReadsSame key seq db db'
  Steps-ReadsSame key seq (no_step db) h later = refl
  Steps-ReadsSame key seq (step_then step steps) h later =
      let order = Step-NotBefore step h in
      Steps-ReadsSame key seq steps (Step-IsDatabase step h) (omega (arith, order, later))
      ∙ Step-ReadsSame key seq step h later

  snapshot_in_range :
      (db : Database E) (sequence : ℕ)
      → 0 < db.next_seq
      → db.next_seq < 2 ^ 64
      → current_sequence db ≡ sequence
      → sequence < db.next_seq
  unfolding current_sequence
  snapshot_in_range db sequence numbered room at = omega (arith, at)

  -- A snapshot of a database that keeps the invariant reads a key, after any writes, batches, rotations,
  -- flushes and other snapshots, as the database read it when the snapshot was made.
  pub new_snapshot-read_at :
      (db db' : Database E) (sequence : ℕ) (key : Text)
      → IsDatabase db
      → 0 < db.next_seq
      → db.next_seq < 2 ^ 64
      → (new_snapshot db).0 ≡ ok sequence
      → Steps (new_snapshot db).1 db'
      → read_at key sequence db' ≡ read_at key sequence db
  unfolding new_snapshot current_sequence
  new_snapshot-read_at db db' sequence key h numbered room taken steps =
      elim (Bool-cases db.closed) [
        | inl closed ↦ let e = rw closed at taken in absurd (cc e)
        | inr usable ↦
            let e = rw usable at taken in
            let at : current_sequence db ≡ sequence = ok-injective e in
            Steps-ReadsSame key sequence (step_then snapshot_taken steps) h
              (snapshot_in_range db sequence numbered room at)
      ]
