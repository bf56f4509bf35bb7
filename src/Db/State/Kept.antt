-- ===== src/Db/State/Kept.antt =====
-- The steps of internal/db/db.go keep the invariant of the database's state.
use hypha_db.Base.{
  ℕ, ◌+◌, ◌^◌, ◌≤◌, ◌<◌, ◌≡◌, refl, sym, ap, ◌∙◌, subst, true, false, List, [], ◌∷◌, arith, All,
  All-append, ok, ok-injective,
}
use hypha_db.Base.Text.{Text}
use hypha_db.Record.{Record}
use hypha_db.Memtable
use hypha_db.Memtable.{MemTable, new}
use hypha_db.Db.Reads.{Lookup}
use hypha_db.Db.State.Committed.{commit_records-IsDatabase}
use hypha_db.Db.State.Steps.{batch_applied, apply_batch-cases}
use hypha_db.Db.State.Steps.{
  Step, Steps, put_called, delete_called, flush_began, flush_abandoned, flush_published,
  snapshot_taken, snapshot_released, no_step, step_then, rotate_memtable-cases, log_record-cases,
  put-cases, delete-cases, new_snapshot-cases,
}
use hypha_db.Db.State.{
  Database, Outside, Immutable, signal_flush, seal_memtable, rotate_memtable, memtable_put,
  log_record, new_record, begin_flush, abandon_flush, drop_flushed, publish_flush, new_snapshot,
  close_snapshot,
}
use hypha_db.Db.State.Valid.{
  IsDatabase, memtable_put-IsDatabase, seal_memtable-IsDatabase, start_memtable-IsDatabase,
}

drop_flushed_first :
    (imm : Immutable) (rest : List Immutable) → drop_flushed imm (imm ∷ rest) ≡ rest
unfolding drop_flushed
drop_flushed_first imm rest = ground arith

-- What a table that is published leaves of the immutable memtables.
pub drop_flushed-first :
    (imm : Immutable) (rest imms : List Immutable)
    → imms ≡ imm ∷ rest
    → drop_flushed imm imms ≡ rest
drop_flushed-first imm rest imms first = ap (drop_flushed imm) first ∙ drop_flushed_first imm rest

module _ {E : Type 0} where
  pub rotate_memtable-IsDatabase :
      (out : Outside E) (db : Database E) → IsDatabase db → IsDatabase (rotate_memtable out db).1
  unfolding signal_flush
  rotate_memtable-IsDatabase out db h =
      let unopened = seal_memtable-IsDatabase db h in
      let started = start_memtable-IsDatabase (seal_memtable db) unopened in
      rotate_memtable-cases out db IsDatabase unopened started (record {
        lists = started.lists;
        active = started.active;
        sealed = started.sealed;
        older = started.older;
        older_tables = started.older_tables;
      })

  log_record-IsDatabase :
      (out : Outside E) (rec : Record) (db : Database E)
      → IsDatabase db
      → 0 < out.new_level
      → out.new_level ≤ 16
      → rec.seq ≡ db.next_seq
      → db.next_seq + 1 < 2 ^ 64
      → IsDatabase (log_record out rec db).1
  log_record-IsDatabase out rec db h some_level fits number room =
      let applied = memtable_put-IsDatabase out.new_level rec db h some_level fits number room in
      log_record-cases out rec db IsDatabase h applied
        (rotate_memtable-IsDatabase out (memtable_put out.new_level rec db) applied)

  publish_flush-IsDatabase :
      (imm : Immutable) (rest : List Immutable) (table : Lookup E) (db : Database E)
      → IsDatabase db
      → db.immutables ≡ imm ∷ rest
      → ((key : Text) (seq : ℕ)
          → table key seq ≡ ok (Memtable.get_at (db.memtables imm.mem) key seq))
      → IsDatabase (publish_flush imm table db)
  unfolding publish_flush
  publish_flush-IsDatabase imm rest table db h first answers = record {
    lists = h.lists;
    active = h.active;
    sealed =
        subst (All (λ x. x.mem < db.allocated))
          (sym (drop_flushed-first imm rest db.immutables first))
          (subst (All (λ x. x.mem < db.allocated)) first h.sealed).1;
    older = h.older;
    older_tables =
        All-append _ db.tables _ h.older_tables (
          (λ key seq r e. h.older imm.mem key seq r (ok-injective (sym (answers key seq) ∙ e))),
          tt,
        );
  }

  -- The fields that the invariant is about, in two states.
  abbrev pub SameData : Database E → Database E → Type 0
  SameData db db' =
      (db'.memtables ≡ db.memtables)
      × (db'.allocated ≡ db.allocated)
      × (db'.memtable ≡ db.memtable)
      × (db'.immutables ≡ db.immutables)
      × (db'.next_seq ≡ db.next_seq)
      × (db'.tables ≡ db.tables)

  SameData-IsDatabase : (db db' : Database E) → IsDatabase db → SameData db db' → IsDatabase db'
  SameData-IsDatabase db db' h (mems, count, at, imms, seq, tabs) = record {
    lists = rw mems h.lists;
    active = rw (at, count) h.active;
    sealed = rw (imms, count) h.sealed;
    older = rw (mems, seq) h.older;
    older_tables = rw (tabs, seq) h.older_tables;
  }

  -- A step keeps the invariant.
  pub Step-IsDatabase : {db db' : Database E} → Step db db' → IsDatabase db → IsDatabase db'
  unfolding new_record begin_flush abandon_flush new_snapshot close_snapshot
  Step-IsDatabase {db = db} (put_called out key value some_level fits room) h =
      put-cases out key value db IsDatabase h
        (log_record-IsDatabase out (new_record key value false db) db h some_level fits refl room)
  Step-IsDatabase {db = db} (delete_called out key some_level fits room) h =
      delete-cases out key db IsDatabase h
        (log_record-IsDatabase out (new_record key [] true db) db h some_level fits refl room)
  Step-IsDatabase {db = db} (batch_applied out levels operations fit room) h =
      let applied = commit_records-IsDatabase levels operations db fit h room in
      apply_batch-cases out levels operations db IsDatabase h applied
        (rotate_memtable-IsDatabase out _ applied)
  Step-IsDatabase {db = db} flush_began h =
      SameData-IsDatabase db (begin_flush db).1 h (refl, refl, refl, refl, refl, refl)
  Step-IsDatabase {db = db} (flush_abandoned id) h =
      SameData-IsDatabase db (abandon_flush id db) h (refl, refl, refl, refl, refl, refl)
  Step-IsDatabase {db = db} (flush_published imm rest table first answers) h =
      publish_flush-IsDatabase imm rest table db h first answers
  Step-IsDatabase {db = db} snapshot_taken h =
      new_snapshot-cases db IsDatabase h
        (SameData-IsDatabase db _ h (refl, refl, refl, refl, refl, refl))
  Step-IsDatabase {db = db} (snapshot_released sequence) h =
      SameData-IsDatabase db (close_snapshot sequence db) h (refl, refl, refl, refl, refl, refl)

  -- Writes, deletions, batches, rotations, flushes and snapshots keep the invariant: the memtables are well
  -- formed skip lists at addresses that were allocated, and every version in a memtable or a table
  -- has a sequence below the next one.
  pub Steps-IsDatabase : {db db' : Database E} → Steps db db' → IsDatabase db → IsDatabase db'
  Steps-IsDatabase (no_step db) h = h
  Steps-IsDatabase (step_then step steps) h = Steps-IsDatabase steps (Step-IsDatabase step h)
