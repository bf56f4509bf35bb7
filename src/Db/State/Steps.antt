-- ===== src/Db/State/Steps.antt =====
-- The critical sections of internal/db/db.go that change the database's state, as a relation.
use hypha_db.Base.{
  length, ℕ, ◌+◌, ◌^◌, ◌≤◌, ◌<◌, ◌≡◌, refl, Bool, true, false, List, [], ◌∷◌, Result, ok, err, ◌>>◌,
  if◌then◌else◌,
}
use hypha_db.Base.Text.{Text}
use hypha_db.Record.{Record}
use hypha_db.Skiplist.{new_with_max_level, new_list}
use hypha_db.Memtable
use hypha_db.Memtable.{MemTable, new}
use hypha_db.Db.Reads.{Lookup}
use hypha_db.Db.Readers.{register_reader}
use hypha_db.Db.Batches.{BatchOperation, validate_key, validate_value}
use hypha_db.Db.Sequences.{number_records}
use hypha_db.Db.State.Batch.{commit_records, apply_batch}
use hypha_db.Db.State.{
  Database, Outside, Immutable, signal_flush, start_memtable, seal_memtable, rotate_memtable,
  memtable_put, log_record, new_record, put, delete, begin_flush, abandon_flush, publish_flush,
  current_sequence, new_snapshot, close_snapshot,
}

-- The critical sections that change the state. A level is one that the skip list draws; sequences
-- stay below 2^64; a table that is published answers as the memtable it was made from.
pub data Step {E : Type 0} (db : Database E) : Database E → Type 0 where
  put_called :
      (out : Outside E) (key : Text) (value : List ℕ)
      → 0 < out.new_level
      → out.new_level ≤ 16
      → db.next_seq + 1 < 2 ^ 64
      → Step db (put out key value db).1
  delete_called :
      (out : Outside E) (key : Text)
      → 0 < out.new_level
      → out.new_level ≤ 16
      → db.next_seq + 1 < 2 ^ 64
      → Step db (delete out key db).1
  batch_applied :
      (out : Outside E) (levels : ℕ → ℕ) (operations : List BatchOperation)
      → ((i : ℕ) → (0 < levels i) × (levels i ≤ 16))
      → db.next_seq + length operations + 1 < 2 ^ 64
      → Step db (apply_batch out levels operations db).1
  flush_began : Step db (begin_flush db).1
  flush_abandoned : (id : ℕ) → Step db (abandon_flush id db)
  flush_published :
      (imm : Immutable) (rest : List Immutable) (table : Lookup E)
      → db.immutables ≡ imm ∷ rest
      → ((key : Text) (seq : ℕ)
          → table key seq ≡ ok (Memtable.get_at (db.memtables imm.mem) key seq))
      → Step db (publish_flush imm table db)
  snapshot_taken : Step db (new_snapshot db).1
  snapshot_released : (sequence : ℕ) → Step db (close_snapshot sequence db)

pub data Steps {E : Type 0} : Database E → Database E → Type 0 where
  no_step : (db : Database E) → Steps db db
  step_then : {db mid last : Database E} → Step db mid → Steps mid last → Steps db last

-- A property of both branches of a test, and of both results of a call.
if-cases :
    {B : Type 0} (P : B → Type 0) (b : Bool) (x y : B)
    → (b ≡ true → P x)
    → (b ≡ false → P y)
    → P (if b then x else y)
if-cases P true x y p q = p refl
if-cases P false x y p q = q refl

result-cases :
    {E A B : Type 0} (P : B → Type 0) (f : E → B) (g : A → B) (r : Result E A)
    → ((e : E) → r ≡ err e → P (f e))
    → ((a : A) → r ≡ ok a → P (g a))
    → P (elim r [ err e ↦ f e | ok a ↦ g a ])
result-cases P f g (err e) p q = p e refl
result-cases P f g (ok a) p q = q a refl

abbrev InState : {E A : Type 0} → (Database E → Type 0) → A × Database E → Type 0
InState P r = P r.1

module _ {E : Type 0} where
  -- `rotateMemtable` ends in one of the states that its calls of other packages lead to.
  pub rotate_memtable-cases :
      (out : Outside E) (db : Database E) (P : Database E → Type 0)
      → P (seal_memtable db)
      → P (start_memtable (new_list 15) (seal_memtable db))
      → P (signal_flush (start_memtable (new_list 15) (seal_memtable db)))
      → P (rotate_memtable out db).1
  unfolding rotate_memtable new new_with_max_level
  rotate_memtable-cases out db P unopened started signalled =
      result-cases (InState P) _ _ out.open_segment (λ e fails. unopened)
        (λ u works.
          result-cases (InState P) _ _ out.close_segment (λ e fails. started)
            (λ v closes. signalled))

  -- A write leaves the state as it was, applies the record, or applies it and rotates.
  pub log_record-cases :
      (out : Outside E) (rec : Record) (db : Database E) (P : Database E → Type 0)
      → P db
      → P (memtable_put out.new_level rec db)
      → P (rotate_memtable out (memtable_put out.new_level rec db)).1
      → P (log_record out rec db).1
  unfolding log_record
  log_record-cases out rec db P unchanged applied rotated =
      result-cases (InState P) _ _ out.write (λ e fails. unchanged)
        (λ u works. if-cases (InState P) _ _ _ (λ full. rotated) (λ room. applied))

  pub put-cases :
      (out : Outside E) (key : Text) (value : List ℕ) (db : Database E) (P : Database E → Type 0)
      → P db
      → P (log_record out (new_record key value false db) db).1
      → P (put out key value db).1
  unfolding put
  put-cases out key value db P refused written =
      if-cases (InState P) db.closed _ _ (λ closed. refused)
        (λ usable.
          result-cases (InState P) _ _
            (validate_key db.limits key >> validate_value db.limits value) (λ e fails. refused)
            (λ u works. written))

  pub delete-cases :
      (out : Outside E) (key : Text) (db : Database E) (P : Database E → Type 0)
      → P db
      → P (log_record out (new_record key [] true db) db).1
      → P (delete out key db).1
  unfolding delete
  delete-cases out key db P refused written =
      if-cases (InState P) db.closed _ _ (λ closed. refused)
        (λ usable.
          result-cases (InState P) _ _ (validate_key db.limits key) (λ e fails. refused)
            (λ u works. written))

  pub apply_batch-cases :
      (out : Outside E) (levels : ℕ → ℕ) (operations : List BatchOperation) (db : Database E)
      (P : Database E → Type 0)
      → P db
      → P (commit_records levels (number_records db.next_seq 0 operations) db)
      → P
          (rotate_memtable out
            (commit_records levels (number_records db.next_seq 0 operations) db)).1
      → P (apply_batch out levels operations db).1
  unfolding apply_batch
  apply_batch-cases out levels operations db P refused applied rotated =
      if-cases (InState P) db.closed _ _ (λ closed. refused)
        (λ usable.
          result-cases (InState P) _ _ out.write (λ e fails. refused)
            (λ u works. if-cases (InState P) _ _ _ (λ full. rotated) (λ room. applied)))

  pub new_snapshot-cases :
      (db : Database E) (P : Database E → Type 0)
      → P db
      → P (record db { active_readers = register_reader (current_sequence db) db.active_readers })
      → P (new_snapshot db).1
  unfolding new_snapshot
  new_snapshot-cases db P refused taken =
      if-cases (InState P) db.closed _ _ (λ closed. refused) (λ usable. taken)

  -- The same where the log takes the record, and where a call is not refused.
  pub log_record-logged :
      (out : Outside E) (rec : Record) (db : Database E) (P : Database E → Type 0)
      → out.write ≡ ok tt
      → P (memtable_put out.new_level rec db)
      → P (rotate_memtable out (memtable_put out.new_level rec db)).1
      → P (log_record out rec db).1
  unfolding log_record
  log_record-logged out rec db P logged applied rotated =
      result-cases (InState P) _ _ out.write (λ e fails. absurd (cc (logged, fails)))
        (λ u works. if-cases (InState P) _ _ _ (λ full. rotated) (λ room. applied))

  pub put-accepted :
      (out : Outside E) (key : Text) (value : List ℕ) (db : Database E) (P : Database E → Type 0)
      → db.closed ≡ false
      → (validate_key db.limits key >> validate_value db.limits value) ≡ ok tt
      → P (log_record out (new_record key value false db) db).1
      → P (put out key value db).1
  unfolding put
  put-accepted out key value db P usable fits written =
      if-cases (InState P) db.closed _ _ (λ closed. absurd (cc (usable, closed)))
        (λ again.
          result-cases (InState P) _ _
            (validate_key db.limits key >> validate_value db.limits value)
            (λ e fails. absurd (cc (fits, fails))) (λ u works. written))

  pub delete-accepted :
      (out : Outside E) (key : Text) (db : Database E) (P : Database E → Type 0)
      → db.closed ≡ false
      → validate_key db.limits key ≡ ok tt
      → P (log_record out (new_record key [] true db) db).1
      → P (delete out key db).1
  unfolding delete
  delete-accepted out key db P usable fits written =
      if-cases (InState P) db.closed _ _ (λ closed. absurd (cc (usable, closed)))
        (λ again.
          result-cases (InState P) _ _ (validate_key db.limits key)
            (λ e fails. absurd (cc (fits, fails))) (λ u works. written))
