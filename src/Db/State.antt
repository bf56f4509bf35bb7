-- ===== src/Db/State.antt =====
-- internal/db/db.go: the database's memtables, tables and sequence numbers, as writes, rotations and
-- flushes change them.
pub mod Sources
pub mod Batch
pub mod Steps
pub mod Valid
pub mod Kept
pub mod Reads
pub mod Committed
pub mod Stable
pub mod Written
mod Runs
use hypha_db.Base.{
  ℕ, suc, ◌+◌, ◌-◌, ◌%◌, ◌^◌, Bool, true, false, ◌&&◌, Option, none, some, List, [], ◌∷◌, ◌++◌, leb,
  ◌==◌, if◌then◌else◌, Result, ok, err, ◌>>◌,
}
use hypha_db.Base.Text.{Text}
use hypha_db.Record.{Record, batch_none}
use hypha_db.Memtable
use hypha_db.Memtable.{MemTable, new}
use hypha_db.Db.Batches.{BatchError, Limits, validate_key, validate_value}
use hypha_db.Db.Reads.{Lookup, GetError, get_at}
use hypha_db.Db.Readers.{ReaderMap, register_reader, unregister_reader}

-- `ImmutableMemTable`, with the address of its memtable.
pub record Immutable : Type 0 where
  pub mem : ℕ
  pub wal_id : ℕ

-- `DB`. A memtable is an address, as the active one can be among the immutable ones too; a table is
-- its lookup. `flush_signalled` says whether the channel of capacity 1 is full.
pub record Database (E : Type 0) : Type 0 where
  pub memtables : ℕ → MemTable
  pub allocated : ℕ
  pub memtable : ℕ
  pub immutables : List Immutable
  pub memtable_size : ℕ
  pub max_memtable_size : ℕ
  pub tables : List (Lookup E)
  pub wal_id : ℕ
  pub next_wal_segment_id : ℕ
  pub next_table_id : ℕ
  pub next_seq : ℕ
  pub limits : Limits
  pub active_readers : ReaderMap
  pub flush_signalled : Bool
  pub closed : Bool

-- What the log and the files answer during a call, and the level of the record's node.
pub record Outside (E : Type 0) : Type 0 where
  pub write : Result E Unit
  pub open_segment : Result E Unit
  pub close_segment : Result E Unit
  pub new_level : ℕ

-- `no_memtable` stands for the panic of `New`, which its level does not raise.
pub data DatabaseError (E : Type 0) : Type 0 where
  database_closed snapshot_closed no_memtable : DatabaseError E
  refused : BatchError → DatabaseError E
  failed : E → DatabaseError E
  unread : GetError E → DatabaseError E

unfoldable pub store_at : ℕ → MemTable → (ℕ → MemTable) → ℕ → MemTable
store_at a m mems i = if i == a then m else mems i

unfoldable pub last_to_first {ℓ} : {A : Type ℓ} → List A → List A
last_to_first [] = []
last_to_first (x ∷ xs) = last_to_first xs ++ (x ∷ [])

-- `len(db.immutableMemtables) > 0 && db.immutableMemtables[0] == imm`, and what it guards.
unfoldable pub drop_flushed : Immutable → List Immutable → List Immutable
drop_flushed imm [] = []
drop_flushed imm (first ∷ imms) =
    if first.mem == imm.mem && (first.wal_id == imm.wal_id) then imms else first ∷ imms

module _ {E : Type 0} where
  -- `GetAt` of the memtable at an address.
  unfoldable pub lookup_in : (ℕ → MemTable) → ℕ → Lookup E
  lookup_in mems i key seq = ok (Memtable.get_at (mems i) key seq)

  unfoldable pub immutable_lookups : (ℕ → MemTable) → List Immutable → List (Lookup E)
  immutable_lookups mems [] = []
  immutable_lookups mems (imm ∷ imms) = lookup_in mems imm.mem ∷ immutable_lookups mems imms

  -- `getAt`, on the state.
  unfoldable pub read_at : Text → ℕ → Database E → Result (GetError E) (List ℕ)
  read_at key max_seq db =
      get_at key max_seq (lookup_in db.memtables db.memtable)
        (immutable_lookups db.memtables (last_to_first db.immutables)) (last_to_first db.tables)

  -- `signalFlush` does nothing on a full channel.
  unfoldable pub signal_flush : Database E → Database E
  signal_flush db = record db { flush_signalled = true }

  -- The middle of `rotateMemtable`: a new memtable, at a new address.
  unfoldable pub start_memtable : MemTable → Database E → Database E
  start_memtable m db = record db {
    memtables = store_at db.allocated m db.memtables;
    allocated = suc db.allocated;
    memtable = db.allocated;
    memtable_size = 0;
    wal_id = db.next_wal_segment_id;
  }

  -- The beginning of `rotateMemtable`: the active memtable is made immutable and stays active.
  unfoldable pub seal_memtable : Database E → Database E
  seal_memtable db = record db {
    immutables = db.immutables ++ (record { mem = db.memtable; wal_id = db.wal_id } ∷ []);
    next_wal_segment_id = (db.next_wal_segment_id + 1) % 2 ^ 64;
  }

  unfoldable pub rotate_memtable :
      Outside E → Database E → Result (DatabaseError E) Unit × Database E
  rotate_memtable out db = elim out.open_segment [
    | err e ↦ (err (failed e), seal_memtable db)
    | ok opened ↦ elim new [
      | none ↦ (err no_memtable, seal_memtable db)
      | some m ↦ elim out.close_segment [
        | err e ↦ (err (failed e), start_memtable m (seal_memtable db))
        | ok closed ↦ (ok tt, signal_flush (start_memtable m (seal_memtable db)))
      ]
    ]
  ]

  -- `db.memtable.Put(rec)`, and the count of the memtable's records.
  unfoldable pub put_one : ℕ → Record → Database E → Database E
  put_one new_level rec db = record db {
    memtables =
        store_at db.memtable (Memtable.put new_level rec (db.memtables db.memtable)) db.memtables;
    memtable_size = db.memtable_size + 1;
  }

  -- The sequence and the memtable after a record.
  unfoldable pub memtable_put : ℕ → Record → Database E → Database E
  memtable_put new_level rec db =
      put_one new_level rec (record db { next_seq = (db.next_seq + 1) % 2 ^ 64 })

  -- The end of `Put` and of `Delete`, from the write to the log on.
  unfoldable pub log_record :
      Outside E → Record → Database E → Result (DatabaseError E) Unit × Database E
  log_record out rec db = elim out.write [
    | err e ↦ (err (failed e), db)
    | ok written ↦
        let next = memtable_put out.new_level rec db in
        if leb next.max_memtable_size next.memtable_size
        then rotate_memtable out next
        else (ok tt, next)
  ]

  -- The record that `Put` and `Delete` make.
  unfoldable pub new_record : Text → List ℕ → Bool → Database E → Record
  new_record key value deleted db = record {
    key = key;
    seq = db.next_seq;
    value = value;
    deleted = deleted;
    batch_id = 0;
    batch_kind = batch_none;
  }

  unfoldable pub put :
      Outside E → Text → List ℕ → Database E → Result (DatabaseError E) Unit × Database E
  put out key value db =
      if db.closed
      then (err database_closed, db)
      else (elim (validate_key db.limits key >> validate_value db.limits value) [
        | err e ↦ (err (refused e), db)
        | ok fits ↦ log_record out (new_record key value false db) db
      ])

  unfoldable pub delete : Outside E → Text → Database E → Result (DatabaseError E) Unit × Database E
  delete out key db =
      if db.closed then (err database_closed, db) else (elim (validate_key db.limits key) [
        | err e ↦ (err (refused e), db)
        | ok fits ↦ log_record out (new_record key [] true db) db
      ])

  -- `Get`
  unfoldable pub get : Text → Database E → Result (DatabaseError E) (List ℕ)
  get key db = if db.closed then err database_closed else (elim (validate_key db.limits key) [
    | err e ↦ err (refused e)
    | ok fits ↦ elim (read_at key (2 ^ 64 - 1) db) [ err e ↦ err (unread e) | ok v ↦ ok v ]
  ])

  -- The first critical section of `flushImmutableMemtable`, and the table's number.
  unfoldable pub begin_flush : Database E → ℕ × Database E
  begin_flush db = (db.next_table_id, record db { next_table_id = (db.next_table_id + 1) % 2 ^ 64 })

  -- The flush gives the number back: the table could not be made, or the manifest not written.
  unfoldable pub abandon_flush : ℕ → Database E → Database E
  abandon_flush id db = record db { next_table_id = id }

  -- The last critical section, where the manifest was published.
  unfoldable pub publish_flush : Immutable → Lookup E → Database E → Database E
  publish_flush imm table db = record db {
    tables = db.tables ++ (table ∷ []);
    immutables = drop_flushed imm db.immutables;
  }

  unfoldable pub current_sequence : Database E → ℕ
  current_sequence db = (db.next_seq + (2 ^ 64 - 1)) % 2 ^ 64

  -- `NewSnapshot`; a snapshot is its sequence, and whether it is closed.
  unfoldable pub new_snapshot : Database E → Result (DatabaseError E) ℕ × Database E
  new_snapshot db = if db.closed then (err database_closed, db) else (
    ok (current_sequence db),
    record db { active_readers = register_reader (current_sequence db) db.active_readers },
  )

  unfoldable pub snapshot_get : Bool → ℕ → Text → Database E → Result (DatabaseError E) (List ℕ)
  snapshot_get snapshot_is_closed sequence key db =
      if snapshot_is_closed
      then err snapshot_closed
      else (if db.closed then err database_closed else (elim (validate_key db.limits key) [
        | err e ↦ err (refused e)
        | ok fits ↦ elim (read_at key sequence db) [ err e ↦ err (unread e) | ok v ↦ ok v ]
      ]))

  -- `Snapshot.Close`, of a snapshot that is open.
  unfoldable pub close_snapshot : ℕ → Database E → Database E
  close_snapshot sequence db = record db {
    active_readers = unregister_reader sequence db.active_readers;
  }
