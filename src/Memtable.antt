-- ===== src/Memtable.antt =====
-- internal/memtable: the memtable, which hands its calls on to a skip list, and its iterators.
pub mod Snapshot
pub mod Versions
mod Runs
use hypha_db.Base.{
  ℕ, zero, suc, ◌+◌, ◌-◌, ◌≡◌, Bool, true, false, Option, none, some, List, [], ◌∷◌, length,
  get_elem?, ltb, if◌then◌else◌,
}
use hypha_db.Base.Text.{Text, text_le}
use hypha_db.Record.{Record}
use hypha_db.Skiplist
use hypha_db.Skiplist.{
  SkipList, Pointer, new_with_max_level, default_max_level, next_of, head, lower_bound,
}
use hypha_db.Sstable.Search.{sort_search}

-- `MemTable` and its `data`.
abbrev pub MemTable : Type 0
MemTable = SkipList

-- `New`
unfoldable pub new : Option MemTable
new = new_with_max_level default_max_level

unfoldable pub get : MemTable → Text → Option Record
get m key = Skiplist.get m key

unfoldable pub get_at : MemTable → Text → ℕ → Option Record
get_at m key max_seq = Skiplist.get_at m key max_seq

-- The new node's level is the skip list's choice.
unfoldable pub put : ℕ → Record → MemTable → MemTable
put new_level rec m = Skiplist.put new_level rec m

unfoldable pub len : MemTable → ℕ
len m = m.key_count

-- `Iterator`, over the nodes of a table that does not change meanwhile.
pub record Iterator : Type 0 where
  pub node : Pointer
  pub current : Option Record

unfoldable pub iterator : MemTable → Iterator
iterator m = record { node = next_of m.nodes head 0; current = none }

unfoldable pub seek : MemTable → Text → Iterator → Iterator
seek m key it = record it { node = lower_bound m key }

-- `Next`: whether there is a record, which is `current` then.
unfoldable pub next : MemTable → Iterator → Bool × Iterator
next m it = elim it.node [
  | none ↦ (false, it)
  | some x ↦ elim (get_elem? m.nodes x) [
    | none ↦ (false, it)
    | some n ↦ (true, record { node = next_of m.nodes x 0; current = some n.item })
  ]
]

-- The loop of `Records`, on fuel.
unfoldable pub collect : MemTable → ℕ → Iterator → List Record
collect m zero it = []
collect m (suc fuel) it =
    let (more, it') = next m it in
    let rest = collect m fuel it' in
    if more then (elim it'.current [ none ↦ rest | some r ↦ r ∷ rest ]) else []

unfoldable pub records : MemTable → List Record
records m = collect m (length m.nodes) (iterator m)

-- `SnapshotIterator`; `position` is `index + 1`.
pub record SnapshotIterator : Type 0 where
  pub held : List Record
  pub position : ℕ
  pub current : Option Record

-- The values are copied; a list here is shared by nobody.
unfoldable pub snapshot_iterator : MemTable → SnapshotIterator
snapshot_iterator m = record { held = records m; position = 0; current = none }

-- `it.records[i].Key >= key`
unfoldable pub is_at_or_after : List Record → Text → ℕ → Bool
is_at_or_after rs key i = elim (get_elem? rs i) [ none ↦ true | some r ↦ text_le key r.key ]

unfoldable pub snapshot_seek : Text → SnapshotIterator → SnapshotIterator
snapshot_seek key it = record it {
  position = sort_search (is_at_or_after it.held key) (length it.held);
}

unfoldable pub snapshot_next : SnapshotIterator → Bool × SnapshotIterator
snapshot_next it = elim (get_elem? it.held it.position) [
  | none ↦ (false, record it { position = it.position + 1 })
  | some r ↦ (true, record it { position = it.position + 1; current = some r })
]

-- The records that a reader gets with `Next` until it says that there are no more.
unfoldable pub drain : ℕ → SnapshotIterator → List Record
drain zero it = []
drain (suc fuel) it =
    let (more, it') = snapshot_next it in
    let rest = drain fuel it' in
    if more then (elim it'.current [ none ↦ rest | some r ↦ r ∷ rest ]) else []
