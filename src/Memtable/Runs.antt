-- ===== src/Memtable/Runs.antt =====
-- The iterators of a memtable with three records.
use hypha_db.Base.{ℕ, ◌+◌, ◌≡◌, false, List, [], ◌∷◌, length, keep_if}
use hypha_db.Base.Text.{text_le}
use hypha_db.Record.{Record, batch_none}
use hypha_db.Skiplist.{new_list}
use hypha_db.Skiplist.Layout.{Cell, cell_records}
use hypha_db.Skiplist.Fill.{put_all, new_list-IsSkipList, put_all-IsSkipList}
use hypha_db.Memtable.{
  MemTable, records, snapshot_iterator, snapshot_seek, drain, collect, seek, iterator,
}
use hypha_db.Memtable.Snapshot.{drain-collect}

abbrev version : ℕ → ℕ → Record
version key seq = record {
  key = key ∷ [];
  seq = seq;
  value = seq ∷ [];
  deleted = false;
  batch_id = 0;
  batch_kind = batch_none;
}

abbrev puts : List (List ℕ × Record)
puts = (2 ∷ 1 ∷ [], version 98 1) ∷ (1 ∷ [], version 97 2) ∷ (4 ∷ 1 ∷ [], version 99 3) ∷ []

abbrev m : MemTable
m = put_all puts (new_list 15)

abbrev cells : List Cell
cells = (put_all-IsSkipList puts (new_list 15) [] (new_list-IsSkipList 15)).1.0

drain-collect_example :
    (drain (length (records m) + 1) (snapshot_seek (98 ∷ []) (snapshot_iterator m))
      ≡ collect m (length m.nodes) (seek m (98 ∷ []) (iterator m)))
    × (collect m (length m.nodes) (seek m (98 ∷ []) (iterator m))
        ≡ keep_if (λ r. text_le (98 ∷ []) r.key) (cell_records cells))
drain-collect_example =
    drain-collect m cells (98 ∷ [])
      (put_all-IsSkipList puts (new_list 15) [] (new_list-IsSkipList 15)).1.1
