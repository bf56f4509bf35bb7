-- ===== src/Memtable/Versions.antt =====
-- A memtable as internal/db/db.go reads it.
use hypha_db.Base.{ℕ, sym, subst, List, ok, ok-injective}
use hypha_db.Base.Text.{Text}
use hypha_db.Compaction.Merge.Newest.{IsNewestIn, find_visible-IsNewestIn}
use hypha_db.Skiplist.Layout.{Cell, cell_records}
use hypha_db.Skiplist.Order.{IsAscending-InOrder}
use hypha_db.Skiplist.Insert.{IsSkipList}
use hypha_db.Skiplist.Reads.{get_at-find_visible}
use hypha_db.Memtable.{MemTable, get_at}
use hypha_db.Db.Reads.{Versions}

-- The newest visible version among the records of the list.
pub memtable-IsNewestIn :
    (m : MemTable) (cells : List Cell) (key : Text) (seq : ℕ)
    → IsSkipList m cells
    → IsNewestIn key seq (cell_records cells) (get_at m key seq)
unfolding get_at
memtable-IsNewestIn m cells key seq inv =
    subst (IsNewestIn key seq (cell_records cells)) (sym (get_at-find_visible m cells key seq inv))
      (find_visible-IsNewestIn key seq (cell_records cells)
        (IsAscending-InOrder cells inv.ascending))

abbrev pub memtable_versions :
    {E : Type 0} (m : MemTable) (cells : List Cell) → IsSkipList m cells → Versions E
memtable_versions m cells inv = record {
  get_record_at = λ key seq. ok (get_at m key seq);
  records = cell_records cells;
  finds_newest = λ key seq found e.
      subst (IsNewestIn key seq (cell_records cells)) (ok-injective e)
        (memtable-IsNewestIn m cells key seq inv);
}
