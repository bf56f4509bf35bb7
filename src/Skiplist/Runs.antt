-- ===== src/Skiplist/Runs.antt =====
-- A skip list with four levels and three records, and the theorems there.
use hypha_db.Base.{ℕ, ◌≡◌, refl, false, some, List, [], ◌∷◌, length, arith}
use hypha_db.Record.{Record, batch_none}
use hypha_db.Skiplist.{
  SkipList, new_list, new_with_max_level, put, get_at, get, less, descend, walk, passes, next_of,
  set_next, set_item, slot, fill_update, link, link_level, insert_node, replace_or_insert,
  lower_bound, first_visible, items_from, all_records, raise_level,
}
use hypha_db.Skiplist.Checked.{checked_put, checked_put_all}
use hypha_db.Skiplist.Layout.{Cell, cell_records}
use hypha_db.Skiplist.Reference.{insert_record, count_keys}
use hypha_db.Skiplist.Insert.{IsSkipList}
use hypha_db.Skiplist.Put.{put-insert_record}
use hypha_db.Skiplist.History.{newer_of, get_at-put}
use hypha_db.Skiplist.Fill.{
  put_all, insert_all, new_list-IsSkipList, put_all-IsSkipList, all_records-put_all,
}
use hypha_db.Base.Text.{text_eq, text_lt}

abbrev version : ℕ → ℕ → ℕ → Record
version key seq value = record {
  key = key ∷ [];
  seq = seq;
  value = value ∷ [];
  deleted = false;
  batch_id = 0;
  batch_kind = batch_none;
}

abbrev puts : List (List ℕ × Record)
puts =
    (2 ∷ 4 ∷ 1 ∷ [], version 98 1 7)
    ∷ (1 ∷ [], version 97 2 8)
    ∷ (2 ∷ 1 ∷ [], version 98 3 9)
    ∷ (6 ∷ [], version 97 2 5)
    ∷ []

-- The last put replaces the version 2 of the key 97.
puts_records :
    all_records (put_all puts (new_list 3)) ≡ version 97 2 5 ∷ version 98 3 9 ∷ version 98 1 7 ∷ []
unfolding put_all new_list put descend walk passes next_of set_next set_item slot fill_update link
    link_level insert_node replace_or_insert items_from raise_level less text_eq text_lt
puts_records = refl

puts_reads :
    (get_at (put_all puts (new_list 3)) (98 ∷ []) 2 ≡ some (version 98 1 7))
    × (get (put_all puts (new_list 3)) (98 ∷ []) ≡ some (version 98 3 9))
    × ((put_all puts (new_list 3)).key_count ≡ 2)
unfolding put_all new_list put descend walk passes next_of set_next set_item slot fill_update link
    link_level insert_node replace_or_insert raise_level less text_eq text_lt lower_bound
    first_visible get
puts_reads = (refl, refl, refl)

abbrev filled : SkipList
filled = put_all puts (new_list 3)

abbrev filled_cells : List Cell
filled_cells = (put_all-IsSkipList puts (new_list 3) [] (new_list-IsSkipList 3)).1.0

filled-IsSkipList : IsSkipList filled filled_cells
filled-IsSkipList = (put_all-IsSkipList puts (new_list 3) [] (new_list-IsSkipList 3)).1.1

filled_levels : filled.max_level ≡ 4
unfolding put_all new_list put descend walk passes next_of set_next set_item slot fill_update link
    link_level insert_node replace_or_insert raise_level less text_eq text_lt
filled_levels = refl

all_records-put_all_example :
    (checked_put_all puts (new_list 3) ≡ some filled)
    × (all_records filled ≡ insert_all puts [])
    × (filled.key_count ≡ count_keys (insert_all puts []))
    × (filled.count ≡ length (insert_all puts []))
unfolding new_with_max_level
all_records-put_all_example = all_records-put_all 4 (new_list 3) puts refl

put-insert_record_example :
    (checked_put 4 (version 97 1 7) filled ≡ some (put 4 (version 97 1 7) filled))
    × ((cells : List Cell) × IsSkipList (put 4 (version 97 1 7) filled) cells
        × (cell_records cells ≡ insert_record (version 97 1 7) (cell_records filled_cells))
        × ((put 4 (version 97 1 7) filled).max_level ≡ filled.max_level))
put-insert_record_example =
    put-insert_record filled filled_cells 4 (version 97 1 7) filled-IsSkipList (omega arith)
      (omega (arith, filled_levels))

get_at-put_example :
    get_at (put 4 (version 97 1 7) filled) (97 ∷ []) 5
    ≡ newer_of (97 ∷ []) 5 (version 97 1 7) (get_at filled (97 ∷ []) 5)
get_at-put_example =
    get_at-put filled filled_cells 4 (version 97 1 7) (97 ∷ []) 5 filled-IsSkipList (omega arith)
      (omega (arith, filled_levels))
