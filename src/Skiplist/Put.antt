-- ===== src/Skiplist/Put.antt =====
-- `SkipList.Put` implements the ordered insertion without a panic, whatever level the node gets.
use hypha_db.Base.{
  ℕ, zero, suc, ◌-◌, ◌≤◌, ◌<◌, ◌≡◌, refl, Bool, ◌&&◌, ◌||◌, not, some, none, List, [], ◌∷◌, ◌++◌,
  length, replicate, ◌==◌, arith, length-replicate,
}
use hypha_db.Base.Text.{text_eq}
use hypha_db.Record.{Record}
use hypha_db.Skiplist.{
  Pointer, Node, SkipList, head, next_of, passes, less, fill_update, insert_node, put,
}
use hypha_db.Skiplist.Layout.{Cell, cell_records}
use hypha_db.Skiplist.Reference.{insert_record}
use hypha_db.Skiplist.Descend.{Descent}
use hypha_db.Skiplist.Insert.{IsSkipList, node_for, node_for-IsLoose}
use hypha_db.Skiplist.Inserted.{ready}
use hypha_db.Skiplist.Placed.{starts, before, before-Cuts, found, found-Descent, put-IsPlaced}
use hypha_db.Skiplist.Checked.{checked_descend, checked_insert_node, checked_put}
use hypha_db.Skiplist.Safe.{
  checked_next_tall, checked_descend-descend, checked_fill_update-fill_update, checked_link-link,
  checked_replace_or_insert-replace_or_insert,
}

module _ (s : SkipList) (cells : List Cell) (inv : IsSkipList s cells) (rec : Record) where
  abbrev placed : ℕ × List Pointer
  placed = found s cells inv rec

  abbrev descent :
      Descent s.nodes (before rec) head cells s.level (replicate s.max_level none) placed
  descent = found-Descent s cells inv rec

  checked_found :
      checked_descend s.nodes
        (λ n. less n.item rec)
        (length s.nodes)
        s.level
        head
        (replicate s.max_level none)
      ≡ some placed
  checked_found =
      let size = inv.size in
      let room = inv.room in
      let fits = inv.level_fits in
      let slots = length-replicate {A = Pointer} s.max_level none in
      checked_descend-descend s.nodes (λ n. less n.item rec) (before rec) (before-Cuts rec) head
        cells inv.ascending (length s.nodes) s.level head (replicate s.max_level none)
        (omega (arith, size)) (omega (arith, room, fits)) (omega (arith, slots, fits))
        (starts s cells (before rec) inv)

  checked_insert_node-insert_node :
      (levels : ℕ) (key_exists : Bool)
      → suc levels ≤ s.max_level
      → checked_insert_node (suc levels) rec key_exists placed.1 s
        ≡ some (insert_node (suc levels) rec key_exists placed.1 s)
  unfolding checked_insert_node insert_node
  checked_insert_node-insert_node levels key_exists fits =
      let rounds = suc levels - s.level in
      let higher = fill_update rounds s.level placed.1 in
      let (loose, tall) = node_for-IsLoose s.nodes (suc levels) rec (omega arith) in
      let size = descent.size in
      let slots = length-replicate {A = Pointer} s.max_level none in
      let low = inv.level_fits in
      rw
        (
          checked_fill_update-fill_update rounds s.level placed.1
              (omega (arith, size, slots, fits, low)),
          checked_link-link (length s.nodes) higher (suc levels) 0
              (s.nodes ++ (node_for (suc levels) rec ∷ [])) (omega (arith, tall))
              (λ j from below.
                let at =
                  ready s cells inv rec (before rec) (λ n. less n.item rec) (before-Cuts rec) placed
                    descent levels fits j (omega arith) in
                (at.before, at.stored, at.tall)),
        )
        refl

  checked_put-put :
      (levels : ℕ)
      → suc levels ≤ s.max_level
      → checked_put (suc levels) rec s ≡ some (put (suc levels) rec s)
  unfolding checked_put put
  checked_put-put levels fits =
      let x = placed.0 in
      let after = next_of s.nodes x 0 in
      let bottom = descent.bottom inv.some_level in
      let same_key : Node → Bool = λ n. text_eq n.key rec.key in
      let key_exists =
        (not (x == head) && passes s.nodes same_key (some x)) || passes s.nodes same_key after in
      rw
        (
          checked_found,
          checked_next_tall s.nodes x 0 bottom.tall,
          checked_insert_node-insert_node levels key_exists fits,
        )
        (checked_replace_or_insert-replace_or_insert rec s
          (insert_node (suc levels) rec key_exists placed.1 s) after)

-- `Put` runs without a panic on a well-formed list, at every level that the new node may get: no
-- index is out of range, no nil is dereferenced, and its loops end. It keeps the list well formed
-- and its greatest level, and the records become the ordered insertion of the new one.
pub put-insert_record :
    (s : SkipList) (cells : List Cell) (new_level : ℕ) (rec : Record)
    → IsSkipList s cells
    → 0 < new_level
    → new_level ≤ s.max_level
    → (checked_put new_level rec s ≡ some (put new_level rec s))
      × ((cells' : List Cell) × IsSkipList (put new_level rec s) cells'
          × (cell_records cells' ≡ insert_record rec (cell_records cells))
          × ((put new_level rec s).max_level ≡ s.max_level))
put-insert_record s cells zero rec inv some_level fits = absurd (omega arith)
put-insert_record s cells (suc levels) rec inv some_level fits = (
  checked_put-put s cells inv rec levels fits,
  put-IsPlaced s cells (suc levels) rec inv some_level fits,
)
