-- ===== src/Skiplist/Inserted.antt =====
-- `SkipList.Put` with a version that the list does not hold keeps the invariant.
use hypha_db.Base.{
  ℕ, suc, ◌+◌, ◌-◌, ◌≤◌, ◌<◌, ◌≡◌, inl, inr, refl, sym, ap, ◌∙◌, subst, Bool, true, Bool-cases,
  none, some, List, [], ◌∷◌, ◌++◌, length, replicate, ltb, if◌then◌else◌, arith, All, All-map,
  length-append, length-replicate,
}
use hypha_db.Record.{Record}
use hypha_db.Skiplist.{
  Pointer, Node, Store, SkipList, head, next_of, less, fill_update, link, insert_node,
}
use hypha_db.Skiplist.Store.{height, height-inside}
use hypha_db.Skiplist.Layout.{
  Cell, cell_records, last_place, Layout, Layout-Rewires, Layout-inside, Apart, Reaches-Rewires,
}
use hypha_db.Skiplist.Levels.{IsReadyAt, Layout-link-new}
use hypha_db.Skiplist.Order.{IsAscending}
use hypha_db.Skiplist.Reference.{has_key, count_keys, count_keys-insert}
use hypha_db.Skiplist.Exists.{cell_records-append}
use hypha_db.Skiplist.Walk.{Cuts}
use hypha_db.Skiplist.Descend.{Descent, behind, stop_IsAmong, stop_Targets}
use hypha_db.Skiplist.Insert.{
  IsSkipList, append-Rewires, node_for, cell_for, node_for-IsLoose, slot-fill_update_below,
  slot-fill_update, link-above, height-append,
}

pub IsAscending-insert :
    (front : List Cell) (c : Cell) (back : List Cell)
    → All (λ d. less d.rec c.rec ≡ true) front
    → All (λ d. less c.rec d.rec ≡ true) back
    → IsAscending (front ++ back)
    → IsAscending (front ++ (c ∷ back))
IsAscending-insert [] c back low high asc = (high, asc)
IsAscending-insert (x ∷ front) c back low high (first, asc) =
    (with_new front first, IsAscending-insert front c back low.1 high asc)
  where
    with_new :
        (cs : List Cell)
        → All (λ d. less x.rec d.rec ≡ true) (cs ++ back)
        → All (λ d. less x.rec d.rec ≡ true) (cs ++ (c ∷ back))
    with_new [] h = (low.0, h)
    with_new (d ∷ ds) h = (h.0, with_new ds h.1)

module _ (s : SkipList) (cells : List Cell) (inv : IsSkipList s cells) (rec : Record)
    (on : Record → Bool) (test : Node → Bool) (cuts : Cuts test on) (r : ℕ × List Pointer)
    (d : Descent s.nodes on head cells s.level (replicate s.max_level none) r) where
  abbrev front : List Cell
  front = d.stands.front

  abbrev back : List Cell
  back = d.stands.back

  none_behind : All (λ c. ¬ (on c.rec ≡ true)) back
  none_behind =
      behind s.nodes test on cuts head cells inv.ascending r.0 d.stands (d.bottom inv.some_level)

  update_size : length r.1 ≡ s.max_level
  update_size = d.size ∙ length-replicate s.max_level none

  module _ (levels : ℕ) (fits : suc levels ≤ s.max_level) where
    abbrev new_node : Node
    new_node = node_for (suc levels) rec

    abbrev h' : Store
    h' = s.nodes ++ (new_node ∷ [])

    abbrev higher : List Pointer
    higher = fill_update (suc levels - s.level) s.level r.1

    pub ready : (j : ℕ) → j < suc levels → IsReadyAt h' higher head front back j
    ready j below = elim (Bool-cases (ltb j s.level)) [
      | inl low ↦
          let under : j < s.level = ground arith in
          let size = length-replicate {A = Pointer} s.max_level none in
          let inside : j < length (replicate {A = Pointer} s.max_level none) =
            omega (arith, size, fits) in
          let (u, stored, stops) = d.stored j under inside in
          let w = append-Rewires s.nodes new_node in
          let old = height-inside s.nodes u j stops.tall in
          let same = w.elsewhere u j (λ e. omega arith) in
          let aim =
            stop_Targets s.nodes test on cuts head cells inv.ascending r.0 d.stands j u stops in
          record {
            before = u;
            stored = slot-fill_update_below (suc levels - s.level) s.level r.1 j under ∙ stored;
            among =
                stop_IsAmong s.nodes test on cuts head cells inv.ascending r.0 d.stands j u
                  none_behind stops;
            tall = w.heights u j stops.tall;
            targets = λ y e. Reaches-Rewires _ _ _ w j back y (aim y (sym same ∙ e));
          }
      | inr high ↦
          let over : s.level ≤ j = ground arith in
          let w = append-Rewires s.nodes new_node in
          let room = inv.room in
          let tall : j < height s.nodes head = omega (arith, room, fits) in
          let same = w.elsewhere head j (λ e. let size = inv.size in omega (arith, size, e)) in
          let nothing = same ∙ inv.flat j over in
          record {
            before = head;
            stored =
                slot-fill_update (suc levels - s.level) s.level r.1 j over (omega arith)
                  (omega (arith, update_size, fits));
            among = inl refl;
            tall = w.heights head j tall;
            targets = λ y e. absurd (cc (e, nothing));
          }
    ]

    fresh : Apart (length s.nodes) cells
    fresh =
        All-map _ _ (λ c inside e. omega arith) cells (Layout-inside s.nodes head cells inv.layout)

    linked :
        Layout
          (link (length s.nodes) higher (suc levels) 0 h')
          head
          (front ++ (cell_for s.nodes rec ∷ back))
        × (length (link (length s.nodes) higher (suc levels) 0 h') ≡ length h')
    linked =
        let (loose, tall) = node_for-IsLoose s.nodes (suc levels) rec (omega arith) in
        let size = inv.size in
        let bottom = d.bottom inv.some_level in
        let old = height-inside s.nodes r.0 0 bottom.tall in
        let last : last_place head front ≡ r.0 = d.stands.last in
        let first =
          d.first inv.some_level
            (let n = length-replicate {A = Pointer} s.max_level none in omega (arith, n, fits)) in
        let whole = d.stands.whole in
        Layout-link-new higher head front back (cell_for s.nodes rec) levels h' loose
          (omega (arith, tall)) (λ e. omega (arith, e, size))
          (subst (Apart (length s.nodes)) whole fresh) ready
          (slot-fill_update_below (suc levels - s.level) s.level r.1 0 inv.some_level
            ∙ (first ∙ ap (λ u. some u) (sym last)))
          (λ e. omega (arith, e, last, old))
          (Layout-Rewires (length s.nodes) s.nodes h' (append-Rewires s.nodes new_node) head
            (front ++ back) (λ e. omega (arith, e, size))
            (subst (Apart (length s.nodes)) whole fresh)
            (subst (Layout s.nodes head) whole inv.layout))

    insert_size : suc (length cells) + 1 ≡ suc (length (front ++ (cell_for s.nodes rec ∷ back)))
    insert_size =
        let whole : length cells ≡ length (front ++ back) = ap (λ l. length l) d.stands.whole in
        omega (
          arith,
          whole,
          length-append front back,
          length-append front (cell_for s.nodes rec ∷ back),
        )

    insert_keys :
        (key_exists : Bool)
        → key_exists ≡ has_key rec.key (cell_records (front ++ back))
        → (if key_exists then s.key_count else s.key_count + 1)
          ≡ count_keys (cell_records (front ++ (cell_for s.nodes rec ∷ back)))
    insert_keys key_exists exists =
        let whole : s.key_count ≡ count_keys (cell_records front ++ cell_records back) =
          inv.keys
          ∙ (ap (λ l. count_keys (cell_records l)) d.stands.whole
              ∙ ap count_keys (cell_records-append front back)) in
        let exists' = exists ∙ ap (has_key rec.key) (cell_records-append front back) in
        let more = count_keys-insert (cell_records front) rec (cell_records back) in
        let parts = ap count_keys (cell_records-append front (cell_for s.nodes rec ∷ back)) in
        ground (arith, whole, exists', more, parts)

    insert_room : height (link (length s.nodes) higher (suc levels) 0 h') head ≡ s.max_level
    insert_room =
        let size = inv.size in
        (link-above (length s.nodes) higher (suc levels) 0 h' head (suc levels) (omega arith)).1
        ∙ (height-append s.nodes new_node head (omega (arith, size)) ∙ inv.room)

    insert_flat :
        (i : ℕ)
        → s.level ≤ i
        → suc levels ≤ i
        → next_of (link (length s.nodes) higher (suc levels) 0 h') head i ≡ none
    insert_flat i above above_new =
        let size = inv.size in
        (link-above (length s.nodes) higher (suc levels) 0 h' head i (omega arith)).0
        ∙ ((append-Rewires s.nodes new_node).elsewhere head i (λ e. omega (arith, e, size))
            ∙ inv.flat i above)

    -- The new list: the new node stands between what the descent has passed and what follows.
    pub insert_node-IsSkipList :
        (key_exists : Bool)
        → All (λ c. less c.rec rec ≡ true) front
        → All (λ c. less rec c.rec ≡ true) back
        → key_exists ≡ has_key rec.key (cell_records (front ++ back))
        → IsSkipList
            (insert_node (suc levels) rec key_exists r.1 s)
            (front ++ (cell_for s.nodes rec ∷ back))
    unfolding insert_node
    insert_node-IsSkipList key_exists low high exists = record {
      layout = linked.0;
      ascending =
          IsAscending-insert front (cell_for s.nodes rec) back low high
            (subst IsAscending d.stands.whole inv.ascending);
      size =
          let size = inv.size in
          linked.1 ∙ (length-append s.nodes (new_node ∷ []) ∙ (ap (λ n. n + 1) size ∙ insert_size));
      count = let count = inv.count in omega (arith, count, insert_size);
      keys = insert_keys key_exists exists;
      room = insert_room;
      some_level = let some_level = inv.some_level in ground (arith, some_level);
      level_fits = let level_fits = inv.level_fits in ground (arith, level_fits, fits);
      flat = λ i above. insert_flat i (ground arith) (ground arith);
    }
