-- ===== src/Skiplist/Placed.antt =====
-- Where `SkipList.Put` leaves its record: the ordered insertion, whatever level the node gets.
use hypha_db.Base.{
  ℕ, zero, suc, ◌≤◌, ◌<◌, ◌≡◌, ◌≢◌, inl, inr, refl, sym, ap, ◌∙◌, subst, Bool, true, false, not,
  ◌&&◌, ◌||◌, Bool-cases, none, some, List, [], ◌∷◌, ◌++◌, length, replicate, ◌==◌, arith, All,
  All-map,
}
use hypha_db.Base.Text.{text_eq, text_eq→eq}
use hypha_db.Record.{Record}
use hypha_db.Skiplist.{
  Pointer, Node, Store, SkipList, head, next_of, passes, replace_or_insert, less, descend, set_item,
  insert_node, put,
}
use hypha_db.Skiplist.Store.{Holds}
use hypha_db.Skiplist.Layout.{Cell, cell_records, first_place, last_place, Layout, Layout-Points}
use hypha_db.Skiplist.Order.{IsAscending, IsAscending-back, less_trans, All-cell_records}
use hypha_db.Skiplist.Reference.{
  insert_record, same_version, less_apart, insert_record_after, has_key,
}
use hypha_db.Skiplist.Exists.{
  last_cell, last_cell-place, last_cell-All, has_key_front, has_key_back, has_key-append,
  cell_records-append,
}
use hypha_db.Skiplist.Walk.{Cuts, StandsAt, passes-Holds}
use hypha_db.Skiplist.Descend.{Descent, descend-Descent, behind}
use hypha_db.Skiplist.Insert.{IsSkipList, cell_for}
use hypha_db.Skiplist.Inserted.{insert_node-IsSkipList}
use hypha_db.Skiplist.Replace.{set_item-IsSkipList}

abbrev pub before : Record → Record → Bool
before rec r = less r rec

pub before-Cuts : (rec : Record) → Cuts (λ n. less n.item rec) (before rec)
before-Cuts rec = record { agree = λ n e. refl; down = λ a b low pass. less_trans a b rec low pass }

pub starts :
    (s : SkipList) (cells : List Cell) (on : Record → Bool)
    → IsSkipList s cells
    → StandsAt s.nodes on head cells head
starts s cells on inv = record {
  front = [];
  back = cells;
  whole = refl;
  passed = tt;
  last = refl;
  layout = inv.layout;
}

module _ (s : SkipList) (cells : List Cell) (inv : IsSkipList s cells) (rec : Record) where
  abbrev pub found : ℕ × List Pointer
  found =
      descend s.nodes (λ n. less n.item rec) (length s.nodes) s.level head
        (replicate s.max_level none)

  pub found-Descent :
      Descent s.nodes (before rec) head cells s.level (replicate s.max_level none) found
  found-Descent =
      let size = inv.size in
      let room = inv.room in
      let fits = inv.level_fits in
      descend-Descent s.nodes (λ n. less n.item rec) (before rec) (before-Cuts rec) head cells
        inv.ascending (length s.nodes) s.level head (replicate s.max_level none)
        (omega (arith, size)) (omega (arith, room, fits)) (starts s cells (before rec) inv)

Holds-All :
    (h : Store) (x : ℕ) (cells : List Cell)
    → Layout h x cells
    → All (λ c. Holds h c.place c.rec) cells
Holds-All h x [] l = tt
Holds-All h x (c ∷ cs) l = (l.2, Holds-All h c.place cs l.3)

All-front {κ} : (P : Cell → Type κ) (front back : List Cell) → All P (front ++ back) → All P front
All-front P [] back h = tt
All-front P (c ∷ cs) back h = (h.0, All-front P cs back h.1)

IsAscending-front : (front back : List Cell) → IsAscending (front ++ back) → IsAscending front
IsAscending-front [] back h = tt
IsAscending-front (c ∷ cs) back h = (All-front _ cs back h.0, IsAscending-front cs back h.1)

pub not_true : (b : Bool) → ¬ (b ≡ true) → b ≡ false
not_true true n = absurd (n refl)
not_true false n = refl

module _ (s : SkipList) (cells : List Cell) (inv : IsSkipList s cells) (rec : Record) where
  abbrev same_key : Node → Bool
  same_key n = text_eq n.key rec.key

  passes_key :
      (c : Cell)
      → Holds s.nodes c.place c.rec
      → passes s.nodes same_key (some c.place) ≡ text_eq c.rec.key rec.key
  passes_key c held =
      passes-Holds s.nodes same_key (λ r. text_eq r.key rec.key) c
        (λ n e. ap (λ k. text_eq k rec.key) e) held

  -- The node where the descent ends tells whether a node before the place has the key.
  exists_front :
      (front back : List Cell) (x : ℕ)
      → cells ≡ front ++ back
      → All (λ c. less c.rec rec ≡ true) front
      → last_place head front ≡ x
      → (not (x == head) && passes s.nodes same_key (some x)) ≡ has_key rec.key (cell_records front)
  unfolding has_key
  exists_front [] back x whole low last =
      let at_head : (x == head) ≡ true = ground (arith, last) in rw at_head refl
  exists_front (c ∷ cs) back x whole low last =
      let place = last_cell-place c cs ∙ last in
      let layout = subst (Layout s.nodes head) whole inv.layout in
      let held =
        last_cell-All (λ d. Holds s.nodes d.place d.rec) c cs layout.2
          (All-front _ cs back (Holds-All s.nodes c.place (cs ++ back) layout.3)) in
      let apart =
        last_cell-All (λ d. d.place ≢ head) c cs layout.1.0 (All-front _ cs back layout.1.1) in
      let off_head : (x == head) ≡ false = not_at_head x (subst (λ z. z ≢ head) place apart) in
      let asc = IsAscending-front (c ∷ cs) back (subst IsAscending whole inv.ascending) in
      let seen =
        subst (λ z. passes s.nodes same_key (some z) ≡ text_eq (last_cell c cs).rec.key rec.key)
          place (passes_key (last_cell c cs) held) in
      rw off_head (seen ∙ sym (has_key_front rec c cs asc low))
    where
      not_at_head : (x : ℕ) → x ≢ head → (x == head) ≡ false
      not_at_head x apart = ground arith

  exists_back :
      (front back : List Cell) (x : ℕ)
      → cells ≡ front ++ back
      → Layout s.nodes x back
      → All (λ c. ¬ (less c.rec rec ≡ true)) back
      → passes s.nodes same_key (first_place back) ≡ has_key rec.key (cell_records back)
  unfolding has_key passes
  exists_back front [] x whole l high = refl
  exists_back front (c ∷ cs) x whole l high =
      let asc = IsAscending-back front (c ∷ cs) (subst IsAscending whole inv.ascending) in
      passes_key c l.2 ∙ sym (has_key_back rec c cs asc (not_true (less c.rec rec) high.0))

  -- What a put leaves is the ordered insertion.
  abbrev IsPut : SkipList → Type 0
  IsPut s' =
      (cells' : List Cell) × IsSkipList s' cells'
      × (cell_records cells' ≡ insert_record rec (cell_records cells))
      × (s'.max_level ≡ s.max_level)

  insert_at :
      (front : List Cell) (back : List Cell)
      → cells ≡ front ++ back
      → All (λ c. less c.rec rec ≡ true) front
      → insert_record rec (cell_records cells)
        ≡ cell_records front ++ insert_record rec (cell_records back)
  insert_at front back whole low =
      ap (λ l. insert_record rec (cell_records l)) whole
      ∙ (ap (insert_record rec) (cell_records-append front back)
          ∙ insert_record_after rec (cell_records front) (cell_records back)
              (All-cell_records (λ r. less r rec ≡ true) front low))

  -- The insertion, where the node behind the place has another version.
  inserted_IsPut :
      (front back : List Cell) (inserted : SkipList)
      → cells ≡ front ++ back
      → All (λ c. less c.rec rec ≡ true) front
      → insert_record rec (cell_records back) ≡ rec ∷ cell_records back
      → IsSkipList inserted (front ++ (cell_for s.nodes rec ∷ back))
      → inserted.max_level ≡ s.max_level
      → IsPut inserted
  inserted_IsPut front back inserted whole low there is max = (
    front ++ (cell_for s.nodes rec ∷ back),
    is,
    cell_records-append front (cell_for s.nodes rec ∷ back)
        ∙ (ap (λ l. cell_records front ++ l) (sym there) ∙ sym (insert_at front back whole low)),
    max,
  )

  replace_or_insert-IsPut :
      (front back : List Cell) (x : ℕ) (inserted : SkipList)
      → cells ≡ front ++ back
      → All (λ c. less c.rec rec ≡ true) front
      → All (λ c. ¬ (less c.rec rec ≡ true)) back
      → Layout s.nodes x back
      → (All (λ c. less rec c.rec ≡ true) back
          → IsSkipList inserted (front ++ (cell_for s.nodes rec ∷ back)))
      → inserted.max_level ≡ s.max_level
      → IsPut (replace_or_insert rec s inserted (first_place back))
  unfolding replace_or_insert insert_record
  replace_or_insert-IsPut front [] x inserted whole low high l is max =
      inserted_IsPut front [] inserted whole low refl (is tt) max
  replace_or_insert-IsPut front (c ∷ cs) x inserted whole low high l is max =
      let holds = l.2 in
      let not_less : less c.rec rec ≡ false = not_true (less c.rec rec) high.0 in
      let value =
        passes-Holds s.nodes (λ n. text_eq n.key rec.key && (n.item.seq == rec.seq))
          (λ r. text_eq r.key rec.key && (r.seq == rec.seq)) c
          (λ n e. ap (λ k. text_eq k rec.key && (n.item.seq == rec.seq)) e) holds in
      elim (Bool-cases (same_version c.rec rec)) [
        | inr apart ↦
            let after = less_apart c.rec rec not_less apart in
            let asc = IsAscending-back front (c ∷ cs) (subst IsAscending whole inv.ascending) in
            let all_after : All (λ d. less rec d.rec ≡ true) (c ∷ cs) =
              (after, All-map _ _ (λ d later. less_trans rec c.rec d.rec after later) cs asc.0) in
            rw (value ∙ apart) (
              inserted_IsPut front (c ∷ cs) inserted whole low (rw (not_less, apart) refl)
                (is all_after) max)
        | inl same ↦
            let key = text_eq→eq c.rec.key rec.key (ground arith) in
            let seq : c.rec.seq ≡ rec.seq = ground arith in
            let c' : Cell = record { place = c.place; rec = rec } in
            let first : insert_record rec (cell_records (c ∷ cs)) ≡ rec ∷ cell_records cs =
              rw (not_less, same) refl in
            let replaced : IsPut (record s { nodes = set_item s.nodes c.place rec }) = (
              front ++ (c' ∷ cs),
              set_item-IsSkipList s front c rec cs key seq holds (subst (IsSkipList s) whole inv),
              cell_records-append front (c' ∷ cs)
                  ∙ (ap (λ l. cell_records front ++ l) (sym first)
                      ∙ sym (insert_at front (c ∷ cs) whole low)),
              refl,
            ) in
            rw (value ∙ same) replaced
      ]

insert_node-max_level :
    (new_level : ℕ) (rec : Record) (key_exists : Bool) (update : List Pointer) (s : SkipList)
    → (insert_node new_level rec key_exists update s).max_level ≡ s.max_level
unfolding insert_node
insert_node-max_level new_level rec key_exists update s = refl

-- The total operations, which the checked ones agree with on a well-formed list.
pub put-IsPlaced :
    (s : SkipList) (cells : List Cell) (new_level : ℕ) (rec : Record)
    → IsSkipList s cells
    → 0 < new_level
    → new_level ≤ s.max_level
    → (cells' : List Cell) × IsSkipList (put new_level rec s) cells'
      × (cell_records cells' ≡ insert_record rec (cell_records cells))
      × ((put new_level rec s).max_level ≡ s.max_level)
unfolding put
put-IsPlaced s cells zero rec inv some_level fits = absurd (omega arith)
put-IsPlaced s cells (suc levels) rec inv some_level fits =
    let d = found-Descent s cells inv rec in
    let at = d.stands in
    let x = (found s cells inv rec).0 in
    let high =
      behind s.nodes (λ n. less n.item rec) (before rec) (before-Cuts rec) head cells inv.ascending
        x at (d.bottom inv.some_level) in
    let after = (Layout-Points s.nodes x at.back at.layout).bottom in
    let in_front = exists_front s cells inv rec at.front at.back x at.whole at.passed at.last in
    let in_back = exists_back s cells inv rec at.front at.back x at.whole at.layout high in
    let exists =
      ap (λ b. b || passes s.nodes (same_key s cells inv rec) (next_of s.nodes x 0)) in_front
      ∙ (ap (λ b. has_key rec.key (cell_records at.front) || b)
            (ap (passes s.nodes (same_key s cells inv rec)) after ∙ in_back)
          ∙ (sym (has_key-append rec.key (cell_records at.front) (cell_records at.back))
              ∙ ap (has_key rec.key) (sym (cell_records-append at.front at.back)))) in
    let update = (found s cells inv rec).1 in
    let same = same_key s cells inv rec in
    let key_exists =
      (not (x == head) && passes s.nodes same (some x))
      || passes s.nodes same (next_of s.nodes x 0) in
    let inserted = insert_node (suc levels) rec key_exists update s in
    subst (λ p. IsPut s cells inv rec (replace_or_insert rec s inserted p)) (sym after)
      (replace_or_insert-IsPut s cells inv rec at.front at.back x inserted at.whole at.passed high
        at.layout
        (λ all_after.
          insert_node-IsSkipList s cells inv rec (before rec) (λ n. less n.item rec)
            (before-Cuts rec) (found s cells inv rec) d levels fits key_exists at.passed all_after
            exists)
        (insert_node-max_level (suc levels) rec key_exists update s))
