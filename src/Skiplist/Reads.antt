-- ===== src/Skiplist/Reads.antt =====
-- The reads of skiplist.go and iterator.go, against the records of the list in order.
use hypha_db.Base.{
  ℕ, zero, suc, ◌≤◌, ◌≡◌, inl, inr, refl, sym, ap, ◌∙◌, subst, Bool, true, false, not, Bool-cases,
  none, some, List, [], ◌∷◌, ◌++◌, length, leb, if◌then◌else◌, arith, All, All-map, keep_if,
  length-append,
}
use hypha_db.Base.Text.{Text, text_eq, text_lt, text_le_lt_trans, text_lt_irrefl, text_eq→eq}
use hypha_db.Record.{Record}
use hypha_db.Compaction.Merge.Retention.{find_visible}
use hypha_db.Skiplist.{
  Node, Store, SkipList, head, next_of, descend, lower_bound, first_visible, get_at, items_from,
  all_records, records_from,
}
use hypha_db.Skiplist.Store.{Holds}
use hypha_db.Skiplist.Layout.{Cell, cell_records, first_place, Layout, Layout-Points}
use hypha_db.Skiplist.Order.{IsAscending, IsAscending-back, less-Precedes}
use hypha_db.Skiplist.Reference.{has_key}
use hypha_db.Skiplist.Exists.{has_key_later, cell_records-append}
use hypha_db.Skiplist.Walk.{Cuts}
use hypha_db.Skiplist.Descend.{descend-Descent, behind}
use hypha_db.Skiplist.Insert.{IsSkipList}
use hypha_db.Skiplist.Placed.{starts, not_true}

abbrev below : Text → Record → Bool
below key r = text_lt r.key key

below-Cuts : (key : Text) → Cuts (λ n. text_lt n.key key) (below key)
below-Cuts key = record {
  agree = λ n e. ap (λ k. text_lt k key) e;
  down = λ a b low pass. text_le_lt_trans a.key b.key key (less-Precedes a b low).keys pass;
}

-- The split of the list at a key.
record SplitAt (s : SkipList) (cells : List Cell) (key : Text) : Type 0 where
  front : List Cell
  back : List Cell
  whole : cells ≡ front ++ back
  low : All (λ c. text_lt c.rec.key key ≡ true) front
  high : All (λ c. text_lt c.rec.key key ≡ false) back
  place : ℕ
  layout : Layout s.nodes place back
  bound : lower_bound s key ≡ first_place back
  short : length back ≤ length s.nodes

split_at :
    (s : SkipList) (cells : List Cell) (key : Text) → IsSkipList s cells → SplitAt s cells key
unfolding lower_bound
split_at s cells key inv =
    let size = inv.size in
    let room = inv.room in
    let fits = inv.level_fits in
    let test : Node → Bool = λ n. text_lt n.key key in
    let d =
      descend-Descent s.nodes test (below key) (below-Cuts key) head cells inv.ascending
        (length s.nodes) s.level head [] (omega (arith, size)) (omega (arith, room, fits))
        (starts s cells (below key) inv) in
    let at = d.stands in
    let x = (descend s.nodes test (length s.nodes) s.level head []).0 in
    let whole : length cells ≡ length (at.front ++ at.back) = ap (λ l. length l) at.whole in
    record {
      front = at.front;
      back = at.back;
      whole = at.whole;
      low = at.passed;
      high =
          All-map _ _ (λ c n. not_true (text_lt c.rec.key key) n) at.back
            (behind s.nodes test (below key) (below-Cuts key) head cells inv.ascending x at
              (d.bottom inv.some_level));
      place = x;
      layout = at.layout;
      bound = (Layout-Points s.nodes x at.back at.layout).bottom;
      short = omega (arith, size, whole, length-append at.front at.back);
    }

find_visible_absent :
    (key : Text) (seq : ℕ) (rs : List Record)
    → has_key key rs ≡ false
    → find_visible key seq rs ≡ none
unfolding find_visible has_key
find_visible_absent key seq [] h = refl
find_visible_absent key seq (r ∷ rs) h = ground (arith, find_visible_absent key seq rs)

find_visible_skip :
    (key : Text) (seq : ℕ) (front : List Cell) (rs : List Record)
    → All (λ c. text_lt c.rec.key key ≡ true) front
    → find_visible key seq (cell_records front ++ rs) ≡ find_visible key seq rs
unfolding find_visible
find_visible_skip key seq [] rs h = refl
find_visible_skip key seq (c ∷ cs) rs (low, h) =
    let apart : text_eq c.rec.key key ≡ false = elim (Bool-cases (text_eq c.rec.key key)) [
      | inr other ↦ other
      | inl same ↦ absurd (
          cc (
            low,
            subst (λ k. text_lt c.rec.key k ≡ false) (text_eq→eq c.rec.key key same)
                (text_lt_irrefl c.rec.key),
          ))
    ] in
    rw apart (find_visible_skip key seq cs rs h)

first_visible_at :
    (h : Store) (key : Text) (seq fuel x : ℕ) (rec : Record)
    → Holds h x rec
    → first_visible h key seq (suc fuel) (some x) ≡ (
        if text_eq rec.key key
        then (if leb rec.seq seq then some rec else first_visible h key seq fuel (next_of h x 0))
        else none)
unfolding first_visible
first_visible_at h key seq fuel x rec held =
    let open_node : first_visible h key seq (suc fuel) (some x) ≡ (
        if text_eq held.node.key key
        then (if leb held.node.item.seq seq
            then some held.node.item
            else first_visible h key seq fuel (next_of h x 0))
        else none) =
      rw (held.there, first_visible) refl in
    open_node ∙ rw (held.key, held.item) refl

first_visible_lem :
    (h : Store) (key : Text) (seq fuel x : ℕ) (cells : List Cell)
    → Layout h x cells
    → IsAscending cells
    → All (λ c. text_lt c.rec.key key ≡ false) cells
    → length cells ≤ fuel
    → first_visible h key seq fuel (first_place cells) ≡ find_visible key seq (cell_records cells)
unfolding first_visible find_visible
first_visible_lem h key seq zero x [] l asc high low = refl
first_visible_lem h key seq (suc fuel) x [] l asc high low = refl
first_visible_lem h key seq zero x (c ∷ cs) l asc high low = absurd (omega arith)
first_visible_lem h key seq (suc fuel) x (c ∷ cs) (points, distinct, held, rest) asc high low =
    let next = (Layout-Points h c.place cs rest).bottom in
    let ih = first_visible_lem h key seq fuel c.place cs rest asc.1 high.1 (omega arith) in
    first_visible_at h key seq fuel c.place c.rec held ∙ elim (Bool-cases (text_eq c.rec.key key)) [
      | inr apart ↦
          let none_later =
            find_visible_absent key seq (cell_records cs)
              (has_key_later key c.rec cs high.0 apart asc.0) in
          rw (apart, none_later) refl
      | inl same ↦ elim (Bool-cases (leb c.rec.seq seq)) [
        | inl visible ↦ rw (same, visible) refl
        | inr newer ↦ rw (same, newer, next) ih
      ]
    ]

-- `GetAt` finds the newest version that is visible, as a search of all records in order does.
pub get_at-find_visible :
    (s : SkipList) (cells : List Cell) (key : Text) (max_seq : ℕ)
    → IsSkipList s cells
    → get_at s key max_seq ≡ find_visible key max_seq (cell_records cells)
get_at-find_visible s cells key max_seq inv =
    let at = split_at s cells key inv in
    let asc = IsAscending-back at.front at.back (subst IsAscending at.whole inv.ascending) in
    ap (first_visible s.nodes key max_seq (length s.nodes)) at.bound
    ∙ (first_visible_lem s.nodes key max_seq (length s.nodes) at.place at.back at.layout asc at.high
          at.short
        ∙ sym (
            ap (λ l. find_visible key max_seq (cell_records l)) at.whole
            ∙ (ap (find_visible key max_seq) (cell_records-append at.front at.back)
                ∙ find_visible_skip key max_seq at.front (cell_records at.back) at.low)))

items_from_lem :
    (h : Store) (fuel x : ℕ) (cells : List Cell)
    → Layout h x cells
    → length cells ≤ fuel
    → items_from h fuel (first_place cells) ≡ cell_records cells
unfolding items_from
items_from_lem h zero x [] l low = refl
items_from_lem h (suc fuel) x [] l low = refl
items_from_lem h zero x (c ∷ cs) l low = absurd (omega arith)
items_from_lem h (suc fuel) x (c ∷ cs) (points, distinct, held, rest) low =
    let next = (Layout-Points h c.place cs rest).bottom in
    let ih = items_from_lem h fuel c.place cs rest (omega arith) in
    let open_node : items_from h (suc fuel) (some c.place)
        ≡ held.node.item ∷ items_from h fuel (next_of h c.place 0) =
      rw (held.there, items_from) refl in
    open_node ∙ rw (held.item, next) (ap (λ t. c.rec ∷ t) ih)

-- `Records` gives the records in order.
pub all_records-cell_records :
    (s : SkipList) (cells : List Cell) → IsSkipList s cells → all_records s ≡ cell_records cells
all_records-cell_records s cells inv =
    let size = inv.size in
    ap (items_from s.nodes (length s.nodes)) (Layout-Points s.nodes head cells inv.layout).bottom
    ∙ items_from_lem s.nodes (length s.nodes) head cells inv.layout (omega (arith, size))

abbrev at_least : Text → Record → Bool
at_least key r = not (text_lt r.key key)

keep_high :
    (key : Text) (cells : List Cell)
    → All (λ c. text_lt c.rec.key key ≡ false) cells
    → keep_if (at_least key) (cell_records cells) ≡ cell_records cells
unfolding keep_if
keep_high key [] h = refl
keep_high key (c ∷ cs) (high, h) = rw high (ap (λ t. c.rec ∷ t) (keep_high key cs h))

skip_low :
    (key : Text) (front : List Cell) (rs : List Record)
    → All (λ c. text_lt c.rec.key key ≡ true) front
    → keep_if (at_least key) (cell_records front ++ rs) ≡ keep_if (at_least key) rs
unfolding keep_if
skip_low key [] rs h = refl
skip_low key (c ∷ cs) rs (low, h) = rw low (skip_low key cs rs h)

-- After `Seek`, the iterator gives the records whose key is not below the one sought.
pub records_from-keep_if :
    (s : SkipList) (cells : List Cell) (key : Text)
    → IsSkipList s cells
    → records_from s key ≡ keep_if (λ r. not (text_lt r.key key)) (cell_records cells)
records_from-keep_if s cells key inv =
    let at = split_at s cells key inv in
    ap (items_from s.nodes (length s.nodes)) at.bound
    ∙ (items_from_lem s.nodes (length s.nodes) at.place at.back at.layout at.short
        ∙ sym (
            ap (λ l. keep_if (at_least key) (cell_records l)) at.whole
            ∙ (ap (keep_if (at_least key)) (cell_records-append at.front at.back)
                ∙ (skip_low key at.front (cell_records at.back) at.low
                    ∙ keep_high key at.back at.high))))
