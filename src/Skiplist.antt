-- ===== src/Skiplist.antt =====
-- internal/skiplist: the memtable's records in a skip list. The nodes stand in a store, and a
-- pointer is a place in it; the head is at place 0. Reading a slot that a node has not, a panic in
-- the source, gives no node here, and a write there changes nothing; `Put` with its panics is in
-- Skiplist/Checked.antt, and Skiplist/Put.antt compares the two.
pub mod Store
pub mod Layout
pub mod Walk
pub mod Descend
pub mod Link
pub mod Levels
pub mod Order
pub mod Reference
pub mod Exists
pub mod Insert
pub mod Inserted
pub mod Replace
pub mod Placed
pub mod Checked
pub mod Safe
pub mod Put
pub mod Reads
pub mod History
pub mod Fill
mod Runs
use Prim.Native.Nat.{bit_and}
use hypha_db.Base.{
  ℕ, zero, suc, ◌+◌, ◌-◌, Bool, true, false, ◌&&◌, ◌||◌, not, Option, none, some, List, [], ◌∷◌,
  ◌++◌, length, replicate, set, get_elem?, ltb, leb, ◌==◌, if◌then◌else◌,
}
use hypha_db.Base.Text.{Text, text_eq, text_lt}
use hypha_db.Record.{Record, batch_none}

abbrev pub Pointer : Type 0
Pointer = Option ℕ

-- `node`; its field `record` is `item`.
pub record Node : Type 0 where
  pub key : Text
  pub item : Record
  pub next : List Pointer

abbrev pub Store : Type 0
Store = List Node

pub record SkipList : Type 0 where
  pub nodes : Store
  pub level : ℕ
  pub max_level : ℕ
  pub count : ℕ
  pub key_count : ℕ

abbrev pub head : ℕ
head = 0

abbrev pub default_max_level : ℕ
default_max_level = 16

abbrev pub no_record : Record
no_record = record {
  key = [];
  seq = 0;
  value = [];
  deleted = false;
  batch_id = 0;
  batch_kind = batch_none;
}

-- The struct that both constructors fill, with `n + 1` levels.
unfoldable pub new_list : ℕ → SkipList
new_list n = record {
  nodes = record { key = []; item = no_record; next = replicate (suc n) none } ∷ [];
  level = 1;
  max_level = suc n;
  count = 0;
  key_count = 0;
}

-- `NewWithMaxLevel` and `NewWithMaxLevelAndSeed`, which panic at 0. The generator that they make
-- stands in the argument of `random_level`.
unfoldable pub new_with_max_level : ℕ → Option SkipList
new_with_max_level zero = none
new_with_max_level (suc n) = some (new_list n)

-- The rounds of `randomLevel` that can follow, over the numbers that the generator gives next.
unfoldable pub raise_level : ℕ → ℕ → List ℕ → ℕ
raise_level zero level draws = level
raise_level (suc rounds) level [] = level
raise_level (suc rounds) level (draw ∷ draws) =
    let higher = raise_level rounds (level + 1) draws in
    if bit_and draw 1 == 0 then higher else level

abbrev pub random_level : SkipList → List ℕ → ℕ
random_level s draws = raise_level (s.max_level - 1) 1 draws

unfoldable pub less : Record → Record → Bool
less a b = if not (text_eq a.key b.key) then text_lt a.key b.key else ltb b.seq a.seq

-- A slot of `next` or of `update`, where nil and a missing slot are no node.
unfoldable pub slot : List Pointer → ℕ → Pointer
slot [] i = none
slot (p ∷ ps) zero = p
slot (p ∷ ps) (suc i) = slot ps i

-- `x.next[i]`
unfoldable pub next_of : Store → ℕ → ℕ → Pointer
next_of h x i = elim (get_elem? h x) [ none ↦ none | some n ↦ slot n.next i ]

-- `x.next[i] = p`
unfoldable pub set_next : Store → ℕ → ℕ → Pointer → Store
set_next h x i p = elim (get_elem? h x) [
  | none ↦ h
  | some n ↦ set h x (record n { next = set n.next i p })
]

-- `x.record = rec`
unfoldable pub set_item : Store → ℕ → Record → Store
set_item h x rec = elim (get_elem? h x) [ none ↦ h | some n ↦ set h x (record n { item = rec }) ]

-- `p != nil` and a test of its node.
unfoldable pub passes : Store → (Node → Bool) → Pointer → Bool
passes h test none = false
passes h test (some x) = elim (get_elem? h x) [ none ↦ false | some n ↦ test n ]

-- `for x.next[i] != nil && test(x.next[i]) { x = x.next[i] }`, on fuel.
unfoldable pub walk : Store → (Node → Bool) → ℕ → ℕ → ℕ → ℕ
walk h test i zero x = x
walk h test i (suc fuel) x = elim (next_of h x i) [
  | none ↦ x
  | some y ↦ elim (passes h test (some y)) [ true ↦ walk h test i fuel y | false ↦ x ]
]

-- The walks from the highest level down, and `update[i]` after each.
unfoldable pub descend : Store → (Node → Bool) → ℕ → ℕ → ℕ → List Pointer → ℕ × List Pointer
descend h test fuel zero x update = (x, update)
descend h test fuel (suc i) x update =
    let y = walk h test i fuel x in descend h test fuel i y (set update i (some y))

-- `for i := s.level; i < newLevel; i++ { update[i] = s.head }`
unfoldable pub fill_update : ℕ → ℕ → List Pointer → List Pointer
fill_update zero i update = update
fill_update (suc rounds) i update = fill_update rounds (i + 1) (set update i (some head))

-- One round of the insertion. A missing `update[i]` is a nil dereference in the source.
unfoldable pub link_level : ℕ → List Pointer → ℕ → Store → Store
link_level new update i h = elim (slot update i) [
  | none ↦ h
  | some u ↦ set_next (set_next h new i (next_of h u i)) u i (some new)
]

unfoldable pub link : ℕ → List Pointer → ℕ → ℕ → Store → Store
link new update zero i h = h
link new update (suc rounds) i h = link new update rounds (i + 1) (link_level new update i h)

-- `SkipList.Put` where no node has the version. The new node is the next place of the store.
unfoldable pub insert_node : ℕ → Record → Bool → List Pointer → SkipList → SkipList
insert_node new_level rec key_exists update s =
    let higher = fill_update (new_level - s.level) s.level update in
    let node : Node = record { key = rec.key; item = rec; next = replicate new_level none } in
    record s {
      nodes = link (length s.nodes) higher new_level 0 (s.nodes ++ (node ∷ []));
      level = if ltb s.level new_level then new_level else s.level;
      count = s.count + 1;
      key_count = if key_exists then s.key_count else s.key_count + 1;
    }

-- The test of `SkipList.Put` for a node with the version, which takes the record.
unfoldable pub replace_or_insert : Record → SkipList → SkipList → Pointer → SkipList
replace_or_insert rec s inserted none = inserted
replace_or_insert rec s inserted (some y) =
    if passes s.nodes (λ n. text_eq n.key rec.key && (n.item.seq == rec.seq)) (some y)
    then record s { nodes = set_item s.nodes y rec }
    else inserted

-- `SkipList.Put`, with the level that `randomLevel` gives if it is asked.
unfoldable pub put : ℕ → Record → SkipList → SkipList
put new_level rec s =
    let h = s.nodes in
    let (x, update) =
      descend h (λ n. less n.item rec) (length h) s.level head (replicate s.max_level none) in
    let after = next_of h x 0 in
    let same_key : Node → Bool = λ n. text_eq n.key rec.key in
    let key_exists = (not (x == head) && passes h same_key (some x)) || passes h same_key after in
    replace_or_insert rec s (insert_node new_level rec key_exists update s) after

unfoldable pub lower_bound : SkipList → Text → Pointer
lower_bound s key =
    let h = s.nodes in next_of h (descend h (λ n. text_lt n.key key) (length h) s.level head []).0 0

-- `SkipList.Get`
unfoldable pub get : SkipList → Text → Option Record
get s key = elim (lower_bound s key) [
  | none ↦ none
  | some x ↦ elim (get_elem? s.nodes x) [
    | none ↦ none
    | some n ↦ if text_eq n.key key then some n.item else none
  ]
]

-- The loop of `GetAt`, on fuel.
unfoldable pub first_visible : Store → Text → ℕ → ℕ → Pointer → Option Record
first_visible h key max_seq zero p = none
first_visible h key max_seq (suc fuel) none = none
first_visible h key max_seq (suc fuel) (some x) = elim (get_elem? h x) [
  | none ↦ none
  | some n ↦
      let rest = first_visible h key max_seq fuel (next_of h x 0) in
      if text_eq n.key key then (if leb n.item.seq max_seq then some n.item else rest) else none
]

-- `SkipList.GetAt`
abbrev pub get_at : SkipList → Text → ℕ → Option Record
get_at s key max_seq = first_visible s.nodes key max_seq (length s.nodes) (lower_bound s key)

-- The records from a node on, as `Valid`, `Record` and `Next` give them, on fuel.
unfoldable pub items_from : Store → ℕ → Pointer → List Record
items_from h zero p = []
items_from h (suc fuel) none = []
items_from h (suc fuel) (some x) = elim (get_elem? h x) [
  | none ↦ []
  | some n ↦ let rest = items_from h fuel (next_of h x 0) in n.item ∷ rest
]

-- `SkipList.Records`
abbrev pub all_records : SkipList → List Record
all_records s = items_from s.nodes (length s.nodes) (next_of s.nodes head 0)

-- `Iterator.Seek`, and the records that follow.
abbrev pub records_from : SkipList → Text → List Record
records_from s key = items_from s.nodes (length s.nodes) (lower_bound s key)
