-- ===== src/Skiplist/Checked.antt =====
-- `SkipList.Put` of skiplist.go with its panics: `none` where an index is out of range, where nil
-- is dereferenced, or where a loop has not ended on its fuel.
use hypha_db.Base.{
  ℕ, zero, suc, ◌+◌, ◌-◌, Bool, true, false, ◌&&◌, ◌||◌, not, Option, none, some, List, [], ◌∷◌,
  ◌++◌, length, replicate, set, get_elem?, ltb, ◌==◌, if◌then◌else◌,
}
use hypha_db.Base.Text.{text_eq}
use hypha_db.Record.{Record}
use hypha_db.Skiplist.{Pointer, Node, Store, SkipList, head, less, set_item, passes, random_level}

infixl 5 ◌>>=◌
abbrev pub ◌>>=◌ {ℓ} : {A B : Type ℓ} → Option A → (A → Option B) → Option B
none >>= f = none
some a >>= f = f a

-- `update[i] = p`
unfoldable pub checked_set : List Pointer → ℕ → Pointer → Option (List Pointer)
checked_set ps i p = if ltb i (length ps) then some (set ps i p) else none

-- `x.next[i]`
unfoldable pub checked_next : Store → ℕ → ℕ → Option Pointer
checked_next h x i = do n ← get_elem? h x; get_elem? n.next i

-- `x.next[i] = p`
unfoldable pub checked_set_next : Store → ℕ → ℕ → Pointer → Option Store
checked_set_next h x i p = do
  n ← get_elem? h x
  next ← checked_set n.next i p
  some (set h x (record n { next = next }))

unfoldable pub checked_walk : Store → (Node → Bool) → ℕ → ℕ → ℕ → Option ℕ
checked_walk h test i zero x = none
checked_walk h test i (suc fuel) x = elim (checked_next h x i) [
  | none ↦ none
  | some p ↦ elim p [
    | none ↦ some x
    | some y ↦ elim (passes h test (some y)) [
      | true ↦ checked_walk h test i fuel y
      | false ↦ some x
    ]
  ]
]

unfoldable pub checked_descend :
    Store → (Node → Bool) → ℕ → ℕ → ℕ → List Pointer → Option (ℕ × List Pointer)
checked_descend h test fuel zero x update = some (x, update)
checked_descend h test fuel (suc i) x update = do
  y ← checked_walk h test i fuel x
  update' ← checked_set update i (some y)
  checked_descend h test fuel i y update'

unfoldable pub checked_fill_update : ℕ → ℕ → List Pointer → Option (List Pointer)
checked_fill_update zero i update = some update
checked_fill_update (suc rounds) i update = do
  update' ← checked_set update i (some head)
  checked_fill_update rounds (i + 1) update'

-- `newNode.next[i] = update[i].next[i]; update[i].next[i] = newNode`
unfoldable pub checked_link_level : ℕ → List Pointer → ℕ → Store → Option Store
checked_link_level new update i h = do
  entry ← get_elem? update i
  u ← entry
  after ← checked_next h u i
  h1 ← checked_set_next h new i after
  checked_set_next h1 u i (some new)

unfoldable pub checked_link : ℕ → List Pointer → ℕ → ℕ → Store → Option Store
checked_link new update zero i h = some h
checked_link new update (suc rounds) i h = do
  h' ← checked_link_level new update i h
  checked_link new update rounds (i + 1) h'

unfoldable pub checked_insert_node : ℕ → Record → Bool → List Pointer → SkipList → Option SkipList
checked_insert_node new_level rec key_exists update s = do
  higher ← checked_fill_update (new_level - s.level) s.level update
  let node : Node = record { key = rec.key; item = rec; next = replicate new_level none }
  nodes ← checked_link (length s.nodes) higher new_level 0 (s.nodes ++ (node ∷ []))
  some (record s {
    nodes = nodes;
    level = if ltb s.level new_level then new_level else s.level;
    count = s.count + 1;
    key_count = if key_exists then s.key_count else s.key_count + 1;
  })

unfoldable pub checked_replace_or_insert :
    Record → SkipList → Option SkipList → Pointer → Option SkipList
checked_replace_or_insert rec s inserted none = inserted
checked_replace_or_insert rec s inserted (some y) =
    if passes s.nodes (λ n. text_eq n.key rec.key && (n.item.seq == rec.seq)) (some y)
    then some (record s { nodes = set_item s.nodes y rec })
    else inserted

-- `SkipList.Put`
unfoldable pub checked_put : ℕ → Record → SkipList → Option SkipList
checked_put new_level rec s = do
  let h = s.nodes
  (x, update) ←
      checked_descend h (λ n. less n.item rec) (length h) s.level head (replicate s.max_level none)
  after ← checked_next h x 0
  let same_key : Node → Bool = λ n. text_eq n.key rec.key
  let key_exists = (not (x == head) && passes h same_key (some x)) || passes h same_key after
  checked_replace_or_insert rec s (checked_insert_node new_level rec key_exists update s) after

-- Puts in their order, each with the numbers that its level is drawn from.
unfoldable pub checked_put_all : List (List ℕ × Record) → SkipList → Option SkipList
checked_put_all [] s = some s
checked_put_all ((draws, rec) ∷ puts) s = do
  s' ← checked_put (random_level s draws) rec s
  checked_put_all puts s'
