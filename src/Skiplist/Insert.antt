-- ===== src/Skiplist/Insert.antt =====
-- The invariant of skiplist.go's list, and what `Put` does where it makes a new node.
use hypha_db.Base.{
  ℕ, zero, suc, ◌+◌, ◌≤◌, ◌<◌, ◌≡◌, ◌≢◌, inl, inr, refl, sym, ◌∙◌, subst, Bool-cases, Option-cases,
  none, some, List, [], ◌∷◌, ◌++◌, length, set, replicate, get_elem?, ltb, arith, length-replicate,
  length-set, get_elem?_inside, ℕ_discrete,
}
use hypha_db.Record.{Record}
use hypha_db.Skiplist.{
  Pointer, Node, Store, SkipList, head, slot, next_of, set_next, fill_update, link_level, link,
}
use hypha_db.Skiplist.Store.{
  height, height-inside, slot-set_self, slot-set_ne, slot-replicate, get_elem?-append_left,
  get_elem?-append_end, next_of_at, height_at, height-set_next, next_of-set_next_ne,
}
use hypha_db.Skiplist.Layout.{Cell, cell_records, Layout, Rewires}
use hypha_db.Skiplist.Link.{IsLoose}
use hypha_db.Skiplist.Order.{IsAscending}
use hypha_db.Skiplist.Reference.{count_keys}

-- The list holds these cells, and its counters are right.
pub record IsSkipList (s : SkipList) (cells : List Cell) : Type 0 where
  pub layout : Layout s.nodes head cells
  pub ascending : IsAscending cells
  pub size : length s.nodes ≡ suc (length cells)
  pub count : s.count ≡ length cells
  pub keys : s.key_count ≡ count_keys (cell_records cells)
  pub room : height s.nodes head ≡ s.max_level
  pub some_level : 0 < s.level
  pub level_fits : s.level ≤ s.max_level
  pub flat : (i : ℕ) → s.level ≤ i → next_of s.nodes head i ≡ none

get_elem?-append_beyond {ℓ} :
    {A : Type ℓ} (xs : List A) (a : A) (i : ℕ)
    → length xs < i
    → get_elem? (xs ++ (a ∷ [])) i ≡ get_elem? xs i
get_elem?-append_beyond [] a zero h = absurd (omega arith)
get_elem?-append_beyond [] a (suc i) h = refl
get_elem?-append_beyond (x ∷ xs) a zero h = absurd (omega arith)
get_elem?-append_beyond (x ∷ xs) a (suc i) h = get_elem?-append_beyond xs a i (omega arith)

get_elem?-append_ne {ℓ} :
    {A : Type ℓ} (xs : List A) (a : A) (i : ℕ)
    → length xs ≢ i
    → get_elem? (xs ++ (a ∷ [])) i ≡ get_elem? xs i
get_elem?-append_ne xs a i h = elim (Bool-cases (ltb i (length xs))) [
  | inl inside ↦ get_elem?-append_left xs (a ∷ []) i (ground arith)
  | inr outside ↦ get_elem?-append_beyond xs a i (ground arith)
]

pub height-append :
    (h : Store) (n : Node) (x : ℕ) → x < length h → height (h ++ (n ∷ [])) x ≡ height h x
unfolding height
height-append h n x inside = rw (get_elem?-append_left h (n ∷ []) x inside, height) refl

-- A new node changes nothing of the others.
pub append-Rewires : (h : Store) (n : Node) → Rewires (length h) h (h ++ (n ∷ []))
unfolding next_of height
append-Rewires h n = record {
  elsewhere = λ x i apart. rw (get_elem?-append_ne h n x apart, next_of) refl;
  heights = λ x i tall.
      let inside = height-inside h x i tall in
      subst (λ k. i < k) (sym (height-append h n x inside)) tall;
  items = λ x rec held.
      let inside = get_elem?_inside h x held.node held.there in
      record {
        node = held.node;
        there = get_elem?-append_left h (n ∷ []) x inside ∙ held.there;
        item = held.item;
        key = held.key;
      };
}

-- The node that `Put` makes.
abbrev pub node_for : ℕ → Record → Node
node_for new_level rec = record { key = rec.key; item = rec; next = replicate new_level none }

abbrev pub cell_for : Store → Record → Cell
cell_for h rec = record { place = length h; rec = rec }

pub node_for-IsLoose :
    (h : Store) (new_level : ℕ) (rec : Record)
    → 0 < new_level
    → IsLoose (h ++ (node_for new_level rec ∷ [])) (cell_for h rec)
      × (height (h ++ (node_for new_level rec ∷ [])) (length h) ≡ new_level)
node_for-IsLoose h new_level rec some_level =
    let there = get_elem?-append_end h (node_for new_level rec) in
    let tall =
      height_at _ (length h) (node_for new_level rec) there ∙ length-replicate new_level none in
    (
      record {
        held = record { node = node_for new_level rec; there = there; item = refl; key = refl };
        tall = omega (arith, tall);
        unlinked = λ i.
            next_of_at _ (length h) (node_for new_level rec) i there ∙ slot-replicate new_level i;
      },
      tall,
    )

pub slot-fill_update_below :
    (rounds i : ℕ) (update : List Pointer) (j : ℕ)
    → j < i
    → slot (fill_update rounds i update) j ≡ slot update j
unfolding fill_update
slot-fill_update_below zero i update j h = refl
slot-fill_update_below (suc rounds) i update j h =
    slot-fill_update_below rounds (i + 1) (set update i (some head)) j (omega arith)
    ∙ slot-set_ne update i j (some head) (λ e. omega arith)

pub slot-fill_update :
    (rounds i : ℕ) (update : List Pointer) (j : ℕ)
    → i ≤ j
    → j < i + rounds
    → j < length update
    → slot (fill_update rounds i update) j ≡ some head
unfolding fill_update
slot-fill_update zero i update j low high within = absurd (omega arith)
slot-fill_update (suc rounds) i update j low high within = elim (ℕ_discrete i j) [
  | no later ↦
      let size = length-set update i (some head) in
      slot-fill_update rounds (i + 1) (set update i (some head)) j (omega arith) (omega arith)
        (omega arith)
  | yes here ↦
      slot-fill_update_below rounds (i + 1) (set update i (some head)) j (omega arith)
      ∙ subst (λ k. slot (set update i (some head)) k ≡ some head) here
          (slot-set_self update i (some head) (omega arith))
]

-- The rounds leave the higher levels, and the heights.
link_level-above :
    (new : ℕ) (update : List Pointer) (i : ℕ) (h : Store) (y j : ℕ)
    → i < j
    → (next_of (link_level new update i h) y j ≡ next_of h y j)
      × (height (link_level new update i h) y ≡ height h y)
unfolding link_level
link_level-above new update i h y j above = elim (Option-cases (slot update i)) [
  | inl nothing ↦ rw (nothing, link_level) (refl, refl)
  | inr (u, e) ↦
      let apart : i ≢ j = λ q. omega arith in
      rw (e, link_level)
        (
          next_of-set_next_ne (set_next h new i (next_of h u i)) u i (some new) y j (inr apart)
              ∙ next_of-set_next_ne h new i (next_of h u i) y j (inr apart),
          height-set_next (set_next h new i (next_of h u i)) u i (some new) y
              ∙ height-set_next h new i (next_of h u i) y,
        )
]

pub link-above :
    (new : ℕ) (update : List Pointer) (rounds i : ℕ) (h : Store) (y j : ℕ)
    → i + rounds ≤ j
    → (next_of (link new update rounds i h) y j ≡ next_of h y j)
      × (height (link new update rounds i h) y ≡ height h y)
unfolding link
link-above new update zero i h y j above = (refl, refl)
link-above new update (suc rounds) i h y j above =
    let next = link_level new update i h in
    let rest = link-above new update rounds (i + 1) next y j (omega arith) in
    let here = link_level-above new update i h y j (omega arith) in
    (rest.0 ∙ here.0, rest.1 ∙ here.1)
