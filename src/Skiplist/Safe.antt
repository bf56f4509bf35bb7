-- ===== src/Skiplist/Safe.antt =====
-- On a well-formed list no index of skiplist.go's `Put` is out of range, and no pointer that it
-- dereferences is nil.
use hypha_db.Base.{
  ℕ, zero, suc, ◌+◌, ◌≤◌, ◌<◌, ◌≡◌, refl, sym, ap, ◌∙◌, subst, Bool, Bool-cases, Option-cases, inl,
  inr, none, some, List, [], ◌∷◌, ◌++◌, length, set, get_elem?, arith, length-append, length-set,
}
use hypha_db.Record.{Record}
use hypha_db.Skiplist.{
  Pointer, Node, Store, SkipList, head, slot, next_of, set_next, passes, walk, descend, fill_update,
  link_level, link, replace_or_insert,
}
use hypha_db.Skiplist.Store.{height, height_at, next_of_at, height-set_next}
use hypha_db.Skiplist.Layout.{Cell}
use hypha_db.Skiplist.Order.{IsAscending}
use hypha_db.Skiplist.Walk.{Cuts, StandsAt, ahead, advance, walk-Stops}
use hypha_db.Skiplist.Levels.{link_level_at, link_level-height}
use hypha_db.Skiplist.Checked.{
  checked_set, checked_next, checked_set_next, checked_walk, checked_descend, checked_fill_update,
  checked_link_level, checked_link, checked_replace_or_insert,
}

get_elem?-slot : (ps : List Pointer) (i : ℕ) → i < length ps → get_elem? ps i ≡ some (slot ps i)
unfolding slot
get_elem?-slot [] i h = absurd (omega arith)
get_elem?-slot (p ∷ ps) zero h = refl
get_elem?-slot (p ∷ ps) (suc i) h = get_elem?-slot ps i (omega arith)

get_elem?-entry :
    (ps : List Pointer) (i u : ℕ) → slot ps i ≡ some u → get_elem? ps i ≡ some (some u)
unfolding slot
get_elem?-entry [] i u e = absurd (cc e)
get_elem?-entry (p ∷ ps) zero u e = ap some e
get_elem?-entry (p ∷ ps) (suc i) u e = get_elem?-entry ps i u e

checked_set_inside :
    (ps : List Pointer) (i : ℕ) (p : Pointer)
    → i < length ps
    → checked_set ps i p ≡ some (set ps i p)
unfolding checked_set
checked_set_inside ps i p h = ground arith

height_missing : (h : Store) (x i : ℕ) → get_elem? h x ≡ none → ¬ (i < height h x)
unfolding height
height_missing h x i missing tall =
    let none_there : height h x ≡ 0 = rw (missing, height) refl in omega (arith, none_there, tall)

pub checked_next_tall :
    (h : Store) (x i : ℕ) → i < height h x → checked_next h x i ≡ some (next_of h x i)
unfolding checked_next
checked_next_tall h x i tall = elim (Option-cases (get_elem? h x)) [
  | inl missing ↦ absurd (height_missing h x i missing tall)
  | inr (n, there) ↦
      rw (there, next_of_at h x n i there)
        (get_elem?-slot n.next i (subst (λ k. i < k) (height_at h x n there) tall))
]

checked_set_next_tall :
    (h : Store) (x i : ℕ) (p : Pointer)
    → i < height h x
    → checked_set_next h x i p ≡ some (set_next h x i p)
unfolding checked_set_next set_next
checked_set_next_tall h x i p tall = elim (Option-cases (get_elem? h x)) [
  | inl missing ↦ absurd (height_missing h x i missing tall)
  | inr (n, there) ↦
      let inside = subst (λ k. i < k) (height_at h x n there) tall in
      rw (there, checked_set_inside n.next i p inside, set_next) refl
]

module _ (h : Store) (test : Node → Bool) (on : Record → Bool) (cuts : Cuts test on) (origin : ℕ)
    (cells : List Cell) (ordered : IsAscending cells) where
  -- A walk with enough fuel only follows pointers of nodes that have its level.
  checked_walk-walk :
      (i fuel x : ℕ) (at : StandsAt h on origin cells x)
      → length at.back < fuel
      → i < height h x
      → checked_walk h test i fuel x ≡ some (walk h test i fuel x)
  unfolding walk checked_walk
  checked_walk-walk i zero x at low tall = absurd (omega arith)
  checked_walk-walk i (suc fuel) x at low tall = elim (Option-cases (next_of h x i)) [
    | inl end ↦ rw (checked_next_tall h x i tall, end, checked_walk, walk) refl
    | inr (y, e) ↦ elim (Bool-cases (passes h test (some y))) [
      | inr fails ↦
          rw (checked_next_tall h x i tall, e, checked_walk, walk)
            (rw (fails, checked_walk, walk) refl)
      | inl pass ↦
          let (j, high, value) = ahead h test on cuts origin cells ordered i x at y e in
          let (at', less_left) =
            advance h test on cuts origin cells ordered x at y j (sym value ∙ pass) in
          rw (checked_next_tall h x i tall, e, checked_walk, walk)
            (rw (pass, checked_walk, walk) (checked_walk-walk i fuel y at' (omega arith) high))
    ]
  ]

  pub checked_descend-descend :
      (fuel levels x : ℕ) (update : List Pointer)
      → length cells < fuel
      → levels ≤ height h x
      → levels ≤ length update
      → StandsAt h on origin cells x
      → checked_descend h test fuel levels x update ≡ some (descend h test fuel levels x update)
  unfolding checked_descend descend
  checked_descend-descend fuel zero x update low tall room at = refl
  checked_descend-descend fuel (suc i) x update low tall room at =
      let all_left : length cells ≡ length (at.front ++ at.back) = ap (λ l. length l) at.whole in
      let left : length at.back < fuel = omega (arith, all_left, length-append at.front at.back) in
      let (at', stops) =
        walk-Stops h test on cuts origin cells ordered i fuel x at left (omega arith) in
      let y = walk h test i fuel x in
      let high : i < height h y = stops.tall in
      let same_size = length-set update i (some y) in
      rw
        (
          checked_walk-walk i fuel x at left (omega arith),
          checked_set_inside update i (some y) (omega arith),
        )
        (checked_descend-descend fuel i y (set update i (some y)) low (omega arith)
          (omega (arith, same_size)) at')

pub checked_fill_update-fill_update :
    (rounds i : ℕ) (update : List Pointer)
    → i + rounds ≤ length update
    → checked_fill_update rounds i update ≡ some (fill_update rounds i update)
unfolding checked_fill_update fill_update
checked_fill_update-fill_update zero i update room = refl
checked_fill_update-fill_update (suc rounds) i update room =
    let size = length-set update i (some head) in
    rw (checked_set_inside update i (some head) (omega arith)) (
      checked_fill_update-fill_update rounds (i + 1) (set update i (some head))
        (omega (arith, size)))

-- `update[i]` is a node that has level `i`.
abbrev pub EntryAt : Store → List Pointer → ℕ → Type 0
EntryAt h update i = (u : ℕ) × (slot update i ≡ some u) × (i < height h u)

checked_link_level-link_level :
    (new : ℕ) (update : List Pointer) (i : ℕ) (h : Store)
    → i < height h new
    → EntryAt h update i
    → checked_link_level new update i h ≡ some (link_level new update i h)
unfolding checked_link_level
checked_link_level-link_level new update i h tall (u, stored, high) =
    let after = next_of h u i in
    let h1 = set_next h new i after in
    let room = height-set_next h new i after u in
    rw
      (
        get_elem?-entry update i u stored,
        link_level_at new update i u h stored,
        checked_next_tall h u i high,
        checked_set_next_tall h new i after tall,
      )
      (checked_set_next_tall h1 u i (some new) (omega (arith, room)))

pub checked_link-link :
    (new : ℕ) (update : List Pointer) (rounds i : ℕ) (h : Store)
    → i + rounds ≤ height h new
    → ((j : ℕ) → i ≤ j → j < i + rounds → EntryAt h update j)
    → checked_link new update rounds i h ≡ some (link new update rounds i h)
unfolding checked_link link
checked_link-link new update zero i h tall entries = refl
checked_link-link new update (suc rounds) i h tall entries =
    let here = entries i (omega arith) (omega arith) in
    let u = here.0 in
    let stored = here.1 in
    let room = link_level-height new update i u h new stored in
    rw (checked_link_level-link_level new update i h (omega arith) here) (
      checked_link-link new update rounds (i + 1) (link_level new update i h) (omega (arith, room))
        (λ j low high.
          let (v, there, above) = entries j (omega arith) (omega arith) in
          let same = link_level-height new update i u h v stored in
          (v, there, omega (arith, same, above))))

pub checked_replace_or_insert-replace_or_insert :
    (rec : Record) (s inserted : SkipList) (p : Pointer)
    → checked_replace_or_insert rec s (some inserted) p ≡ some (replace_or_insert rec s inserted p)
unfolding checked_replace_or_insert replace_or_insert
checked_replace_or_insert-replace_or_insert rec s inserted none = refl
checked_replace_or_insert-replace_or_insert rec s inserted (some y) = ground arith
