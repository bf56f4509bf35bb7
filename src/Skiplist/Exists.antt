-- ===== src/Skiplist/Exists.antt =====
-- `keyExists` of `SkipList.Put`: a look at the two nodes around the place of the record is enough.
use hypha_db.Base.{
  ◌≡◌, inl, inr, refl, sym, ap, subst, true, false, ◌||◌, Bool-cases, List, [], ◌∷◌, ◌++◌, arith,
  All,
}
use hypha_db.Base.Text.{Text, text_eq, text_lt, text_eq→eq, text_lt-total}
use hypha_db.Record.{Record}
use hypha_db.Skiplist.{less}
use hypha_db.Skiplist.Layout.{Cell, cell_records, last_place}
use hypha_db.Skiplist.Order.{IsAscending, less_key, less-Precedes}
use hypha_db.Skiplist.Reference.{has_key}

-- The last record of a list that begins with `c`.
abbrev pub last_cell : Cell → List Cell → Cell
last_cell c [] = c
last_cell c (d ∷ ds) = last_cell d ds

pub last_cell-place : (c : Cell) (cs : List Cell) → (last_cell c cs).place ≡ last_place c.place cs
last_cell-place c [] = refl
last_cell-place c (d ∷ ds) = last_cell-place d ds

pub last_cell-All :
    (P : Cell → Type 0) (c : Cell) (cs : List Cell) → P c → All P cs → P (last_cell c cs)
last_cell-All P c [] p h = p
last_cell-All P c (d ∷ ds) p h = last_cell-All P d ds h.0 h.1

-- Between equal keys, in order, stands the same key.
key_between :
    (a b : Record) (key : Text)
    → text_lt b.key a.key ≡ false
    → text_lt key b.key ≡ false
    → text_eq a.key key ≡ true
    → text_eq b.key key ≡ true
key_between a b key low high same =
    let name = text_eq→eq a.key key same in
    text_lt-total b.key key (subst (λ k. text_lt b.key k ≡ false) name low) high

less-key_le : (a b : Record) → less a b ≡ true → text_lt b.key a.key ≡ false
less-key_le a b h = (less-Precedes a b h).keys

pub has_key_front :
    (rec : Record) (c : Cell) (cs : List Cell)
    → IsAscending (c ∷ cs)
    → All (λ d. less d.rec rec ≡ true) (c ∷ cs)
    → has_key rec.key (cell_records (c ∷ cs)) ≡ text_eq (last_cell c cs).rec.key rec.key
unfolding has_key
has_key_front rec c [] asc low = ground arith
has_key_front rec c (d ∷ ds) asc low =
    let ih = has_key_front rec d ds asc.1 low.1 in
    elim (Bool-cases (text_eq c.rec.key rec.key)) [
      | inr apart ↦ rw apart ih
      | inl same ↦
          let after = last_cell-All (λ e. less c.rec e.rec ≡ true) d ds asc.0.0 asc.0.1 in
          let below = last_cell-All (λ e. less e.rec rec ≡ true) d ds low.1.0 low.1.1 in
          let found =
            key_between c.rec (last_cell d ds).rec rec.key (less-key_le c.rec _ after)
              (less-key_le _ rec below) same in
          rw same (sym found)
    ]

pub has_key_later :
    (key : Text) (c : Record) (ds : List Cell)
    → text_lt c.key key ≡ false
    → text_eq c.key key ≡ false
    → All (λ d. less c d.rec ≡ true) ds
    → has_key key (cell_records ds) ≡ false
unfolding has_key
has_key_later key c [] high apart h = refl
has_key_later key c (d ∷ ds) high apart (after, rest) =
    let ih = has_key_later key c ds high apart rest in
    elim (Bool-cases (text_eq d.rec.key key)) [
      | inr other ↦ rw other ih
      | inl same ↦
          let low =
            subst (λ k. text_lt k c.key ≡ false) (text_eq→eq d.rec.key key same)
              (less-key_le c d.rec after) in
          absurd (cc (text_lt-total c.key key high low, apart))
    ]

pub has_key_back :
    (rec : Record) (c : Cell) (cs : List Cell)
    → IsAscending (c ∷ cs)
    → less c.rec rec ≡ false
    → has_key rec.key (cell_records (c ∷ cs)) ≡ text_eq c.rec.key rec.key
unfolding has_key
has_key_back rec c cs asc high = elim (Bool-cases (text_eq c.rec.key rec.key)) [
  | inl same ↦ rw same refl
  | inr apart ↦
      let not_below : text_lt c.rec.key rec.key ≡ false =
        elim (Bool-cases (text_lt c.rec.key rec.key)) [
          | inl below ↦ absurd (cc (less_key c.rec rec below, high))
          | inr no_less ↦ no_less
        ] in
      rw apart (has_key_later rec.key c.rec cs not_below apart asc.0)
]

pub cell_records-append :
    (front back : List Cell)
    → cell_records (front ++ back) ≡ cell_records front ++ cell_records back
cell_records-append [] back = refl
cell_records-append (c ∷ front) back = ap (λ t. c.rec ∷ t) (cell_records-append front back)

pub has_key-append :
    (key : Text) (xs ys : List Record) → has_key key (xs ++ ys) ≡ has_key key xs || has_key key ys
unfolding has_key
has_key-append key [] ys = refl
has_key-append key (x ∷ xs) ys = ground (arith, has_key-append key xs ys)
