-- ===== src/Skiplist/Replace.antt =====
-- `SkipList.Put` with a version that the list holds: the node takes the new record.
use mathlib.Core.List.{Memᴰ}
use hypha_db.Base.{
  ℕ, suc, ◌<◌, ◌≡◌, ◌≢◌, inl, inr, refl, sym, ap, ◌∙◌, subst, true, not, Option-cases, some, List,
  [], ◌∷◌, ◌++◌, length, set, get_elem?, ltb, All, All-map, length-set, get_elem?-set_self,
  get_elem?-set_ne, ℕ_discrete, if◌then◌else◌,
}
use hypha_db.Base.Text.{text_eq, text_lt}
use hypha_db.Record.{Record}
use hypha_db.Skiplist.{Node, Store, SkipList, head, next_of, set_item, less}
use hypha_db.Skiplist.Store.{height, Holds, next_of_at, height_at}
use hypha_db.Skiplist.Layout.{Cell, cell_records, first_place, Layout, Layout-Apart, Points, Apart}
use hypha_db.Skiplist.Order.{IsAscending}
use hypha_db.Skiplist.Reference.{count_keys, count_keys_replace}
use hypha_db.Skiplist.Exists.{cell_records-append}
use hypha_db.Skiplist.Insert.{IsSkipList}

-- `less` reads the key and the sequence number.
less_left : (a b c : Record) → a.key ≡ b.key → a.seq ≡ b.seq → less a c ≡ less b c
unfolding less
less_left a b c key seq =
    ap (λ k. if not (text_eq k c.key) then text_lt k c.key else ltb c.seq a.seq) key
    ∙ ap (λ n. if not (text_eq b.key c.key) then text_lt b.key c.key else ltb c.seq n) seq

less_right : (a b c : Record) → a.key ≡ b.key → a.seq ≡ b.seq → less c a ≡ less c b
unfolding less
less_right a b c key seq =
    ap (λ k. if not (text_eq c.key k) then text_lt c.key k else ltb a.seq c.seq) key
    ∙ ap (λ n. if not (text_eq c.key b.key) then text_lt c.key b.key else ltb n c.seq) seq

IsAscending-replace :
    (front : List Cell) (c c' : Cell) (back : List Cell)
    → c.rec.key ≡ c'.rec.key
    → c.rec.seq ≡ c'.rec.seq
    → IsAscending (front ++ (c ∷ back))
    → IsAscending (front ++ (c' ∷ back))
IsAscending-replace [] c c' back key seq (first, asc) =
    (All-map _ _ (λ d low. sym (less_left c.rec c'.rec d.rec key seq) ∙ low) back first, asc)
IsAscending-replace (x ∷ front) c c' back key seq (first, asc) =
    (go front first, IsAscending-replace front c c' back key seq asc)
  where
    go :
        (cs : List Cell)
        → All (λ d. less x.rec d.rec ≡ true) (cs ++ (c ∷ back))
        → All (λ d. less x.rec d.rec ≡ true) (cs ++ (c' ∷ back))
    go [] (low, rest) = (sym (less_right c.rec c'.rec x.rec key seq) ∙ low, rest)
    go (d ∷ ds) (low, rest) = (low, go ds rest)

module _ (h : Store) (y : ℕ) (old rec : Record) (held : Holds h y old)
    (key : old.key ≡ rec.key) where
  abbrev node' : Node
  node' = record held.node { item = rec }

  abbrev h' : Store
  h' = set_item h y rec

  written : h' ≡ set h y node'
  unfolding set_item
  written = rw (held.there, set_item) refl

  there' : get_elem? h' y ≡ some node'
  there' = rw written (get_elem?-set_self h y held.node node' held.there)

  other : (x : ℕ) → y ≢ x → get_elem? h' x ≡ get_elem? h x
  other x apart = rw written (get_elem?-set_ne h y x node' apart)

  next_of-set_item : (x i : ℕ) → next_of h' x i ≡ next_of h x i
  unfolding next_of
  next_of-set_item x i = elim (ℕ_discrete y x) [
    | no apart ↦ rw (other x apart, next_of) refl
    | yes same ↦
        subst (λ z. next_of h' z i ≡ next_of h z i) same
          (next_of_at h' y node' i there' ∙ sym (next_of_at h y held.node i held.there))
  ]

  height-set_item : (x : ℕ) → height h' x ≡ height h x
  unfolding height
  height-set_item x = elim (ℕ_discrete y x) [
    | no apart ↦ rw (other x apart, height) refl
    | yes same ↦
        subst (λ z. height h' z ≡ height h z) same
          (height_at h' y node' there' ∙ sym (height_at h y held.node held.there))
  ]

  Points-set_item : (x : ℕ) (cells : List Cell) → Points h x cells → Points h' x cells
  Points-set_item x cells p = record {
    bottom = next_of-set_item x 0 ∙ p.bottom;
    towers = λ i z e.
        let r = p.towers i z (sym (next_of-set_item x i) ∙ e) in
        record {
          cell = r.cell;
          member = r.member;
          place = r.place;
          tall = subst (λ k. i < k) (sym (height-set_item z)) r.tall;
        };
    tall = subst (λ k. 0 < k) (sym (height-set_item x)) p.tall;
  }

  Holds-set_item_ne : (x : ℕ) (r : Record) → y ≢ x → Holds h x r → Holds h' x r
  Holds-set_item_ne x r apart k = record {
    node = k.node;
    there = other x apart ∙ k.there;
    item = k.item;
    key = k.key;
  }

  Layout-set_item_ne :
      (x : ℕ) (cells : List Cell) → Apart y cells → Layout h x cells → Layout h' x cells
  Layout-set_item_ne x [] out l = Points-set_item x [] l
  Layout-set_item_ne x (c ∷ cs) out (points, distinct, k, rest) = (
    Points-set_item x (c ∷ cs) points,
    distinct,
    Holds-set_item_ne c.place c.rec (λ e. out.0 (sym e)) k,
    Layout-set_item_ne c.place cs out.1 rest,
  )

Memᴰ_replace :
    (front : List Cell) (c c' : Cell) (back : List Cell) (d : Cell)
    → c.place ≡ c'.place
    → Memᴰ d (front ++ (c ∷ back))
    → (e : Cell) × Memᴰ e (front ++ (c' ∷ back)) × (e.place ≡ d.place)
Memᴰ_replace [] c c' back d same (Memᴰ.head e) =
    (c', Memᴰ.head refl, sym same ∙ ap (λ (k : Cell). k.place) (sym e))
Memᴰ_replace [] c c' back d same (Memᴰ.tail m) = (d, Memᴰ.tail m, refl)
Memᴰ_replace (x ∷ front) c c' back d same (Memᴰ.head e) = (d, Memᴰ.head e, refl)
Memᴰ_replace (x ∷ front) c c' back d same (Memᴰ.tail m) =
    let (k, m', place) = Memᴰ_replace front c c' back d same m in (k, Memᴰ.tail m', place)

first_place_replace :
    (front : List Cell) (c c' : Cell) (back : List Cell)
    → c.place ≡ c'.place
    → first_place (front ++ (c ∷ back)) ≡ first_place (front ++ (c' ∷ back))
first_place_replace [] c c' back same = ap (λ p. some p) same
first_place_replace (x ∷ front) c c' back same = refl

Points-replace :
    (h : Store) (x : ℕ) (front : List Cell) (c c' : Cell) (back : List Cell)
    → c.place ≡ c'.place
    → Points h x (front ++ (c ∷ back))
    → Points h x (front ++ (c' ∷ back))
Points-replace h x front c c' back same p = record {
  bottom = p.bottom ∙ first_place_replace front c c' back same;
  towers = λ i y e.
      let r = p.towers i y e in
      let (k, m, place) = Memᴰ_replace front c c' back r.cell same r.member in
      record { cell = k; member = m; place = place ∙ r.place; tall = r.tall };
  tall = p.tall;
}

Apart-replace :
    (x : ℕ) (front : List Cell) (c c' : Cell) (back : List Cell)
    → c.place ≡ c'.place
    → Apart x (front ++ (c ∷ back))
    → Apart x (front ++ (c' ∷ back))
Apart-replace x [] c c' back same (first, rest) = ((λ e. first (same ∙ e)), rest)
Apart-replace x (z ∷ front) c c' back same (first, rest) =
    (first, Apart-replace x front c c' back same rest)

Apart-at :
    (x : ℕ) (front : List Cell) (c : Cell) (back : List Cell)
    → Apart x (front ++ (c ∷ back))
    → c.place ≢ x
Apart-at x [] c back h = h.0
Apart-at x (z ∷ front) c back h = Apart-at x front c back h.1

Layout-set_item :
    (h : Store) (x : ℕ) (front : List Cell) (c : Cell) (rec : Record) (back : List Cell)
    → c.rec.key ≡ rec.key
    → Layout h x (front ++ (c ∷ back))
    → Layout (set_item h c.place rec) x (front ++ (record { place = c.place; rec = rec } ∷ back))
Layout-set_item h x [] c rec back key (points, distinct, held, rest) =
    let c' : Cell = record { place = c.place; rec = rec } in
    (
      Points-replace _ x [] c c' back refl
          (Points-set_item h c.place c.rec rec held key x (c ∷ back) points),
      Apart-replace x [] c c' back refl distinct,
      record {
        node = node' h c.place c.rec rec held key;
        there = there' h c.place c.rec rec held key;
        item = refl;
        key = held.key ∙ (ap (λ (r : Record). r.key) held.item ∙ key);
      },
      Layout-set_item_ne h c.place c.rec rec held key c.place back
          (Layout-Apart h c.place back rest) rest,
    )
Layout-set_item h x (z ∷ front) c rec back key (points, distinct, held, rest) =
    let c' : Cell = record { place = c.place; rec = rec } in
    let at_c = Holds_at z.place front rest in
    (
      Points-replace _ x (z ∷ front) c c' back refl
          (Points-set_item h c.place c.rec rec at_c key x (z ∷ (front ++ (c ∷ back))) points),
      Apart-replace x (z ∷ front) c c' back refl distinct,
      Holds-set_item_ne h c.place c.rec rec at_c key z.place z.rec
          (Apart-at z.place front c back (Layout-Apart h z.place (front ++ (c ∷ back)) rest)) held,
      Layout-set_item h z.place front c rec back key rest,
    )
  where
    Holds_at :
        (w : ℕ) (front : List Cell) → Layout h w (front ++ (c ∷ back)) → Holds h c.place c.rec
    Holds_at w [] l = l.2
    Holds_at w (d ∷ ds) l = Holds_at d.place ds l.3

length-set_item : (h : Store) (y : ℕ) (rec : Record) → length (set_item h y rec) ≡ length h
unfolding set_item
length-set_item h y rec = elim (Option-cases (get_elem? h y)) [
  | inl missing ↦ rw (missing, set_item) refl
  | inr (n, there) ↦ rw (there, set_item) (length-set h y (record n { item = rec }))
]

length_replace :
    (front : List Cell) (c c' : Cell) (back : List Cell)
    → length (front ++ (c ∷ back)) ≡ length (front ++ (c' ∷ back))
length_replace [] c c' back = refl
length_replace (x ∷ front) c c' back = ap suc (length_replace front c c' back)

-- The list after a replacement: one cell has the new record.
pub set_item-IsSkipList :
    (s : SkipList) (front : List Cell) (c : Cell) (rec : Record) (back : List Cell)
    → c.rec.key ≡ rec.key
    → c.rec.seq ≡ rec.seq
    → Holds s.nodes c.place c.rec
    → IsSkipList s (front ++ (c ∷ back))
    → IsSkipList
        (record s { nodes = set_item s.nodes c.place rec })
        (front ++ (record { place = c.place; rec = rec } ∷ back))
set_item-IsSkipList s front c rec back key seq held inv =
    let c' : Cell = record { place = c.place; rec = rec } in
    let same_length = length_replace front c c' back in
    record {
      layout = Layout-set_item s.nodes head front c rec back key inv.layout;
      ascending = IsAscending-replace front c c' back key seq inv.ascending;
      size = length-set_item s.nodes c.place rec ∙ (inv.size ∙ ap suc same_length);
      count = inv.count ∙ same_length;
      keys =
          inv.keys
          ∙ (ap count_keys (cell_records-append front (c ∷ back))
              ∙ (count_keys_replace (cell_records front) c.rec rec (cell_records back) key
                  ∙ sym (ap count_keys (cell_records-append front (c' ∷ back)))));
      room = height-set_item s.nodes c.place c.rec rec held key head ∙ inv.room;
      some_level = inv.some_level;
      level_fits = inv.level_fits;
      flat =
          λ i above. next_of-set_item s.nodes c.place c.rec rec held key head i ∙ inv.flat i above;
    }
