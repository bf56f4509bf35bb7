-- ===== src/Skiplist/Layout.antt =====
-- The invariant of skiplist.go's nodes: the bottom level runs through all nodes in the order of
-- the list, and a pointer on a higher level goes to a later node that has that level.
use mathlib.Core.List.{Memᴰ}
use hypha_db.Base.{
  ℕ, ◌<◌, ◌≡◌, ◌≢◌, ◌⊎◌, inl, inr, sym, ap, ◌∙◌, subst, none, some, List, [], ◌∷◌, ◌++◌, length,
  arith, All, All-Memᴰ, Memᴰ-append_right, Memᴰ-append_left, get_elem?_inside, ℕ_discrete,
}
use hypha_db.Record.{Record}
use hypha_db.Skiplist.{Pointer, Store, next_of, set_next}
use hypha_db.Skiplist.Store.{
  height, Holds, next_of-set_next_self, next_of-set_next_ne, height-set_next, Holds-set_next,
}

-- A node of the list: its place, and its record.
pub record Cell : Type 0 where
  pub place : ℕ
  pub rec : Record

abbrev pub cell_records : List Cell → List Record
cell_records [] = []
cell_records (c ∷ cs) = c.rec ∷ cell_records cs

abbrev pub first_place : List Cell → Pointer
first_place [] = none
first_place (c ∷ cs) = some c.place

-- The place of the last node, where the walk begins at `x`.
abbrev pub last_place : ℕ → List Cell → ℕ
last_place x [] = x
last_place x (c ∷ cs) = last_place c.place cs

-- The place is that of a node among these, and it has the level.
pub record Reaches (h : Store) (i : ℕ) (cells : List Cell) (y : ℕ) : Type 0 where
  pub cell : Cell
  pub member : Memᴰ cell cells
  pub place : cell.place ≡ y
  pub tall : i < height h y

-- What the pointers of a node may be, when these nodes follow it.
pub record Points (h : Store) (x : ℕ) (cells : List Cell) : Type 0 where
  pub bottom : next_of h x 0 ≡ first_place cells
  pub towers : (i y : ℕ) → next_of h x i ≡ some y → Reaches h i cells y
  pub tall : 0 < height h x

abbrev pub Apart : ℕ → List Cell → Type 0
Apart x = All (λ c. c.place ≢ x)

abbrev pub Layout : Store → ℕ → List Cell → Type 0
Layout h x [] = Points h x []
Layout h x (c ∷ cs) =
    Points h x (c ∷ cs) × Apart x (c ∷ cs) × Holds h c.place c.rec × Layout h c.place cs

pub Layout-Points : (h : Store) (x : ℕ) (cells : List Cell) → Layout h x cells → Points h x cells
Layout-Points h x [] l = l
Layout-Points h x (c ∷ cs) l = l.0

pub Layout-Apart : (h : Store) (x : ℕ) (cells : List Cell) → Layout h x cells → Apart x cells
Layout-Apart h x [] l = tt
Layout-Apart h x (c ∷ cs) l = l.1

-- Only the pointers of the node at `u` have changed.
pub record Rewires (u : ℕ) (h h' : Store) : Type 0 where
  pub elsewhere : (x i : ℕ) → u ≢ x → next_of h' x i ≡ next_of h x i
  pub heights : (x i : ℕ) → i < height h x → i < height h' x
  pub items : (x : ℕ) (rec : Record) → Holds h x rec → Holds h' x rec

pub set_next-Rewires : (h : Store) (u i : ℕ) (p : Pointer) → Rewires u h (set_next h u i p)
set_next-Rewires h u i p = record {
  elsewhere = λ x j apart. next_of-set_next_ne h u i p x j (inl apart);
  heights = λ x j tall. let same = height-set_next h u i p x in omega (arith, same, tall);
  items = λ x rec held. Holds-set_next h u i p x rec held;
}

pub Reaches-Rewires :
    (u : ℕ) (h h' : Store)
    → Rewires u h h'
    → (i : ℕ) (cells : List Cell) (y : ℕ) → Reaches h i cells y
    → Reaches h' i cells y
Reaches-Rewires u h h' w i cells y r = record {
  cell = r.cell;
  member = r.member;
  place = r.place;
  tall = w.heights y i r.tall;
}

Points-Rewires :
    (u : ℕ) (h h' : Store)
    → Rewires u h h'
    → (x : ℕ) (cells : List Cell) → u ≢ x
    → Points h x cells
    → Points h' x cells
Points-Rewires u h h' w x cells apart p = record {
  bottom = w.elsewhere x 0 apart ∙ p.bottom;
  towers =
      λ i y e. Reaches-Rewires u h h' w i cells y (p.towers i y (sym (w.elsewhere x i apart) ∙ e));
  tall = w.heights x 0 p.tall;
}

-- A change of a node that is not among these leaves them as they are.
pub Layout-Rewires :
    (u : ℕ) (h h' : Store)
    → Rewires u h h'
    → (x : ℕ) (cells : List Cell) → u ≢ x
    → Apart u cells
    → Layout h x cells
    → Layout h' x cells
Layout-Rewires u h h' w x [] apart out l = Points-Rewires u h h' w x [] apart l
Layout-Rewires u h h' w x (c ∷ cs) apart out (points, distinct, held, rest) = (
  Points-Rewires u h h' w x (c ∷ cs) apart points,
  distinct,
  w.items c.place c.rec held,
  Layout-Rewires u h h' w c.place cs (λ e. out.0 (sym e)) out.1 rest,
)

pub Layout-inside :
    (h : Store) (x : ℕ) (cells : List Cell) → Layout h x cells → All (λ c. c.place < length h) cells
Layout-inside h x [] l = tt
Layout-inside h x (c ∷ cs) (points, distinct, held, rest) =
    (get_elem?_inside h c.place held.node held.there, Layout-inside h c.place cs rest)

-- Where a pointer of level `i` may go from before these nodes.
abbrev pub Targets : Store → ℕ → Pointer → List Cell → Type 0
Targets h i p cells = (y : ℕ) → p ≡ some y → Reaches h i cells y

abbrev pub IsAmong : ℕ → ℕ → List Cell → Type 0
IsAmong u x cells = (u ≡ x) ⊎ ((c : Cell) × Memᴰ c cells × (c.place ≡ u))

pub Reaches-append_right :
    (h : Store) (i : ℕ) (front cells : List Cell) (y : ℕ)
    → Reaches h i cells y
    → Reaches h i (front ++ cells) y
Reaches-append_right h i front cells y r = record {
  cell = r.cell;
  member = Memᴰ-append_right r.cell front cells r.member;
  place = r.place;
  tall = r.tall;
}

Points-relink :
    (h : Store) (u i : ℕ) (p : Pointer) (cells : List Cell)
    → 0 < i
    → i < height h u
    → Targets h i p cells
    → Points h u cells
    → Points (set_next h u i p) u cells
Points-relink h u i p cells upper tall targets points = record {
  bottom = next_of-set_next_ne h u i p u 0 (inr (λ e. omega arith)) ∙ points.bottom;
  towers = λ j y e.
      Reaches-Rewires u h (set_next h u i p) (set_next-Rewires h u i p) j cells y
        (elim (ℕ_discrete i j) [
          | yes same ↦
              let there : next_of (set_next h u i p) u i ≡ some y =
                subst (λ k. next_of (set_next h u i p) u k ≡ some y) (sym same) e in
              subst (λ k. Reaches h k cells y) same
                (targets y (sym (next_of-set_next_self h u i p tall) ∙ there))
          | no other ↦ points.towers j y (sym (next_of-set_next_ne h u i p u j (inr other)) ∙ e)
        ]);
  tall = (set_next-Rewires h u i p).heights u 0 points.tall;
}

relink_first :
    (h : Store) (x i : ℕ) (p : Pointer) (cells : List Cell)
    → 0 < i
    → i < height h x
    → Targets h i p cells
    → Layout h x cells
    → Layout (set_next h x i p) x cells
relink_first h x i p [] upper tall targets l = Points-relink h x i p [] upper tall targets l
relink_first h x i p (c ∷ cs) upper tall targets (points, distinct, held, rest) =
    let w = set_next-Rewires h x i p in
    (
      Points-relink h x i p (c ∷ cs) upper tall targets points,
      distinct,
      w.items c.place c.rec held,
      Layout-Rewires x h _ w c.place cs (λ e. distinct.0 (sym e)) distinct.1 rest,
    )

-- A write on a higher level, from a node before the split to one after it.
pub Layout-relink :
    (h : Store) (x u i : ℕ) (p : Pointer) (front cells : List Cell)
    → 0 < i
    → i < height h u
    → IsAmong u x front
    → Targets h i p cells
    → Layout h x (front ++ cells)
    → Layout (set_next h u i p) x (front ++ cells)
Layout-relink h x u i p front cells upper tall (inl same) targets l =
    subst (λ z. Layout (set_next h z i p) x (front ++ cells)) (sym same)
      (relink_first h x i p (front ++ cells) upper (subst (λ z. i < height h z) same tall)
        (λ y e. Reaches-append_right h i front cells y (targets y e)) l)
Layout-relink h x u i p [] cells upper tall (inr (d, member, place)) targets l = elim member [ ]
Layout-relink h x u i p (c ∷ front) cells upper tall (inr (d, member, place)) targets
      (points, distinct, held, rest) =
    let w = set_next-Rewires h u i p in
    let apart : u ≢ x =
      subst (λ z. z ≢ x) place
        (All-Memᴰ (λ e. e.place ≢ x) (c ∷ (front ++ cells)) d distinct (front_member d member)) in
    (
      Points-Rewires u h _ w x (c ∷ (front ++ cells)) apart points,
      distinct,
      w.items c.place c.rec held,
      Layout-relink h c.place u i p front cells upper tall (step d member place) targets rest,
    )
  where
    front_member : (d : Cell) → Memᴰ d (c ∷ front) → Memᴰ d (c ∷ (front ++ cells))
    front_member d m = Memᴰ-append_left d (c ∷ front) cells m

    step : (d : Cell) → Memᴰ d (c ∷ front) → d.place ≡ u → IsAmong u c.place front
    step d (Memᴰ.head e) place = inl (sym place ∙ ap (λ (k : Cell). k.place) e)
    step d (Memᴰ.tail m) place = inr (d, m, place)
