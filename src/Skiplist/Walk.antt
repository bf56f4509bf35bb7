-- ===== src/Skiplist/Walk.antt =====
-- The walks of skiplist.go: where they stop, for a test that holds on a front part of the list.
use mathlib.Core.List.{Memᴰ}
use hypha_db.Base.{
  ℕ, zero, suc, ◌<◌, ◌≡◌, ◌⊎◌, inl, inr, refl, sym, ap, ◌∙◌, subst, Bool, true, false, Bool-cases,
  Option-cases, some, List, [], ◌∷◌, ◌++◌, length, append_assoc, arith, All, All-append, All-map,
  All-Memᴰ, Memᴰ-append_right, length-append,
}
use hypha_db.Record.{Record}
use hypha_db.Skiplist.{Node, Store, next_of, passes, walk, less}
use hypha_db.Skiplist.Store.{height, Holds}
use hypha_db.Skiplist.Layout.{Cell, last_place, Reaches, Layout, Layout-Points}
use hypha_db.Skiplist.Order.{IsAscending, IsAscending-split, IsAscending-back}

-- The nodes from one that a pointer reaches on.
pub record Jump (h : Store) (cells : List Cell) (y : ℕ) : Type 0 where
  pub skipped : List Cell
  pub cell : Cell
  pub rest : List Cell
  pub split : cells ≡ skipped ++ (cell ∷ rest)
  pub place : cell.place ≡ y
  pub held : Holds h cell.place cell.rec
  pub layout : Layout h cell.place rest

jump :
    (h : Store) (x : ℕ) (cells : List Cell) (c : Cell) (y : ℕ)
    → Memᴰ c cells
    → c.place ≡ y
    → Layout h x cells
    → Jump h cells y
jump h x [] c y m e l = elim m [ ]
jump h x (d ∷ ds) c y (Memᴰ.head same) e l = record {
  skipped = [];
  cell = d;
  rest = ds;
  split = refl;
  place = ap (λ (k : Cell). k.place) (sym same) ∙ e;
  held = l.2;
  layout = l.3;
}
jump h x (d ∷ ds) c y (Memᴰ.tail m) e l =
    let j = jump h d.place ds c y m e l.3 in
    record {
      skipped = d ∷ j.skipped;
      cell = j.cell;
      rest = j.rest;
      split = ap (λ t. d ∷ t) j.split;
      place = j.place;
      held = j.held;
      layout = j.layout;
    }

last_place-append_one :
    (x : ℕ) (cells : List Cell) (c : Cell) → last_place x (cells ++ (c ∷ [])) ≡ c.place
last_place-append_one x [] c = refl
last_place-append_one x (d ∷ ds) c = last_place-append_one d.place ds c

pub All-Memᴰ_not {ℓ κ} :
    {A : Type ℓ} (P : A → Type κ) (front back : List A) (a : A)
    → All (λ b. ¬ P b) back
    → P a
    → Memᴰ a (front ++ back)
    → Memᴰ a front
All-Memᴰ_not P [] back a none_there p m = absurd (All-Memᴰ (λ b. ¬ P b) back a none_there m p)
All-Memᴰ_not P (x ∷ front) back a none_there p (Memᴰ.head e) = Memᴰ.head e
All-Memᴰ_not P (x ∷ front) back a none_there p (Memᴰ.tail m) =
    Memᴰ.tail (All-Memᴰ_not P front back a none_there p m)

pub Memᴰ-back {ℓ κ} :
    {A : Type ℓ} (P : A → Type κ) (front back : List A) (a : A)
    → All P front
    → ¬ P a
    → Memᴰ a (front ++ back)
    → Memᴰ a back
Memᴰ-back P [] back a h n m = m
Memᴰ-back P (x ∷ front) back a h n (Memᴰ.head e) = absurd (n (subst P (sym e) h.0))
Memᴰ-back P (x ∷ front) back a h n (Memᴰ.tail m) = Memᴰ-back P front back a h.1 n m

-- A test of nodes, as a test of records that holds of all records before one where it holds.
pub record Cuts (test : Node → Bool) (on : Record → Bool) : Type 0 where
  pub agree : (n : Node) → n.key ≡ n.item.key → test n ≡ on n.item
  pub down : (a b : Record) → less a b ≡ true → on b ≡ true → on a ≡ true

pub passes-Holds :
    (h : Store) (test : Node → Bool) (on : Record → Bool) (c : Cell)
    → ((n : Node) → n.key ≡ n.item.key → test n ≡ on n.item)
    → Holds h c.place c.rec
    → passes h test (some c.place) ≡ on c.rec
unfolding passes
passes-Holds h test on c agree held =
    rw (held.there, passes) (agree held.node held.key ∙ ap on held.item)

-- A walk stands at `x`, with the nodes that it has passed and those that follow.
pub record StandsAt (h : Store) (on : Record → Bool) (origin : ℕ) (cells : List Cell) (x : ℕ)
    : Type 0 where
  pub front : List Cell
  pub back : List Cell
  pub whole : cells ≡ front ++ back
  pub passed : All (λ c. on c.rec ≡ true) front
  pub last : last_place origin front ≡ x
  pub layout : Layout h x back

-- What the walk of level `i` ends in.
pub record Stops (h : Store) (on : Record → Bool) (origin : ℕ) (cells : List Cell) (i u : ℕ)
    : Type 0 where
  pub tall : i < height h u
  pub passed : (u ≡ origin) ⊎ ((c : Cell) × Memᴰ c cells × (c.place ≡ u) × (on c.rec ≡ true))
  pub beyond :
      (y : ℕ)
      → next_of h u i ≡ some y
      → (r : Reaches h i cells y) × (on r.cell.rec ≡ false) × Holds h y r.cell.rec

pub last_passed {κ} :
    (P : Cell → Type κ) (origin : ℕ) (front : List Cell)
    → All P front
    → (last_place origin front ≡ origin)
      ⊎ ((c : Cell) × Memᴰ c front × (c.place ≡ last_place origin front) × P c)
last_passed P origin [] h = inl refl
last_passed P origin (c ∷ front) h = elim (last_passed P c.place front h.1) [
  | inl same ↦ inr (c, Memᴰ.head refl, sym same, h.0)
  | inr (d, m, place, p) ↦ inr (d, Memᴰ.tail m, place, p)
]

Memᴰ-whole {ℓ} : {A : Type ℓ} (front back : List A) (a : A) → Memᴰ a front → Memᴰ a (front ++ back)
Memᴰ-whole [] back a m = elim m [ ]
Memᴰ-whole (x ∷ front) back a (Memᴰ.head e) = Memᴰ.head e
Memᴰ-whole (x ∷ front) back a (Memᴰ.tail m) = Memᴰ.tail (Memᴰ-whole front back a m)

module _ (h : Store) (test : Node → Bool) (on : Record → Bool) (cuts : Cuts test on) (origin : ℕ)
    (cells : List Cell) (ordered : IsAscending cells) where
  -- The next node of a level, where the walk has come.
  pub ahead :
      (i x : ℕ) (at : StandsAt h on origin cells x) (y : ℕ)
      → next_of h x i ≡ some y
      → (j : Jump h at.back y) × (i < height h y) × (passes h test (some y) ≡ on j.cell.rec)
  ahead i x at y e =
      let r = (Layout-Points h x at.back at.layout).towers i y e in
      let j = jump h x at.back r.cell y r.member r.place at.layout in
      (
        j,
        r.tall,
        subst (λ z. passes h test (some z) ≡ on j.cell.rec) j.place
            (passes-Holds h test on j.cell cuts.agree j.held),
      )

  pub advance :
      (x : ℕ) (at : StandsAt h on origin cells x) (y : ℕ) (j : Jump h at.back y)
      → on j.cell.rec ≡ true
      → (at' : StandsAt h on origin cells y) × (length at'.back < length at.back)
  advance x at y j pass =
      let regroup : at.front ++ (j.skipped ++ (j.cell ∷ j.rest))
          ≡ ((at.front ++ j.skipped) ++ (j.cell ∷ [])) ++ j.rest =
        sym (
          append_assoc (at.front ++ j.skipped) (j.cell ∷ []) j.rest
          ∙ append_assoc at.front j.skipped (j.cell ∷ j.rest)) in
      let whole = at.whole ∙ (ap (λ t. at.front ++ t) j.split ∙ regroup) in
      let between : All (λ d. less d.rec j.cell.rec ≡ true) j.skipped =
        IsAscending-split j.skipped j.cell j.rest (
          subst IsAscending j.split
            (IsAscending-back at.front at.back (subst IsAscending at.whole ordered))) in
      let passed =
        All-append (λ c. on c.rec ≡ true) (at.front ++ j.skipped) (j.cell ∷ [])
          (All-append (λ c. on c.rec ≡ true) at.front j.skipped at.passed
            (All-map _ _ (λ d before. cuts.down d.rec j.cell.rec before pass) j.skipped between))
          (pass, tt) in
      let size : length at.back ≡ length (j.skipped ++ (j.cell ∷ j.rest)) =
        ap (λ l. length l) j.split in
      (
        record {
          front = (at.front ++ j.skipped) ++ (j.cell ∷ []);
          back = j.rest;
          whole = whole;
          passed = passed;
          last = last_place-append_one origin (at.front ++ j.skipped) j.cell ∙ j.place;
          layout = subst (λ z. Layout h z j.rest) j.place j.layout;
        },
        omega (arith, size, length-append j.skipped (j.cell ∷ j.rest)),
      )

  halt :
      (i x : ℕ) (at : StandsAt h on origin cells x)
      → i < height h x
      → ((y : ℕ) → next_of h x i ≡ some y → passes h test (some y) ≡ false)
      → Stops h on origin cells i x
  halt i x at tall fails = record {
    tall = tall;
    passed = elim (last_passed (λ c. on c.rec ≡ true) origin at.front at.passed) [
      | inl first ↦ inl (sym at.last ∙ first)
      | inr (c, m, place, pass) ↦ inr (
        c,
        subst (λ l. Memᴰ c l) (sym at.whole) (Memᴰ-whole at.front at.back c m),
        place ∙ at.last,
        pass,
      )
    ];
    beyond = λ y e.
        let (j, high, value) = ahead i x at y e in
        let again : Memᴰ j.cell at.back =
          subst (λ l. Memᴰ j.cell l) (sym j.split)
            (Memᴰ-append_right j.cell j.skipped (j.cell ∷ j.rest) (Memᴰ.head refl)) in
        (
          record {
            cell = j.cell;
            member =
                subst (λ l. Memᴰ j.cell l) (sym at.whole)
                  (Memᴰ-append_right j.cell at.front at.back again);
            place = j.place;
            tall = high;
          },
          sym value ∙ fails y e,
          subst (λ z. Holds h z j.cell.rec) j.place j.held,
        );
  }

  -- A walk with enough fuel ends where its level's next node fails the test.
  pub walk-Stops :
      (i fuel x : ℕ) (at : StandsAt h on origin cells x)
      → length at.back < fuel
      → i < height h x
      → StandsAt h on origin cells (walk h test i fuel x)
        × Stops h on origin cells i (walk h test i fuel x)
  unfolding walk
  walk-Stops i zero x at low tall = absurd (omega arith)
  walk-Stops i (suc fuel) x at low tall = elim (Option-cases (next_of h x i)) [
    | inl end ↦ rw (end, walk) (at, halt i x at tall (λ y e. absurd (cc (e, end))))
    | inr (y, e) ↦ elim (Bool-cases (passes h test (some y))) [
      | inr fails ↦
          rw (e, walk)
            (rw (fails, walk)
              (at, halt i x at tall (λ z e'. let same : y ≡ z = cc (e, e') in rw (← same) fails)))
      | inl pass ↦
          let (j, high, value) = ahead i x at y e in
          let (at', less_left) = advance x at y j (sym value ∙ pass) in
          rw (e, walk) (rw (pass, walk) (walk-Stops i fuel y at' (omega arith) high))
    ]
  ]
