-- ===== src/Skiplist/Link.antt =====
-- The insertion loop of `SkipList.Put`: a new node is linked level by level.
use mathlib.Core.List.{Memᴰ}
use hypha_db.Base.{
  ℕ, ◌<◌, ◌≡◌, ◌≢◌, inr, refl, sym, ◌∙◌, subst, none, some, List, [], ◌∷◌, ◌++◌, All, ℕ_discrete,
}
use hypha_db.Skiplist.{Store, next_of, set_next}
use hypha_db.Skiplist.Store.{height, Holds, next_of-set_next_self, next_of-set_next_ne}
use hypha_db.Skiplist.Layout.{
  Cell, last_place, Reaches, Points, Apart, Layout, Layout-Points, Layout-Apart, Rewires,
  set_next-Rewires, Reaches-Rewires, Layout-Rewires,
}

pub Memᴰ-insert {ℓ} :
    {A : Type ℓ} (front : List A) (a x : A) (back : List A)
    → Memᴰ x (front ++ back)
    → Memᴰ x (front ++ (a ∷ back))
Memᴰ-insert [] a x back m = Memᴰ.tail m
Memᴰ-insert (y ∷ front) a x back (Memᴰ.head e) = Memᴰ.head e
Memᴰ-insert (y ∷ front) a x back (Memᴰ.tail m) = Memᴰ.tail (Memᴰ-insert front a x back m)

All-insert {ℓ κ} :
    {A : Type ℓ} (P : A → Type κ) (front : List A) (a : A) (back : List A)
    → P a
    → All P (front ++ back)
    → All P (front ++ (a ∷ back))
All-insert P [] a back p h = (p, h)
All-insert P (y ∷ front) a back p (first, h) = (first, All-insert P front a back p h)

All-front {ℓ κ} :
    {A : Type ℓ} (P : A → Type κ) (front back : List A) → All P (front ++ back) → All P front
All-front P [] back h = tt
All-front P (x ∷ front) back (p, h) = (p, All-front P front back h)

last_place-Apart : (x y : ℕ) (cells : List Cell) → y ≢ x → Apart x cells → last_place y cells ≢ x
last_place-Apart x y [] apart h = apart
last_place-Apart x y (c ∷ cs) apart (first, h) = last_place-Apart x c.place cs first h

-- A node that is in the store, and not yet in the list.
pub record IsLoose (h : Store) (c : Cell) : Type 0 where
  pub held : Holds h c.place c.rec
  pub tall : 0 < height h c.place
  pub unlinked : (i : ℕ) → next_of h c.place i ≡ none

-- The first round: `newNode.next[0] = u.next[0]; u.next[0] = newNode`.
abbrev pub link_bottom : Store → ℕ → ℕ → Store
link_bottom h u new = set_next (set_next h new 0 (next_of h u 0)) u 0 (some new)

Reaches-insert :
    (h : Store) (i : ℕ) (front : List Cell) (new : Cell) (back : List Cell) (y : ℕ)
    → Reaches h i (front ++ back) y
    → Reaches h i (front ++ (new ∷ back)) y
Reaches-insert h i front new back y r = record {
  cell = r.cell;
  member = Memᴰ-insert front new r.cell back r.member;
  place = r.place;
  tall = r.tall;
}

module _ (h : Store) (u : ℕ) (new : Cell) (loose : IsLoose h new) (other : u ≢ new.place) where
  abbrev h1 : Store
  h1 = set_next h new.place 0 (next_of h u 0)

  abbrev h2 : Store
  h2 = link_bottom h u new.place

  w1 : Rewires new.place h h1
  w1 = set_next-Rewires h new.place 0 (next_of h u 0)

  w2 : Rewires u h1 h2
  w2 = set_next-Rewires h1 u 0 (some new.place)

  -- Cells that are neither the new one nor the one before it.
  unchanged :
      (x : ℕ) (cells : List Cell)
      → new.place ≢ x
      → u ≢ x
      → Apart new.place cells
      → Apart u cells
      → Layout h x cells
      → Layout h2 x cells
  unchanged x cells new_x u_x new_cells u_cells l =
      Layout-Rewires u h1 h2 w2 x cells u_x u_cells
        (Layout-Rewires new.place h h1 w1 x cells new_x new_cells l)

  Reaches-after : (i : ℕ) (cells : List Cell) (y : ℕ) → Reaches h i cells y → Reaches h2 i cells y
  Reaches-after i cells y r =
      Reaches-Rewires u h1 h2 w2 i cells y (Reaches-Rewires new.place h h1 w1 i cells y r)

  next_of_other : (x i : ℕ) → new.place ≢ x → u ≢ x → next_of h2 x i ≡ next_of h x i
  next_of_other x i new_x u_x = w2.elsewhere x i u_x ∙ w1.elsewhere x i new_x

  tall_after : (x i : ℕ) → i < height h x → i < height h2 x
  tall_after x i tall = w2.heights x i (w1.heights x i tall)

  -- The new node takes over what followed.
  Points-new : (back : List Cell) → Points h u back → Points h2 new.place back
  Points-new back points =
      let follows : next_of h2 new.place 0 ≡ next_of h u 0 =
        w2.elsewhere new.place 0 other
        ∙ next_of-set_next_self h new.place 0 (next_of h u 0) loose.tall in
      record {
        bottom = follows ∙ points.bottom;
        towers = λ i y e. elim (ℕ_discrete 0 i) [
          | yes lowest ↦
              let there : next_of h u i ≡ some y =
                subst (λ k. next_of h u k ≡ some y) lowest
                  (sym follows ∙ subst (λ k. next_of h2 new.place k ≡ some y) (sym lowest) e) in
              Reaches-after i back y (points.towers i y there)
          | no higher ↦
              let nothing : next_of h2 new.place i ≡ none =
                w2.elsewhere new.place i other
                ∙ (next_of-set_next_ne h new.place 0 (next_of h u 0) new.place i (inr higher)
                    ∙ loose.unlinked i) in
              absurd (cc (e, nothing))
        ];
        tall = tall_after new.place 0 loose.tall;
      }

  -- The node before it points to it.
  Points-before : (back : List Cell) → Points h u back → Points h2 u (new ∷ back)
  Points-before back points =
      let room : 0 < height h1 u = w1.heights u 0 points.tall in
      let first = next_of-set_next_self h1 u 0 (some new.place) room in
      record {
        bottom = first;
        towers = λ i y e. elim (ℕ_discrete 0 i) [
          | yes lowest ↦
              let to_new : some new.place ≡ some y =
                sym first ∙ subst (λ k. next_of h2 u k ≡ some y) (sym lowest) e in
              let same : new.place ≡ y = cc to_new in
              record {
                cell = new;
                member = Memᴰ.head refl;
                place = same;
                tall =
                    subst (λ k. k < height h2 y) lowest
                      (subst (λ z. 0 < height h2 z) same (tall_after new.place 0 loose.tall));
              }
          | no higher ↦
              let before : next_of h u i ≡ some y =
                sym (
                  next_of-set_next_ne h1 u 0 (some new.place) u i (inr higher)
                  ∙ w1.elsewhere u i (λ q. other (sym q)))
                ∙ e in
              Reaches-insert h2 i [] new back y (Reaches-after i back y (points.towers i y before))
        ];
        tall = tall_after u 0 points.tall;
      }

  Layout-new :
      (back : List Cell) → Apart new.place back → Layout h u back → Layout h2 new.place back
  Layout-new [] fresh l = Points-new [] l
  Layout-new (c ∷ cs) fresh (points, distinct, held, rest) = (
    Points-new (c ∷ cs) points,
    fresh,
    w2.items c.place c.rec (w1.items c.place c.rec held),
    unchanged c.place cs (λ e. fresh.0 (sym e)) (λ e. distinct.0 (sym e)) fresh.1 distinct.1 rest,
  )

  -- After the first round the new node is in the list.
  pub Layout-link_bottom :
      (x : ℕ) (front back : List Cell)
      → new.place ≢ x
      → Apart new.place (front ++ back)
      → last_place x front ≡ u
      → Layout h x (front ++ back)
      → Layout h2 x (front ++ (new ∷ back))
  Layout-link_bottom x [] back fresh_x fresh last l =
      let at_u : Layout h u back = subst (λ z. Layout h z back) last l in
      let whole : Layout h2 u (new ∷ back) = (
        Points-before back (Layout-Points h u back at_u),
        ((λ e. other (sym e)), Layout-Apart h u back at_u),
        w2.items new.place new.rec (w1.items new.place new.rec loose.held),
        Layout-new back fresh at_u,
      ) in
      subst (λ z. Layout h2 z (new ∷ back)) (sym last) whole
  Layout-link_bottom x (c ∷ front) back fresh_x fresh last (points, distinct, held, rest) =
      let u_x : u ≢ x =
        subst (λ z. z ≢ x) last
          (last_place-Apart x c.place front distinct.0 (All-front _ front back distinct.1)) in
      let points' : Points h2 x (c ∷ (front ++ (new ∷ back))) = record {
        bottom = next_of_other x 0 fresh_x u_x ∙ points.bottom;
        towers = λ i y e. Reaches-insert h2 i (c ∷ front) new back y (
            Reaches-after i (c ∷ (front ++ back)) y
              (points.towers i y (sym (next_of_other x i fresh_x u_x) ∙ e)));
        tall = tall_after x 0 points.tall;
      } in
      (
        points',
        (distinct.0, All-insert _ front new back (λ e. fresh_x e) distinct.1),
        w2.items c.place c.rec (w1.items c.place c.rec held),
        Layout-link_bottom c.place front back (λ e. fresh.0 (sym e)) fresh.1 last rest,
      )
