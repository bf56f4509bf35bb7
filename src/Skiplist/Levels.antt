-- ===== src/Skiplist/Levels.antt =====
-- The rounds of `SkipList.Put`'s insertion loop that follow the first.
use mathlib.Core.List.{Memᴰ}
use hypha_db.Base.{
  ℕ, zero, suc, ◌+◌, ◌≤◌, ◌<◌, ◌≡◌, ◌≢◌, inr, refl, sym, ◌∙◌, subst, some, List, [], ◌∷◌, ◌++◌,
  length, append_assoc, arith, Memᴰ-append_right,
}
use hypha_db.Skiplist.{Pointer, Store, slot, next_of, set_next, link_level, link}
use hypha_db.Skiplist.Store.{height, next_of-set_next_ne, height-set_next, length-set_next}
use hypha_db.Skiplist.Layout.{Cell, Layout, last_place, Apart, Targets, IsAmong, Layout-relink}
use hypha_db.Skiplist.Link.{IsLoose, Layout-link_bottom}

-- `update[j]` is a node before the split that has level `j`, and points behind the split there.
pub record IsReadyAt (h : Store) (update : List Pointer) (x : ℕ) (front back : List Cell) (j : ℕ)
    : Type 0 where
  pub before : ℕ
  pub stored : slot update j ≡ some before
  pub among : IsAmong before x front
  pub tall : j < height h before
  pub targets : Targets h j (next_of h before j) back

pub link_level_at :
    (new : ℕ) (update : List Pointer) (i u : ℕ) (h : Store)
    → slot update i ≡ some u
    → link_level new update i h ≡ set_next (set_next h new i (next_of h u i)) u i (some new)
unfolding link_level
link_level_at new update i u h e = rw (e, link_level) refl

pub link_level-height :
    (new : ℕ) (update : List Pointer) (i u : ℕ) (h : Store) (y : ℕ)
    → slot update i ≡ some u
    → height (link_level new update i h) y ≡ height h y
link_level-height new update i u h y e = rw (link_level_at new update i u h e) (
    height-set_next (set_next h new i (next_of h u i)) u i (some new) y
    ∙ height-set_next h new i (next_of h u i) y)

link_level-length :
    (new : ℕ) (update : List Pointer) (i u : ℕ) (h : Store)
    → slot update i ≡ some u
    → length (link_level new update i h) ≡ length h
link_level-length new update i u h e = rw (link_level_at new update i u h e) (
    length-set_next (set_next h new i (next_of h u i)) u i (some new)
    ∙ length-set_next h new i (next_of h u i))

link_level-next_of :
    (new : ℕ) (update : List Pointer) (i u : ℕ) (h : Store) (y j : ℕ)
    → slot update i ≡ some u
    → i ≢ j
    → next_of (link_level new update i h) y j ≡ next_of h y j
link_level-next_of new update i u h y j e apart = rw (link_level_at new update i u h e) (
    next_of-set_next_ne (set_next h new i (next_of h u i)) u i (some new) y j (inr apart)
    ∙ next_of-set_next_ne h new i (next_of h u i) y j (inr apart))

-- A round leaves the levels above it ready.
IsReadyAt-link_level :
    (new : ℕ) (update : List Pointer) (i u : ℕ) (h : Store) (x : ℕ) (front back : List Cell) (j : ℕ)
    → slot update i ≡ some u
    → i < j
    → IsReadyAt h update x front back j
    → IsReadyAt (link_level new update i h) update x front back j
IsReadyAt-link_level new update i u h x front back j e above ready =
    let same = link_level-next_of new update i u h ready.before j e (λ q. omega arith) in
    record {
      before = ready.before;
      stored = ready.stored;
      among = ready.among;
      tall =
          subst (λ k. j < k) (sym (link_level-height new update i u h ready.before e)) ready.tall;
      targets = λ y goes.
          let r = ready.targets y (sym same ∙ goes) in
          record {
            cell = r.cell;
            member = r.member;
            place = r.place;
            tall = subst (λ k. j < k) (sym (link_level-height new update i u h y e)) r.tall;
          };
    }

module _ (update : List Pointer) (x : ℕ) (front back : List Cell) (new : Cell) where
  -- One round above the first.
  Layout-link_level :
      (h : Store) (i : ℕ)
      → 0 < i
      → i < height h new.place
      → IsReadyAt h update x front back i
      → Layout h x (front ++ (new ∷ back))
      → Layout (link_level new.place update i h) x (front ++ (new ∷ back))
  Layout-link_level h i upper tall ready l =
      let u = ready.before in
      let p = next_of h u i in
      let whole = append_assoc front (new ∷ []) back in
      let h1 = set_next h new.place i p in
      let l1 : Layout h1 x (front ++ (new ∷ back)) = subst (Layout h1 x) whole (
        Layout-relink h x new.place i p (front ++ (new ∷ [])) back upper tall
          (inr (new, Memᴰ-append_right new front (new ∷ []) (Memᴰ.head refl), refl)) ready.targets
          (subst (Layout h x) (sym whole) l)) in
      let room = height-set_next h new.place i p in
      let l2 =
        Layout-relink h1 x u i (some new.place) front (new ∷ back) upper
          (subst (λ k. i < k) (sym (room u)) ready.tall) ready.among
          (λ y e.
            let same : new.place ≡ y = cc e in
            record {
              cell = new;
              member = Memᴰ.head refl;
              place = same;
              tall =
                  subst (λ z. i < height h1 z) same
                    (subst (λ k. i < k) (sym (room new.place)) tall);
            })
          l1 in
      rw (link_level_at new.place update i u h ready.stored) l2

  -- The rounds from `i` on.
  Layout-link :
      (rounds i : ℕ) (h : Store)
      → 0 < i
      → i + rounds ≤ height h new.place
      → ((j : ℕ) → i ≤ j → j < i + rounds → IsReadyAt h update x front back j)
      → Layout h x (front ++ (new ∷ back))
      → Layout (link new.place update rounds i h) x (front ++ (new ∷ back))
        × (length (link new.place update rounds i h) ≡ length h)
  unfolding link
  Layout-link zero i h upper tall ready l = (l, refl)
  Layout-link (suc rounds) i h upper tall ready l =
      let here = ready i (omega arith) (omega arith) in
      let stored = here.stored in
      let next = link_level new.place update i h in
      let room = link_level-height new.place update i here.before h new.place stored in
      let (rest, size) =
        Layout-link rounds (i + 1) next (omega arith) (omega (arith, room))
          (λ j low high.
            IsReadyAt-link_level new.place update i here.before h x front back j stored
              (omega arith) (ready j (omega arith) (omega arith)))
          (Layout-link_level h i upper (omega arith) here l) in
      (rest, size ∙ link_level-length new.place update i here.before h stored)

  -- All rounds, for a node that is new in the store.
  pub Layout-link-new :
      (rounds : ℕ) (h : Store)
      → IsLoose h new
      → suc rounds ≤ height h new.place
      → new.place ≢ x
      → Apart new.place (front ++ back)
      → ((j : ℕ) → j < suc rounds → IsReadyAt h update x front back j)
      → slot update 0 ≡ some (last_place x front)
      → last_place x front ≢ new.place
      → Layout h x (front ++ back)
      → Layout (link new.place update (suc rounds) 0 h) x (front ++ (new ∷ back))
        × (length (link new.place update (suc rounds) 0 h) ≡ length h)
  unfolding link
  Layout-link-new rounds h loose tall fresh_x fresh ready stored other l =
      let u = last_place x front in
      let bottom = Layout-link_bottom h u new loose other x front back fresh_x fresh refl l in
      let next = link_level new.place update 0 h in
      let bottom' : Layout next x (front ++ (new ∷ back)) =
        rw (link_level_at new.place update 0 u h stored) bottom in
      let room = link_level-height new.place update 0 u h new.place stored in
      let (rest, size) =
        Layout-link rounds 1 next (omega arith) (omega (arith, room))
          (λ j low high.
            IsReadyAt-link_level new.place update 0 u h x front back j stored (omega arith)
              (ready j (omega arith)))
          bottom' in
      (rest, size ∙ link_level-length new.place update 0 u h stored)
