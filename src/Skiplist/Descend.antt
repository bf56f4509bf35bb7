-- ===== src/Skiplist/Descend.antt =====
-- The loop of skiplist.go over the levels: the split of the list that it finds.
use mathlib.Core.List.{Memᴰ}
use hypha_db.Base.{
  ℕ, zero, suc, ◌≤◌, ◌<◌, ◌≡◌, inl, inr, refl, sym, ap, ◌∙◌, subst, Bool, true, false, some, List,
  [], ◌∷◌, ◌++◌, length, set, arith, All, All-map, length-append, length-set, ℕ_discrete,
}
use hypha_db.Record.{Record}
use hypha_db.Skiplist.{Pointer, Node, Store, slot, next_of, walk, descend}
use hypha_db.Skiplist.Store.{height, Holds-unique, slot-set_self, slot-set_ne}
use hypha_db.Skiplist.Layout.{Cell, Layout, IsAmong, Targets}
use hypha_db.Skiplist.Order.{IsAscending, IsAscending-back}
use hypha_db.Skiplist.Walk.{Cuts, StandsAt, Stops, walk-Stops, All-Memᴰ_not, Memᴰ-back}

-- What the loop from level `levels` down leaves in `x` and `update`.
pub record Descent (h : Store) (on : Record → Bool) (origin : ℕ) (cells : List Cell) (levels : ℕ)
    (update : List Pointer) (r : ℕ × List Pointer) : Type 0 where
  pub stands : StandsAt h on origin cells r.0
  pub bottom : 0 < levels → Stops h on origin cells 0 r.0
  pub first : 0 < levels → 0 < length update → slot r.1 0 ≡ some r.0
  pub stored :
      (j : ℕ)
      → j < levels
      → j < length update
      → (u : ℕ) × (slot r.1 j ≡ some u) × Stops h on origin cells j u
  pub above : (j : ℕ) → levels ≤ j → slot r.1 j ≡ slot update j
  pub size : length r.1 ≡ length update

module _ (h : Store) (test : Node → Bool) (on : Record → Bool) (cuts : Cuts test on) (origin : ℕ)
    (cells : List Cell) (ordered : IsAscending cells) where
  pub descend-Descent :
      (fuel levels x : ℕ) (update : List Pointer)
      → length cells < fuel
      → levels ≤ height h x
      → StandsAt h on origin cells x
      → Descent h on origin cells levels update (descend h test fuel levels x update)
  unfolding descend
  descend-Descent fuel zero x update low tall at = record {
    stands = at;
    bottom = λ none_left. absurd (omega arith);
    first = λ none_left. absurd (omega arith);
    stored = λ j none_left. absurd (omega arith);
    above = λ j high. refl;
    size = refl;
  }
  descend-Descent fuel (suc i) x update low tall at =
      let all_left : length cells ≡ length (at.front ++ at.back) = ap (λ l. length l) at.whole in
      let (at', stops) =
        walk-Stops h test on cuts origin cells ordered i fuel x at
          (omega (arith, all_left, length-append at.front at.back)) (omega arith) in
      let y = walk h test i fuel x in
      let room : i < height h y = stops.tall in
      let rest = descend-Descent fuel i y (set update i (some y)) low (omega arith) at' in
      let same_size = length-set update i (some y) in
      let here : i < length update
          → slot (descend h test fuel i y (set update i (some y))).1 i ≡ some y =
        λ within. rest.above i (omega arith) ∙ slot-set_self update i (some y) within in
      record {
        stands = rest.stands;
        bottom = λ some_left. elim (ℕ_discrete i 0) [
          | no higher ↦ rest.bottom (omega arith)
          | yes lowest ↦ last_stops i y (set update i (some y)) lowest stops
        ];
        first = λ some_left within. elim (ℕ_discrete i 0) [
          | no higher ↦ rest.first (omega arith) (omega arith)
          | yes lowest ↦
              last_first i y (set update i (some y)) lowest
                (slot-set_self update i (some y) (omega arith))
        ];
        stored = λ j below within. elim (ℕ_discrete j i) [
          | no lower ↦ rest.stored j (omega arith) (omega arith)
          | yes same ↦
              subst
                (λ k.
                  (u : ℕ) × (slot (descend h test fuel i y (set update i (some y))).1 k ≡ some u)
                  × Stops h on origin cells k u)
                (sym same) (y, here (subst (λ k. k < length update) same within), stops)
        ];
        above = λ j high.
            rest.above j (omega arith) ∙ slot-set_ne update i j (some y) (λ e. omega arith);
        size = rest.size ∙ same_size;
      }
    where
      last_stops :
          (i y : ℕ) (update : List Pointer)
          → i ≡ 0
          → Stops h on origin cells i y
          → Stops h on origin cells 0 (descend h test fuel i y update).0
      last_stops zero y update e s = s
      last_stops (suc i) y update e s = absurd (omega arith)

      last_first :
          (i y : ℕ) (update : List Pointer)
          → i ≡ 0
          → slot update i ≡ some y
          → slot (descend h test fuel i y update).1 0 ≡ some (descend h test fuel i y update).0
      last_first zero y update e s = s
      last_first (suc i) y update e s = absurd (omega arith)

  -- At the bottom, the rest of the list fails the test.
  first_fails :
      (x : ℕ) (back : List Cell)
      → Stops h on origin cells 0 x
      → Layout h x back
      → IsAscending back
      → All (λ c. ¬ (on c.rec ≡ true)) back
  first_fails x [] stops l asc = tt
  first_fails x (c ∷ back) stops (points, distinct, held, rest) (first, asc) =
      let (r, fails, known) = stops.beyond c.place points.bottom in
      let same = Holds-unique h c.place r.cell.rec c.rec known held in
      let c_fails : ¬ (on c.rec ≡ true) = λ e. cc (subst (λ k. on k ≡ false) same fails, e) in
      (c_fails, All-map _ _ (λ d after e. c_fails (cuts.down c.rec d.rec after e)) back first)

  pub behind :
      (x : ℕ) (at : StandsAt h on origin cells x)
      → Stops h on origin cells 0 x
      → All (λ c. ¬ (on c.rec ≡ true)) at.back
  behind x at stops =
      first_fails x at.back stops at.layout
        (IsAscending-back at.front at.back (subst IsAscending at.whole ordered))

  -- Where a level's walk has stopped is before the split, and its next node is behind it.
  pub stop_IsAmong :
      (x : ℕ) (at : StandsAt h on origin cells x) (j u : ℕ)
      → All (λ c. ¬ (on c.rec ≡ true)) at.back
      → Stops h on origin cells j u
      → IsAmong u origin at.front
  stop_IsAmong x at j u none_behind stops = elim stops.passed [
    | inl first ↦ inl first
    | inr (c, m, place, pass) ↦ inr (
      c,
      All-Memᴰ_not (λ d. on d.rec ≡ true) at.front at.back c none_behind pass
          (subst (λ l. Memᴰ c l) at.whole m),
      place,
    )
  ]

  pub stop_Targets :
      (x : ℕ) (at : StandsAt h on origin cells x) (j u : ℕ)
      → Stops h on origin cells j u
      → Targets h j (next_of h u j) at.back
  stop_Targets x at j u stops y e =
      let (r, fails, held) = stops.beyond y e in
      record {
        cell = r.cell;
        member =
            Memᴰ-back (λ d. on d.rec ≡ true) at.front at.back r.cell at.passed
              (λ pass. cc (pass, fails)) (subst (λ l. Memᴰ r.cell l) at.whole r.member);
        place = r.place;
        tall = r.tall;
      }
