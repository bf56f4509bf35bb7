-- ===== src/Compaction/Merge/Order.antt =====
-- The order of records in a table, and the least item of heap.go's heap.
use hypha_db.Base.{
  suc, ◌≤◌, ◌≡◌, ◌↔◌, inl, inr, refl, sym, ap, ◌∙◌, subst, true, false, Bool-cases, List, [], ◌∷◌,
  length, arith, All,
}
use hypha_db.Base.Text.{
  text_eq, text_lt, text_eq_refl, text_eq→eq, text_lt_irrefl, text_lt_asymm, text_lt-total,
  text_le_trans, text_eq_apart,
}
use hypha_db.Record.{Record}
use hypha_db.Compaction.Merge.{HeapItem, less, pop_least}

-- Keys go up, and the versions of one key from newest to oldest.
pub record Precedes (a b : Record) : Type 0 where
  pub keys : text_lt b.key a.key ≡ false
  pub versions : text_eq a.key b.key ≡ true → b.seq ≤ a.seq

pub Precedes-trans : (a b c : Record) → Precedes a b → Precedes b c → Precedes a c
Precedes-trans a b c p q = record {
  keys = text_le_trans a.key b.key c.key p.keys q.keys;
  versions = λ same.
      let ac = text_eq→eq a.key c.key same in
      let back : text_lt a.key b.key ≡ false =
        subst (λ k. text_lt k b.key ≡ false) (sym ac) q.keys in
      let ab = text_lt-total a.key b.key back p.keys in
      let bc : text_eq b.key c.key ≡ true =
        subst (λ k. text_eq b.key k ≡ true) (sym (text_eq→eq a.key b.key ab) ∙ ac)
          (text_eq_refl b.key) in
      let first = p.versions ab in let second = q.versions bc in omega (arith, first, second);
}

abbrev pub InOrder : List Record → Type 0
InOrder [] = Unit
InOrder (r ∷ rs) = All (Precedes r) rs × InOrder rs

less-Precedes : (a b : HeapItem) → less a b ≡ true → Precedes a.item b.item
unfolding less
less-Precedes a b h = elim (Bool-cases (text_eq a.item.key b.item.key)) [
  | inl same ↦
      let name = text_eq→eq a.item.key b.item.key same in
      record {
        keys = subst (λ k. text_lt k a.item.key ≡ false) name (text_lt_irrefl a.item.key);
        versions = λ e. ground (arith, same);
      }
  | inr apart ↦
      let below : text_lt a.item.key b.item.key ≡ true = rw apart at h in
      record {
        keys = text_lt_asymm a.item.key b.item.key below;
        versions = λ e. absurd (cc (e, apart));
      }
]

not_less-Precedes : (a b : HeapItem) → less a b ≡ false → Precedes b.item a.item
unfolding less
not_less-Precedes a b h = elim (Bool-cases (text_eq a.item.key b.item.key)) [
  | inl same ↦
      let name = text_eq→eq a.item.key b.item.key same in
      record {
        keys = subst (λ k. text_lt a.item.key k ≡ false) name (text_lt_irrefl a.item.key);
        versions = λ e. ground (arith, same);
      }
  | inr apart ↦ record {
    keys = rw apart at h;
    versions = λ e. absurd (cc (e, text_eq_apart a.item.key b.item.key apart));
  }
]

-- The popped item comes before all others.
pub pop_least-Precedes :
    (best : HeapItem) (ys : List HeapItem)
    → Precedes (pop_least best ys).0.item best.item
      × All (λ i. Precedes (pop_least best ys).0.item i.item) (pop_least best ys).1
unfolding pop_least
pop_least-Precedes best [] =
    (record { keys = text_lt_irrefl best.item.key; versions = λ e. omega arith }, tt)
pop_least-Precedes best (y ∷ ys) = elim (Bool-cases (less y best)) [
  | inl lower ↦
      let rest = pop_least-Precedes y ys in
      let step = Precedes-trans _ _ _ rest.0 (less-Precedes y best lower) in
      rw lower (step, (step, rest.1))
  | inr higher ↦
      let rest = pop_least-Precedes best ys in
      let step = Precedes-trans _ _ _ rest.0 (not_less-Precedes y best higher) in
      rw higher (rest.0, (step, rest.1))
]

-- A pop takes one item out, and changes none.
pub pop_least-All :
    (P : HeapItem → Type 0) (best : HeapItem) (ys : List HeapItem)
    → (P best × All P ys) ↔ (P (pop_least best ys).0 × All P (pop_least best ys).1)
unfolding pop_least
pop_least-All P best [] = (λ h. h, λ h. h)
pop_least-All P best (y ∷ ys) = elim (Bool-cases (less y best)) [
  | inl lower ↦
      let rest = pop_least-All P y ys in
      rw lower (
        λ h. let r = rest.0 (h.1.0, h.1.1) in (r.0, (h.0, r.1)),
        λ h. let r = rest.1 (h.0, h.1.1) in (h.1.0, r),
      )
  | inr higher ↦
      let rest = pop_least-All P best ys in
      rw higher (
        λ h. let r = rest.0 (h.0, h.1.1) in (r.0, (h.1.0, r.1)),
        λ h. let r = rest.1 (h.0, h.1.1) in (r.0, (h.1.0, r.1)),
      )
]

pub length-pop_least :
    (best : HeapItem) (ys : List HeapItem) → length (pop_least best ys).1 ≡ length ys
unfolding pop_least
length-pop_least best [] = refl
length-pop_least best (y ∷ ys) = elim (Bool-cases (less y best)) [
  | inl lower ↦ rw lower (ap suc (length-pop_least y ys))
  | inr higher ↦ rw higher (ap suc (length-pop_least best ys))
]
