-- ===== src/Skiplist/Order.antt =====
-- The order of skiplist.go's `less`: keys go up, and the versions of a key strictly down.
use hypha_db.Base.{
  ◌≤◌, ◌≡◌, inl, inr, sym, subst, true, false, Bool-cases, List, [], ◌∷◌, ◌++◌, ltb, arith, All,
  All-map,
}
use hypha_db.Base.Text.{
  text_eq, text_lt, text_eq_refl, text_eq→eq, text_lt_irrefl, text_lt_asymm, text_lt_trans,
  text_lt-total,
}
use hypha_db.Record.{Record}
use hypha_db.Compaction.Merge.Order.{Precedes, InOrder}
use hypha_db.Skiplist.{less}
use hypha_db.Skiplist.Layout.{Cell, cell_records}

-- What `less` says: a smaller key, or the same key and a newer version.
pub less_cases {ℓ} :
    {P : Type ℓ} (a b : Record)
    → less a b ≡ true
    → (text_eq a.key b.key ≡ false → text_lt a.key b.key ≡ true → P)
    → (text_eq a.key b.key ≡ true → ltb b.seq a.seq ≡ true → P)
    → P
unfolding less
less_cases a b h apart same = elim (Bool-cases (text_eq a.key b.key)) [
  | inl e ↦ same e (rw e at h)
  | inr e ↦ apart e (rw e at h)
]

pub less_key : (a b : Record) → text_lt a.key b.key ≡ true → less a b ≡ true
unfolding less
less_key a b h = elim (Bool-cases (text_eq a.key b.key)) [
  | inl e ↦ absurd (
      cc
        (h, subst (λ k. text_lt a.key k ≡ false) (text_eq→eq a.key b.key e) (text_lt_irrefl a.key)))
  | inr e ↦ rw e h
]

pub less_version :
    (a b : Record) → text_eq a.key b.key ≡ true → ltb b.seq a.seq ≡ true → less a b ≡ true
unfolding less
less_version a b e h = rw e h

pub less_trans : (a b c : Record) → less a b ≡ true → less b c ≡ true → less a c ≡ true
less_trans a b c p q =
    less_cases a b p
      (λ ab low.
        less_cases b c q (λ bc high. less_key a c (text_lt_trans a.key b.key c.key low high))
          (λ bc newer.
            less_key a c (subst (λ k. text_lt a.key k ≡ true) (text_eq→eq b.key c.key bc) low)))
      (λ ab newer.
        less_cases b c q
          (λ bc high.
            less_key a c
              (subst (λ k. text_lt k c.key ≡ true) (sym (text_eq→eq a.key b.key ab)) high))
          (λ bc older.
            less_version a c
              (subst (λ k. text_eq k c.key ≡ true) (sym (text_eq→eq a.key b.key ab)) bc)
              (ground arith)))

pub less_irrefl : (a : Record) → less a a ≡ false
unfolding less
less_irrefl a = rw (text_eq_refl a.key) (ground arith)

pub less_asymm : (a b : Record) → less a b ≡ true → less b a ≡ false
less_asymm a b p = elim (Bool-cases (less b a)) [
  | inl back ↦ absurd (cc (less_trans a b a p back, less_irrefl a))
  | inr not_back ↦ not_back
]

not_less_version : (a b : Record) → text_eq a.key b.key ≡ true → less a b ≡ false → a.seq ≤ b.seq
unfolding less
not_less_version a b e h = let h' = rw e at h in ground (arith, h')

-- Neither is less: the same key and the same sequence number.
pub less-total :
    (a b : Record)
    → less a b ≡ false
    → less b a ≡ false
    → (text_eq a.key b.key ≡ true) × (a.seq ≡ b.seq)
less-total a b p q = elim (Bool-cases (text_lt a.key b.key)) [
  | inl low ↦ absurd (cc (p, less_key a b low))
  | inr not_low ↦ elim (Bool-cases (text_lt b.key a.key)) [
    | inl high ↦ absurd (cc (q, less_key b a high))
    | inr not_high ↦
        let same = text_lt-total a.key b.key not_low not_high in
        let back : text_eq b.key a.key ≡ true =
          subst (λ k. text_eq k a.key ≡ true) (text_eq→eq a.key b.key same) (text_eq_refl a.key) in
        let not_newer = not_less_version a b same p in
        let not_older = not_less_version b a back q in (same, omega (arith, not_newer, not_older))
  ]
]

pub less-Precedes : (a b : Record) → less a b ≡ true → Precedes a b
less-Precedes a b h =
    less_cases a b h
      (λ apart low. record {
        keys = text_lt_asymm a.key b.key low;
        versions = λ e. absurd (cc (e, apart));
      })
      (λ same newer. record {
        keys =
            subst (λ k. text_lt k a.key ≡ false) (text_eq→eq a.key b.key same)
              (text_lt_irrefl a.key);
        versions = λ e. ground arith;
      })

abbrev pub IsAscending : List Cell → Type 0
IsAscending [] = Unit
IsAscending (c ∷ cs) = All (λ d. less c.rec d.rec ≡ true) cs × IsAscending cs

pub All-cell_records {κ} :
    (P : Record → Type κ) (cells : List Cell)
    → All (λ c. P c.rec) cells
    → All P (cell_records cells)
All-cell_records P [] h = tt
All-cell_records P (c ∷ cs) h = (h.0, All-cell_records P cs h.1)

-- A list in this order is in the order of a table.
pub IsAscending-InOrder : (cells : List Cell) → IsAscending cells → InOrder (cell_records cells)
IsAscending-InOrder [] h = tt
IsAscending-InOrder (c ∷ cs) (first, rest) = (
  All-cell_records (Precedes c.rec) cs (All-map _ _ (λ d. less-Precedes c.rec d.rec) cs first),
  IsAscending-InOrder cs rest,
)

pub IsAscending-split :
    (front : List Cell) (c : Cell) (back : List Cell)
    → IsAscending (front ++ (c ∷ back))
    → All (λ d. less d.rec c.rec ≡ true) front
IsAscending-split [] c back h = tt
IsAscending-split (d ∷ front) c back (first, rest) =
    (after d front c back first, IsAscending-split front c back rest)
  where
    after :
        (d : Cell) (front : List Cell) (c : Cell) (back : List Cell)
        → All (λ e. less d.rec e.rec ≡ true) (front ++ (c ∷ back))
        → less d.rec c.rec ≡ true
    after d [] c back h = h.0
    after d (e ∷ front) c back h = after d front c back h.1

pub IsAscending-back : (front back : List Cell) → IsAscending (front ++ back) → IsAscending back
IsAscending-back [] back h = h
IsAscending-back (d ∷ front) back h = IsAscending-back front back h.1
