-- ===== src/Skiplist/Fill.antt =====
-- A skip list from `New` on, over any records and any numbers that the generator gives.
use Prim.Native.Nat.{bit_and}
use mathlib.Core.Option.{some-injective}
use hypha_db.Base.{
  ℕ, zero, suc, ◌+◌, ◌-◌, ◌≤◌, ◌<◌, ◌≡◌, inl, inr, refl, sym, ap, ◌∙◌, subst, Bool-cases, none,
  some, List, [], ◌∷◌, length, replicate, ◌==◌, arith, length-replicate,
}
use hypha_db.Record.{Record}
use hypha_db.Skiplist.{
  SkipList, Node, no_record, new_list, new_with_max_level, raise_level, random_level, put, next_of,
  head, all_records,
}
use hypha_db.Skiplist.Store.{height, next_of_at, height_at, slot-replicate}
use hypha_db.Skiplist.Layout.{Cell, cell_records}
use hypha_db.Skiplist.Reference.{insert_record, count_keys}
use hypha_db.Skiplist.Insert.{IsSkipList}
use hypha_db.Skiplist.Put.{put-insert_record}
use hypha_db.Skiplist.Checked.{checked_put_all}
use hypha_db.Skiplist.Reads.{all_records-cell_records}

-- The level is at least 1, and at most the maximum.
raise_level-bounds :
    (rounds level : ℕ) (draws : List ℕ)
    → (level ≤ raise_level rounds level draws) × (raise_level rounds level draws ≤ level + rounds)
unfolding raise_level
raise_level-bounds zero level draws = (omega arith, omega arith)
raise_level-bounds (suc rounds) level [] = (omega arith, omega arith)
raise_level-bounds (suc rounds) level (draw ∷ draws) =
    let (low, high) = raise_level-bounds rounds (level + 1) draws in
    elim (Bool-cases (bit_and draw 1 == 0)) [
      | inl even ↦ rw even (omega (arith, low), omega (arith, high))
      | inr odd ↦ rw odd (omega arith, omega arith)
    ]

pub random_level-bounds :
    (s : SkipList) (draws : List ℕ)
    → 0 < s.max_level
    → (0 < random_level s draws) × (random_level s draws ≤ s.max_level)
random_level-bounds s draws some_level =
    let (low, high) = raise_level-bounds (s.max_level - 1) 1 draws in
    (omega (arith, low), omega (arith, high))

length-cell_records : (cells : List Cell) → length (cell_records cells) ≡ length cells
length-cell_records [] = refl
length-cell_records (c ∷ cs) = ap suc (length-cell_records cs)

-- Puts in their order, each with the numbers that its level is drawn from.
unfoldable pub put_all : List (List ℕ × Record) → SkipList → SkipList
put_all [] s = s
put_all ((draws, rec) ∷ puts) s = put_all puts (put (random_level s draws) rec s)

unfoldable pub insert_all : List (List ℕ × Record) → List Record → List Record
insert_all [] rs = rs
insert_all ((draws, rec) ∷ puts) rs = insert_all puts (insert_record rec rs)

pub new_list-IsSkipList : (n : ℕ) → IsSkipList (new_list n) []
unfolding new_list count_keys
new_list-IsSkipList n = record {
  layout = record {
    bottom = nothing 0;
    towers = λ i y p. absurd (cc (p, nothing i));
    tall = omega (arith, levels);
  };
  ascending = tt;
  size = refl;
  count = refl;
  keys = refl;
  room = levels;
  some_level = omega arith;
  level_fits = omega arith;
  flat = λ i above. nothing i;
}
  where
    first : Node
    first = record { key = []; item = no_record; next = replicate (suc n) none }

    nothing : (i : ℕ) → next_of (first ∷ []) head i ≡ none
    nothing i = next_of_at (first ∷ []) head first i refl ∙ slot-replicate (suc n) i

    levels : height (first ∷ []) head ≡ suc n
    levels = height_at (first ∷ []) head first refl ∙ length-replicate (suc n) none

new-IsSkipList :
    (max_level : ℕ) (s : SkipList) → new_with_max_level max_level ≡ some s → IsSkipList s []
unfolding new_with_max_level
new-IsSkipList zero s e = absurd (cc e)
new-IsSkipList (suc n) s e =
    subst (λ t. IsSkipList t []) (some-injective _ s e) (new_list-IsSkipList n)

-- The puts run, and the list is well formed and has the records of the ordered insertions.
pub put_all-IsSkipList :
    (puts : List (List ℕ × Record)) (s : SkipList) (cells : List Cell)
    → IsSkipList s cells
    → (checked_put_all puts s ≡ some (put_all puts s))
      × ((cells' : List Cell) × IsSkipList (put_all puts s) cells'
          × (cell_records cells' ≡ insert_all puts (cell_records cells)))
unfolding put_all insert_all checked_put_all
put_all-IsSkipList [] s cells inv = (refl, (cells, inv, refl))
put_all-IsSkipList ((draws, rec) ∷ puts) s cells inv =
    let low = inv.some_level in
    let fits = inv.level_fits in
    let (some_level, level_fits) = random_level-bounds s draws (omega (arith, low, fits)) in
    let (run, (cells1, inv1, records1, max1)) =
      put-insert_record s cells (random_level s draws) rec inv some_level level_fits in
    let (runs, (cells2, inv2, records2)) =
      put_all-IsSkipList puts (put (random_level s draws) rec s) cells1 inv1 in
    (rw (run, runs) refl, (cells2, inv2, records2 ∙ ap (insert_all puts) records1))

-- Any puts into a new list run without a panic, whatever levels are drawn; afterwards `Records`
-- gives the ordered insertion of all of them, `Len` the number of their keys, and the list's count
-- is the number of its records.
pub all_records-put_all :
    (max_level : ℕ) (s : SkipList) (puts : List (List ℕ × Record))
    → new_with_max_level max_level ≡ some s
    → (checked_put_all puts s ≡ some (put_all puts s))
      × (all_records (put_all puts s) ≡ insert_all puts [])
      × ((put_all puts s).key_count ≡ count_keys (insert_all puts []))
      × ((put_all puts s).count ≡ length (insert_all puts []))
all_records-put_all max_level s puts e =
    let inv = new-IsSkipList max_level s e in
    let (runs, (cells, inv', records)) = put_all-IsSkipList puts s [] inv in
    (
      runs,
      all_records-cell_records (put_all puts s) cells inv' ∙ records,
      inv'.keys ∙ ap count_keys records,
      inv'.count ∙ (sym (length-cell_records cells) ∙ ap (λ l. length l) records),
    )
