-- ===== src/Compaction/Merge/Steps.antt =====
-- One round of compaction.go's loop: what the heap and the iterators have left.
use mathlib.Core.Option.{some-injective}
use hypha_db.Base.{
  ℕ, zero, suc, ◌+◌, ◌<◌, ◌≡◌, ◌≢◌, ◌↔◌, inl, inr, refl, sym, ap, ◌∙◌, subst, false, some, List, [],
  ◌∷◌, length, length-set, get_elem?, get_elem?-lt, get_elem?-set_self, get_elem?-set_ne, set,
  arith, All, All-map, All-set, All-of-set, All-get_elem?, ok, List-cases,
}
use hypha_db.Record.{Record}
use hypha_db.Compaction.Merge.{HeapItem, Source, push_next, total_records}
use hypha_db.Compaction.Merge.Order.{Precedes, InOrder}

-- The predicate holds of every record that has not been popped.
abbrev pub AllPending : (Record → Type 0) → List HeapItem → List Source → Type 0
AllPending P h iters = All (λ i. P i.item) h × All (λ s. All P s.records) iters

-- What holds of every record after the heap's item of table `k` holds of all that its iterator has
-- left; without such an item it has nothing left.
abbrev pub Guards : List HeapItem → List Source → ℕ → Type 1
Guards h iters k =
    (it : Source) (Q : Record → Type 0)
    → get_elem? iters k ≡ some it
    → All (λ i. i.sstable_index ≡ k → (r : Record) → Precedes i.item r → Q r) h
    → All Q it.records

-- Iterators that do not fail, over tables in order.
pub record AreSound (iters : List Source) : Type 0 where
  pub no_failure : All (λ s. s.fails ≡ false) iters
  pub in_order : All (λ s. InOrder s.records) iters

total_records-set :
    (iters : List Source) (i : ℕ) (it : Source) (r : Record) (rs : List Record)
    → get_elem? iters i ≡ some it
    → it.records ≡ r ∷ rs
    → suc (total_records (set iters i (record it { records = rs }))) ≡ total_records iters
unfolding total_records
total_records-set [] i it r rs found h = absurd (cc found)
total_records-set (s ∷ ss) zero it r rs found h =
    let same : length s.records ≡ suc (length rs) =
      ap (λ x. length x.records) (some-injective s it found) ∙ ap length h in
    omega (arith, same)
total_records-set (s ∷ ss) (suc i) it r rs found h =
    omega (arith, total_records-set ss i it r rs found h)

-- What an advance of one iterator does.
pub record Pushed (index : ℕ) (h : List HeapItem) (iters : List Source) : Type 1 where
  pub heap : List HeapItem
  pub left : List Source
  pub run : push_next index h iters ≡ ok (heap, left)
  pub sound : AreSound left
  pub same_length : length left ≡ length iters
  pub same_count : length heap + total_records left ≡ length h + total_records iters
  pub same_pending : (P : Record → Type 0) → AllPending P h iters ↔ AllPending P heap left
  pub indexed :
      All (λ i. i.sstable_index < length iters) h → All (λ i. i.sstable_index < length left) heap
  pub guards_index : Guards heap left index
  pub guards_other : (k : ℕ) → k ≢ index → Guards h iters k → Guards heap left k

-- On sound iterators an advance succeeds.
pub push_next-Pushed :
    (index : ℕ) (h : List HeapItem) (iters : List Source)
    → index < length iters
    → AreSound iters
    → Pushed index h iters
unfolding push_next
push_next-Pushed index h iters inside sound =
    let (it, found) = get_elem?-lt iters index inside in
    let works = All-get_elem? _ iters index it sound.no_failure found in
    let ordered = All-get_elem? _ iters index it sound.in_order found in
    elim (List-cases it.records) [
      | inl empty ↦ record {
        heap = h;
        left = iters;
        run = rw (found, push_next, empty, works) refl;
        sound = sound;
        same_length = refl;
        same_count = refl;
        same_pending = λ P. (λ a. a, λ a. a);
        indexed = λ a. a;
        guards_index = λ other Q e g.
            let same = some-injective it other (sym found ∙ e) in
            let none_left : other.records ≡ [] = subst (λ x. x.records ≡ []) same empty in
            subst (All Q) (sym none_left) tt;
        guards_other = λ k apart g. g;
      }
      | inr (r, rs, full) ↦
          let it' : Source = record it { records = rs } in
          let left' = set iters index it' in
          let now : get_elem? left' index ≡ some it' =
            get_elem?-set_self iters index it it' found in
          let parts : InOrder (r ∷ rs) = subst InOrder full ordered in
          record {
            heap = record { item = r; sstable_index = index } ∷ h;
            left = set iters index it';
            run = rw (found, push_next, full) refl;
            sound = record {
              no_failure = All-set _ iters index it' sound.no_failure works;
              in_order = All-set _ iters index it' sound.in_order parts.1;
            };
            same_length = length-set iters index it';
            same_count = omega (arith, total_records-set iters index it r rs found full);
            same_pending = λ P. (
              λ a.
                  let here : All P (r ∷ rs) =
                    subst (All P) full (All-get_elem? _ iters index it a.1 found) in
                  ((here.0, a.0), All-set _ iters index it' a.1 here.1),
              λ b.
                  let here : All P rs =
                    All-get_elem? (λ s. All P s.records) left' index it' b.1 now in
                  (
                    b.0.1,
                    All-of-set _ iters index it it' found (subst (All P) (sym full) (b.0.0, here))
                        b.1,
                  ),
            );
            indexed = λ a.
                subst
                  (λ n.
                    All (λ i. i.sstable_index < n) (record { item = r; sstable_index = index } ∷ h))
                  (sym (length-set iters index it')) (inside, a);
            guards_index = λ other Q e g.
                let same = some-injective it' other (sym now ∙ e) in
                subst (λ x. All Q x.records) same (All-map _ _ (g.0 refl) rs parts.0);
            guards_other = λ k apart guard other Q e g.
                guard other Q (sym (get_elem?-set_ne iters index k it' (λ x. apart (sym x))) ∙ e)
                  g.1;
          }
    ]
