-- ===== src/Compaction/Merge/Merged.antt =====
-- The order in which compaction.go's loop takes the records: all of them, in the order of a table.
use hypha_db.Base.{
  ℕ, zero, suc, ◌+◌, ◌<◌, ◌≡◌, ◌↔◌, refl, sym, subst, List, [], ◌∷◌, length, arith, All, All-map,
  All-of-get_elem?, Result, ok, err, ok-injective, >>=-elim, ◌>>=◌, ℕ_discrete,
}
use hypha_db.Record.{Record}
use hypha_db.Compaction.Merge.{
  HeapItem, Source, MergeError, MergeOptions, MergeState, pop_least, push_next, merge_loop,
  retain_step, total_records, out_of_fuel,
}
use hypha_db.Compaction.Merge.Retention.{retain_all}
use hypha_db.Compaction.Merge.Order.{
  Precedes, InOrder, Precedes-trans, pop_least-Precedes, pop_least-All, length-pop_least,
}
use hypha_db.Compaction.Merge.Steps.{AllPending, Guards, AreSound, Pushed, push_next-Pushed}

-- The loop without what it keeps: the records in the order in which they are popped.
unfoldable pub pop_order : ℕ → List HeapItem → List Source → Result MergeError (List Record)
pop_order zero h iters = err out_of_fuel
pop_order (suc fuel) [] iters = ok []
pop_order (suc fuel) (x ∷ xs) iters = do
  let (popped, others) = pop_least x xs
  (h1, iters1) ← push_next popped.sstable_index others iters
  rs ← pop_order fuel h1 iters1
  ok (popped.item ∷ rs)

-- The loop keeps what `retainedVisible` keeps of the popped records.
pub merge_loop-pop_order :
    (fuel : ℕ) (options : MergeOptions) (st : MergeState) (h : List HeapItem) (iters : List Source)
    (rs : List Record)
    → pop_order fuel h iters ≡ ok rs
    → merge_loop fuel options st h iters ≡ ok (retain_all options st rs).output
unfolding pop_order merge_loop retain_all
merge_loop-pop_order zero options st h iters rs e = absurd (cc e)
merge_loop-pop_order (suc fuel) options st [] iters rs e =
    subst
      (λ x.
        ◌≡◌ {A = Result MergeError (List Record)} (ok st.output)
          (ok (retain_all options st x).output))
      (ok-injective e) refl
merge_loop-pop_order (suc fuel) options st (x ∷ xs) iters rs e =
    let popped = (pop_least x xs).0 in
    >>=-elim (push_next popped.sstable_index (pop_least x xs).1 iters) _ e λ next pushed e1.
      >>=-elim (pop_order fuel next.0 next.1) _ e1 λ rest popped_rest e2.
        let later =
          merge_loop-pop_order fuel options (retain_step options popped.item st) next.0 next.1 rest
            popped_rest in
        subst
          (λ l.
            merge_loop (suc fuel) options st (x ∷ xs) iters ≡ ok (retain_all options st l).output)
          (ok-injective e2) (rw pushed later)

pub record Invariant (h : List HeapItem) (iters : List Source) : Type 1 where
  pub sound : AreSound iters
  pub indexed : All (λ i. i.sstable_index < length iters) h
  pub guarded : (k : ℕ) → Guards h iters k

-- After a pop and the advance of its iterator the invariant holds again.
pop_least-Invariant :
    (x : HeapItem) (xs : List HeapItem) (iters : List Source)
    → Invariant (x ∷ xs) iters
    → (next : Pushed (pop_least x xs).0.sstable_index (pop_least x xs).1 iters) × Invariant
        next.heap next.left
pop_least-Invariant x xs iters inv =
    let popped = (pop_least x xs).0 in
    let others = (pop_least x xs).1 in
    let inside = (pop_least-All (λ i. i.sstable_index < length iters) x xs).0 inv.indexed in
    let next = push_next-Pushed popped.sstable_index others iters inside.0 inv.sound in
    (
      next,
      record {
        sound = next.sound;
        indexed = next.indexed inside.1;
        guarded = λ k. elim (ℕ_discrete k popped.sstable_index) [
          | yes same ↦ subst (Guards next.heap next.left) (sym same) next.guards_index
          | no apart ↦ next.guards_other k apart (λ it Q found g. inv.guarded k it Q found (
              (pop_least-All (λ i. i.sstable_index ≡ k → (r : Record) → Precedes i.item r → Q r) x
                  xs).1
                (λ e. absurd (apart (sym e)), g)))
        ];
      },
    )

-- The popped record comes before all that is left.
pop_least-before :
    (x : HeapItem) (xs : List HeapItem) (iters : List Source)
    → Invariant (x ∷ xs) iters
    → AllPending (Precedes (pop_least x xs).0.item) (pop_least x xs).1 iters
pop_least-before x xs iters inv =
    let popped = (pop_least x xs).0.item in
    let before = (pop_least-Precedes x xs).1 in
    (
      before,
      All-of-get_elem? _ iters (λ k it found. inv.guarded k it (Precedes popped) found (
          (pop_least-All
              (λ i. i.sstable_index ≡ k → (r : Record) → Precedes i.item r → Precedes popped r) x
              xs).1
            (
              λ e r after. after,
              All-map _ _ (λ i first e r after. Precedes-trans popped i.item r first after)
                  (pop_least x xs).1 before,
            ))),
    )

-- What the loop pops, with enough fuel.
pub record Popped (fuel : ℕ) (h : List HeapItem) (iters : List Source) : Type 1 where
  pub result : List Record
  pub run : pop_order fuel h iters ≡ ok result
  pub in_order : InOrder result
  pub same_pending : (P : Record → Type 0) → AllPending P h iters ↔ All P result

pub pop_order-Popped :
    (fuel : ℕ) (h : List HeapItem) (iters : List Source)
    → length h + total_records iters < fuel
    → Invariant h iters
    → Popped fuel h iters
unfolding pop_order
pop_order-Popped zero h iters enough inv = absurd (omega arith)
pop_order-Popped (suc fuel) [] iters enough inv = record {
  result = [];
  run = refl;
  in_order = tt;
  same_pending = λ P.
      (λ a. tt, λ b. (tt, All-of-get_elem? _ iters (λ k it found. inv.guarded k it P found tt)));
}
pop_order-Popped (suc fuel) (x ∷ xs) iters enough inv =
    let popped = (pop_least x xs).0.item in
    let (next, inv') = pop_least-Invariant x xs iters inv in
    let enough' : length next.heap + total_records next.left < fuel =
      omega (arith, next.same_count, length-pop_least x xs) in
    let rest = pop_order-Popped fuel next.heap next.left enough' inv' in
    let before = (next.same_pending (Precedes popped)).0 (pop_least-before x xs iters inv) in
    record {
      result = popped ∷ rest.result;
      run = rw (next.run, rest.run) refl;
      in_order = ((rest.same_pending (Precedes popped)).0 before, rest.in_order);
      same_pending = λ P. (
        λ a.
            let split = (pop_least-All (λ i. P i.item) x xs).0 a.0 in
            (split.0, (rest.same_pending P).0 ((next.same_pending P).0 (split.1, a.1))),
        λ b.
            let left = (next.same_pending P).1 ((rest.same_pending P).1 b.1) in
            ((pop_least-All (λ i. P i.item) x xs).1 (b.0, left.0), left.1),
      );
    }
