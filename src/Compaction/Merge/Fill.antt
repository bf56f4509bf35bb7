-- ===== src/Compaction/Merge/Fill.antt =====
-- The loop of compaction.go that opens the tables: afterwards the heap guards every iterator.
use hypha_db.Base.{
  ℕ, ◌+◌, ◌<◌, ◌≡◌, ◌↔◌, refl, sym, ◌∙◌, subst, false, List, [], ◌∷◌, length, get_elem?_inside,
  arith, All, ok, ℕ_discrete,
}
use hypha_db.Record.{Record}
use hypha_db.Compaction.Merge.{HeapItem, Source, fill, total_records}
use hypha_db.Compaction.Merge.Steps.{AllPending, Guards, AreSound, push_next-Pushed}
use hypha_db.Compaction.Merge.Merged.{Invariant}

pub record Filled (i : ℕ) (ssts : List Source) (h : List HeapItem) (iters : List Source)
    : Type 1 where
  pub heap : List HeapItem
  pub left : List Source
  pub run : fill i ssts h iters ≡ ok (heap, left)
  pub invariant : Invariant heap left
  pub same_count : length heap + total_records left ≡ length h + total_records iters
  pub same_pending : (P : Record → Type 0) → AllPending P h iters ↔ AllPending P heap left

pub fill-Filled :
    (i : ℕ) (ssts : List Source) (h : List HeapItem) (iters : List Source)
    → i + length ssts ≡ length iters
    → All (λ s. s.cannot_open ≡ false) ssts
    → AreSound iters
    → All (λ x. x.sstable_index < length iters) h
    → ((k : ℕ) → k < i → Guards h iters k)
    → Filled i ssts h iters
unfolding fill
fill-Filled i [] h iters size opens sound indexed guards = record {
  heap = h;
  left = iters;
  run = refl;
  invariant = record {
    sound = sound;
    indexed = indexed;
    guarded = λ k it Q found g.
        let inside = get_elem?_inside iters k it found in
        guards k (omega (arith, size, inside)) it Q found g;
  };
  same_count = refl;
  same_pending = λ P. (λ a. a, λ a. a);
}
fill-Filled i (s ∷ ss) h iters size opens sound indexed guards =
    let next = push_next-Pushed i h iters (omega (arith, size)) sound in
    let guards' : (k : ℕ) → k < i + 1 → Guards next.heap next.left k = λ k below.
      elim (ℕ_discrete k i) [
        | yes same ↦ subst (Guards next.heap next.left) (sym same) next.guards_index
        | no apart ↦ next.guards_other k apart (guards k (grind arith))
      ] in
    let rest =
      fill-Filled (i + 1) ss next.heap next.left (omega (arith, size, next.same_length)) opens.1
        next.sound (next.indexed indexed) guards' in
    record {
      heap = rest.heap;
      left = rest.left;
      run = rw (opens.0, next.run) rest.run;
      invariant = rest.invariant;
      same_count = rest.same_count ∙ next.same_count;
      same_pending = λ P. (
        λ a. (rest.same_pending P).0 ((next.same_pending P).0 a),
        λ b. (next.same_pending P).1 ((rest.same_pending P).1 b),
      );
    }
