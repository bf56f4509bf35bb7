-- ===== src/Compaction/Merge.antt =====
-- internal/compaction/compaction.go and heap.go: the merge of tables, and the versions it keeps.
pub mod Retention
pub mod Latest
pub mod Order
pub mod Steps
pub mod Merged
pub mod Fill
pub mod Newest
pub mod Visible
mod Runs
use hypha_db.Base.{
  ℕ, zero, suc, ◌+◌, Bool, true, false, not, ◌&&◌, ◌||◌, Option, none, some, List, [], ◌∷◌, ◌++◌,
  length, get_elem?, set, ltb, leb, ◌==◌, if◌then◌else◌, Result, ok, err, fail_if, ◌>>=◌, ◌>>◌,
}
use hypha_db.Base.Text.{Text, text_eq, text_lt}
use hypha_db.Record.{Record}

pub record HeapItem : Type 0 where
  pub item : Record
  pub sstable_index : ℕ

-- `MinHeap.Less`
unfoldable pub less : HeapItem → HeapItem → Bool
less a b =
    if not (text_eq a.item.key b.item.key)
    then text_lt a.item.key b.item.key
    else if not (a.item.seq == b.item.seq)
    then ltb b.item.seq a.item.seq
    else ltb b.sstable_index a.sstable_index

-- `heap.Pop` of Go's library: the least item, and the others.
unfoldable pub pop_least : HeapItem → List HeapItem → HeapItem × List HeapItem
pop_least best [] = (best, [])
pop_least best (y ∷ ys) =
    let replaced = pop_least y ys in
    let kept = pop_least best ys in
    if less y best then (replaced.0, best ∷ replaced.1) else (kept.0, y ∷ kept.1)

-- A table, as its iterator sees it: the records that `Next` has left to return, whether it fails
-- after them, and whether the iterator cannot be opened.
pub record Source : Type 0 where
  pub records : List Record
  pub fails : Bool
  pub cannot_open : Bool

pub data MergeError : Type 0 where
  open_failed iterator_failed no_iterator out_of_fuel : MergeError

-- `iters[index].Next()`, the push of the record it returns, and the test of `Err`.
unfoldable pub push_next :
    ℕ → List HeapItem → List Source → Result MergeError (List HeapItem × List Source)
push_next index h iters = elim (get_elem? iters index) [
  | none ↦ err no_iterator
  | some it ↦ elim it.records [
    | [] ↦ if it.fails then err iterator_failed else ok (h, iters)
    | r ∷ rs ↦ ok (
      record { item = r; sstable_index = index } ∷ h,
      set iters index (record it { records = rs }),
    )
  ]
]

-- The loop that opens the iterators, from table `i` on.
unfoldable pub fill :
    ℕ → List Source → List HeapItem → List Source → Result MergeError (List HeapItem × List Source)
fill i [] h iters = ok (h, iters)
fill i (sst ∷ ssts) h iters = do
  fail_if sst.cannot_open open_failed
  (h1, iters1) ← push_next i h iters
  fill (i + 1) ssts h1 iters1

-- `MergeOptions`, less the options for the writer.
pub record MergeOptions : Type 0 where
  pub oldest_reader : Option ℕ
  pub drop_tombstones : Bool

pub record MergeState : Type 0 where
  pub output : List Record
  pub last_key : Text
  pub first_key : Bool
  pub retained_visible : Bool

-- `keep`, and `retainedVisible` after it.
unfoldable pub decide : MergeOptions → Record → Bool → Bool × Bool
decide options r retained = elim options.oldest_reader [
  | none ↦ if retained then (false, true) else (not r.deleted || not options.drop_tombstones, true)
  | some oldest ↦ if ltb oldest r.seq then (true, retained) else (not retained, true)
]

-- `retainedVisible` once the record's key has been compared with the last.
unfoldable pub carried : Record → MergeState → Bool
carried r st =
    if st.first_key || not (text_eq r.key st.last_key) then false else st.retained_visible

-- The body of the loop up to the next pop, for the popped record.
unfoldable pub retain_step : MergeOptions → Record → MergeState → MergeState
retain_step options r st = record {
  output = if (decide options r (carried r st)).0 then st.output ++ (r ∷ []) else st.output;
  last_key = r.key;
  first_key = false;
  retained_visible = (decide options r (carried r st)).1;
}

-- The loop `for h.Len() > 0`, with fuel.
unfoldable pub merge_loop :
    ℕ → MergeOptions → MergeState → List HeapItem → List Source → Result MergeError (List Record)
merge_loop zero options st h iters = err out_of_fuel
merge_loop (suc fuel) options st [] iters = ok st.output
merge_loop (suc fuel) options st (x ∷ xs) iters = do
  let (popped, others) = pop_least x xs
  (h1, iters1) ← push_next popped.sstable_index others iters
  merge_loop fuel options (retain_step options popped.item st) h1 iters1

abbrev pub start : MergeState
start = record { output = []; last_key = []; first_key = true; retained_visible = false }

unfoldable pub total_records : List Source → ℕ
total_records [] = 0
total_records (it ∷ its) = length it.records + total_records its

-- `MergeSSTablesWithOptions`, up to the write of its output: a round takes one record.
unfoldable pub merge_sstables : MergeOptions → List Source → Result MergeError (List Record)
merge_sstables options ssts = do
  (h, iters) ← fill 0 ssts [] ssts
  merge_loop (total_records ssts + 1) options start h iters
