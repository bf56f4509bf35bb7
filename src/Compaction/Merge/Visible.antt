-- ===== src/Compaction/Merge/Visible.antt =====
-- What a merge of compaction.go gives: tables in order, in which readers see what they saw.
use hypha_db.Base.{
  ℕ, ◌+◌, ◌≤◌, ◌<◌, ◌≡◌, ◌↔◌, refl, sym, ap, ◌∙◌, subst, Bool, false, Bool-cases, inl, inr, Option,
  none, some, List, [], ◌∷◌, length, arith, All, All-map, ok,
}
use hypha_db.Base.Text.{Text}
use hypha_db.Record.{Record}
use hypha_db.Compaction.Merge.{
  Source, MergeOptions, MergeState, decide, carried, retain_step, merge_sstables, start,
  total_records,
}
use hypha_db.Compaction.Merge.Retention.{find_visible, kept, retain_all-kept, kept-find_visible}
use hypha_db.Compaction.Merge.Latest.{find_live, live, kept-find_live, KeysAscend}
use hypha_db.Compaction.Merge.Order.{Precedes, InOrder}
use hypha_db.Compaction.Merge.Steps.{AreSound}
use hypha_db.Compaction.Merge.Merged.{merge_loop-pop_order, pop_order-Popped}
use hypha_db.Compaction.Merge.Fill.{fill-Filled}
use hypha_db.Compaction.Merge.Newest.{IsNewest, find_visible-IsNewest}

-- What is kept is part of what was popped.
kept-All :
    (P : Record → Type 0) (options : MergeOptions) (st : MergeState) (rs : List Record)
    → All P rs
    → All P (kept options st rs)
unfolding kept
kept-All P options st [] h = tt
kept-All P options st (r ∷ rs) h =
    let rest = kept-All P options (retain_step options r st) rs h.1 in
    elim (Bool-cases (decide options r (carried r st)).0) [
      | inl keep ↦ rw keep (h.0, rest)
      | inr skip ↦ rw skip rest
    ]

kept-InOrder :
    (options : MergeOptions) (st : MergeState) (rs : List Record)
    → InOrder rs
    → InOrder (kept options st rs)
unfolding kept
kept-InOrder options st [] h = tt
kept-InOrder options st (r ∷ rs) h =
    let next = retain_step options r st in
    let rest = kept-InOrder options next rs h.1 in
    elim (Bool-cases (decide options r (carried r st)).0) [
      | inl keep ↦ rw keep (kept-All (Precedes r) options next rs h.0, rest)
      | inr skip ↦ rw skip rest
    ]

InOrder-KeysAscend : (rs : List Record) → InOrder rs → KeysAscend rs
InOrder-KeysAscend [] h = tt
InOrder-KeysAscend (r ∷ rs) h =
    (All-map _ _ (λ x after. after.keys) rs h.0, InOrder-KeysAscend rs h.1)

-- Tables that can be opened and read, each in order.
pub record AreReadable (ssts : List Source) : Type 0 where
  pub opens : All (λ s. s.cannot_open ≡ false) ssts
  pub sound : AreSound ssts

-- A finished merge: its output is what is kept of all records of the tables, taken in order.
record Merged (options : MergeOptions) (ssts : List Source) : Type 1 where
  pub popped : List Record
  pub run : merge_sstables options ssts ≡ ok (kept options start popped)
  pub in_order : InOrder popped
  pub same_records : (P : Record → Type 0) → All (λ s. All P s.records) ssts ↔ All P popped

merge_sstables-Merged :
    (options : MergeOptions) (ssts : List Source) → AreReadable ssts → Merged options ssts
unfolding merge_sstables
merge_sstables-Merged options ssts readable =
    let filled =
      fill-Filled 0 ssts [] ssts (omega arith) readable.opens readable.sound tt
        (λ k h. absurd (omega arith)) in
    let enough : length filled.heap + total_records filled.left < total_records ssts + 1 =
      omega (arith, filled.same_count) in
    let pops =
      pop_order-Popped (total_records ssts + 1) filled.heap filled.left enough filled.invariant in
    let merged =
      merge_loop-pop_order (total_records ssts + 1) options start filled.heap filled.left
        pops.result pops.run in
    record {
      popped = pops.result;
      run = rw filled.run (merged ∙ ap ok (retain_all-kept options start pops.result));
      in_order = pops.in_order;
      same_records = λ P. (
        λ a. (pops.same_pending P).0 ((filled.same_pending P).0 (tt, a)),
        λ b. ((filled.same_pending P).1 ((pops.same_pending P).1 b)).1,
      );
    }

-- A merge of readable tables with an active reader at `oldest` succeeds, and its output is in
-- order; every reader at or above `oldest` sees in it, for every key, the newest version in the
-- tables that is not newer than the reader, and nothing where the tables have none.
pub merge_sstables-IsNewest :
    (oldest : ℕ) (drop_tombstones : Bool) (ssts : List Source)
    → AreReadable ssts
    → (output : List Record) × (merge_sstables
          (record { oldest_reader = some oldest; drop_tombstones = drop_tombstones })
          ssts
        ≡ ok output)
      × InOrder output
      × ((key : Text) (seq : ℕ)
          → oldest ≤ seq
          → IsNewest key seq ssts (find_visible key seq output))
merge_sstables-IsNewest oldest drop ssts readable =
    let options : MergeOptions = record { oldest_reader = some oldest; drop_tombstones = drop } in
    let m = merge_sstables-Merged options ssts readable in
    (
      kept options start m.popped,
      m.run,
      kept-InOrder options start m.popped m.in_order,
      λ key seq reads.
          subst (IsNewest key seq ssts)
            (sym (kept-find_visible oldest drop key seq reads start m.popped refl))
            (find_visible-IsNewest key seq ssts m.popped m.in_order m.same_records),
    )

-- A merge of readable tables without a reader succeeds, and its output is in order; for every key,
-- the live value in it is that of the newest version in the tables, if no record of theirs is newer
-- than `seq`: a tombstone may be gone, but no older version comes back for it.
pub merge_sstables-live :
    (drop_tombstones : Bool) (seq : ℕ) (ssts : List Source)
    → AreReadable ssts
    → All (λ s. All (λ r. r.seq ≤ seq) s.records) ssts
    → (output : List Record) × (merge_sstables
          (record { oldest_reader = none; drop_tombstones = drop_tombstones })
          ssts
        ≡ ok output)
      × InOrder output
      × ((key : Text)
          → (newest : Option Record) × IsNewest key seq ssts newest
            × (find_live key seq output ≡ live newest))
unfolding find_live
merge_sstables-live drop seq ssts readable old =
    let options : MergeOptions = record { oldest_reader = none; drop_tombstones = drop } in
    let m = merge_sstables-Merged options ssts readable in
    let popped_old = (m.same_records (λ r. r.seq ≤ seq)).0 old in
    (
      kept options start m.popped,
      m.run,
      kept-InOrder options start m.popped m.in_order,
      λ key. (
        find_visible key seq m.popped,
        find_visible-IsNewest key seq ssts m.popped m.in_order m.same_records,
        kept-find_live drop key seq start m.popped refl popped_old
            (InOrder-KeysAscend m.popped m.in_order),
      ),
    )
