-- ===== src/Db/Sequences.antt =====
-- internal/db/batch.go: the sequence numbers that applyBatch gives to the operations of a batch.
use hypha_db.Base.{
  ℕ, suc, ◌+◌, ◌%◌, ◌^◌, ◌≤◌, ◌<◌, ◌≡◌, refl, ap, subst, List, [], ◌∷◌, length, ◌==◌, if◌then◌else◌,
  arith, All, All-map, suc-eq-zero,
}
use hypha_db.Record.{Record, batch_none}
use hypha_db.Db.Batches.{BatchOperation}

-- The records of `applyBatch`: sequence numbers from `nextSeq + i` up.
unfoldable pub number_records : ℕ → ℕ → List BatchOperation → List Record
number_records next_seq i [] = []
number_records next_seq i (op ∷ ops) =
    record {
      key = op.key;
      seq = (next_seq + i) % 2 ^ 64;
      value = op.value;
      deleted = op.deleted;
      batch_id = 0;
      batch_kind = batch_none;
    }
    ∷ number_records next_seq (i + 1) ops

-- `nextSeq` after them; an empty batch takes a number too.
unfoldable pub seq_after : ℕ → List Record → ℕ
seq_after next_seq records =
    let next = (next_seq + length records) % 2 ^ 64 in
    if length records == 0 then (next + 1) % 2 ^ 64 else next

-- Sequence numbers that go up by one from a first.
abbrev pub CountsFrom : ℕ → List Record → Type 0
CountsFrom first [] = Unit
CountsFrom first (r ∷ rs) = (r.seq ≡ first) × CountsFrom (first + 1) rs

number_records-CountsFrom :
    (next_seq i : ℕ) (ops : List BatchOperation)
    → next_seq + i + length ops < 2 ^ 64
    → CountsFrom (next_seq + i) (number_records next_seq i ops)
unfolding number_records
number_records-CountsFrom next_seq i [] h = tt
number_records-CountsFrom next_seq i (op ∷ ops) h =
    let later = number_records-CountsFrom next_seq (i + 1) ops (omega arith) in
    let same : next_seq + (i + 1) ≡ next_seq + i + 1 = omega arith in
    (omega arith, subst (λ n. CountsFrom n (number_records next_seq (i + 1) ops)) same later)

pub CountsFrom-bounds :
    (first : ℕ) (rs : List Record)
    → CountsFrom first rs
    → All (λ r. (first ≤ r.seq) × (r.seq < first + length rs)) rs
CountsFrom-bounds first [] h = tt
CountsFrom-bounds first (r ∷ rs) (here, later) = (
  (omega (arith, here), omega (arith, here)),
  All-map _ _ (λ x b. let low = b.0 in let high = b.1 in (omega (arith, low), omega (arith, high)))
      rs (CountsFrom-bounds (first + 1) rs later),
)

length-number_records :
    (next_seq i : ℕ) (ops : List BatchOperation)
    → length (number_records next_seq i ops) ≡ length ops
unfolding number_records
length-number_records next_seq i [] = refl
length-number_records next_seq i (op ∷ ops) = ap suc (length-number_records next_seq (i + 1) ops)

seq_after_bounds :
    (next_seq : ℕ) (rs : List Record)
    → next_seq + length rs + 1 < 2 ^ 64
    → (next_seq < seq_after next_seq rs) × (next_seq + length rs ≤ seq_after next_seq rs)
unfolding seq_after
seq_after_bounds next_seq [] h = (ground arith, ground arith)
seq_after_bounds next_seq (r ∷ rs) h =
    (ground (arith, suc-eq-zero (length rs)), ground (arith, suc-eq-zero (length rs)))

-- While sequence numbers stay below 2^64 - 1, the records of a batch are numbered one by one from
-- `nextSeq`; the next number after the batch is larger than `nextSeq`, which is the batch's own
-- identifier, and larger than the number of each of its records.
pub number_records-IsFresh :
    (next_seq : ℕ) (ops : List BatchOperation)
    → next_seq + length ops + 1 < 2 ^ 64
    → CountsFrom next_seq (number_records next_seq 0 ops)
      × (next_seq < seq_after next_seq (number_records next_seq 0 ops))
      × All
          (λ r. r.seq < seq_after next_seq (number_records next_seq 0 ops))
          (number_records next_seq 0 ops)
number_records-IsFresh next_seq ops h =
    let records = number_records next_seq 0 ops in
    let size = length-number_records next_seq 0 ops in
    let start : next_seq + 0 ≡ next_seq = omega arith in
    let counts =
      subst (λ n. CountsFrom n records) start
        (number_records-CountsFrom next_seq 0 ops (omega arith)) in
    let next = seq_after_bounds next_seq records (omega (arith, size)) in
    (
      counts,
      next.0,
      All-map _ _ (λ r b. let high = b.1 in let low = next.1 in omega (arith, high, low)) records
          (CountsFrom-bounds next_seq records counts),
    )
