-- ===== src/Wal/Pending.antt =====
-- The map of pending batches, and what the records of one batch do to the replayed state.
use hypha_db.Base.{
  ℕ, zero, suc, ◌<◌, ◌≡◌, refl, ap, ◌∙◌, subst, some, List, [], ◌∷◌, ◌++◌, append_assoc, append-nil,
  length, length-append, take, take-append_le, ==_refl, arith,
}
use hypha_db.Record.{Record, batch_begin, batch_commit}
use hypha_db.Wal.{
  Pending, lookup_batch, set_batch, unbatched, ReplayState, put_all, raise_sequence, apply_kind,
  apply_record, batch_mark, in_batch, in_batches, batch_records,
}
use hypha_db.Wal.Replay.{apply_all}

pub lookup_batch-set_batch :
    (id : ℕ) (recs : List Record) (m : Pending) → lookup_batch id (set_batch id recs m) ≡ some recs
unfolding lookup_batch set_batch
lookup_batch-set_batch id recs m = rw (==_refl id) refl

module _ {M : Type 0} (put : Record → M → M) where
  pub apply_all-append :
      (xs ys : List Record) (s : ReplayState M)
      → apply_all put (xs ++ ys) s ≡ apply_all put ys (apply_all put xs s)
  unfolding apply_all
  apply_all-append [] ys s = refl
  apply_all-append (x ∷ xs) ys s = apply_all-append xs ys (apply_record put x s)

  -- A state in whose pending batch `id` these operations wait, and the memtable it has.
  record Waits (id : ℕ) (recs : List Record) (mem : M) (s : ReplayState M) : Type 0 where
    pub same : s.mem ≡ mem
    pub found : lookup_batch id s.pending ≡ some recs

  begin-Waits :
      (id : ℕ) (s : ReplayState M)
      → Waits id [] s.mem (apply_record put (batch_mark batch_begin id) s)
  unfolding apply_record apply_kind raise_sequence
  begin-Waits id s = record { same = refl; found = lookup_batch-set_batch id [] s.pending }

  operation-Waits :
      (id : ℕ) (recs : List Record) (mem : M) (s : ReplayState M) (rec : Record)
      → Waits id recs mem s
      → Waits id (recs ++ (in_batch id rec ∷ [])) mem (apply_record put (in_batch id rec) s)
  unfolding apply_record apply_kind raise_sequence
  operation-Waits id recs mem s rec w = record {
    same = rw (w.found, apply_kind) w.same;
    found =
        rw (w.found, apply_kind)
          (lookup_batch-set_batch id (recs ++ (in_batch id rec ∷ [])) s.pending);
  }

  operations-Waits :
      (id : ℕ) (ops recs : List Record) (mem : M) (s : ReplayState M)
      → Waits id recs mem s
      → Waits id (recs ++ in_batches id ops) mem (apply_all put (in_batches id ops) s)
  unfolding apply_all in_batches
  operations-Waits id [] recs mem s w = rw append-nil w
  operations-Waits id (op ∷ ops) recs mem s w =
      subst
        (λ rs.
          Waits id rs mem (apply_all put (in_batches id ops) (apply_record put (in_batch id op) s)))
        (append_assoc recs (in_batch id op ∷ []) (in_batches id ops))
        (operations-Waits id ops (recs ++ (in_batch id op ∷ [])) mem
          (apply_record put (in_batch id op) s) (operation-Waits id recs mem s op w))

  commit_mem :
      (id : ℕ) (recs : List Record) (mem : M) (s : ReplayState M)
      → Waits id recs mem s
      → (apply_record put (batch_mark batch_commit id) s).mem ≡ put_all put recs mem
  unfolding apply_record apply_kind raise_sequence
  commit_mem id recs mem s w = rw (w.found, apply_kind) (ap (put_all put recs) w.same)

  -- The batch fields are cleared before an operation is put.
  put_all-in_batches :
      (id : ℕ) (ops : List Record) (mem : M)
      → put_all put (in_batches id ops) mem ≡ put_all put ops mem
  unfolding put_all in_batches
  put_all-in_batches id [] mem = refl
  put_all-in_batches id (op ∷ ops) mem = put_all-in_batches id ops (put (unbatched op) mem)

  -- All records of a batch put its operations, in their order.
  pub apply_all-batch_records :
      (id : ℕ) (ops : List Record) (s : ReplayState M)
      → (apply_all put (batch_records id ops) s).mem ≡ put_all put ops s.mem
  unfolding batch_records apply_all
  apply_all-batch_records id ops s =
      let began = apply_record put (batch_mark batch_begin id) s in
      let waiting = operations-Waits id ops [] s.mem began (begin-Waits id s) in
      ap (λ t. t.mem) (apply_all-append (in_batches id ops) (batch_mark batch_commit id ∷ []) began)
      ∙ commit_mem id (in_batches id ops) s.mem (apply_all put (in_batches id ops) began) waiting
      ∙ put_all-in_batches id ops s.mem

  take-in_batches :
      (k id : ℕ) (ops : List Record) → take k (in_batches id ops) ≡ in_batches id (take k ops)
  unfolding in_batches
  take-in_batches zero id ops = refl
  take-in_batches (suc k) id [] = refl
  take-in_batches (suc k) id (op ∷ ops) = ap (λ t. in_batch id op ∷ t) (take-in_batches k id ops)

  length-in_batches : (id : ℕ) (ops : List Record) → length (in_batches id ops) ≡ length ops
  unfolding in_batches
  length-in_batches id [] = refl
  length-in_batches id (op ∷ ops) = ap suc (length-in_batches id ops)

  -- Fewer than all records of a batch leave the memtable as it was.
  pub apply_all-take-batch_records :
      (k id : ℕ) (ops : List Record) (s : ReplayState M)
      → k < length (batch_records id ops)
      → (apply_all put (take k (batch_records id ops)) s).mem ≡ s.mem
  unfolding batch_records apply_all
  apply_all-take-batch_records zero id ops s h = refl
  apply_all-take-batch_records (suc k) id ops s h =
      let began = apply_record put (batch_mark batch_begin id) s in
      let front : take k (in_batches id ops ++ (batch_mark batch_commit id ∷ []))
          ≡ in_batches id (take k ops) =
        take-append_le k (in_batches id ops) (batch_mark batch_commit id ∷ [])
          (omega (arith, h, length-append (in_batches id ops) (batch_mark batch_commit id ∷ [])))
        ∙ take-in_batches k id ops in
      rw front (operations-Waits id (take k ops) [] s.mem began (begin-Waits id s)).same
