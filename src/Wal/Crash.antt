-- ===== src/Wal/Crash.antt =====
-- What is recovered from a segment after a batch whose writes may have failed half-way.
use hypha_db.Base.{
  ℕ, suc, ◌+◌, ◌≡◌, ◌⊎◌, inl, inr, refl, sym, ap, ◌∙◌, subst, Bool, true, false, none, some, List,
  [], ◌∷◌, ◌++◌, append_assoc, append-nil, length, length-append, take, drop, take-append_exact,
  ◌==◌, suc-eq-zero, if◌then◌else◌, Result, ok, err, arith, All, All-append, All-take,
}
use hypha_db.Base.Bytes.{
  IsU32, IsU64, read_full, read_full-append, put_le, get_le-put_le, bytes_equal,
}
use hypha_db.Record.{Record, batch_commit}
use hypha_db.Wal.{
  WalError, write_failed, Segment, frame, write_records, write_batch, write_wal_header,
  validate_wal_header, batch_records, ReplayState, put_all, replay_into, at_end, torn, read_frame,
  in_batches, batch_mark,
}
use hypha_db.Wal.Frames.{read_frame_torn}
use hypha_db.Wal.Replay.{
  IsWritable, payload_of, encode_record-IsWritable, log_bytes, apply_all, replay_loop-log_bytes,
  log_bytes-Torn,
}
use hypha_db.Wal.Pending.{apply_all-append, apply_all-batch_records, apply_all-take-batch_records}
use hypha_db.Wal.{after_power_loss}
use hypha_db.Wal.Append.{
  Appended, whole, cut, write_records-Appended, write_records-synced, Unpromised, sync_batch-file,
  sync_batch-write_failed, sync_batch-Appended,
}

pub log_bytes-append :
    (crc32c : List ℕ → ℕ) (xs ys : List Record)
    → log_bytes crc32c (xs ++ ys) ≡ log_bytes crc32c xs ++ log_bytes crc32c ys
unfolding log_bytes
log_bytes-append crc32c [] ys = refl
log_bytes-append crc32c (x ∷ xs) ys =
    ap (λ t. frame crc32c (payload_of x) ++ t) (log_bytes-append crc32c xs ys)
    ∙ sym (append_assoc (frame crc32c (payload_of x)) (log_bytes crc32c xs) (log_bytes crc32c ys))

validate-write_wal_header : (body : List ℕ) → validate_wal_header (write_wal_header ++ body) ≡ ok tt
unfolding validate_wal_header write_wal_header put_le bytes_equal
validate-write_wal_header body =
    rw (read_full-append 12 write_wal_header body refl, get_le-put_le 4 1 (omega arith)) refl

file_not_empty : (body : List ℕ) → (length (write_wal_header ++ body) == 0) ≡ false
unfolding write_wal_header put_le
file_not_empty body = suc-eq-zero _

body_of_file : (body : List ℕ) → drop 12 (write_wal_header ++ body) ≡ body
unfolding write_wal_header put_le
body_of_file body = refl

truncated :
    (log part : List ℕ)
    → take (12 + length log) (write_wal_header ++ (log ++ part)) ≡ write_wal_header ++ log
truncated log part =
    let size : length (write_wal_header ++ log) ≡ 12 + length log =
      unfold write_wal_header put_le in omega arith in
    rw (← append_assoc write_wal_header log part, ← size)
      (take-append_exact (write_wal_header ++ log) part)

module _ {M : Type 0} (put : Record → M → M) (crc32c : List ℕ → ℕ)
    (crc32c_fits : (bs : List ℕ) → IsU32 (crc32c bs)) where
  abbrev start : M → ReplayState M
  start mem = record { mem = mem; max_sequence = 0; pending = [] }

  -- What a replay of the records leaves, from a memtable and an empty map of batches.
  abbrev pub replayed : List Record → M → ReplayState M
  replayed recs mem = apply_all put recs (start mem)

  -- A file of the header, whole frames and then a strict beginning of another frame: the frames are
  -- replayed, and the file is left with the header and the frames.
  replay_into-log_bytes :
      (recs : List Record) (part : List ℕ) (mem : M)
      → All IsWritable recs
      → read_frame crc32c part ≡ (if length part == 0 then at_end else torn)
      → replay_into put crc32c true (write_wal_header ++ (log_bytes crc32c recs ++ part)) mem
        ≡ ok (
          (replayed recs mem).mem,
          (replayed recs mem).max_sequence,
          write_wal_header ++ log_bytes crc32c recs,
        )
  unfolding replay_into
  replay_into-log_bytes recs part mem w tail =
      let log = log_bytes crc32c recs in
      let file = write_wal_header ++ (log ++ part) in
      let run =
        replay_loop-log_bytes put crc32c crc32c_fits recs part (suc (length file)) 12 (start mem) w
          tail (omega (arith, length-append write_wal_header (log ++ part))) in
      rw
        (
          file_not_empty (log ++ part),
          validate-write_wal_header (log ++ part),
          body_of_file (log ++ part),
          run,
        )
        (ending log part)
    where
      ending :
          (log part : List ℕ)
          → elim (if length part == 0 then none else some (12 + length log))
              as (λ _. Result WalError (M × ℕ × List ℕ)) [
                | none ↦ ok (
                  (replayed recs mem).mem,
                  (replayed recs mem).max_sequence,
                  write_wal_header ++ (log ++ part),
                )
                | some offset ↦ ok (
                  (replayed recs mem).mem,
                  (replayed recs mem).max_sequence,
                  take offset (write_wal_header ++ (log ++ part)),
                )
              ]
            ≡ ok
                ((replayed recs mem).mem, (replayed recs mem).max_sequence, write_wal_header ++ log)
      ending log [] = rw append-nil refl
      ending log (b ∷ bs) = rw (suc-eq-zero (length bs), truncated log (b ∷ bs)) refl

-- The file behind two logs and a rest, in the form that the replay takes.
file_of_log :
    (crc32c : List ℕ → ℕ) (xs ys : List Record) (part front : List ℕ)
    → front ≡ log_bytes crc32c ys ++ part
    → (write_wal_header ++ log_bytes crc32c xs) ++ front
      ≡ write_wal_header ++ (log_bytes crc32c (xs ++ ys) ++ part)
file_of_log crc32c xs ys part front e =
    let lx = log_bytes crc32c xs in
    let ly = log_bytes crc32c ys in
    append_assoc write_wal_header lx front
    ∙ ap (λ u. write_wal_header ++ (lx ++ u)) e
    ∙ ap (λ u. write_wal_header ++ u) (sym (append_assoc lx ly part))
    ∙ ap (λ u. write_wal_header ++ (u ++ part)) (sym (log_bytes-append crc32c xs ys))

in_batches-IsWritable :
    (id : ℕ) (ops : List Record)
    → IsU64 id
    → All IsWritable ops
    → All IsWritable (in_batches id ops)
unfolding in_batches
in_batches-IsWritable id [] fits w = tt
in_batches-IsWritable id (op ∷ ops) fits (w, ws) = (
  record {
    typed = record { seq_fits = w.typed.seq_fits; batch_id_fits = fits };
    key_fits = w.key_fits;
    value_fits = w.value_fits;
    kind_fits = omega arith;
  },
  in_batches-IsWritable id ops fits ws,
)

batch_records-IsWritable :
    (id : ℕ) (ops : List Record)
    → IsU64 id
    → All IsWritable ops
    → All IsWritable (batch_records id ops)
unfolding batch_records
batch_records-IsWritable id ops fits w = (
  omega arith,
  All-append IsWritable (in_batches id ops) (batch_mark batch_commit id ∷ [])
      (in_batches-IsWritable id ops fits w) (omega arith),
)

module _ {M : Type 0} (put : Record → M → M) (crc32c : List ℕ → ℕ)
    (crc32c_fits : (bs : List ℕ) → IsU32 (crc32c bs)) where
  -- What is recovered from `file`, which was left by a batch: a memtable with all operations of the
  -- batch, or, where `Excused` holds, the memtable without any; and the file that the replay leaves
  -- is a whole log again.
  pub record Recovery (prev ops : List Record) (mem : M) (Excused : Type 0) (file : List ℕ)
      : Type 0 where
    pub recs : List Record
    pub replay_eq :
        replay_into put crc32c true file mem
        ≡ ok (
          (replayed put crc32c crc32c_fits recs mem).mem,
          (replayed put crc32c crc32c_fits recs mem).max_sequence,
          write_wal_header ++ log_bytes crc32c recs,
        )
    pub all_or_nothing :
        ((replayed put crc32c crc32c_fits recs mem).mem
          ≡ put_all put ops (replayed put crc32c crc32c_fits prev mem).mem)
        ⊎ (Excused
            × ((replayed put crc32c crc32c_fits recs mem).mem
                ≡ (replayed put crc32c crc32c_fits prev mem).mem))

  Recovery-of-Appended :
      (prev ops : List Record) (id : ℕ) (mem : M) (Excused : Type 0) (r : Result WalError Unit)
      (file : List ℕ)
      → All IsWritable prev
      → All IsWritable (batch_records id ops)
      → (r ≡ err write_failed → Excused)
      → Appended
          (write_wal_header ++ log_bytes crc32c prev)
          (log_bytes crc32c (batch_records id ops))
          r
          file
      → Recovery prev ops mem Excused file
  Recovery-of-Appended prev ops id mem Excused _ file wp wb fails (whole e) =
      let batch = batch_records id ops in
      let recs = prev ++ batch in
      record {
        recs = recs;
        replay_eq =
            subst
              (λ f.
                replay_into put crc32c true f mem
                ≡ ok (
                  (replayed put crc32c crc32c_fits recs mem).mem,
                  (replayed put crc32c crc32c_fits recs mem).max_sequence,
                  write_wal_header ++ log_bytes crc32c recs,
                ))
              (sym (
                e ∙ file_of_log crc32c prev batch [] _ (sym (append-nil (log_bytes crc32c batch)))))
              (replay_into-log_bytes put crc32c crc32c_fits recs [] mem
                (All-append IsWritable prev batch wp wb) (unfold read_frame read_full in refl));
        all_or_nothing = inl (
            ap (λ t. t.mem) (apply_all-append put prev batch _)
            ∙ apply_all-batch_records put id ops (replayed put crc32c crc32c_fits prev mem));
      }
  Recovery-of-Appended prev ops id mem Excused _ file wp wb fails (cut front x back split e) =
      let batch = batch_records id ops in
      let t = log_bytes-Torn crc32c batch front x back wb split in
      let recs = prev ++ take t.whole batch in
      record {
        recs = recs;
        replay_eq =
            subst
              (λ f.
                replay_into put crc32c true f mem
                ≡ ok (
                  (replayed put crc32c crc32c_fits recs mem).mem,
                  (replayed put crc32c crc32c_fits recs mem).max_sequence,
                  write_wal_header ++ log_bytes crc32c recs,
                ))
              (sym (e ∙ file_of_log crc32c prev (take t.whole batch) t.part front t.front_eq))
              (replay_into-log_bytes put crc32c crc32c_fits recs t.part mem
                (All-append IsWritable prev (take t.whole batch) wp
                  (All-take IsWritable t.whole batch wb))
                (read_frame_torn crc32c crc32c_fits t.next (payload_of t.next) t.part t.lost
                  t.lost_rest (encode_record-IsWritable t.next t.next_writable) t.next_eq));
        all_or_nothing = inr (
          fails refl,
          ap (λ u. u.mem) (apply_all-append put prev (take t.whole batch) _)
              ∙ apply_all-take-batch_records put t.whole id ops
                  (replayed put crc32c crc32c_fits prev mem) t.whole_lt,
        );
      }

  -- A batch behind a durable log is recovered whole or not at all. Whatever part of the batch's
  -- bytes `WriteBatch` has written, the replay of the file succeeds, and it puts all operations of
  -- the batch behind what was logged before, or none of them; none only if `WriteBatch` returned the
  -- error of a failed write. If the power fails after `WriteBatch` and any beginning of the bytes
  -- that no `Sync` covers is left of them, the same holds; none only if `sync` was not asked for or
  -- `WriteBatch` returned an error.
  pub write_batch-Recovery :
      (sync sync_works : Bool) (survived : ℕ) (prev ops : List Record) (id : ℕ) (s : Segment)
      (mem : M)
      → All IsWritable prev
      → All IsWritable ops
      → IsU64 id
      → s.file ≡ write_wal_header ++ log_bytes crc32c prev
      → s.synced ≡ length s.file
      → Recovery prev ops mem
          ((write_batch crc32c sync sync_works id ops s).0 ≡ err write_failed)
          (write_batch crc32c sync sync_works id ops s).1.file
        × Recovery prev ops mem
            (Unpromised sync (write_batch crc32c sync sync_works id ops s).0)
            (after_power_loss survived (write_batch crc32c sync sync_works id ops s).1)
  unfolding write_batch
  write_batch-Recovery sync sync_works survived prev ops id s mem wp wo fits e durable =
      let recs = batch_records id ops in
      let wb = batch_records-IsWritable id ops fits wo in
      let p = write_records crc32c recs s in
      let old = write_wal_header ++ log_bytes crc32c prev in
      let appended =
        subst (λ o. Appended o (log_bytes crc32c recs) p.0 p.1.file) e
          (write_records-Appended crc32c recs s wb) in
      let (r, left, excuse) =
        sync_batch-Appended old (log_bytes crc32c recs) sync sync_works survived p
          (write_records-synced crc32c recs s ∙ durable ∙ ap (λ f. length f) e) appended in
      (
        Recovery-of-Appended prev ops id mem _ p.0 _ wp wb
            (sync_batch-write_failed sync sync_works p)
            (subst (Appended old (log_bytes crc32c recs) p.0)
              (sym (sync_batch-file sync sync_works p)) appended),
        Recovery-of-Appended prev ops id mem _ r _ wp wb excuse left,
      )
