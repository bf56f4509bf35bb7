-- ===== src/Wal/Runs.antt =====
-- A batch of two operations behind one record, and a write that stops in the middle of it.
use hypha_db.Base.{◌≡◌, refl, true, false, List, [], ◌∷◌, ◌++◌, length, ok, err, ℕ, arith}
use hypha_db.Base.Checksums.{sum_bytes, sum_bytes-IsU32}
use hypha_db.Base.Bytes.{put_le}
use hypha_db.Record.{Record, encode_binary, encode_header}
use hypha_db.Wal.{
  Segment, write_failed, write_wal_header, write_batch, write_records, write_record, and_then,
  sync_batch, append_bytes, encode_record, after_power_loss, batch_records, frame, frame_header,
  in_batches, decode_record,
}
use hypha_db.Wal.Append.{Unpromised}
use hypha_db.Wal.Frames.{decode_record-encode_record}
use hypha_db.Wal.Replay.{log_bytes, payload_of, encode_record-IsWritable}
use hypha_db.Wal.Crash.{Recovery, write_batch-Recovery}

abbrev put_a : Record
put_a = record {
  key = 97 ∷ [];
  seq = 1;
  value = 1 ∷ 2 ∷ [];
  deleted = false;
  batch_id = 0;
  batch_kind = 0;
}

abbrev delete_a : Record
delete_a = record {
  key = 97 ∷ [];
  seq = 2;
  value = [];
  deleted = true;
  batch_id = 0;
  batch_kind = 0;
}

-- A memtable that keeps what it is given, newest first.
abbrev keep : Record → List Record → List Record
keep rec mem = rec ∷ mem

-- The disk is full after forty bytes of the batch.
abbrev segment : ℕ → Segment
segment space =
    let log = write_wal_header ++ log_bytes sum_bytes (put_a ∷ []) in
    record { file = log; space = space; synced = length log }

abbrev batch : List Record
batch = delete_a ∷ put_a ∷ []

-- With room for the batch it is written and synced.
synced_batch : (write_batch sum_bytes true true 2 batch (segment 1000)).0 ≡ ok tt
unfolding write_batch write_records write_record and_then sync_batch append_bytes encode_record
    batch_records frame frame_header put_le encode_binary encode_header in_batches
synced_batch = refl

write_batch-Recovery_example :
    Recovery keep sum_bytes sum_bytes-IsU32
      (put_a ∷ [])
      batch
      []
      ((write_batch sum_bytes true true 2 batch (segment 40)).0 ≡ err write_failed)
      (write_batch sum_bytes true true 2 batch (segment 40)).1.file
    × Recovery keep sum_bytes sum_bytes-IsU32
        (put_a ∷ [])
        batch
        []
        (Unpromised true (write_batch sum_bytes true true 2 batch (segment 40)).0)
        (after_power_loss 30 (write_batch sum_bytes true true 2 batch (segment 40)).1)
write_batch-Recovery_example =
    write_batch-Recovery keep sum_bytes sum_bytes-IsU32 true true 30 (put_a ∷ []) batch 2
      (segment 40) [] (omega arith) (omega arith) (omega arith) refl refl

decode_record-encode_record_example : decode_record (payload_of delete_a) ≡ ok delete_a
decode_record-encode_record_example =
    decode_record-encode_record delete_a (payload_of delete_a) (omega arith)
      (encode_record-IsWritable delete_a (omega arith))
