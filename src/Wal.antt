-- ===== src/Wal.antt =====
-- internal/wal/wal.go: the frames of a write-ahead log segment, written and replayed.
pub mod Frames
pub mod Replay
pub mod Pending
pub mod Append
pub mod Crash
mod Runs
use hypha_db.Base.{
  ℕ, zero, suc, ◌+◌, ◌-◌, Bool, true, false, not, ◌&&◌, Option, none, some, List, [], ◌∷◌, ◌++◌,
  length, take, drop, slice, ltb, leb, ◌==◌, if◌then◌else◌, Result, ok, err, fail_if, map_err,
  ◌>>=◌, ◌>>◌,
}
use hypha_db.Base.Bytes.{put_le, get_le, ReadError, eof, unexpected_eof, read_full, bytes_equal}
use hypha_db.Base.Fields.{byte_at}
use hypha_db.Base.Text.{Text}
use hypha_db.Record.{
  Record, BatchKind, DecodeError, encode_binary, decode_binary, batch_none, batch_begin,
  batch_operation, batch_commit, header_size, max_key_size, max_value_size,
}

abbrev pub wal_version : ℕ
wal_version = 1

abbrev pub wal_header_size : ℕ
wal_header_size = 12

abbrev pub frame_header_size : ℕ
frame_header_size = 8

abbrev pub batch_metadata_size : ℕ
batch_metadata_size = 9

abbrev pub max_frame_payload : ℕ
max_frame_payload = batch_metadata_size + header_size + max_key_size + max_value_size

-- `HYPHAWAL`
abbrev pub wal_magic : List ℕ
wal_magic = 72 ∷ 89 ∷ 80 ∷ 72 ∷ 65 ∷ 87 ∷ 65 ∷ 76 ∷ []

pub data WalError : Type 0 where
  key_too_long value_too_long invalid_batch_kind payload_too_small trailing_bytes : WalError
  bad_record : DecodeError → WalError
  short_header invalid_magic : WalError
  unsupported_version : ℕ → WalError
  write_failed sync_failed truncate_failed : WalError
  frame_too_long checksum_mismatch : WalError
  out_of_fuel : WalError

unfoldable pub write_wal_header : List ℕ
write_wal_header = wal_magic ++ put_le 4 wal_version

unfoldable pub validate_wal_header : List ℕ → Result WalError Unit
validate_wal_header file = do
  (header, rest) ← map_err (λ e. short_header) (read_full wal_header_size file)
  fail_if (not (bytes_equal (take 8 header) wal_magic)) invalid_magic
  let version = get_le (slice 8 12 header)
  fail_if (not (version == wal_version)) (unsupported_version version)

unfoldable pub encode_record : Record → Result WalError (List ℕ)
encode_record rec = do
  fail_if (ltb max_key_size (length rec.key)) key_too_long
  fail_if (ltb max_value_size (length rec.value)) value_too_long
  fail_if (ltb batch_commit rec.batch_kind) invalid_batch_kind
  ok ((rec.batch_kind ∷ []) ++ (put_le 8 rec.batch_id ++ encode_binary rec))

unfoldable pub decode_record : List ℕ → Result WalError Record
decode_record payload = do
  fail_if (ltb (length payload) (batch_metadata_size + header_size)) payload_too_small
  let kind = byte_at payload 0
  fail_if (ltb batch_commit kind) invalid_batch_kind
  (rec, rest) ← map_err bad_record (decode_binary true (drop batch_metadata_size payload))
  fail_if (not (length rest == 0)) trailing_bytes
  ok (record rec { batch_id = get_le (slice 1 9 payload); batch_kind = kind })

-- A segment on disk. `space` is how many bytes the file system still takes: a write of more stops
-- there and fails. `synced` is how many of its bytes the last `Sync` has made durable.
pub record Segment : Type 0 where
  pub file : List ℕ
  pub space : ℕ
  pub synced : ℕ

-- `w.file.Write`
unfoldable pub append_bytes : List ℕ → Segment → Result WalError Unit × Segment
append_bytes bs s =
    if leb (length bs) s.space
    then (ok tt, record s { file = s.file ++ bs; space = s.space - length bs })
    else (err write_failed, record s { file = s.file ++ take s.space bs; space = 0 })

-- A power failure keeps what was durable, and `survived` bytes of what was written behind.
unfoldable pub after_power_loss : ℕ → Segment → List ℕ
after_power_loss survived s = take (s.synced + survived) s.file

-- The end of `WriteBatch`, after its writes: `sync`, and whether `w.file.Sync` works.
unfoldable pub sync_batch :
    Bool → Bool → Result WalError Unit × Segment → Result WalError Unit × Segment
sync_batch sync sync_works (err e, s) = (err e, s)
sync_batch false sync_works (ok u, s) = (ok tt, s)
sync_batch true false (ok u, s) = (err sync_failed, s)
sync_batch true true (ok u, s) = (ok tt, record s { synced = length s.file })

-- The batch fields that `WriteBatch` gives the records around and in a batch.
abbrev pub batch_mark : BatchKind → ℕ → Record
batch_mark kind id = record {
  key = [];
  seq = 0;
  value = [];
  deleted = false;
  batch_id = id;
  batch_kind = kind;
}

abbrev pub in_batch : ℕ → Record → Record
in_batch id rec = record rec { batch_id = id; batch_kind = batch_operation }

unfoldable pub in_batches : ℕ → List Record → List Record
in_batches id [] = []
in_batches id (rec ∷ recs) = in_batch id rec ∷ in_batches id recs

unfoldable pub batch_records : ℕ → List Record → List Record
batch_records id recs =
    (batch_mark batch_begin id ∷ in_batches id recs) ++ (batch_mark batch_commit id ∷ [])

-- One round of the loop of `ReplayIntoWithStats`, up to its `decodeRecord`.
pub data FrameRead : Type 0 where
  at_end torn : FrameRead
  failed : WalError → FrameRead
  complete : Record → ℕ → List ℕ → FrameRead

-- `if err != nil { return err }` between two writes of a segment.
unfoldable pub and_then :
    Result WalError Unit × Segment
    → (Segment → Result WalError Unit × Segment)
    → Result WalError Unit × Segment
and_then (ok u, s) rest = rest s
and_then (err e, s) rest = (err e, s)

-- hash/crc32 with the Castagnoli table is `crc32c`.
module _ (crc32c : List ℕ → ℕ) where
  unfoldable pub frame_checksum : List ℕ → List ℕ → ℕ
  frame_checksum len payload = crc32c (len ++ payload)

  unfoldable pub frame_header : List ℕ → List ℕ
  frame_header payload =
      put_le 4 (length payload) ++ put_le 4 (frame_checksum (put_le 4 (length payload)) payload)

  unfoldable pub frame : List ℕ → List ℕ
  frame payload = frame_header payload ++ payload

  unfoldable pub write_record : Record → Segment → Result WalError Unit × Segment
  write_record rec s = elim (encode_record rec) [
    | err e ↦ (err e, s)
    | ok payload ↦ append_bytes (frame payload) s
  ]

  -- The loop of `WriteBatch`, and one record after another in general: the first error returns.
  unfoldable pub write_records : List Record → Segment → Result WalError Unit × Segment
  write_records [] s = (ok tt, s)
  write_records (rec ∷ recs) s = and_then (write_record rec s) (write_records recs)

  -- The three parts of `WriteBatch` write one list of records, then it may sync.
  unfoldable pub write_batch :
      Bool → Bool → ℕ → List Record → Segment → Result WalError Unit × Segment
  write_batch sync sync_works id recs s =
      sync_batch sync sync_works (write_records (batch_records id recs) s)

  -- `check_frame`, `read_payload` and `read_frame` are one round, from its end to its start.
  unfoldable pub check_frame : List ℕ → List ℕ → List ℕ → FrameRead
  check_frame header payload rest =
      if get_le (slice 4 8 header) == frame_checksum (slice 0 4 header) payload
      then elim (decode_record payload) [
        | err e ↦ failed e
        | ok rec ↦ complete rec (frame_header_size + get_le (slice 0 4 header)) rest
      ]
      else failed checksum_mismatch

  unfoldable pub read_payload : List ℕ → List ℕ → FrameRead
  read_payload header after =
      let payload_len = get_le (slice 0 4 header) in
      if ltb max_frame_payload payload_len
      then failed frame_too_long
      else elim (read_full payload_len after) [
        | err e ↦ torn
        | ok (payload, rest) ↦ check_frame header payload rest
      ]

  unfoldable pub read_frame : List ℕ → FrameRead
  read_frame r = elim (read_full frame_header_size r) [
    | err eof ↦ at_end
    | err unexpected_eof ↦ torn
    | ok (header, after) ↦ read_payload header after
  ]

-- `pending`, a map from batch identifiers to the operations seen.
abbrev pub Pending : Type 0
Pending = List (ℕ × List Record)

unfoldable pub lookup_batch : ℕ → Pending → Option (List Record)
lookup_batch id [] = none
lookup_batch id ((i, recs) ∷ m) = if i == id then some recs else lookup_batch id m

unfoldable pub delete_batch : ℕ → Pending → Pending
delete_batch id [] = []
delete_batch id ((i, recs) ∷ m) =
    let rest = delete_batch id m in if i == id then rest else (i, recs) ∷ rest

unfoldable pub set_batch : ℕ → List Record → Pending → Pending
set_batch id recs m = (id, recs) ∷ delete_batch id m

-- `operation.BatchID = 0; operation.BatchKind = record.BatchNone`
abbrev pub unbatched : Record → Record
unbatched rec = record rec { batch_id = 0; batch_kind = batch_none }

-- What the loop keeps: the memtable, `stats.MaxSequence` and `pending`.
pub record ReplayState (M : Type 0) : Type 0 where
  pub mem : M
  pub max_sequence : ℕ
  pub pending : Pending

-- A memtable of any type, with its `Put`.
module _ {M : Type 0} (put : Record → M → M) where
  unfoldable pub put_all : List Record → M → M
  put_all [] mem = mem
  put_all (rec ∷ recs) mem = put_all recs (put (unbatched rec) mem)

  unfoldable pub raise_sequence : Record → ReplayState M → ReplayState M
  raise_sequence rec s =
      let by_seq = if ltb s.max_sequence rec.seq then rec.seq else s.max_sequence in
      record s { max_sequence = if ltb by_seq rec.batch_id then rec.batch_id else by_seq }

  -- The switch on `rec.BatchKind`.
  unfoldable pub apply_kind : Record → ReplayState M → ReplayState M
  apply_kind rec s =
      if rec.batch_kind == batch_none
      then record s { mem = put rec s.mem }
      else if rec.batch_kind == batch_begin
      then record s { pending = set_batch rec.batch_id [] s.pending }
      else if rec.batch_kind == batch_operation
      then elim (lookup_batch rec.batch_id s.pending) [
        | none ↦ s
        | some recs ↦ record s { pending = set_batch rec.batch_id (recs ++ (rec ∷ [])) s.pending }
      ]
      else if rec.batch_kind == batch_commit
      then elim (lookup_batch rec.batch_id s.pending) [
        | none ↦ s
        | some recs ↦ record s {
          mem = put_all recs s.mem;
          pending = delete_batch rec.batch_id s.pending;
        }
      ]
      else s

  unfoldable pub apply_record : Record → ReplayState M → ReplayState M
  apply_record rec s = apply_kind rec (raise_sequence rec s)

  module _ (crc32c : List ℕ → ℕ) where
    -- The loop, with the offset behind the last complete frame. The result holds the offset to
    -- which a torn file is truncated.
    unfoldable pub replay_loop :
        ℕ → ℕ → List ℕ → ReplayState M → Result WalError (ReplayState M × Option ℕ)
    replay_loop zero offset r s = err out_of_fuel
    replay_loop (suc fuel) offset r s = elim (read_frame crc32c r) [
      | at_end ↦ ok (s, none)
      | torn ↦ ok (s, some offset)
      | failed e ↦ err e
      | complete rec size rest ↦ replay_loop fuel (offset + size) rest (apply_record rec s)
    ]

    -- `ReplayIntoWithStats` on a file that could be opened and read: the memtable and the stats, and
    -- the file as it is left. A frame has a byte at least, so `length file` rounds are enough.
    unfoldable pub replay_into : Bool → List ℕ → M → Result WalError (M × ℕ × List ℕ)
    replay_into truncate_works file mem = if length file == 0 then ok (mem, 0, file) else do
      validate_wal_header file
      (s, cut) ←
          replay_loop (suc (length file)) wal_header_size (drop wal_header_size file)
            (record { mem = mem; max_sequence = 0; pending = [] })
      elim cut [
        | none ↦ ok (s.mem, s.max_sequence, file)
        | some offset ↦
            if truncate_works
            then ok (s.mem, s.max_sequence, take offset file)
            else err truncate_failed
      ]
