-- ===== src/Sstable/Cursor.antt =====
-- internal/sstable/block.go: the records of a block, and the cursor that walks them.
use hypha_db.Base.{
  ℕ, zero, suc, ◌+◌, ◌-◌, ◌*◌, ◌/◌, ◌%◌, ◌^◌, Bool, true, not, ◌&&◌, ◌||◌, Option, none, some, List,
  [], ◌∷◌, length, drop, slice, ltb, leb, ◌==◌, if◌then◌else◌, Result, ok, err, fail_if, ◌>>=◌,
  ◌>>◌,
}
use hypha_db.Base.Bytes.{get_le, unexpected_eof}
use hypha_db.Base.Text.{Text, text_le}
use hypha_db.Record.{
  Record, DecodeError, read_error, payload_short, header_size, parse_header, check_header,
  record_of,
}
use hypha_db.Sstable.Footer.{legacy_format_version, current_format_version}

pub data CursorError : Type 0 where
  missing_count restart_block_small restart_metadata_exceeds zero_interval : CursorError
  restart_count_mismatch restart_outside first_restart_not_4 restarts_not_increasing : CursorError
  unsupported_block_version : ℕ → CursorError
  count_cannot_fit : CursorError
  trailing_bytes : ℕ → CursorError
  bad_record : ℕ → DecodeError → CursorError
  bad_restart_record : DecodeError → CursorError

-- `decodeRecordView`: the record, and how many bytes it takes.
unfoldable pub decode_record_view : List ℕ → Result DecodeError (Record × ℕ)
decode_record_view buf = do
  fail_if (ltb (length buf) header_size) (read_error unexpected_eof)
  let h = parse_header buf
  check_header h
  fail_if (ltb (length buf - header_size) (h.key_len + h.value_len))
      (payload_short (h.key_len + h.value_len) (length buf - header_size))
  let key_end = header_size + h.key_len
  let value_end = key_end + h.value_len
  ok (record_of h (slice header_size key_end buf) (slice key_end value_end buf), value_end)

-- `logicalBlockCursor`
pub record Cursor : Type 0 where
  pub data_bytes : List ℕ
  pub count : ℕ
  pub index : ℕ
  pub offset : ℕ
  pub records_end : ℕ
  pub restart_interval : ℕ
  pub restart_offsets : List ℕ
  pub failed : Option CursorError

-- A word of `restartOffsets`.
unfoldable pub restart_at : List ℕ → ℕ → ℕ
restart_at offsets i = get_le (slice (i * 4) (i * 4 + 4) offsets)

-- The loop over the restart offsets, from `i` on.
unfoldable pub check_restarts : ℕ → List ℕ → ℕ → ℕ → ℕ → Result CursorError Unit
check_restarts zero offsets records_end i previous = ok tt
check_restarts (suc rounds) offsets records_end i previous = do
  let offset = restart_at offsets i
  fail_if (ltb offset 4 || leb records_end offset) restart_outside
  fail_if ((i == 0) && not (offset == 4)) first_restart_not_4
  fail_if (ltb 0 i && leb offset previous) restarts_not_increasing
  check_restarts rounds offsets records_end (i + 1) offset

-- The end of the records, the interval and the offsets, by the version of the table.
pub record Restarts : Type 0 where
  pub records_end : ℕ
  pub restart_interval : ℕ
  pub restart_offsets : List ℕ

unfoldable pub expected_restarts : ℕ → ℕ → ℕ
expected_restarts count interval = if ltb 0 count then (count + interval - 1) / interval else 0

unfoldable pub read_restarts : List ℕ → ℕ → Result CursorError Restarts
read_restarts buf count = do
  fail_if (ltb (length buf) 12) restart_block_small
  let restart_count = get_le (drop (length buf - 4) buf)
  let metadata_size = restart_count * 4 + 8
  fail_if (ltb (length buf - 4) metadata_size) restart_metadata_exceeds
  let records_end = length buf - metadata_size
  let offsets = slice records_end (length buf - 8) buf
  let interval = get_le (slice (length buf - 8) (length buf - 4) buf)
  fail_if (interval == 0) zero_interval
  fail_if (not (restart_count == expected_restarts count interval)) restart_count_mismatch
  check_restarts restart_count offsets records_end 0 0
  ok (record { records_end = records_end; restart_interval = interval; restart_offsets = offsets })

unfoldable pub restarts_of_version : List ℕ → ℕ → ℕ → Result CursorError Restarts
restarts_of_version buf count format_version =
    if format_version == legacy_format_version
    then ok (record { records_end = length buf; restart_interval = 0; restart_offsets = [] })
    else (if format_version == current_format_version
        then read_restarts buf count
        else err (unsupported_block_version format_version))

-- `newLogicalBlockCursorForVersion`
unfoldable pub new_cursor_for_version : List ℕ → ℕ → Result CursorError Cursor
new_cursor_for_version buf format_version = do
  fail_if (ltb (length buf) 4) missing_count
  let count = get_le (slice 0 4 buf)
  restarts ← restarts_of_version buf count format_version
  fail_if (ltb ((restarts.records_end - 4) / header_size) count) count_cannot_fit
  ok (record {
    data_bytes = buf;
    count = count;
    index = 0;
    offset = 4;
    records_end = restarts.records_end;
    restart_interval = restarts.restart_interval;
    restart_offsets = restarts.restart_offsets;
    failed = none;
  })

-- `next`: the record where there is one, and the cursor after it.
unfoldable pub cursor_next : Cursor → Option Record × Cursor
cursor_next c = elim c.failed [
  | some e ↦ (none, c)
  | none ↦
      if c.index == c.count
      then (
        none,
        if c.offset == c.records_end
            then c
            else record c { failed = some (trailing_bytes (c.records_end - c.offset)) },
      )
      else elim (decode_record_view (slice c.offset c.records_end c.data_bytes)) [
        | err e ↦ (none, record c { failed = some (bad_record c.index e) })
        | ok p ↦ (some p.0, record c { offset = c.offset + p.1; index = (c.index + 1) % 2 ^ 32 })
      ]
]

-- The loop of `decodeLogicalBlock`, on fuel: the records, and the cursor at the end.
unfoldable pub read_records : ℕ → Cursor → List Record × Cursor
read_records zero c = ([], c)
read_records (suc fuel) c =
    let (found, c') = cursor_next c in
    let rest = read_records fuel c' in
    elim found [ none ↦ ([], c') | some rec ↦ (rec ∷ rest.0, rest.1) ]

unfoldable pub finished : List Record × Cursor → Result CursorError (List Record)
finished p = elim p.1.failed [ none ↦ ok p.0 | some e ↦ err e ]

-- `decodeLogicalBlock`, with `newLogicalBlockCursor`.
unfoldable pub decode_logical_block : List ℕ → Result CursorError (List Record)
decode_logical_block buf = do
  c ← new_cursor_for_version buf current_format_version
  finished (read_records (c.count + 1) c)

-- Whether the record at a restart is at or after the key; one that is not decoded ends the search.
unfoldable pub restart_not_before : Cursor → Text → ℕ → Bool
restart_not_before c key i =
    elim (decode_record_view (slice (restart_at c.restart_offsets i) c.records_end c.data_bytes)) [
      | err e ↦ true
      | ok p ↦ text_le key p.0.key
    ]
