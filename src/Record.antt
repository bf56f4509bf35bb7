-- ===== src/Record.antt =====
-- internal/record/record.go and codec.go: records, and their binary form.
pub mod RoundTrip
pub mod Exact
mod Runs
use Prim.Native.Nat.{bit_and}
use hypha_db.Base.{
  ℕ, ◌+◌, ◌*◌, Bool, true, false, not, List, [], ◌∷◌, ◌++◌, length, slice, ltb, ◌==◌, if◌then◌else◌,
  Result, ok, err, fail_if, ◌>>=◌, ◌>>◌,
}
use hypha_db.Base.Bytes.{put_le, get_le, ReadError, read_full}
use hypha_db.Base.Text.{Text}
use hypha_db.Base.Fields.{byte_at, and_not}

-- `BatchKind`, a uint8: the source's constants are its first four values.
abbrev pub BatchKind : Type 0
BatchKind = ℕ

abbrev pub batch_none : BatchKind
batch_none = 0

abbrev pub batch_begin : BatchKind
batch_begin = 1

abbrev pub batch_operation : BatchKind
batch_operation = 2

abbrev pub batch_commit : BatchKind
batch_commit = 3

-- `Record` with the fields of the `Entry` that it embeds.
pub record Record : Type 0 where
  pub key : Text
  pub seq : ℕ
  pub value : List ℕ
  pub deleted : Bool
  pub batch_id : ℕ
  pub batch_kind : BatchKind

abbrev pub flag_deleted : ℕ
flag_deleted = 1

abbrev pub header_size : ℕ
header_size = 17

abbrev pub max_key_size : ℕ
max_key_size = 64 * 1024

abbrev pub max_value_size : ℕ
max_value_size = 64 * 1024 * 1024

pub data DecodeError : Type 0 where
  read_error : ReadError → DecodeError
  unknown_flags : ℕ → DecodeError
  key_too_long value_too_long : ℕ → DecodeError
  payload_short : ℕ → ℕ → DecodeError

unfoldable pub encoded_size : Record → ℕ
encoded_size rec = header_size + length rec.key + length rec.value

-- `uint32(len(…))` keeps four bytes, as `put_le 4` does.
unfoldable pub encode_header : Record → List ℕ
encode_header rec =
    put_le 4 (length rec.key)
    ++ (put_le 4 (length rec.value)
        ++ (put_le 8 rec.seq ++ ((if rec.deleted then flag_deleted else 0) ∷ [])))

-- What `EncodeBinary` appends to a writer that does not fail.
unfoldable pub encode_binary : Record → List ℕ
encode_binary rec = encode_header rec ++ (rec.key ++ rec.value)

-- The four locals that the decoders read from the seventeen bytes of the header.
pub record Header : Type 0 where
  pub key_len : ℕ
  pub value_len : ℕ
  pub seq : ℕ
  pub flags : ℕ

unfoldable pub parse_header : List ℕ → Header
parse_header header = record {
  key_len = get_le (slice 0 4 header);
  value_len = get_le (slice 4 8 header);
  seq = get_le (slice 8 16 header);
  flags = byte_at header 16;
}

-- The guards on flags and lengths that `DecodeBinary` and `decodeRecordView` share.
unfoldable pub check_header : Header → Result DecodeError Unit
check_header h = do
  fail_if (not (and_not h.flags flag_deleted == 0)) (unknown_flags h.flags)
  fail_if (ltb max_key_size h.key_len) (key_too_long h.key_len)
  fail_if (ltb max_value_size h.value_len) (value_too_long h.value_len)

abbrev pub is_deleted : Header → Bool
is_deleted h = not (bit_and h.flags flag_deleted == 0)

abbrev pub reading : {A : Type 0} → Result ReadError A → Result DecodeError A
reading (ok a) = ok a
reading (err e) = err (read_error e)

abbrev pub record_of : Header → Text → List ℕ → Record
record_of h key value = record {
  key = key;
  seq = h.seq;
  value = value;
  deleted = is_deleted h;
  batch_id = 0;
  batch_kind = batch_none;
}

-- `DecodeBinary`: the record, and what the reader has left. `sized` says that the reader has a
-- `Len` method.
unfoldable pub decode_binary : Bool → List ℕ → Result DecodeError (Record × List ℕ)
decode_binary sized r = do
  (header, after_header) ← reading (read_full header_size r)
  let h = parse_header header
  check_header h
  fail_if (if sized then ltb (length after_header) (h.key_len + h.value_len) else false)
      (payload_short (h.key_len + h.value_len) (length after_header))
  (key, after_key) ← reading (read_full h.key_len after_header)
  (value, after_value) ← reading (read_full h.value_len after_key)
  ok (record_of h key value, after_value)
