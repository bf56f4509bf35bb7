-- ===== src/Manifest.antt =====
-- internal/manifest/manifest.go: the list of live SSTables, and its file format.
pub mod RoundTrip
pub mod Files
mod Runs
use hypha_db.Base.{
  ℕ, zero, suc, ◌+◌, ◌*◌, ◌-◌, ◌^◌, Bool, true, false, not, Option, none, some, List, [], ◌∷◌, ◌++◌,
  length, take, drop, slice, ltb, leb, ◌==◌, if◌then◌else◌, Result, ok, err, fail_if, map_err,
  ◌>>=◌, ◌>>◌,
}
use hypha_db.Base.Bytes.{put_le, get_le, ReadError, read_full, read_word, bytes_equal}
use hypha_db.Base.Text.{Text}

pub record SstableMetadata : Type 0 where
  pub id : ℕ
  pub path : Text
  pub level : ℕ
  pub size_bytes : ℕ
  pub smallest_key : Text
  pub largest_key : Text

pub record Manifest : Type 0 where
  pub next_sstable_id : ℕ
  pub next_wal_segment_id : ℕ
  pub sstables : List SstableMetadata

abbrev pub manifest_version : ℕ
manifest_version = 1

abbrev pub manifest_header_size : ℕ
manifest_header_size = 20

abbrev pub manifest_payload_header_size : ℕ
manifest_payload_header_size = 20

abbrev pub sstable_fixed_size : ℕ
sstable_fixed_size = 32

abbrev pub max_manifest_payload_size : ℕ
max_manifest_payload_size = 256 * 1024 * 1024

abbrev pub max_sstable_count : ℕ
max_sstable_count = 1_000_000

abbrev pub max_metadata_string_size : ℕ
max_metadata_string_size = 64 * 1024

-- `HYPHAMAN`
abbrev pub manifest_magic : List ℕ
manifest_magic = 72 ∷ 89 ∷ 80 ∷ 72 ∷ 65 ∷ 77 ∷ 65 ∷ 78 ∷ []

pub data FieldError : Type 0 where
  short_field : ReadError → FieldError
  string_over string_past_end : ℕ → FieldError

-- The reasons of an `ErrCorruptManifest`.
pub data Reason : Type 0 where
  file_too_small invalid_magic size_mismatch checksum_mismatch payload_too_small : Reason
  payload_over entries_do_not_fit too_many_entries trailing_bytes ids_exhausted file_over : Reason
  payload_read : ReadError → Reason
  bad_table : ℕ → FieldError → Reason

pub data ManifestError : Type 0 where
  nil_manifest too_many_tables string_too_long payload_too_large read_failed : ManifestError
  corrupt : Reason → ManifestError
  unsupported_version : ℕ → ManifestError

-- One round of the loop of `metadataStringsSize` for each of the three strings.
unfoldable pub strings_size : ℕ → List Text → Result ManifestError ℕ
strings_size total [] = ok total
strings_size total (value ∷ rest) =
    let more = strings_size (total + length value) rest in
    if ltb max_metadata_string_size (length value) then err string_too_long else more

unfoldable pub metadata_strings_size : SstableMetadata → Result ManifestError ℕ
unfolding strings_size
metadata_strings_size t = strings_size 0 (t.path ∷ t.smallest_key ∷ t.largest_key ∷ [])

-- The first loop of `encode`, which adds up the payload's size.
unfoldable pub payload_size_from : ℕ → List SstableMetadata → Result ManifestError ℕ
payload_size_from size [] = ok size
payload_size_from size (t ∷ ts) = do
  strings ← metadata_strings_size t
  fail_if (ltb max_manifest_payload_size (size + (sstable_fixed_size + strings))) payload_too_large
  payload_size_from (size + (sstable_fixed_size + strings)) ts

unfoldable pub write_string : Text → List ℕ
write_string value = put_le 4 (length value) ++ value

unfoldable pub encode_table : SstableMetadata → List ℕ
encode_table t =
    put_le 8 t.id
    ++ (put_le 4 t.level
        ++ (put_le 8 t.size_bytes
            ++ (write_string t.path
                ++ (write_string t.smallest_key ++ write_string t.largest_key))))

unfoldable pub encode_tables : List SstableMetadata → List ℕ
encode_tables [] = []
encode_tables (t ∷ ts) = encode_table t ++ encode_tables ts

unfoldable pub encode_payload : Manifest → List ℕ
encode_payload m =
    put_le 8 m.next_sstable_id
    ++ (put_le 8 m.next_wal_segment_id
        ++ (put_le 4 (length m.sstables) ++ encode_tables m.sstables))

unfoldable pub read_string : List ℕ → Result FieldError (Text × List ℕ)
read_string r = do
  (n, rest) ← map_err short_field (read_word 4 r)
  fail_if (ltb max_metadata_string_size n) (string_over n)
  fail_if (ltb (length rest) n) (string_past_end n)
  map_err short_field (read_full n rest)

-- `decodeSSTableMetadata`
unfoldable pub decode_table : List ℕ → Result FieldError (SstableMetadata × List ℕ)
decode_table r = do
  (id, r1) ← map_err short_field (read_word 8 r)
  (level, r2) ← map_err short_field (read_word 4 r1)
  (size_bytes, r3) ← map_err short_field (read_word 8 r2)
  (path, r4) ← read_string r3
  (smallest_key, r5) ← read_string r4
  (largest_key, r6) ← read_string r5
  ok (
    record {
      id = id;
      path = path;
      level = level;
      size_bytes = size_bytes;
      smallest_key = smallest_key;
      largest_key = largest_key;
    },
    r6,
  )

-- The loop of `decode`: `left` tables from the one numbered `i` on.
unfoldable pub decode_tables : ℕ → ℕ → List ℕ → Result ManifestError (List SstableMetadata × List ℕ)
decode_tables zero i r = ok ([], r)
decode_tables (suc left) i r = do
  (t, r1) ← map_err (λ e. corrupt (bad_table i e)) (decode_table r)
  (ts, r2) ← decode_tables left (i + 1) r1
  ok (t ∷ ts, r2)

unfoldable pub decode_payload : List ℕ → Result ManifestError Manifest
decode_payload payload = do
  fail_if (ltb (length payload) manifest_payload_header_size) (corrupt payload_too_small)
  (next_sstable_id, r1) ← map_err (λ e. corrupt (payload_read e)) (read_word 8 payload)
  (next_wal_segment_id, r2) ← map_err (λ e. corrupt (payload_read e)) (read_word 8 r1)
  (table_count, r3) ← map_err (λ e. corrupt (payload_read e)) (read_word 4 r2)
  fail_if (ltb max_sstable_count table_count) (corrupt too_many_entries)
  fail_if (ltb (length r3) (table_count * sstable_fixed_size)) (corrupt entries_do_not_fit)
  (tables, r4) ← decode_tables table_count 0 r3
  fail_if (not (length r4 == 0)) (corrupt trailing_bytes)
  ok (record {
    next_sstable_id = next_sstable_id;
    next_wal_segment_id = next_wal_segment_id;
    sstables = tables;
  })

-- hash/crc32 with the Castagnoli table is `crc32c`. Two writes sum the bytes of both, and the sum
-- is a uint32.
module _ (crc32c : List ℕ → ℕ) where
  unfoldable pub manifest_checksum : List ℕ → List ℕ → ℕ
  manifest_checksum prefix payload = crc32c (prefix ++ payload)

  abbrev pub header_prefix : List ℕ → List ℕ
  header_prefix payload = manifest_magic ++ (put_le 4 manifest_version ++ put_le 4 (length payload))

  unfoldable pub seal : List ℕ → List ℕ
  seal payload =
      (header_prefix payload ++ put_le 4 (manifest_checksum (header_prefix payload) payload))
      ++ payload

  -- The nil pointer is `none`.
  unfoldable pub encode : Option Manifest → Result ManifestError (List ℕ)
  encode none = err nil_manifest
  encode (some m) = do
    fail_if (ltb max_sstable_count (length m.sstables)) too_many_tables
    size ← payload_size_from manifest_payload_header_size m.sstables
    ok (seal (encode_payload m))

  unfoldable pub decode : List ℕ → Result ManifestError Manifest
  decode file = do
    fail_if (ltb (length file) manifest_header_size) (corrupt file_too_small)
    fail_if (not (bytes_equal (take 8 file) manifest_magic)) (corrupt invalid_magic)
    let version = get_le (slice 8 12 file)
    fail_if (not (version == manifest_version)) (unsupported_version version)
    let payload_len = get_le (slice 12 16 file)
    fail_if (ltb max_manifest_payload_size payload_len) (corrupt payload_over)
    fail_if (not (length file == manifest_header_size + payload_len)) (corrupt size_mismatch)
    let payload = drop manifest_header_size file
    fail_if (not (get_le (slice 16 20 file) == manifest_checksum (take 16 file) payload))
        (corrupt checksum_mismatch)
    decode_payload payload
