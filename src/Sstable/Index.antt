-- ===== src/Sstable/Index.antt =====
-- internal/sstable/index.go: the block index, its bytes and back.
use hypha_db.Base.{
  ℕ, zero, suc, ◌%◌, ◌^◌, ◌<◌, ◌≡◌, refl, ◌∙◌, false, List, [], ◌∷◌, ◌++◌, append_assoc, length,
  slice, ltb, arith, All, Result, ok, fail_if, map_err, ◌>>=◌, ◌>>◌, length-append, ge→ltb,
}
use hypha_db.Base.Bytes.{
  IsU32, IsU64, put_le, get_le, ReadError, read_full, read_full-append, get_le-put_le,
  length-put_le,
}
use hypha_db.Base.Text.{Text}

pub record IndexEntry : Type 0 where
  pub first_key : Text
  pub offset : ℕ
  pub length : ℕ

pub data IndexError : Type 0 where
  read_failed : ReadError → IndexError
  invalid_index_key_length : IndexError

unfoldable pub encode_entry : IndexEntry → List ℕ
encode_entry e =
    put_le 4 (length e.first_key % 2 ^ 32)
    ++ (put_le 8 e.offset ++ (put_le 4 e.length ++ e.first_key))

unfoldable pub encode_entries : List IndexEntry → List ℕ
encode_entries [] = []
encode_entries (e ∷ es) = encode_entry e ++ encode_entries es

-- The bytes that `writeIndex` hands to its writer at once.
unfoldable pub write_index : List IndexEntry → List ℕ
write_index index = put_le 4 (length index % 2 ^ 32) ++ encode_entries index

-- One round of the loop of `decodeIndex`: an entry, and what the reader has left.
unfoldable pub decode_entry : List ℕ → Result IndexError (IndexEntry × List ℕ)
decode_entry r = do
  (header, r1) ← map_err read_failed (read_full 16 r)
  let key_len = get_le (slice 0 4 header)
  fail_if (ltb (length r1) key_len) invalid_index_key_length
  (key, r2) ← map_err read_failed (read_full key_len r1)
  ok (
    record {
      first_key = key;
      offset = get_le (slice 4 12 header);
      length = get_le (slice 12 16 header);
    },
    r2,
  )

-- The rounds that are left.
unfoldable pub decode_entries : ℕ → List ℕ → Result IndexError (List IndexEntry)
decode_entries zero r = ok []
decode_entries (suc left) r = do (e, r1) ← decode_entry r; es ← decode_entries left r1; ok (e ∷ es)

unfoldable pub decode_index : List ℕ → Result IndexError (List IndexEntry)
decode_index buf = do
  (count_buf, r) ← map_err read_failed (read_full 4 buf)
  decode_entries (get_le count_buf) r

-- The fields fit in their words.
pub record IsStored (e : IndexEntry) : Type 0 where
  pub short_key : IsU32 (length e.first_key)
  pub offset_fits : IsU64 e.offset
  pub length_fits : IsU32 e.length

abbrev header_of : IndexEntry → List ℕ
header_of e = put_le 4 (length e.first_key % 2 ^ 32) ++ (put_le 8 e.offset ++ put_le 4 e.length)

decode_entry-encode_entry :
    (e : IndexEntry) (rest : List ℕ)
    → IsStored e
    → decode_entry (encode_entry e ++ rest) ≡ ok (e, rest)
unfolding decode_entry encode_entry put_le
decode_entry-encode_entry e rest h =
    let same : length e.first_key % 2 ^ 32 ≡ length e.first_key =
      let short = h.short_key in omega arith in
    let read_header = read_full-append 16 (header_of e) (e.first_key ++ rest) refl in
    let enough : ltb (length (e.first_key ++ rest)) (length e.first_key) ≡ false =
      ge→ltb _ _ (omega (arith, length-append e.first_key rest)) in
    let key_word : get_le (put_le 4 (length e.first_key % 2 ^ 32)) ≡ length e.first_key =
      get_le-put_le 4 (length e.first_key % 2 ^ 32) (omega arith) ∙ same in
    rw
      (
        read_header,
        key_word,
        enough,
        read_full-append (length e.first_key) e.first_key rest refl,
        get_le-put_le 8 e.offset h.offset_fits,
        get_le-put_le 4 e.length h.length_fits,
      )
      refl

decode_entries-encode_entries :
    (index : List IndexEntry) (rest : List ℕ)
    → All IsStored index
    → decode_entries (length index) (encode_entries index ++ rest) ≡ ok index
unfolding decode_entries encode_entries
decode_entries-encode_entries [] rest h = refl
decode_entries-encode_entries (e ∷ es) rest h =
    rw
      (
        append_assoc (encode_entry e) (encode_entries es) rest,
        decode_entry-encode_entry e (encode_entries es ++ rest) h.0,
        decode_entries-encode_entries es rest h.1,
      )
      refl

-- An index of less than 2^32 entries, whose keys, offsets and lengths fit in their words, is read
-- back from its bytes, whatever follows them.
pub decode_index-write_index :
    (index : List IndexEntry) (rest : List ℕ)
    → length index < 2 ^ 32
    → All IsStored index
    → decode_index (write_index index ++ rest) ≡ ok index
unfolding decode_index write_index
decode_index-write_index index rest few h =
    let same : length index % 2 ^ 32 ≡ length index = omega arith in
    let count = length index % 2 ^ 32 in
    let count_word : get_le (put_le 4 count) ≡ length index =
      get_le-put_le 4 count (omega arith) ∙ same in
    rw
      (
        append_assoc (put_le 4 count) (encode_entries index) rest,
        read_full-append 4 (put_le 4 count) (encode_entries index ++ rest) (length-put_le 4 count),
        count_word,
        decode_entries-encode_entries index rest h,
      )
      refl
