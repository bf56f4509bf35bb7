-- ===== src/Manifest/RoundTrip.antt =====
-- `decode` undoes `encode`.
use hypha_db.Base.{
  ℕ, ◌+◌, ◌*◌, ◌≤◌, ◌≡◌, refl, true, some, List, [], ◌∷◌, ◌++◌, append_assoc, append-nil, length,
  length-append, ltb, ◌==◌, ok, arith, All, ge→ltb, >>=-elim, fail_if-elim, ok-injective, subst,
  ◌∙◌, ==_iff, ==_refl,
}
use hypha_db.Base.Bytes.{
  IsU32, IsU64, put_le, get_le-put_le, length-put_le, read_full-append, read_word-put_le,
  bytes_equal,
}
use hypha_db.Manifest.{
  SstableMetadata, Manifest, max_metadata_string_size, metadata_strings_size, payload_size_from,
  write_string, encode_table, encode_tables, encode_payload, read_string, decode_table,
  decode_tables, decode_payload, manifest_checksum, seal, encode, decode, sstable_fixed_size,
  max_manifest_payload_size, max_sstable_count, header_prefix,
}

-- The Go types of the numeric fields.
pub record IsTyped (t : SstableMetadata) : Type 0 where
  pub id_fits : IsU64 t.id
  pub level_fits : IsU32 t.level
  pub size_fits : IsU64 t.size_bytes

pub record HasShortStrings (t : SstableMetadata) : Type 0 where
  pub path_fits : length t.path ≤ max_metadata_string_size
  pub smallest_fits : length t.smallest_key ≤ max_metadata_string_size
  pub largest_fits : length t.largest_key ≤ max_metadata_string_size

read_string-write_string :
    (s rest : List ℕ)
    → length s ≤ max_metadata_string_size
    → read_string (write_string s ++ rest) ≡ ok (s, rest)
unfolding read_string write_string
read_string-write_string s rest h =
    rw
      (
        append_assoc,
        read_word-put_le 4 (length s) (s ++ rest) (omega arith),
        ge→ltb max_metadata_string_size (length s) h,
        length-append,
        ge→ltb (length s + length rest) (length s) (omega arith),
        read_full-append (length s) s rest refl,
      )
      refl

decode_table-encode_table :
    (t : SstableMetadata) (rest : List ℕ)
    → IsTyped t
    → HasShortStrings t
    → decode_table (encode_table t ++ rest) ≡ ok (t, rest)
unfolding decode_table encode_table
decode_table-encode_table t rest ty sh =
    rw
      (
        append_assoc,
        append_assoc,
        append_assoc,
        append_assoc,
        append_assoc,
        read_word-put_le 8 t.id _ ty.id_fits,
        read_word-put_le 4 t.level _ ty.level_fits,
        read_word-put_le 8 t.size_bytes _ ty.size_fits,
        read_string-write_string t.path _ sh.path_fits,
        read_string-write_string t.smallest_key _ sh.smallest_fits,
        read_string-write_string t.largest_key _ sh.largest_fits,
      )
      refl

decode_tables-encode_tables :
    (ts : List SstableMetadata) (i : ℕ) (rest : List ℕ)
    → All IsTyped ts
    → All HasShortStrings ts
    → decode_tables (length ts) i (encode_tables ts ++ rest) ≡ ok (ts, rest)
unfolding decode_tables encode_tables
decode_tables-encode_tables [] i rest ty sh = refl
decode_tables-encode_tables (t ∷ ts) i rest (ty, tys) (sh, shs) =
    rw
      (
        append_assoc,
        decode_table-encode_table t (encode_tables ts ++ rest) ty sh,
        decode_tables-encode_tables ts (i + 1) rest tys shs,
      )
      refl

length-encode_table :
    (t : SstableMetadata)
    → length (encode_table t)
      ≡ 32 + (length t.path + (length t.smallest_key + length t.largest_key))
unfolding encode_table write_string
length-encode_table t = simp (length-append, length-put_le) (omega arith)

metadata_strings_size_exact :
    (t : SstableMetadata) (n : ℕ)
    → metadata_strings_size t ≡ ok n
    → (n ≡ length t.path + (length t.smallest_key + length t.largest_key)) × HasShortStrings t
unfolding metadata_strings_size
metadata_strings_size_exact t n e = ground arith

-- A payload size that the first loop of `encode` computes is the payload's, and is in bounds.
payload_size_exact :
    (size : ℕ) (ts : List SstableMetadata) (total : ℕ)
    → payload_size_from size ts ≡ ok total
    → size ≤ max_manifest_payload_size
    → (total ≡ size + length (encode_tables ts))
      × (total ≤ max_manifest_payload_size)
      × All HasShortStrings ts
unfolding payload_size_from encode_tables
payload_size_exact size [] total e h =
    (omega (arith, ok-injective e), omega (arith, ok-injective e), tt)
payload_size_exact size (t ∷ ts) total e h = >>=-elim (metadata_strings_size t) _ e λ n sized e1.
    fail_if-elim (ltb max_manifest_payload_size (size + (sstable_fixed_size + n))) _ _ e1 λ fits e2.
      let (n_exact, short) = metadata_strings_size_exact t n sized in
      let (total_exact, bound, shorts) =
        payload_size_exact (size + (sstable_fixed_size + n)) ts total e2 (ground arith) in
      (
        omega (
          arith,
          total_exact,
          n_exact,
          length-encode_table t,
          length-append (encode_table t) (encode_tables ts),
        ),
        bound,
        (short, shorts),
      )

pub record IsStorable (m : Manifest) : Type 0 where
  pub next_sstable_fits : IsU64 m.next_sstable_id
  pub next_wal_fits : IsU64 m.next_wal_segment_id
  pub tables_fit : All IsTyped m.sstables

length-encode_tables : (ts : List SstableMetadata) → length ts * 32 ≤ length (encode_tables ts)
unfolding encode_tables
length-encode_tables [] = omega arith
length-encode_tables (t ∷ ts) = omega (
  arith,
  length-encode_tables ts,
  length-encode_table t,
  length-append (encode_table t) (encode_tables ts),
)

length-encode_payload :
    (m : Manifest) → length (encode_payload m) ≡ 20 + length (encode_tables m.sstables)
unfolding encode_payload
length-encode_payload m = simp (length-append, length-put_le) (omega arith)

decode_payload-encode_payload :
    (m : Manifest)
    → IsStorable m
    → length m.sstables ≤ max_sstable_count
    → All HasShortStrings m.sstables
    → decode_payload (encode_payload m) ≡ ok m
unfolding decode_payload encode_payload
decode_payload-encode_payload m st few short =
    let tables = encode_tables m.sstables in
    let no_rest : decode_tables (length m.sstables) 0 tables ≡ ok (m.sstables, []) =
      rw append-nil at (decode_tables-encode_tables m.sstables 0 [] st.tables_fit short) in
    rw
      (
        ge→ltb (length (encode_payload m)) 20 (omega (arith, length-encode_payload m)),
        read_word-put_le 8 m.next_sstable_id _ st.next_sstable_fits,
        read_word-put_le 8 m.next_wal_segment_id _ st.next_wal_fits,
        read_word-put_le 4 (length m.sstables) _ (omega arith),
        ge→ltb max_sstable_count (length m.sstables) few,
        ge→ltb (length tables) (length m.sstables * 32) (length-encode_tables m.sstables),
        no_rest,
      )
      refl

module _ (crc32c : List ℕ → ℕ) (crc32c_fits : (bs : List ℕ) → IsU32 (crc32c bs)) where
  -- The header that `encode` puts before a payload passes the checks of `decode`.
  decode-seal :
      (payload : List ℕ)
      → length payload ≤ max_manifest_payload_size
      → decode crc32c (seal crc32c payload) ≡ decode_payload payload
  unfolding decode seal put_le bytes_equal
  decode-seal payload h =
      let len = get_le-put_le 4 (length payload) (omega arith) in
      let sum =
        get_le-put_le 4 (manifest_checksum crc32c (header_prefix crc32c payload) payload)
          (unfold manifest_checksum in crc32c_fits _) in
      let size : (length (seal crc32c payload) == 20 + length payload) ≡ true =
        (==_iff _ _).1 (omega arith) in
      rw
        (
          ge→ltb (length (seal crc32c payload)) 20 (omega arith),
          get_le-put_le 4 1 (omega arith),
          len,
          ge→ltb max_manifest_payload_size (length payload) h,
          size,
          sum,
          ==_refl (manifest_checksum crc32c (header_prefix crc32c payload) payload),
        )
        refl

  -- A manifest that `encode` accepts is read back from the bytes that it returns.
  pub decode-encode :
      (m : Manifest) (file : List ℕ)
      → IsStorable m
      → encode crc32c (some m) ≡ ok file
      → decode crc32c file ≡ ok m
  unfolding encode
  decode-encode m file st e =
      fail_if-elim (ltb max_sstable_count (length m.sstables)) _ _ e λ few e1.
        >>=-elim (payload_size_from 20 m.sstables) _ e1 λ size sized e2.
          let (exact, bound, short) = payload_size_exact 20 m.sstables size sized (omega arith) in
          subst (λ bytes. decode crc32c bytes ≡ ok m) (ok-injective e2)
            (decode-seal (encode_payload m) (omega (arith, exact, bound, length-encode_payload m))
              ∙ decode_payload-encode_payload m st (ground arith) short)

pub length-seal :
    (crc32c : List ℕ → ℕ) (payload : List ℕ) → length (seal crc32c payload) ≡ 20 + length payload
unfolding seal put_le
length-seal crc32c payload = omega arith

-- What `encode` returns is no longer than `Read` accepts.
pub length-encode :
    (crc32c : List ℕ → ℕ) (m : Manifest) (file : List ℕ)
    → encode crc32c (some m) ≡ ok file
    → length file ≤ 20 + max_manifest_payload_size
unfolding encode
length-encode crc32c m file e =
    fail_if-elim (ltb max_sstable_count (length m.sstables)) _ _ e λ few e1.
      >>=-elim (payload_size_from 20 m.sstables) _ e1 λ size sized e2.
        let (exact, bound, short) = payload_size_exact 20 m.sstables size sized (omega arith) in
        subst (λ bytes. length bytes ≤ 20 + max_manifest_payload_size) (ok-injective e2)
          (omega
            (arith, exact, bound, length-encode_payload m, length-seal crc32c (encode_payload m)))
