-- ===== src/Record/Exact.antt =====
-- `DecodeBinary` accepts exactly the encodings: what it reads is what `EncodeBinary` writes.
use Prim.Native.Nat.{bit_and}
use hypha_db.Base.{
  ℕ, ◌+◌, ◌≤◌, ◌<◌, ◌^◌, ◌≡◌, refl, sym, Bool, true, false, not, List, [], ◌∷◌, ◌++◌, append_assoc,
  length, length-take, length-drop, drop, take-drop, drop-drop, ◌-◌, ◌||◌, ==_iff, slice, ltb, ◌==◌,
  if◌then◌else◌, Result, ok, err, fail_if-elim, >>=-elim, ok-injective, subst, arith, All, All-take,
  All-drop,
}
use hypha_db.Base.Bytes.{
  IsByte, IsU64, put_le, get_le, get_le-lt, put_le-get_le_of_length, read_full, read_full-eq-ok,
  All-of-append_left,
}
use hypha_db.Base.Fields.{byte_at, and_not, drop-of-length, byte_at-IsByte, table, table_entry}
use hypha_db.Record.{
  Record, Header, encode_header, encode_binary, parse_header, check_header, decode_binary,
  max_key_size, max_value_size, record_of, flag_deleted, reading,
}
use hypha_db.Record.RoundTrip.{IsEncodable}

-- Seventeen bytes are three words and the byte behind them.
split_seventeen :
    (xs : List ℕ)
    → length xs ≡ 17
    → xs ≡ slice 0 4 xs ++ (slice 4 8 xs ++ (slice 8 16 xs ++ (byte_at xs 16 ∷ [])))
split_seventeen xs h =
    let second : drop 4 xs ≡ slice 4 8 xs ++ drop 8 xs =
      rw (← drop-drop 4 4 xs) (sym (take-drop 4 (drop 4 xs))) in
    let third : drop 8 xs ≡ slice 8 16 xs ++ drop 16 xs =
      rw (← drop-drop 8 8 xs) (sym (take-drop 8 (drop 8 xs))) in
    rw (← drop-of-length 16 xs h, ← third, ← second) (sym (take-drop 4 xs))

word :
    (n lo hi : ℕ) (xs : List ℕ)
    → All IsByte xs
    → (hi - lo ≡ n) × (hi ≤ length xs)
    → put_le n (get_le (slice lo hi xs)) ≡ slice lo hi xs
word n lo hi xs h p =
    put_le-get_le_of_length n (slice lo hi xs)
      (rw (length-take (hi - lo) (drop lo xs) (omega (arith, length-drop lo xs, p))) p.0)
      (All-take IsByte (hi - lo) (drop lo xs) (All-drop IsByte lo xs h))

parse_header_exact :
    (header : List ℕ) (rec : Record)
    → length header ≡ 17
    → All IsByte header
    → (length rec.key ≡ (parse_header header).key_len)
    → (length rec.value ≡ (parse_header header).value_len)
    → (rec.seq ≡ (parse_header header).seq)
    → ((if rec.deleted then flag_deleted else 0) ≡ (parse_header header).flags)
    → encode_header rec ≡ header
unfolding parse_header encode_header
parse_header_exact header rec n h k v s f =
    rw
      (
        k,
        v,
        s,
        f,
        word 4 0 4 header h (omega (arith, n)),
        word 4 4 8 header h (omega (arith, n)),
        word 8 8 16 header h (omega (arith, n)),
      )
      (sym (split_seventeen header n))

-- A byte with no flag but the deletion mark is that mark or zero.
flags_table :
    table
      (λ f.
        not (and_not f flag_deleted == 0)
        || ((if not (bit_and f flag_deleted == 0) then flag_deleted else 0) == f))
      256
    ≡ true
unfolding table
flags_table = refl

flags_canonical :
    (flags : ℕ)
    → IsByte flags
    → and_not flags flag_deleted ≡ 0
    → (if not (bit_and flags flag_deleted == 0) then flag_deleted else 0) ≡ flags
flags_canonical flags h e =
    (==_iff _ flags).0 (ground (arith, table_entry _ 256 flags_table {i = flags} h))

pub check_header_bounds :
    (h : Header)
    → check_header h ≡ ok tt
    → (and_not h.flags flag_deleted ≡ 0)
      × (h.key_len ≤ max_key_size)
      × (h.value_len ≤ max_value_size)
unfolding check_header
check_header_bounds h e = ground arith

pub reading-eq-ok : {A : Type 0} (r : Result _ A) {a : A} → reading r ≡ ok a → r ≡ ok a
reading-eq-ok (ok a) h = ground arith
reading-eq-ok (err e) h = cc

seq_fits :
    (header : List ℕ) → length header ≡ 17 → All IsByte header → IsU64 (parse_header header).seq
unfolding parse_header
seq_fits header n h =
    let eight : length (slice 8 16 header) ≡ 8 =
      length-take 8 (drop 8 header) (omega (arith, n, length-drop 8 header)) in
    subst (λ k. get_le (slice 8 16 header) < 256 ^ k) eight
      (get_le-lt (slice 8 16 header)
        (All-take IsByte 8 (drop 8 header) (All-drop IsByte 8 header h)))

-- The parts that the decoder has read make up the input.
assemble :
    (r header after_header key after_key value rest : List ℕ)
    → All IsByte r
    → (r ≡ header ++ after_header) × (length header ≡ 17)
    → check_header (parse_header header) ≡ ok tt
    → (after_header ≡ key ++ after_key) × (length key ≡ (parse_header header).key_len)
    → (after_key ≡ value ++ rest) × (length value ≡ (parse_header header).value_len)
    → (r ≡ encode_binary (record_of (parse_header header) key value) ++ rest)
      × IsEncodable (record_of (parse_header header) key value)
assemble r header after_header key after_key value rest bytes from_r checked from_key from_value =
    let (no_flags, key_max, value_max) = check_header_bounds (parse_header header) checked in
    let header_bytes : All IsByte header =
      All-of-append_left IsByte header after_header (subst (All IsByte) from_r.0 bytes) in
    let rec = record_of (parse_header header) key value in
    let flags_byte : IsByte (parse_header header).flags =
      unfold parse_header in byte_at-IsByte header 16 header_bytes in
    let same : encode_header rec ≡ header =
      parse_header_exact header rec from_r.1 header_bytes from_key.1 from_value.1 refl
        (flags_canonical (parse_header header).flags flags_byte no_flags) in
    (
      rw (from_r.0, from_key.0, from_value.0)
          (unfold encode_binary in rw (same, append_assoc, append_assoc)),
      record {
        key_fits = omega (arith, from_key.1, key_max);
        value_fits = omega (arith, from_value.1, value_max);
        seq_fits = seq_fits header from_r.1 header_bytes;
      },
    )

-- What `DecodeBinary` accepts is the encoding of the record that it returns, followed by what it
-- leaves; and that record is within the limits of the format.
pub encode_binary-decode_binary :
    (sized : Bool) (r : List ℕ) (rec : Record) (rest : List ℕ)
    → All IsByte r
    → decode_binary sized r ≡ ok (rec, rest)
    → (r ≡ encode_binary rec ++ rest) × IsEncodable rec
unfolding decode_binary encode_binary
encode_binary-decode_binary sized r rec rest bytes e =
    >>=-elim (reading (read_full 17 r)) _ e λ p read_header e1.
      >>=-elim (check_header (parse_header p.0)) _ e1 λ u checked e2.
        fail_if-elim
          (if sized
            then ltb (length p.1) ((parse_header p.0).key_len + (parse_header p.0).value_len)
            else false)
          _ _ e2
          λ roomy e3.
            >>=-elim (reading (read_full (parse_header p.0).key_len p.1)) _ e3 λ q read_key e4.
              >>=-elim (reading (read_full (parse_header p.0).value_len q.1)) _ e4
                λ t read_value e5.
                  subst (λ s. (r ≡ encode_binary s.0 ++ s.1) × IsEncodable s.0) (ok-injective e5)
                    (assemble r p.0 p.1 q.0 q.1 t.0 t.1 bytes
                      (read_full-eq-ok 17 r p.0 p.1 (reading-eq-ok _ read_header)) checked
                      (read_full-eq-ok _ p.1 q.0 q.1 (reading-eq-ok _ read_key))
                      (read_full-eq-ok _ q.1 t.0 t.1 (reading-eq-ok _ read_value)))
