-- ===== src/Sstable/View.antt =====
-- decodeRecordView reads a record as DecodeBinary does.
use hypha_db.Base.{
  ℕ, zero, suc, ◌+◌, ◌-◌, ◌≤◌, ◌<◌, ◌≡◌, inl, inr, refl, sym, ap, ◌∙◌, true, false, Bool-cases,
  List, [], ◌∷◌, ◌++◌, length, take, drop, slice, ltb, arith, ok, ◌>>=◌, length-drop, drop-drop,
  ge→ltb, Result-cases, length-append,
}
use hypha_db.Base.Bytes.{get_le, read_full_enough}
use hypha_db.Base.Fields.{byte_at}
use hypha_db.Record.{
  Record, parse_header, check_header, record_of, decode_binary, encode_binary, encoded_size,
  header_size,
}
use hypha_db.Record.RoundTrip.{
  IsEncodable, plain, decode_binary-encode_binary, length-encode_binary,
}
use hypha_db.Sstable.Cursor.{decode_record_view}

take-take : (m n : ℕ) (xs : List ℕ) → m ≤ n → take m (take n xs) ≡ take m xs
take-take zero n xs h = refl
take-take (suc m) zero xs h = absurd (omega arith)
take-take (suc m) (suc n) [] h = refl
take-take (suc m) (suc n) (x ∷ xs) h = ap (λ t. x ∷ t) (take-take m n xs (omega arith))

take-nil : (n : ℕ) → take {A = ℕ} n [] ≡ []
take-nil zero = refl
take-nil (suc n) = refl

drop-take : (m n : ℕ) (xs : List ℕ) → drop m (take n xs) ≡ take (n - m) (drop m xs)
drop-take zero n xs = ap (λ k. take k xs) (omega arith)
drop-take (suc m) zero xs = ap (λ k. take k (drop (suc m) xs)) none_left
  where
    none_left : 0 ≡ 0 - suc m
    none_left = omega arith
drop-take (suc m) (suc n) [] = sym (take-nil (suc n - suc m))
drop-take (suc m) (suc n) (x ∷ xs) = drop-take m n xs ∙ ap (λ k. take k (drop m xs)) (omega arith)

slice-take :
    (lo hi n : ℕ) (xs : List ℕ) → lo ≤ hi → hi ≤ n → slice lo hi (take n xs) ≡ slice lo hi xs
slice-take lo hi n xs le fits =
    ap (take (hi - lo)) (drop-take lo n xs)
    ∙ take-take (hi - lo) (n - lo) (drop lo xs) (omega arith)

byte_at-take : (i n : ℕ) (xs : List ℕ) → i < n → byte_at (take n xs) i ≡ byte_at xs i
byte_at-take i zero xs h = absurd (omega arith)
byte_at-take i (suc n) [] h = refl
byte_at-take zero (suc n) (x ∷ xs) h = refl
byte_at-take (suc i) (suc n) (x ∷ xs) h = byte_at-take i n xs (omega arith)

parse_header-take : (buf : List ℕ) → parse_header (take 17 buf) ≡ parse_header buf
unfolding parse_header
parse_header-take buf =
    let key = slice-take 0 4 17 buf (omega arith) (omega arith) in
    let value = slice-take 4 8 17 buf (omega arith) (omega arith) in
    let seq = slice-take 8 16 17 buf (omega arith) (omega arith) in
    let flags = byte_at-take 16 17 buf (omega arith) in
    λ i. record {
      key_len = get_le (key i);
      value_len = get_le (value i);
      seq = get_le (seq i);
      flags = flags i;
    }

-- On a buffer that holds a header, the view is what the reader of a buffer decodes, and the size is
-- what it has read.
pub decode_record_view-decode_binary :
    (buf : List ℕ)
    → header_size ≤ length buf
    → decode_record_view buf
      ≡ (decode_binary true buf >>= λ (rec, rest). ok (rec, length buf - length rest))
unfolding decode_record_view decode_binary
decode_record_view-decode_binary buf enough =
    let h = parse_header buf in
    let body = length-drop 17 buf in
    rw (read_full_enough 17 buf enough, ge→ltb _ _ enough, parse_header-take buf)
      (elim (Result-cases (check_header h)) [
        | inr (e, bad) ↦ rw bad refl
        | inl (u, good) ↦ elim (Bool-cases (ltb (length (drop 17 buf)) (h.key_len + h.value_len))) [
          | inl short ↦
              let short' : ltb (length buf - 17) (h.key_len + h.value_len) ≡ true =
                rw (← body) short in
              rw (good, short, short', body) refl
          | inr fits ↦
              let fits' : ltb (length buf - 17) (h.key_len + h.value_len) ≡ false =
                rw (← body) fits in
              let key_end = 17 + h.key_len in
              let enough_key : h.key_len ≤ length (drop 17 buf) = ground arith in
              let after = length-drop h.key_len (drop 17 buf) in
              let enough_value : h.value_len ≤ length (drop h.key_len (drop 17 buf)) =
                ground (arith, after) in
              let last = length-drop h.value_len (drop h.key_len (drop 17 buf)) in
              let key_eq : slice 17 key_end buf ≡ take h.key_len (drop 17 buf) =
                ap (λ n. take n (drop 17 buf)) (omega arith) in
              let value_eq : slice key_end (key_end + h.value_len) buf
                  ≡ take h.value_len (drop h.key_len (drop 17 buf)) =
                ap (λ n. take n (drop key_end buf)) (omega arith)
                ∙ ap (take h.value_len) (sym (drop-drop h.key_len 17 buf)) in
              let size : key_end + h.value_len
                  ≡ length buf - length (drop h.value_len (drop h.key_len (drop 17 buf))) =
                omega (arith, last, after, body, enough_key, enough_value) in
              rw
                (
                  good,
                  fits,
                  fits',
                  read_full_enough h.key_len (drop 17 buf) enough_key,
                  read_full_enough h.value_len (drop h.key_len (drop 17 buf)) enough_value,
                )
                (λ i. ok (record_of h (key_eq i) (value_eq i), size i))
        ]
      ])

-- A record is viewed where it was encoded.
pub decode_record_view-encode_binary :
    (rec : Record) (rest : List ℕ)
    → IsEncodable rec
    → decode_record_view (encode_binary rec ++ rest) ≡ ok (plain rec, encoded_size rec)
decode_record_view-encode_binary rec rest fits =
    let size = length-encode_binary rec in
    let whole = length-append (encode_binary rec) rest in
    let enough : 17 ≤ length (encode_binary rec ++ rest) =
      unfold encoded_size in omega (arith, whole, size) in
    let read : length (encode_binary rec ++ rest) - length rest ≡ encoded_size rec =
      omega (arith, whole, size) in
    decode_record_view-decode_binary (encode_binary rec ++ rest) enough
    ∙ rw (decode_binary-encode_binary true rec rest fits) (ap (λ n. ok (plain rec, n)) read)
